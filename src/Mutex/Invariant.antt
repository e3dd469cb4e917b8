-- ===== src/Mutex/Invariant.antt =====
-- What the members of otel_shared_mutex say about the threads, in every reachable state.
use opentelemetry_c_wrapper.Prelude.{
  ℕ, ◌+◌, ◌≤◌, ◌<◌, ◌^◌, ◌≡◌, ◌≢◌, refl, Bool, true, false, arith,
}
use opentelemetry_c_wrapper.Mutex.Counts.{update, sum, sum-update, sum-bounded, sum-none}
use opentelemetry_c_wrapper.Mutex.{
  Lock, Pc, idle, announced, writing, left, passing, reading, Move, announce, lock_exclusive,
  none_pending, some_pending, lock_shared, divert, System, init, Step, turn, Reach, start, later,
}

-- A thread that holds mutex_ exclusively: a writer, or a reader that queued behind one.
abbrev pub excludes : Pc → ℕ
excludes writing = 1
excludes passing = 1
excludes _ = 0

abbrev pub shares : Pc → ℕ
shares reading = 1
shares _ = 0

-- A writer from its fetch_add to its fetch_sub.
abbrev pub is_pending : Pc → ℕ
is_pending announced = 1
is_pending writing = 1
is_pending left = 1
is_pending _ = 0

abbrev pub as_number : Bool → ℕ
as_number true = 1
as_number false = 0

pub record Counted (n : ℕ) (m : Lock) (pc : ℕ → Pc) : Type 0 where
  pub fits : n < 2 ^ 31
  pub owner : sum excludes n pc ≡ as_number m.exclusive
  pub readers : sum shares n pc ≡ m.shared
  pub apart : m.exclusive ≡ true → m.shared ≡ 0
  pub pending : m.writers_pending ≡ sum is_pending n pc

-- The premises of a move.
abbrev pub Guard : {m m' : Lock} {p p' : Pc} → Move m p m' p' → Type 0
Guard {m} (lock_exclusive _ _) = (m.exclusive ≡ false) × (m.shared ≡ 0)
Guard {m} (none_pending _) = m.writers_pending ≡ 0
Guard {m} (some_pending _) = m.writers_pending ≢ 0
Guard {m} (lock_shared _) = m.exclusive ≡ false
Guard {m} (divert _ _) = (m.exclusive ≡ false) × (m.shared ≡ 0)
Guard _ = Unit

pub guard : {m m' : Lock} {p p' : Pc} (mv : Move m p m' p') → Guard mv
guard (lock_exclusive e s) = (e, s)
guard (none_pending e) = e
guard (some_pending e) = e
guard (lock_shared e) = e
guard (divert e s) = (e, s)
guard _ = tt

module _ {n : ℕ} {m : Lock} {pc : ℕ → Pc} (inv : Counted n m pc) (i : ℕ) where
  open inv use {fits, owner, readers, apart, pending}

  -- Thread `i` goes from `p` to `p'`.
  record Mover (p p' : Pc) : Type 0 where
    owners : sum excludes n (update pc i p') + excludes p ≡ sum excludes n pc + excludes p'
    sharers : sum shares n (update pc i p') + shares p ≡ sum shares n pc + shares p'
    writers : sum is_pending n (update pc i p') + is_pending p ≡ sum is_pending n pc + is_pending p'
    room : (sum is_pending n pc ≤ n) × (sum is_pending n (update pc i p') ≤ n)

  mover : i < n → (p' : Pc) → Mover (pc i) p'
  mover lt p' = record {
    owners = sum-update excludes n pc i p' lt;
    sharers = sum-update shares n pc i p' lt;
    writers = sum-update is_pending n pc i p' lt;
    room = (
      sum-bounded is_pending (λ p. ground arith) n pc,
      sum-bounded is_pending (λ p. ground arith) n (update pc i p'),
    );
  }

  Move-counts : {p p' : Pc} {m' : Lock} → Move m p m' p' → Mover p p' → record {
    owned : sum excludes n (update pc i p') ≡ as_number m'.exclusive;
    read : sum shares n (update pc i p') ≡ m'.shared;
    separate : m'.exclusive ≡ true → m'.shared ≡ 0;
    counted : m'.writers_pending ≡ sum is_pending n (update pc i p');
  }
  Move-counts announce f = ground arith
  Move-counts mv f = ground (arith, guard mv)

  Move-Counted : {p' : Pc} {m' : Lock} → i < n → Move m (pc i) m' p' → Counted n m' (update pc i p')
  Move-Counted {p'} lt mv = record {
    fits = fits;
    owner = owned;
    readers = read;
    apart = separate;
    pending = counted;
  }
    where
      open (Move-counts mv (mover lt p')) use {owned, read, separate, counted}

pub Step-Counted :
    {n : ℕ} {s t : System} → Step n s t → Counted n s.lock s.pc → Counted n t.lock t.pc
Step-Counted (turn i lt mv) inv = Move-Counted inv i lt mv

pub init-Counted : (n : ℕ) → n < 2 ^ 31 → Counted n init.lock init.pc
init-Counted n few = record {
  fits = few;
  owner = sum-none excludes n _ (λ i. refl);
  readers = sum-none shares n _ (λ i. refl);
  apart = λ e. refl;
  pending = omega (arith, sum-none is_pending n (λ _. idle) (λ i. refl));
}

pub Reach-Counted : {n : ℕ} {s : System} → n < 2 ^ 31 → Reach n s → Counted n s.lock s.pc
Reach-Counted {n} few start = init-Counted n few
Reach-Counted few (later r st) = Step-Counted st (Reach-Counted few r)
