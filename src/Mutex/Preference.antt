-- ===== src/Mutex/Preference.antt =====
-- Writers are not kept waiting by readers that come later.
use opentelemetry_c_wrapper.Prelude.{ℕ, ◌+◌, ◌≤◌, ◌<◌, ◌^◌, ◌≡◌, arith}
use opentelemetry_c_wrapper.Mutex.Counts.{update, sum, sum-update, one-sum, sum-le}
use opentelemetry_c_wrapper.Mutex.{
  Lock, Pc, announced, passed, reading, Move, announce, System, Step, turn, Reach, later,
}
use opentelemetry_c_wrapper.Mutex.Invariant.{shares, is_pending, Counted, guard, Reach-Counted}

-- A reader that has passed the test of writers_pending_: its next access takes or gives back the
-- shared lock.
abbrev pub is_in_flight : Pc → ℕ
is_in_flight passed = 1
is_in_flight reading = 1
is_in_flight _ = 0

-- Steps from a state to a later one, with thread `j` waiting in lock() all along.
pub data Waiting (n j : ℕ) (s : System) : System → Type 0 where
  here : s.pc j ≡ announced → Waiting n j s s
  goes_on : {t u : System} → Waiting n j s t → Step n t u → u.pc j ≡ announced → Waiting n j s u

still : {n j : ℕ} {s t : System} → Waiting n j s t → t.pc j ≡ announced
still (here e) = e
still (goes_on w st e) = e

module _ {n : ℕ} {m : Lock} {pc : ℕ → Pc} (inv : Counted n m pc) (i : ℕ) where
  -- No move adds a reader in flight while a writer is pending.
  Move-in_flight :
      {p p' : Pc} {m' : Lock}
      → Move m p m' p'
      → 0 < sum is_pending n pc
      → sum is_in_flight n (update pc i p') + is_in_flight p
        ≡ sum is_in_flight n pc + is_in_flight p'
      → sum is_in_flight n (update pc i p') ≤ sum is_in_flight n pc
  Move-in_flight announce h e = omega arith
  Move-in_flight mv h e = ground (arith, guard mv, inv.pending)

Step-in_flight :
    {n : ℕ} {s t : System}
    → Step n s t
    → Counted n s.lock s.pc
    → 0 < sum is_pending n s.pc
    → sum is_in_flight n t.pc ≤ sum is_in_flight n s.pc
Step-in_flight {n} {s} (turn i {p} lt mv) inv h =
    Move-in_flight inv i mv h (sum-update is_in_flight n s.pc i p lt)

Waiting-Reach : {n j : ℕ} {s t : System} → Reach n s → Waiting n j s t → Reach n t
Waiting-Reach r (here e) = r
Waiting-Reach r (goes_on w st e) = later (Waiting-Reach r w) st

-- The readers in flight fall in number while a writer waits.
in_flight-falls :
    {n j : ℕ} {s t : System}
    → n < 2 ^ 31
    → j < n
    → Reach n s
    → Waiting n j s t
    → sum is_in_flight n t.pc ≤ sum is_in_flight n s.pc
in_flight-falls few hj r (here e) = omega arith
in_flight-falls {n} {j} few hj r (goes_on {t} w st e) = omega (
  arith,
  in_flight-falls few hj r w,
  Step-in_flight st (Reach-Counted few (Waiting-Reach r w)) pending,
)
  where
    pending : 0 < sum is_pending n t.pc
    pending = ground (arith, still w, one-sum is_pending n t.pc j hj)

-- Of fewer than 2 ^ 31 threads: as long as a writer waits for mutex_ in lock(), the readers in
-- flight do not grow in number, and no more threads hold mutex_ shared than were in flight at the
-- start of the wait.
pub lock-stops_readers :
    {n j : ℕ} {s t : System}
    → n < 2 ^ 31
    → j < n
    → Reach n s
    → Waiting n j s t
    → (sum is_in_flight n t.pc ≤ sum is_in_flight n s.pc)
      × (t.lock.shared ≤ sum is_in_flight n s.pc)
lock-stops_readers {n} {t} few hj r w = (
  in_flight-falls few hj r w,
  omega (
    arith,
    in_flight-falls few hj r w,
    (Reach-Counted few (Waiting-Reach r w)).readers,
    sum-le shares is_in_flight n t.pc (λ p. ground arith),
  ),
)
