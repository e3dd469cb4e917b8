-- ===== src/Mutex/Exclusion.antt =====
-- otel_shared_mutex keeps writers apart from everybody else, and never stops all its threads.
use native.Mathlib.Decide.{ℕ_discrete}
use opentelemetry_c_wrapper.Prelude.{
  ℕ, ◌<◌, ◌^◌, ◌≡◌, ◌≢◌, refl, Bool, true, false, Bool-cases, inl, inr, arith,
}
use opentelemetry_c_wrapper.Mutex.Counts.{sum, sum-found, two-sum, one-sum}
use opentelemetry_c_wrapper.Mutex.{
  Lock, Pc, idle, announced, writing, left, testing, passed, queued, passing, reading, Move, System,
  Reach,
}
use opentelemetry_c_wrapper.Mutex.Invariant.{excludes, shares, is_pending, Counted, Reach-Counted}

-- Between lock() and unlock(), or between lock_shared() and unlock_shared().
abbrev pub is_inside : Pc → Bool
is_inside writing = true
is_inside reading = true
is_inside _ = false

-- While one of fewer than 2 ^ 31 threads is between lock() and unlock(), no other thread is
-- between lock() and unlock() or between lock_shared() and unlock_shared().
pub lock-excludes :
    {n : ℕ} {s : System}
    → n < 2 ^ 31
    → Reach n s
    → (i j : ℕ) → i < n
    → j < n
    → s.pc i ≡ writing
    → is_inside (s.pc j) ≡ true
    → i ≡ j
lock-excludes {n} {s} few r i j hi hj in_i in_j = elim (ℕ_discrete i j) [
  | yes e ↦ e
  | no ne ↦ absurd (
      ground (
        arith,
        inv.owner,
        inv.readers,
        inv.apart,
        two-sum excludes n s.pc i j hi hj ne,
        one-sum excludes n s.pc i hi,
        one-sum shares n s.pc j hj,
      ))
]
  where
    inv : Counted n s.lock s.pc
    inv = Reach-Counted few r

-- In every reachable state of fewer than 2 ^ 31 threads, writers_pending_ is the number of the
-- threads that are between the start of lock() and the end of unlock().
pub writers_pending-sum :
    {n : ℕ} {s : System} → n < 2 ^ 31 → Reach n s → s.lock.writers_pending ≡ sum is_pending n s.pc
writers_pending-sum few r = (Reach-Counted few r).pending

-- A thread that has begun an operation of the lock and can take its next access.
pub Mobile : ℕ → System → Type 0
Mobile n s = (j : ℕ) × (j < n) × (s.pc j ≢ idle) × (m : Lock) × (p : Pc) × Move s.lock (s.pc j) m p

module _ {n : ℕ} {s : System} (inv : Counted n s.lock s.pc) where
  -- A thread at `p`, with the move that it has there.
  mobile :
      (j : ℕ) (p : Pc) {m : Lock} {p' : Pc}
      → j < n
      → s.pc j ≡ p
      → p ≢ idle
      → Move s.lock p m p'
      → Mobile n s
  unfolding Mobile
  mobile j p {m} {p'} hj e ne mv = (j, hj, rw e ne, m, p', rw e mv)

  excluding-Mobile : (j : ℕ) (p : Pc) → j < n → s.pc j ≡ p → 0 < excludes p → Mobile n s
  excluding-Mobile j writing hj e h = mobile j writing hj e (λ q. cc) Move.unlock
  excluding-Mobile j passing hj e h = mobile j passing hj e (λ q. cc) Move.retry
  excluding-Mobile j p hj e h = absurd (omega arith)

  sharing-Mobile : (j : ℕ) (p : Pc) → j < n → s.pc j ≡ p → 0 < shares p → Mobile n s
  sharing-Mobile j reading hj e h = mobile j reading hj e (λ q. cc) Move.unlock_shared
  sharing-Mobile j p hj e h = absurd (omega arith)

  -- The thread that holds mutex_ exclusively can give it up.
  owner-Mobile : s.lock.exclusive ≡ true → Mobile n s
  owner-Mobile e =
      let (j, hj, weighs) = sum-found excludes n s.pc (ground (arith, inv.owner)) in
      excluding-Mobile j (s.pc j) hj refl weighs

  reader-Mobile : 0 < s.lock.shared → Mobile n s
  reader-Mobile h =
      let (j, hj, weighs) = sum-found shares n s.pc (omega (arith, inv.readers)) in
      sharing-Mobile j (s.pc j) hj refl weighs

  -- A thread that waits for mutex_ gets it, or someone can give it up.
  free-Mobile : (s.lock.exclusive ≡ false → s.lock.shared ≡ 0 → Mobile n s) → Mobile n s
  free-Mobile granted = elim (Bool-cases s.lock.exclusive) [
    | inl held ↦ owner-Mobile held
    | inr free ↦ elim (ℕ_discrete s.lock.shared 0) [
      | yes none ↦ granted free none
      | no some ↦ reader-Mobile (omega arith)
    ]
  ]

  shared-Mobile : (s.lock.exclusive ≡ false → Mobile n s) → Mobile n s
  shared-Mobile granted = elim (Bool-cases s.lock.exclusive) [
    | inl held ↦ owner-Mobile held
    | inr free ↦ granted free
  ]

  busy-Mobile : (i : ℕ) (p : Pc) → i < n → s.pc i ≡ p → p ≢ idle → Mobile n s
  busy-Mobile i idle hi e ne = absurd (ne refl)
  busy-Mobile i announced hi e ne =
      free-Mobile (λ free none. mobile i announced hi e ne (Move.lock_exclusive free none))
  busy-Mobile i writing hi e ne = mobile i writing hi e ne Move.unlock
  busy-Mobile i left hi e ne = mobile i left hi e ne Move.retire
  busy-Mobile i testing hi e ne = elim (ℕ_discrete s.lock.writers_pending 0) [
    | yes none ↦ mobile i testing hi e ne (Move.none_pending none)
    | no some ↦ mobile i testing hi e ne (Move.some_pending some)
  ]
  busy-Mobile i passed hi e ne =
      shared-Mobile (λ free. mobile i passed hi e ne (Move.lock_shared free))
  busy-Mobile i queued hi e ne =
      free-Mobile (λ free none. mobile i queued hi e ne (Move.divert free none))
  busy-Mobile i passing hi e ne = mobile i passing hi e ne Move.retry
  busy-Mobile i reading hi e ne = mobile i reading hi e ne Move.unlock_shared

-- No deadlock: in a reachable state of fewer than 2 ^ 31 threads where some thread has begun an
-- operation of the lock, some thread that has begun one can take its next access.
pub busy-can_move :
    {n : ℕ} {s : System} → n < 2 ^ 31 → Reach n s → (i : ℕ) → i < n → s.pc i ≢ idle → Mobile n s
busy-can_move {s} few r i hi ne = busy-Mobile (Reach-Counted few r) i (s.pc i) hi refl ne
