-- ===== src/Mutex/Counts.antt =====
-- Threads as functions of their number: the change of one, and the sum of a weight over the first
-- `n` of them.
use native.Mathlib.Decide.{dec_lt, ℕ_discrete}
use mathlib.Core.Logic.{ite}
use opentelemetry_c_wrapper.Prelude.{ℕ, zero, suc, ◌+◌, ◌≤◌, ◌<◌, ◌≡◌, ◌≢◌, refl, arith}

abbrev pub update {ℓ} : {A : Type ℓ} → (ℕ → A) → ℕ → A → ℕ → A
update f i a j = ite (ℕ_discrete i j) a (f j)

module _ {ℓ} {A : Type ℓ} (w : A → ℕ) where
  unfoldable pub sum : ℕ → (ℕ → A) → ℕ
  sum zero f = 0
  sum (suc n) f = w (f n) + sum n f

  -- A change from `n` on is not counted.
  sum-beyond : (n : ℕ) (f : ℕ → A) (i : ℕ) (a : A) → n ≤ i → sum n (update f i a) ≡ sum n f
  unfolding sum
  sum-beyond zero f i a h = refl
  sum-beyond (suc n) f i a h = ground (arith, sum-beyond n f i a)

  pub sum-update :
      (n : ℕ) (f : ℕ → A) (i : ℕ) (a : A) → i < n → sum n (update f i a) + w (f i) ≡ sum n f + w a
  unfolding sum
  sum-update zero f i a h = absurd (omega arith)
  sum-update (suc n) f i a h = elim (dec_lt i n) [
    | yes below ↦ ground (arith, sum-update n f i a below)
    | no last ↦ ground (arith, sum-beyond n f i a)
  ]

  -- One thread weighs no more than all.
  pub one-sum : (n : ℕ) (f : ℕ → A) (i : ℕ) → i < n → w (f i) ≤ sum n f
  unfolding sum
  one-sum zero f i h = absurd (omega arith)
  one-sum (suc n) f i h = elim (dec_lt i n) [
    | yes below ↦ omega (arith, one-sum n f i below)
    | no last ↦ ground arith
  ]

  pub two-sum : (n : ℕ) (f : ℕ → A) (i j : ℕ) → i < n → j < n → i ≢ j → w (f i) + w (f j) ≤ sum n f
  unfolding sum
  two-sum zero f i j hi hj ne = absurd (omega arith)
  two-sum (suc n) f i j hi hj ne = elim (dec_lt i n) [
    | yes i_below ↦ elim (dec_lt j n) [
      | yes j_below ↦ omega (arith, two-sum n f i j i_below j_below ne)
      | no last ↦ ground (arith, one-sum n f i i_below)
    ]
    | no last ↦ ground (arith, one-sum n f j)
  ]

  pub sum-bounded : ((a : A) → w a ≤ 1) → (n : ℕ) (f : ℕ → A) → sum n f ≤ n
  unfolding sum
  sum-bounded small zero f = omega arith
  sum-bounded small (suc n) f = omega (arith, small (f n), sum-bounded small n f)

  pub sum-none : (n : ℕ) (f : ℕ → A) → ((i : ℕ) → w (f i) ≡ 0) → sum n f ≡ 0
  unfolding sum
  sum-none zero f h = refl
  sum-none (suc n) f h = omega (arith, h n, sum-none n f h)

  -- A sum that is not 0 has a thread that weighs.
  pub sum-found : (n : ℕ) (f : ℕ → A) → 0 < sum n f → (i : ℕ) × (i < n) × (0 < w (f i))
  unfolding sum
  sum-found zero f h = absurd (omega arith)
  sum-found (suc n) f h = elim (dec_lt 0 (w (f n))) [
    | yes here ↦ (n, omega arith, here)
    | no above ↦ let (i, below, weighs) = sum-found n f (omega arith) in (i, omega arith, weighs)
  ]

-- A weight that is nowhere larger has no larger sum.
pub sum-le {ℓ} :
    {A : Type ℓ} (v w : A → ℕ) (n : ℕ) (f : ℕ → A) → ((a : A) → v a ≤ w a) → sum v n f ≤ sum w n f
unfolding sum
sum-le v w zero f h = omega arith
sum-le v w (suc n) f h = omega (arith, h (f n), sum-le v w n f h)
