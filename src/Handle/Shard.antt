-- ===== src/Handle/Shard.antt =====
-- The laws of one shard of include/util.h: its std::unordered_map as a list with distinct keys.
use opentelemetry_c_wrapper.Prelude.{
  ℕ, zero, suc, ◌+◌, ◌<◌, ◌≡◌, refl, ◌∙◌, List, [], ◌∷◌, none, arith, ◌==◌, Bool-cases, inl, inr,
  if◌then◌else◌, length, set,
}
use opentelemetry_c_wrapper.Handle.{Shard, lookup, is_some, shard_erase, shard_at}

module _ {ℓ} {V : Type ℓ} where
  -- No key stands twice.
  unfoldable pub IsDistinct : Shard V → Type ℓ
  unfolding lookup
  IsDistinct [] = Unit
  IsDistinct ((k, v) ∷ s) = (lookup k s ≡ none) × IsDistinct s

  pub lookup-shard_erase :
      (k j : ℕ) (s : Shard V)
      → IsDistinct s
      → lookup j (shard_erase k s) ≡ (if j == k then none else lookup j s)
  unfolding lookup shard_erase IsDistinct
  lookup-shard_erase k j [] d = elim (Bool-cases (j == k)) [ inl e ↦ rw e refl | inr e ↦ rw e refl ]
  lookup-shard_erase k j ((i, v) ∷ s) d = ground (arith, lookup-shard_erase k j s (d.1), d.0)

  pub shard_erase-IsDistinct : (k : ℕ) (s : Shard V) → IsDistinct s → IsDistinct (shard_erase k s)
  unfolding lookup shard_erase IsDistinct
  shard_erase-IsDistinct k [] d = d
  shard_erase-IsDistinct k ((i, v) ∷ s) d = elim (Bool-cases (i == k)) [
    | inl e ↦ rw e (d.1)
    | inr e ↦
        rw e
          ((ground (arith, lookup-shard_erase k i s (d.1), d.0)), shard_erase-IsDistinct k s (d.1))
  ]

  pub length-shard_erase :
      (k : ℕ) (s : Shard V)
      → length (shard_erase k s) + (if is_some (lookup k s) then 1 else 0) ≡ length s
  unfolding lookup shard_erase is_some
  length-shard_erase k [] = refl
  length-shard_erase k ((i, v) ∷ s) = elim (Bool-cases (i == k)) [
    | inl e ↦ rw e (omega arith)
    | inr e ↦ rw e (omega (arith, length-shard_erase k s))
  ]

  pub shard_at-set :
      (ss : List (Shard V)) (i j : ℕ) (s : Shard V)
      → i < length ss
      → shard_at (set ss i s) j ≡ (if j == i then s else shard_at ss j)
  unfolding shard_at
  shard_at-set [] i j s h = absurd (omega arith)
  shard_at-set (t ∷ ts) zero zero s h = refl
  shard_at-set (t ∷ ts) zero (suc j) s h = ground arith
  shard_at-set (t ∷ ts) (suc i) zero s h = ground arith
  shard_at-set (t ∷ ts) (suc i) (suc j) s h = shard_at-set ts i j s (omega arith) ∙ ground arith
