-- ===== src/Handle/Refine.antt =====
-- The sharded map of include/util.h against one flat map: a partial function from identifiers.
use opentelemetry_c_wrapper.Prelude.{
  ℕ, zero, suc, ◌<◌, ◌≡◌, refl, ◌∙◌, ap, Bool, false, not, ◌&&◌, List, [], ◌∷◌, Option, none, some,
  arith, ◌==◌, if◌then◌else◌, length,
}
use opentelemetry_c_wrapper.Handle.{
  Handle, Shard, is_some, shard_at, find, register_handle, erase, clear_all, for_each_locked,
  otel_handle_init, bad_shards, lookup, get_shard,
}
use opentelemetry_c_wrapper.Handle.Shard.{IsDistinct}
use opentelemetry_c_wrapper.Handle.Find.{
  IsValid, find-register, register-IsValid, register_handle-result, find-erase, erase-IsValid,
  init-IsValid, find-init,
}

-- The critical sections that change a map: a registration (which may throw), an erasure and a
-- drain by for_each_locked.
pub data Op {ℓ} (V : Type ℓ) : Type ℓ where
  register : Bool → ℕ → V → Op V
  drop : ℕ → Op V
  drain : Op V

pub bad_zero : (n : ℕ) → bad_shards n ≡ false → 0 < n
unfolding bad_shards
bad_zero zero h = absurd (ground (arith, h))
bad_zero (suc n) h = omega arith

module _ {ℓ} {V : Type ℓ} where
  pub run : List (Op V) → Handle V → Handle V
  run [] m = m
  run (register throws k v ∷ ops) m = run ops (register_handle throws m k v).1
  run (drop k ∷ ops) m = run ops (erase m k)
  run (drain ∷ ops) m = run ops (for_each_locked m).1

  -- A registration stores its handle if nothing throws and the identifier is new.
  unfoldable pub run_flat : List (Op V) → (ℕ → Option V) → ℕ → Option V
  run_flat [] f = f
  run_flat (register throws k v ∷ ops) f =
      run_flat ops (λ j. if not throws && not (is_some (f k)) && (j == k) then some v else f j)
  run_flat (drop k ∷ ops) f = run_flat ops (λ j. if j == k then none else f j)
  run_flat (drain ∷ ops) f = run_flat ops (λ j. none)

  shard_at-clear_all : (ss : List (Shard V)) (i : ℕ) → shard_at (clear_all ss) i ≡ []
  unfolding shard_at clear_all
  shard_at-clear_all [] i = refl
  shard_at-clear_all (s ∷ ss) zero = refl
  shard_at-clear_all (s ∷ ss) (suc i) = shard_at-clear_all ss i

  length-clear_all : (ss : List (Shard V)) → length (clear_all ss) ≡ length ss
  unfolding clear_all
  length-clear_all [] = refl
  length-clear_all (s ∷ ss) = ap suc (length-clear_all ss)

  drain-IsValid : (m : Handle V) → IsValid m → IsValid (for_each_locked m).1
  unfolding for_each_locked IsDistinct
  drain-IsValid m w = record {
    some_shard = rw (length-clear_all m.shards) w.some_shard;
    distinct = λ i. rw (shard_at-clear_all m.shards i) tt;
  }

  find-drain : (m : Handle V) (j : ℕ) → find (for_each_locked m).1 j ≡ none
  unfolding for_each_locked find get_shard lookup
  find-drain m j = rw (shard_at-clear_all m.shards _) refl

  run-IsValid : (ops : List (Op V)) (m : Handle V) → IsValid m → IsValid (run ops m)
  unfolding run
  run-IsValid [] m w = w
  run-IsValid (register throws k v ∷ ops) m w = run-IsValid ops _ (register-IsValid throws m k v w)
  run-IsValid (drop k ∷ ops) m w = run-IsValid ops _ (erase-IsValid m k w)
  run-IsValid (drain ∷ ops) m w = run-IsValid ops _ (drain-IsValid m w)

  run-Flat :
      (ops : List (Op V)) (m : Handle V) (f : ℕ → Option V)
      → IsValid m
      → ((j : ℕ) → find m j ≡ f j)
      → (j : ℕ) → find (run ops m) j ≡ run_flat ops f j
  unfolding run run_flat
  run-Flat [] m f w e = e
  run-Flat (register throws k v ∷ ops) m f w e =
      run-Flat ops _ _ (register-IsValid throws m k v w) (λ j.
        find-register throws m k v w j ∙ rw (register_handle-result throws m k v, e k, e j) refl)
  run-Flat (drop k ∷ ops) m f w e =
      run-Flat ops _ _ (erase-IsValid m k w) (λ j. find-erase m k w j ∙ rw (e j) refl)
  run-Flat (drain ∷ ops) m f w e = run-Flat ops _ _ (drain-IsValid m w) (find-drain m)

  -- A map that the constructor accepts behaves like one flat map: after any sequence of
  -- registrations (throwing or not), erasures and drains, a look-up answers what the flat map
  -- holds, and the shards stay well formed.
  pub run-run_flat :
      (n : ℕ) (ops : List (Op V))
      → bad_shards n ≡ false
      → IsValid (run ops (otel_handle_init n))
        × ((j : ℕ) → find (run ops (otel_handle_init n)) j ≡ run_flat ops (λ i. none) j)
  run-run_flat n ops h = (
    run-IsValid ops _ (init-IsValid n (bad_zero n h)),
    run-Flat ops _ _ (init-IsValid n (bad_zero n h)) (find-init n),
  )
