-- ===== src/Handle/Examples.antt =====
-- The theorems about the sharded map of include/util.h at concrete maps, and runs of it.
use opentelemetry_c_wrapper.Prelude.{
  ℕ, ◌^◌, ◌≡◌, ◌↔◌, refl, true, false, List, [], ◌∷◌, none, some, arith, length,
}
use opentelemetry_c_wrapper.Handle.{
  Handle, bad_shards, otel_handle_init, find, register_handle, total_map_size, for_each_locked,
  is_some,
}
use opentelemetry_c_wrapper.Handle.Index.{bad_shards_iff}
use opentelemetry_c_wrapper.Handle.Find.{IsValid, init-IsValid, register-IsValid}
use opentelemetry_c_wrapper.Handle.Refine.{Op, register, drop, run, run_flat, run-run_flat}
use opentelemetry_c_wrapper.Handle.Sizes.{IsVisited, for_each_locked-drains}

abbrev ops : List (Op ℕ)
ops =
    register false 5 50
    ∷ register false 7 70
    ∷ register false 5 51
    ∷ drop 7
    ∷ register true 9 90
    ∷ []

-- Two shards with the handles 5 and 7 in one of them.
abbrev two : Handle ℕ
two = (register_handle false (register_handle false (otel_handle_init 2) 5 50).1 7 70).1

two-IsValid : IsValid two
two-IsValid =
    register-IsValid false (register_handle false (otel_handle_init 2) 5 50).1 7 70
      (register-IsValid false (otel_handle_init 2) 5 50 (init-IsValid 2 (omega arith)))

four_accepted : bad_shards 4 ≡ false
unfolding bad_shards
four_accepted = refl

bad_shards_iff_example : (bad_shards 6 ≡ false) ↔ ((k : ℕ) × (6 ≡ 2 ^ k))
bad_shards_iff_example = bad_shards_iff 6

run-run_flat_example :
    IsValid (run ops (otel_handle_init 4))
    × ((j : ℕ) → find (run ops (otel_handle_init 4)) j ≡ run_flat ops (λ i. none) j)
run-run_flat_example = run-run_flat 4 ops four_accepted

-- Only the first handle under 5 is left.
run_finds : run_flat ops (λ i. none) 5 ≡ some 50
unfolding run_flat is_some
run_finds = refl

for_each_locked-drains_example :
    let (visited, n) = for_each_locked two in
    (length visited ≡ total_map_size two)
    × ((k : ℕ) → IsVisited k (find two k) visited)
    × (total_map_size n ≡ 0)
for_each_locked-drains_example = for_each_locked-drains two
