-- ===== src/KeyValue/Values.antt =====
-- otelc_value_add of src/util.cpp keeps the array well formed and accounts for every block.
use opentelemetry_c_wrapper.Prelude.{
  ℕ, refl, Bool, true, false, List, [], ◌∷◌, ◌++◌, Option, none, some, Bool-cases, inl, inr,
}
use opentelemetry_c_wrapper.Heap.{Heap, realloc, refers}
use opentelemetry_c_wrapper.Heap.Balance.{Gained}
use opentelemetry_c_wrapper.TextMap.{Str, str_block}
use opentelemetry_c_wrapper.KeyValue.{
  Value, value_null, value_data, Array, memdup, wants_data, value_copied, value_grown, value_add,
}
use opentelemetry_c_wrapper.KeyValue.Copies.{memdup-Gained, moved_to, realloc-Gained}
use opentelemetry_c_wrapper.KeyValue.Adds.{Adds, Adds-failed, Adds-counted}
use opentelemetry_c_wrapper.KeyValue.Store.{value_blocks, blocks, owned, IsValid}

module _ (base : Heap) (a : Array Value) (v : IsValid a) where
  abbrev rest : List ℕ
  rest = blocks value_blocks a.len a.cells

  Adds-copied :
      (p : ℕ) (r : Option Str × Heap)
      → Gained base (refers (str_block r.0) ++ (p ∷ rest)) r.1
      → Adds value_blocks base (value_copied a p r)
  unfolding value_copied
  Adds-copied p (none, h) g = Adds-failed value_blocks base a v p value_null h g
  Adds-copied p (some s, h) g =
      Adds-counted value_blocks base a v p (value_data (some s)) (s.addr ∷ []) h (λ q. refl) g

  Adds-grown :
      (s : Option (List ℕ)) (n : ℕ) (r : Option ℕ × Heap)
      → Gained base (moved_to a.block r.0 ++ rest) r.1
      → Adds value_blocks base (value_grown a s n r)
  unfolding value_grown
  Adds-grown s n (none, h) g = record { valid = v; gained = g }
  Adds-grown s n (some p, h) g = elim (Bool-cases (wants_data s n)) [
    | inl e ↦ rw e (Adds-copied p (memdup s n h) (memdup-Gained base (p ∷ rest) s n h g))
    | inr e ↦ rw e (Adds-counted value_blocks base a v p (value_data none) [] h (λ q. refl) g)
  ]

-- otelc_value_add, on a well-formed array whose blocks are on top of some heap, leaves a well-formed
-- array whose blocks are on top of that heap, and frees nothing twice, also on an error.
pub value_add-Adds :
    (given : Bool) (a : Array Value) (s : Option (List ℕ)) (n : ℕ) (base h : Heap)
    → IsValid a
    → Gained base (owned value_blocks a) h
    → Adds value_blocks base (value_add given a s n h)
unfolding value_add
value_add-Adds false a s n base h v g = record { valid = v; gained = g }
value_add-Adds true a s n base h v g =
    Adds-grown base a v s n (realloc a.block h)
      (realloc-Gained base (blocks value_blocks a.len a.cells) a.block h g)
