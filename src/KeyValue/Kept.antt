-- ===== src/KeyValue/Kept.antt =====
-- otelc_kv_add of src/util.cpp keeps the array well formed and accounts for every block, also
-- when memory runs out half way.
use opentelemetry_c_wrapper.Prelude.{
  ℕ, ◌≡◌, refl, Bool, true, false, not, ◌&&◌, List, ◌∷◌, ◌++◌, Option, none, some, arith,
  count-append, append_assoc, Bool-cases, inl, inr, if◌then◌else◌,
}
use opentelemetry_c_wrapper.Heap.{Heap, realloc, sfree, refers}
use opentelemetry_c_wrapper.Heap.Balance.{Gained}
use opentelemetry_c_wrapper.TextMap.{Str, str_block}
use opentelemetry_c_wrapper.KeyValue.{
  Kv, Array, Filling, wants_data, is_some, fill_key, fill_data, kv_filled, kv_grown, kv_add,
}
use opentelemetry_c_wrapper.KeyValue.Copies.{
  strdup-Gained, memdup-Gained, moved_to, realloc-Gained, Gained-perm, sfree-Gained,
}
use opentelemetry_c_wrapper.KeyValue.Adds.{Adds, Adds-failed, Adds-counted}
use opentelemetry_c_wrapper.KeyValue.Store.{kv_blocks, blocks, owned, IsValid}

-- The blocks that the filling of a cell holds.
abbrev filled : Filling → List ℕ
filled f = refers (str_block f.data_block) ++ refers (str_block f.key)

fill_key-Gained :
    (base : Heap) (xs : List ℕ) (k : Option (List ℕ)) (h : Heap)
    → Gained base xs h
    → Gained base (refers (str_block (fill_key k h).key) ++ xs) (fill_key k h).heap
unfolding fill_key
fill_key-Gained base xs none h g = g
fill_key-Gained base xs (some k) h g = strdup-Gained base xs (some k) h g

-- Until the data is copied there is none.
fill_key-data : (k : Option (List ℕ)) (h : Heap) → (fill_key k h).data_block ≡ none
unfolding fill_key
fill_key-data none h = refl
fill_key-data (some k) h = refl

fill_data-Gained :
    (base : Heap) (xs : List ℕ) (s : Option (List ℕ)) (n : ℕ) (f : Filling)
    → f.data_block ≡ none
    → Gained base (refers (str_block f.key) ++ xs) f.heap
    → Gained base
        (refers (str_block (fill_data s n f).data_block)
          ++ (refers (str_block (fill_data s n f).key) ++ xs))
        (fill_data s n f).heap
unfolding fill_data
fill_data-Gained base xs s n f e g = elim (Bool-cases (not f.alloc_error && wants_data s n)) [
  | inl w ↦ rw w (memdup-Gained base (refers (str_block f.key) ++ xs) s n f.heap g)
  | inr w ↦ rw (w, e) g
]

-- A key that was duplicated is the only one that the cell is said to own.
key-dynamic :
    (k : Option Str) → refers (if is_some k then str_block k else none) ≡ refers (str_block k)
key-dynamic none = refl
key-dynamic (some s) = refl

module _ (base : Heap) (a : Array Kv) (v : IsValid a) where
  abbrev rest : List ℕ
  rest = blocks kv_blocks a.len a.cells

  -- The copies that were made are released.
  released :
      (p : ℕ) (k d : Option Str) (h : Heap)
      → Gained base (refers (str_block d) ++ (refers (str_block k) ++ p ∷ rest)) h
      → Gained base (p ∷ rest) (sfree (str_block d) (sfree (str_block k) h))
  released p k d h g = sfree-Gained base (str_block d) (p ∷ rest) (sfree (str_block k) h) (
      sfree-Gained base (str_block k) (refers (str_block d) ++ p ∷ rest) h (
        Gained-perm base h (refers (str_block d) ++ (refers (str_block k) ++ p ∷ rest))
          (refers (str_block k) ++ (refers (str_block d) ++ p ∷ rest))
          (λ q. simp count-append (omega arith)) g))

  Adds-filled :
      (p : ℕ) (f : Filling)
      → Gained base
          (refers (str_block f.data_block) ++ (refers (str_block f.key) ++ p ∷ rest))
          f.heap
      → Adds kv_blocks base (kv_filled a p f)
  unfolding kv_filled
  Adds-filled p f g = elim (Bool-cases f.alloc_error) [
    | inl e ↦ rw e (Adds-failed kv_blocks base a v p _ _ (released p f.key f.data_block f.heap g))
    | inr e ↦ rw e (
        Adds-counted kv_blocks base a v p _
          (refers (str_block f.data_block) ++ refers (str_block f.key)) f.heap
          (λ q. simp (count-append, key-dynamic f.key) (omega arith))
          (rw (append_assoc (refers (str_block f.data_block)) (refers (str_block f.key)) (p ∷ rest))
            g))
  ]

  Adds-grown :
      (k s : Option (List ℕ)) (n : ℕ) (r : Option ℕ × Heap)
      → Gained base (moved_to a.block r.0 ++ rest) r.1
      → Adds kv_blocks base (kv_grown a k s n r)
  unfolding kv_grown
  Adds-grown k s n (none, h) g = record { valid = v; gained = g }
  Adds-grown k s n (some p, h) g = Adds-filled p (fill_data s n (fill_key k h)) (
      fill_data-Gained base (p ∷ rest) s n (fill_key k h) (fill_key-data k h)
        (fill_key-Gained base (p ∷ rest) k h g))

-- otelc_kv_add, on a well-formed array whose blocks are on top of some heap, leaves a well-formed
-- array whose blocks are on top of that heap, and frees nothing twice, also on an error.
pub kv_add-Adds :
    (given : Bool) (a : Array Kv) (k s : Option (List ℕ)) (n : ℕ) (base h : Heap)
    → IsValid a
    → Gained base (owned kv_blocks a) h
    → Adds kv_blocks base (kv_add given a k s n h)
unfolding kv_add
kv_add-Adds false a k s n base h v g = record { valid = v; gained = g }
kv_add-Adds true a k s n base h v g =
    Adds-grown base a v k s n (realloc a.block h)
      (realloc-Gained base (blocks kv_blocks a.len a.cells) a.block h g)
