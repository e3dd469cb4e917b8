-- ===== src/KeyValue/Lifetime.antt =====
-- The life of an array of key-value pairs of src/util.cpp: made, filled by any calls of
-- otelc_kv_add, and destroyed with its length.
use opentelemetry_c_wrapper.Prelude.{
  ℕ, ◌≡◌, refl, sym, ◌∙◌, ap, Bool, true, false, List, [], ◌∷◌, ◌++◌, map, Option, none, some,
  arith, ltb, replicate, ◌<◌, length-replicate, append_assoc, append-nil, Bool-cases, inl, inr, suc,
  zero,
}
use opentelemetry_c_wrapper.Heap.{Heap, malloc, refers}
use opentelemetry_c_wrapper.Heap.Plenty.{HasPlenty}
use opentelemetry_c_wrapper.Heap.Balance.{Gained, Restored}
use opentelemetry_c_wrapper.KeyValue.{
  Kv, Array, no_kv, size_max, zeroed, array_new, kv_new, kv_add, kv_destroy,
}
use opentelemetry_c_wrapper.KeyValue.Copies.{malloc-Gained}
use opentelemetry_c_wrapper.KeyValue.Store.{kv_blocks, blocks, owned, IsValid, Frees-kv_destroy}
use opentelemetry_c_wrapper.KeyValue.Kept.{kv_add-Adds}
use opentelemetry_c_wrapper.KeyValue.Content.{Pair, pairs, wanted}
use opentelemetry_c_wrapper.KeyValue.Stored.{Stores, kv_add-Stores}

-- The arguments of one call.
pub record Request : Type 0 where
  pub given : Bool
  pub key : Option (List ℕ)
  pub bytes : Option (List ℕ)
  pub size : ℕ

-- Failed adds are passed over.
unfoldable pub fill : List Request → Array Kv → Heap → Array Kv × Heap
fill [] a h = (a, h)
fill (q ∷ qs) a h = let r = kv_add q.given a q.key q.bytes q.size h in fill qs r.1 r.2

pub lifetime : ℕ → List Request → Heap → Heap
unfolding fill
lifetime n qs h =
    let r = kv_new n h in
    let f = fill qs r.0 r.1 in (kv_destroy (some f.0.block) f.0.cells f.0.len f.1).1

record Fills (base : Heap) (r : Array Kv × Heap) : Type 0 where
  valid : IsValid r.0
  gained : Gained base (owned kv_blocks r.0) r.1

fill-Fills :
    (qs : List Request) (base : Heap) (a : Array Kv) (h : Heap)
    → IsValid a
    → Gained base (owned kv_blocks a) h
    → Fills base (fill qs a h)
unfolding fill
fill-Fills [] base a h v g = record { valid = v; gained = g }
fill-Fills (q ∷ qs) base a h v g =
    let r = kv_add-Adds q.given a q.key q.bytes q.size base h v g in
    fill-Fills qs base _ _ r.valid r.gained

-- New cells own nothing.
blocks-replicate : (n m : ℕ) → blocks kv_blocks n (replicate m no_kv) ≡ []
blocks-replicate zero m = refl
blocks-replicate (suc n) zero = refl
blocks-replicate (suc n) (suc m) = blocks-replicate n m

zeroed-Fills :
    (n : ℕ) (base : Heap) (r : Option ℕ × Heap)
    → Gained base (refers r.0 ++ []) r.1
    → Fills base (zeroed no_kv n r)
unfolding zeroed
zeroed-Fills n base (none, h) g = record {
  valid = record { room = omega arith; null_empty = λ e. refl };
  gained = g;
}
zeroed-Fills n base (some p, h) g = record {
  valid = record {
    room = omega (arith, length-replicate n no_kv);
    null_empty = λ e. absurd (cc (e));
  };
  gained = rw (blocks-replicate n n) g;
}

new-Fills : (n : ℕ) (h : Heap) → Fills h (kv_new n h)
unfolding kv_new
new-Fills n h = elim (Bool-cases (ltb 0 n)) [
  | inl e ↦ rw (e, array_new) (zeroed-Fills n h (malloc h) (malloc-Gained h [] h start))
  | inr e ↦ rw (e, array_new) (zeroed-Fills n h (none, h) start)
]
  where
    start : Gained h [] h
    start = ((λ p. omega arith), refl)

-- An array of key-value pairs leaks nothing and frees nothing twice: made with any number of
-- cells, filled by any sequence of adds and destroyed, with any of the allocations failing, it
-- leaves the heap with the blocks that it had before.
pub kv_lifetime-Restored : (n : ℕ) (qs : List Request) (h : Heap) → Restored h (lifetime n qs h)
unfolding lifetime
kv_lifetime-Restored n qs h =
    let r = kv_new n h in
    let f = fill qs r.0 r.1 in
    let w = fill-Fills qs h r.0 r.1 (new-Fills n h).valid (new-Fills n h).gained in
    let d = (Frees-kv_destroy f.0 w.valid).frees f.1 (λ p. omega (arith, w.gained.0 p)) in
    ((λ p. omega (arith, d.0 p, w.gained.0 p)), d.1 ∙ w.gained.1)

-- Requests that otelc_kv_add does not refuse.
abbrev pub Served : List Request → Type 0
Served [] = Unit
Served (q ∷ qs) = (q.given ≡ true) × (q.size < size_max) × Served qs

abbrev pub wanted_by : Request → Pair
wanted_by q = wanted q.key q.bytes q.size

Stores-given :
    (b : Bool) (a : Array Kv) (k s : Option (List ℕ)) (n : ℕ) (h : Heap)
    → b ≡ true
    → IsValid a
    → n < size_max
    → HasPlenty h
    → Stores a (wanted k s n) (kv_add b a k s n h)
Stores-given true a k s n h e v lt p = kv_add-Stores a k s n h v lt p
Stores-given false a k s n h e v lt p = absurd (cc (e))

-- Filling a well-formed array whose blocks are on top of some heap, with requests that give both
-- pointers and a size below SIZE_MAX, and with a heap that refuses no allocation, puts exactly the
-- pairs asked for behind those it had.
pub fill-pairs :
    (qs : List Request) (base : Heap) (a : Array Kv) (h : Heap)
    → IsValid a
    → Gained base (owned kv_blocks a) h
    → HasPlenty h
    → Served qs
    → pairs (fill qs a h).0 ≡ pairs a ++ map wanted_by qs
unfolding fill
fill-pairs [] base a h v g e w = sym (append-nil (pairs a))
fill-pairs (q ∷ qs) base a h v g e w =
    let r = kv_add-Adds q.given a q.key q.bytes q.size base h v g in
    let s = Stores-given q.given a q.key q.bytes q.size h w.0 v w.1 e in
    fill-pairs qs base _ _ r.valid r.gained s.1 w.2
    ∙ ap (λ t. t ++ map wanted_by qs) s.0
    ∙ append_assoc (pairs a) (wanted_by q ∷ []) (map wanted_by qs)
