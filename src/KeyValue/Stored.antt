-- ===== src/KeyValue/Stored.antt =====
-- As long as there is memory, otelc_kv_add of src/util.cpp stores every pair, in order.
use opentelemetry_c_wrapper.Prelude.{
  ℕ, zero, suc, ◌<◌, ◌≡◌, refl, ap, ◌∙◌, true, false, not, List, [], ◌∷◌, ◌++◌, Option, none, some,
  ◌==◌, arith, take,
}
use opentelemetry_c_wrapper.Heap.{Heap, malloc, realloc}
use opentelemetry_c_wrapper.Heap.Plenty.{HasPlenty, Succeeds, malloc-Succeeds, realloc-Succeeds}
use opentelemetry_c_wrapper.TextMap.{Str}
use opentelemetry_c_wrapper.KeyValue.{
  Kv, Array, Filling, size_max, copied, strdup, memdup, is_some, fill_key, fill_data, kv_filled,
  kv_grown, kv_add,
}
use opentelemetry_c_wrapper.KeyValue.Store.{IsValid}
use opentelemetry_c_wrapper.KeyValue.Content.{
  Pair, pairs, wanted, Holds, fill_key-Holds, wants_data-suc, fill_data-Holds, last-eq,
  pairs-counted,
}

-- With memory nothing fails: the pair is stored, and there is plenty left.
abbrev pub Stores : Array Kv → Pair → ℕ × Array Kv × Heap → Type 0
Stores a x r = (pairs r.1 ≡ pairs a ++ x ∷ []) × HasPlenty r.2

abbrev Goes : Filling → Type 0
Goes f = (f.alloc_error ≡ false) × HasPlenty f.heap

abbrev Copies : Option Str × Heap → Type 0
Copies r = (is_some r.0 ≡ true) × HasPlenty r.1

copied-Copies : (t : List ℕ) (r : Option ℕ × Heap) → Succeeds r → Copies (copied t r)
unfolding copied
copied-Copies t (none, h) e = absurd (cc (e.0.1))
copied-Copies t (some p, h) e = (refl, e.1)

fill_key-Goes : (k : Option (List ℕ)) (h : Heap) → HasPlenty h → Goes (fill_key k h)
unfolding fill_key strdup
fill_key-Goes none h e = (refl, e)
fill_key-Goes (some k) h e =
    let c = copied-Copies k (malloc h) (malloc-Succeeds h e) in (ap not c.0, c.1)

memdup-Copies :
    (s : List ℕ) (n : ℕ) (h : Heap) → n < size_max → HasPlenty h → Copies (memdup (some s) n h)
unfolding memdup
memdup-Copies s n h lt e = rw (test) (copied-Copies (take n s) (malloc h) (malloc-Succeeds h e))
  where
    test : (n == size_max) ≡ false
    test = ground arith

fill_data-Goes :
    (s : Option (List ℕ)) (n : ℕ) (f : Filling) → n < size_max → Goes f → Goes (fill_data s n f)
unfolding fill_data
fill_data-Goes none n f lt w = rw (w.0) (refl, w.1)
fill_data-Goes (some s) zero f lt w = rw (w.0) (refl, w.1)
fill_data-Goes (some s) (suc n) f lt w =
    let c = memdup-Copies s (suc n) f.heap lt w.1 in rw (w.0, wants_data-suc s n) (ap not c.0, c.1)

module _ (a : Array Kv) (v : IsValid a) where
  Stores-filled :
      (x : Pair) (p : ℕ) (f : Filling) → Holds x f → Goes f → Stores a x (kv_filled a p f)
  unfolding kv_filled
  Stores-filled x p f w g = rw (g.0) (pairs-counted a v p _ ∙ last-eq a x f (w g.0), g.1)

  Stores-grown :
      (k s : Option (List ℕ)) (n : ℕ) (r : Option ℕ × Heap)
      → n < size_max
      → Succeeds r
      → Stores a (wanted k s n) (kv_grown a k s n r)
  unfolding kv_grown
  Stores-grown k s n (none, h) lt e = absurd (cc (e.0.1))
  Stores-grown k s n (some p, h) lt e =
      Stores-filled (wanted k s n) p (fill_data s n (fill_key k h))
        (fill_data-Holds k s n (fill_key k h) (fill_key-Holds k h))
        (fill_data-Goes s n (fill_key k h) lt (fill_key-Goes k h e.1))

-- otelc_kv_add, with both pointers given, a well-formed array, a size below SIZE_MAX and a heap
-- that refuses no allocation, puts the pair behind the others.
pub kv_add-Stores :
    (a : Array Kv) (k s : Option (List ℕ)) (n : ℕ) (h : Heap)
    → IsValid a
    → n < size_max
    → HasPlenty h
    → Stores a (wanted k s n) (kv_add true a k s n h)
unfolding kv_add
kv_add-Stores a k s n h v lt e =
    Stores-grown a v k s n (realloc a.block h) lt (realloc-Succeeds a.block h e)
