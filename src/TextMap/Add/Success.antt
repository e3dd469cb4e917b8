-- ===== src/TextMap/Add/Success.antt =====
-- otelc_text_map_add of src/util.cpp succeeds as long as there is memory.
use opentelemetry_c_wrapper.Prelude.{
  ℕ, suc, ◌≡◌, refl, arith, List, [], ◌∷◌, ◌++◌, Bool, true, false, Option, none, some, leb,
  Bool-cases, inl, inr,
}
use opentelemetry_c_wrapper.Heap.{Heap, malloc, realloc}
use opentelemetry_c_wrapper.Heap.Plenty.{HasPlenty, Succeeds, malloc-Succeeds, realloc-Succeeds}
use opentelemetry_c_wrapper.TextMap.{TextMap, Str, Flags}
use opentelemetry_c_wrapper.TextMap.Add.{
  Grown, grow, grow_flags, grow_key, grow_value, add_grown, add_pair, store_entry, store_pair,
  store_str, dup_result, as_index,
}
use opentelemetry_c_wrapper.TextMap.Owned.{IsValid, Holds, owned}
use opentelemetry_c_wrapper.TextMap.Add.Keeps.{keys, values}
use opentelemetry_c_wrapper.TextMap.Add.Entry.{Adds, IsIndex, added, kept_text}
use opentelemetry_c_wrapper.TextMap.Add.Total.{add_pair-Adds}

-- The growth step went through and left the count.
abbrev Goes : ℕ → Grown → Type 0
Goes n r = (r.0 ≡ true) × HasPlenty r.2 × (r.1.count ≡ n)

Goes-value : (m : TextMap) (r : Option ℕ × Heap) → Succeeds r → Goes m.count (grow_value m r)
unfolding grow_value
Goes-value m (none, g) s = absurd (cc (s.0.1))
Goes-value m (some b, g) s = (refl, s.1, refl)

Goes-key : (m : TextMap) (r : Option ℕ × Heap) → Succeeds r → Goes m.count (grow_key m r)
unfolding grow_key
Goes-key m (none, g) s = absurd (cc (s.0.1))
Goes-key m (some b, g) s = Goes-value _ (realloc m.value g) (realloc-Succeeds m.value g s.1)

Goes-flags : (m : TextMap) (r : Option ℕ × Heap) → Succeeds r → Goes m.count (grow_flags m r)
unfolding grow_flags
Goes-flags m (none, g) s = absurd (cc (s.0.1))
Goes-flags m (some b, g) s = Goes-key _ (realloc m.key g) (realloc-Succeeds m.key g s.1)

Goes-grow : (m : TextMap) (h : Heap) → HasPlenty h → Goes m.count (grow m h)
unfolding grow
Goes-grow m h e = elim (Bool-cases (leb m.size m.count)) [
  | inl c ↦ rw c (Goes-flags m (realloc m.flags h) (realloc-Succeeds m.flags h e))
  | inr c ↦ rw c (refl, e, refl)
]

-- A string was stored.
abbrev Stores : Option Str × Heap → Type 0
Stores r = ((s : Str) × (r.0 ≡ some s)) × HasPlenty r.1

Stores-str : (dup : Bool) (n : ℕ) (s : Str) (h : Heap) → HasPlenty h → Stores (store_str dup n s h)
unfolding store_str
Stores-str false n s h e = ((s, refl), e)
Stores-str true n s h e = go (malloc h) (malloc-Succeeds h e)
  where
    go : (r : Option ℕ × Heap) → Succeeds r → Stores (dup_result n s r)
    go (none, g) w = absurd (cc (w.0.1))
    go (some b, g) w = unfold dup_result in ((_, refl), w.1)

-- The count went up, and plenty of memory is left.
abbrev Counts : ℕ → Option ℕ × TextMap × Heap → Type 0
Counts n r = (r.1.count ≡ suc n) × HasPlenty r.2

-- A pair of strings stands behind those that the map had, its index is the result, as an int, and
-- plenty of memory is left.
pub record IsStored (m : TextMap) (k s : List ℕ) (r : Option ℕ × TextMap × Heap) : Type 0 where
  pub valid : IsValid r.1
  pub result : r.0 ≡ as_index m.count
  pub keys_stored : keys r.1 ≡ keys m ++ k ∷ []
  pub values_stored : values r.1 ≡ values m ++ s ∷ []
  pub plenty : HasPlenty r.2

module _ (k : Str) (kn : ℕ) (s : Str) (sn : ℕ) (f : Flags) where
  Counts-entry :
      (m : TextMap) (h : Heap) → HasPlenty h → Counts m.count (store_entry m k kn s sn f h)
  unfolding store_entry
  Counts-entry m h e =
      let a = store_str f.dup_key kn k h in
      let sa = Stores-str f.dup_key kn k h e in
      let b = store_str f.dup_value sn s a.1 in
      let sb = Stores-str f.dup_value sn s a.1 sa.1 in go a.0 b.0 b.1 sa.0 sb
    where
      go :
          (k' s' : Option Str) (g : Heap)
          → (t : Str) × (k' ≡ some t)
          → Stores (s', g)
          → Counts m.count (store_pair m f k' s' g)
      go (some k') (some s') g a b = unfold store_pair in (refl, b.1)
      go none s' g a b = absurd (cc (a.1))
      go (some k') none g a b = absurd (cc (b.0.1))

  Counts-grown : (n : ℕ) (r : Grown) → Goes n r → Counts n (add_grown k kn s sn f r)
  unfolding add_grown
  Counts-grown n (false, m, g) w = absurd (cc (w.0))
  Counts-grown n (true, m, g) w = let c = Counts-entry m g w.1 in (omega (arith, c.0, w.2), c.1)

  IsStored-result :
      (m : TextMap) (h : Heap) (r : Option ℕ × TextMap × Heap)
      → Adds m h f k kn s sn r
      → Counts m.count r
      → IsStored m (kept_text f.dup_key kn k) (kept_text f.dup_value sn s) r
  IsStored-result m h r a c = go a.stored a.index a.keys_added a.values_added
    where
      go :
          (b : Bool)
          → IsIndex b r.0 m r.1
          → keys r.1 ≡ keys m ++ added b (kept_text f.dup_key kn k)
          → values r.1 ≡ values m ++ added b (kept_text f.dup_value sn s)
          → IsStored m (kept_text f.dup_key kn k) (kept_text f.dup_value sn s) r
      go false i ks vs = absurd (omega (arith, i.1, c.0))
      go true i ks vs = record {
        valid = a.valid;
        result = i.0;
        keys_stored = ks;
        values_stored = vs;
        plenty = c.1;
      }

  -- If no allocation fails from now on, otelc_text_map_add on a valid map whose blocks are live puts
  -- the pair behind those that the map has, each string as it is or, with its DUP flag and a
  -- positive length, cut to that length, and returns its index as an int; the map stays valid, and
  -- no allocation fails after that either.
  pub add_pair-IsStored :
      (m : TextMap) (h : Heap)
      → IsValid m
      → Holds (owned m) h
      → HasPlenty h
      → IsStored m
          (kept_text f.dup_key kn k)
          (kept_text f.dup_value sn s)
          (add_pair m k kn s sn f h)
  add_pair-IsStored m h v l e =
      IsStored-result m h (add_pair m k kn s sn f h) (add_pair-Adds m k kn s sn f h v l)
        (unfold add_pair in Counts-grown m.count (grow m h) (Goes-grow m h e))
