-- ===== src/TextMap/Add/Entry.antt =====
-- The entry that otelc_text_map_add of src/util.cpp writes: the blocks that the map takes over, on
-- success and on failure.
use opentelemetry_c_wrapper.Prelude.{
  ℕ, suc, ◌+◌, ◌<◌, ◌≡◌, refl, ap, Bool, true, false, List, [], ◌∷◌, ◌++◌, Option, none, some,
  arith, append-nil, length-set, count, count-append, ◌||◌, if◌then◌else◌,
}
use opentelemetry_c_wrapper.Heap.{Heap, malloc, refers}
use opentelemetry_c_wrapper.Heap.Balance.{malloc-balance, sfree-live}
use opentelemetry_c_wrapper.TextMap.{TextMap, Str, Flags, str_block, owns_key, owns_value}
use opentelemetry_c_wrapper.TextMap.Owned.{
  IsShaped, IsValid, Holds, owned, owned_keys, owned_values,
}
use opentelemetry_c_wrapper.TextMap.Cells.{
  take-set, selected-set, Filled-set, IsArray-set, texts-set,
}
use opentelemetry_c_wrapper.TextMap.Add.{
  add_failed, as_index, store_entry, store_pair, store_str, put_cells, release_dup, dup_result,
  dup_text,
}
use opentelemetry_c_wrapper.TextMap.Add.Keeps.{
  Same, Keeps, Keeps-arrays, count-owned, keys, values, keys-Same, values-Same,
}

-- The caller's blocks that a successful add hands over to the map: DUP takes precedence over FREE.
abbrev pub handed_over : Bool → Bool → Str → List ℕ
handed_over dup owned s = if dup then [] else if owned then s.addr ∷ [] else []

abbrev pub adopted : Bool → Flags → Str → Str → List ℕ
adopted false f k v = []
adopted true f k v = handed_over f.dup_key f.free_key k ++ handed_over f.dup_value f.free_value v

-- The text that ends up in the cell: a duplicate may be cut to the given length.
abbrev pub kept_text : Bool → ℕ → Str → List ℕ
kept_text dup n s = if dup then dup_text n s.text else s.text

abbrev pub added : Bool → List ℕ → List (List ℕ)
added false t = []
added true t = t ∷ []

-- The returned index is that of the new entry, as an int.
abbrev pub IsIndex : Bool → Option ℕ → TextMap → TextMap → Type 0
IsIndex false r m n = (r ≡ none) × (n.count ≡ m.count)
IsIndex true r m n = (r ≡ as_index m.count) × (n.count ≡ suc m.count)

-- What a call of otelc_text_map_add does to the map and to the references of the heap; `stored` says
-- whether the pair was put into the map.
pub record Adds (m : TextMap) (h : Heap) (f : Flags) (k : Str) (kn : ℕ) (v : Str) (vn : ℕ)
    (r : Option ℕ × TextMap × Heap) : Type 0 where
  pub stored : Bool
  pub valid : IsValid r.1
  pub balance :
      (p : ℕ)
      → count p r.2.live + count p (owned m) + count p (adopted stored f k v)
        ≡ count p h.live + count p (owned r.1)
  pub no_bad_free : r.2.bad_frees ≡ h.bad_frees
  pub index : IsIndex stored r.0 m r.1
  pub keys_added : keys r.1 ≡ keys m ++ added stored (kept_text f.dup_key kn k)
  pub values_added : values r.1 ≡ values m ++ added stored (kept_text f.dup_value vn v)
  pub same_addr : r.1.addr ≡ m.addr
  pub same_dynamic : r.1.is_dynamic ≡ m.is_dynamic

-- The block behind a stored pointer, if it is a duplicate.
abbrev dup_block : Bool → Option Str → List ℕ
dup_block dup s = if dup then refers (str_block s) else []

store_str-balance :
    (dup : Bool) (n : ℕ) (s : Str) (h : Heap)
    → ((p : ℕ)
        → count p (store_str dup n s h).1.live
          ≡ count p h.live + count p (dup_block dup (store_str dup n s h).0))
      × ((store_str dup n s h).1.bad_frees ≡ h.bad_frees)
unfolding store_str
store_str-balance false n s h = ((λ p. omega arith), refl)
store_str-balance true n s h = go (malloc h) (malloc-balance h)
  where
    go :
        (r : Option ℕ × Heap)
        → ((p : ℕ) → count p r.1.live ≡ count p h.live + count p (refers r.0))
          × (r.1.bad_frees ≡ h.bad_frees)
        → ((p : ℕ)
            → count p (dup_result n s r).1.live
              ≡ count p h.live + count p (refers (str_block (dup_result n s r).0)))
          × ((dup_result n s r).1.bad_frees ≡ h.bad_frees)
    go (none, g) e = unfold dup_result in e
    go (some b, g) e = unfold dup_result in e

release_dup-balance :
    (dup : Bool) (s : Option Str) (h : Heap)
    → Holds (dup_block dup s) h
    → ((p : ℕ) → count p (release_dup dup s h).live + count p (dup_block dup s) ≡ count p h.live)
      × ((release_dup dup s h).bad_frees ≡ h.bad_frees)
unfolding release_dup
release_dup-balance true s h l = sfree-live (str_block s) h l
release_dup-balance false s h l = ((λ p. omega arith), refl)

-- The block of a cell that the map owns is a duplicate of its own, or one that was handed over.
owned_split :
    (dup fr : Bool) (s t : Str)
    → (dup ≡ false → t ≡ s)
    → (p : ℕ)
    → count p (if dup || fr then t.addr ∷ [] else [])
      ≡ count p (dup_block dup (some t)) + count p (handed_over dup fr s)
owned_split true fr s t e p = omega arith
owned_split false true s t e p = rw (e refl) (omega arith)
owned_split false false s t e p = omega arith

module _ (m : TextMap) (f : Flags) (v : IsValid m) (room : m.count < m.size) where
  -- The two cells that an add leaves null behind the entries.
  Same-put_cells : (k' v' : Option Str) → Same m (put_cells m f k' v')
  unfolding put_cells
  Same-put_cells k' v' = record {
    same_addr = refl;
    same_dynamic = refl;
    same_count = refl;
    same_flags = take-set m.count m.flag_cells f;
    same_keys = take-set m.count m.key_cells k';
    same_values = take-set m.count m.value_cells v';
  }

  IsShaped-put_cells : (k' v' : Option Str) → IsShaped (put_cells m f k' v')
  unfolding put_cells
  IsShaped-put_cells k' v' = record {
    flags_array = IsArray-set m.flags m.flag_cells m.count f v.flags_array;
    key_array = IsArray-set m.key m.key_cells m.count k' v.key_array;
    value_array = IsArray-set m.value m.value_cells m.count v' v.value_array;
  }

  module _ (k : Str) (kn : ℕ) (s : Str) (sn : ℕ) (h g : Heap) where
    -- The heap after the duplicates were made.
    abbrev Stored : Option Str → Option Str → Type 0
    Stored k' v' =
        ((p : ℕ)
          → count p g.live
            ≡ count p h.live
              + count p (dup_block f.dup_key k')
              + count p (dup_block f.dup_value v'))
        × (g.bad_frees ≡ h.bad_frees)

    Adds-failed :
        (k' v' : Option Str) → Stored k' v' → Adds m h f k kn s sn (add_failed m f k' v' g)
    unfolding add_failed
    Adds-failed k' v' e =
        let a = release_dup-balance f.dup_key k' g (λ p. omega (arith, e.0 p)) in
        let b =
          release_dup-balance f.dup_value v' (release_dup f.dup_key k' g)
            (λ p. omega (arith, e.0 p, a.0 p)) in
        let kept : Keeps m h (put_cells m f none none)
            (release_dup f.dup_value v' (release_dup f.dup_key k' g)) =
          Keeps-arrays m (put_cells m f none none) h
            (release_dup f.dup_value v' (release_dup f.dup_key k' g)) v
            (IsShaped-put_cells none none) (Same-put_cells none none) (omega arith)
            (omega (arith, length-set m.flag_cells m.count f, v.flag_room))
            (omega (arith, length-set {A = Option Str} m.key_cells m.count none, v.key_room))
            (omega (arith, length-set {A = Option Str} m.value_cells m.count none, v.value_room))
            (λ p. omega (arith, e.0 p, a.0 p, b.0 p)) (omega (arith, e.1, a.1, b.1)) in
        record {
          stored = false;
          valid = kept.valid;
          balance = λ p. omega (arith, kept.balance p);
          no_bad_free = kept.no_bad_free;
          index = (refl, refl);
          keys_added = rw append-nil (keys-Same m _ kept.same);
          values_added = rw append-nil (values-Same m _ kept.same);
          same_addr = refl;
          same_dynamic = refl;
        }

    Adds-Stored :
        (k' v' : Str)
        → Stored (some k') (some v')
        → (f.dup_key ≡ false → k' ≡ k)
        → (f.dup_value ≡ false → v' ≡ s)
        → k'.text ≡ kept_text f.dup_key kn k
        → v'.text ≡ kept_text f.dup_value sn s
        → Adds m h f k kn s sn (store_pair m f (some k') (some v') g)
    unfolding store_pair owned_keys owned_values
    Adds-Stored k' v' e ek ev tk tv =
        let result : TextMap = (store_pair m f (some k') (some v') g).1 in
        let ks =
          selected-set owns_key m.count m.flag_cells m.key_cells f k' (omega (arith, v.flag_room))
            (omega (arith, v.key_room)) in
        let vs =
          selected-set owns_value m.count m.flag_cells m.value_cells f v'
            (omega (arith, v.flag_room)) (omega (arith, v.value_room)) in
        record {
          stored = true;
          valid = record {
            shaped = record {
              flags_array = IsArray-set m.flags m.flag_cells m.count f v.flags_array;
              key_array = IsArray-set m.key m.key_cells m.count (some k') v.key_array;
              value_array = IsArray-set m.value m.value_cells m.count (some v') v.value_array;
            };
            fits = omega arith;
            flag_room = omega (arith, length-set m.flag_cells m.count f, v.flag_room);
            key_room = omega (arith, length-set m.key_cells m.count (some k'), v.key_room);
            value_room = omega (arith, length-set m.value_cells m.count (some v'), v.value_room);
            keys_filled =
                Filled-set m.count m.key_cells k' (omega (arith, v.key_room)) v.keys_filled;
            values_filled =
                Filled-set m.count m.value_cells v' (omega (arith, v.value_room)) v.values_filled;
          };
          balance = λ p. omega (
            arith,
            e.0 p,
            count-owned m p,
            count-owned result p,
            ap (count p) ks,
            ap (count p) vs,
            count-append p (owned_keys m) (if owns_key f then k'.addr ∷ [] else []),
            count-append p (owned_values m) (if owns_value f then v'.addr ∷ [] else []),
            count-append p (handed_over f.dup_key f.free_key k)
                (handed_over f.dup_value f.free_value s),
            owned_split f.dup_key f.free_key k k' ek p,
            owned_split f.dup_value f.free_value s v' ev p,
          );
          no_bad_free = e.1;
          index = (refl, refl);
          keys_added = rw (← tk) (texts-set m.count m.key_cells k' (omega (arith, v.key_room)));
          values_added =
              rw (← tv) (texts-set m.count m.value_cells v' (omega (arith, v.value_room)));
          same_addr = refl;
          same_dynamic = refl;
        }

-- What a stored pointer is: the caller's own, a duplicate, or null if there is no memory for one.
store_str-caller :
    (n : ℕ) (s : Str) (h : Heap) (t : Str)
    → (dup : Bool) → (store_str dup n s h).0 ≡ some t
    → dup ≡ false
    → t ≡ s
unfolding store_str
store_str-caller n s h t true e d = cc
store_str-caller n s h t false e d = cc

store_str-text :
    (dup : Bool) (n : ℕ) (s : Str) (h : Heap) (t : Str)
    → (store_str dup n s h).0 ≡ some t
    → t.text ≡ kept_text dup n s
unfolding store_str
store_str-text false n s h t e = cc
store_str-text true n s h t e = go (malloc h) e
  where
    go : (r : Option ℕ × Heap) → (dup_result n s r).0 ≡ some t → t.text ≡ dup_text n s.text
    go (none, g) d = unfold dup_result in cc d
    go (some b, g) d = unfold dup_result in cc d

-- The entry of an add for which there is room.
pub Adds-entry :
    (m : TextMap) (k : Str) (kn : ℕ) (s : Str) (sn : ℕ) (f : Flags) (h : Heap)
    → IsValid m
    → m.count < m.size
    → Adds m h f k kn s sn (store_entry m k kn s sn f h)
unfolding store_entry store_pair
Adds-entry m k kn s sn f h v room =
    let a = store_str f.dup_key kn k h in
    let b = store_str f.dup_value sn s a.1 in
    let ea = store_str-balance f.dup_key kn k h in
    let eb = store_str-balance f.dup_value sn s a.1 in
    go a.0 b.0 b.1 ((λ p. omega (arith, ea.0 p, eb.0 p)), omega (arith, ea.1, eb.1))
      (λ t e. (store_str-caller kn k h t f.dup_key e, store_str-text f.dup_key kn k h t e))
      (λ t e. (store_str-caller sn s a.1 t f.dup_value e, store_str-text f.dup_value sn s a.1 t e))
  where
    go :
        (k' s' : Option Str) (g : Heap)
        → Stored m f v room k kn s sn h g k' s'
        → ((t : Str)
            → k' ≡ some t
            → (f.dup_key ≡ false → t ≡ k) × (t.text ≡ kept_text f.dup_key kn k))
        → ((t : Str)
            → s' ≡ some t
            → (f.dup_value ≡ false → t ≡ s) × (t.text ≡ kept_text f.dup_value sn s))
        → Adds m h f k kn s sn (store_pair m f k' s' g)
    go (some k') (some s') g e tk ts =
        Adds-Stored m f v room k kn s sn h g k' s' e (tk k' refl).0 (ts s' refl).0 (tk k' refl).1
          (ts s' refl).1
    go none s' g e tk ts = Adds-failed m f v room k kn s sn h g none s' e
    go (some k') none g e tk ts = Adds-failed m f v room k kn s sn h g (some k') none e
