-- ===== src/TextMap/Owned.antt =====
-- The blocks that a text map owns, what makes one well formed, and that otelc_text_map_free and
-- otelc_text_map_destroy of src/util.cpp release exactly those blocks.
use opentelemetry_c_wrapper.Prelude.{
  ℕ, zero, suc, ◌+◌, ◌≤◌, ◌≡◌, refl, Bool, true, false, List, [], ◌∷◌, ◌++◌, Option, none, some,
  arith, if◌then◌else◌, length, count, count-append,
}
use opentelemetry_c_wrapper.Heap.{Heap, sfree, refers}
use opentelemetry_c_wrapper.Heap.Balance.{sfree-live}
use opentelemetry_c_wrapper.TextMap.{
  TextMap, Str, Flags, str_block, owns_key, owns_value, free_selected, free_strings, text_map_free,
  text_map_destroy,
}

-- The strings among the first `n` cells whose flag says that the map releases them.
unfoldable pub selected : (Flags → Bool) → ℕ → List Flags → List (Option Str) → List ℕ
selected owns zero fs ss = []
selected owns (suc n) [] ss = []
selected owns (suc n) (f ∷ fs) [] = []
selected owns (suc n) (f ∷ fs) (s ∷ ss) =
    (if owns f then refers (str_block s) else []) ++ selected owns n fs ss

unfoldable pub owned_keys : TextMap → List ℕ
unfolding selected
owned_keys m = selected owns_key m.count m.flag_cells m.key_cells

unfoldable pub owned_values : TextMap → List ℕ
unfolding selected
owned_values m = selected owns_value m.count m.flag_cells m.value_cells

-- The blocks that the map owns, its own structure aside.
abbrev pub owned : TextMap → List ℕ
owned m = refers m.flags ++ refers m.key ++ refers m.value ++ owned_keys m ++ owned_values m

-- A null array has no cells.
abbrev pub IsArray {ℓ} : {A : Type ℓ} → Option ℕ → List A → Type ℓ
IsArray none xs = xs ≡ []
IsArray (some b) xs = Unit

-- The first `n` cells are there, and hold no null pointer.
abbrev pub Filled : ℕ → List (Option Str) → Type 0
Filled zero ss = Unit
Filled (suc n) [] = ⊥
Filled (suc n) (none ∷ ss) = ⊥
Filled (suc n) (some s ∷ ss) = Filled n ss

pub record IsShaped (m : TextMap) : Type 0 where
  pub flags_array : IsArray m.flags m.flag_cells
  pub key_array : IsArray m.key m.key_cells
  pub value_array : IsArray m.value m.value_cells

pub record IsValid (m : TextMap) : Type 0 where
  pub shaped : IsShaped m
  pub open shaped use *
  pub fits : m.count ≤ m.size
  pub flag_room : m.size ≤ length m.flag_cells
  pub key_room : m.size ≤ length m.key_cells
  pub value_room : m.size ≤ length m.value_cells
  pub keys_filled : Filled m.count m.key_cells
  pub values_filled : Filled m.count m.value_cells

-- Every reference that the list holds is one to a live block.
abbrev pub Holds : List ℕ → Heap → Type 0
Holds xs h = (p : ℕ) → count p xs ≤ count p h.live

-- `h'` is `h` with exactly the listed references released, and no bad free on the way.
abbrev pub Released : List ℕ → Heap → Heap → Type 0
Released xs h h' =
    ((p : ℕ) → count p h'.live + count p xs ≡ count p h.live) × (h'.bad_frees ≡ h.bad_frees)

-- A piece of code that releases exactly the listed references, if it is given live ones.
pub record Frees (xs : List ℕ) (f : Heap → Heap) : Type 0 where
  pub frees : (h : Heap) → Holds xs h → Released xs h (f h)

pub Frees-nil : Frees [] (λ h. h)
Frees-nil = record { frees = λ h l. ((λ p. omega arith), refl) }

pub Frees-append :
    {xs ys : List ℕ} {f g : Heap → Heap} → Frees xs f → Frees ys g → Frees (xs ++ ys) (λ h. g (f h))
Frees-append {xs} {ys} {f} {g} hf hg = record {
  frees = λ h l.
      let r = hf.frees h (λ p. omega (arith, l p, count-append p xs ys)) in
      let s = hg.frees (f h) (λ p. omega (arith, l p, r.0 p, count-append p xs ys)) in
      ((λ p. omega (arith, r.0 p, s.0 p, count-append p xs ys)), omega (arith, r.1, s.1));
}

-- Only the number of references counts, not their order.
pub Frees-perm :
    {xs ys : List ℕ} {f : Heap → Heap}
    → ((p : ℕ) → count p xs ≡ count p ys)
    → Frees xs f
    → Frees ys f
Frees-perm e hf = record {
  frees = λ h l.
      let r = hf.frees h (λ p. omega (arith, l p, e p)) in ((λ p. omega (arith, r.0 p, e p)), r.1);
}

pub Frees-sfree : (o : Option ℕ) → Frees (refers o) (sfree o)
Frees-sfree o = record { frees = sfree-live o }

Frees-if :
    (b : Bool) (o : Option ℕ) → Frees (if b then refers o else []) (λ h. if b then sfree o h else h)
Frees-if true o = Frees-sfree o
Frees-if false o = Frees-nil

Frees-selected :
    (owns : Flags → Bool) (n : ℕ) (fs : List Flags) (ss : List (Option Str))
    → Frees (selected owns n fs ss) (free_selected owns n fs ss)
unfolding free_selected selected
Frees-selected owns zero fs ss = Frees-nil
Frees-selected owns (suc n) [] ss = Frees-nil
Frees-selected owns (suc n) (f ∷ fs) [] = Frees-nil
Frees-selected owns (suc n) (f ∷ fs) (s ∷ ss) =
    Frees-append (Frees-if (owns f) (str_block s)) (Frees-selected owns n fs ss)

selected-nil_flags :
    (owns : Flags → Bool) (n : ℕ) (ss : List (Option Str)) → selected owns n [] ss ≡ []
unfolding selected
selected-nil_flags owns zero ss = refl
selected-nil_flags owns (suc n) ss = refl

selected-nil_cells : (owns : Flags → Bool) (n : ℕ) (fs : List Flags) → selected owns n fs [] ≡ []
unfolding selected
selected-nil_cells owns zero fs = refl
selected-nil_cells owns (suc n) [] = refl
selected-nil_cells owns (suc n) (f ∷ fs) = refl

Frees-strings :
    (owns : Flags → Bool) (n : ℕ) (a : Option ℕ) (fs : List Flags) (b : Option ℕ)
    (ss : List (Option Str))
    → IsArray a fs
    → IsArray b ss
    → Frees (selected owns n fs ss) (free_strings owns n a fs b ss)
unfolding free_strings
Frees-strings owns n (some a) fs (some b) ss va vb = Frees-selected owns n fs ss
Frees-strings owns n none fs b ss va vb = rw (va, selected-nil_flags owns n ss) Frees-nil
Frees-strings owns n (some a) fs none ss va vb = rw (vb, selected-nil_cells owns n fs) Frees-nil

-- In the order of otelc_text_map_free: keys, values, then the three arrays.
freed : TextMap → List ℕ
freed m = owned_keys m ++ (owned_values m ++ (refers m.flags ++ (refers m.key ++ refers m.value)))

count-freed : (m : TextMap) (p : ℕ) → count p (freed m) ≡ count p (owned m)
unfolding freed
count-freed m p = simp count-append (omega arith)

Frees-text_map_free_order :
    (m : TextMap) → IsShaped m → Frees (freed m) (λ h. (text_map_free m h).1)
unfolding freed text_map_free owned_keys owned_values
Frees-text_map_free_order m v =
    Frees-append
      (Frees-strings owns_key m.count m.flags m.flag_cells m.key m.key_cells v.flags_array
        v.key_array)
      (Frees-append
        (Frees-strings owns_value m.count m.flags m.flag_cells m.value m.value_cells v.flags_array
          v.value_array)
        (Frees-append (Frees-sfree m.flags)
          (Frees-append (Frees-sfree m.key) (Frees-sfree m.value))))

-- otelc_text_map_free releases the arrays and the owned strings, each once, and nothing else.
pub Frees-text_map_free : (m : TextMap) → IsShaped m → Frees (owned m) (λ h. (text_map_free m h).1)
Frees-text_map_free m v = Frees-perm (count-freed m) (Frees-text_map_free_order m v)

-- With the structure itself, if the map was made dynamically.
abbrev pub all_owned : TextMap → List ℕ
all_owned m = owned m ++ (if m.is_dynamic then m.addr ∷ [] else [])

-- otelc_text_map_destroy releases everything that the map owns, its structure included.
pub Frees-text_map_destroy :
    (m : TextMap) → IsShaped m → Frees (all_owned m) (λ h. (text_map_destroy (some m) h).1)
unfolding text_map_destroy text_map_free
Frees-text_map_destroy m v = go m.is_dynamic
  where
    go :
        (b : Bool)
        → Frees (owned m ++ (if b then m.addr ∷ [] else [])) (λ h.
          (if◌then◌else◌ {A = Option TextMap × Heap} b
            (none, sfree (some m.addr) (text_map_free m h).1)
            (some (text_map_free m h).0, (text_map_free m h).1)).1)
    go true = Frees-append (Frees-text_map_free m v) (Frees-sfree (some m.addr))
    go false = Frees-append (Frees-text_map_free m v) Frees-nil
