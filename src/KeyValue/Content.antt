-- ===== src/KeyValue/Content.antt =====
-- What the arrays of key-value pairs of src/util.cpp hold: an add appends one pair or changes
-- nothing, and it appends one as long as there is memory.
use opentelemetry_c_wrapper.Prelude.{
  ℕ, zero, suc, ◌+◌, ◌%◌, ◌^◌, ◌≤◌, ◌≡◌, refl, ap, ◌∙◌, ◌⊎◌, inl, inr, Bool, true, false, not, List,
  [], ◌∷◌, ◌++◌, map, Option, none, some, ◌==◌, arith, length, take, Bool-cases, if◌then◌else◌,
}
use opentelemetry_c_wrapper.Heap.{Heap, malloc, realloc}
use opentelemetry_c_wrapper.TextMap.{Str}
use opentelemetry_c_wrapper.KeyValue.{
  Value, value_data, Kv, Array, Filling, ret_error, size_max, copied, strdup, memdup, wants_data,
  is_some, with_last, fill_key, fill_data, kv_filled, kv_grown, kv_add,
}
use opentelemetry_c_wrapper.KeyValue.Store.{IsValid}

-- A pair as its reader sees it: the key and the data, each of them missing or a text.
abbrev pub Pair : Type 0
Pair = Option (List ℕ) × Option (List ℕ)

abbrev pub text_of : Option Str → Option (List ℕ)
text_of none = none
text_of (some s) = some s.text

abbrev pub data_of : Value → Option (List ℕ)
data_of (value_data s) = text_of s
data_of _ = none

abbrev pub view : Kv → Pair
view e = (text_of e.key, data_of e.value)

-- The pairs in the cells in use.
abbrev pub pairs : Array Kv → List Pair
pairs a = map view (take a.len a.cells)

-- The first `size` bytes of the data, if there is any.
abbrev pub data_wanted : Option (List ℕ) → ℕ → Option (List ℕ)
data_wanted none size = none
data_wanted (some s) zero = none
data_wanted (some s) (suc n) = some (take (suc n) s)

abbrev pub wanted : Option (List ℕ) → Option (List ℕ) → ℕ → Pair
wanted k s size = (k, data_wanted s size)

take-counted :
    {A : Type 0} (n : ℕ) (es : List A) (e : A)
    → n ≤ length es
    → take (suc n) (take n es ++ e ∷ []) ≡ take n es ++ e ∷ []
take-counted zero es e h = refl
take-counted (suc n) [] e h = absurd (omega arith)
take-counted (suc n) (x ∷ es) e h = ap (λ t. x ∷ t) (take-counted n es e (omega arith))

take-kept :
    {A : Type 0} (n : ℕ) (es fs : List A) → n ≤ length es → take n (take n es ++ fs) ≡ take n es
take-kept zero es fs h = refl
take-kept (suc n) [] fs h = absurd (omega arith)
take-kept (suc n) (x ∷ es) fs h = ap (λ t. x ∷ t) (take-kept n es fs (omega arith))

map-last :
    {A B : Type 0} (f : A → B) (xs : List A) (x : A) → map f (xs ++ x ∷ []) ≡ map f xs ++ f x ∷ []
map-last f [] x = refl
map-last f (y ∷ ys) x = ap (λ t. f y ∷ t) (map-last f ys x)

next_lem : (n : ℕ) → n + 1 ≡ suc n
next_lem n = omega arith

module _ (a : Array Kv) (v : IsValid a) where
  pub pairs-counted :
      (p : ℕ) (e : Kv)
      → pairs (record (with_last a p e) { len = a.len + 1 }) ≡ pairs a ++ view e ∷ []
  pairs-counted p e =
      ap (map view) (
        ap (λ n. take n (take a.len a.cells ++ e ∷ [])) (next_lem a.len)
        ∙ take-counted a.len a.cells e v.room)
      ∙ map-last view (take a.len a.cells) e

  pairs-failed : (p : ℕ) (e : Kv) → pairs (with_last a p e) ≡ pairs a
  pairs-failed p e = ap (map view) (take-kept a.len a.cells (e ∷ []) v.room)

-- An error that changes no pair, or a new last pair and the count of pairs as an int.
abbrev pub Appends : Array Kv → Pair → ℕ × Array Kv × Heap → Type 0
Appends a x r =
    ((r.0 ≡ ret_error) × (pairs r.1 ≡ pairs a))
    ⊎ ((r.0 ≡ (a.len + 1) % 2 ^ 32) × (pairs r.1 ≡ pairs a ++ x ∷ []))

-- A cell that was filled without an error holds the pair.
abbrev pub Holds : Pair → Filling → Type 0
Holds x f = f.alloc_error ≡ false → (text_of f.key ≡ x.0) × (text_of f.data_block ≡ x.1)

copied-text :
    (t : List ℕ) (r : Option ℕ × Heap)
    → not (is_some (copied t r).0) ≡ false
    → text_of (copied t r).0 ≡ some t
unfolding copied
copied-text t (none, h) e = absurd (cc (e))
copied-text t (some p, h) e = refl

pub fill_key-Holds : (k : Option (List ℕ)) (h : Heap) → Holds (k, none) (fill_key k h)
unfolding fill_key strdup
fill_key-Holds none h e = (refl, refl)
fill_key-Holds (some k) h e = (copied-text k (malloc h) e, refl)

memdup-text :
    (s : List ℕ) (n : ℕ) (h : Heap)
    → not (is_some (memdup (some s) n h).0) ≡ false
    → text_of (memdup (some s) n h).0 ≡ some (take n s)
unfolding memdup
memdup-text s n h = go (n == size_max)
  where
    go :
        (b : Bool)
        → not (
            is_some
              (if◌then◌else◌ {A = Option Str × Heap} b (none, h) (copied (take n s) (malloc h))).0)
          ≡ false
        → text_of
            (if◌then◌else◌ {A = Option Str × Heap} b (none, h) (copied (take n s) (malloc h))).0
          ≡ some (take n s)
    go true e = absurd (cc (e))
    go false e = copied-text (take n s) (malloc h) e

pub wants_data-suc : (s : List ℕ) (n : ℕ) → wants_data (some s) (suc n) ≡ true
wants_data-suc s n = ground arith

pub fill_data-Holds :
    (k s : Option (List ℕ)) (n : ℕ) (f : Filling)
    → Holds (k, none) f
    → Holds (k, data_wanted s n) (fill_data s n f)
unfolding fill_data
fill_data-Holds k none n f w = elim (Bool-cases f.alloc_error) [
  | inl e ↦ rw e (λ q. absurd (cc (q)))
  | inr e ↦ rw e (λ q. w e)
]
fill_data-Holds k (some s) zero f w = elim (Bool-cases f.alloc_error) [
  | inl e ↦ rw e (λ q. absurd (cc (q)))
  | inr e ↦ rw e (λ q. w e)
]
fill_data-Holds k (some s) (suc n) f w = elim (Bool-cases f.alloc_error) [
  | inl e ↦ rw e (λ q. absurd (cc (q)))
  | inr e ↦ rw (e, wants_data-suc s n) (λ q. ((w e).0, memdup-text s (suc n) f.heap q))
]

pub last-eq :
    (a : Array Kv) (x : Pair) (f : Filling)
    → (text_of f.key ≡ x.0) × (text_of f.data_block ≡ x.1)
    → pairs a ++ (text_of f.key, text_of f.data_block) ∷ [] ≡ pairs a ++ x ∷ []
last-eq a (k, d) f e = rw (e.0, e.1) refl

module _ (a : Array Kv) (v : IsValid a) where
  Appends-filled : (x : Pair) (p : ℕ) (f : Filling) → Holds x f → Appends a x (kv_filled a p f)
  unfolding kv_filled
  Appends-filled x p f w = elim (Bool-cases f.alloc_error) [
    | inl e ↦ rw e (inl (refl, pairs-failed a v p _))
    | inr e ↦ rw e (inr (refl, pairs-counted a v p _ ∙ last-eq a x f (w e)))
  ]

  Appends-grown :
      (k s : Option (List ℕ)) (n : ℕ) (r : Option ℕ × Heap)
      → Appends a (wanted k s n) (kv_grown a k s n r)
  unfolding kv_grown
  Appends-grown k s n (none, h) = inl (refl, refl)
  Appends-grown k s n (some p, h) =
      Appends-filled (wanted k s n) p (fill_data s n (fill_key k h))
        (fill_data-Holds k s n (fill_key k h) (fill_key-Holds k h))

-- otelc_kv_add on a well-formed array either returns OTELC_RET_ERROR and leaves all pairs as they
-- are, or puts the pair behind them and returns their number, cut to an int.
pub kv_add-Appends :
    (given : Bool) (a : Array Kv) (k s : Option (List ℕ)) (n : ℕ) (h : Heap)
    → IsValid a
    → Appends a (wanted k s n) (kv_add given a k s n h)
unfolding kv_add
kv_add-Appends false a k s n h v = inl (refl, refl)
kv_add-Appends true a k s n h v = Appends-grown a v k s n (realloc a.block h)
