-- ===== src/TextMap/Make.antt =====
-- otelc_text_map_new of src/util.cpp: the map that it makes, and that a failed allocation of any
-- of its blocks leaks nothing.
use opentelemetry_c_wrapper.Prelude.{
  ℕ, ◌≡◌, refl, ap, Bool, true, false, List, [], ◌∷◌, ◌++◌, Option, none, some, arith,
  if◌then◌else◌, ◌==◌, length-replicate, count, count-append, Bool-cases, ==_iff, inl, inr,
}
use opentelemetry_c_wrapper.Heap.{Heap, malloc, refers}
use opentelemetry_c_wrapper.Heap.Balance.{Gained, malloc-balance}
use opentelemetry_c_wrapper.TextMap.{
  TextMap, Made, Str, no_flags, blank, init, init_dynamic, give_up, fill_flags, fill_key,
  fill_value, calloc_flags, calloc_key, calloc_value, text_map_free, text_map_destroy, text_map_new,
}
use opentelemetry_c_wrapper.TextMap.Owned.{
  IsShaped, IsValid, owned_keys, owned_values, selected, all_owned, Frees-text_map_destroy,
}

abbrev pub left_owned : Option TextMap → List ℕ
left_owned none = []
left_owned (some m) = all_owned m

-- The pointer that is returned: non-null for an empty valid map of the size that was asked for,
-- null if no structure is left, or if the caller's is left without any block.
abbrev pub IsOutcome : ℕ → Bool → Option TextMap → Type 0
IsOutcome n true none = ⊥
IsOutcome n true (some m) = IsValid m × (m.size ≡ n) × (m.count ≡ 0)
IsOutcome n false none = Unit
IsOutcome n false (some m) = (all_owned m ≡ []) × (m.size ≡ 0) × (m.count ≡ 0)

abbrev Makes : Heap → ℕ → Made → Type 0
Makes base n r = Gained base (left_owned r.left) r.heap × IsOutcome n r.made r.left

-- Whatever otelc_text_map_destroy leaves owns nothing, and is no structure of the map's own.
destroyed :
    (n : ℕ) (m : TextMap) (h : Heap)
    → (left_owned (text_map_destroy (some m) h).0 ≡ [])
      × IsOutcome n false (text_map_destroy (some m) h).0
unfolding text_map_destroy text_map_free owned_keys owned_values
destroyed n m h = elim (Bool-cases m.is_dynamic) [
  | inl e ↦ rw e (refl, tt)
  | inr e ↦ rw e (refl, (refl, refl, refl))
]

Makes-give_up :
    (base : Heap) (n : ℕ) (m : TextMap) (h : Heap)
    → IsShaped m
    → Gained base (all_owned m) h
    → Makes base n (give_up m h)
unfolding give_up
Makes-give_up base n m h v g =
    let r = (Frees-text_map_destroy m v).frees h (λ p. omega (arith, g.0 p)) in
    let d = destroyed n m h in
    (((λ p. omega (arith, ap (count p) d.0, r.0 p, g.0 p)), omega (arith, r.1, g.1)), d.1)

module _ (base : Heap) (a n : ℕ) (d : Bool) where
  -- What stands before the arrays are made: the structure, if it was allocated here.
  abbrev frame : List ℕ
  frame = if d then a ∷ [] else []

  Makes-fill_value :
      (f k : ℕ) (r : Option ℕ × Heap)
      → Gained base (f ∷ k ∷ refers r.0 ++ frame) r.1
      → Makes base n (fill_value (calloc_key (calloc_flags (blank a n d) (some f)) (some k)) r)
  unfolding fill_value calloc_value calloc_key calloc_flags blank owned_keys owned_values selected
  Makes-fill_value f k (none, h) g =
      Makes-give_up base n _ h (record { flags_array = tt; key_array = tt; value_array = refl })
        ((λ p. omega (arith, g.0 p)), g.1)
  Makes-fill_value f k (some b, h) g = (
    ((λ p. omega (arith, g.0 p)), g.1),
    (
      record {
        shaped = record { flags_array = tt; key_array = tt; value_array = tt };
        fits = omega arith;
        flag_room = omega (arith, length-replicate n no_flags);
        key_room = omega (arith, length-replicate {A = Option Str} n none);
        value_room = omega (arith, length-replicate {A = Option Str} n none);
        keys_filled = tt;
        values_filled = tt;
      },
      refl,
      refl,
    ),
  )

  Makes-fill_key :
      (f : ℕ) (r : Option ℕ × Heap)
      → Gained base (f ∷ refers r.0 ++ frame) r.1
      → Makes base n (fill_key (calloc_flags (blank a n d) (some f)) r)
  unfolding fill_key calloc_key calloc_flags blank owned_keys owned_values selected
  Makes-fill_key f (none, h) g =
      Makes-give_up base n _ h (record { flags_array = tt; key_array = refl; value_array = refl })
        ((λ p. omega (arith, g.0 p)), g.1)
  Makes-fill_key f (some k, h) g =
      let m = malloc-balance h in
      Makes-fill_value f k (malloc h) (
        (λ p. omega (arith, g.0 p, m.0 p, count-append p (refers (malloc h).0) frame)),
        omega (arith, g.1, m.1),
      )

  Makes-fill_flags :
      (r : Option ℕ × Heap)
      → Gained base (refers r.0 ++ frame) r.1
      → Makes base n (fill_flags (blank a n d) r)
  unfolding fill_flags calloc_flags blank owned_keys owned_values selected
  Makes-fill_flags (none, h) g =
      Makes-give_up base n _ h (record { flags_array = refl; key_array = refl; value_array = refl })
        ((λ p. omega (arith, g.0 p)), g.1)
  Makes-fill_flags (some f, h) g =
      let m = malloc-balance h in
      Makes-fill_key f (malloc h) (
        (λ p. omega (arith, g.0 p, m.0 p, count-append p (refers (malloc h).0) frame)),
        omega (arith, g.1, m.1),
      )

  Makes-init : (h : Heap) → Gained base frame h → Makes base n (init (blank a n d) h)
  unfolding init blank owned_keys owned_values selected
  Makes-init h g = elim (Bool-cases (n == 0)) [
    | inl e ↦
        let z = (==_iff n 0).0 e in
        rw e (
          ((λ p. omega (arith, g.0 p)), g.1),
          (
            record {
              shaped = record { flags_array = refl; key_array = refl; value_array = refl };
              fits = omega arith;
              flag_room = omega arith;
              key_room = omega arith;
              value_room = omega arith;
              keys_filled = tt;
              values_filled = tt;
            },
            refl,
            refl,
          ),
        )
    | inr e ↦ rw e (
        let m = malloc-balance h in
        Makes-fill_flags (malloc h) (
          (λ p. omega (arith, g.0 p, m.0 p, count-append p (refers (malloc h).0) frame)),
          omega (arith, g.1, m.1),
        ))
  ]

Makes-init_dynamic :
    (base : Heap) (n : ℕ) (r : Option ℕ × Heap)
    → Gained base (refers r.0) r.1
    → Makes base n (init_dynamic n r)
unfolding init_dynamic
Makes-init_dynamic base n (none, h) g = (((λ p. omega (arith, g.0 p)), g.1), tt)
Makes-init_dynamic base n (some a, h) g =
    Makes-init base a n true h ((λ p. omega (arith, g.0 p)), g.1)

-- otelc_text_map_new, whatever allocations fail: the blocks that the heap gains are exactly those
-- that the structure it leaves owns, no block is freed badly, and the returned pointer is non-null
-- exactly for an empty well-formed map of the requested size; otherwise the structure that is left,
-- if it is the caller's, owns nothing.
pub text_map_new-Makes :
    (o : Option ℕ) (n : ℕ) (h : Heap)
    → Gained h (left_owned (text_map_new o n h).left) (text_map_new o n h).heap
      × IsOutcome n (text_map_new o n h).made (text_map_new o n h).left
unfolding text_map_new
text_map_new-Makes none n h =
    let m = malloc-balance h in Makes-init_dynamic h n (malloc h) ((λ p. m.0 p), m.1)
text_map_new-Makes (some a) n h = Makes-init h a n false h ((λ p. omega arith), refl)
