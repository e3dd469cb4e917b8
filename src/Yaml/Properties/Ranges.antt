-- ===== src/Yaml/Properties/Ranges.antt =====
-- yaml_get_node of src/yaml.cpp: what one round of its loop leaves in the caller's variable.
use opentelemetry_c_wrapper.Prelude.{
  ℕ, zero, suc, ◌≡◌, refl, sym, ◌⊎◌, inl, inr, Bool, true, false, List, [], ◌∷◌, Option, none, some,
  arith,
}
use opentelemetry_c_wrapper.Heap.{Heap}
use opentelemetry_c_wrapper.TextMap.{TextMap}
use opentelemetry_c_wrapper.Yaml.Sequences.{Read}
use opentelemetry_c_wrapper.Yaml.Properties.{
  Slot, str_slot, bool_slot, int64_slot, double_slot, map_slot, unknown_slot, Property, with_slot,
  bool_value, leb_int64, Scanned, checked, store, Round, stored, scalar_round, map_round,
}

bool_value-cases : (t : List ℕ) (w : ℕ) → bool_value t ≡ some w → (w ≡ 0) ⊎ (w ≡ 1)
unfolding bool_value
bool_value-cases t w e = ground (arith, e)

checked-within :
    {A : Type 0} (le : A → A → Bool) (t : List ℕ) (min max : A) (v : Scanned A) (w : A)
    → checked le t min max v ≡ some w
    → (le min w ≡ true) × (le w max ≡ true)
unfolding checked
checked-within le t min max (v, n, errno) w e = ground (arith, e)

module _ {D : Type 0} (leb_double : D → D → Bool) where
  -- The last argument of a property afterwards: a flag is 0 or 1, a number lies between its bounds,
  -- the bounds and sizes are as they were.
  abbrev pub Proper : Slot D → Slot D → Type 0
  Proper (str_slot b n) (str_slot b' n') = n' ≡ n
  Proper (bool_slot v) (bool_slot v') = (v' ≡ 0) ⊎ (v' ≡ 1)
  Proper (int64_slot v min max) (int64_slot v' min' max') =
      (min' ≡ min) × (max' ≡ max) × (leb_int64 min v' ≡ true) × (leb_int64 v' max ≡ true)
  Proper (double_slot v min max) (double_slot v' min' max') =
      (min' ≡ min) × (max' ≡ max) × (leb_double min v' ≡ true) × (leb_double v' max ≡ true)
  Proper (map_slot g m) (map_slot g' m') = g' ≡ g
  Proper s s' = ⊥

  -- As it was, or proper.
  abbrev pub Safe : Slot D → Slot D → Type 0
  Safe s s' = (s' ≡ s) ⊎ Proper s s'

  unfoldable pub Settled : Property D → Property D → Type 0
  Settled p q = (s : Slot D) × (q ≡ with_slot p s) × Safe p.slot s

  unfoldable pub AllSettled : List (Property D) → List (Property D) → Type 0
  unfolding Settled
  AllSettled [] [] = Unit
  AllSettled [] (q ∷ qs) = ⊥
  AllSettled (p ∷ ps) [] = ⊥
  AllSettled (p ∷ ps) (q ∷ qs) = Settled p q × AllSettled ps qs

  pub AllSettled-refl : (ps : List (Property D)) → AllSettled ps ps
  unfolding AllSettled Settled
  AllSettled-refl [] = tt
  AllSettled-refl (p ∷ ps) = ((p.slot, refl, inl refl), AllSettled-refl ps)

-- What one round promises: a safe slot, and a mandatory property is found or an error.
abbrev pub Rounded : {D : Type 0} → (D → D → Bool) → Bool → Slot D → Round D → Type 0
Rounded le mandatory s r = Safe le s r.1 × (mandatory ≡ true → r.0 ≡ some false → ⊥)

module _ {D : Type 0} (le : D → D → Bool) (strtoll : List ℕ → Scanned ℕ)
    (strtod : List ℕ → Scanned D) where
  carried : (s a s' : Slot D) → Safe le s a → some a ≡ some s' → Safe le s s'
  carried s a s' w e = rw (sym (same e)) w
    where
      same : some a ≡ some s' → a ≡ s'
      same q = cc (q)

  store-Safe :
      (s : Slot D) (o : Option (List ℕ)) (s' : Slot D)
      → store le strtoll strtod s o ≡ some s'
      → Safe le s s'
  unfolding store
  store-Safe unknown_slot o s' e = absurd (cc (e))
  store-Safe (map_slot g m) o s' e = carried (map_slot g m) _ s' (inl refl) e
  store-Safe (str_slot b n) none s' e = carried (str_slot b n) _ s' (inl refl) e
  store-Safe (bool_slot v) none s' e = carried (bool_slot v) _ s' (inl refl) e
  store-Safe (int64_slot v min max) none s' e = carried (int64_slot v min max) _ s' (inl refl) e
  store-Safe (double_slot v min max) none s' e = carried (double_slot v min max) _ s' (inl refl) e
  store-Safe (str_slot b n) (some t) s' e = carried (str_slot b n) _ s' (inr refl) e
  store-Safe (bool_slot v) (some t) s' e = go (bool_value t) (bool_value-cases t) e
    where
      go :
          (o : Option ℕ)
          → ((w : ℕ) → o ≡ some w → (w ≡ 0) ⊎ (w ≡ 1))
          → elim o [ none ↦ none | some w ↦ some (bool_slot w) ] ≡ some s'
          → Safe le (bool_slot v) s'
      go none f q = absurd (cc (q))
      go (some w) f q = carried (bool_slot v) (bool_slot w) s' (inr (f w refl)) q
  store-Safe (int64_slot v min max) (some t) s' e =
      go (checked leb_int64 t min max (strtoll t)) (checked-within leb_int64 t min max (strtoll t))
        e
    where
      go :
          (o : Option ℕ)
          → ((w : ℕ) → o ≡ some w → (leb_int64 min w ≡ true) × (leb_int64 w max ≡ true))
          → elim o [ none ↦ none | some w ↦ some (int64_slot w min max) ] ≡ some s'
          → Safe le (int64_slot v min max) s'
      go none f q = absurd (cc (q))
      go (some w) f q =
          carried (int64_slot v min max) (int64_slot w min max) s'
            (inr (refl, refl, (f w refl).0, (f w refl).1)) q
  store-Safe (double_slot v min max) (some t) s' e =
      go (checked le t min max (strtod t)) (checked-within le t min max (strtod t)) e
    where
      go :
          (o : Option D)
          → ((w : D) → o ≡ some w → (le min w ≡ true) × (le w max ≡ true))
          → elim o [ none ↦ none | some w ↦ some (double_slot w min max) ] ≡ some s'
          → Safe le (double_slot v min max) s'
      go none f q = absurd (cc (q))
      go (some w) f q =
          carried (double_slot v min max) (double_slot w min max) s'
            (inr (refl, refl, (f w refl).0, (f w refl).1)) q

  stored-Safe :
      (is_found : Bool) (s : Slot D) (h : Heap) (o : Option (Slot D))
      → ((s' : Slot D) → o ≡ some s' → Safe le s s')
      → Safe le s (stored le strtoll strtod is_found s h o).1
  unfolding stored
  stored-Safe is_found s h none f = inl refl
  stored-Safe is_found s h (some s') f = f s' refl

  pub scalar_round-Rounded :
      (mandatory : Bool) (s : Slot D) (o : Option (List ℕ)) (h : Heap)
      → Rounded le mandatory s (scalar_round le strtoll strtod mandatory s o h)
  unfolding scalar_round stored
  scalar_round-Rounded true s none h = (inl refl, λ m e. cc (e))
  scalar_round-Rounded false s none h = (stored-Safe false s h _ (store-Safe s none), λ m e. cc (m))
  scalar_round-Rounded mandatory s (some t) h = (
    stored-Safe true s h _ (store-Safe s (some t)),
    λ m e. go (store le strtoll strtod s (some t)) e,
  )
    where
      go : (o : Option (Slot D)) → (stored le strtoll strtod true s h o).0 ≡ some false → ⊥
      go none q = cc (q)
      go (some s') q = cc (q)

  pub map_round-Rounded :
      (mandatory given : Bool) (m : Option TextMap) (r : Read)
      → Rounded le mandatory (map_slot given m) (map_round le strtoll strtod mandatory given r)
  unfolding map_round
  map_round-Rounded mandatory given m (none, m', h) = (inr refl, λ w e. cc (e))
  map_round-Rounded true given m (some zero, m', h) = (inr refl, λ w e. cc (e))
  map_round-Rounded false given m (some zero, m', h) = (inr refl, λ w e. cc (w))
  map_round-Rounded mandatory given m (some (suc n), m', h) = (inr refl, λ w e. cc (e))
