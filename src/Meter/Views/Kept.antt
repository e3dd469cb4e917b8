-- ===== src/Meter/Views/Kept.antt =====
-- The views of src/meter.cpp: the table and the SDK provider never disagree, and no name is in the
-- table twice.
use mathlib.Core.List.{Perm, perm_append_singleton}
use mathlib.Core.List.Perm
use opentelemetry_c_wrapper.Prelude.{
  ℕ, suc, ◌≤◌, ◌≡◌, refl, ap, ◌∙◌, Bool, true, false, not, ◌||◌, List, [], ◌∷◌, ◌++◌, map, Option,
  none, some, arith, append_assoc, append-nil, Bool-cases, inl, inr,
}
use opentelemetry_c_wrapper.Meter.{View, Impl}
use opentelemetry_c_wrapper.Meter.Instruments.{map_find}
use opentelemetry_c_wrapper.Meter.Instruments.Tables.{map_find-tail, map_erase-head}
use opentelemetry_c_wrapper.Meter.Views.{
  ViewAnswers, is_null, get_view_id, view_register, view_inserted, view_registered, view_emplaced,
  view_created, add_view_locked, register_all, installed, install_provider,
}

-- The views of the table, in its order.
abbrev pub views_of : List (ℕ × View) → List View
views_of es = map (λ e. e.1) es

module _ (equals : List ℕ → List ℕ → Bool) where
  -- No view has a name that an older view of the table answers to.
  abbrev pub Separate : List (ℕ × View) → Type 0
  Separate [] = Unit
  Separate ((i, v) ∷ rest) = (get_view_id equals rest v.name ≡ none) × Separate rest

  -- Free identifiers, separate names, and the same views in the table and in the provider.
  pub record IsMirrored (m : Impl) : Type 0 where
    pub fresh : (i : ℕ) → m.view.id ≤ i → map_find m.view.entries i ≡ none
    pub separate : Separate m.view.entries
    pub mirrored : Perm m.registered (views_of m.view.entries)

  -- What an add_view comes to: nothing on an error, the old identifier of the name, or a new one,
  -- whose view the provider got behind all others.
  pub data Adds (m : Impl) (v : View) : Option ℕ × Impl → Type 0 where
    refused : Adds m v (none, m)
    existing : (i : ℕ) → get_view_id equals m.view.entries v.name ≡ some i → Adds m v (some i, m)
    added :
        (n : Impl)
        → get_view_id equals m.view.entries v.name ≡ none
        → n.view.entries ≡ (m.view.id, v) ∷ m.view.entries
        → n.view.id ≡ suc m.view.id
        → n.registered ≡ m.registered ++ v ∷ []
        → n.instrument ≡ m.instrument
        → n.instrument_index ≡ m.instrument_index
        → Adds m v (some m.view.id, n)

view_register-result :
    (scope : Option (List ℕ)) (v : View) (a : ViewAnswers) (vs ws : List View)
    → view_register scope v a vs ≡ some ws
    → ws ≡ vs ++ v ∷ []
unfolding view_register
view_register-result none v a vs ws e = absurd (cc (e))
view_register-result (some s) v a vs ws e = ground arith

module _ (equals : List ℕ → List ℕ → Bool) (scope : Option (List ℕ)) (m : Impl) (v : View)
    (a : ViewAnswers) where
  -- The entry goes out again when the registration fails.
  Adds-registered :
      (o : Option (List View))
      → get_view_id equals m.view.entries v.name ≡ none
      → ((ws : List View) → o ≡ some ws → ws ≡ m.registered ++ v ∷ [])
      → Adds equals m v (view_registered (view_inserted m v) o)
  unfolding view_registered view_inserted
  Adds-registered none e f = rw (map_erase-head m.view.id v m.view.entries) refused
  Adds-registered (some ws) e f = added _ e refl refl (f ws refl) refl refl

  Adds-emplaced :
      (o : Option View)
      → get_view_id equals m.view.entries v.name ≡ none
      → Adds equals m v (view_emplaced scope m v a o)
  unfolding view_emplaced
  Adds-emplaced (some old) e = refused
  Adds-emplaced none e = elim (Bool-cases a.emplace_throws) [
    | inl t ↦ simp t refused
    | inr t ↦ simp t (
        Adds-registered (view_register scope v a m.registered) e
          (view_register-result scope v a m.registered))
  ]

  Adds-created :
      (o : Option ℕ)
      → get_view_id equals m.view.entries v.name ≡ o
      → Adds equals m v (view_created scope m v a o)
  unfolding view_created
  Adds-created (some i) e = existing i e
  Adds-created none e = elim (Bool-cases (is_null scope || not m.has_provider || a.handle_fails)) [
    | inl t ↦ rw t refused
    | inr t ↦ rw t (Adds-emplaced (map_find m.view.entries m.view.id) e)
  ]

  pub add_view_locked-Adds : Adds equals m v (add_view_locked equals scope m v a)
  unfolding add_view_locked
  add_view_locked-Adds = Adds-created (get_view_id equals m.view.entries v.name) refl

-- What an add_view leaves.
pub record Viewed (equals : List ℕ → List ℕ → Bool) (m : Impl) (v : View) (r : Option ℕ × Impl)
    : Type 0 where
  pub valid : IsMirrored equals r.1
  pub failed : r.0 ≡ none → r.1 ≡ m
  pub answers : (i : ℕ) → r.0 ≡ some i → get_view_id equals r.1.view.entries v.name ≡ some i

Adds-Viewed :
    (equals : List ℕ → List ℕ → Bool) (m : Impl) (v : View) (r : Option ℕ × Impl)
    → equals v.name v.name ≡ true
    → IsMirrored equals m
    → Adds equals m v r
    → Viewed equals m v r
unfolding get_view_id
Adds-Viewed equals m v r same w refused = record {
  valid = w;
  failed = λ e. refl;
  answers = λ i e. absurd (cc (e));
}
Adds-Viewed equals m v r same w (existing i e) = record {
  valid = w;
  failed = λ q. refl;
  answers = λ j q. e ∙ q;
}
Adds-Viewed equals m v r same w (added n e es id vs ins ix) = record {
  valid = record {
    fresh = λ i le.
        ap (λ t. map_find t i) es
        ∙ map_find-tail m.view.id i v m.view.entries (λ q. omega arith)
        ∙ w.fresh i (omega arith);
    separate = rw es (e, w.separate);
    mirrored =
        rw (es, vs) (Perm.trans (perm_append_singleton v m.registered) (Perm.cons v w.mirrored));
  };
  failed = λ q. absurd (cc (q));
  answers = λ i q. rw es (rw same q);
}

-- otel_meter_add_view, from the point where it holds the creation mutex, for a name that the SDK
-- finds equal to itself, on a meter whose table holds the views of the provider, each name once:
-- that stays so; a call that fails leaves the table and the provider as they were; and after
-- one that succeeds the name is found under the identifier that was returned.
pub add_view_locked-Viewed :
    (equals : List ℕ → List ℕ → Bool) (scope : Option (List ℕ)) (m : Impl) (v : View)
    (a : ViewAnswers)
    → equals v.name v.name ≡ true
    → IsMirrored equals m
    → Viewed equals m v (add_view_locked equals scope m v a)
add_view_locked-Viewed equals scope m v a same w =
    Adds-Viewed equals m v (add_view_locked equals scope m v a) same w
      (add_view_locked-Adds equals scope m v a)

register_all-result :
    (scope : Option (List ℕ)) (es : List (ℕ × View)) (a : ℕ → ViewAnswers) (vs ws : List View)
    → register_all scope es a vs ≡ some ws
    → ws ≡ vs ++ views_of es
unfolding register_all
register_all-result scope [] a vs ws e = cc (e, append-nil vs)
register_all-result scope ((i, v) ∷ rest) a vs ws e =
    go (view_register scope v (a i) vs) (view_register-result scope v (a i) vs)
      (λ more. register_all-result scope rest a more ws) e
  where
    go :
        (o : Option (List View))
        → ((us : List View) → o ≡ some us → us ≡ vs ++ v ∷ [])
        → ((more : List View)
            → register_all scope rest a more ≡ some ws
            → ws ≡ more ++ views_of rest)
        → elim o [ none ↦ none | some more ↦ register_all scope rest a more ] ≡ some ws
        → ws ≡ vs ++ v ∷ views_of rest
    go none f g e = absurd (cc (e))
    go (some more) f g e =
        g more e
        ∙ ap (λ t. t ++ views_of rest) (f more refl)
        ∙ append_assoc vs (v ∷ []) (views_of rest)

pub install_provider-Mirrors :
    (equals : List ℕ → List ℕ → Bool) (scope : Option (List ℕ)) (opened : Bool) (m : Impl)
    (a : ℕ → ViewAnswers)
    → IsMirrored equals m
    → ((install_provider scope opened m a).0 ≡ false → (install_provider scope opened m a).1 ≡ m)
      × ((install_provider scope opened m a).0 ≡ true
          → (install_provider scope opened m a).1.registered ≡ views_of m.view.entries)
      × IsMirrored equals (install_provider scope opened m a).1
unfolding install_provider
install_provider-Mirrors equals scope opened m a w =
    go opened (register_all scope m.view.entries a [])
      (register_all-result scope m.view.entries a [])
  where
    go :
        (opened : Bool) (o : Option (List View))
        → ((ws : List View) → o ≡ some ws → ws ≡ [] ++ views_of m.view.entries)
        → ((installed opened m o).0 ≡ false → (installed opened m o).1 ≡ m)
          × ((installed opened m o).0 ≡ true
              → (installed opened m o).1.registered ≡ views_of m.view.entries)
          × IsMirrored equals (installed opened m o).1
    go opened none f = unfold installed in ((λ e. refl), (λ e. absurd (cc (e))), w)
    go false (some ws) f = unfold installed in ((λ e. refl), (λ e. absurd (cc (e))), w)
    go true (some ws) f =
        unfold installed in
        (
          (λ e. absurd (cc (e))),
          (λ e. f ws refl),
          record {
            fresh = w.fresh;
            separate = w.separate;
            mirrored = rw (f ws refl) (Perm.refl (views_of m.view.entries));
          },
        )

-- A start leaves the instruments alone.
pub install_provider-kept :
    (scope : Option (List ℕ)) (opened : Bool) (m : Impl) (a : ℕ → ViewAnswers)
    → ((install_provider scope opened m a).1.instrument ≡ m.instrument)
      × ((install_provider scope opened m a).1.instrument_index ≡ m.instrument_index)
unfolding install_provider
install_provider-kept scope opened m a = go opened (register_all scope m.view.entries a [])
  where
    go :
        (opened : Bool) (o : Option (List View))
        → ((installed opened m o).1.instrument ≡ m.instrument)
          × ((installed opened m o).1.instrument_index ≡ m.instrument_index)
    go opened none = unfold installed in (refl, refl)
    go false (some ws) = unfold installed in (refl, refl)
    go true (some ws) = unfold installed in (refl, refl)
