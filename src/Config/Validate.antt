-- ===== src/Config/Validate.antt =====
-- What a successful otelc_cfg_validate of src/util.cpp promises about the creation of every signal:
-- yaml_resolve_prefix, as the creation calls it, finds a section.
use opentelemetry_c_wrapper.Prelude.{
  ◌≡◌, refl, ◌∙◌, ◌⊎◌, inl, inr, Bool, true, false, Option, none, some, arith, Bool-cases, List, [],
  ◌∷◌,
}
use opentelemetry_c_wrapper.Heap.{Heap}
use opentelemetry_c_wrapper.Heap.Plenty.{HasPlenty}
use opentelemetry_c_wrapper.Naming.{
  Text, default_name, scope_name, path_bytes, join, exists_cut, named, unnamed, has_percent,
  is_valid, probe_nstate, resolve_prefix,
}
use opentelemetry_c_wrapper.Naming.Resolve.{
  Fits, prefix_text, ordered, resolve_prefix-ordered, take-length,
}
use opentelemetry_c_wrapper.Config.{
  Settings, Found, broken, missing, text, is_shard_count, apply_shards, load_handle_map_shards,
  is_failure, signals_resolve, context_name, cfg_validate,
}

module _ (exists : Text → Bool) where
  -- A section of the document, or the base itself in the flat layout.
  abbrev pub IsSection : Text → Text → Type 0
  IsSection base t = (exists t ≡ true) ⊎ ((t ≡ base) × (exists (join base scope_name) ≡ true))

  -- The signal is not in the document, or the creation for the name finds a section for it.
  abbrev pub IsServed : Heap → Text → Text → Type 0
  IsServed h base name =
      (exists base ≡ false)
      ⊎ ((t : Text) × (prefix_text
              (resolve_prefix exists true (some base) (some name) (some default_name) h).0
            ≡ some t)
          × IsSection base t)

  pub AreServed : Heap → List Text → Text → Type 0
  AreServed h [] name = Unit
  AreServed h (b ∷ bs) name = IsServed h b name × AreServed h bs name

  -- Some name of the order is there, or none.
  ordered-IsSection :
      (base name : Text)
      → ((t : Text) × (ordered exists base name ≡ some t) × IsSection base t)
        ⊎ ((exists (join base name) ≡ false)
            × (exists (join base default_name) ≡ false)
            × (exists (join base scope_name) ≡ false))
  unfolding ordered
  ordered-IsSection base name = elim (Bool-cases (exists (join base name))) [
    | inl a ↦ rw a (inl (join base name, refl, inl a))
    | inr a ↦ rw a (elim (Bool-cases (exists (join base default_name))) [
      | inl b ↦ rw b (inl (join base default_name, refl, inl b))
      | inr b ↦ rw b (elim (Bool-cases (exists (join base scope_name))) [
        | inl c ↦ rw c (inl (base, refl, inr (refl, refl)))
        | inr c ↦ rw c (inr (refl, refl, refl))
      ])
    ])
  ]

  -- Where none is there, the probe reports a failure.
  nothing-is_failure :
      (base name : Text) (name_set : Bool)
      → is_valid (some base) ≡ true
      → exists base ≡ true
      → Fits base name
      → exists (join base name) ≡ false
      → exists (join base default_name) ≡ false
      → exists (join base scope_name) ≡ false
      → is_failure (probe_nstate exists true (some base) (some name) name_set) ≡ true
  unfolding probe_nstate exists_cut named unnamed is_failure Fits
  nothing-is_failure base name true vb eb fits a b c = elim (Bool-cases (is_valid (some name))) [
    | inl v ↦
        rw
          (
            vb,
            eb,
            v,
            take-length path_bytes (join base name) fits.0,
            take-length path_bytes (join base default_name) fits.1,
            take-length path_bytes (join base scope_name) fits.2,
            a,
            b,
            c,
          )
          refl
    | inr v ↦
        rw
          (
            vb,
            eb,
            v,
            take-length path_bytes (join base default_name) fits.1,
            take-length path_bytes (join base scope_name) fits.2,
            b,
            c,
          )
          refl
  ]
  nothing-is_failure base name false vb eb fits a b c =
      rw
        (
          vb,
          eb,
          take-length path_bytes (join base default_name) fits.1,
          take-length path_bytes (join base scope_name) fits.2,
          b,
          c,
        )
        refl

  no_failure-IsServed :
      (h : Heap) (base name : Text) (name_set : Bool)
      → is_valid (some base) ≡ true
      → is_valid (some name) ≡ true
      → has_percent (some name) ≡ false
      → Fits base name
      → HasPlenty h
      → is_failure (probe_nstate exists true (some base) (some name) name_set) ≡ false
      → IsServed h base name
  no_failure-IsServed h base name name_set vb vn np fits plenty e =
      elim (Bool-cases (exists base)) [
        | inr eb ↦ inl eb
        | inl eb ↦ elim (ordered-IsSection base name) [
          | inl (t, q, w) ↦
              inr (t, resolve_prefix-ordered exists base name h vb vn np plenty ∙ q, w)
          | inr (a, b, c) ↦ absurd (cc (e, nothing-is_failure base name name_set vb eb fits a b c))
        ]
      ]

  -- Bases that are there and whose paths fit the buffer of the probe.
  unfoldable pub AreUsable : List Text → Text → Type 0
  AreUsable [] name = Unit
  AreUsable (b ∷ bs) name = (is_valid (some b) ≡ true) × Fits b name × AreUsable bs name

  signals_resolve-AreServed :
      (h : Heap) (bs : List Text) (name : Text) (name_set : Bool)
      → is_valid (some name) ≡ true
      → has_percent (some name) ≡ false
      → HasPlenty h
      → AreUsable bs name
      → signals_resolve exists bs name name_set ≡ true
      → AreServed h bs name
  unfolding signals_resolve AreServed AreUsable
  signals_resolve-AreServed h [] name name_set vn np plenty u e = tt
  signals_resolve-AreServed h (b ∷ bs) name name_set vn np plenty u e =
      elim (Bool-cases (is_failure (probe_nstate exists true (some b) (some name) name_set))) [
        | inl f ↦ absurd (ground (arith, e, f))
        | inr f ↦ (
          no_failure-IsServed h b name name_set u.0 vn np u.1 plenty f,
          signals_resolve-AreServed h bs name name_set vn np plenty u.2 (ground (arith, e, f)),
        )
      ]

context_name-is_valid : (name : Option Text) → is_valid (some (context_name name)) ≡ true
unfolding context_name is_valid
context_name-is_valid none = refl
context_name-is_valid (some []) = refl
context_name-is_valid (some (c ∷ cs)) = refl

context_name-has_percent :
    (name : Option Text) → has_percent name ≡ false → has_percent (some (context_name name)) ≡ false
unfolding context_name is_valid
context_name-has_percent none e = unfold has_percent in refl
context_name-has_percent (some []) e = unfold has_percent in refl
context_name-has_percent (some (c ∷ cs)) e = e

load-unapplied : (f : Found) (s : Settings) → (load_handle_map_shards f false s).1 ≡ s
unfolding load_handle_map_shards apply_shards
load-unapplied broken s = refl
load-unapplied missing s = refl
load-unapplied (text p) s = elim (Bool-cases (is_shard_count p)) [
  | inl e ↦ rw e refl
  | inr e ↦ rw e refl
]

-- If otelc_cfg_validate accepts a document, with bases that fit the buffers of the probe, every signal
-- is either not in the document or found by its creation, as long as there is memory: for the
-- context's name, with the fallback `default`, yaml_resolve_prefix yields a section that exists, or
-- the base of a flat layout that exists; and the settings of the process are as before.
pub cfg_validate-AreServed :
    (exists : Text → Bool) (f : Found) (bases : List Text) (name : Option Text) (s : Settings)
    (h : Heap)
    → AreUsable exists bases (context_name name)
    → HasPlenty h
    → (cfg_validate true (some exists) f bases name s).0 ≡ true
    → AreServed exists h bases (context_name name)
      × ((cfg_validate true (some exists) f bases name s).1 ≡ s)
unfolding cfg_validate
cfg_validate-AreServed exists f bases name s h u plenty e = elim (Bool-cases (has_percent name)) [
  | inl q ↦ absurd (ground (arith, e, q))
  | inr q ↦ elim (Bool-cases (signals_resolve exists bases (context_name name) (is_valid name))) [
    | inr r ↦ absurd (ground (arith, e, q, r))
    | inl r ↦ (
      signals_resolve-AreServed exists h bases (context_name name) (is_valid name)
          (context_name-is_valid name) (context_name-has_percent name q) plenty u r,
      rw q (load-unapplied f s),
    )
  ]
]
