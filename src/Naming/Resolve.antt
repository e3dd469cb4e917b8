-- ===== src/Naming/Resolve.antt =====
-- The two readings of a context name in src/yaml.cpp against each other: the section that
-- yaml_resolve_prefix finds is the one that yaml_probe_nstate reports.
use opentelemetry_c_wrapper.Prelude.{
  ℕ, zero, suc, ◌≤◌, ◌≡◌, refl, ap, ◌∙◌, inl, inr, Bool, true, false, ◌&&◌, List, [], ◌∷◌, Option,
  none, some, arith, ◌==◌, ==_iff, Bool-cases, if◌then◌else◌, take, length,
}
use opentelemetry_c_wrapper.Heap.{Heap, malloc, free}
use opentelemetry_c_wrapper.Heap.Plenty.{HasPlenty, Succeeds, malloc-Succeeds, sfree-HasPlenty}
use opentelemetry_c_wrapper.Naming.{
  Text, NState, unset_default, found, default, flat, not_found, unset_flat, unset_not_found, absent,
  is_valid, text_of, join, default_name, scope_name, path_bytes, exists_cut, probe_nstate, named,
  resolve_prefix, resolve_from, probe_context, probe_flat, copy_base, contexts, same_text,
  has_percent,
}

pub take-length : (n : ℕ) (xs : Text) → length xs ≤ n → take n xs ≡ xs
take-length zero [] h = refl
take-length zero (x ∷ xs) h = absurd (omega arith)
take-length (suc n) [] h = refl
take-length (suc n) (x ∷ xs) h = ap (λ (t : Text). x ∷ t) (take-length n xs (omega arith))

same_text-eq : (a b : Text) → same_text a b ≡ true → a ≡ b
unfolding same_text
same_text-eq [] [] e = refl
same_text-eq [] (d ∷ ds) e = absurd (cc (e))
same_text-eq (c ∷ cs) [] e = absurd (cc (e))
same_text-eq (c ∷ cs) (d ∷ ds) e = elim (Bool-cases (c == d)) [
  | inl q ↦
      rw ((==_iff c d).0 q) (ap (λ (t : Text). d ∷ t) (same_text-eq cs ds (ground (arith, e, q))))
  | inr q ↦ absurd (ground (arith, e, q))
]

-- The text of a resolved prefix.
abbrev pub prefix_text : Option (ℕ × Text) → Option Text
prefix_text none = none
prefix_text (some (a, t)) = some t

-- The section that serves a signal in each state.
unfoldable pub serves : NState → Text → Text → Option Text
serves unset_default base name = some (join base default_name)
serves found base name = some (join base name)
serves default base name = some (join base default_name)
serves flat base name = some base
serves not_found base name = none
serves unset_flat base name = some base
serves unset_not_found base name = none
serves absent base name = none

-- Every path fits the buffer of yaml_probe_nstate.
unfoldable pub Fits : Text → Text → Type 0
Fits base name =
    (length (join base name) ≤ path_bytes)
    × (length (join base default_name) ≤ path_bytes)
    × (length (join base scope_name) ≤ path_bytes)

module _ (exists : Text → Bool) where
  -- The section that the loop settles on when there is memory.
  pick : Text → List (Option Text) → Option Text
  pick base [] = if exists (join base scope_name) then some base else none
  pick base (c ∷ cs) =
      let rest = pick base cs in
      if is_valid c && exists (join base (text_of c)) then some (join base (text_of c)) else rest

  flat-Pick :
      (base : Text) (h : Heap)
      → HasPlenty h
      → prefix_text (probe_flat exists base (malloc h)).0 ≡ pick base []
  unfolding pick
  flat-Pick base h e = go (malloc h) (malloc-Succeeds h e)
    where
      copy :
          (r : Option ℕ × Heap) → Succeeds r → prefix_text (copy_base exists base r).0 ≡ some base
      copy (none, k) w = absurd (cc (w.0.1))
      copy (some a, k) w = unfold copy_base in refl

      go :
          (r : Option ℕ × Heap)
          → Succeeds r
          → prefix_text (probe_flat exists base r).0 ≡ pick base []
      go (none, k) w = absurd (cc (w.0.1))
      go (some a, k) w =
          unfold probe_flat in
          elim (Bool-cases (exists (join base scope_name))) [
            | inl e ↦ rw e (
                copy (malloc (free a k))
                  (malloc-Succeeds (free a k) (sfree-HasPlenty (some a) k w.1)))
            | inr e ↦ rw e refl
          ]

  from-Pick :
      (base : Text) (cs : List (Option Text)) (h : Heap)
      → HasPlenty h
      → prefix_text (resolve_from exists base cs h).0 ≡ pick base cs
  unfolding resolve_from pick
  from-Pick base [] h w = flat-Pick base h w
  from-Pick base (c ∷ cs) h w = elim (Bool-cases (is_valid c)) [
    | inr e ↦ rw e (from-Pick base cs h w)
    | inl e ↦ rw e (go (λ g. from-Pick base cs g) (malloc h) (malloc-Succeeds h w))
  ]
    where
      go :
          ((g : Heap) → HasPlenty g → prefix_text (resolve_from exists base cs g).0 ≡ pick base cs)
          → (r : Option ℕ × Heap) → Succeeds r
          → prefix_text
              (probe_context exists
                (join base (text_of c))
                (λ (g : Heap). resolve_from exists base cs g)
                r).0
            ≡ (if exists (join base (text_of c))
                then some (join base (text_of c))
                else pick base cs)
      go next (none, k) v = absurd (cc (v.0.1))
      go next (some a, k) v =
          unfold probe_context in
          elim (Bool-cases (exists (join base (text_of c)))) [
            | inl e ↦ rw e refl
            | inr e ↦ rw e (next (free a k) (sfree-HasPlenty (some a) k v.1))
          ]

  -- The name, the default and the flat layout, in this order.
  unfoldable pub ordered : Text → Text → Option Text
  ordered base name =
      if exists (join base name)
      then some (join base name)
      else if exists (join base default_name)
      then some (join base default_name)
      else if exists (join base scope_name)
      then some base
      else none

  contexts-ordered :
      (base name : Text)
      → is_valid (some name) ≡ true
      → pick base (contexts exists (some name) (some default_name)) ≡ ordered base name
  unfolding pick contexts is_valid ordered
  contexts-ordered base name v = elim (Bool-cases (same_text name default_name)) [
    | inl e ↦ rw (e, same_text-eq name default_name e) (twice _ _ (exists (join base default_name)))
    | inr e ↦ rw (e, v) refl
  ]
    where
      twice :
          (o d : Option Text) (b : Bool)
          → (if b then d else o) ≡ (if b then d else if b then d else o)
      twice o d true = refl
      twice o d false = refl

  serves-named :
      (base name : Text) (a b c : Bool)
      → serves (named exists a b c) base name ≡ (
          if a
          then some (join base name)
          else if b
          then some (join base default_name)
          else if c
          then some base
          else none)
  unfolding serves named
  serves-named base name true b c = refl
  serves-named base name false true c = refl
  serves-named base name false false true = refl
  serves-named base name false false false = refl

  -- With memory, yaml_resolve_prefix finds the first section in the order of the names.
  pub resolve_prefix-ordered :
      (base name : Text) (h : Heap)
      → is_valid (some base) ≡ true
      → is_valid (some name) ≡ true
      → has_percent (some name) ≡ false
      → HasPlenty h
      → prefix_text (resolve_prefix exists true (some base) (some name) (some default_name) h).0
        ≡ ordered base name
  unfolding resolve_prefix has_percent
  resolve_prefix-ordered base name h vb vn np plenty =
      rw
        (
          vb,
          vn,
          np,
          from-Pick base (contexts exists (some name) (some default_name)) h plenty,
          contexts-ordered base name vn,
        )
        refl

  -- For a named context under an existing base, with memory and with paths that fit the buffer of the
  -- probe, yaml_resolve_prefix with the fallback `default` finds exactly the section that the state
  -- of yaml_probe_nstate announces, and fails exactly when it announces a failure.
  pub resolve_prefix-Serves :
      (base name : Text) (h : Heap)
      → is_valid (some base) ≡ true
      → is_valid (some name) ≡ true
      → has_percent (some name) ≡ false
      → exists base ≡ true
      → Fits base name
      → HasPlenty h
      → prefix_text (resolve_prefix exists true (some base) (some name) (some default_name) h).0
        ≡ serves (probe_nstate exists true (some base) (some name) true) base name
  unfolding probe_nstate exists_cut Fits ordered
  resolve_prefix-Serves base name h vb vn np eb fits plenty =
      resolve_prefix-ordered base name h vb vn np plenty
      ∙ rw
          (
            vb,
            vn,
            eb,
            take-length path_bytes (join base name) fits.0,
            take-length path_bytes (join base default_name) fits.1,
            take-length path_bytes (join base scope_name) fits.2,
            serves-named base name (exists (join base name)) (exists (join base default_name))
                (exists (join base scope_name)),
          )
          refl
