-- ===== src/Naming/Blocks.antt =====
-- The memory of yaml_resolve_prefix in src/yaml.cpp: every path that it allocates on the way is freed.
use opentelemetry_c_wrapper.Prelude.{
  ℕ, ◌+◌, ◌≡◌, refl, ◌∙◌, inl, inr, Bool, not, ◌||◌, List, [], ◌∷◌, Option, none, some, arith,
  Bool-cases, count,
}
use opentelemetry_c_wrapper.Heap.{Heap, malloc, free, refers}
use opentelemetry_c_wrapper.Heap.Balance.{Gained, Gained-free, malloc-balance}
use opentelemetry_c_wrapper.Naming.{
  Text, is_valid, text_of, join, scope_name, resolve_prefix, resolve_from, probe_context,
  probe_flat, copy_base, contexts, has_percent,
}

-- The block that holds a resolved prefix.
abbrev pub prefix_block : Option (ℕ × Text) → List ℕ
prefix_block none = []
prefix_block (some (a, t)) = a ∷ []

module _ (exists : Text → Bool) where
  flat-Leaks :
      (base : Text) (h : Heap)
      → let r = probe_flat exists base (malloc h) in Gained h (prefix_block r.0) r.1
  flat-Leaks base h = go (malloc h) (malloc-balance h)
    where
      copy :
          (g : Heap)
          → Gained h [] g
          → (r : Option ℕ × Heap)
          → ((p : ℕ) → count p r.1.live ≡ count p g.live + count p (refers r.0))
            × (r.1.bad_frees ≡ g.bad_frees)
          → let q = copy_base exists base r in Gained h (prefix_block q.0) q.1
      copy g w (none, k) b = unfold copy_base in ((λ p. omega (arith, w.0 p, b.0 p)), b.1 ∙ w.1)
      copy g w (some a, k) b = unfold copy_base in ((λ p. omega (arith, w.0 p, b.0 p)), b.1 ∙ w.1)

      go :
          (r : Option ℕ × Heap)
          → ((p : ℕ) → count p r.1.live ≡ count p h.live + count p (refers r.0))
            × (r.1.bad_frees ≡ h.bad_frees)
          → let q = probe_flat exists base r in Gained h (prefix_block q.0) q.1
      go (none, k) b = unfold probe_flat in ((λ p. omega (arith, b.0 p)), b.1)
      go (some a, k) b =
          unfold probe_flat in
          let f = Gained-free h (a ∷ []) [] a k b (λ p. omega arith) in
          elim (Bool-cases (exists (join base scope_name))) [
            | inl e ↦ rw e (copy (free a k) f (malloc (free a k)) (malloc-balance (free a k)))
            | inr e ↦ rw e f
          ]

  -- Heaps that differ by nothing.
  Gained-trans : (h g k : Heap) (xs : List ℕ) → Gained h [] g → Gained g xs k → Gained h xs k
  Gained-trans h g k xs a b = ((λ p. omega (arith, a.0 p, b.0 p)), b.1 ∙ a.1)

  from-Leaks :
      (base : Text) (cs : List (Option Text)) (h : Heap)
      → let r = resolve_from exists base cs h in Gained h (prefix_block r.0) r.1
  unfolding resolve_from
  from-Leaks base [] h = flat-Leaks base h
  from-Leaks base (c ∷ cs) h = elim (Bool-cases (is_valid c)) [
    | inr e ↦ rw e (from-Leaks base cs h)
    | inl e ↦ rw e (go (λ g. from-Leaks base cs g) (malloc h) (malloc-balance h))
  ]
    where
      go :
          ((g : Heap) → let q = resolve_from exists base cs g in Gained g (prefix_block q.0) q.1)
          → (r : Option ℕ × Heap)
          → ((p : ℕ) → count p r.1.live ≡ count p h.live + count p (refers r.0))
            × (r.1.bad_frees ≡ h.bad_frees)
          → let q =
              probe_context exists
                (join base (text_of c))
                (λ (g : Heap). resolve_from exists base cs g)
                r in
            Gained h (prefix_block q.0) q.1
      go next (none, k) b = unfold probe_context in ((λ p. omega (arith, b.0 p)), b.1)
      go next (some a, k) b =
          unfold probe_context in
          elim (Bool-cases (exists (join base (text_of c)))) [
            | inl e ↦ rw e ((λ p. omega (arith, b.0 p)), b.1)
            | inr e ↦ rw e (
                Gained-trans h (free a k) (resolve_from exists base cs (free a k)).1 _
                  (Gained-free h (a ∷ []) [] a k b (λ p. omega arith)) (next (free a k)))
          ]

  -- yaml_resolve_prefix owns the prefix that it returns and nothing else, on every path.
  pub resolve_prefix-Gained :
      (pointers : Bool) (base name fallback : Option Text) (h : Heap)
      → let r = resolve_prefix exists pointers base name fallback h in
        Gained h (prefix_block r.0) r.1
  unfolding resolve_prefix
  resolve_prefix-Gained pointers base name fallback h =
      elim (Bool-cases (
        not pointers
        || not (is_valid base)
        || not (is_valid name || is_valid fallback)
        || has_percent name
        || has_percent fallback)) [
          | inl e ↦ rw e ((λ p. omega arith), refl)
          | inr e ↦ rw e (from-Leaks (text_of base) (contexts exists name fallback) h)
        ]
