-- ===== src/Yaml/Keys.antt =====
-- ryml_find_duplicate_keys of src/yaml.cpp: a document that it accepts has no key twice in a map,
-- so every entry can be looked up.
use opentelemetry_c_wrapper.Prelude.{
  ℕ, zero, suc, ◌≡◌, ◌≢◌, refl, sym, ap, ◌∙◌, ◌⊎◌, inl, inr, Bool, true, false, ◌||◌, not, List,
  Option, none, some, arith, Bool-cases, eq_text, eq_text_refl, eq_text_sound,
}
use opentelemetry_c_wrapper.Yaml.{
  Node, scalar, sequence, mapping, Nodes, no_nodes, child, child_at, child_with_key, has_this_key,
}

-- The inner loop: a later sibling with the key.
pub has_sibling : Option (List ℕ) → Nodes → Bool
has_sibling key no_nodes = false
has_sibling none (child k n ns) = false
has_sibling (some key) (child k n ns) = has_this_key k key || has_sibling (some key) ns

-- The outer loop: a pair of children with one key.
pub has_pair : Nodes → Bool
unfolding has_sibling
has_pair no_nodes = false
has_pair (child k n ns) = has_sibling k ns || has_pair ns

-- The loop over all nodes of the tree, of which only the maps count.
mutual
  unfolding has_pair

  pub has_duplicates : Node → Bool
  has_duplicates (scalar v) = false
  has_duplicates (sequence ns) = any_duplicates ns
  has_duplicates (mapping ns) = has_pair ns || any_duplicates ns

  pub any_duplicates : Nodes → Bool
  any_duplicates no_nodes = false
  any_duplicates (child k n ns) = has_duplicates n || any_duplicates ns

-- ryml_find_duplicate_keys: false is OTELC_RET_ERROR.
pub find_duplicate_keys : Option Node → Bool
unfolding has_duplicates
find_duplicate_keys none = true
find_duplicate_keys (some root) = not (has_duplicates root)

-- The key of the child at a position.
unfoldable pub key_at : Nodes → ℕ → Option (List ℕ)
key_at no_nodes i = none
key_at (child k n ns) zero = k
key_at (child k n ns) (suc i) = key_at ns i

-- Every child with a key is the one that a look-up of the key finds.
pub IsReachable : Nodes → Type 0
IsReachable ns = (i : ℕ) (k : List ℕ) → key_at ns i ≡ some k → child_with_key ns k ≡ child_at ns i

mutual
  unfolding IsReachable

  pub AreReachable : Node → Type 0
  AreReachable (scalar v) = Unit
  AreReachable (sequence ns) = AllReachable ns
  AreReachable (mapping ns) = IsReachable ns × AllReachable ns

  pub AllReachable : Nodes → Type 0
  AllReachable no_nodes = Unit
  AllReachable (child k n ns) = AreReachable n × AllReachable ns

-- A key that no sibling has is at no position.
no_sibling :
    (key : List ℕ) (ns : Nodes) (i : ℕ) → has_sibling (some key) ns ≡ false → key_at ns i ≢ some key
unfolding has_sibling key_at
no_sibling key no_nodes i h e = absurd (cc (e))
no_sibling key (child k n ns) zero h e = differs k e (ground (arith, h))
  where
    differs : (o : Option (List ℕ)) → o ≡ some key → has_this_key o key ≡ false → ⊥
    differs none q w = cc (q)
    differs (some l) q w = cc (w, ap (λ x. eq_text x key) (same q), eq_text_refl key)
      where
        same : some l ≡ some key → l ≡ key
        same p = cc (p)
no_sibling key (child k n ns) (suc i) h e = no_sibling key ns i (ground (arith, h)) e

has_pair-IsReachable : (ns : Nodes) → has_pair ns ≡ false → IsReachable ns
unfolding has_pair IsReachable key_at child_at child_with_key
has_pair-IsReachable no_nodes h i k e = absurd (cc (e))
has_pair-IsReachable (child k n ns) h zero l e = rw (here k e) refl
  where
    here : (o : Option (List ℕ)) → o ≡ some l → has_this_key o l ≡ true
    here none q = absurd (cc (q))
    here (some m) q = ap (λ x. eq_text x l) (same q) ∙ eq_text_refl l
      where
        same : some m ≡ some l → m ≡ l
        same p = cc (p)
has_pair-IsReachable (child k n ns) h (suc i) l e =
    rw (apart k (first h)) (has_pair-IsReachable ns (later h) i l e)
  where
    first : has_sibling k ns || has_pair ns ≡ false → has_sibling k ns ≡ false
    first q = ground (arith, q)

    later : has_sibling k ns || has_pair ns ≡ false → has_pair ns ≡ false
    later q = ground (arith, q)

    apart : (o : Option (List ℕ)) → has_sibling o ns ≡ false → has_this_key o l ≡ false
    apart none q = refl
    apart (some m) q = elim (Bool-cases (eq_text m l)) [
      | inr ne ↦ ne
      | inl eq ↦ absurd (no_sibling m ns i q (e ∙ ap some (sym (eq_text_sound m l eq))))
    ]

-- Two children of a map with one key.
pub HasClash : Nodes → Type 0
HasClash ns =
    (i : ℕ) × (j : ℕ) × (k : List ℕ) × (i ≢ j) × (key_at ns i ≡ some k) × (key_at ns j ≡ some k)

mutual
  unfolding HasClash

  pub Clashes : Node → Type 0
  Clashes (scalar v) = ⊥
  Clashes (sequence ns) = AnyClashes ns
  Clashes (mapping ns) = HasClash ns ⊎ AnyClashes ns

  pub AnyClashes : Nodes → Type 0
  AnyClashes no_nodes = ⊥
  AnyClashes (child k n ns) = Clashes n ⊎ AnyClashes ns

sibling-found :
    (key : List ℕ) (ns : Nodes)
    → has_sibling (some key) ns ≡ true
    → (i : ℕ) × (key_at ns i ≡ some key)
unfolding has_sibling key_at
sibling-found key no_nodes h = absurd (cc (h))
sibling-found key (child k n ns) h = elim (Bool-cases (has_this_key k key)) [
  | inl e ↦ (0, same k e)
  | inr e ↦ let (i, at) = sibling-found key ns (ground (arith, h, e)) in (suc i, at)
]
  where
    same : (o : Option (List ℕ)) → has_this_key o key ≡ true → o ≡ some key
    same none q = absurd (cc (q))
    same (some m) q = ap some (eq_text_sound m key q)

-- A child without a key has no sibling of its key.
no_key_found : (ns : Nodes) → has_sibling none ns ≡ true → ⊥
unfolding has_sibling
no_key_found no_nodes h = cc (h)
no_key_found (child k n ns) h = cc (h)

has_pair-HasClash : (ns : Nodes) → has_pair ns ≡ true → HasClash ns
unfolding has_pair HasClash key_at
has_pair-HasClash no_nodes h = absurd (cc (h))
has_pair-HasClash (child k n ns) h = elim (Bool-cases (has_sibling k ns)) [
  | inl e ↦ first k e
  | inr e ↦
      let (i, j, l, ne, at_i, at_j) = has_pair-HasClash ns (ground (arith, h, e)) in
      (suc i, suc j, l, (λ q. ne (omega arith)), at_i, at_j)
]
  where
    first : (o : Option (List ℕ)) → has_sibling o ns ≡ true → HasClash (child o n ns)
    first none q = absurd (no_key_found ns q)
    first (some l) q =
        let (i, at) = sibling-found l ns q in (0, suc i, l, (λ e. omega arith), refl, at)

mutual
  unfolding has_duplicates any_duplicates AreReachable AllReachable

  accepted : (n : Node) → has_duplicates n ≡ false → AreReachable n
  accepted (scalar v) h = tt
  accepted (sequence ns) h = all_accepted ns h
  accepted (mapping ns) h =
      (has_pair-IsReachable ns (ground (arith, h)), all_accepted ns (ground (arith, h)))

  all_accepted : (ns : Nodes) → any_duplicates ns ≡ false → AllReachable ns
  all_accepted no_nodes h = tt
  all_accepted (child k n ns) h =
      (accepted n (ground (arith, h)), all_accepted ns (ground (arith, h)))

mutual
  unfolding has_duplicates any_duplicates Clashes AnyClashes

  rejected : (n : Node) → has_duplicates n ≡ true → Clashes n
  rejected (scalar v) h = absurd (cc (h))
  rejected (sequence ns) h = any_rejected ns h
  rejected (mapping ns) h = elim (Bool-cases (has_pair ns)) [
    | inl e ↦ inl (has_pair-HasClash ns e)
    | inr e ↦ inr (any_rejected ns (ground (arith, h, e)))
  ]

  any_rejected : (ns : Nodes) → any_duplicates ns ≡ true → AnyClashes ns
  any_rejected no_nodes h = absurd (cc (h))
  any_rejected (child k n ns) h = elim (Bool-cases (has_duplicates n)) [
    | inl e ↦ inl (rejected n e)
    | inr e ↦ inr (any_rejected ns (ground (arith, h, e)))
  ]

-- In a document that ryml_find_duplicate_keys accepts, the look-up of the key of any entry of any
-- map finds that entry; in one that it refuses, some map has two entries with one key.
pub find_duplicate_keys-Decides :
    (root : Node)
    → (find_duplicate_keys (some root) ≡ true → AreReachable root)
      × (find_duplicate_keys (some root) ≡ false → Clashes root)
unfolding find_duplicate_keys
find_duplicate_keys-Decides root =
    (λ e. accepted root (ground (arith, e)), λ e. rejected root (ground (arith, e)))
