-- ===== src/Yaml/Path.antt =====
-- ryml_get_node_by_path of src/yaml.cpp: its guarded reading of an index misses nothing.
use opentelemetry_c_wrapper.Prelude.{
  ℕ, zero, suc, ◌+◌, ◌-◌, ◌*◌, ◌/◌, ◌%◌, ◌^◌, ◌≤◌, ◌<◌, ◌≡◌, refl, sym, ap, ◌∙◌, ◌⊎◌, inl, inr,
  Bool, true, false, ◌&&◌, List, [], ◌∷◌, Option, none, some, leb, ltb, arith, Bool-cases,
  if◌then◌else◌,
}
use opentelemetry_c_wrapper.Yaml.{
  Node, scalar, sequence, mapping, Nodes, no_nodes, child, num_children, child_at, child_with_key,
  has_this_key, size_max, index_from, index, element, node_step, node_at,
}

-- A decimal number without a bound; none at a character that is no digit.
unfoldable pub decimal : ℕ → List ℕ → Option ℕ
decimal a [] = some a
decimal a (c ∷ cs) =
    let rest = decimal (a * 10 + (c - 48)) cs in if leb 48 c && leb c 57 then rest else none

-- The child that a part names: by its number in a sequence, by its key in a map.
unfoldable pub named_child : Node → List ℕ → Option Node
unfolding decimal
named_child (scalar v) part = none
named_child (sequence ns) [] = none
named_child (sequence ns) (c ∷ cs) = elim (decimal 0 (c ∷ cs)) [
  | none ↦ none
  | some i ↦ child_at ns i
]
named_child (mapping ns) part = child_with_key ns part

unfoldable pub descendant : Node → List (List ℕ) → Option Node
unfolding named_child
descendant n [] = some n
descendant n (part ∷ parts) = elim (named_child n part) [
  | none ↦ none
  | some m ↦ descendant m parts
]

-- No sequence has more children than a size_t counts.
unfoldable mutual
  pub Sized : Node → Type 0
  Sized (scalar v) = Unit
  Sized (sequence ns) = (num_children ns ≤ size_max) × AllSized ns
  Sized (mapping ns) = AllSized ns

  pub AllSized : Nodes → Type 0
  AllSized no_nodes = Unit
  AllSized (child k n ns) = Sized n × AllSized ns

child_at-Sized : (ns : Nodes) (i : ℕ) (n : Node) → AllSized ns → child_at ns i ≡ some n → Sized n
unfolding child_at AllSized
child_at-Sized no_nodes i n h e = absurd (cc (e))
child_at-Sized (child k m ns) zero n h e = rw (sym (same e)) h.0
  where
    same : some m ≡ some n → m ≡ n
    same q = cc (q)
child_at-Sized (child k m ns) (suc i) n h e = child_at-Sized ns i n h.1 e

child_with_key-Sized :
    (ns : Nodes) (part : List ℕ) (n : Node)
    → AllSized ns
    → child_with_key ns part ≡ some n
    → Sized n
unfolding child_with_key AllSized
child_with_key-Sized no_nodes part n h e = absurd (cc (e))
child_with_key-Sized (child k m ns) part n h e =
    go (has_this_key k part) e (child_with_key-Sized ns part n h.1)
  where
    same : some m ≡ some n → m ≡ n
    same q = cc (q)

    go :
        (b : Bool)
        → (if◌then◌else◌ {A = Option Node} b (some m) (child_with_key ns part)) ≡ some n
        → (child_with_key ns part ≡ some n → Sized n)
        → Sized n
    go true q f = rw (sym (same q)) h.0
    go false q f = f q

named_child-Sized :
    (n : Node) (part : List ℕ) (m : Node) → Sized n → named_child n part ≡ some m → Sized m
unfolding named_child Sized
named_child-Sized (scalar v) part m h e = absurd (cc (e))
named_child-Sized (sequence ns) [] m h e = absurd (cc (e))
named_child-Sized (sequence ns) (c ∷ cs) m h e = go (decimal 0 (c ∷ cs)) e
  where
    go : (o : Option ℕ) → elim o [ none ↦ none | some i ↦ child_at ns i ] ≡ some m → Sized m
    go none q = absurd (cc (q))
    go (some i) q = child_at-Sized ns i m h.1 q
named_child-Sized (mapping ns) part m h e = child_with_key-Sized ns part m h e

-- A number that goes on only gets larger.
decimal-le : (a : ℕ) (cs : List ℕ) (v : ℕ) → decimal a cs ≡ some v → a ≤ v
unfolding decimal
decimal-le a [] v e = ground arith
decimal-le a (c ∷ cs) v e = ground (arith, decimal-le (a * 10 + (c - 48)) cs v)

-- The guarded reading is the unbounded one, or gives up on a number above SIZE_MAX.
index_from-decimal :
    (a : ℕ) (cs : List ℕ)
    → (index_from a cs ≡ decimal a cs)
      ⊎ ((index_from a cs ≡ none) × ((v : ℕ) → decimal a cs ≡ some v → size_max < v))
unfolding index_from decimal
index_from-decimal a [] = inl refl
index_from-decimal a (c ∷ cs) = elim (Bool-cases (leb 48 c && leb c 57)) [
  | inr other ↦ rw other (inl refl)
  | inl digit ↦ elim (Bool-cases (ltb ((size_max - (c - 48)) / 10) a)) [
    | inl wraps ↦
        rw (digit, wraps)
          (inr (refl, λ v e. omega (arith, decimal-le (a * 10 + (c - 48)) cs v e, above wraps)))
    | inr fits ↦
        rw (digit, fits, no_wrap (below digit fits)) (index_from-decimal (a * 10 + (c - 48)) cs)
  ]
]
  where
    above : ltb ((size_max - (c - 48)) / 10) a ≡ true → size_max < a * 10 + (c - 48)
    above w = ground arith

    below :
        leb 48 c && leb c 57 ≡ true
        → ltb ((size_max - (c - 48)) / 10) a ≡ false
        → a * 10 + (c - 48) < 2 ^ 64
    below d w = ground arith

    no_wrap : a * 10 + (c - 48) < 2 ^ 64 → (a * 10 + (c - 48)) % 2 ^ 64 ≡ a * 10 + (c - 48)
    no_wrap h = omega arith

child_at-beyond : (ns : Nodes) (i : ℕ) → num_children ns ≤ i → child_at ns i ≡ none
unfolding child_at num_children
child_at-beyond no_nodes i h = refl
child_at-beyond (child k n ns) zero h = absurd (omega arith)
child_at-beyond (child k n ns) (suc i) h = child_at-beyond ns i (omega arith)

element-read :
    (ns : Nodes) (o : Option ℕ) → element ns o ≡ elim o [ none ↦ none | some i ↦ child_at ns i ]
unfolding element
element-read ns none = refl
element-read ns (some i) = elim (Bool-cases (leb (num_children ns) i)) [
  | inl e ↦ rw e (sym (child_at-beyond ns i (ground arith)))
  | inr e ↦ rw e refl
]

-- A number that is given up names no child.
element-lost :
    (ns : Nodes) (o : Option ℕ)
    → num_children ns ≤ size_max
    → ((v : ℕ) → o ≡ some v → size_max < v)
    → none ≡ elim o [ none ↦ none | some i ↦ child_at ns i ]
element-lost ns none h f = refl
element-lost ns (some i) h f = sym (child_at-beyond ns i (omega (arith, f i refl)))

pub node_step-named : (n : Node) (part : List ℕ) → Sized n → node_step n part ≡ named_child n part
unfolding node_step named_child Sized index
node_step-named (scalar v) part h = refl
node_step-named (mapping ns) part h = refl
node_step-named (sequence ns) [] h = unfold element in refl
node_step-named (sequence ns) (c ∷ cs) h = elim (index_from-decimal 0 (c ∷ cs)) [
  | inl e ↦ ap (element ns) e ∙ element-read ns (decimal 0 (c ∷ cs))
  | inr (e, f) ↦ ap (element ns) e ∙ lost ∙ element-lost ns (decimal 0 (c ∷ cs)) h.0 f
]
  where
    lost : element ns none ≡ none
    lost = unfold element in refl

-- In a tree none of whose sequences has more than SIZE_MAX children, ryml_get_node_by_path finds at
-- a path exactly the descendant that the parts name, with the numbers of positions read without
-- any bound.
pub node_at-descendant :
    (n : Node) (parts : List (List ℕ)) → Sized n → node_at n parts ≡ descendant n parts
unfolding node_at descendant
node_at-descendant n [] h = refl
node_at-descendant n (part ∷ parts) h =
    ap (λ o. elim o [ none ↦ none | some m ↦ node_at m parts ]) (node_step-named n part h)
    ∙ (go (named_child n part) (λ m e. node_at-descendant m parts (named_child-Sized n part m h e)))
  where
    go :
        (o : Option Node)
        → ((m : Node) → o ≡ some m → node_at m parts ≡ descendant m parts)
        → elim o [ none ↦ none | some m ↦ node_at m parts ]
          ≡ elim o [ none ↦ none | some m ↦ descendant m parts ]
    go none f = refl
    go (some m) f = f m refl
