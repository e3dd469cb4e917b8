-- ===== src/Yaml/Sequences/Owned.antt =====
-- yaml_get_sequence of src/yaml.cpp: the text map that it makes or fills stays valid and owns what
-- it allocated, on every path.
use opentelemetry_c_wrapper.Prelude.{
  ℕ, suc, ◌+◌, ◌≡◌, ap, ◌∙◌, inl, inr, Bool, true, false, not, ◌||◌, List, [], ◌∷◌, Option, none,
  some, arith, Bool-cases, count, length,
}
use opentelemetry_c_wrapper.Heap.{Heap}
use opentelemetry_c_wrapper.Heap.Balance.{Gained}
use opentelemetry_c_wrapper.TextMap.{TextMap}
use opentelemetry_c_wrapper.TextMap.Make.{IsOutcome, left_owned, text_map_new-Makes}
use opentelemetry_c_wrapper.TextMap.Lifetime.{Fills, Fills-add}
use opentelemetry_c_wrapper.Yaml.{
  Node, scalar, sequence, mapping, Nodes, no_nodes, child, num_children, get_node_by_path,
}
use opentelemetry_c_wrapper.Yaml.Sequences.{
  tree_text, Filled, Read, is_empty, add_result, add_entry, add_made, put_entry, entries, items,
  sequence_read, get_sequence,
}

-- Over the heap `base`, all that is allocated more belongs to the text map, if there is one, which
-- is valid.
abbrev pub Keeps : Heap → Option TextMap → Heap → Type 0
Keeps base none h = Gained base [] h
Keeps base (some m) h = Fills base m h

abbrev Kept : Heap → Filled → Type 0
Kept base r = Keeps base r.1 r.2

add_result-Kept :
    (base : Heap) (r : Option ℕ × TextMap × Heap) → Fills base r.1 r.2 → Kept base (add_result r)
unfolding add_result
add_result-Kept base (none, m, h) w = w
add_result-Kept base (some i, m, h) w = w

add_entry-Kept :
    (base : Heap) (m : TextMap) (k v : List ℕ) (h : Heap)
    → Fills base m h
    → Kept base (add_entry m k v h)
unfolding add_entry
add_entry-Kept base m k v h w =
    add_result-Kept base _ (Fills-add (tree_text k) (length k) (tree_text v) (length v) base m h w)

Gained-trans :
    (base h h' : Heap) (xs : List ℕ) → Gained base [] h → Gained h xs h' → Gained base xs h'
Gained-trans base h h' xs f g = ((λ p. omega (arith, f.0 p, g.0 p)), g.1 ∙ f.1)

add_made-Kept :
    (base h : Heap) (n : ℕ) (left : Option TextMap) (made : Bool) (k v : List ℕ) (h' : Heap)
    → Gained base [] h
    → Gained h (left_owned left) h'
    → IsOutcome n made left
    → Kept base (add_made left made k v h')
unfolding add_made
add_made-Kept base h n none made k v h' f g o = Gained-trans base h h' [] f g
add_made-Kept base h n (some m) true k v h' f g o =
    add_entry-Kept base m k v h' (record { valid = o.0; gained = Gained-trans base h h' _ f g })
add_made-Kept base h n (some m) false k v h' f g o =
    ((λ p. omega (arith, f.0 p, g.0 p, ap (count p) o.0)), g.1 ∙ f.1)

put_entry-Kept :
    (base : Heap) (n : ℕ) (o : Option TextMap) (k v : List ℕ) (h : Heap)
    → Keeps base o h
    → Kept base (put_entry n o k v h)
unfolding put_entry
put_entry-Kept base n none k v h w =
    let t = text_map_new-Makes none n h in add_made-Kept base h n _ _ k v _ w t.0 t.1
put_entry-Kept base n (some m) k v h w = add_entry-Kept base m k v h w

entries-Kept :
    (base : Heap) (n : ℕ) (ns : Nodes) (o : Option TextMap) (h : Heap)
    → Keeps base o h
    → Kept base (entries n ns o h)
unfolding entries
entries-Kept base n no_nodes o h w = w
entries-Kept base n (child none v rest) o h w = entries-Kept base n rest o h w
entries-Kept base n (child (some []) v rest) o h w = entries-Kept base n rest o h w
entries-Kept base n (child (some (c ∷ cs)) (sequence ns) rest) o h w =
    entries-Kept base n rest o h w
entries-Kept base n (child (some (c ∷ cs)) (mapping ns) rest) o h w = entries-Kept base n rest o h w
entries-Kept base n (child (some (c ∷ cs)) (scalar v) rest) o h w =
    go (put_entry n o (c ∷ cs) v h) (put_entry-Kept base n o (c ∷ cs) v h w)
      (λ o' h'. entries-Kept base n rest o' h')
  where
    go :
        (r : Filled)
        → Kept base r
        → ((o' : Option TextMap) (h' : Heap) → Keeps base o' h' → Kept base (entries n rest o' h'))
        → Kept base (elim r.0 [ true ↦ entries n rest r.1 r.2 | false ↦ r ])
    go (true, o', h') q f = f o' h' q
    go (false, o', h') q f = q

-- What yaml_get_sequence promises about its outcome.
pub record Reads (base : Heap) (total : ℕ) (r : Read) : Type 0 where
  pub kept : Keeps base r.1 r.2
  pub all_read : (n : ℕ) → r.0 ≡ some n → n ≡ total

items-Reads :
    (base : Heap) (n : ℕ) (ns : Nodes) (count : ℕ) (o : Option TextMap) (h : Heap)
    → Keeps base o h
    → Reads base (count + num_children ns) (items n ns count o h)
unfolding items num_children
items-Reads base n no_nodes count o h w = record { kept = w; all_read = λ k e. ground arith }
items-Reads base n (child key (scalar v) rest) count o h w = record {
  kept = w;
  all_read = λ k e. absurd (cc (e));
}
items-Reads base n (child key (sequence ns) rest) count o h w = record {
  kept = w;
  all_read = λ k e. absurd (cc (e));
}
items-Reads base n (child key (mapping ns) rest) count o h w =
    go (entries n ns o h) (entries-Kept base n ns o h w)
      (λ o' h'. items-Reads base n rest (suc count) o' h')
  where
    go :
        (r : Filled)
        → Kept base r
        → ((o' : Option TextMap) (h' : Heap)
            → Keeps base o' h'
            → Reads base (suc count + num_children rest) (items n rest (suc count) o' h'))
        → Reads base
            (count + suc (num_children rest))
            (elim r.0 [ true ↦ items n rest (suc count) r.1 r.2 | false ↦ (none, r.1, r.2) ])
    go (true, o', h') q f =
        let w' = f o' h' q in
        record { kept = w'.kept; all_read = λ k e. omega (arith, w'.all_read k e) }
    go (false, o', h') q f = record { kept = q; all_read = λ k e. absurd (cc (e)) }

-- The number of items at a node, none where a sequence has to be.
unfoldable pub items_at : Option Node → ℕ
items_at none = 0
items_at (some (scalar v)) = 0
items_at (some (sequence ns)) = num_children ns
items_at (some (mapping ns)) = 0

sequence_read-Reads :
    (base : Heap) (node : Option Node) (o : Option TextMap) (h : Heap)
    → Keeps base o h
    → Reads base (items_at node) (sequence_read node o h)
unfolding sequence_read items_at
sequence_read-Reads base none o h w = record { kept = w; all_read = λ k e. ground arith }
sequence_read-Reads base (some (scalar v)) o h w = record {
  kept = w;
  all_read = λ k e. absurd (cc (e));
}
sequence_read-Reads base (some (mapping ns)) o h w = record {
  kept = w;
  all_read = λ k e. absurd (cc (e));
}
sequence_read-Reads base (some (sequence ns)) o h w =
    let r = items-Reads base (num_children ns) ns 0 o h w in
    record { kept = r.kept; all_read = λ k e. omega (arith, r.all_read k e) }

-- yaml_get_sequence leaves the text map valid and owner of all that was allocated for it, whatever
-- the document is and whatever allocations fail, if it was so before; a result that is no error is
-- the number of items at the path, 0 where there is no node.
pub get_sequence-Reads :
    (split : List ℕ → List (List ℕ)) (root : Node) (path : List ℕ) (given : Bool) (base : Heap)
    (map : Option TextMap) (h : Heap)
    → Keeps base map h
    → Reads base
        (items_at (get_node_by_path split (some root) (some path)))
        (get_sequence split (some root) (some path) given map h)
unfolding get_sequence
get_sequence-Reads split root path given base map h w =
    elim (Bool-cases (is_empty path || not given)) [
      | inl e ↦ rw e (record { kept = w; all_read = λ k q. absurd (cc (q)) })
      | inr e ↦
          rw e (sequence_read-Reads base (get_node_by_path split (some root) (some path)) map h w)
    ]
