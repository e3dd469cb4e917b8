-- ===== src/Yaml/Sequences.antt =====
-- The sequences of src/yaml.cpp: yaml_get_sequence, which fills a text map, yaml_get_sequence_value
-- and yaml_find_sequence.
pub mod Owned
use opentelemetry_c_wrapper.Prelude.{
  ℕ, zero, suc, ◌+◌, ◌-◌, ◌*◌, ◌^◌, Bool, true, false, not, ◌&&◌, ◌||◌, List, [], ◌∷◌, ◌++◌, Option,
  none, some, ◌==◌, leb, if◌then◌else◌, length, take,
}
use opentelemetry_c_wrapper.Heap.{Heap}
use opentelemetry_c_wrapper.Text.{strlcpy}
use opentelemetry_c_wrapper.TextMap.{TextMap, Str, Made, auto, text_map_new}
use opentelemetry_c_wrapper.TextMap.Add.{add_pair}
use opentelemetry_c_wrapper.Yaml.{
  Node, scalar, sequence, mapping, Nodes, no_nodes, child, num_children, child_at, get_node_by_path,
  yaml_find,
}

-- A text of the tree, which is not owned by the text map.
abbrev pub tree_text : List ℕ → Str
tree_text t = record { addr = 0; text = t }

-- The outcome of a loop: whether it went through, *map, and the heap.
abbrev pub Filled : Type 0
Filled = Bool × Option TextMap × Heap

-- OTELC_TEXT_MAP_ADD with OTELC_TEXT_MAP_AUTO.
add_result : Option ℕ × TextMap × Heap → Filled
add_result (none, m, h) = (false, some m, h)
add_result (some i, m, h) = (true, some m, h)

pub add_entry : TextMap → List ℕ → List ℕ → Heap → Filled
unfolding add_result
add_entry m k v h = add_result (add_pair m (tree_text k) (length k) (tree_text v) (length v) auto h)

-- A map that is not there yet is made, for the number of items.
add_made : Option TextMap → Bool → List ℕ → List ℕ → Heap → Filled
unfolding add_entry
add_made none made k v h = (false, none, h)
add_made (some m) true k v h = add_entry m k v h
add_made (some m) false k v h = (false, none, h)

pub put_entry : ℕ → Option TextMap → List ℕ → List ℕ → Heap → Filled
unfolding add_made
put_entry n none k v h = let r = text_map_new none n h in add_made r.left r.made k v r.heap
put_entry n (some m) k v h = add_entry m k v h

-- The loop over the entries of one item: entries without a key, with an empty one, or without a
-- scalar are passed over.
pub entries : ℕ → Nodes → Option TextMap → Heap → Filled
unfolding put_entry
entries n no_nodes m h = (true, m, h)
entries n (child none v rest) m h = entries n rest m h
entries n (child (some []) v rest) m h = entries n rest m h
entries n (child (some (c ∷ cs)) (scalar v) rest) m h =
    let r = put_entry n m (c ∷ cs) v h in elim r.0 [ true ↦ entries n rest r.1 r.2 | false ↦ r ]
entries n (child (some (c ∷ cs)) (sequence ns) rest) m h = entries n rest m h
entries n (child (some (c ∷ cs)) (mapping ns) rest) m h = entries n rest m h

-- The outcome of yaml_get_sequence: the number of items, or none for OTELC_RET_ERROR.
abbrev pub Read : Type 0
Read = Option ℕ × Option TextMap × Heap

-- The loop over the items, each of them a map.
pub items : ℕ → Nodes → ℕ → Option TextMap → Heap → Read
unfolding entries
items n no_nodes count m h = (some count, m, h)
items n (child k (scalar v) rest) count m h = (none, m, h)
items n (child k (sequence ns) rest) count m h = (none, m, h)
items n (child k (mapping ns) rest) count m h =
    let r = entries n ns m h in
    elim r.0 [ true ↦ items n rest (suc count) r.1 r.2 | false ↦ (none, r.1, r.2) ]

abbrev pub is_empty : List ℕ → Bool
is_empty [] = true
is_empty (c ∷ cs) = false

sequence_read : Option Node → Option TextMap → Heap → Read
unfolding items
sequence_read none m h = (some 0, m, h)
sequence_read (some (scalar v)) m h = (none, m, h)
sequence_read (some (mapping ns)) m h = (none, m, h)
sequence_read (some (sequence ns)) m h = items (num_children ns) ns 0 m h

-- The text that stands in a buffer, before its terminator.
pub text_of : List ℕ → List ℕ
text_of [] = []
text_of (c ∷ cs) = let rest = text_of cs in if c == 0 then [] else c ∷ rest

module _ (split : List ℕ → List (List ℕ)) where
  -- yaml_get_sequence; `given` says that `map` is no null pointer.
  pub get_sequence : Option Node → Option (List ℕ) → Bool → Option TextMap → Heap → Read
  unfolding sequence_read
  get_sequence none path given m h = (none, m, h)
  get_sequence (some root) none given m h = (none, m, h)
  get_sequence (some root) (some path) given m h =
      if is_empty path || not given
      then (none, m, h)
      else sequence_read (get_node_by_path split (some root) (some path)) m h

  -- The copy of the text of an item.
  value_copied : List ℕ → ℕ → Option Node → Option (List ℕ)
  value_copied buffer size none = none
  value_copied buffer size (some (scalar [])) = none
  value_copied buffer size (some (scalar (c ∷ cs))) =
      let r = strlcpy (some buffer) size (some (c ∷ cs)) (length (c ∷ cs)) in
      elim r.0 [ none ↦ none | some n ↦ r.1 ]
  value_copied buffer size (some (sequence ns)) = none
  value_copied buffer size (some (mapping ns)) = none

  item_value : ℕ → List ℕ → ℕ → Option Node → Option (List ℕ)
  unfolding value_copied
  item_value i buffer size none = none
  item_value i buffer size (some (scalar v)) = none
  item_value i buffer size (some (mapping ns)) = none
  item_value i buffer size (some (sequence ns)) =
      if leb (num_children ns) i then none else value_copied buffer size (child_at ns i)

  -- yaml_get_sequence_value: a buffer with the text of the item, or none for OTELC_RET_ERROR. The
  -- index is an int, as its bits.
  pub get_sequence_value : Option Node → Option (List ℕ) → ℕ → Option (List ℕ) → ℕ → Option (List ℕ)
  unfolding item_value
  get_sequence_value none path i buffer size = none
  get_sequence_value (some root) none i buffer size = none
  get_sequence_value (some root) (some path) i none size = none
  get_sequence_value (some root) (some path) i (some buffer) size =
      if is_empty path || leb (2 ^ 31) i || (size == 0)
      then none
      else item_value i buffer size (get_node_by_path split (some root) (some path))

  -- A mandatory sequence has items.
  counted_read : Bool → Read → Read
  counted_read mandatory (some zero, m, h) = if mandatory then (none, m, h) else (some 0, m, h)
  counted_read mandatory r = r

  named_sequence :
      Option Node → Bool → List ℕ → Bool → Option TextMap → Heap → Option ℕ × List ℕ → Read
  unfolding get_sequence counted_read text_of
  named_sequence doc mandatory name given m h (none, arg) = (none, m, h)
  named_sequence doc mandatory name given m h (some zero, arg) = (some 0, m, h)
  named_sequence doc mandatory name given m h (some (suc n), arg) =
      counted_read mandatory
        (get_sequence doc (some (take 8191 (47 ∷ (name ++ (47 ∷ text_of arg))))) given m h)

  -- yaml_find_sequence: the name of the sequence stands under the path; its items are under
  -- "/<sequence>/<name>", cut to the size of the path buffer.
  pub find_sequence :
      Option Node
      → Bool
      → Option (List ℕ)
      → Option (List ℕ)
      → List ℕ
      → Bool
      → Option TextMap
      → Heap
      → Read
  unfolding named_sequence
  find_sequence doc mandatory path none buffer given m h = (none, m, h)
  find_sequence doc mandatory path (some name) buffer given m h =
      if is_empty name
      then (none, m, h)
      else named_sequence doc mandatory name given m h
          (yaml_find split doc mandatory true path (some buffer) 4096)
