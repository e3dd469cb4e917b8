-- ===== src/Yaml.antt =====
-- The look-ups in a parsed configuration of src/yaml.cpp, in the build on the ryml library: the
-- nodes as its tree shows them, ryml_get_node_by_path, and the functions that read scalars and
-- sequences. `split` is the cutting of a path at its slashes by that library.
pub mod Path
pub mod Positions
pub mod Keys
pub mod Sequences
pub mod Properties
mod Examples
use opentelemetry_c_wrapper.Prelude.{
  ℕ, zero, suc, ◌+◌, ◌-◌, ◌*◌, ◌/◌, ◌%◌, ◌^◌, Bool, true, false, not, ◌&&◌, ◌||◌, List, [], ◌∷◌,
  Option, none, some, ◌==◌, leb, ltb, if◌then◌else◌, length, eq_text,
}
use opentelemetry_c_wrapper.Text.{strlcpy}

-- A node of the tree: a scalar, a sequence or a map. The children carry their keys, if they have
-- one.
mutual
  pub data Node : Type 0 where
    scalar : List ℕ → Node
    sequence : Nodes → Node
    mapping : Nodes → Node

  pub data Nodes : Type 0 where
    no_nodes : Nodes
    child : (key : Option (List ℕ)) → Node → Nodes → Nodes

abbrev pub children : Node → Nodes
children (scalar v) = no_nodes
children (sequence ns) = ns
children (mapping ns) = ns

pub num_children : Nodes → ℕ
num_children no_nodes = 0
num_children (child k n ns) = suc (num_children ns)

-- node[i] and node[key]: the child at a position, and the first one with a key.
unfoldable pub child_at : Nodes → ℕ → Option Node
child_at no_nodes i = none
child_at (child k n ns) zero = some n
child_at (child k n ns) (suc i) = child_at ns i

abbrev pub has_this_key : Option (List ℕ) → List ℕ → Bool
has_this_key none part = false
has_this_key (some k) part = eq_text k part

unfoldable pub child_with_key : Nodes → List ℕ → Option Node
child_with_key no_nodes part = none
child_with_key (child k n ns) part = if has_this_key k part then some n else child_with_key ns part

abbrev pub size_max : ℕ
size_max = 2 ^ 64 - 1

-- The loop of ryml_get_node_by_path over the digits of a part, in a size_t; none is an index that would wrap or
-- another character than a digit.
pub index_from : ℕ → List ℕ → Option ℕ
index_from idx [] = some idx
index_from idx (c ∷ cs) =
    let rest = index_from ((idx * 10 + (c - 48)) % 2 ^ 64) cs in
    if leb 48 c && leb c 57
    then if ltb ((size_max - (c - 48)) / 10) idx then none else rest
    else none

pub index : List ℕ → Option ℕ
unfolding index_from
index [] = none
index (c ∷ cs) = index_from 0 (c ∷ cs)

pub element : Nodes → Option ℕ → Option Node
element ns none = none
element ns (some i) = if leb (num_children ns) i then none else child_at ns i

-- One round of the loop over the parts.
pub node_step : Node → List ℕ → Option Node
unfolding element index
node_step (sequence ns) part = element ns (index part)
node_step (scalar v) part = none
node_step (mapping ns) part = child_with_key ns part

pub node_at : Node → List (List ℕ) → Option Node
unfolding node_step
node_at n [] = some n
node_at n (part ∷ parts) = elim (node_step n part) [ none ↦ none | some m ↦ node_at m parts ]

-- A path without its first slash (47).
abbrev pub relative : List ℕ → List ℕ
relative [] = []
relative (c ∷ cs) = if c == 47 then cs else c ∷ cs

abbrev is_empty : List ℕ → Bool
is_empty [] = true
is_empty (c ∷ cs) = false

module _ (split : List ℕ → List (List ℕ)) where
  -- ryml_get_node_by_path.
  pub get_node_by_path : Option Node → Option (List ℕ) → Option Node
  unfolding node_at
  get_node_by_path none path = none
  get_node_by_path (some root) none = none
  get_node_by_path (some root) (some path) =
      if is_empty (relative path) then some root else node_at root (split (relative path))

  -- What yaml_find copies: the text of a scalar that is not empty.
  pub scalar_text : Option Node → Option (List ℕ)
  scalar_text none = none
  scalar_text (some (scalar [])) = none
  scalar_text (some (scalar (c ∷ cs))) = some (c ∷ cs)
  scalar_text (some (sequence ns)) = none
  scalar_text (some (mapping ns)) = none

  -- An int result: 1, 0, or none for OTELC_RET_ERROR, and the buffer.
  abbrev pub Copied : Type 0
  Copied = Option ℕ × List ℕ

  pub copied_text : List ℕ → ℕ → Option (List ℕ) → Copied
  copied_text buffer size none = (some 0, buffer)
  copied_text buffer size (some t) =
      let r = strlcpy (some buffer) size (some t) (length t) in
      elim r.0 [
        | none ↦ (some 0, buffer)
        | some n ↦ (some 1, elim r.1 [ none ↦ buffer | some b ↦ b ])
      ]

  pub required : Bool → Copied → Copied
  required mandatory (some zero, b) = if mandatory then (none, b) else (some 0, b)
  required mandatory r = r

  -- yaml_find; a missing argument is none.
  pub found : Option Node → Bool → Bool → Option (List ℕ) → List ℕ → ℕ → Copied
  unfolding get_node_by_path scalar_text copied_text required
  found none mandatory desc path buffer size = (none, buffer)
  found (some root) mandatory false path buffer size = (none, buffer)
  found (some root) mandatory true none buffer size = (none, buffer)
  found (some root) mandatory true (some path) buffer size =
      if is_empty path || (size == 0)
      then (none, buffer)
      else required mandatory
          (copied_text buffer size (scalar_text (get_node_by_path (some root) (some path))))

  pub yaml_find : Option Node → Bool → Bool → Option (List ℕ) → Option (List ℕ) → ℕ → Copied
  unfolding found
  yaml_find doc mandatory desc path none size = (none, [])
  yaml_find doc mandatory desc path (some buffer) size = found doc mandatory desc path buffer size

  -- yaml_is_sequence and yaml_get_sequence_len.
  pub is_sequence : Option Node → Option (List ℕ) → Bool
  unfolding get_node_by_path
  is_sequence doc path = elim (get_node_by_path doc path) [
    | none ↦ false
    | some (scalar v) ↦ false
    | some (sequence ns) ↦ true
    | some (mapping ns) ↦ false
  ]

  pub get_sequence_len : Option Node → Option (List ℕ) → Option ℕ
  unfolding get_node_by_path
  get_sequence_len none path = none
  get_sequence_len (some root) none = none
  get_sequence_len (some root) (some path) =
      if is_empty path then none else elim (get_node_by_path (some root) (some path)) [
        | none ↦ none
        | some (scalar v) ↦ none
        | some (sequence ns) ↦ some (num_children ns)
        | some (mapping ns) ↦ none
      ]
