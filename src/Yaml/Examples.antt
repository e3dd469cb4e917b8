-- ===== src/Yaml/Examples.antt =====
-- The theorems about parsed configurations at a concrete document, and runs of the look-ups.
use opentelemetry_c_wrapper.Prelude.{
  ℕ, ◌≡◌, refl, true, false, List, [], ◌∷◌, none, some, arith, eq_text, length,
}
use opentelemetry_c_wrapper.Heap.{Heap}
use opentelemetry_c_wrapper.Yaml.{
  Node, Nodes, scalar, sequence, mapping, no_nodes, child, num_children, child_at, child_with_key,
  node_at, get_node_by_path,
}
use opentelemetry_c_wrapper.Yaml.Path.{Sized, AllSized, descendant, node_at-descendant}
use opentelemetry_c_wrapper.Meter.Key.Digits.{digits}
use opentelemetry_c_wrapper.Yaml.Positions.{node_at-digits}
use opentelemetry_c_wrapper.Yaml.Keys.{
  find_duplicate_keys, AreReachable, Clashes, find_duplicate_keys-Decides,
}
use opentelemetry_c_wrapper.Yaml.Properties.{Property, int64_slot, bool_slot, Scanned}
use opentelemetry_c_wrapper.Yaml.Sequences.{get_sequence}
use opentelemetry_c_wrapper.Yaml.Sequences.Owned.{Reads, items_at, get_sequence-Reads}

-- a: [{b: x}]
abbrev document : Node
document = mapping (
    child (some (97 ∷ []))
      (sequence
        (child none (mapping (child (some (98 ∷ [])) (scalar (120 ∷ [])) no_nodes)) no_nodes))
      no_nodes)

-- The parts a, 0 and b.
abbrev parts : List (List ℕ)
parts = (97 ∷ []) ∷ (48 ∷ []) ∷ (98 ∷ []) ∷ []

document-Sized : Sized document
unfolding Sized AllSized num_children
document-Sized = ((omega arith, ((tt, tt), tt)), tt)

node_at-test : node_at document parts ≡ some (scalar (120 ∷ []))
unfolding node_at child_with_key eq_text num_children child_at
node_at-test = refl

node_at-descendant_example : node_at document parts ≡ descendant document parts
node_at-descendant_example = node_at-descendant document parts document-Sized

find_duplicate_keys-Decides_example :
    (find_duplicate_keys (some document) ≡ true → AreReachable document)
    × (find_duplicate_keys (some document) ≡ false → Clashes document)
find_duplicate_keys-Decides_example = find_duplicate_keys-Decides document

abbrev heap : Heap
heap = record { next = 100; live = []; answers = true ∷ true ∷ true ∷ false ∷ []; bad_frees = 0 }

-- A split that knows one path, "a".
abbrev split : List ℕ → List (List ℕ)
split path = path ∷ []

get_sequence-Reads_example :
    Reads heap
      (items_at (get_node_by_path split (some document) (some (47 ∷ 97 ∷ []))))
      (get_sequence split (some document) (some (47 ∷ 97 ∷ [])) true none heap)
get_sequence-Reads_example =
    get_sequence-Reads split document (47 ∷ 97 ∷ []) true heap none heap ((λ p. omega arith), refl)

-- n: 7
abbrev settings : Node
settings = mapping (child (some (110 ∷ [])) (scalar (55 ∷ [])) no_nodes)

-- A number between 1 and 9 at "/n", and an optional flag at "/b".
abbrev properties : List (Property ℕ)
properties =
    record { is_mandatory = true; path = some (47 ∷ 110 ∷ []); slot = int64_slot 5 1 9 }
    ∷ record { is_mandatory = false; path = some (47 ∷ 98 ∷ []); slot = bool_slot 1 }
    ∷ []

-- Every text is the number 7.
abbrev seven : List ℕ → Scanned ℕ
seven t = (7, length t, 0)

abbrev buffer : List ℕ
buffer = 0 ∷ 0 ∷ []

abbrev format : List ℕ → List ℕ → List ℕ
format path name = path

-- [x, y]
abbrev pair : Nodes
pair = child none (scalar (120 ∷ [])) (child none (scalar (121 ∷ [])) no_nodes)

pair-Sized : Sized (sequence pair)
unfolding Sized AllSized num_children
pair-Sized = (omega arith, (tt, (tt, tt)))

node_at-digits_example : node_at (sequence pair) (digits 1 ∷ []) ≡ child_at pair 1
node_at-digits_example = node_at-digits pair 1 pair-Sized
