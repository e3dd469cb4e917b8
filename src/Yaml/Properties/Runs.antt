-- ===== src/Yaml/Properties/Runs.antt =====
-- yaml_get_node of src/yaml.cpp: the loop over the properties, its result, and the name of the node.
use opentelemetry_c_wrapper.Prelude.{
  ℕ, suc, ◌+◌, ◌≤◌, ◌≡◌, Bool, false, List, [], ◌∷◌, Option, none, some, if◌then◌else◌, length,
}
use opentelemetry_c_wrapper.Heap.{Heap}
use opentelemetry_c_wrapper.Yaml.Properties.{Property, Scanned, Outcome}
use opentelemetry_c_wrapper.Yaml.Properties.Ranges.{AllSettled}

pub mandatory_count : {D : Type 0} → List (Property D) → ℕ
mandatory_count [] = 0
mandatory_count (p ∷ ps) =
    let rest = mandatory_count ps in if p.is_mandatory then suc rest else rest

-- What a run over the properties promises: all of them are settled, and a result that is no error
-- counts at least the mandatory ones and at most all.
pub record Gets {D : Type 0} (le : D → D → Bool) (ps : List (Property D)) (retval : ℕ)
    (r : Outcome D) : Type 0 where
  pub settled : AllSettled le ps r.1
  pub at_least : (n : ℕ) → r.0 ≡ some n → retval + mandatory_count ps ≤ n
  pub at_most : (n : ℕ) → r.0 ≡ some n → n ≤ retval + length ps

module _ {D : Type 0} (le : D → D → Bool) (strtoll : List ℕ → Scanned ℕ)
    (strtod : List ℕ → Scanned D) (split : List ℕ → List (List ℕ))
    (format : List ℕ → List ℕ → List ℕ) (subarg : List ℕ) where
  -- The node is optional, and there is no name for it in the document.
  pub Absent : Bool → Option (List ℕ) → List (Property D) → Heap → Outcome D → Type 0
  Absent mandatory name ps h r = (mandatory ≡ false) × (name ≡ none) × (r ≡ (some 0, ps, h))
