-- ===== src/Naming/Examples.antt =====
-- The theorems about context names at a concrete document.
use opentelemetry_c_wrapper.Prelude.{◌≡◌, refl, Bool, true, false, ◌||◌, [], ◌∷◌, some, arith}
use opentelemetry_c_wrapper.Heap.{Heap}
use opentelemetry_c_wrapper.Heap.Balance.{Gained}
use opentelemetry_c_wrapper.Naming.{
  Text, default_name, is_valid, has_percent, same_text, join, probe_nstate, resolve_prefix,
}
use opentelemetry_c_wrapper.Naming.Blocks.{prefix_block, resolve_prefix-Gained}
use opentelemetry_c_wrapper.Naming.Resolve.{Fits, prefix_text, serves, resolve_prefix-Serves}

abbrev base : Text
base = 47 ∷ 97 ∷ []

abbrev name : Text
name = 120 ∷ []

-- The section /a has a default entry and no other.
document : Text → Bool
unfolding same_text join
document path = same_text path base || same_text path (join base default_name)

abbrev heap : Heap
heap = record { next = 10; live = []; answers = []; bad_frees = 0 }

abbrev scarce : Heap
scarce = record { next = 10; live = []; answers = true ∷ false ∷ []; bad_frees = 0 }

facts :
    (is_valid (some base) ≡ true)
    × (is_valid (some name) ≡ true)
    × (has_percent (some name) ≡ false)
    × (document base ≡ true)
    × Fits base name
unfolding is_valid has_percent document same_text Fits join
facts = (refl, refl, refl, refl, (omega arith, omega arith, omega arith))

resolve_prefix-Serves_example :
    prefix_text (resolve_prefix document true (some base) (some name) (some default_name) heap).0
    ≡ serves (probe_nstate document true (some base) (some name) true) base name
resolve_prefix-Serves_example =
    resolve_prefix-Serves document base name heap facts.0 facts.1 facts.2 facts.3 facts.4 refl

resolve_prefix-Gained_example :
    Gained scarce
      (prefix_block
        (resolve_prefix document true (some base) (some name) (some default_name) scarce).0)
      (resolve_prefix document true (some base) (some name) (some default_name) scarce).1
resolve_prefix-Gained_example =
    resolve_prefix-Gained document true (some base) (some name) (some default_name) scarce
