-- ===== src/TextMap/Examples.antt =====
-- The theorems about text maps at concrete maps, and runs of the operations of src/util.cpp.
use opentelemetry_c_wrapper.Prelude.{
  ℕ, ◌≤◌, count, refl, true, false, List, [], ◌∷◌, none, some, arith,
}
use opentelemetry_c_wrapper.Heap.{Heap}
use opentelemetry_c_wrapper.Heap.Balance.{Gained}
use opentelemetry_c_wrapper.TextMap.{TextMap, Str, Flags, auto, text_map_new}
use opentelemetry_c_wrapper.TextMap.Owned.{IsValid, Holds, owned, owned_keys, owned_values}
use opentelemetry_c_wrapper.TextMap.Make.{left_owned, IsOutcome, text_map_new-Makes}
use opentelemetry_c_wrapper.TextMap.Add.{add_pair, dup_text}
use opentelemetry_c_wrapper.TextMap.Add.Entry.{Adds}
use opentelemetry_c_wrapper.TextMap.Add.Total.{add_pair-Adds}
use opentelemetry_c_wrapper.TextMap.Add.Success.{IsStored, add_pair-IsStored}
use opentelemetry_c_wrapper.TextMap.Lifetime.{
  Request, offered, lifetime_taken, lifetime, Leaves, lifetime-Restored,
}

-- The third allocation of this heap fails.
abbrev scarce : Heap
scarce = record { next = 100; live = 7 ∷ []; answers = true ∷ true ∷ false ∷ []; bad_frees = 0 }

abbrev plenty : Heap
plenty = record { next = 100; live = 7 ∷ []; answers = []; bad_frees = 0 }

abbrev key : Str
key = record { addr = 1; text = 104 ∷ 105 ∷ [] }

abbrev value : Str
value = record { addr = 2; text = 120 ∷ [] }

-- The value is handed over, the key is not.
abbrev handing : Flags
handing = record { dup_key = false; free_key = false; dup_value = false; free_value = true }

abbrev given : Str
given = record { addr = 7; text = 120 ∷ [] }

abbrev requests : List Request
requests =
    record { key = key; key_len = 0; value = value; value_len = 0; flags = auto }
    ∷ record { key = key; key_len = 1; value = given; value_len = 1; flags = handing }
    ∷ []

abbrev empty_map : TextMap
empty_map = record {
  addr = 7;
  flags = none;
  flag_cells = [];
  key = none;
  key_cells = [];
  value = none;
  value_cells = [];
  count = 0;
  size = 0;
  is_dynamic = false;
}

empty_map-IsValid : IsValid empty_map
empty_map-IsValid = record {
  shaped = record { flags_array = refl; key_array = refl; value_array = refl };
  fits = omega arith;
  flag_room = omega arith;
  key_room = omega arith;
  value_room = omega arith;
  keys_filled = tt;
  values_filled = tt;
}

empty_map-Holds : Holds (owned empty_map) scarce
unfolding owned_keys owned_values
empty_map-Holds p = omega arith

-- The second request offers its value, block 7.
requests-offered : (p : ℕ) → count p (offered requests) ≤ count p scarce.live
unfolding offered
requests-offered p = omega arith

empty_map-Holds_plenty : Holds (owned empty_map) plenty
unfolding owned_keys owned_values
empty_map-Holds_plenty p = omega arith

lifetime-Restored_example :
    Leaves scarce
      (lifetime_taken requests (text_map_new none 1 scarce))
      (lifetime none 1 requests scarce)
lifetime-Restored_example = lifetime-Restored none 1 requests scarce requests-offered

text_map_new-Makes_example :
    Gained scarce
      (left_owned (text_map_new (some 7) 2 scarce).left)
      (text_map_new (some 7) 2 scarce).heap
    × IsOutcome 2 (text_map_new (some 7) 2 scarce).made (text_map_new (some 7) 2 scarce).left
text_map_new-Makes_example = text_map_new-Makes (some 7) 2 scarce

add_pair-Adds_example :
    Adds empty_map scarce auto key 0 value 1 (add_pair empty_map key 0 value 1 auto scarce)
add_pair-Adds_example =
    add_pair-Adds empty_map key 0 value 1 auto scarce empty_map-IsValid empty_map-Holds

add_pair-IsStored_example :
    IsStored empty_map (104 ∷ 105 ∷ []) (120 ∷ []) (add_pair empty_map key 2 value 1 auto plenty)
unfolding dup_text
add_pair-IsStored_example =
    add_pair-IsStored key 2 value 1 auto empty_map plenty empty_map-IsValid empty_map-Holds_plenty
      refl
