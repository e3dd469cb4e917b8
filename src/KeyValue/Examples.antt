-- ===== src/KeyValue/Examples.antt =====
-- The theorems about arrays of values and pairs on concrete arrays and heaps.
use opentelemetry_c_wrapper.Prelude.{
  ℕ, ◌≡◌, refl, true, false, List, [], ◌∷◌, ◌++◌, map, Option, none, some, arith,
}
use opentelemetry_c_wrapper.Heap.{Heap}
use opentelemetry_c_wrapper.Heap.Balance.{Restored}
use opentelemetry_c_wrapper.KeyValue.{Value, value_data, Kv, Array, value_add, kv_add}
use opentelemetry_c_wrapper.KeyValue.Store.{value_blocks, kv_blocks, IsValid}
use opentelemetry_c_wrapper.KeyValue.Adds.{Adds}
use opentelemetry_c_wrapper.KeyValue.Kept.{kv_add-Adds}
use opentelemetry_c_wrapper.KeyValue.Values.{value_add-Adds}
use opentelemetry_c_wrapper.KeyValue.Content.{pairs}
use opentelemetry_c_wrapper.KeyValue.Lifetime.{
  Request, fill, lifetime, kv_lifetime-Restored, wanted_by, fill-pairs,
}

abbrev no_answers : List ℕ
no_answers = []

-- Only the block of the array is live; the first allocation succeeds, the next one fails.
abbrev tight : Heap
tight = record { next = 6; live = 5 ∷ []; answers = true ∷ false ∷ []; bad_frees = 0 }

abbrev ample : Heap
ample = record { next = 6; live = 5 ∷ []; answers = []; bad_frees = 0 }

abbrev below : Heap
below = record { next = 5; live = []; answers = []; bad_frees = 0 }

abbrev one_value : Array Value
one_value = record { block = some 5; cells = value_data none ∷ []; len = 1 }

abbrev one_kv : Array Kv
one_kv = record {
  block = some 5;
  cells = record { key = none; key_is_dynamic = false; value = value_data none } ∷ [];
  len = 1;
}

one_value-IsValid : IsValid one_value
one_value-IsValid = record { room = omega arith; null_empty = λ e. absurd (cc (e)) }

one_kv-IsValid : IsValid one_kv
one_kv-IsValid = record { room = omega arith; null_empty = λ e. absurd (cc (e)) }

abbrev bytes : Option (List ℕ)
bytes = some (97 ∷ 98 ∷ [])

value_add-Adds_example : Adds value_blocks below (value_add true one_value bytes 2 tight)
value_add-Adds_example =
    value_add-Adds true one_value bytes 2 below tight one_value-IsValid ((λ p. omega arith), refl)

kv_add-Adds_example : Adds kv_blocks below (kv_add true one_kv bytes bytes 2 tight)
kv_add-Adds_example =
    kv_add-Adds true one_kv bytes bytes 2 below tight one_kv-IsValid ((λ p. omega arith), refl)

abbrev requests : List Request
requests =
    record { given = true; key = bytes; bytes = none; size = 0 }
    ∷ record { given = true; key = none; bytes = bytes; size = 2 }
    ∷ []

kv_lifetime-Restored_example : Restored tight (lifetime 2 requests tight)
kv_lifetime-Restored_example = kv_lifetime-Restored 2 requests tight

fill-pairs_example : pairs (fill requests one_kv ample).0 ≡ pairs one_kv ++ map wanted_by requests
fill-pairs_example =
    fill-pairs requests below one_kv ample one_kv-IsValid ((λ p. omega arith), refl) refl
      (refl, omega arith, (refl, omega arith, tt))
