-- ===== src/Config/Examples.antt =====
-- The theorems about the shard count and the validation at a concrete configuration.
use opentelemetry_c_wrapper.Prelude.{
  ℕ, ◌≤◌, ◌≡◌, refl, Bool, true, false, List, [], ◌∷◌, none, some, arith,
}
use opentelemetry_c_wrapper.Handle.{bad_shards, otel_handle, otel_handle_init}
use opentelemetry_c_wrapper.Heap.{Heap}
use opentelemetry_c_wrapper.Naming.Resolve.{Fits}
use opentelemetry_c_wrapper.Naming.{
  Text, is_valid, probe_nstate, exists_cut, named, unnamed, join, has_percent,
}
use opentelemetry_c_wrapper.Config.{
  Settings, Found, missing, text, load_handle_map_shards, lib_shutdown, context_name, cfg_validate,
  signals_resolve, is_failure,
}
use opentelemetry_c_wrapper.Config.Shards.{IsUsable, load-Builds}
use opentelemetry_c_wrapper.Config.Validate.{AreServed, AreUsable, cfg_validate-AreServed}

abbrev settings : Settings
settings = record { map_shards = 256; applied = false }

settings-IsUsable : IsUsable settings
unfolding bad_shards
settings-IsUsable = record { accepted = refl; bounded = omega arith }

abbrev eight : Found
eight = text (record { whole = true; failed = false; negative = false; magnitude = 8 })

load-Builds_example :
    let n = (load_handle_map_shards eight true settings).1.map_shards in
    (otel_handle {V = ℕ} n ≡ some (otel_handle_init n))
    × (n ≤ 65536)
    × IsUsable (lib_shutdown settings)
load-Builds_example = load-Builds eight true settings settings-IsUsable

abbrev everything : Text → Bool
everything path = true

abbrev bases : List Text
bases = (47 ∷ 97 ∷ []) ∷ (47 ∷ 98 ∷ []) ∷ []

accepted : (cfg_validate true (some everything) missing bases none settings).0 ≡ true
unfolding cfg_validate load_handle_map_shards signals_resolve context_name is_failure probe_nstate
    exists_cut named unnamed is_valid join has_percent
accepted = refl

abbrev heap : Heap
heap = record { next = 1; live = []; answers = []; bad_frees = 0 }

bases-AreUsable : AreUsable everything bases (context_name none)
unfolding AreUsable Fits is_valid context_name join
bases-AreUsable = (
  refl,
  (omega arith, omega arith, omega arith),
  (refl, (omega arith, omega arith, omega arith), tt),
)

cfg_validate-AreServed_example :
    AreServed everything heap bases (context_name none)
    × ((cfg_validate true (some everything) missing bases none settings).1 ≡ settings)
cfg_validate-AreServed_example =
    cfg_validate-AreServed everything missing bases none settings heap bases-AreUsable refl accepted
