-- ===== src/Config.antt =====
-- The shard count of the configuration in src/util.cpp: otelc_load_handle_map_shards and what
-- otelc_lib_shutdown does to it, and otelc_cfg_validate. What yaml_find and strtoll of the libraries
-- answer is an input.
pub mod Shards
pub mod Validate
mod Examples
use Prim.Native.Nat.{bit_and}
use opentelemetry_c_wrapper.Prelude.{
  ℕ, ◌-◌, Bool, true, false, not, ◌&&◌, ◌||◌, List, [], ◌∷◌, Option, none, some, ◌==◌, leb,
  if◌then◌else◌,
}
use opentelemetry_c_wrapper.Naming.{
  Text, NState, not_found, unset_not_found, default_name, is_valid, has_percent, probe_nstate,
}

-- The process-wide count of shards of the handle maps, and whether a configuration has set it.
pub record Settings : Type 0 where
  pub map_shards : ℕ
  pub applied : Bool

-- What strtoll says of a text: whether all of it was read, errno, the sign and the absolute value.
pub record Parsed : Type 0 where
  pub whole : Bool
  pub failed : Bool
  pub negative : Bool
  pub magnitude : ℕ

-- yaml_find: an error, no such key, or the text under it as strtoll reads it.
pub data Found : Type 0 where
  broken : Found
  missing : Found
  text : Parsed → Found

-- The test of the code, without its negation; a negative number is below the range.
pub is_shard_count : Parsed → Bool
is_shard_count p =
    p.whole
    && not p.failed
    && not p.negative
    && leb 1 p.magnitude
    && leb p.magnitude 65536
    && (bit_and p.magnitude (p.magnitude - 1) == 0)

-- flag_apply && !applied.test_and_set(): the first configuration sets the count.
apply_shards : Bool → ℕ → Settings → Settings
apply_shards apply n s =
    if apply && not s.applied then record { map_shards = n; applied = true } else s

-- otelc_load_handle_map_shards: false is OTELC_RET_ERROR.
pub load_handle_map_shards : Found → Bool → Settings → Bool × Settings
unfolding is_shard_count apply_shards
load_handle_map_shards broken apply s = (false, s)
load_handle_map_shards missing apply s = (true, s)
load_handle_map_shards (text p) apply s =
    if is_shard_count p then (true, apply_shards apply p.magnitude s) else (false, s)

-- OTEL_HANDLE_MAP_SHARDS.
abbrev pub default_shards : ℕ
default_shards = 256

-- The part of otelc_lib_shutdown on the count.
pub lib_shutdown : Settings → Settings
lib_shutdown s = record { map_shards = default_shards; applied = false }

-- The loop of otelc_cfg_validate over the signals of the table otel_signal_bases.
pub is_failure : NState → Bool
is_failure not_found = true
is_failure unset_not_found = true
is_failure s = false

pub signals_resolve : (Text → Bool) → List Text → Text → Bool → Bool
unfolding is_failure
signals_resolve exists [] name name_set = true
signals_resolve exists (b ∷ bs) name name_set =
    let rest = signals_resolve exists bs name name_set in
    if is_failure (probe_nstate exists true (some b) (some name) name_set) then false else rest

pub context_name : Option Text → Text
context_name none = default_name
context_name (some n) = if is_valid (some n) then n else default_name

-- otelc_cfg_validate: whether there is a path, and the document, if it can be opened. The settings
-- stay as they are.
pub cfg_validate :
    Bool → Option (Text → Bool) → Found → List Text → Option Text → Settings → Bool × Settings
unfolding load_handle_map_shards signals_resolve context_name
cfg_validate path none shards bases name s = (false, s)
cfg_validate path (some exists) shards bases name s =
    let (loaded, s') = load_handle_map_shards shards false s in
    if not path || has_percent name
    then (false, s)
    else (loaded && signals_resolve exists bases (context_name name) (is_valid name), s')
