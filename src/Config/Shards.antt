-- ===== src/Config/Shards.antt =====
-- What the settings of src/util.cpp promise to the handle maps of include/util.h: a count of shards that
-- their constructor accepts.
use opentelemetry_c_wrapper.Prelude.{
  ℕ, ◌≤◌, ◌≡◌, refl, inl, inr, Bool, true, false, not, ◌&&◌, some, arith, Bool-cases,
}
use opentelemetry_c_wrapper.Handle.{bad_shards, otel_handle, otel_handle_init}
use opentelemetry_c_wrapper.Config.{
  Settings, Parsed, Found, broken, missing, text, is_shard_count, apply_shards,
  load_handle_map_shards, lib_shutdown,
}

-- The count of the settings is one that the constructor of a handle map accepts, of at most 65536.
pub record IsUsable (s : Settings) : Type 0 where
  pub accepted : bad_shards s.map_shards ≡ false
  pub bounded : s.map_shards ≤ 65536

count-IsUsable :
    (p : Parsed) (b : Bool)
    → is_shard_count p ≡ true
    → IsUsable (record { map_shards = p.magnitude; applied = b })
unfolding is_shard_count bad_shards
count-IsUsable p b e = record { accepted = ground (arith, e); bounded = ground (arith, e) }

load-IsUsable :
    (f : Found) (apply : Bool) (s : Settings)
    → IsUsable s
    → IsUsable (load_handle_map_shards f apply s).1
unfolding load_handle_map_shards apply_shards
load-IsUsable broken apply s w = w
load-IsUsable missing apply s w = w
load-IsUsable (text p) apply s w = elim (Bool-cases (is_shard_count p)) [
  | inr e ↦ rw e w
  | inl e ↦ elim (Bool-cases (apply && not s.applied)) [
    | inl a ↦ rw (e, a) (count-IsUsable p true e)
    | inr a ↦ rw (e, a) w
  ]
]

-- From settings with a usable count, whatever the configuration says, loading it leaves a count of
-- shards with which a handle map can be built: the constructor does not throw. otelc_lib_shutdown
-- restores such a count from any state.
pub load-Builds :
    (f : Found) (apply : Bool) (s : Settings)
    → IsUsable s
    → let n = (load_handle_map_shards f apply s).1.map_shards in
      (otel_handle {V = ℕ} n ≡ some (otel_handle_init n)) × (n ≤ 65536) × IsUsable (lib_shutdown s)
unfolding otel_handle lib_shutdown bad_shards
load-Builds f apply s w =
    let l = load-IsUsable f apply s w in
    (rw l.accepted refl, l.bounded, record { accepted = refl; bounded = omega arith })
