-- ===== src/Meter/Instruments.antt =====
-- The instruments of src/meter.cpp: look-up by key, creation and callbacks. Creation is in two
-- parts, as other threads may run between them: the probe under the shared lock, and the rest under
-- the creation mutex.
pub mod Tables
pub mod Creation
pub mod Outcomes
use opentelemetry_c_wrapper.Prelude.{
  ℕ, suc, ◌-◌, ◌^◌, Bool, true, false, not, ◌&&◌, ◌||◌, List, [], ◌∷◌, Option, none, some, ◌==◌,
  ltb, length, if◌then◌else◌, eq_text,
}
use opentelemetry_c_wrapper.Meter.{
  InstrumentType, other, Member, nothing, observable_ptr, Handle, Map, Impl, Meter, Call,
  add_callback, remove_callback,
}
use opentelemetry_c_wrapper.Meter.Key.{instrument_key}
use opentelemetry_c_wrapper.Meter.Types.{
  is_observable, new_member, is_valid, Dispatched, skipped, called, refused, observable_dispatch,
}

-- otel_nolock_meter_find_instrument: none is OTELC_RET_ERROR.
unfoldable pub find_instrument : List (List ℕ × ℕ) → List ℕ → Option ℕ
find_instrument [] key = none
find_instrument ((k, id) ∷ rest) key = if eq_text k key then some id else find_instrument rest key

-- The handle map under an identifier: otel_map_find, emplace and erase.
unfoldable pub map_find {ℓ} : {V : Type ℓ} → List (ℕ × V) → ℕ → Option V
map_find [] i = none
map_find ((j, v) ∷ rest) i = if j == i then some v else map_find rest i

unfoldable pub map_erase {ℓ} : {V : Type ℓ} → List (ℕ × V) → ℕ → List (ℕ × V)
map_erase [] i = []
map_erase ((j, v) ∷ rest) i = if j == i then rest else (j, v) ∷ map_erase rest i

-- otel_meter_get_instrument. `out_of_memory` says that the key cannot be built.
unfoldable pub get_instrument : Impl → Option (List ℕ) → InstrumentType → Bool → Option ℕ
unfolding find_instrument
get_instrument m none t out_of_memory = none
get_instrument m (some name) t out_of_memory =
    if out_of_memory then none else find_instrument m.instrument_index (instrument_key name t)

-- What a creation meets: the key cannot be built, the validator accepts the name, unit and
-- description, the outcome of the construction, and the two insertions that may throw.
pub data Created : Type 0 where
  no_memory : Created  -- new(std::nothrow) gives null
  no_pointer : Created  -- the SDK gives an empty pointer
  no_name : Created  -- the name cannot be stored: the type becomes -1
  made : Created

pub record Answers : Type 0 where
  pub abi2 : Bool
  pub out_of_memory : Bool
  pub is_validated : Bool
  pub created : Created
  pub emplace_throws : Bool
  pub index_throws : Bool

-- The arguments of the call; the callback descriptor is an address.
pub record Request : Type 0 where
  pub name : Option (List ℕ)
  pub type : InstrumentType
  pub callback : Option ℕ

-- The probe of otel_meter_create_instrument, after the guards: a result, or on to the creation.
pub data Probed : Type 0 where
  error : Probed
  found : ℕ → Probed
  goes_on : List ℕ → Probed

abbrev callback_fits : InstrumentType → Option ℕ → Bool
callback_fits t none = not (is_observable t)
callback_fits t (some d) = is_observable t

probe_key : Option ℕ → List ℕ → Request → Answers → Probed
probe_key (some id) name q a = found id
probe_key none name q a =
    if callback_fits q.type q.callback && a.is_validated then goes_on name else error

probe_name : Impl → Option (List ℕ) → Request → Answers → Probed
unfolding probe_key
probe_name m none q a = error
probe_name m (some name) q a =
    if not m.has_meter || a.out_of_memory
    then error
    else probe_key (find_instrument m.instrument_index (instrument_key name q.type)) name q a

pub probe_instrument : Meter → Request → Answers → Probed
unfolding probe_name
probe_instrument m q a = elim m.impl [
  | none ↦ error
  | some i ↦ if m.enabled then probe_name i q.name q a else error
]

-- The handle that the constructor leaves, if there is one.
pub new_handle : List ℕ → InstrumentType → Member → Created → Option Handle
new_handle name t p no_memory = none
new_handle name t p no_pointer = some (record { name = name; type = t; member = nothing })
new_handle name t p no_name = some (record { name = []; type = other (2 ^ 32 - 1); member = p })
new_handle name t p made = some (record { name = name; type = t; member = p })

-- The outcome of a creation: an identifier or none, the state, and the calls of the SDK.
abbrev pub Outcome : Type 0
Outcome = Option ℕ × Impl × List Call

-- The entry is taken out of the map again.
abbrev pub undone : Impl → List Call → Outcome
undone m cs = (
  none,
  record m {
    instrument = record m.instrument { entries = map_erase m.instrument.entries m.instrument.id };
  },
  cs,
)

-- The index entry, the peak size and the next identifier.
abbrev pub max : ℕ → ℕ → ℕ
max a b = if ltb a b then b else a

pub indexed : List ℕ → Answers → Impl → List Call → Outcome
indexed key a m cs = if a.index_throws then undone m cs else (
  some m.instrument.id,
  record m {
    instrument_index = (key, m.instrument.id) ∷ m.instrument_index;
    instrument = record m.instrument {
      peak_size = max m.instrument.peak_size (length m.instrument.entries);
      id = suc m.instrument.id;
    };
  },
  cs,
)

-- The callback of an observable instrument is registered before the index entry.
pub observed : List ℕ → Answers → Impl → Dispatched → Member → ℕ → Outcome
unfolding indexed
observed key a m skipped p d = indexed key a m []
observed key a m called p d = indexed key a m (add_callback p d ∷ [])
observed key a m refused p d = undone m []

pub with_callback : List ℕ → Answers → Impl → Handle → Option ℕ → Outcome
unfolding observed
with_callback key a m h none = indexed key a m []
with_callback key a m h (some d) = observed key a m (observable_dispatch a.abi2 h.type) h.member d

-- The insertion into the map, under its exclusive lock.
abbrev pub inserted : Impl → Handle → Impl
inserted m h = record m {
  instrument = record m.instrument { entries = (m.instrument.id, h) ∷ m.instrument.entries };
}

pub emplaced : List ℕ → Answers → Impl → Handle → Option ℕ → Option Handle → Outcome
unfolding with_callback
emplaced key a m h callback (some old) = (none, m, [])
emplaced key a m h callback none =
    if a.emplace_throws then (none, m, []) else with_callback key a (inserted m h) h callback

pub stored : List ℕ → Answers → Impl → Option Handle → Option ℕ → Outcome
unfolding emplaced
stored key a m none callback = (none, m, [])
stored key a m (some h) callback =
    if is_valid a.abi2 h.type h.member
    then emplaced key a m h callback (map_find m.instrument.entries m.instrument.id)
    else (none, m, [])

pub constructed : List ℕ → List ℕ → Request → Answers → Impl → Option Member → Outcome
unfolding stored new_handle
constructed key name q a m none = (none, m, [])
constructed key name q a m (some p) = stored key a m (new_handle name q.type p a.created) q.callback

-- The part of otel_meter_create_instrument under the creation mutex, for the name that the probe
-- passed on: the second look-up, the handle, and the three insertions.
pub rechecked : Option ℕ → List ℕ → List ℕ → Request → Answers → Impl → Outcome
unfolding constructed
rechecked (some id) key name q a m = (some id, m, [])
rechecked none key name q a m = constructed key name q a m (new_member a.abi2 q.type)

pub create_locked : Impl → List ℕ → Request → Answers → Outcome
unfolding rechecked find_instrument
create_locked m name q a =
    rechecked (find_instrument m.instrument_index (instrument_key name q.type))
      (instrument_key name q.type) name q a m
