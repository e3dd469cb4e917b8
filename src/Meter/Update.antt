-- ===== src/Meter/Update.antt =====
-- The measurements of src/meter.cpp: otel_meter_update_instrument and its variant with attributes,
-- and the callbacks of observable instruments.
pub mod Safe
use opentelemetry_c_wrapper.Prelude.{
  ℕ, ◌+◌, ◌-◌, ◌^◌, Bool, true, false, List, [], ◌∷◌, Option, none, some, ltb, if◌then◌else◌,
}
use opentelemetry_c_wrapper.KeyValue.{Value, Kv}
use opentelemetry_c_wrapper.Meter.{
  InstrumentType, Member, Handle, Impl, Call, add_callback, remove_callback,
}
use opentelemetry_c_wrapper.Meter.Types.{
  is_observable, expected_type, value_type, Sent, dispatch, Dispatched, skipped, called, refused,
  observable_dispatch,
}
use opentelemetry_c_wrapper.Meter.Instruments.{map_find}

-- An int as the int64_t that the map is searched for, both as their bits.
abbrev pub sign_extend : ℕ → ℕ
sign_extend n = if ltb n (2 ^ 31) then n else n + (2 ^ 64 - 2 ^ 32)

-- The result, an int or none for OTELC_RET_ERROR, and the call of the SDK with its attributes.
abbrev pub Updated : Type 0
Updated = Option ℕ × Option (Sent × List Kv)

-- The dispatch on the type, after the test of the value.
pub dispatched : ℕ → List Kv → Option Sent → Updated
dispatched idx attr none = (none, none)
dispatched idx attr (some s) = (some idx, some (s, attr))

-- The attributes: a null pointer gives none; `attr_fail` says that one cannot be stored.
abbrev pub attributes : Option (List Kv) → List Kv
attributes none = []
attributes (some kv) = kv

abbrev pub is_empty : List Kv → Bool
is_empty [] = true
is_empty (e ∷ es) = false

pub attributed : Bool → ℕ → Option (List Kv) → Bool → InstrumentType → Value → Updated
unfolding dispatched
attributed abi2 idx kv attr_fail t v =
    if is_empty (attributes kv)
    then dispatched idx [] (dispatch abi2 t v)
    else if attr_fail
    then (none, none)
    else dispatched idx (attributes kv) (dispatch abi2 t v)

pub measured : Bool → ℕ → Option (List Kv) → Bool → Value → Option Handle → Updated
unfolding attributed
measured abi2 idx kv attr_fail v none = (none, none)
measured abi2 idx kv attr_fail v (some h) =
    if value_type (expected_type abi2 h.type) v
    then if is_observable h.type
      then (some idx, none)
      else attributed abi2 idx kv attr_fail h.type v
    else (none, none)

-- otel_meter_update_instrument_kv_n; without a value there is nothing to do.
pub update_instrument_kv_n : Bool → Impl → ℕ → Option Value → Option (List Kv) → Bool → Updated
unfolding measured
update_instrument_kv_n abi2 m idx none kv attr_fail = (none, none)
update_instrument_kv_n abi2 m idx (some v) kv attr_fail =
    measured abi2 idx kv attr_fail v (map_find m.instrument.entries (sign_extend idx))

-- otel_meter_update_instrument.
pub sent_plain : Bool → ℕ → Value → Option Handle → Updated
unfolding dispatched
sent_plain abi2 idx v none = (none, none)
sent_plain abi2 idx v (some h) =
    if value_type (expected_type abi2 h.type) v
    then if is_observable h.type
      then (some idx, none)
      else dispatched idx [] (dispatch abi2 h.type v)
    else (none, none)

pub update_instrument : Bool → Impl → ℕ → Option Value → Updated
unfolding sent_plain
update_instrument abi2 m idx none = (none, none)
update_instrument abi2 m idx (some v) =
    sent_plain abi2 idx v (map_find m.instrument.entries (sign_extend idx))

-- otel_meter_add_instrument_callback and _remove_instrument_callback: whether they succeed, and
-- the call of the observable.
callback_done : Dispatched → Call → Bool × Option Call
callback_done skipped c = (true, none)
callback_done called c = (true, some c)
callback_done refused c = (false, none)

callback_on : Bool → (Member → Call) → Option Handle → Bool × Option Call
unfolding callback_done
callback_on abi2 f none = (false, none)
callback_on abi2 f (some h) = callback_done (observable_dispatch abi2 h.type) (f h.member)

pub add_instrument_callback : Bool → Impl → ℕ → Option ℕ → Bool × Option Call
unfolding callback_on
add_instrument_callback abi2 m idx none = (false, none)
add_instrument_callback abi2 m idx (some d) =
    callback_on abi2 (λ p. add_callback p d) (map_find m.instrument.entries (sign_extend idx))

pub remove_instrument_callback : Bool → Impl → ℕ → Option ℕ → Bool × Option Call
unfolding callback_on
remove_instrument_callback abi2 m idx none = (false, none)
remove_instrument_callback abi2 m idx (some d) =
    callback_on abi2 (λ p. remove_callback p d) (map_find m.instrument.entries (sign_extend idx))
