-- ===== src/Meter/Types.antt =====
-- What the type of an instrument decides in src/meter.cpp and include/meter.h: the pointer that a
-- new handle holds, whether it is observable, and the type of value that it takes.
use opentelemetry_c_wrapper.Prelude.{◌^◌, Bool, true, false, ◌&&◌, Option, none, some, leb, ltb}
use opentelemetry_c_wrapper.KeyValue.{Value, value_int64, value_uint64, value_double}
use opentelemetry_c_wrapper.Meter.{
  InstrumentType, counter_uint64, counter_double, histogram_uint64, histogram_double,
  udcounter_int64, udcounter_double, observable_counter_int64, observable_counter_double,
  observable_gauge_int64, observable_gauge_double, observable_udcounter_int64,
  observable_udcounter_double, gauge_int64, gauge_double, Member, counter_uint64_ptr,
  counter_double_ptr, histogram_uint64_ptr, histogram_double_ptr, udcounter_int64_ptr,
  udcounter_double_ptr, observable_ptr, gauge_int64_ptr, gauge_double_ptr,
}
use opentelemetry_c_wrapper.Meter.Key.{as_int}

-- OTEL_METRIC_INSTRUMENT_IS_OBSERVABLE.
abbrev pub is_observable : InstrumentType → Bool
is_observable t = leb 6 (as_int t) && leb (as_int t) 11

-- The chain of otel_meter_create_instrument that picks a constructor; `abi2` says that the SDK has
-- the second ABI, with gauges.
abbrev pub new_member : Bool → InstrumentType → Option Member
new_member abi2 counter_uint64 = some counter_uint64_ptr
new_member abi2 counter_double = some counter_double_ptr
new_member abi2 histogram_uint64 = some histogram_uint64_ptr
new_member abi2 histogram_double = some histogram_double_ptr
new_member abi2 udcounter_int64 = some udcounter_int64_ptr
new_member abi2 udcounter_double = some udcounter_double_ptr
new_member abi2 observable_counter_int64 = some observable_ptr
new_member abi2 observable_counter_double = some observable_ptr
new_member abi2 observable_gauge_int64 = some observable_ptr
new_member abi2 observable_gauge_double = some observable_ptr
new_member abi2 observable_udcounter_int64 = some observable_ptr
new_member abi2 observable_udcounter_double = some observable_ptr
new_member true gauge_int64 = some gauge_int64_ptr
new_member true gauge_double = some gauge_double_ptr
new_member abi2 t = none

-- otel_instrument_handle::is_valid.
abbrev pub is_valid : Bool → InstrumentType → Member → Bool
is_valid abi2 counter_uint64 counter_uint64_ptr = true
is_valid abi2 counter_double counter_double_ptr = true
is_valid abi2 histogram_uint64 histogram_uint64_ptr = true
is_valid abi2 histogram_double histogram_double_ptr = true
is_valid abi2 udcounter_int64 udcounter_int64_ptr = true
is_valid abi2 udcounter_double udcounter_double_ptr = true
is_valid abi2 observable_counter_int64 observable_ptr = true
is_valid abi2 observable_counter_double observable_ptr = true
is_valid abi2 observable_gauge_int64 observable_ptr = true
is_valid abi2 observable_gauge_double observable_ptr = true
is_valid abi2 observable_udcounter_int64 observable_ptr = true
is_valid abi2 observable_udcounter_double observable_ptr = true
is_valid true gauge_int64 gauge_int64_ptr = true
is_valid true gauge_double gauge_double_ptr = true
is_valid abi2 t p = false

-- The type of value that otel_meter_instrument_value_type expects; `any_type` is OTELC_VALUE_NULL.
pub data Expected : Type 0 where
  any_type : Expected
  uint64_type : Expected
  int64_type : Expected
  double_type : Expected

abbrev pub expected_type : Bool → InstrumentType → Expected
expected_type abi2 counter_uint64 = uint64_type
expected_type abi2 histogram_uint64 = uint64_type
expected_type abi2 counter_double = double_type
expected_type abi2 histogram_double = double_type
expected_type abi2 udcounter_double = double_type
expected_type abi2 udcounter_int64 = int64_type
expected_type true gauge_int64 = int64_type
expected_type true gauge_double = double_type
expected_type abi2 t = any_type

-- otel_meter_instrument_value_type on a value; an int64_t is negative from 2 ^ 63 on.
abbrev pub value_type : Expected → Value → Bool
value_type any_type v = true
value_type uint64_type (value_uint64 n) = true
value_type uint64_type (value_int64 n) = ltb n (2 ^ 63)
value_type int64_type (value_int64 n) = true
value_type double_type (value_double n) = true
value_type e v = false

-- OTELC_VALUE_TO_UINT64, of a value of the types that it is used for.
abbrev pub to_uint64 : Value → Value
to_uint64 (value_int64 n) = value_uint64 n
to_uint64 v = v

-- What an update hands to the instrument: the dispatch on the type of the handle. The pointer that
-- it calls is the one named by the type, also when the handle holds another one.
pub record Sent : Type 0 where
  pub through : Member
  pub value : Value

abbrev pub dispatch : Bool → InstrumentType → Value → Option Sent
dispatch abi2 counter_uint64 v = some (record { through = counter_uint64_ptr; value = to_uint64 v })
dispatch abi2 counter_double v = some (record { through = counter_double_ptr; value = v })
dispatch abi2 histogram_uint64 v =
    some (record { through = histogram_uint64_ptr; value = to_uint64 v })
dispatch abi2 histogram_double v = some (record { through = histogram_double_ptr; value = v })
dispatch abi2 udcounter_int64 v = some (record { through = udcounter_int64_ptr; value = v })
dispatch abi2 udcounter_double v = some (record { through = udcounter_double_ptr; value = v })
dispatch true gauge_int64 v = some (record { through = gauge_int64_ptr; value = v })
dispatch true gauge_double v = some (record { through = gauge_double_ptr; value = v })
dispatch abi2 t v = none

-- OTEL_METER_OBSERVABLE_DISPATCH: nothing for synchronous types, the observable for observable
-- ones, an error for any other type.
pub data Dispatched : Type 0 where
  skipped : Dispatched
  called : Dispatched
  refused : Dispatched

abbrev pub observable_dispatch : Bool → InstrumentType → Dispatched
observable_dispatch abi2 counter_uint64 = skipped
observable_dispatch abi2 counter_double = skipped
observable_dispatch abi2 histogram_uint64 = skipped
observable_dispatch abi2 histogram_double = skipped
observable_dispatch abi2 udcounter_int64 = skipped
observable_dispatch abi2 udcounter_double = skipped
observable_dispatch abi2 observable_counter_int64 = called
observable_dispatch abi2 observable_counter_double = called
observable_dispatch abi2 observable_gauge_int64 = called
observable_dispatch abi2 observable_gauge_double = called
observable_dispatch abi2 observable_udcounter_int64 = called
observable_dispatch abi2 observable_udcounter_double = called
observable_dispatch true gauge_int64 = skipped
observable_dispatch true gauge_double = skipped
observable_dispatch abi2 t = refused
