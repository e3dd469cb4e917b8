-- ===== src/Meter.antt =====
-- The meter of src/meter.cpp and include/meter.h: its state and the types of its instruments and
-- views. The SDK is seen through the calls that it gets: views that were added to a provider,
-- and callbacks of observable instruments.
pub mod Key
pub mod Types
pub mod Instruments
pub mod Views
pub mod Update
pub mod Run
mod Examples
use opentelemetry_c_wrapper.Prelude.{ℕ, Bool, List, Option}

-- otelc_metric_instrument_t; `other` is any other int, as its bits.
pub data InstrumentType : Type 0 where
  counter_uint64 : InstrumentType
  counter_double : InstrumentType
  histogram_uint64 : InstrumentType
  histogram_double : InstrumentType
  udcounter_int64 : InstrumentType
  udcounter_double : InstrumentType
  observable_counter_int64 : InstrumentType
  observable_counter_double : InstrumentType
  observable_gauge_int64 : InstrumentType
  observable_gauge_double : InstrumentType
  observable_udcounter_int64 : InstrumentType
  observable_udcounter_double : InstrumentType
  gauge_int64 : InstrumentType
  gauge_double : InstrumentType
  other : ℕ → InstrumentType

-- The smart pointer of otel_instrument_handle that is set, if any.
pub data Member : Type 0 where
  nothing : Member
  counter_uint64_ptr : Member
  counter_double_ptr : Member
  histogram_uint64_ptr : Member
  histogram_double_ptr : Member
  udcounter_int64_ptr : Member
  udcounter_double_ptr : Member
  observable_ptr : Member
  gauge_int64_ptr : Member
  gauge_double_ptr : Member

-- struct otel_instrument_handle.
pub record Handle : Type 0 where
  pub name : List ℕ
  pub type : InstrumentType
  pub member : Member

-- struct otel_view_handle; the boundaries are the bits of the doubles.
pub record View : Type 0 where
  pub name : List ℕ
  pub desc : List ℕ
  pub instrument_name : List ℕ
  pub instrument_unit : List ℕ
  pub instrument_type : InstrumentType
  pub aggregation_type : ℕ
  pub bounds : List ℕ

-- A handle map with one shard, as the meter uses it: entries under their identifiers, and the next
-- identifier.
pub record Map (V : Type 0) : Type 0 where
  pub entries : List (ℕ × V)
  pub id : ℕ
  pub peak_size : ℕ

-- struct otel_meter_impl. `registered` are the views that the installed provider was given.
pub record Impl : Type 0 where
  pub has_meter : Bool
  pub has_provider : Bool
  pub registered : List View
  pub instrument : Map Handle
  pub instrument_index : List (List ℕ × ℕ)
  pub view : Map View

-- A change of the callbacks of an observable; a callback descriptor is an address.
pub data Call : Type 0 where
  add_callback : Member → ℕ → Call
  remove_callback : Member → ℕ → Call

-- struct otelc_meter, without its error message.
pub record Meter : Type 0 where
  pub enabled : Bool
  pub flush_timeout : ℕ
  pub scope_name : Option (List ℕ)
  pub impl : Option Impl
