-- ===== src/Meter/Update/Safe.antt =====
-- The measurements of src/meter.cpp reach only pointers that are set, with values of their type.
use opentelemetry_c_wrapper.Prelude.{ℕ, ◌≡◌, refl, Bool, true, false, List, Option, none, some}
use opentelemetry_c_wrapper.KeyValue.{Value, value_uint64, value_int64, value_double, Kv}
use opentelemetry_c_wrapper.Meter.{
  Member, counter_uint64_ptr, counter_double_ptr, histogram_uint64_ptr, histogram_double_ptr,
  udcounter_int64_ptr, udcounter_double_ptr, gauge_int64_ptr, gauge_double_ptr, Handle, Impl,
}
use opentelemetry_c_wrapper.Meter.Types.{is_observable, expected_type, value_type, Sent}
use opentelemetry_c_wrapper.Meter.Instruments.{map_find}
use opentelemetry_c_wrapper.Meter.Update.{
  sign_extend, Updated, attributed, measured, sent_plain, update_instrument, update_instrument_kv_n,
}

-- The values that the method of a pointer takes.
abbrev pub Takes : Member → Value → Type 0
Takes counter_uint64_ptr (value_uint64 n) = Unit
Takes histogram_uint64_ptr (value_uint64 n) = Unit
Takes udcounter_int64_ptr (value_int64 n) = Unit
Takes gauge_int64_ptr (value_int64 n) = Unit
Takes counter_double_ptr (value_double n) = Unit
Takes histogram_double_ptr (value_double n) = Unit
Takes udcounter_double_ptr (value_double n) = Unit
Takes gauge_double_ptr (value_double n) = Unit
Takes p v = ⊥

-- A call through the pointer that the handle holds, with a value that it takes.
abbrev pub Fits : Handle → Sent → Type 0
Fits h s = (s.through ≡ h.member) × Takes s.through s.value

-- A measurement on a handle: recorded on a synchronous instrument, passed over on an observable
-- one.
pub data Measures (idx : ℕ) (attr : List Kv) (h : Handle) : Updated → Type 0 where
  passed_over : is_observable h.type ≡ true → Measures idx attr h (some idx, none)
  recorded :
      (s : Sent)
      → is_observable h.type ≡ false
      → Fits h s
      → Measures idx attr h (some idx, some (s, attr))

-- What an update of the meter can come to. `attr_fail` says that an attribute cannot be stored.
pub data Updates (abi2 : Bool) (m : Impl) (idx : ℕ) (v : Value) (attr : List Kv) (attr_fail : Bool)
    : Updated → Type 0 where
  missing :
      map_find m.instrument.entries (sign_extend idx) ≡ none
      → Updates abi2 m idx v attr attr_fail (none, none)
  mismatched :
      (h : Handle)
      → map_find m.instrument.entries (sign_extend idx) ≡ some h
      → value_type (expected_type abi2 h.type) v ≡ false
      → Updates abi2 m idx v attr attr_fail (none, none)
  lost : attr_fail ≡ true → Updates abi2 m idx v attr attr_fail (none, none)
  measures :
      (h : Handle) {r : Updated}
      → map_find m.instrument.entries (sign_extend idx) ≡ some h
      → value_type (expected_type abi2 h.type) v ≡ true
      → Measures idx attr h r
      → Updates abi2 m idx v attr attr_fail r

-- Without attributes it does what otel_meter_update_instrument does.
pub update_instrument_kv_n-plain :
    (abi2 : Bool) (m : Impl) (idx : ℕ) (v : Option Value) (fail : Bool)
    → update_instrument_kv_n abi2 m idx v none fail ≡ update_instrument abi2 m idx v
unfolding update_instrument_kv_n update_instrument
update_instrument_kv_n-plain abi2 m idx none fail = refl
update_instrument_kv_n-plain abi2 m idx (some v) fail =
    go (map_find m.instrument.entries (sign_extend idx))
  where
    go : (o : Option Handle) → measured abi2 idx none fail v o ≡ sent_plain abi2 idx v o
    go none = unfold measured sent_plain in refl
    go (some h) = unfold measured sent_plain attributed in refl
