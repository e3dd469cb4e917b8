-- ===== src/Meter/Examples.antt =====
-- The theorems about the meter on a meter with one counter and one view.
use opentelemetry_c_wrapper.Prelude.{
  ℕ, ◌≡◌, ◌↔◌, refl, Bool, true, false, List, [], ◌∷◌, map, Option, none, some, arith,
}
use opentelemetry_c_wrapper.Meter.{counter_uint64, View}
use opentelemetry_c_wrapper.Meter.Key.{as_int, lower, instrument_key, instrument_key_iff}
use opentelemetry_c_wrapper.Meter.Instruments.{Answers, made, Request, create_locked}
use opentelemetry_c_wrapper.Meter.Instruments.Outcomes.{Creates, create_locked-Creates}
use opentelemetry_c_wrapper.Meter.Views.{ViewAnswers, add_view_locked}
use opentelemetry_c_wrapper.Meter.Views.Kept.{Viewed, add_view_locked-Viewed}
use opentelemetry_c_wrapper.Meter.Run.{
  Event, creates, adds_view, starts, run, new_impl, Agrees, run-new_impl,
}

abbrev name_hits : List ℕ
name_hits = 72 ∷ 105 ∷ 116 ∷ 115 ∷ []

abbrev name_upper : List ℕ
name_upper = 72 ∷ 73 ∷ 84 ∷ 83 ∷ []

abbrev answers : Answers
answers = record {
  abi2 = true;
  out_of_memory = false;
  is_validated = true;
  created = made;
  emplace_throws = false;
  index_throws = false;
}

abbrev counter : Request
counter = record { name = some name_hits; type = counter_uint64; callback = none }

instrument_key_iff_example :
    (instrument_key name_hits counter_uint64 ≡ instrument_key name_upper counter_uint64) ↔ (
      (map lower name_hits ≡ map lower name_upper)
      × (as_int counter_uint64 ≡ as_int counter_uint64))
instrument_key_iff_example =
    instrument_key_iff name_hits name_upper counter_uint64 counter_uint64 (omega arith)
      (omega arith)

always : List ℕ → List ℕ → Bool
always k l = true

always-same : (k : List ℕ) → always k k ≡ true
unfolding always
always-same k = refl

-- A meter with one view that the provider has, and with one counter.
abbrev scope : Option (List ℕ)
scope = some (109 ∷ [])

abbrev view_answers : ViewAnswers
view_answers = record {
  handle_fails = false;
  emplace_throws = false;
  config_fails = false;
  instrument_selector_fails = false;
  meter_selector_fails = false;
  view_fails = false;
}

abbrev some_view : View
some_view = record {
  name = name_hits;
  desc = [];
  instrument_name = name_hits;
  instrument_unit = [];
  instrument_type = counter_uint64;
  aggregation_type = 3;
  bounds = [];
}

abbrev no_event : List Event
no_event = []

abbrev start : List Event
start =
    starts scope true (λ i. view_answers)
    ∷ creates name_hits counter answers
    ∷ adds_view scope some_view view_answers
    ∷ no_event

started-Agrees : Agrees always true (run always true start new_impl)
started-Agrees = run-new_impl always true start always-same

run-new_impl_example : Agrees always true (run always true start new_impl)
run-new_impl_example = run-new_impl always true start always-same

create_locked-Creates_example :
    Creates true
      (run always true start new_impl)
      (instrument_key name_upper counter_uint64)
      (create_locked (run always true start new_impl) name_upper counter answers)
create_locked-Creates_example =
    create_locked-Creates (run always true start new_impl) name_upper counter answers
      started-Agrees.indexed

add_view_locked-Viewed_example :
    Viewed always
      (run always true start new_impl)
      some_view
      (add_view_locked always scope (run always true start new_impl) some_view view_answers)
add_view_locked-Viewed_example =
    add_view_locked-Viewed always scope (run always true start new_impl) some_view view_answers
      (always-same name_hits) started-Agrees.mirrored
