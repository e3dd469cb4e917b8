-- ===== src/Registry/Examples.antt =====
-- The theorems about the structures of spans at a concrete process.
use opentelemetry_c_wrapper.Prelude.{◌≡◌, refl, [], ◌∷◌, none, some, arith, ℕ, ◌==◌, if◌then◌else◌}
use opentelemetry_c_wrapper.Heap.{Heap}
use opentelemetry_c_wrapper.Handle.{otel_handle_init, visit_all}
use opentelemetry_c_wrapper.Handle.Find.{init-IsValid, find-init}
use opentelemetry_c_wrapper.Handle.Values.{held, values}
use opentelemetry_c_wrapper.Registry.{Process, Context}
use opentelemetry_c_wrapper.Registry.Ledger.{IsReady}
use opentelemetry_c_wrapper.Registry.Spans.{
  HasSpans, next_span, span_at, span_destroy, span_destroy-HasSpans,
}

abbrev before : Heap
before = record { next = 100; live = []; answers = []; bad_frees = 0 }

-- One span structure lives, at address 7, and the map is empty.
abbrev process : Process
process = record {
  heap = record { next = 100; live = 7 ∷ []; answers = []; bad_frees = 0 };
  span = record { handles = some (otel_handle_init 2); id_base = 0 };
  span_context = record { handles = none; id_base = 0 };
  tracer_count = 1;
}

abbrev span : Context
span = record { addr = 7; idx = 3 }

process-HasSpans : HasSpans before (7 ∷ []) process
unfolding IsReady held otel_handle_init visit_all values
process-HasSpans = record {
  balanced = ((λ p. omega arith), refl);
  ready = record { valid = init-IsValid 2 (omega arith); unused = λ k h. find-init 2 k };
}

span_destroy-HasSpans_example :
    let r = span_destroy (some span) process in
    HasSpans before [] r.1
    × ((k : ℕ) → span_at r.1 k ≡ (if k == span.idx then none else span_at process k))
    × (r.0 ≡ none)
    × (next_span r.1 ≡ next_span process)
    × (r.1.span_context ≡ process.span_context)
span_destroy-HasSpans_example = span_destroy-HasSpans before [] span process process-HasSpans
