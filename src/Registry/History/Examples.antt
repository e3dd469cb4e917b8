-- ===== src/Registry/History/Examples.antt =====
-- The theorems about span contexts and maps at a concrete process.
use opentelemetry_c_wrapper.Prelude.{◌≡◌, refl, true, false, List, [], ◌∷◌, ◌++◌, none, arith}
use opentelemetry_c_wrapper.Heap.{malloc, answered, hand_out, free, remove}
use opentelemetry_c_wrapper.Handle.{
  otel_handle, bad_shards, otel_handle_init, register_handle, emplace, find, lookup, get_shard,
  get_shard_index, shard_at, is_some, put_shard, update_peak_size, erase, shard_erase,
  for_each_locked, visit_all, clear_all,
}
use opentelemetry_c_wrapper.Registry.{
  Process, Context, context_create, tracer_register, init_map, context_new, context_alloc, finish,
  add_handle, enter, context_destroy, destroy_known, erase_found, tracer_unregister, tear_down,
  delete_all,
}
use opentelemetry_c_wrapper.Registry.Ledger.{IsReady, held_by}
use opentelemetry_c_wrapper.Registry.Create.{Creates, context_create-Creates}
use opentelemetry_c_wrapper.Registry.History.{
  Event, create, destroy, tracer_start, tracer_end, run, step, keep, destroy_nth, addrs, AreBelow,
  AreDistinct, IsAccounted,
}
use opentelemetry_c_wrapper.Registry.History.Leaks.{run-IsAccounted}

-- The fourth allocation fails.
abbrev start : Process
start = record {
  heap = record {
    next = 100;
    live = 7 ∷ [];
    answers = true ∷ true ∷ true ∷ false ∷ [];
    bad_frees = 0;
  };
  span = record { handles = none; id_base = 0 };
  span_context = record { handles = none; id_base = 0 };
  tracer_count = 0;
}

-- The second context outlives the maps, and is destroyed under the next generation.
abbrev events : List Event
events =
    tracer_start true true 2
    ∷ create true false
    ∷ create true false
    ∷ create true true
    ∷ destroy 0
    ∷ tracer_end
    ∷ tracer_start true true 2
    ∷ create true false
    ∷ destroy 1
    ∷ []

start-IsAccounted : IsAccounted start.heap ([], start)
unfolding addrs AreBelow AreDistinct IsReady
start-IsAccounted = record {
  balanced = ((λ p. omega arith), refl);
  ready = tt;
  below = tt;
  distinct = tt;
}

run-IsAccounted_example : IsAccounted start.heap (run events ([], start))
run-IsAccounted_example = run-IsAccounted events start.heap [] start start-IsAccounted

abbrev first_start : List Event
first_start = tracer_start true true 2 ∷ create true false ∷ []

abbrev first : List Context × Process
first = run first_start ([], start)

context_create-Creates_example :
    Creates start.heap
      (addrs first.0 ++ held_by first.1.span.handles)
      first.1
      (context_create true false first.1)
context_create-Creates_example =
    context_create-Creates start.heap (addrs first.0 ++ held_by first.1.span.handles) true false
      first.1 (run-IsAccounted first_start start.heap [] start start-IsAccounted).balanced
      (run-IsAccounted first_start start.heap [] start start-IsAccounted).ready

abbrev whole : List Event
whole = tracer_start true true 2 ∷ create true false ∷ destroy 0 ∷ tracer_end ∷ []

ends :
    ((run whole ([], start)).0 ≡ [])
    × ((run whole ([], start)).1.span.handles ≡ none)
    × ((run whole ([], start)).1.span_context.handles ≡ none)
unfolding run step keep destroy_nth tracer_register init_map otel_handle bad_shards otel_handle_init
    context_create context_new context_alloc malloc answered hand_out finish add_handle enter
    register_handle emplace find lookup get_shard get_shard_index shard_at is_some put_shard
    update_peak_size context_destroy destroy_known erase_found erase shard_erase free remove
    tracer_unregister tear_down for_each_locked visit_all clear_all delete_all
ends = (refl, refl, refl)
