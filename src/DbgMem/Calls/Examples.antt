-- ===== src/DbgMem/Calls/Examples.antt =====
-- The theorems about the debugging allocator at concrete processes, and runs of its calls.
use opentelemetry_c_wrapper.Prelude.{
  ℕ, zero, suc, ◌+◌, ◌*◌, ◌≤◌, ◌<◌, ◌≡◌, ◌↔◌, ◌⊎◌, refl, true, false, List, [], ◌∷◌, none, some,
  arith, ltb,
}
use opentelemetry_c_wrapper.Heap.{Heap, free, malloc, answered, hand_out}
use opentelemetry_c_wrapper.DbgMem.{
  Mem, State, Header, block, address, held, header_size, cell, find_slot, table_record,
  record_address, same_ptr, is_current, used_size, mem_alloc, mem_alloc_locked, track_new, mem_add,
  add_record, counted, set_metadata,
}
use opentelemetry_c_wrapper.DbgMem.Table.{table_record_iff}
use opentelemetry_c_wrapper.DbgMem.Slots.{IsSound, used_at, find_slot-Finds}
use opentelemetry_c_wrapper.DbgMem.Sound.{IsTracked}
use opentelemetry_c_wrapper.DbgMem.Calls.{
  malloc_request, calloc_request, memdup_request, base_of, dbg_free, mem_info, is_own, mem_init,
  dbg_malloc, guarded, allocate, clear,
}
use opentelemetry_c_wrapper.DbgMem.Calls.Requests.{in_word, requests-Exact}
use opentelemetry_c_wrapper.DbgMem.Calls.Released.{is_forged, IsAllocated}
use opentelemetry_c_wrapper.DbgMem.Calls.DoubleFree.{free_each, dbg_free-dbg_free}
use opentelemetry_c_wrapper.DbgMem.Calls.History.{
  Call, call_malloc, call_init, run, step, run-IsTracked, run-size_matches,
}

-- One of two records is in use: block 200 of 24 bytes.
abbrev table : Mem
table = record {
  base = 8000;
  data_cells =
      record { ptr = some 200; size = 24; used = true }
      ∷ record { ptr = none; size = 0; used = false }
      ∷ [];
  count = 2;
  assigned = 1;
  reused = 0;
  size = 24;
  alloc_cnt = 1;
  realloc_cnt = 0;
  free_cnt = 0;
}

abbrev heap : Heap
heap = record { next = 300; live = 200 ∷ []; answers = []; bad_frees = 0 }

abbrev headers : ℕ → Header
headers p = record { data_ref = address 8000; magic = true }

-- The C library overwrites a header with a link of its free list.
abbrev junk : ℕ → Header
junk p = record { data_ref = block 0; magic = false }

table-IsSound : IsSound table
unfolding cell used_size
table-IsSound = record {
  filled = refl;
  some_cell = omega arith;
  assigned_bound = omega arith;
  reused_bound = omega arith;
  fresh = λ i h. fresh i h;
  sized = refl;
}
  where
    fresh : (i : ℕ) → 1 ≤ i → used_at table i ≡ false
    fresh zero h = absurd (omega arith)
    fresh (suc zero) h = refl
    fresh (suc (suc i)) h = refl

table-IsAllocated : IsAllocated table headers (base_of 216) 0
unfolding is_current cell same_ptr table_record record_address
table-IsAllocated = record {
  header = refl;
  record_found = refl;
  current = refl;
  assigned = omega arith;
  only = λ j e. only j e;
}
  where
    only : (j : ℕ) → is_current table j 200 ≡ true → j ≡ 0
    only zero e = refl
    only (suc zero) e = absurd (cc (e))
    only (suc (suc j)) e = absurd (cc (e))

junk_unforged : is_forged (base_of 216) (junk (base_of 216)) ≡ false
unfolding is_forged is_own
junk_unforged = refl

dbg_free-dbg_free_example :
    let s1 =
      dbg_free junk held
        (some 216)
        (record { heap = heap; header = headers; dbg_mem = some table }) in
    let s2 = free_each junk (216 ∷ 5 ∷ []) s1 in
    (s1.heap ≡ free (base_of 216) heap) × (dbg_free junk held (some 216) s2 ≡ s2)
dbg_free-dbg_free_example =
    dbg_free-dbg_free junk table heap headers 216 0 (216 ∷ 5 ∷ []) table-IsSound table-IsAllocated
      junk_unforged

find_slot-Finds_example :
    let (i, n) = find_slot table in
    (((i < table.count) × (used_at table i ≡ false) × (i < n.assigned))
      ⊎ ((i ≡ table.count) × ((j : ℕ) → used_at table j ≡ ltb j table.count)))
    × IsSound n
    × (n.data_cells ≡ table.data_cells)
    × (n.count ≡ table.count)
    × (n.size ≡ table.size)
find_slot-Finds_example = find_slot-Finds table table-IsSound

table_record_iff_example :
    (table_record table (address 8080) ≡ some 1)
    ↔ ((1 < table.count) × (8080 ≡ record_address table 1))
table_record_iff_example = table_record_iff table 8080 1 (omega arith) (omega arith)

requests-Exact_example :
    (malloc_request 10 ≡ in_word (10 + header_size))
    × (calloc_request 10 4 ≡ in_word (10 * 4 + header_size))
    × (memdup_request 10 ≡ in_word (10 + 1 + header_size))
requests-Exact_example = requests-Exact 10 4

abbrev calls : List Call
calls =
    call_malloc held 8 ∷ call_init true true 8000 1 ∷ call_malloc held 24 ∷ call_malloc held 40 ∷ []

abbrev start : State
start = record { heap = heap; header = junk; dbg_mem = none }

run-IsTracked_example : IsTracked (run junk calls start).dbg_mem
run-IsTracked_example = run-IsTracked junk calls start start_tracked
  where
    start_tracked : IsTracked none
    start_tracked = unfold IsTracked in tt

abbrev one_record : Mem
one_record = record {
  base = 8000;
  data_cells = record { ptr = some 300; size = 24; used = true } ∷ [];
  count = 1;
  assigned = 1;
  reused = 0;
  size = 24;
  alloc_cnt = 1;
  realloc_cnt = 0;
  free_cnt = 0;
}

abbrev tracked_calls : List Call
tracked_calls = call_init true true 8000 1 ∷ call_malloc held 24 ∷ []

tracked : (run junk tracked_calls start).dbg_mem ≡ some one_record
unfolding run step mem_init dbg_malloc guarded malloc_request allocate clear malloc answered
    hand_out mem_alloc mem_alloc_locked track_new find_slot mem_add add_record counted set_metadata
    record_address
tracked = refl

run-size_matches_example : (mem_info one_record).2 ≡ false
run-size_matches_example = run-size_matches junk tracked_calls start one_record refl tracked
