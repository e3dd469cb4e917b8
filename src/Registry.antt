-- ===== src/Registry.antt =====
-- The lifecycle of span contexts and of the handle maps: src/span.cpp (otel_span_context_new,
-- otelc_span_context_create and the destroy functions) and src/tracer.cpp (otel_tracer_register,
-- _handle_init and _unregister) of the dynamic build. The two maps are of Handle.antt, C structures and
-- C++ handles are blocks of Heap.antt. What the OpenTelemetry SDK builds is an input,
-- and so is whether there is memory for the map objects, whose own blocks stand on no heap here.
pub mod Ledger
pub mod Maps
pub mod Create
pub mod Spans
mod Examples
pub mod History
use opentelemetry_c_wrapper.Prelude.{
  ℕ, suc, ◌+◌, ◌-◌, ◌%◌, ◌^◌, Bool, true, false, List, [], ◌∷◌, Option, none, some, ◌==◌,
  if◌then◌else◌,
}
use opentelemetry_c_wrapper.Heap.{Heap, malloc, free}
use opentelemetry_c_wrapper.Handle.{
  Handle, otel_handle, find, register_handle, erase, for_each_locked,
}

-- A global map pointer, with the base of its next generation of identifiers.
pub record Registry : Type 0 where
  pub handles : Option (Handle ℕ)
  pub id_base : ℕ

-- `tracer_count` is an int, as its bits.
pub record Process : Type 0 where
  pub heap : Heap
  pub span : Registry
  pub span_context : Registry
  pub tracer_count : ℕ

-- struct otelc_span_context: its block and its identifier.
pub record Context : Type 0 where
  pub addr : ℕ
  pub idx : ℕ

abbrev pub with_contexts : Process → Heap → Handle ℕ → Process
with_contexts s h m = record s {
  heap = h;
  span_context = record s.span_context { handles = some m };
}

-- otel_span_context_new.
context_alloc : Process → Handle ℕ → Option ℕ × Heap → Option Context × Process
context_alloc s m (none, h) =
    (none, with_contexts s h (record m { alloc_fail_cnt = suc m.alloc_fail_cnt }))
context_alloc s m (some a, h) =
    (some (record { addr = a; idx = m.id }), with_contexts s h (record m { id = suc m.id }))

pub context_new : Process → Option Context × Process
unfolding context_alloc
context_new s = elim s.span_context.handles [
  | none ↦ (none, s)
  | some m ↦ context_alloc s m (malloc s.heap)
]

-- The part of otel_nolock_span_context_destroy behind its null checks: the handle under the identifier,
-- if there is one, is deleted and erased.
pub erase_found : Option ℕ → ℕ → Handle ℕ → Heap → Handle ℕ × Heap
erase_found none k m h = (record m { destroy_cnt = suc m.destroy_cnt }, h)
erase_found (some v) k m h =
    let n = erase m k in
    (record n { erase_cnt = suc n.erase_cnt; destroy_cnt = suc n.destroy_cnt }, free v h)

destroy_known : Context → Handle ℕ → Process → Process
unfolding erase_found
destroy_known c m s =
    let (n, h) = erase_found (find m c.idx) c.idx m s.heap in with_contexts s (free c.addr h) n

-- otel_nolock_span_context_destroy of a live structure: one that outlived the maps is just freed.
pub context_destroy : Context → Process → Process
unfolding destroy_known
context_destroy c s = elim s.span_context.handles [
  | none ↦ record s { heap = free c.addr s.heap }
  | some m ↦ destroy_known c m s
]

-- The end of otelc_span_context_create: OTEL_HANDLE_EMPLACE with its cleanup.
enter : Bool → Context → ℕ → Process → Option Context × Process
enter throws c v s = elim s.span_context.handles [
  | none ↦ (none, s)
  | some m ↦
      let (entered, n) = register_handle throws m c.idx v in
      if entered
      then (some c, with_contexts s s.heap n)
      else (none, with_contexts s (free c.addr (free v s.heap)) n)
]

add_handle : Bool → Context → Process → Option ℕ × Heap → Option Context × Process
unfolding enter context_destroy
add_handle throws c s (none, h) = (none, context_destroy c (record s { heap = h }))
add_handle throws c s (some v, h) = enter throws c v (record s { heap = h })

finish : Bool → Option Context × Process → Option Context × Process
unfolding add_handle
finish throws (none, s) = (none, s)
finish throws (some c, s) = add_handle throws c s (malloc s.heap)

-- otelc_span_context_create: `sdk` says whether the SDK's span and context could be built (they are
-- owned by shared pointers, which release them on the error paths), `throws` whether the
-- insertion runs into an exception.
pub context_create : Bool → Bool → Process → Option Context × Process
unfolding finish context_new
context_create sdk throws s = elim s.span_context.handles [
  | none ↦ (none, s)
  | some m ↦ if sdk then finish throws (context_new s) else (none, s)
]

-- One map of otel_tracer_handle_init: allocated unless it is there, numbered from the base.
pub init_map : Bool → ℕ → Registry → Bool × Registry
init_map memory shards r = elim r.handles [
  | some m ↦ (true, r)
  | none ↦
      if memory
      then elim (otel_handle {V = ℕ} shards) [
        | none ↦ (false, r)
        | some m ↦ (true, record r { handles = some (record m { id = r.id_base }) })
      ]
      else (false, r)
]

-- otel_tracer_register: the count goes up also when the maps cannot be allocated.
pub tracer_register : Bool → Bool → ℕ → Process → Bool × Process
unfolding init_map
tracer_register memory1 memory2 shards s =
    let (ok1, r1) = init_map memory1 shards s.span in
    let (ok2, r2) = init_map memory2 shards s.span_context in
    let s1 = record s { tracer_count = (s.tracer_count + 1) % 2 ^ 32 } in
    if ok1
    then (ok2, record s1 { span = r1; span_context = r2 })
    else (false, record s1 { span = r1 })

-- The callbacks of for_each_locked and clear_locked delete the handles.
pub delete_all : List (ℕ × ℕ) → Heap → Heap
delete_all [] h = h
delete_all ((k, v) ∷ es) h = delete_all es (free v h)

pub tear_down : Registry → Heap → Registry × Heap
unfolding delete_all
tear_down r h = elim r.handles [
  | none ↦ (r, h)
  | some m ↦
      let (visited, n) = for_each_locked m in
      (record { handles = none; id_base = n.id }, delete_all visited h)
]

-- otel_tracer_unregister: the last tracer takes the maps down and saves the identifier bases.
pub tracer_unregister : Process → Process
unfolding tear_down
tracer_unregister s =
    let s1 = record s { tracer_count = (s.tracer_count + (2 ^ 32 - 1)) % 2 ^ 32 } in
    let (contexts, h1) = tear_down s.span_context s.heap in
    let (spans, h2) = tear_down s.span h1 in
    if s1.tracer_count == 0
    then record s1 { heap = h2; span = spans; span_context = contexts }
    else s1
