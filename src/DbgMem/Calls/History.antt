-- ===== src/DbgMem/Calls/History.antt =====
-- Any sequence of calls of src/dbg_malloc.cpp, from a process without a tracker: the table stays
-- sound and the report of otelc_dbg_mem_info finds no difference.
use opentelemetry_c_wrapper.Prelude.{
  ℕ, ◌≡◌, refl, sym, inl, inr, Bool, true, false, not, ◌||◌, arith, ◌==◌, Bool-cases, List, [], ◌∷◌,
  Option, none, some, length-replicate, replicate, zero, suc,
}
use mathlib.Core.Path.{subst}
use opentelemetry_c_wrapper.Heap.{Heap, malloc, realloc}
use opentelemetry_c_wrapper.DbgMem.{
  Mem, State, Header, null, Lock, refused, disabled, held, cell, used_size, no_record, mem_alloc,
  mem_release, mem_check, is_stale, is_wrapper_block,
}
use opentelemetry_c_wrapper.DbgMem.Calls.{
  allocate, guarded, clear, malloc_request, dbg_malloc, dbg_calloc, dbg_strdup, dbg_strndup,
  dbg_memdup, c_free, c_moved, c_realloc, base_of, is_own, free_payload, dbg_free, moved_untracked,
  moved_tracked, realloc_payload, realloc_guarded, dbg_realloc, mem_init, mem_disable, mem_info,
}
use opentelemetry_c_wrapper.DbgMem.Slots.{IsSound}
use opentelemetry_c_wrapper.DbgMem.Sound.{
  IsTracked, set_metadata-IsTracked, mem_alloc-IsTracked, mem_release-IsTracked,
  mem_check-IsTracked, is_stale-IsTracked,
}

-- The calls, with what the mutex and the pthread functions answer in each.
pub data Call : Type 0 where
  call_malloc : Lock → ℕ → Call
  call_calloc : Lock → ℕ → ℕ → Call
  call_strdup : Lock → Option ℕ → Call
  call_strndup : Lock → Option ℕ → ℕ → Call
  call_memdup : Lock → Bool → ℕ → Call
  call_realloc : Lock → Lock → Option ℕ → ℕ → Call
  call_free : Lock → Option ℕ → Call
  call_init : Bool → Bool → ℕ → ℕ → Call
  call_disable : Lock → Call

unfoldable pub step : (ℕ → Header) → Call → State → State
step junk (call_malloc l n) s = (dbg_malloc l n s).1
step junk (call_calloc l n e) s = (dbg_calloc l n e s).1
step junk (call_strdup l len) s = (dbg_strdup l len s).1
step junk (call_strndup l len n) s = (dbg_strndup l len n s).1
step junk (call_memdup l b n) s = (dbg_memdup l b n s).1
step junk (call_realloc l1 l2 x n) s = (dbg_realloc junk l1 l2 x n s).1
step junk (call_free l x) s = dbg_free junk l x s
step junk (call_init pointers mutex base n) s = (mem_init pointers mutex base n s).1
step junk (call_disable l) s = mem_disable l s

unfoldable pub run : (ℕ → Header) → List Call → State → State
run junk [] s = s
run junk (c ∷ cs) s = run junk cs (step junk c s)

allocate-IsTracked :
    (zeroed : Bool) (l : Lock) (n : ℕ) (s : State)
    → IsTracked s.dbg_mem
    → IsTracked (allocate zeroed l n s).1.dbg_mem
unfolding allocate clear mem_alloc
allocate-IsTracked false l n s w = mem_alloc-IsTracked l none _ n _ w
allocate-IsTracked true l n s w = go (malloc s.heap)
  where
    go :
        (r : Option ℕ × Heap)
        → IsTracked (mem_alloc l none r.0 n (clear true r.0 (record s { heap = r.1 }))).dbg_mem
    go (none, h) = w
    go (some p, h) =
        mem_alloc-IsTracked l none (some p) n (clear true (some p) (record s { heap = h })) w

guarded-IsTracked :
    (o : Option ℕ) (zeroed : Bool) (l : Lock) (n : ℕ) (s : State)
    → IsTracked s.dbg_mem
    → IsTracked (guarded o zeroed l n s).1.dbg_mem
unfolding guarded
guarded-IsTracked none zeroed l n s w = w
guarded-IsTracked (some a) zeroed l n s w = allocate-IsTracked zeroed l n s w

-- The C library's free and realloc leave the tracker alone.
c_realloc-dbg_mem :
    (junk : ℕ → Header) (p : ℕ) (s : State) → (c_realloc junk p s).1.dbg_mem ≡ s.dbg_mem
unfolding c_realloc c_moved
c_realloc-dbg_mem junk p s = go (realloc (some p) s.heap)
  where
    go : (r : Option ℕ × Heap) → (c_moved junk p r s).1.dbg_mem ≡ s.dbg_mem
    go (none, h) = refl
    go (some q, h) = refl

c_realloc-IsTracked :
    (junk : ℕ → Header) (p : ℕ) (s : State)
    → IsTracked s.dbg_mem
    → IsTracked (c_realloc junk p s).1.dbg_mem
c_realloc-IsTracked junk p s w = rw (c_realloc-dbg_mem junk p s) w

free-IsTracked :
    (junk : ℕ → Header) (l : Lock) (x : ℕ) (s : State)
    → IsTracked s.dbg_mem
    → IsTracked (free_payload junk l x s).dbg_mem
unfolding free_payload c_free
free-IsTracked junk l x s w =
    let p = base_of x in
    let st = is_stale-IsTracked l p s w in
    let re = mem_release-IsTracked l p s w in
    elim (Bool-cases (not (is_wrapper_block (s.header p)))) [
      | inl a ↦ elim (Bool-cases (is_stale l p s).0) [ inl b ↦ rw (a, b) st | inr b ↦ rw (a, b) st ]
      | inr a ↦ elim (Bool-cases (is_own p (s.header p))) [
        | inl b ↦ rw (a, b) w
        | inr b ↦ elim (Bool-cases (mem_release l p s).0) [
          | inl c ↦ rw (a, b, c) re
          | inr c ↦ rw (a, b, c) re
        ]
      ]
    ]

realloc-IsTracked :
    (junk : ℕ → Header) (l1 l2 : Lock) (x n : ℕ) (s : State)
    → IsTracked s.dbg_mem
    → IsTracked (realloc_payload junk l1 l2 x n s).1.dbg_mem
unfolding realloc_payload moved_untracked moved_tracked
realloc-IsTracked junk l1 l2 x n s w =
    let p = base_of x in
    let st = is_stale-IsTracked l1 p s w in
    let ch = mem_check-IsTracked l1 p s w in
    elim (Bool-cases (not (is_wrapper_block (s.header p)))) [
      | inl a ↦ elim (Bool-cases (is_stale l1 p s).0) [
        | inl b ↦ rw (a, b) st
        | inr b ↦ rw (a, b) (c_realloc-IsTracked junk x _ st)
      ]
      | inr a ↦ elim (Bool-cases (is_own p (s.header p))) [
        | inl b ↦ rw (a, b) (set_metadata-IsTracked _ null _ (c_realloc-IsTracked junk p s w))
        | inr b ↦ elim (Bool-cases (mem_check l1 p s).0) [
          | inl c ↦
              rw (a, b, c) (mem_alloc-IsTracked l2 (some p) _ n _ (c_realloc-IsTracked junk p _ ch))
          | inr c ↦ rw (a, b, c) ch
        ]
      ]
    ]

realloc_guarded-IsTracked :
    (o : Option ℕ) (junk : ℕ → Header) (l1 l2 : Lock) (x n : ℕ) (s : State)
    → IsTracked s.dbg_mem
    → IsTracked (realloc_guarded o junk l1 l2 x n s).1.dbg_mem
unfolding realloc_guarded
realloc_guarded-IsTracked none junk l1 l2 x n s w = w
realloc_guarded-IsTracked (some a) junk l1 l2 x n s w = realloc-IsTracked junk l1 l2 x n s w

replicate_unused : (n i : ℕ) → (cell (replicate n no_record) i).used ≡ false
unfolding cell
replicate_unused zero i = refl
replicate_unused (suc n) zero = refl
replicate_unused (suc n) (suc i) = replicate_unused n i

used_size-replicate : (n : ℕ) → used_size (replicate n no_record) ≡ 0
unfolding used_size
used_size-replicate zero = refl
used_size-replicate (suc n) = omega (arith, used_size-replicate n)

init-IsTracked :
    (pointers mutex : Bool) (base n : ℕ) (s : State)
    → IsTracked s.dbg_mem
    → IsTracked (mem_init pointers mutex base n s).1.dbg_mem
unfolding mem_init IsTracked
init-IsTracked pointers mutex base n s w = elim (Bool-cases (not pointers || (n == 0))) [
  | inl a ↦ rw a w
  | inr a ↦ elim (Bool-cases mutex) [
    | inr b ↦ rw (a, b) w
    | inl b ↦
        rw (a, b)
          (record {
            filled = length-replicate n no_record;
            some_cell = ground (arith, a);
            assigned_bound = omega arith;
            reused_bound = omega arith;
            fresh = λ i h. replicate_unused n i;
            sized = omega (arith, used_size-replicate n);
          })
  ]
]

disable-IsTracked :
    (l : Lock) (s : State) → IsTracked s.dbg_mem → IsTracked (mem_disable l s).dbg_mem
unfolding mem_disable IsTracked
disable-IsTracked refused s w = w
disable-IsTracked disabled s w = tt
disable-IsTracked held s w = tt

step-IsTracked :
    (junk : ℕ → Header) (c : Call) (s : State)
    → IsTracked s.dbg_mem
    → IsTracked (step junk c s).dbg_mem
unfolding step dbg_malloc dbg_calloc dbg_strdup dbg_strndup dbg_memdup dbg_realloc dbg_free
step-IsTracked junk (call_malloc l n) s w = guarded-IsTracked _ false l n s w
step-IsTracked junk (call_calloc l n e) s w = guarded-IsTracked _ true l _ s w
step-IsTracked junk (call_strdup l none) s w = w
step-IsTracked junk (call_strdup l (some k)) s w = allocate-IsTracked false l _ s w
step-IsTracked junk (call_strndup l none n) s w = w
step-IsTracked junk (call_strndup l (some k) n) s w = allocate-IsTracked false l _ s w
step-IsTracked junk (call_memdup l false n) s w = w
step-IsTracked junk (call_memdup l true n) s w = guarded-IsTracked _ false l _ s w
step-IsTracked junk (call_realloc l1 l2 none n) s w = guarded-IsTracked _ false l1 n s w
step-IsTracked junk (call_realloc l1 l2 (some x) n) s w =
    realloc_guarded-IsTracked (malloc_request n) junk l1 l2 x n s w
step-IsTracked junk (call_free l none) s w = w
step-IsTracked junk (call_free l (some x)) s w = free-IsTracked junk l x s w
step-IsTracked junk (call_init pointers mutex base n) s w = init-IsTracked pointers mutex base n s w
step-IsTracked junk (call_disable l) s w = disable-IsTracked l s w

-- After any sequence of calls, with any failing locks and allocations, from a process whose tracker
-- is off or sound, the tracker is off or sound: the cursors stay within the table, the records
-- behind the high-water mark are unused, and the running size is the sum of the records in use.
pub run-IsTracked :
    (junk : ℕ → Header) (cs : List Call) (s : State)
    → IsTracked s.dbg_mem
    → IsTracked (run junk cs s).dbg_mem
unfolding run
run-IsTracked junk [] s w = w
run-IsTracked junk (c ∷ cs) s w = run-IsTracked junk cs _ (step-IsTracked junk c s w)

-- In a process that starts without a tracker, otelc_dbg_mem_info never prints that the size does not
-- match, whatever was called before and whatever failed.
pub run-size_matches :
    (junk : ℕ → Header) (cs : List Call) (s : State) (m : Mem)
    → s.dbg_mem ≡ none
    → (run junk cs s).dbg_mem ≡ some m
    → (mem_info m).2 ≡ false
unfolding mem_info IsTracked
run-size_matches junk cs s m off e =
    let w : IsSound m =
      subst (λ o. IsTracked o) e
        (run-IsTracked junk cs s (subst (λ o. IsTracked o) (sym off) tt)) in
    ground (arith, w.sized)
