-- ===== src/DbgMem/Calls.antt =====
-- The entry points of src/dbg_malloc.cpp: the functions behind OTELC_MALLOC, _CALLOC, _REALLOC, _FREE,
-- _STRDUP, _STRNDUP and _MEMDUP, the tracker's start and end, and its report. What the bytes of a
-- payload are is left out. `junk` is what the C library leaves in place of a header when it takes
-- a block back. The bytes below a block stay readable after that; a block that the C library unmaps,
-- where the probe of otelc_dbg_free faults, is left out.
pub mod History
pub mod Released
pub mod DoubleFree
pub mod Requests
mod Examples
use opentelemetry_c_wrapper.Prelude.{
  ℕ, zero, suc, ◌+◌, ◌-◌, ◌*◌, ◌/◌, ◌%◌, Bool, true, false, not, ◌&&◌, ◌||◌, List, [], ◌∷◌, Option,
  none, some, ◌==◌, ltb, leb, if◌then◌else◌, length, replicate,
}
use opentelemetry_c_wrapper.Heap.{Heap, malloc, realloc, free}
use opentelemetry_c_wrapper.DbgMem.{
  State, Header, Ref, null, block, address, Record, Mem, Lock, refused, disabled, held, word,
  header_size, no_record, used_size, used_chunks, write_header, set_metadata, is_wrapper_block,
  mem_alloc, mem_release, mem_check, is_stale,
}

-- DBG_MEM_PTR and DBG_MEM_DATA.
abbrev pub payload : ℕ → ℕ
payload p = p + header_size

abbrev pub base_of : ℕ → ℕ
base_of x = x - header_size

-- DBG_MEM_RETURN.
abbrev pub mem_return : Option ℕ → Option ℕ
mem_return none = none
mem_return (some p) = some (payload p)

-- size > SIZE_MAX - DBG_MEM_SIZE(k), and the size that is asked of the C library otherwise.
pub malloc_request : ℕ → Option ℕ
malloc_request n = if ltb (word - 1 - header_size) n then none else some ((n + header_size) % word)

pub memdup_request : ℕ → Option ℕ
memdup_request n =
    if ltb (word - 1 - (1 + header_size)) n then none else some ((n + 1 + header_size) % word)

-- (elsize > 0) && (nelem > (SIZE_MAX - DBG_MEM_SIZE(0)) / elsize).
pub calloc_request : ℕ → ℕ → Option ℕ
calloc_request n e =
    if ltb 0 e && ltb ((word - 1 - header_size) / e) n
    then none
    else some (((n * e) % word + header_size) % word)

-- The common end of the allocating functions: malloc, and its tracking as `n` bytes. calloc clears
-- the block, its header included, in between.
pub clear : Bool → Option ℕ → State → State
clear false p s = s
clear true none s = s
clear true (some p) s = write_header s p (record { data_ref = null; magic = false })

pub allocate : Bool → Lock → ℕ → State → Option ℕ × State
unfolding mem_alloc clear
allocate zeroed l n s =
    let (p, h) = malloc s.heap in
    (mem_return p, mem_alloc l none p n (clear zeroed p (record s { heap = h })))

pub guarded : Option ℕ → Bool → Lock → ℕ → State → Option ℕ × State
unfolding allocate
guarded none zeroed l n s = (none, s)
guarded (some a) zeroed l n s = allocate zeroed l n s

pub dbg_malloc : Lock → ℕ → State → Option ℕ × State
unfolding guarded malloc_request
dbg_malloc l n s = guarded (malloc_request n) false l n s

pub dbg_calloc : Lock → ℕ → ℕ → State → Option ℕ × State
unfolding guarded calloc_request
dbg_calloc l n e s = guarded (calloc_request n e) true l ((n * e) % word) s

-- otelc_dbg_strdup and otelc_dbg_strndup of a string of a given length, or of a null pointer.
pub dbg_strdup : Lock → Option ℕ → State → Option ℕ × State
unfolding allocate
dbg_strdup l none s = (none, s)
dbg_strdup l (some len) s = allocate false l (len + 1) s

pub dbg_strndup : Lock → Option ℕ → ℕ → State → Option ℕ × State
unfolding allocate
dbg_strndup l none n s = (none, s)
dbg_strndup l (some len) n s = allocate false l ((if leb len n then len else n) + 1) s

-- otelc_dbg_memdup: the flag is whether the source pointer is there.
pub dbg_memdup : Lock → Bool → ℕ → State → Option ℕ × State
unfolding guarded memdup_request
dbg_memdup l false n s = (none, s)
dbg_memdup l true n s = guarded (memdup_request n) false l (n + 1) s

-- free and realloc of the C library. A block that realloc moves takes its header along.
pub c_free : (ℕ → Header) → ℕ → State → State
c_free junk p s = write_header (record s { heap = free p s.heap }) p (junk p)

pub c_moved : (ℕ → Header) → ℕ → Option ℕ × Heap → State → Option ℕ × State
c_moved junk p (none, h) s = (none, record s { heap = h })
c_moved junk p (some q, h) s =
    (some q, write_header (write_header (record s { heap = h }) q (s.header p)) p (junk p))

pub c_realloc : (ℕ → Header) → ℕ → State → Option ℕ × State
unfolding c_moved
c_realloc junk p s = c_moved junk p (realloc (some p) s.heap) s

pub is_own : ℕ → Header → Bool
is_own p h = elim h.data_ref [ null ↦ false | block q ↦ q == p | address a ↦ false ]

-- otelc_dbg_free.
pub free_payload : (ℕ → Header) → Lock → ℕ → State → State
unfolding is_own c_free
free_payload junk l x s =
    let p = base_of x in
    let h = s.header p in
    let (stale, s1) = is_stale l p s in
    let (released, s2) = mem_release l p s in
    if not (is_wrapper_block h)
    then (if stale then s1 else c_free junk x s1)
    else if is_own p h
    then c_free junk p s
    else if released
    then c_free junk p s2
    else s2

pub dbg_free : (ℕ → Header) → Lock → Option ℕ → State → State
unfolding free_payload
dbg_free junk l none s = s
dbg_free junk l (some x) s = free_payload junk l x s

-- otelc_dbg_realloc. A tracked block takes the mutex twice, for the check and for the new record.
pub moved_untracked : Option ℕ × State → Option ℕ × State
moved_untracked (p, s) = (mem_return p, set_metadata p null s)

pub moved_tracked : Lock → ℕ → ℕ → Option ℕ × State → Option ℕ × State
moved_tracked l old n (p, s) = (mem_return p, mem_alloc l (some old) p n s)

pub realloc_payload : (ℕ → Header) → Lock → Lock → ℕ → ℕ → State → Option ℕ × State
unfolding is_own moved_untracked moved_tracked
realloc_payload junk l1 l2 x n s =
    let p = base_of x in
    let h = s.header p in
    let (stale, s1) = is_stale l1 p s in
    let (checked, s2) = mem_check l1 p s in
    if not (is_wrapper_block h)
    then (if stale then (none, s1) else c_realloc junk x s1)
    else if is_own p h
    then moved_untracked (c_realloc junk p s)
    else if checked
    then moved_tracked l2 p n (c_realloc junk p s2)
    else (none, s2)

pub realloc_guarded : Option ℕ → (ℕ → Header) → Lock → Lock → ℕ → ℕ → State → Option ℕ × State
unfolding realloc_payload
realloc_guarded none junk l1 l2 x n s = (none, s)
realloc_guarded (some a) junk l1 l2 x n s = realloc_payload junk l1 l2 x n s

pub dbg_realloc : (ℕ → Header) → Lock → Lock → Option ℕ → ℕ → State → Option ℕ × State
unfolding guarded realloc_guarded malloc_request
dbg_realloc junk l1 l2 none n s = guarded (malloc_request n) false l1 n s
dbg_realloc junk l1 l2 (some x) n s = realloc_guarded (malloc_request n) junk l1 l2 x n s

-- otelc_dbg_mem_init over a table at an address, where the flags say that both pointers are there and
-- that the mutex can be set up.
pub mem_init : Bool → Bool → ℕ → ℕ → State → Bool × State
mem_init pointers mutex base n s =
    if not pointers || (n == 0)
    then (false, s)
    else if mutex
    then (
      true,
      record s {
        dbg_mem = some (record {
          base = base;
          data_cells = replicate n no_record;
          count = n;
          assigned = 0;
          reused = 0;
          size = 0;
          alloc_cnt = 0;
          realloc_cnt = 0;
          free_cnt = 0;
        });
      },
    )
    else (false, s)

-- otelc_dbg_mem_disable.
pub mem_disable : Lock → State → State
mem_disable refused s = s
mem_disable disabled s = record s { dbg_mem = none }
mem_disable held s = record s { dbg_mem = none }

-- What otelc_dbg_mem_info reports of a table: the bytes (a uint64_t sum), the chunks, and whether the
-- line `size does not match` is printed.
pub mem_info : Mem → ℕ × ℕ × Bool
unfolding used_size used_chunks
mem_info m =
    let total = used_size m.data_cells % word in
    (total, used_chunks m.data_cells, not (m.size == total))
