-- ===== src/DbgMem.antt =====
-- The debugging allocator of src/dbg_malloc.cpp: blocks with a header that points at a record of a
-- tracking table, over the C allocator of Heap.antt. A block is named by its base address, also
-- where the code holds the payload pointer DBG_MEM_PTR. The diagnostics, and the func field of a
-- record that serves them alone, are left out.
pub mod Table
pub mod Slots
pub mod Size
pub mod Calls
pub mod Sound
use opentelemetry_c_wrapper.Prelude.{
  ℕ, zero, suc, ◌+◌, ◌-◌, ◌*◌, ◌/◌, ◌%◌, Bool, true, false, not, ◌&&◌, ◌||◌, List, [], ◌∷◌, Option,
  none, some, ◌==◌, ltb, leb, if◌then◌else◌, length, set, replicate,
}
use opentelemetry_c_wrapper.Heap.{Heap, malloc, realloc, free}

abbrev pub word : ℕ
word = 18446744073709551616

-- Subtraction of unsigned 64-bit numbers.
abbrev pub sub64 : ℕ → ℕ → ℕ
sub64 a b = (a + (word - b % word)) % word

-- sizeof(struct otelc_dbg_mem_data), which is packed: 8 + 8 + 63 + 1.
abbrev pub record_size : ℕ
record_size = 80

-- sizeof(struct otelc_dbg_mem_metadata), the header of a block.
abbrev pub header_size : ℕ
header_size = 16

-- What the data field of a header holds: no pointer, the base of a block of the heap (its own base
-- marks an untracked block), or any other address, of a record for one.
pub data Ref : Type 0 where
  null : Ref
  block : ℕ → Ref
  address : ℕ → Ref

-- `magic` tells whether the field has the value DBG_MEM_MAGIC.
pub record Header : Type 0 where
  pub data_ref : Ref
  pub magic : Bool

pub record Record : Type 0 where
  pub ptr : Option ℕ
  pub size : ℕ
  pub used : Bool

-- `base` is the address of the table.
pub record Mem : Type 0 where
  pub base : ℕ
  pub data_cells : List Record
  pub count : ℕ
  pub assigned : ℕ
  pub reused : ℕ
  pub size : ℕ
  pub alloc_cnt : ℕ
  pub realloc_cnt : ℕ
  pub free_cnt : ℕ

-- The process: the C allocator, the header bytes at every address, and the global `dbg_mem`.
pub record State : Type 0 where
  pub heap : Heap
  pub header : ℕ → Header
  pub dbg_mem : Option Mem

-- What taking the tracker mutex comes to: the lock fails, another thread has disabled the tracker
-- in the meantime, or the tracker is held.
pub data Lock : Type 0 where
  refused : Lock
  disabled : Lock
  held : Lock

pub data Op : Type 0 where
  op_alloc : Op
  op_realloc : Op
  op_free : Op

abbrev pub write_header : State → ℕ → Header → State
write_header s p h = record s { header = λ q. if q == p then h else s.header q }

-- otelc_dbg_set_metadata: a null record pointer makes the header refer to its own block.
pub set_metadata : Option ℕ → Ref → State → State
set_metadata none r s = s
set_metadata (some p) null s = write_header s p (record { data_ref = block p; magic = true })
set_metadata (some p) (block q) s = write_header s p (record { data_ref = block q; magic = true })
set_metadata (some p) (address a) s =
    write_header s p (record { data_ref = address a; magic = true })

-- otelc_dbg_is_wrapper_block.
pub is_wrapper_block : Header → Bool
is_wrapper_block h = elim h.data_ref [ null ↦ false | block q ↦ h.magic | address a ↦ h.magic ]

pub record_address : Mem → ℕ → ℕ
record_address m i = m.base + i * record_size

-- otelc_dbg_is_table_record, with the index of the record. A block of the heap is a different
-- object from the table; a null pointer is rejected by both callers before.
pub table_record : Mem → Ref → Option ℕ
table_record m null = none
table_record m (block q) = none
table_record m (address a) =
    let offset = sub64 a m.base in
    if leb (m.count * record_size) offset
    then none
    else if offset % record_size == 0
    then some (offset / record_size)
    else none

abbrev pub no_record : Record
no_record = record { ptr = none; size = 0; used = false }

-- data[i]; an index out of range does not arise.
pub cell : List Record → ℕ → Record
cell [] i = no_record
cell (r ∷ rs) zero = r
cell (r ∷ rs) (suc i) = cell rs i

pub counted : Op → Mem → Mem
counted op_alloc m = record m { alloc_cnt = (m.alloc_cnt + 1) % word }
counted op_realloc m = record m { realloc_cnt = (m.realloc_cnt + 1) % word }
counted op_free m = record m { free_cnt = (m.free_cnt + 1) % word }

-- The table's part of otelc_dbg_mem_add.
pub add_record : ℕ → Option ℕ → ℕ → Op → Mem → Mem
unfolding counted
add_record i p n op m = counted op (record m {
  data_cells = set m.data_cells i (record { ptr = p; size = n; used = true });
  size = (m.size + n) % word;
})

-- otelc_dbg_mem_add.
pub mem_add : ℕ → Option ℕ → ℕ → Op → Mem → State → State
unfolding add_record set_metadata record_address
mem_add i p n op m s =
    set_metadata p (address (record_address m i))
      (record s { dbg_mem = some (add_record i p n op m) })

-- The do-while loop of otelc_dbg_mem_alloc over the table: the index that it leaves (count when no
-- record is free) and the cursor. The loop makes at most count rounds, which is the fuel.
pub scan : ℕ → ℕ → ℕ → Mem → ℕ × ℕ
unfolding cell
scan zero idx r m = (idx, r)
scan (suc fuel) idx r m =
    let start = if leb m.count r then 0 else r in
    let rest = scan fuel (suc idx) (suc start) m in
    if (cell m.data_cells start).used then rest else (start, suc start)

-- A record that was never used is taken first, then the first one that is free.
pub find_slot : Mem → ℕ × Mem
unfolding scan
find_slot m =
    if ltb m.assigned m.count
    then (m.assigned, record m { assigned = suc m.assigned })
    else (let (idx, r) = scan m.count 0 m.reused m in (idx, record m { reused = r }))

-- mem->size -= metadata->data->size.
pub less_size : ℕ → Mem → Mem
unfolding cell
less_size i m = record m { size = sub64 m.size (cell m.data_cells i).size }

-- The comparison of two pointers that may be null.
pub same_ptr : Option ℕ → ℕ → Bool
same_ptr none p = false
same_ptr (some q) p = q == p

-- data->used && (data->ptr == p).
pub is_current : Mem → ℕ → ℕ → Bool
unfolding cell same_ptr
is_current m i p = let d = cell m.data_cells i in d.used && same_ptr d.ptr p

-- The tracker of otelc_dbg_mem_alloc for a new block.
pub track_new : ℕ → ℕ → Mem → State → State
unfolding find_slot mem_add set_metadata
track_new p n m s =
    let t = set_metadata (some p) null s in
    let (idx, m') = find_slot m in
    if ltb idx m.count then mem_add idx (some p) n op_alloc m' t else record t { dbg_mem = some m' }

-- Its tracker for a block that realloc moved from `old` to `p`: a header or record that does not fit
-- is reported and changes nothing.
pub track_moved : ℕ → ℕ → ℕ → Mem → State → State
unfolding table_record is_current less_size mem_add
track_moved old p n m s =
    let h = s.header p in
    if h.magic
    then elim (table_record m h.data_ref) [
      | none ↦ s
      | some i ↦ if is_current m i old then mem_add i (some p) n op_realloc (less_size i m) s else s
    ]
    else s

-- otelc_dbg_mem_alloc behind its mutex, and the function. Without a tracker a block is marked
-- untracked, when the allocation failed or the lock is refused nothing is done.
mem_alloc_locked : Lock → Option ℕ → ℕ → ℕ → Mem → State → State
unfolding track_new track_moved set_metadata
mem_alloc_locked refused old p n m s = s
mem_alloc_locked disabled old p n m s = set_metadata (some p) null (record s { dbg_mem = none })
mem_alloc_locked held none p n m s = track_new p n m s
mem_alloc_locked held (some o) p n m s = track_moved o p n m s

pub mem_alloc : Lock → Option ℕ → Option ℕ → ℕ → State → State
unfolding mem_alloc_locked set_metadata
mem_alloc l old none n s = s
mem_alloc l old (some p) n s = elim s.dbg_mem [
  | none ↦ set_metadata (some p) null s
  | some m ↦ mem_alloc_locked l old p n m s
]

-- The release of a record by otelc_dbg_mem_release.
pub drop_record : ℕ → Mem → Mem
unfolding cell less_size counted
drop_record i m =
    let d = cell m.data_cells i in
    counted op_free
      (less_size i (record m { data_cells = set m.data_cells i (record d { used = false }) }))

-- otelc_dbg_mem_release: false is OTELC_RET_ERROR. Only a header whose record lies outside the
-- table, or whose record does not describe the block as allocated, is an error.
is_unset : ℕ → Ref → Bool
is_unset p null = true
is_unset p (block q) = q == p
is_unset p (address a) = false

release_held : ℕ → Mem → State → Bool × State
unfolding table_record is_current drop_record is_unset
release_held p m s =
    let h = s.header p in
    if is_unset p h.data_ref || not h.magic then (true, s) else elim (table_record m h.data_ref) [
      | none ↦ (false, s)
      | some i ↦
          if is_current m i p
          then (true, record s { dbg_mem = some (drop_record i m) })
          else (false, s)
    ]

release_locked : Lock → ℕ → Mem → State → Bool × State
unfolding release_held
release_locked refused p m s = (true, s)
release_locked disabled p m s = (true, record s { dbg_mem = none })
release_locked held p m s = release_held p m s

pub mem_release : Lock → ℕ → State → Bool × State
unfolding release_locked
mem_release l p s = elim s.dbg_mem [ none ↦ (true, s) | some m ↦ release_locked l p m s ]

-- otelc_dbg_mem_check.
check_held : ℕ → Mem → State → Bool
unfolding table_record is_current
check_held p m s = elim (table_record m (s.header p).data_ref) [
  | none ↦ false
  | some i ↦ is_current m i p
]

check_locked : Lock → ℕ → Mem → State → Bool × State
unfolding check_held
check_locked refused p m s = (true, s)
check_locked disabled p m s = (true, record s { dbg_mem = none })
check_locked held p m s = (check_held p m s, s)

pub mem_check : Lock → ℕ → State → Bool × State
unfolding check_locked
mem_check l p s = elim s.dbg_mem [ none ↦ (true, s) | some m ↦ check_locked l p m s ]

-- otelc_dbg_mem_is_stale: some record assigned so far has the block as its pointer.
pub among : ℕ → List Record → ℕ → Bool
unfolding same_ptr
among zero rs p = false
among (suc n) [] p = false
among (suc n) (r ∷ rs) p = same_ptr r.ptr p || among n rs p

stale_locked : Lock → ℕ → Mem → State → Bool × State
unfolding among
stale_locked refused p m s = (false, s)
stale_locked disabled p m s = (false, record s { dbg_mem = none })
stale_locked held p m s = (among m.assigned m.data_cells p, s)

pub is_stale : Lock → ℕ → State → Bool × State
unfolding stale_locked
is_stale l p s = elim s.dbg_mem [ none ↦ (false, s) | some m ↦ stale_locked l p m s ]

-- The sum and the count of the records in use in otelc_dbg_mem_info.
pub used_size : List Record → ℕ
used_size [] = 0
used_size (r ∷ rs) = (if r.used then r.size else 0) + used_size rs

pub used_chunks : List Record → ℕ
used_chunks [] = 0
used_chunks (r ∷ rs) = (if r.used then 1 else 0) + used_chunks rs
