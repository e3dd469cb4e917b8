-- ===== src/DbgMem/Table.antt =====
-- The address test of src/dbg_malloc.cpp: which addresses otelc_dbg_is_table_record takes for a
-- record of the table, in the unsigned arithmetic of the code.
use opentelemetry_c_wrapper.Prelude.{ℕ, ◌+◌, ◌*◌, ◌≤◌, ◌<◌, ◌≡◌, ◌↔◌, some, arith}
use opentelemetry_c_wrapper.DbgMem.{Mem, address, word, record_size, record_address, table_record}

-- The table is an object: it lies within the address space.
abbrev pub IsPlaced : Mem → Type 0
IsPlaced m = m.base + m.count * record_size ≤ word

-- For a table within the address space and a 64-bit address, otelc_dbg_is_table_record accepts
-- exactly the addresses at which a record starts, with the index of that record: also an address
-- below the table, whose difference wraps around, is refused.
pub table_record_iff :
    (m : Mem) (a i : ℕ)
    → IsPlaced m
    → a < word
    → (table_record m (address a) ≡ some i) ↔ ((i < m.count) × (a ≡ record_address m i))
unfolding table_record record_address
table_record_iff m a i p h = ground arith
