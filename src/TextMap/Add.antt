-- ===== src/TextMap/Add.antt =====
-- otelc_text_map_add of src/util.cpp: growth of the three arrays, the duplicates, the new entry.
pub mod Keeps
pub mod Growth
pub mod Entry
pub mod Total
pub mod Success
use opentelemetry_c_wrapper.Prelude.{
  ℕ, suc, ◌+◌, ◌-◌, ◌/◌, ◌%◌, ◌^◌, ◌==◌, Bool, true, false, List, ◌++◌, Option, none, some, ltb,
  leb, if◌then◌else◌, set, replicate, take,
}
use opentelemetry_c_wrapper.Heap.{Heap, malloc, realloc, sfree}
use opentelemetry_c_wrapper.TextMap.{TextMap, Str, Flags, no_flags, str_block}

-- The growth step: half of the size, at least one.
pub size_add : ℕ → ℕ
size_add n = if ltb 1 n then n / 2 else 1

abbrev pub Grown : Type 0
Grown = Bool × TextMap × Heap

-- The three reallocs of otelc_text_map_add. Each array that could be moved is stored at once; the
-- size is raised when all three were.
grow_value : TextMap → Option ℕ × Heap → Grown
unfolding size_add
grow_value m (none, h) = (false, m, h)
grow_value m (some b, h) = (
  true,
  record m {
    value = some b;
    value_cells = take m.size m.value_cells ++ replicate (size_add m.size) none;
    size = m.size + size_add m.size;
  },
  h,
)

grow_key : TextMap → Option ℕ × Heap → Grown
unfolding size_add grow_value
grow_key m (none, h) = (false, m, h)
grow_key m (some b, h) =
    grow_value
      (record m {
        key = some b;
        key_cells = take m.size m.key_cells ++ replicate (size_add m.size) none;
      })
      (realloc m.value h)

grow_flags : TextMap → Option ℕ × Heap → Grown
unfolding size_add grow_key
grow_flags m (none, h) = (false, m, h)
grow_flags m (some b, h) =
    grow_key
      (record m {
        flags = some b;
        flag_cells = take m.size m.flag_cells ++ replicate (size_add m.size) no_flags;
      })
      (realloc m.key h)

pub grow : TextMap → Heap → Grown
unfolding grow_flags
grow m h = if leb m.size m.count then grow_flags m (realloc m.flags h) else (true, m, h)

-- OTELC_STRNDUP for a positive length, OTELC_STRDUP for 0: the bytes that the duplicate holds.
unfoldable pub dup_text : ℕ → List ℕ → List ℕ
dup_text n t = if ltb 0 n then take n t else t

dup_result : ℕ → Str → Option ℕ × Heap → Option Str × Heap
unfolding dup_text
dup_result n s (none, h) = (none, h)
dup_result n s (some b, h) = (some (record { addr = b; text = dup_text n s.text }), h)

-- The pointer that goes into the cell: a duplicate if the DUP flag is set, else the caller's.
pub store_str : Bool → ℕ → Str → Heap → Option Str × Heap
unfolding dup_result
store_str dup n s h = if dup then dup_result n s (malloc h) else (some s, h)

put_cells : TextMap → Flags → Option Str → Option Str → TextMap
put_cells m f k v = record m {
  flag_cells = set m.flag_cells m.count f;
  key_cells = set m.key_cells m.count k;
  value_cells = set m.value_cells m.count v;
}

-- Whether a stored pointer is released again on the failure path: only a duplicate is.
release_dup : Bool → Option Str → Heap → Heap
release_dup dup s h = if dup then sfree (str_block s) h else h

add_failed : TextMap → Flags → Option Str → Option Str → Heap → Option ℕ × TextMap × Heap
unfolding put_cells release_dup
add_failed m f k v h =
    (none, put_cells m f none none, release_dup f.dup_value v (release_dup f.dup_key k h))

-- The count as the int result of the function, as its bits; -1 is OTELC_RET_ERROR.
unfoldable pub as_index : ℕ → Option ℕ
as_index n = if n % 2 ^ 32 == 2 ^ 32 - 1 then none else some (n % 2 ^ 32)

store_pair : TextMap → Flags → Option Str → Option Str → Heap → Option ℕ × TextMap × Heap
unfolding put_cells add_failed as_index
store_pair m f (some k) (some v) h =
    let m' = put_cells m f (some k) (some v) in
    (as_index m.count, record m' { count = suc m.count }, h)
store_pair m f none v h = add_failed m f none v h
store_pair m f (some k) none h = add_failed m f (some k) none h

pub store_entry : TextMap → Str → ℕ → Str → ℕ → Flags → Heap → Option ℕ × TextMap × Heap
unfolding store_pair store_str
store_entry m k kn v vn f h =
    let (k', h1) = store_str f.dup_key kn k h in
    let (v', h2) = store_str f.dup_value vn v h1 in store_pair m f k' v' h2

pub add_grown : Str → ℕ → Str → ℕ → Flags → Grown → Option ℕ × TextMap × Heap
unfolding store_entry
add_grown k kn v vn f (false, m, h) = (none, m, h)
add_grown k kn v vn f (true, m, h) = store_entry m k kn v vn f h

-- otelc_text_map_add for non-null arguments. `none` is OTELC_RET_ERROR, which
-- also the 2 ^ 32-th pair returns.
pub add_pair : TextMap → Str → ℕ → Str → ℕ → Flags → Heap → Option ℕ × TextMap × Heap
unfolding grow add_grown
add_pair m k kn v vn f h = add_grown k kn v vn f (grow m h)

-- otelc_text_map_add: a null argument is refused.
pub text_map_add :
    Option TextMap
    → Option Str
    → ℕ
    → Option Str
    → ℕ
    → Flags
    → Heap
    → Option ℕ × Option TextMap × Heap
text_map_add none k kn v vn f h = (none, none, h)
text_map_add (some m) none kn v vn f h = (none, some m, h)
text_map_add (some m) (some k) kn none vn f h = (none, some m, h)
text_map_add (some m) (some k) kn (some v) vn f h =
    let (r, m', h') = add_pair m k kn v vn f h in (r, some m', h')
