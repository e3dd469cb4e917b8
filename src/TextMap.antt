-- ===== src/TextMap.antt =====
-- The growable list of key-value strings of src/util.cpp (otelc_text_map_new, _add, _free and
-- _destroy) over the allocator of Heap.antt. The structure is a value that is passed on; its three
-- arrays and the strings are blocks of the heap.
pub mod Owned
pub mod Make
pub mod Cells
pub mod Add
pub mod Lifetime
mod Examples
use opentelemetry_c_wrapper.Prelude.{
  ℕ, zero, suc, Bool, true, false, ◌||◌, List, [], ◌∷◌, Option, none, some, ◌==◌, if◌then◌else◌,
  replicate,
}
use opentelemetry_c_wrapper.Heap.{Heap, malloc, sfree}

-- A NUL terminated string in memory: its block and its bytes before the terminator.
pub record Str : Type 0 where
  pub addr : ℕ
  pub text : List ℕ

-- The bits of otelc_text_map_flags_t.
pub record Flags : Type 0 where
  pub dup_key : Bool
  pub dup_value : Bool
  pub free_key : Bool
  pub free_value : Bool

abbrev pub no_flags : Flags
no_flags = record { dup_key = false; dup_value = false; free_key = false; free_value = false }

-- OTELC_TEXT_MAP_AUTO.
abbrev pub auto : Flags
auto = record { dup_key = true; dup_value = true; free_key = true; free_value = true }

-- `addr` is the address of the structure, `is_dynamic` says that otelc_text_map_new allocated it.
-- An array is the address of its block, or NULL, and its cells.
pub record TextMap : Type 0 where
  pub addr : ℕ
  pub flags : Option ℕ
  pub flag_cells : List Flags
  pub key : Option ℕ
  pub key_cells : List (Option Str)
  pub value : Option ℕ
  pub value_cells : List (Option Str)
  pub count : ℕ
  pub size : ℕ
  pub is_dynamic : Bool

-- The loops of otelc_text_map_free: they release the strings of the first `n` cells whose flag
-- is set. OTELC_SFREE leaves a null cell alone.
abbrev pub str_block : Option Str → Option ℕ
str_block none = none
str_block (some s) = some s.addr

pub free_selected : (Flags → Bool) → ℕ → List Flags → List (Option Str) → Heap → Heap
free_selected owns zero fs ss h = h
free_selected owns (suc n) [] ss h = h
free_selected owns (suc n) (f ∷ fs) [] h = h
free_selected owns (suc n) (f ∷ fs) (s ∷ ss) h =
    free_selected owns n fs ss (if owns f then sfree (str_block s) h else h)

-- (flags & (DUP_KEY | FREE_KEY)) != 0, and the same for the value.
abbrev pub owns_key : Flags → Bool
owns_key f = f.dup_key || f.free_key

abbrev pub owns_value : Flags → Bool
owns_value f = f.dup_value || f.free_value

-- A loop runs only if both of its arrays are there.
free_strings :
    (Flags → Bool) → ℕ → Option ℕ → List Flags → Option ℕ → List (Option Str) → Heap → Heap
free_strings owns n none fs b ss h = h
free_strings owns n (some a) fs none ss h = h
free_strings owns n (some a) fs (some b) ss h = free_selected owns n fs ss h

-- otelc_text_map_free.
pub text_map_free : TextMap → Heap → TextMap × Heap
unfolding free_strings
text_map_free m h =
    let h1 = free_strings owns_key m.count m.flags m.flag_cells m.key m.key_cells h in
    let h2 = free_strings owns_value m.count m.flags m.flag_cells m.value m.value_cells h1 in
    (
      record m {
        flags = none;
        flag_cells = [];
        key = none;
        key_cells = [];
        value = none;
        value_cells = [];
        count = 0;
        size = 0;
      },
      sfree m.value (sfree m.key (sfree m.flags h2)),
    )

-- otelc_text_map_destroy: `none` as a map is the cleared pointer; a caller's structure stays.
pub text_map_destroy : Option TextMap → Heap → Option TextMap × Heap
text_map_destroy none h = (none, h)
text_map_destroy (some m) h =
    let (m', h') = text_map_free m h in
    if m'.is_dynamic then (none, sfree (some m'.addr) h') else (some m', h')

-- A calloc of `n` cells for one array.
calloc_flags : TextMap → Option ℕ → TextMap
calloc_flags m b = record m { flags = b; flag_cells = replicate m.size no_flags }

calloc_key : TextMap → Option ℕ → TextMap
calloc_key m b = record m { key = b; key_cells = replicate m.size none }

calloc_value : TextMap → Option ℕ → TextMap
calloc_value m b = record m { value = b; value_cells = replicate m.size none }

-- What otelc_text_map_new hands back: the returned pointer is non-null iff `made`, and `left` is
-- the structure that exists afterwards (a caller's one is left cleared on failure).
pub record Made : Type 0 where
  pub made : Bool
  pub left : Option TextMap
  pub heap : Heap

give_up : TextMap → Heap → Made
unfolding text_map_destroy
give_up m h =
    let (l, h') = text_map_destroy (some m) h in record { made = false; left = l; heap = h' }

fill_value : TextMap → Option ℕ × Heap → Made
unfolding calloc_value give_up
fill_value m (none, h) = give_up m h
fill_value m (some b, h) = record { made = true; left = some (calloc_value m (some b)); heap = h }

fill_key : TextMap → Option ℕ × Heap → Made
unfolding calloc_key fill_value give_up
fill_key m (none, h) = give_up m h
fill_key m (some b, h) = fill_value (calloc_key m (some b)) (malloc h)

fill_flags : TextMap → Option ℕ × Heap → Made
unfolding calloc_flags fill_key give_up
fill_flags m (none, h) = give_up m h
fill_flags m (some b, h) = fill_key (calloc_flags m (some b)) (malloc h)

blank : ℕ → ℕ → Bool → TextMap
blank a n dynamic = record {
  addr = a;
  flags = none;
  flag_cells = [];
  key = none;
  key_cells = [];
  value = none;
  value_cells = [];
  count = 0;
  size = n;
  is_dynamic = dynamic;
}

init : TextMap → Heap → Made
unfolding fill_flags
init m h =
    if m.size == 0 then record { made = true; left = some m; heap = h } else fill_flags m (malloc h)

init_dynamic : ℕ → Option ℕ × Heap → Made
unfolding init blank
init_dynamic n (none, h) = record { made = false; left = none; heap = h }
init_dynamic n (some a, h) = init (blank a n true) h

-- otelc_text_map_new over a caller's structure at an address, or with a new one.
pub text_map_new : Option ℕ → ℕ → Heap → Made
unfolding init_dynamic init blank
text_map_new none n h = init_dynamic n (malloc h)
text_map_new (some a) n h = init (blank a n false) h
