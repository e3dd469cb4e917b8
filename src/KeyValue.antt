-- ===== src/KeyValue.antt =====
-- The growable arrays of values and of key-value pairs of src/util.cpp (otelc_value_add, _destroy,
-- otelc_kv_add, _destroy and the functions that make them) over the allocator of Heap.antt, with
-- otelc_memdup and otelc_strdup. An array is the caller's pointer and its length; its cells are
-- passed on as a list.
pub mod Store
pub mod Copies
pub mod Adds
pub mod Kept
pub mod Values
pub mod Content
pub mod Stored
pub mod Lifetime
mod Examples
use opentelemetry_c_wrapper.Prelude.{
  ℕ, zero, suc, ◌+◌, ◌-◌, ◌*◌, ◌%◌, ◌^◌, Bool, true, false, not, ◌&&◌, List, [], ◌∷◌, ◌++◌, Option,
  none, some, ◌==◌, ltb, if◌then◌else◌, take, replicate,
}
use opentelemetry_c_wrapper.Heap.{Heap, malloc, realloc, sfree}
use opentelemetry_c_wrapper.TextMap.{Str, str_block}

-- An int, as its bits: OTELC_RET_ERROR is -1.
abbrev pub ret_error : ℕ
ret_error = 2 ^ 32 - 1

abbrev pub size_max : ℕ
size_max = 2 ^ 64 - 1

-- struct otelc_value: the type and the member of the union that it names. Numbers are their bits.
pub data Value : Type 0 where
  value_null : Value
  value_bool : Bool → Value
  value_int32 : ℕ → Value
  value_int64 : ℕ → Value
  value_uint32 : ℕ → Value
  value_uint64 : ℕ → Value
  value_double : ℕ → Value
  value_string : Option Str → Value
  value_data : Option Str → Value

-- struct otelc_kv.
pub record Kv : Type 0 where
  pub key : Option Str
  pub key_is_dynamic : Bool
  pub value : Value

-- An array: the block that *kv points to, its cells, and the number of them in use.
pub record Array (A : Type 0) : Type 0 where
  pub block : Option ℕ
  pub cells : List A
  pub len : ℕ

-- A block for a copy of `t`, if malloc gave one.
pub copied : List ℕ → Option ℕ × Heap → Option Str × Heap
copied t (none, h) = (none, h)
copied t (some p, h) = (some (record { addr = p; text = t }), h)

-- otelc_strdup, of a string without its terminator.
pub strdup : Option (List ℕ) → Heap → Option Str × Heap
unfolding copied
strdup none h = (none, h)
strdup (some s) h = copied s (malloc h)

-- otelc_memdup: the first `size` bytes of the memory.
pub memdup : Option (List ℕ) → ℕ → Heap → Option Str × Heap
unfolding copied
memdup none size h = (none, h)
memdup (some s) size h = if size == size_max then (none, h) else copied (take size s) (malloc h)

-- otelc_value_new and otelc_kv_new: calloc of `n` cells, for n > 0.
pub zeroed : {A : Type 0} → A → ℕ → Option ℕ × Heap → Array A × Heap
zeroed z n (none, h) = (record { block = none; cells = []; len = 0 }, h)
zeroed z n (some p, h) = (record { block = some p; cells = replicate n z; len = n }, h)

pub array_new : {A : Type 0} → A → ℕ → Heap → Array A × Heap
unfolding zeroed
array_new z n h = if ltb 0 n then zeroed z n (malloc h) else zeroed z n (none, h)

pub value_new : ℕ → Heap → Array Value × Heap
unfolding array_new
value_new n h = array_new value_null n h

abbrev pub no_kv : Kv
no_kv = record { key = none; key_is_dynamic = false; value = value_null }

pub kv_new : ℕ → Heap → Array Kv × Heap
unfolding array_new
kv_new n h = array_new no_kv n h

-- The array after realloc to len + 1 cells, with `e` in the last one.
abbrev pub with_last : {A : Type 0} → Array A → ℕ → A → Array A
with_last a p e = record { block = some p; cells = take a.len a.cells ++ e ∷ []; len = a.len }

-- ++len, and the value of it that is returned as an int.
abbrev pub counted : {A : Type 0} → Array A → Heap → ℕ × Array A × Heap
counted a h = ((a.len + 1) % 2 ^ 32, record a { len = a.len + 1 }, h)

-- The part of otelc_value_add on the data: a new value, or none if memory ran out.
abbrev pub wants_data : Option (List ℕ) → ℕ → Bool
wants_data none size = false
wants_data (some s) size = ltb 0 size

value_copied : Array Value → ℕ → Option Str × Heap → ℕ × Array Value × Heap
value_copied a p (none, h) = (ret_error, with_last a p value_null, h)
value_copied a p (some s, h) = counted (with_last a p (value_data (some s))) h

value_grown : Array Value → Option (List ℕ) → ℕ → Option ℕ × Heap → ℕ × Array Value × Heap
unfolding value_copied
value_grown a s size (none, h) = (ret_error, a, h)
value_grown a s size (some p, h) =
    if wants_data s size
    then value_copied a p (memdup s size h)
    else counted (with_last a p (value_data none)) h

-- otelc_value_add; `given` says that neither of its first two arguments is a null pointer.
pub value_add : Bool → Array Value → Option (List ℕ) → ℕ → Heap → ℕ × Array Value × Heap
unfolding value_grown
value_add false a s size h = (ret_error, a, h)
value_add true a s size h = value_grown a s size (realloc a.block h)

-- The local state of otelc_kv_add while it fills the new cell.
pub record Filling : Type 0 where
  pub key : Option Str
  pub data_block : Option Str
  pub alloc_error : Bool
  pub heap : Heap

abbrev pub is_some {ℓ} : {A : Type ℓ} → Option A → Bool
is_some none = false
is_some (some a) = true

pub fill_key : Option (List ℕ) → Heap → Filling
fill_key none h = record { key = none; data_block = none; alloc_error = false; heap = h }
fill_key (some k) h =
    let r = strdup (some k) h in
    record { key = r.0; data_block = none; alloc_error = not (is_some r.0); heap = r.1 }

pub fill_data : Option (List ℕ) → ℕ → Filling → Filling
fill_data s size f =
    let r = memdup s size f.heap in
    if not f.alloc_error && wants_data s size
    then record { key = f.key; data_block = r.0; alloc_error = not (is_some r.0); heap = r.1 }
    else f

-- On an error the new cell keeps the address of the released key, outside the cells in use.
kv_filled : Array Kv → ℕ → Filling → ℕ × Array Kv × Heap
kv_filled a p f =
    if f.alloc_error
    then (
      ret_error,
      with_last a p (record { key = f.key; key_is_dynamic = false; value = value_null }),
      sfree (str_block f.data_block) (sfree (str_block f.key) f.heap),
    )
    else counted
        (with_last a p
          (record { key = f.key; key_is_dynamic = is_some f.key; value = value_data f.data_block }))
        f.heap

kv_grown : Array Kv → Option (List ℕ) → Option (List ℕ) → ℕ → Option ℕ × Heap → ℕ × Array Kv × Heap
unfolding kv_filled fill_data fill_key
kv_grown a k s size (none, h) = (ret_error, a, h)
kv_grown a k s size (some p, h) = kv_filled a p (fill_data s size (fill_key k h))

-- otelc_kv_add; `given` says that neither of its first two arguments is a null pointer.
pub kv_add : Bool → Array Kv → Option (List ℕ) → Option (List ℕ) → ℕ → Heap → ℕ × Array Kv × Heap
unfolding kv_grown
kv_add false a k s size h = (ret_error, a, h)
kv_add true a k s size h = kv_grown a k s size (realloc a.block h)

-- What the destructors release of a value: only OTELC_VALUE_DATA is owned.
abbrev pub data_block_of : Value → Option ℕ
data_block_of (value_data s) = str_block s
data_block_of _ = none

abbrev pub key_block_of : Kv → Option ℕ
key_block_of e = if e.key_is_dynamic then str_block e.key else none

free_value : Value → Heap → Heap
free_value v h = sfree (data_block_of v) h

free_kv : Kv → Heap → Heap
unfolding free_value
free_kv e h = free_value e.value (sfree (key_block_of e) h)

-- The loops over the first `n` cells.
pub free_cells : {A : Type 0} → (A → Heap → Heap) → ℕ → List A → Heap → Heap
free_cells free_cell zero es h = h
free_cells free_cell (suc n) [] h = h
free_cells free_cell (suc n) (e ∷ es) h = free_cells free_cell n es (free_cell e h)

-- otelc_value_destroy and otelc_kv_destroy: the array that the argument points to, if it is no null
-- pointer, and the number of cells. A null array is left alone, another one is set to null.
pub value_destroy : Option (Option ℕ) → List Value → ℕ → Heap → Option (Option ℕ) × Heap
unfolding free_value
value_destroy none vs n h = (none, h)
value_destroy (some none) vs n h = (some none, h)
value_destroy (some (some p)) vs n h = (some none, sfree (some p) (free_cells free_value n vs h))

pub kv_destroy : Option (Option ℕ) → List Kv → ℕ → Heap → Option (Option ℕ) × Heap
unfolding free_kv
kv_destroy none es n h = (none, h)
kv_destroy (some none) es n h = (some none, h)
kv_destroy (some (some p)) es n h = (some none, sfree (some p) (free_cells free_kv n es h))
