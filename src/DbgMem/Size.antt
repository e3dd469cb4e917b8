-- ===== src/DbgMem/Size.antt =====
-- The accounting of src/dbg_malloc.cpp: through every call the table stays sound, so its size is the
-- sum of the records in use and the cursors stay in range.
use opentelemetry_c_wrapper.Prelude.{
  ℕ, zero, suc, ◌+◌, ◌%◌, ◌<◌, ◌≡◌, refl, ap, ◌∙◌, true, false, arith, ◌==◌, if◌then◌else◌, List,
  [], ◌∷◌, Option, length, set, length-set,
}
use opentelemetry_c_wrapper.DbgMem.{
  Mem, Record, Op, op_alloc, op_realloc, op_free, cell, used_size, word, sub64, counted, add_record,
  less_size, drop_record,
}
use opentelemetry_c_wrapper.DbgMem.Slots.{IsSound, used_at}

-- The bytes that a record stands for.
abbrev held_by : Record → ℕ
held_by r = if r.used then r.size else 0

used_size-set :
    (rs : List Record) (i : ℕ) (r : Record)
    → i < length rs
    → used_size (set rs i r) + held_by (cell rs i) ≡ used_size rs + held_by r
unfolding used_size cell
used_size-set [] i r h = absurd (omega arith)
used_size-set (q ∷ qs) zero r h = omega arith
used_size-set (q ∷ qs) (suc i) r h = omega (arith, used_size-set qs i r (omega arith))

pub cell-set :
    (rs : List Record) (i j : ℕ) (r : Record)
    → i < length rs
    → cell (set rs i r) j ≡ (if j == i then r else cell rs j)
unfolding cell
cell-set [] i j r h = absurd (omega arith)
cell-set (q ∷ qs) zero zero r h = refl
cell-set (q ∷ qs) zero (suc j) r h = ground arith
cell-set (q ∷ qs) (suc i) zero r h = ground arith
cell-set (q ∷ qs) (suc i) (suc j) r h = cell-set qs i j r (omega arith) ∙ ground arith

counted-IsSound : (op : Op) (m : Mem) → IsSound m → IsSound (counted op m)
unfolding counted
counted-IsSound op_alloc m w = record {
  filled = w.filled;
  some_cell = w.some_cell;
  assigned_bound = w.assigned_bound;
  reused_bound = w.reused_bound;
  fresh = w.fresh;
  sized = w.sized;
}
counted-IsSound op_realloc m w = record {
  filled = w.filled;
  some_cell = w.some_cell;
  assigned_bound = w.assigned_bound;
  reused_bound = w.reused_bound;
  fresh = w.fresh;
  sized = w.sized;
}
counted-IsSound op_free m w = record {
  filled = w.filled;
  some_cell = w.some_cell;
  assigned_bound = w.assigned_bound;
  reused_bound = w.reused_bound;
  fresh = w.fresh;
  sized = w.sized;
}

-- A record of the table below the high-water mark is written, and the size follows.
written-IsSound :
    (m : Mem) (i : ℕ) (r : Record) (z : ℕ)
    → IsSound m
    → i < m.assigned
    → z ≡ used_size (set m.data_cells i r) % word
    → IsSound (record m { data_cells = set m.data_cells i r; size = z })
unfolding cell
written-IsSound m i r z w h e = record {
  filled = length-set m.data_cells i r ∙ w.filled;
  some_cell = w.some_cell;
  assigned_bound = w.assigned_bound;
  reused_bound = w.reused_bound;
  fresh = λ j b.
      ap (λ (q : Record). q.used)
        (cell-set m.data_cells i j r (omega (arith, h, w.filled, w.assigned_bound)))
      ∙ ground (arith, h, b, w.fresh j b);
  sized = e;
}

pub add_record-IsSound :
    (i : ℕ) (p : Option ℕ) (n : ℕ) (op : Op) (m : Mem)
    → IsSound m
    → i < m.assigned
    → used_at m i ≡ false
    → IsSound (add_record i p n op m)
unfolding add_record
add_record-IsSound i p n op m w h e =
    let r : Record = record { ptr = p; size = n; used = true } in
    let q = used_size-set m.data_cells i r (omega (arith, h, w.filled, w.assigned_bound)) in
    counted-IsSound op _
      (written-IsSound m i r ((m.size + n) % word) w h (ground (arith, e, q, w.sized)))

pub drop_record-IsSound :
    (i : ℕ) (m : Mem) → IsSound m → i < m.assigned → used_at m i ≡ true → IsSound (drop_record i m)
unfolding drop_record less_size
drop_record-IsSound i m w h e =
    let d = cell m.data_cells i in
    let r : Record = record { ptr = d.ptr; size = d.size; used = false } in
    let b : i < length m.data_cells = omega (arith, h, w.filled, w.assigned_bound) in
    let q = used_size-set m.data_cells i r b in
    let same : (cell (set m.data_cells i r) i).size ≡ d.size =
      rw (cell-set m.data_cells i i r b) (ground arith) in
    counted-IsSound op_free _ (
      written-IsSound m i r (sub64 m.size (cell (set m.data_cells i r) i).size) w h
        (rw same (ground (arith, e, q, w.sized))))

-- A record that moves: its size is taken off, and the new one is put on.
pub moved_record-IsSound :
    (i : ℕ) (p : Option ℕ) (n : ℕ) (m : Mem)
    → IsSound m
    → i < m.assigned
    → used_at m i ≡ true
    → IsSound (add_record i p n op_realloc (less_size i m))
unfolding add_record less_size
moved_record-IsSound i p n m w h e =
    let d = cell m.data_cells i in
    let r : Record = record { ptr = p; size = n; used = true } in
    let q = used_size-set m.data_cells i r (omega (arith, h, w.filled, w.assigned_bound)) in
    counted-IsSound op_realloc _
      (written-IsSound m i r ((sub64 m.size d.size + n) % word) w h (ground (arith, e, q, w.sized)))
