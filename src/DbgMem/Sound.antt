-- ===== src/DbgMem/Sound.antt =====
-- The tracker of src/dbg_malloc.cpp over any sequence of calls: the table stays sound, and the report
-- of otelc_dbg_mem_info agrees with the running size.
use opentelemetry_c_wrapper.Prelude.{
  ℕ, ◌<◌, ◌≡◌, refl, ap, ◌∙◌, inl, inr, true, false, not, ◌||◌, arith, ltb, ltb→lt, lt→ltb,
  Bool-cases, Option-cases, Option, none, some,
}
use opentelemetry_c_wrapper.Heap.{Heap}
use opentelemetry_c_wrapper.DbgMem.{
  Mem, State, Header, Ref, null, block, address, Lock, refused, disabled, held, op_alloc,
  op_realloc, cell, set_metadata, add_record, less_size, mem_add, find_slot, table_record,
  is_current, track_new, track_moved, mem_alloc, mem_alloc_locked, mem_release, release_locked,
  release_held, is_unset, mem_check, check_locked, is_stale, stale_locked,
}
use opentelemetry_c_wrapper.DbgMem.Slots.{IsSound, used_at, find_slot-Finds}
use opentelemetry_c_wrapper.DbgMem.Size.{
  add_record-IsSound, drop_record-IsSound, moved_record-IsSound,
}

-- The tracker is off, or its table is sound.
unfoldable pub IsTracked : Option Mem → Type 0
IsTracked none = Unit
IsTracked (some m) = IsSound m

set_metadata-dbg_mem :
    (p : Option ℕ) (r : Ref) (s : State) → (set_metadata p r s).dbg_mem ≡ s.dbg_mem
unfolding set_metadata
set_metadata-dbg_mem none r s = refl
set_metadata-dbg_mem (some p) null s = refl
set_metadata-dbg_mem (some p) (block q) s = refl
set_metadata-dbg_mem (some p) (address a) s = refl

pub set_metadata-IsTracked :
    (p : Option ℕ) (r : Ref) (s : State)
    → IsTracked s.dbg_mem
    → IsTracked (set_metadata p r s).dbg_mem
set_metadata-IsTracked p r s w = rw (set_metadata-dbg_mem p r s) w

mem_add-IsTracked :
    (i : ℕ) (p : Option ℕ) (n : ℕ) (m : Mem) (s : State)
    → IsSound (add_record i p n op_alloc m)
    → IsTracked (mem_add i p n op_alloc m s).dbg_mem
unfolding mem_add IsTracked
mem_add-IsTracked i p n m s w = rw (set_metadata-dbg_mem p (address _) _) w

mem_add-IsTracked_realloc :
    (i : ℕ) (p : Option ℕ) (n : ℕ) (m : Mem) (s : State)
    → IsSound (add_record i p n op_realloc m)
    → IsTracked (mem_add i p n op_realloc m s).dbg_mem
unfolding mem_add IsTracked
mem_add-IsTracked_realloc i p n m s w = rw (set_metadata-dbg_mem p (address _) _) w

track_new-IsTracked :
    (p n : ℕ) (m : Mem) (s : State) → IsSound m → IsTracked (track_new p n m s).dbg_mem
unfolding track_new IsTracked
track_new-IsTracked p n m s w =
    let f = find_slot-Finds m w in
    let (i, k) = find_slot m in
    elim (f.0) [
      | inl g ↦ rw (lt→ltb i m.count g.0) (
          mem_add-IsTracked i (some p) n k (set_metadata (some p) null s) (
            add_record-IsSound i (some p) n op_alloc k f.1 g.2
              (ap (λ rs. (cell rs i).used) f.2 ∙ g.1)))
      | inr g ↦ let full : ltb i m.count ≡ false = ground (arith, g.0) in rw full (f.1)
    ]

-- A record that describes a block as allocated is in use, and lies below the high-water mark.
current_used : (m : Mem) (i p : ℕ) → is_current m i p ≡ true → used_at m i ≡ true
unfolding is_current
current_used m i p e = elim (Bool-cases (used_at m i)) [ inl u ↦ u | inr u ↦ ground (arith, e, u) ]

current_assigned : (m : Mem) (i p : ℕ) → IsSound m → is_current m i p ≡ true → i < m.assigned
current_assigned m i p w e = elim (Bool-cases (ltb i m.assigned)) [
  | inl l ↦ ltb→lt i m.assigned l
  | inr l ↦ absurd (cc (current_used m i p e, w.fresh i (ground (arith, l))))
]

abbrev tracked_by : Mem → Heap → (ℕ → Header) → State
tracked_by m h hd = record { heap = h; header = hd; dbg_mem = some m }

track_moved-IsTracked :
    (old p n : ℕ) (m : Mem) (h : Heap) (hd : ℕ → Header)
    → IsSound m
    → IsTracked (track_moved old p n m (tracked_by m h hd)).dbg_mem
unfolding track_moved IsTracked
track_moved-IsTracked old p n m h hd w = elim (Bool-cases (hd p).magic) [
  | inr g ↦ rw g w
  | inl g ↦ elim (Option-cases (table_record m (hd p).data_ref)) [
    | inl t ↦ rw (g, t) w
    | inr (i, t) ↦ elim (Bool-cases (is_current m i old)) [
      | inr c ↦ rw (g, t, c) w
      | inl c ↦
          rw (g, t, c)
            (mem_add-IsTracked_realloc i (some p) n (less_size i m) (tracked_by m h hd) (
              moved_record-IsSound i (some p) n m w (current_assigned m i old w c)
                (current_used m i old c)))
    ]
  ]
]

pub mem_alloc-IsTracked :
    (l : Lock) (old p : Option ℕ) (n : ℕ) (s : State)
    → IsTracked s.dbg_mem
    → IsTracked (mem_alloc l old p n s).dbg_mem
unfolding mem_alloc mem_alloc_locked IsTracked
mem_alloc-IsTracked l old none n s w = w
mem_alloc-IsTracked l old (some p) n s w = go l old s.dbg_mem w
  where
    go :
        (l : Lock) (old : Option ℕ) (o : Option Mem)
        → IsTracked o
        → IsTracked (mem_alloc l old (some p) n (record s { dbg_mem = o })).dbg_mem
    go l old none w = set_metadata-IsTracked (some p) null (record s { dbg_mem = none }) tt
    go refused old (some m) w = w
    go disabled old (some m) w =
        set_metadata-IsTracked (some p) null (record s { dbg_mem = none }) tt
    go held none (some m) w = track_new-IsTracked p n m (record s { dbg_mem = some m }) w
    go held (some q) (some m) w = track_moved-IsTracked q p n m s.heap s.header w

release_held-IsTracked :
    (p : ℕ) (m : Mem) (h : Heap) (hd : ℕ → Header)
    → IsSound m
    → IsTracked (release_held p m (tracked_by m h hd)).1.dbg_mem
unfolding release_held IsTracked
release_held-IsTracked p m h hd w =
    elim (Bool-cases (is_unset p (hd p).data_ref || not (hd p).magic)) [
      | inl g ↦ rw g w
      | inr g ↦ elim (Option-cases (table_record m (hd p).data_ref)) [
        | inl t ↦ rw (g, t) w
        | inr (i, t) ↦ elim (Bool-cases (is_current m i p)) [
          | inr c ↦ rw (g, t, c) w
          | inl c ↦
              rw (g, t, c)
                (drop_record-IsSound i m w (current_assigned m i p w c) (current_used m i p c))
        ]
      ]
    ]

pub mem_release-IsTracked :
    (l : Lock) (p : ℕ) (s : State) → IsTracked s.dbg_mem → IsTracked (mem_release l p s).1.dbg_mem
unfolding mem_release release_locked IsTracked
mem_release-IsTracked l p s w = go l s.dbg_mem w
  where
    go :
        (l : Lock) (o : Option Mem)
        → IsTracked o
        → IsTracked (mem_release l p (record s { dbg_mem = o })).1.dbg_mem
    go l none w = tt
    go refused (some m) w = w
    go disabled (some m) w = tt
    go held (some m) w = release_held-IsTracked p m s.heap s.header w

pub mem_check-IsTracked :
    (l : Lock) (p : ℕ) (s : State) → IsTracked s.dbg_mem → IsTracked (mem_check l p s).1.dbg_mem
unfolding mem_check check_locked IsTracked
mem_check-IsTracked l p s w = go l s.dbg_mem w
  where
    go :
        (l : Lock) (o : Option Mem)
        → IsTracked o
        → IsTracked (mem_check l p (record s { dbg_mem = o })).1.dbg_mem
    go l none w = tt
    go refused (some m) w = w
    go disabled (some m) w = tt
    go held (some m) w = w

pub is_stale-IsTracked :
    (l : Lock) (p : ℕ) (s : State) → IsTracked s.dbg_mem → IsTracked (is_stale l p s).1.dbg_mem
unfolding is_stale stale_locked IsTracked
is_stale-IsTracked l p s w = go l s.dbg_mem w
  where
    go :
        (l : Lock) (o : Option Mem)
        → IsTracked o
        → IsTracked (is_stale l p (record s { dbg_mem = o })).1.dbg_mem
    go l none w = tt
    go refused (some m) w = w
    go disabled (some m) w = tt
    go held (some m) w = w
