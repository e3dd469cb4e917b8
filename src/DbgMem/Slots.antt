-- ===== src/DbgMem/Slots.antt =====
-- The search for a free record in otelc_dbg_mem_alloc of src/dbg_malloc.cpp: the round robin over
-- the table finds one whenever there is one.
use opentelemetry_c_wrapper.Prelude.{
  ℕ, zero, suc, ◌+◌, ◌-◌, ◌%◌, ◌≤◌, ◌<◌, ◌≡◌, refl, sym, ◌∙◌, ◌⊎◌, inl, inr, Bool, true, false,
  arith, ltb, leb, Bool-cases, if◌then◌else◌, length, ltb→lt,
}
use opentelemetry_c_wrapper.DbgMem.{Mem, cell, scan, find_slot, used_size, word}

abbrev pub used_at : Mem → ℕ → Bool
used_at m i = (cell m.data_cells i).used

-- The record that the search looks at `t` rounds after the cursor.
wrap : ℕ → ℕ → ℕ → ℕ
wrap count r t = if ltb (r + t) count then r + t else r + t - count

wrap_next :
    (count r t : ℕ)
    → r ≤ count
    → suc t < count
    → wrap count (suc (if leb count r then 0 else r)) t ≡ wrap count r (suc t)
unfolding wrap
wrap_next count r t h b = ground arith

-- What the loop leaves after `fuel` rounds: a free record, or as many used records.
Scanned : Mem → ℕ → ℕ → ℕ → ℕ × ℕ → Type 0
Scanned m fuel idx r (j, c) =
    ((j < m.count) × (used_at m j ≡ false) × (c ≡ suc j))
    ⊎ ((j ≡ idx + fuel)
        × (c ≤ m.count)
        × ((t : ℕ) → t < fuel → used_at m (wrap m.count r t) ≡ true))

scan-Scanned :
    (m : Mem) (fuel idx r : ℕ)
    → 0 < m.count
    → r ≤ m.count
    → fuel ≤ m.count
    → Scanned m fuel idx r (scan fuel idx r m)
unfolding scan Scanned wrap
scan-Scanned m zero idx r n h b = inr (omega arith, h, λ t lt. absurd (omega arith))
scan-Scanned m (suc fuel) idx r n h b =
    let start = if leb m.count r then 0 else r in
    let in_range : start < m.count = ground arith in
    elim (Bool-cases (used_at m start)) [
      | inr free ↦ rw free (inl (in_range, free, refl))
      | inl taken ↦ rw taken (
          go (scan-Scanned m fuel (suc idx) (suc start) n (omega (arith, in_range)) (omega arith))
            taken)
    ]
  where
    first : wrap m.count r 0 ≡ (if leb m.count r then 0 else r)
    first = ground arith

    first_used :
        used_at m (if leb m.count r then 0 else r) ≡ true → used_at m (wrap m.count r 0) ≡ true
    first_used taken = rw first taken

    rounds :
        used_at m (if leb m.count r then 0 else r) ≡ true
        → ((t : ℕ)
            → t < fuel
            → used_at m (wrap m.count (suc (if leb m.count r then 0 else r)) t) ≡ true)
        → (t : ℕ) → t < suc fuel
        → used_at m (wrap m.count r t) ≡ true
    rounds taken f zero lt = first_used taken
    rounds taken f (suc t) lt = rw (← wrap_next m.count r t h (omega arith)) (f t (omega arith))

    go :
        Scanned m fuel
          (suc idx)
          (suc (if leb m.count r then 0 else r))
          (scan fuel (suc idx) (suc (if leb m.count r then 0 else r)) m)
        → used_at m (if leb m.count r then 0 else r) ≡ true
        → Scanned m (suc fuel) idx r (scan fuel (suc idx) (suc (if leb m.count r then 0 else r)) m)
    go (inl w) taken = inl w
    go (inr w) taken = inr (omega (arith, w.0), w.1, rounds taken w.2)

-- The round in which the search looks at a record.
round : ℕ → ℕ → ℕ → ℕ
round count r i = if leb r i then i - r else i + count - r

wrap-round :
    (count r i : ℕ)
    → r ≤ count
    → i < count
    → (round count r i < count) × (wrap count r (round count r i) ≡ i)
unfolding wrap round
wrap-round count r i h b = ground arith

-- A table is sound if its cursors lie in it, the records behind the high-water mark are not in
-- use, and the size is the sum of the sizes in use, in the 64 bits of the counter.
pub record IsSound (m : Mem) : Type 0 where
  pub filled : length m.data_cells ≡ m.count
  pub some_cell : 0 < m.count
  pub assigned_bound : m.assigned ≤ m.count
  pub reused_bound : m.reused ≤ m.count
  pub fresh : (i : ℕ) → m.assigned ≤ i → used_at m i ≡ false
  pub sized : m.size ≡ used_size m.data_cells % word

-- On a sound table the search of otelc_dbg_mem_alloc ends at a record that is not in use and below
-- the high-water mark, or at the index count, which means that every record is in use. It
-- leaves the table sound, with the same records, count and size.
pub find_slot-Finds :
    (m : Mem)
    → IsSound m
    → let (i, n) = find_slot m in
      (((i < m.count) × (used_at m i ≡ false) × (i < n.assigned))
        ⊎ ((i ≡ m.count) × ((j : ℕ) → used_at m j ≡ ltb j m.count)))
      × IsSound n
      × (n.data_cells ≡ m.data_cells)
      × (n.count ≡ m.count)
      × (n.size ≡ m.size)
unfolding find_slot Scanned
find_slot-Finds m w = elim (Bool-cases (ltb m.assigned m.count)) [
  | inl more ↦
      let lt = ltb→lt m.assigned m.count more in
      rw more (
        inl (lt, w.fresh m.assigned (omega arith), omega arith),
        record {
          filled = w.filled;
          some_cell = w.some_cell;
          assigned_bound = omega (arith, lt);
          reused_bound = w.reused_bound;
          fresh = λ i h. w.fresh i (omega (arith, h));
          sized = w.sized;
        },
        refl,
        refl,
        refl,
      )
  | inr full ↦
      let all : m.assigned ≡ m.count = ground (arith, w.assigned_bound) in
      rw full (
        go (scan m.count 0 m.reused m) all
          (scan-Scanned m m.count 0 m.reused w.some_cell w.reused_bound (omega arith)))
]
  where
    moved-IsSound : (c : ℕ) → c ≤ m.count → IsSound (record m { reused = c })
    moved-IsSound c h = record {
      filled = w.filled;
      some_cell = w.some_cell;
      assigned_bound = w.assigned_bound;
      reused_bound = h;
      fresh = w.fresh;
      sized = w.sized;
    }

    every :
        ((t : ℕ) → t < m.count → used_at m (wrap m.count m.reused t) ≡ true)
        → (j : ℕ) → j < m.count
        → used_at m j ≡ true
    every f j lt =
        let q = wrap-round m.count m.reused j w.reused_bound lt in
        rw (← q.1) (f (round m.count m.reused j) q.0)

    all_used :
        ((t : ℕ) → t < m.count → used_at m (wrap m.count m.reused t) ≡ true)
        → (j : ℕ) → used_at m j ≡ ltb j m.count
    all_used f j = elim (Bool-cases (ltb j m.count)) [
      | inl e ↦ every f j (ltb→lt j m.count e) ∙ sym e
      | inr e ↦ w.fresh j (ground (arith, e, w.assigned_bound)) ∙ sym e
    ]

    go :
        (r : ℕ × ℕ)
        → m.assigned ≡ m.count
        → Scanned m m.count 0 m.reused r
        → let n = record m { reused = r.1 } in
          (((r.0 < m.count) × (used_at m r.0 ≡ false) × (r.0 < n.assigned))
            ⊎ ((r.0 ≡ m.count) × ((j : ℕ) → used_at m j ≡ ltb j m.count)))
          × IsSound n
          × (n.data_cells ≡ m.data_cells)
          × (n.count ≡ m.count)
          × (n.size ≡ m.size)
    go (i, c) all (inl v) = (
      inl (v.0, v.1, omega (arith, v.0, all)),
      moved-IsSound c (omega (arith, v.0, v.2)),
      refl,
      refl,
      refl,
    )
    go (i, c) all (inr v) =
        (inr (omega (arith, v.0), all_used v.2), moved-IsSound c v.1, refl, refl, refl)
