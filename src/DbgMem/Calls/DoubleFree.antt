-- ===== src/DbgMem/Calls/DoubleFree.antt =====
-- The second free of a block in src/dbg_malloc.cpp: the tracker keeps it from the C library.
use mathlib.Core.Path.{subst}
use opentelemetry_c_wrapper.Prelude.{
  ℕ, zero, suc, ◌≡◌, refl, sym, ap, ◌∙◌, inl, inr, Bool, true, false, not, ◌&&◌, ◌||◌, arith, ◌==◌,
  ==_iff, Bool-cases, Option-cases, if◌then◌else◌, List, [], ◌∷◌, some, set,
}
use opentelemetry_c_wrapper.Heap.{Heap, free}
use opentelemetry_c_wrapper.DbgMem.{
  Mem, Record, State, Header, held, cell, table_record, same_ptr, is_current, is_unset,
  is_wrapper_block, among, is_stale, stale_locked, mem_release, release_locked, release_held,
  drop_record, less_size, counted,
}
use opentelemetry_c_wrapper.DbgMem.Calls.{base_of, is_own, c_free, free_payload, dbg_free}
use opentelemetry_c_wrapper.DbgMem.Slots.{IsSound}
use opentelemetry_c_wrapper.DbgMem.Calls.Released.{
  IsAllocated, IsReleased, dropped-IsReleased, free_again, free_first, is_forged, process,
  scribbled,
}

-- The tracker is there, the record of the block is released, and the C library has scribbled over
-- its header.
record Freed (junk : ℕ → Header) (p : ℕ) (s : State) : Type 0 where
  table : Mem
  there : s.dbg_mem ≡ some table
  released : IsReleased table p
  overwritten : s.header p ≡ junk p

-- A record that is dropped keeps its pointer and is in use no more.
among-set :
    (n : ℕ) (rs : List Record) (i : ℕ) (r : Record) (p : ℕ)
    → r.ptr ≡ (cell rs i).ptr
    → among n (set rs i r) p ≡ among n rs p
unfolding among cell
among-set zero rs i r p e = refl
among-set (suc n) [] i r p e = refl
among-set (suc n) (q ∷ rs) zero r p e = rw e refl
among-set (suc n) (q ∷ rs) (suc i) r p e = rw (among-set n rs i r p e) refl

set-not_current :
    (rs : List Record) (i j : ℕ) (r : Record) (p : ℕ)
    → r.used ≡ false
    → ((cell rs j).used && same_ptr (cell rs j).ptr p) ≡ false
    → ((cell (set rs i r) j).used && same_ptr (cell (set rs i r) j).ptr p) ≡ false
unfolding cell
set-not_current [] i j r p u e = e
set-not_current (q ∷ rs) zero zero r p u e = rw u refl
set-not_current (q ∷ rs) zero (suc j) r p u e = e
set-not_current (q ∷ rs) (suc i) zero r p u e = e
set-not_current (q ∷ rs) (suc i) (suc j) r p u e = set-not_current rs i j r p u e

drop-IsReleased : (m : Mem) (i p : ℕ) → IsReleased m p → IsReleased (drop_record i m) p
unfolding drop_record less_size counted is_current
drop-IsReleased m i p w =
    let d = cell m.data_cells i in
    let r : Record = record { ptr = d.ptr; size = d.size; used = false } in
    record {
      known = among-set m.assigned m.data_cells i r p refl ∙ w.known;
      not_current = λ j. set-not_current m.data_cells i j r p refl (w.not_current j);
    }

c_free-Freed :
    (junk : ℕ → Header) (p x : ℕ) (s : State) → Freed junk p s → Freed junk p (c_free junk x s)
unfolding c_free
c_free-Freed junk p x s w = record {
  table = w.table;
  there = w.there;
  released = w.released;
  overwritten = elim (Bool-cases (p == x)) [
    | inl e ↦ rw e (ap junk (sym ((==_iff p x).0 e)))
    | inr e ↦ rw e w.overwritten
  ];
}

-- A process with a tracker that has released the block.
kept :
    (junk : ℕ → Header) (p : ℕ) (m : Mem) (h : Heap) (hd : ℕ → Header)
    → IsReleased m p
    → hd p ≡ junk p
    → Freed junk p (process m h hd)
kept junk p m h hd w e = record { table = m; there = refl; released = w; overwritten = e }

release-Freed :
    (junk : ℕ → Header) (p x : ℕ) (m : Mem) (h : Heap) (hd : ℕ → Header)
    → IsReleased m p
    → hd p ≡ junk p
    → Freed junk p (release_held x m (process m h hd)).1
unfolding release_held
release-Freed junk p x m h hd w e =
    elim (Bool-cases (is_unset x (hd x).data_ref || not (hd x).magic)) [
      | inl u ↦ rw u (kept junk p m h hd w e)
      | inr u ↦ rw u (elim (Option-cases (table_record m (hd x).data_ref)) [
        | inl t ↦ rw t (kept junk p m h hd w e)
        | inr (i, t) ↦ rw t (elim (Bool-cases (is_current m i x)) [
          | inl c ↦ rw c (kept junk p (drop_record i m) h hd (drop-IsReleased m i p w) e)
          | inr c ↦ rw c (kept junk p m h hd w e)
        ])
      ])
    ]

-- The branches of a free.
branches-Freed :
    (junk : ℕ → Header) (p x : ℕ) (s : State)
    → Freed junk p s
    → (wrapped stale own : Bool) (r : Bool × State) → Freed junk p r.1
    → Freed junk p (
        if not wrapped
        then (if stale then s else c_free junk x s)
        else if own
        then c_free junk (base_of x) s
        else if r.0
        then c_free junk (base_of x) r.1
        else r.1)
branches-Freed junk p x s w false true own r v = w
branches-Freed junk p x s w false false own r v = c_free-Freed junk p x s w
branches-Freed junk p x s w true stale true r v = c_free-Freed junk p (base_of x) s w
branches-Freed junk p x s w true stale false (true, t) v = c_free-Freed junk p (base_of x) t v
branches-Freed junk p x s w true stale false (false, t) v = v

same_process :
    (junk : ℕ → Header) (p : ℕ) (s : State) (w : Freed junk p s)
    → s ≡ process w.table s.heap s.header
same_process junk p s w = ap (λ o. record s { dbg_mem = o }) w.there

free-Freed :
    (junk : ℕ → Header) (p x : ℕ) (s : State)
    → Freed junk p s
    → Freed junk p (free_payload junk held x s)
free-Freed junk p x s w =
    subst (λ t. Freed junk p (free_payload junk held x t)) (sym (same_process junk p s w))
      (go w.table s.heap s.header w.released w.overwritten)
  where
    go :
        (m : Mem) (h : Heap) (hd : ℕ → Header)
        → IsReleased m p
        → hd p ≡ junk p
        → Freed junk p (free_payload junk held x (process m h hd))
    go m h hd v e =
        unfold free_payload in
        unfold is_stale in
        unfold stale_locked in
        unfold mem_release in
        unfold release_locked in
        branches-Freed junk p x (process m h hd) (kept junk p m h hd v e)
          (is_wrapper_block (hd (base_of x))) (among m.assigned m.data_cells (base_of x))
          (is_own (base_of x) (hd (base_of x))) (release_held (base_of x) m (process m h hd))
          (release-Freed junk p (base_of x) m h hd v e)

-- Frees of any pointers, one after the other, under a held tracker.
pub free_each : (ℕ → Header) → List ℕ → State → State
free_each junk [] s = s
free_each junk (y ∷ ys) s = free_each junk ys (dbg_free junk held (some y) s)

free_each-Freed :
    (junk : ℕ → Header) (ys : List ℕ) (p : ℕ) (s : State)
    → Freed junk p s
    → Freed junk p (free_each junk ys s)
unfolding free_each dbg_free
free_each-Freed junk [] p s w = w
free_each-Freed junk (y ∷ ys) p s w = free_each-Freed junk ys p _ (free-Freed junk p y s w)

Freed-again :
    (junk : ℕ → Header) (x : ℕ) (s : State)
    → Freed junk (base_of x) s
    → is_forged (base_of x) (junk (base_of x)) ≡ false
    → free_payload junk held x s ≡ s
Freed-again junk x s w f =
    subst (λ t. free_payload junk held x t ≡ t) (sym (same_process junk (base_of x) s w))
      (free_again junk w.table s.heap s.header x w.released (rw w.overwritten f))

-- In a sound table, a block that a record describes as allocated reaches the C library once: its
-- free passes it on, and after frees of any pointers, its own among them, with no allocation in
-- between that could take its record or its address, one more free of it changes nothing. The
-- calls hold the tracker, the bytes below the block stay readable, and the C library leaves anything
-- there short of a forged header of an untracked block.
pub dbg_free-dbg_free :
    (junk : ℕ → Header) (m : Mem) (h : Heap) (hd : ℕ → Header) (x i : ℕ) (ys : List ℕ)
    → IsSound m
    → IsAllocated m hd (base_of x) i
    → is_forged (base_of x) (junk (base_of x)) ≡ false
    → let s1 = dbg_free junk held (some x) (record { heap = h; header = hd; dbg_mem = some m }) in
      let s2 = free_each junk ys s1 in
      (s1.heap ≡ free (base_of x) h) × (dbg_free junk held (some x) s2 ≡ s2)
unfolding dbg_free
dbg_free-dbg_free junk m h hd x i ys w a f =
    let p = base_of x in
    let first = free_first junk m h hd x i a in
    let s1 = process (drop_record i m) (free p h) (scribbled junk hd p) in
    let start : Freed junk p s1 = record {
      table = drop_record i m;
      there = refl;
      released = dropped-IsReleased m hd p i w a;
      overwritten = ground arith;
    } in
    (
      ap (λ (s : State). s.heap) first,
      rw first (Freed-again junk x (free_each junk ys s1) (free_each-Freed junk ys p s1 start) f),
    )
