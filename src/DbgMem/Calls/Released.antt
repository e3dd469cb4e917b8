-- ===== src/DbgMem/Calls/Released.antt =====
-- A block of src/dbg_malloc.cpp whose record was released: what otelc_dbg_free does to it, and to one that
-- is still allocated.
use opentelemetry_c_wrapper.Prelude.{
  ℕ, zero, suc, ◌<◌, ◌≡◌, refl, ap, ◌∙◌, inl, inr, Bool, true, false, not, ◌&&◌, ◌||◌, arith, ◌==◌,
  ==_iff, Bool-cases, Option-cases, if◌then◌else◌, List, [], ◌∷◌, Option, none, some, length, set,
  length-set,
}
use opentelemetry_c_wrapper.Heap.{Heap, free}
use opentelemetry_c_wrapper.DbgMem.{
  Mem, Record, State, Header, Ref, null, block, address, held, cell, table_record, record_address,
  same_ptr, is_current, is_unset, is_wrapper_block, among, is_stale, stale_locked, mem_release,
  release_locked, release_held, drop_record, less_size, counted,
}
use opentelemetry_c_wrapper.DbgMem.Calls.{base_of, is_own, c_free, free_payload}
use opentelemetry_c_wrapper.DbgMem.Slots.{IsSound}
use opentelemetry_c_wrapper.DbgMem.Size.{cell-set}

abbrev pub process : Mem → Heap → (ℕ → Header) → State
process m h hd = record { heap = h; header = hd; dbg_mem = some m }

among-true :
    (n : ℕ) (rs : List Record) (i p : ℕ)
    → i < n
    → i < length rs
    → (cell rs i).ptr ≡ some p
    → among n rs p ≡ true
unfolding among cell same_ptr
among-true zero rs i p h b e = absurd (omega arith)
among-true (suc n) [] i p h b e = absurd (omega arith)
among-true (suc n) (r ∷ rs) zero p h b e = rw e (ground arith)
among-true (suc n) (r ∷ rs) (suc i) p h b e =
    rw (among-true n rs i p (omega arith) (omega arith) e) (Bool-true (same_ptr r.ptr p))
  where
    Bool-true : (b : Bool) → (b || true) ≡ true
    Bool-true true = refl
    Bool-true false = refl

-- A block whose record was released: some record that was assigned has its base, and none describes
-- it as allocated.
pub record IsReleased (m : Mem) (p : ℕ) : Type 0 where
  pub known : among m.assigned m.data_cells p ≡ true
  pub not_current : (i : ℕ) → is_current m i p ≡ false

-- Whatever is left in place of the header, short of a forged header of an untracked block.
unfoldable pub is_forged : ℕ → Header → Bool
is_forged p h = is_own p h && h.magic

wrapper-magic : (q : Header) → is_wrapper_block q ≡ true → q.magic ≡ true
unfolding is_wrapper_block
wrapper-magic q e = go q.data_ref q.magic e
  where
    go :
        (r : Ref) (g : Bool)
        → is_wrapper_block (record { data_ref = r; magic = g }) ≡ true
        → g ≡ true
    go null g e = absurd (cc (e))
    go (block b) g e = e
    go (address a) g e = e

set-unset :
    (p : ℕ) (r : Ref) (g : Bool)
    → is_wrapper_block (record { data_ref = r; magic = g }) ≡ true
    → is_own p (record { data_ref = r; magic = g }) ≡ false
    → (is_unset p r || not g) ≡ false
unfolding is_wrapper_block is_own is_unset
set-unset p null g a b = absurd (cc (a))
set-unset p (block q) true a b = rw b refl
set-unset p (block q) false a b = absurd (cc (a))
set-unset p (address q) true a b = refl
set-unset p (address q) false a b = absurd (cc (a))

release_again :
    (m : Mem) (h : Heap) (hd : ℕ → Header) (p : ℕ)
    → IsReleased m p
    → is_wrapper_block (hd p) ≡ true
    → is_own p (hd p) ≡ false
    → release_held p m (process m h hd) ≡ (false, process m h hd)
unfolding release_held
release_again m h hd p w a b = elim (Option-cases (table_record m (hd p).data_ref)) [
  | inl t ↦ rw (set-unset p (hd p).data_ref (hd p).magic a b, t) refl
  | inr (i, t) ↦ rw (set-unset p (hd p).data_ref (hd p).magic a b, t, w.not_current i) refl
]

pub free_again :
    (junk : ℕ → Header) (m : Mem) (h : Heap) (hd : ℕ → Header) (x : ℕ)
    → IsReleased m (base_of x)
    → is_forged (base_of x) (hd (base_of x)) ≡ false
    → free_payload junk held x (process m h hd) ≡ process m h hd
unfolding free_payload is_stale stale_locked mem_release release_locked is_forged
free_again junk m h hd x w f =
    let p = base_of x in
    elim (Bool-cases (is_wrapper_block (hd p))) [
      | inr a ↦ rw (a, w.known) refl
      | inl a ↦
          let own : is_own p (hd p) ≡ false = ground (arith, f, wrapper-magic (hd p) a) in
          rw (a, own, release_again m h hd p w a own) refl
    ]

-- A block that is allocated: its header refers to a record of the table, which is the only one that
-- describes it as allocated.
pub record IsAllocated (m : Mem) (hd : ℕ → Header) (p i : ℕ) : Type 0 where
  pub header : hd p ≡ record { data_ref = address (record_address m i); magic = true }
  pub record_found : table_record m (address (record_address m i)) ≡ some i
  pub current : is_current m i p ≡ true
  pub assigned : i < m.assigned
  pub only : (j : ℕ) → is_current m j p ≡ true → j ≡ i

current_ptr : (m : Mem) (i p : ℕ) → is_current m i p ≡ true → (cell m.data_cells i).ptr ≡ some p
unfolding is_current same_ptr
current_ptr m i p e = go (cell m.data_cells i).used (cell m.data_cells i).ptr e
  where
    go : (u : Bool) (o : Option ℕ) → (u && same_ptr o p) ≡ true → o ≡ some p
    go false o e = absurd (cc (e))
    go true none e = absurd (cc (e))
    go true (some q) e = ap some ((==_iff q p).0 e)

pub dropped-IsReleased :
    (m : Mem) (hd : ℕ → Header) (p i : ℕ)
    → IsSound m
    → IsAllocated m hd p i
    → IsReleased (drop_record i m) p
unfolding drop_record less_size counted is_current
dropped-IsReleased m hd p i w a =
    let d = cell m.data_cells i in
    let r : Record = record { ptr = d.ptr; size = d.size; used = false } in
    let b : i < length m.data_cells = omega (arith, w.filled, w.assigned_bound, a.assigned) in
    record {
      known =
          among-true m.assigned (set m.data_cells i r) i p a.assigned
            (omega (arith, length-set m.data_cells i r, b))
            (ap (λ (q : Record). q.ptr) (cell-set m.data_cells i i r b)
              ∙ ground (arith, current_ptr m i p a.current));
      not_current = λ j. rw (cell-set m.data_cells i j r b) (elim (Bool-cases (j == i)) [
        | inl e ↦ rw e refl
        | inr e ↦ rw e (elim (Bool-cases (is_current m j p)) [
          | inl c ↦ absurd (ground (arith, a.only j c, e))
          | inr c ↦ c
        ])
      ]);
    }

release_first :
    (m : Mem) (h : Heap) (hd : ℕ → Header) (p i : ℕ)
    → IsAllocated m hd p i
    → release_held p m (process m h hd) ≡ (true, process (drop_record i m) h hd)
unfolding release_held is_unset
release_first m h hd p i a = rw (a.header, a.record_found, a.current) refl

abbrev pub scribbled : (ℕ → Header) → (ℕ → Header) → ℕ → ℕ → Header
scribbled junk hd p q = if q == p then junk p else hd q

pub free_first :
    (junk : ℕ → Header) (m : Mem) (h : Heap) (hd : ℕ → Header) (x i : ℕ)
    → IsAllocated m hd (base_of x) i
    → free_payload junk held x (process m h hd)
      ≡ process (drop_record i m) (free (base_of x) h) (scribbled junk hd (base_of x))
unfolding free_payload mem_release release_locked c_free is_wrapper_block is_own
free_first junk m h hd x i a =
    let p = base_of x in
    let wrapped : is_wrapper_block (hd p) ≡ true = rw a.header refl in
    let own : is_own p (hd p) ≡ false = rw a.header refl in
    simp (wrapped, own, release_first m h hd p i a) refl
