-- ===== src/KeyValue/Adds.antt =====
-- What an add of src/util.cpp must leave, for the values and the key-value pairs alike: `own` lists
-- the blocks of one cell.
use opentelemetry_c_wrapper.Prelude.{
  ℕ, suc, ◌+◌, ◌≡◌, ap, List, [], ◌∷◌, ◌++◌, arith, take, count, count-append,
}
use opentelemetry_c_wrapper.Heap.{Heap}
use opentelemetry_c_wrapper.Heap.Balance.{Gained}
use opentelemetry_c_wrapper.KeyValue.{Array, with_last, counted, ret_error}
use opentelemetry_c_wrapper.KeyValue.Copies.{Gained-perm}
use opentelemetry_c_wrapper.KeyValue.Store.{
  blocks, owned, blocks-last, blocks-take, IsValid, length-take,
}

next_lem : (n : ℕ) → n + 1 ≡ suc n
next_lem n = omega arith

-- What an add leaves, over a heap.
pub record Adds {A : Type 0} (own : A → List ℕ) (base : Heap) (r : ℕ × Array A × Heap)
    : Type 0 where
  pub valid : IsValid r.1
  pub gained : Gained base (owned own r.1) r.2

module _ {A : Type 0} (own : A → List ℕ) (base : Heap) (a : Array A) (v : IsValid a) where
  abbrev pub used : List ℕ
  used = blocks own a.len a.cells

  last-IsValid : (p : ℕ) (e : A) → IsValid (with_last a p e)
  last-IsValid p e = record {
    room = omega (arith, length-take a.len a.cells (e ∷ []) v.room);
    null_empty = λ q. absurd (cc (q));
  }

  counted-IsValid : (p : ℕ) (e : A) → IsValid (record (with_last a p e) { len = a.len + 1 })
  counted-IsValid p e = record {
    room = omega (arith, length-take a.len a.cells (e ∷ []) v.room);
    null_empty = λ q. absurd (cc (q));
  }

  -- The count of the blocks of the array with `e` as the last cell in use.
  counted-blocks :
      (e : A) (p q : ℕ)
      → count q (owned own (record (with_last a p e) { len = a.len + 1 }))
        ≡ count q (p ∷ used) + count q (own e)
  counted-blocks e p q = omega (
    arith,
    blocks-last own a.len a.cells e q v.room,
    ap (λ n. count q (blocks own n (take a.len a.cells ++ e ∷ []))) (next_lem a.len),
  )

  -- The new cell stays outside the cells in use.
  pub Adds-failed :
      (p : ℕ) (e : A) (h : Heap)
      → Gained base (p ∷ used) h
      → Adds own base (ret_error, with_last a p e, h)
  Adds-failed p e h g = record {
    valid = last-IsValid p e;
    gained =
        Gained-perm base h (p ∷ used) (owned own (with_last a p e))
          (λ q. omega (arith, blocks-take own a.len a.cells (e ∷ []) q v.room)) g;
  }

  pub Adds-counted :
      (p : ℕ) (e : A) (ys : List ℕ) (h : Heap)
      → ((q : ℕ) → count q (own e) ≡ count q ys)
      → Gained base (ys ++ (p ∷ used)) h
      → Adds own base (counted (with_last a p e) h)
  Adds-counted p e ys h w g = record {
    valid = counted-IsValid p e;
    gained =
        Gained-perm base h (ys ++ (p ∷ used))
          (owned own (record (with_last a p e) { len = a.len + 1 }))
          (λ q. omega (arith, counted-blocks e p q, w q, count-append q ys (p ∷ used))) g;
  }
