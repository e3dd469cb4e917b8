-- ===== src/Registry/Ledger.antt =====
-- Who owns what in the lifecycle of span contexts (src/span.cpp): a block is owned by a structure of
-- the client or by the handle map. The steps of creation and destruction keep the account.
use opentelemetry_c_wrapper.Prelude.{
  ℕ, suc, ◌≤◌, ◌<◌, ◌≡◌, refl, ap, ◌∙◌, Bool, true, false, ◌&&◌, List, [], ◌∷◌, ◌++◌, Option, none,
  some, arith, ◌==◌, if◌then◌else◌, count, count-append,
}
use opentelemetry_c_wrapper.Heap.{Heap, refers}
use opentelemetry_c_wrapper.Heap.Balance.{Gained, Gained-free}
use opentelemetry_c_wrapper.Handle.{Handle, find, register_handle, erase}
use opentelemetry_c_wrapper.Handle.Find.{
  IsValid, find-shards, find-erase, find-register, erase-IsValid, register-IsValid, erase-id,
  register-id,
}
use opentelemetry_c_wrapper.Handle.Values.{held, held-shards, count-erase}
use opentelemetry_c_wrapper.Registry.{Process, Context, erase_found, destroy_known, context_destroy}

abbrev pub held_by : Option (Handle ℕ) → List ℕ
held_by none = []
held_by (some m) = held m

-- The identifier that the next context gets, across the generations of the map.
abbrev pub next_idx : Option (Handle ℕ) → ℕ → ℕ
next_idx none base = base
next_idx (some m) base = m.id

-- A map is well formed, and holds no identifier that is still to be given out.
pub record IsNumbered (m : Handle ℕ) : Type 0 where
  pub valid : IsValid m
  pub unused : (k : ℕ) → m.id ≤ k → find m k ≡ none

unfoldable pub IsReady : Option (Handle ℕ) → Type 0
IsReady none = Unit
IsReady (some m) = IsNumbered m

-- The heap of the process has the listed blocks and the handles of the context map over `base`.
abbrev pub Balanced : Heap → List ℕ → Process → Type 0
Balanced base xs s = Gained base (xs ++ held_by s.span_context.handles) s.heap

-- Only the counters differ, and the next identifier does not go down.
pub counters-IsNumbered :
    (m n : Handle ℕ) → n.shards ≡ m.shards → m.id ≤ n.id → IsNumbered m → IsNumbered n
counters-IsNumbered m n e le w = record {
  valid = record {
    some_shard = rw e w.valid.some_shard;
    distinct = λ i. rw e (w.valid.distinct i);
  };
  unused = λ k h. find-shards n m k e ∙ w.unused k (omega (arith, h, le));
}

erase-IsNumbered : (m : Handle ℕ) (k : ℕ) → IsNumbered m → IsNumbered (erase m k)
erase-IsNumbered m k w = record {
  valid = erase-IsValid m k w.valid;
  unused =
      λ j h. find-erase m k w.valid j ∙ ground (arith, w.unused j (omega (arith, erase-id m k, h)));
}

pub register-IsNumbered :
    (throws : Bool) (m : Handle ℕ) (k v : ℕ)
    → k < m.id
    → IsNumbered m
    → IsNumbered (register_handle throws m k v).1
register-IsNumbered throws m k v b w = record {
  valid = register-IsValid throws m k v w.valid;
  unused = λ j h.
      let le : m.id ≤ j = omega (arith, register-id throws m k v, h) in
      let ne : (j == k) ≡ false = ground (arith, b, le) in
      find-register throws m k v w.valid j
      ∙ rw (ne) (and_false (register_handle throws m k v).0 ∙ w.unused j le);
}
  where
    and_false : {o : Option ℕ} (b : Bool) → (if b && false then some v else o) ≡ o
    and_false true = refl
    and_false false = refl

abbrev pub next_of : Process → ℕ
next_of s = next_idx s.span_context.handles s.span_context.id_base

-- A step keeps the account with the listed blocks, the other map, and a well-formed map.
pub record Accounts (base : Heap) (xs : List ℕ) (s s' : Process) : Type 0 where
  pub balanced : Balanced base xs s'
  pub same_span : s'.span ≡ s.span
  pub same_count : s'.tracer_count ≡ s.tracer_count
  pub ready : IsReady s'.span_context.handles

abbrev at : Process → Heap → Option (Handle ℕ) → Process
at s h o = record s { heap = h; span_context = record s.span_context { handles = o } }

-- The map and the heap after the handle of an identifier was deleted, if there was one.
pub erased :
    (base : Heap) (xs : List ℕ) (k : ℕ) (m : Handle ℕ) (h : Heap) (o : Option ℕ)
    → find m k ≡ o
    → IsNumbered m
    → Gained base (xs ++ held m) h
    → let r = erase_found o k m h in
      Gained base (xs ++ held r.0) r.1 × IsNumbered r.0 × (r.0.id ≡ m.id)
unfolding erase_found
erased base xs k m h none e w g =
    let n = record m { destroy_cnt = suc m.destroy_cnt } in
    (
      (
        (λ p. omega (
          arith,
          g.0 p,
          count-append p xs (held m),
          count-append p xs (held n),
          ap (count p) (held-shards n m refl),
        )),
        g.1,
      ),
      counters-IsNumbered m n refl (omega arith) w,
      refl,
    )
erased base xs k m h (some v) e w g =
    let m1 = erase m k in
    let n = record m1 { erase_cnt = suc m1.erase_cnt; destroy_cnt = suc m1.destroy_cnt } in
    (
      Gained-free base (xs ++ held m) (xs ++ held n) v h g (λ p. omega (
        arith,
        count-append p xs (held m),
        count-append p xs (held n),
        ap (count p) (held-shards n m1 refl),
        count-erase p m k w.valid,
        ap (λ r. count p (refers r)) e,
      )),
      counters-IsNumbered m1 n refl (omega arith) (erase-IsNumbered m k w),
      erase-id m k,
    )

-- A destruction gives up the structure and the handle under its identifier, if there is one.
pub context_destroy-Accounts :
    (base : Heap) (xs : List ℕ) (c : Context) (s : Process)
    → Balanced base (c.addr ∷ xs) s
    → IsReady s.span_context.handles
    → Accounts base xs s (context_destroy c s) × (next_of (context_destroy c s) ≡ next_of s)
unfolding context_destroy destroy_known IsReady
context_destroy-Accounts base xs c s g w = go s.span_context.handles g w
  where
    go :
        (o : Option (Handle ℕ))
        → Gained base (c.addr ∷ xs ++ held_by o) s.heap
        → IsReady o
        → let s' = context_destroy c (at s s.heap o) in
          Accounts base xs s s' × (next_of s' ≡ next_idx o s.span_context.id_base)
    go none g w = (
      record {
        balanced =
            Gained-free base (c.addr ∷ xs ++ []) (xs ++ []) c.addr s.heap g
              (λ p. omega (arith, count-append p (c.addr ∷ xs) [], count-append p xs []));
        same_span = refl;
        same_count = refl;
        ready = tt;
      },
      refl,
    )
    go (some m) g w =
        let e = erased base (c.addr ∷ xs) c.idx m s.heap (find m c.idx) refl w g in
        let n = (erase_found (find m c.idx) c.idx m s.heap).0 in
        (
          record {
            balanced = Gained-free base (c.addr ∷ xs ++ held n) (xs ++ held n) c.addr _ e.0 (λ p.
                omega (arith, count-append p (c.addr ∷ xs) (held n), count-append p xs (held n)));
            same_span = refl;
            same_count = refl;
            ready = e.1;
          },
          e.2,
        )
