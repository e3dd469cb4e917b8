-- ===== src/Registry/Spans.antt =====
-- The structures of spans in src/span.cpp: otel_span_new and otel_nolock_span_destroy over the map of
-- spans, and otel_span_context_destroy, which takes the shard lock for a context.
use opentelemetry_c_wrapper.Prelude.{
  ℕ, suc, ◌+◌, ◌≡◌, refl, ◌∙◌, Bool, true, false, List, [], ◌∷◌, ◌++◌, Option, none, some, arith,
  count, count-append, ap, inl, inr, ◌==◌, ==_iff, Bool-cases, if◌then◌else◌,
}
use opentelemetry_c_wrapper.Heap.{Heap, malloc, free, refers}
use opentelemetry_c_wrapper.Heap.Balance.{Gained, Gained-free, malloc-balance}
use opentelemetry_c_wrapper.Handle.{Handle, find, erase}
use opentelemetry_c_wrapper.Handle.Find.{find-shards, find-erase}
use opentelemetry_c_wrapper.Handle.Values.{held, held-shards}
use opentelemetry_c_wrapper.Registry.{Process, Context, erase_found, context_destroy}
use opentelemetry_c_wrapper.Registry.Ledger.{
  IsNumbered, IsReady, held_by, next_idx, erased, counters-IsNumbered,
}
use opentelemetry_c_wrapper.Registry.Create.{addr_of, IsNext}

abbrev with_spans : Process → Heap → Handle ℕ → Process
with_spans s h m = record s { heap = h; span = record s.span { handles = some m } }

-- otel_span_new, where the flag says that the tracer is there. A tracer that is alive has its maps; the
-- code reads the map without a test.
span_alloc : Process → Handle ℕ → Option ℕ × Heap → Option Context × Process
span_alloc s m (none, h) =
    (none, with_spans s h (record m { alloc_fail_cnt = suc m.alloc_fail_cnt }))
span_alloc s m (some a, h) =
    (some (record { addr = a; idx = m.id }), with_spans s h (record m { id = suc m.id }))

pub span_new : Bool → Process → Option Context × Process
unfolding span_alloc
span_new tracer s = elim s.span.handles [
  | none ↦ (none, s)
  | some m ↦ elim tracer [ false ↦ (none, s) | true ↦ span_alloc s m (malloc s.heap) ]
]

-- otel_nolock_span_destroy: the pointer is cleared.
span_destroy_known : Context → Handle ℕ → Process → Process
span_destroy_known c m s =
    let (n, h) = erase_found (find m c.idx) c.idx m s.heap in with_spans s (free c.addr h) n

pub span_destroy : Option Context → Process → Option Context × Process
unfolding span_destroy_known
span_destroy none s = (none, s)
span_destroy (some c) s = elim s.span.handles [
  | none ↦ (none, record s { heap = free c.addr s.heap })
  | some m ↦ (none, span_destroy_known c m s)
]

-- otel_span_context_destroy: the lock is taken only while the maps are there.
pub context_destroy_locked : Option Context → Process → Option Context × Process
context_destroy_locked none s = (none, s)
context_destroy_locked (some c) s = (none, context_destroy c s)

-- The heap of the process has the listed blocks and the handles of the span map over `base`, and the
-- span map is well formed.
pub record HasSpans (base : Heap) (xs : List ℕ) (s : Process) : Type 0 where
  pub balanced : Gained base (xs ++ held_by s.span.handles) s.heap
  pub ready : IsReady s.span.handles

abbrev pub next_span : Process → ℕ
next_span s = next_idx s.span.handles s.span.id_base

abbrev at : Process → Option (Handle ℕ) → Process
at s o = record s { span = record s.span { handles = o } }

-- In a process whose blocks are accounted for and whose span map is well formed, otel_span_new hands
-- out one block with the next identifier of the span map, or nothing; the contexts are not touched.
pub span_new-HasSpans :
    (base : Heap) (xs : List ℕ) (tracer : Bool) (s : Process)
    → HasSpans base xs s
    → let r = span_new tracer s in
      HasSpans base (addr_of r.0 ++ xs) r.1
      × IsNext (next_span s) r.0 (next_span r.1)
      × (r.1.span_context ≡ s.span_context)
unfolding span_new span_alloc IsReady IsNext
span_new-HasSpans base xs tracer s w = go tracer s.span.handles w.balanced w.ready
  where
    fill :
        (m : Handle ℕ)
        → IsNumbered m
        → Gained base (xs ++ held m) s.heap
        → (q : Option ℕ × Heap)
        → ((p : ℕ) → count p q.1.live ≡ count p s.heap.live + count p (refers q.0))
          × (q.1.bad_frees ≡ s.heap.bad_frees)
        → let r = span_alloc (at s (some m)) m q in
          HasSpans base (addr_of r.0 ++ xs) r.1
          × IsNext m.id r.0 (next_span r.1)
          × (r.1.span_context ≡ s.span_context)
    fill m w g (none, h) b =
        let n = record m { alloc_fail_cnt = suc m.alloc_fail_cnt } in
        (
          record {
            balanced = (
              (λ p. omega (
                arith,
                g.0 p,
                b.0 p,
                count-append p xs (held m),
                count-append p xs (held n),
                ap (count p) (held-shards n m refl),
              )),
              b.1 ∙ g.1,
            );
            ready = counters-IsNumbered m n refl (omega arith) w;
          },
          omega arith,
          refl,
        )
    fill m w g (some a, h) b =
        let n = record m { id = suc m.id } in
        (
          record {
            balanced = (
              (λ p. omega (
                arith,
                g.0 p,
                b.0 p,
                count-append p xs (held m),
                count-append p (a ∷ xs) (held n),
                ap (count p) (held-shards n m refl),
              )),
              b.1 ∙ g.1,
            );
            ready = counters-IsNumbered m n refl (omega arith) w;
          },
          (refl, refl),
          refl,
        )

    go :
        (tracer : Bool) (o : Option (Handle ℕ))
        → Gained base (xs ++ held_by o) s.heap
        → IsReady o
        → let r = span_new tracer (at s o) in
          HasSpans base (addr_of r.0 ++ xs) r.1
          × IsNext (next_span (at s o)) r.0 (next_span r.1)
          × (r.1.span_context ≡ s.span_context)
    go tracer none g w = (record { balanced = g; ready = w }, omega arith, refl)
    go false (some m) g w = (record { balanced = g; ready = w }, omega arith, refl)
    go true (some m) g w = fill m w g (malloc s.heap) (malloc-balance s.heap)

-- The deletion of a handle empties its identifier and no other.
erased-find :
    (i : ℕ) (m : Handle ℕ) (h : Heap) (o : Option ℕ)
    → find m i ≡ o
    → IsNumbered m
    → (k : ℕ) → find (erase_found o i m h).0 k ≡ (if k == i then none else find m k)
unfolding erase_found
erased-find i m h none e w k = elim (Bool-cases (k == i)) [
  | inl q ↦ rw q (find-shards _ m k refl ∙ ap (find m) ((==_iff k i).0 q) ∙ e)
  | inr q ↦ rw q (find-shards _ m k refl)
]
erased-find i m h (some v) e w k = find-shards _ (erase m i) k refl ∙ find-erase m i w.valid k

-- The handle that the span map has under an identifier, none where there is no map.
pub span_at : Process → ℕ → Option ℕ
span_at s k = elim s.span.handles [ none ↦ none | some m ↦ find m k ]

-- In a process whose blocks are accounted for, whose span map is well formed and which holds the
-- structure, otel_nolock_span_destroy frees the structure and the handle under its identifier, if
-- there is one, each once, takes that handle out of the map and no other, clears the pointer and
-- leaves the numbering and the contexts alone, also when the maps are gone.
pub span_destroy-HasSpans :
    (base : Heap) (xs : List ℕ) (c : Context) (s : Process)
    → HasSpans base (c.addr ∷ xs) s
    → let r = span_destroy (some c) s in
      HasSpans base xs r.1
      × ((k : ℕ) → span_at r.1 k ≡ (if k == c.idx then none else span_at s k))
      × (r.0 ≡ none)
      × (next_span r.1 ≡ next_span s)
      × (r.1.span_context ≡ s.span_context)
unfolding span_destroy span_destroy_known IsReady span_at
span_destroy-HasSpans base xs c s w = go s.span.handles w.balanced w.ready
  where
    go :
        (o : Option (Handle ℕ))
        → Gained base (c.addr ∷ xs ++ held_by o) s.heap
        → IsReady o
        → let r = span_destroy (some c) (at s o) in
          HasSpans base xs r.1
          × ((k : ℕ) → span_at r.1 k ≡ (if k == c.idx then none else span_at (at s o) k))
          × (r.0 ≡ none)
          × (next_span r.1 ≡ next_span (at s o))
          × (r.1.span_context ≡ s.span_context)
    go none g w = (
      record {
        balanced =
            Gained-free base (c.addr ∷ xs ++ []) (xs ++ []) c.addr s.heap g
              (λ p. omega (arith, count-append p (c.addr ∷ xs) [], count-append p xs []));
        ready = tt;
      },
      (λ k. same (k == c.idx)),
      refl,
      refl,
      refl,
    )
      where
        same : (b : Bool) → none ≡ (if◌then◌else◌ {A = Option ℕ} b none none)
        same true = refl
        same false = refl
    go (some m) g w =
        let e = erased base (c.addr ∷ xs) c.idx m s.heap (find m c.idx) refl w g in
        let n = (erase_found (find m c.idx) c.idx m s.heap).0 in
        (
          record {
            balanced = Gained-free base (c.addr ∷ xs ++ held n) (xs ++ held n) c.addr _ e.0 (λ p.
                omega (arith, count-append p (c.addr ∷ xs) (held n), count-append p xs (held n)));
            ready = e.1;
          },
          erased-find c.idx m s.heap (find m c.idx) refl w,
          refl,
          e.2,
          refl,
        )
