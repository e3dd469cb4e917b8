-- ===== src/Registry/Create.antt =====
-- otelc_span_context_create of src/span.cpp on every path: what it owns afterwards, and under which
-- identifier.
use opentelemetry_c_wrapper.Prelude.{
  ℕ, suc, ◌+◌, ◌≤◌, ◌≡◌, refl, ap, ◌∙◌, Bool, true, false, List, [], ◌∷◌, ◌++◌, Option, none, some,
  arith, if◌then◌else◌, count, count-append,
}
use opentelemetry_c_wrapper.Heap.{Heap, malloc, free, refers}
use opentelemetry_c_wrapper.Heap.Balance.{Gained, Gained-free, malloc-balance}
use opentelemetry_c_wrapper.Handle.{Handle, register_handle}
use opentelemetry_c_wrapper.Handle.Find.{register-id}
use opentelemetry_c_wrapper.Handle.Values.{held, held-shards, count-register}
use opentelemetry_c_wrapper.Registry.{
  Process, Context, with_contexts, context_alloc, context_new, enter, add_handle, finish,
  context_create,
}
use opentelemetry_c_wrapper.Registry.Ledger.{
  IsNumbered, IsReady, Accounts, Balanced, held_by, next_of, register-IsNumbered,
  counters-IsNumbered, context_destroy-Accounts,
}

-- The block of a structure that is handed out.
abbrev pub addr_of : Option Context → List ℕ
addr_of none = []
addr_of (some c) = c.addr ∷ []

-- A new structure has the next identifier, which is used up; a failure may use it up.
unfoldable pub IsNext : ℕ → Option Context → ℕ → Type 0
IsNext n none n' = n ≤ n'
IsNext n (some c) n' = (c.idx ≡ n) × (n' ≡ suc n)

-- A creation keeps the account with the structure that it hands out.
unfoldable pub Creates : Heap → List ℕ → Process → Option Context × Process → Type 0
Creates base xs s r = Accounts base (addr_of r.0 ++ xs) s r.1 × IsNext (next_of s) r.0 (next_of r.1)

abbrev at : Process → Heap → Handle ℕ → Process
at s h m = record s { heap = h; span_context = record s.span_context { handles = some m } }

enter-Creates :
    (base : Heap) (xs : List ℕ) (throws : Bool) (c : Context) (v : ℕ) (s : Process) (h : Heap)
    (m : Handle ℕ)
    → IsNumbered m
    → c.idx ≡ next_of s
    → m.id ≡ suc c.idx
    → Gained base (c.addr ∷ v ∷ xs ++ held m) h
    → Creates base xs s (enter throws c v (at s h m))
unfolding enter Creates IsNext IsReady
enter-Creates base xs throws c v s h m w first e g =
    go (register_handle throws m c.idx v) (λ p. count-register p throws m c.idx v w.valid)
      (register-IsNumbered throws m c.idx v (omega (arith, e)) w) (register-id throws m c.idx v)
  where
    go :
        (r : Bool × Handle ℕ)
        → ((p : ℕ) → count p (held r.1) ≡ count p (held m) + (if r.0 then count p (v ∷ []) else 0))
        → IsNumbered r.1
        → r.1.id ≡ m.id
        → Creates base xs s (
            if r.0
            then (some c, with_contexts (at s h m) h r.1)
            else (none, with_contexts (at s h m) (free c.addr (free v h)) r.1))
    go (true, n) q w' i = (
      record {
        balanced = (
          (λ p. omega (
            arith,
            g.0 p,
            q p,
            count-append p (c.addr ∷ v ∷ xs) (held m),
            count-append p (c.addr ∷ xs) (held n),
          )),
          g.1,
        );
        same_span = refl;
        same_count = refl;
        ready = w';
      },
      (first, omega (arith, i, e, first)),
    )
    go (false, n) q w' i =
        let f1 = Gained-free base (c.addr ∷ v ∷ xs ++ held m) (c.addr ∷ xs ++ held n) v h g (λ p.
          omega (
            arith,
            q p,
            count-append p (c.addr ∷ v ∷ xs) (held m),
            count-append p (c.addr ∷ xs) (held n),
          )) in
        (
          record {
            balanced = Gained-free base (c.addr ∷ xs ++ held n) (xs ++ held n) c.addr _ f1 (λ p.
                omega (arith, count-append p (c.addr ∷ xs) (held n), count-append p xs (held n)));
            same_span = refl;
            same_count = refl;
            ready = w';
          },
          omega (arith, i, e, first),
        )

add_handle-Creates :
    (base : Heap) (xs : List ℕ) (throws : Bool) (c : Context) (s : Process) (h : Heap)
    (m : Handle ℕ)
    → IsNumbered m
    → c.idx ≡ next_of s
    → m.id ≡ suc c.idx
    → Gained base (c.addr ∷ xs ++ held m) h
    → Creates base xs s (add_handle throws c (at s h m) (malloc h))
unfolding add_handle
add_handle-Creates base xs throws c s h m w first e g = go (malloc h) (malloc-balance h)
  where
    go :
        (r : Option ℕ × Heap)
        → ((p : ℕ) → count p r.1.live ≡ count p h.live + count p (refers r.0))
          × (r.1.bad_frees ≡ h.bad_frees)
        → Creates base xs s (add_handle throws c (at s h m) r)
    go (some v, h') b = enter-Creates base xs throws c v s h' m w first e (
      (λ p. omega (
        arith,
        g.0 p,
        b.0 p,
        count-append p (c.addr ∷ xs) (held m),
        count-append p (c.addr ∷ v ∷ xs) (held m),
      )),
      b.1 ∙ g.1,
    )
    go (none, h') b =
        unfold Creates IsNext IsReady in
        let d =
          context_destroy-Accounts base xs c (at s h' m)
            ((λ p. omega (arith, g.0 p, b.0 p)), b.1 ∙ g.1) w in
        (
          record {
            balanced = d.0.balanced;
            same_span = d.0.same_span;
            same_count = d.0.same_count;
            ready = d.0.ready;
          },
          omega (arith, d.1, e, first),
        )

new-Creates :
    (base : Heap) (xs : List ℕ) (throws : Bool) (s : Process) (m : Handle ℕ) (h0 : Heap)
    → IsNumbered m
    → m.id ≡ next_of s
    → Gained base (xs ++ held m) h0
    → Creates base xs s (finish throws (context_alloc (at s h0 m) m (malloc h0)))
unfolding finish context_alloc
new-Creates base xs throws s m h0 w first g = go (malloc h0) (malloc-balance h0)
  where
    go :
        (r : Option ℕ × Heap)
        → ((p : ℕ) → count p r.1.live ≡ count p h0.live + count p (refers r.0))
          × (r.1.bad_frees ≡ h0.bad_frees)
        → Creates base xs s (finish throws (context_alloc (at s h0 m) m r))
    go (none, h') b =
        unfold Creates IsNext IsReady in
        let n = record m { alloc_fail_cnt = suc m.alloc_fail_cnt } in
        (
          record {
            balanced = (
              (λ p. omega (
                arith,
                g.0 p,
                b.0 p,
                count-append p xs (held m),
                count-append p xs (held n),
                ap (count p) (held-shards n m refl),
              )),
              b.1 ∙ g.1,
            );
            same_span = refl;
            same_count = refl;
            ready = counters-IsNumbered m n refl (omega arith) w;
          },
          omega (arith, first),
        )
    go (some a, h') b =
        let n = record m { id = suc m.id } in
        let c : Context = record { addr = a; idx = m.id } in
        add_handle-Creates base xs throws c s h' n (counters-IsNumbered m n refl (omega arith) w)
          first refl
          (
            (λ p. omega (
              arith,
              g.0 p,
              b.0 p,
              count-append p xs (held m),
              count-append p (a ∷ xs) (held n),
              ap (count p) (held-shards n m refl),
            )),
            b.1 ∙ g.1,
          )

-- From a process whose blocks are accounted for and whose map is well formed,
-- otelc_span_context_create leaks nothing: whatever the SDK, the allocator and the map answer, the
-- process owns afterwards the structure that is returned and the handles of the map, and no more. A
-- structure gets the next identifier, which no map had before; a failure returns nothing.
pub context_create-Creates :
    (base : Heap) (xs : List ℕ) (sdk throws : Bool) (s : Process)
    → Balanced base xs s
    → IsReady s.span_context.handles
    → Creates base xs s (context_create sdk throws s)
unfolding context_create context_new
context_create-Creates base xs sdk throws s g w = go sdk s.span_context.handles g w
  where
    unchanged :
        (o : Option (Handle ℕ))
        → Gained base (xs ++ held_by o) s.heap
        → IsReady o
        → let t = record s { span_context = record s.span_context { handles = o } } in
          Creates base xs t (none, t)
    unchanged o g w =
        unfold Creates IsNext in
        (record { balanced = g; same_span = refl; same_count = refl; ready = w }, omega arith)

    go :
        (sdk : Bool) (o : Option (Handle ℕ))
        → Gained base (xs ++ held_by o) s.heap
        → IsReady o
        → let t = record s { span_context = record s.span_context { handles = o } } in
          Creates base xs t (context_create sdk throws t)
    go sdk none g w = unchanged none g w
    go false (some m) g w = unchanged (some m) g w
    go true (some m) g w =
        unfold IsReady in
        new-Creates base xs throws
          (record s { span_context = record s.span_context { handles = some m } }) m s.heap w refl g
