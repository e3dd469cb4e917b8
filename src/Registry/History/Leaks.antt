-- ===== src/Registry/History/Leaks.antt =====
-- The account over whole histories of src/tracer.cpp and src/span.cpp: nothing leaks, nothing is freed
-- twice, and no two live structures share an identifier.
use mathlib.Core.Path.{subst}
use opentelemetry_c_wrapper.Prelude.{
  ℕ, ◌+◌, ◌-◌, ◌%◌, ◌^◌, ◌≡◌, refl, sym, ap, ◌∙◌, inl, inr, Bool, List, [], ◌∷◌, ◌++◌, Option,
  arith, ◌==◌, Bool-cases, count-append,
}
use opentelemetry_c_wrapper.Heap.{Heap}
use opentelemetry_c_wrapper.Heap.Balance.{Gained}
use opentelemetry_c_wrapper.Handle.{Handle}
use opentelemetry_c_wrapper.Registry.{
  Process, Context, tracer_register, tracer_unregister, tear_down, init_map,
}
use opentelemetry_c_wrapper.Registry.Ledger.{IsReady, held_by, next_idx}
use opentelemetry_c_wrapper.Registry.Maps.{
  Carries, Carries-refl, init_map-Carries, tear_down-Gained,
}
use opentelemetry_c_wrapper.Registry.History.{
  Event, create, destroy, tracer_start, tracer_end, step, run, addrs, AreBelow, IsAccounted,
  create-IsAccounted, destroy-IsAccounted,
}

-- Maps that carry the same handles and numbers carry the account.
carried-IsAccounted :
    (base : Heap) (cs : List Context) (s s' : Process)
    → s'.heap ≡ s.heap
    → Carries s.span s'.span
    → Carries s.span_context s'.span_context
    → IsAccounted base (cs, s)
    → IsAccounted base (cs, s')
carried-IsAccounted base cs s s' e a b w = record {
  balanced = rw e (
    (λ p. omega (
      arith,
      w.balanced.0 p,
      a.same_held p,
      b.same_held p,
      count-append p (addrs cs ++ held_by s.span.handles) (held_by s.span_context.handles),
      count-append p (addrs cs) (held_by s.span.handles),
      count-append p (addrs cs ++ held_by s'.span.handles) (held_by s'.span_context.handles),
      count-append p (addrs cs) (held_by s'.span.handles),
    )),
    w.balanced.1,
  );
  ready = b.ready w.ready;
  below = rw b.same_next w.below;
  distinct = w.distinct;
}

start-IsAccounted :
    (base : Heap) (memory1 memory2 : Bool) (shards : ℕ) (cs : List Context) (s : Process)
    → IsAccounted base (cs, s)
    → IsAccounted base (cs, (tracer_register memory1 memory2 shards s).1)
unfolding tracer_register
start-IsAccounted base memory1 memory2 shards cs s w =
    let a = init_map-Carries memory1 shards s.span in
    let b = init_map-Carries memory2 shards s.span_context in
    elim (Bool-cases (init_map memory1 shards s.span).0) [
      | inl e ↦ rw e (
          carried-IsAccounted base cs s
            (record {
              heap = s.heap;
              span = (init_map memory1 shards s.span).1;
              span_context = (init_map memory2 shards s.span_context).1;
              tracer_count = (s.tracer_count + 1) % 2 ^ 32;
            })
            refl a b w)
      | inr e ↦ rw e (
          carried-IsAccounted base cs s
            (record {
              heap = s.heap;
              span = (init_map memory1 shards s.span).1;
              span_context = s.span_context;
              tracer_count = (s.tracer_count + 1) % 2 ^ 32;
            })
            refl a (Carries-refl s.span_context) w)
    ]

end-IsAccounted :
    (base : Heap) (cs : List Context) (s : Process)
    → IsAccounted base (cs, s)
    → IsAccounted base (cs, tracer_unregister s)
unfolding tracer_unregister IsReady
end-IsAccounted base cs s w =
    let hs = held_by s.span.handles in
    let hc = held_by s.span_context.handles in
    let t1 = tear_down-Gained base (hs ++ addrs cs) s.span_context s.heap (
      (λ p. omega (
        arith,
        w.balanced.0 p,
        count-append p (addrs cs ++ hs) hc,
        count-append p (addrs cs) hs,
        count-append p hc (hs ++ addrs cs),
        count-append p hs (addrs cs),
      )),
      w.balanced.1,
    ) in
    let r1 = tear_down s.span_context s.heap in
    let t2 = tear_down-Gained base (addrs cs) s.span r1.1 t1.0 in
    let r2 = tear_down s.span r1.1 in
    elim (Bool-cases ((s.tracer_count + (2 ^ 32 - 1)) % 2 ^ 32 == 0)) [
      | inr e ↦ rw e (
          carried-IsAccounted base cs s
            (record s { tracer_count = (s.tracer_count + (2 ^ 32 - 1)) % 2 ^ 32 }) refl
            (Carries-refl s.span) (Carries-refl s.span_context) w)
      | inl e ↦ rw e (record {
        balanced =
            subst
              (λ (o : Option (Handle ℕ)).
                Gained base (addrs cs ++ held_by o ++ held_by r1.0.handles) r2.1)
              (sym t2.1)
              (subst (λ (o : Option (Handle ℕ)). Gained base (addrs cs ++ [] ++ held_by o) r2.1)
                (sym t1.1)
                (
                  (λ p. omega (
                    arith,
                    t2.0.0 p,
                    count-append p (addrs cs) [],
                    count-append p (addrs cs ++ []) [],
                  )),
                  t2.0.1,
                ));
        ready = subst (λ (o : Option (Handle ℕ)). IsReady o) (sym t1.1) tt;
        below =
            subst (λ (n : ℕ). AreBelow n cs)
              (sym (ap (λ (o : Option (Handle ℕ)). next_idx o r1.0.id_base) t1.1 ∙ t1.2)) w.below;
        distinct = w.distinct;
      })
    ]

step-IsAccounted :
    (base : Heap) (e : Event) (cs : List Context) (s : Process)
    → IsAccounted base (cs, s)
    → IsAccounted base (step e (cs, s))
unfolding step
step-IsAccounted base (create sdk throws) cs s w = create-IsAccounted base sdk throws cs s w
step-IsAccounted base (destroy n) cs s w = destroy-IsAccounted base n cs s w
step-IsAccounted base (tracer_start memory1 memory2 shards) cs s w =
    start-IsAccounted base memory1 memory2 shards cs s w
step-IsAccounted base tracer_end cs s w = end-IsAccounted base cs s w

-- Through any history of creations, destructions and tracers, with any failures, from a process that
-- is accounted for: every block over the start is a structure of the client or a handle of a map
-- and no free is bad; the structures of the client have distinct identifiers, which the map never
-- gives out again, also across its generations.
pub run-IsAccounted :
    (es : List Event) (base : Heap) (cs : List Context) (s : Process)
    → IsAccounted base (cs, s)
    → IsAccounted base (run es (cs, s))
unfolding run
run-IsAccounted [] base cs s w = w
run-IsAccounted (e ∷ es) base cs s w =
    run-IsAccounted es base (step e (cs, s)).0 (step e (cs, s)).1 (step-IsAccounted base e cs s w)
