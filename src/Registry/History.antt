-- ===== src/Registry/History.antt =====
-- Any history of tracers and span contexts over src/tracer.cpp and src/span.cpp: contexts are created
-- and destroyed, also across generations of the maps, while tracers come and go.
pub mod Leaks
mod Examples
use opentelemetry_c_wrapper.Prelude.{
  ℕ, zero, suc, ◌+◌, ◌-◌, ◌≤◌, ◌<◌, ◌≡◌, ◌≢◌, refl, sym, ap, ◌∙◌, inl, inr, Bool, true, false, List,
  [], ◌∷◌, ◌++◌, Option, none, some, arith, ◌==◌, Bool-cases, if◌then◌else◌, count, count-append,
}
use mathlib.Core.Path.{subst}
use opentelemetry_c_wrapper.Heap.{Heap}
use opentelemetry_c_wrapper.Heap.Balance.{Gained}
use opentelemetry_c_wrapper.Registry.{
  Registry, Process, Context, context_create, context_destroy, tracer_register, tracer_unregister,
  tear_down, init_map,
}
use opentelemetry_c_wrapper.Registry.Ledger.{
  IsReady, Accounts, Balanced, held_by, next_idx, next_of, context_destroy-Accounts,
}
use opentelemetry_c_wrapper.Registry.Create.{addr_of, IsNext, Creates, context_create-Creates}
use opentelemetry_c_wrapper.Registry.Maps.{
  Carries, Carries-refl, init_map-Carries, tear_down-Gained,
}

-- The client's calls: `destroy n` destroys the n-th structure that it has.
pub data Event : Type 0 where
  create : Bool → Bool → Event
  destroy : ℕ → Event
  tracer_start : Bool → Bool → ℕ → Event
  tracer_end : Event

-- The structures that the client has, the newest first, and the process.
abbrev pub World : Type 0
World = List Context × Process

pub keep : Option Context → List Context → List Context
keep none cs = cs
keep (some c) cs = c ∷ cs

-- The n-th structure is destroyed; the structures before it are passed over.
pub destroy_nth : ℕ → List Context → Process → List Context × Process
destroy_nth n [] s = ([], s)
destroy_nth zero (c ∷ cs) s = (cs, context_destroy c s)
destroy_nth (suc n) (c ∷ cs) s = let (ds, s') = destroy_nth n cs s in (c ∷ ds, s')

pub step : Event → World → World
unfolding keep destroy_nth
step (create sdk throws) (cs, s) = let (c, s') = context_create sdk throws s in (keep c cs, s')
step (destroy n) (cs, s) = destroy_nth n cs s
step (tracer_start memory1 memory2 shards) (cs, s) =
    (cs, (tracer_register memory1 memory2 shards s).1)
step tracer_end (cs, s) = (cs, tracer_unregister s)

pub run : List Event → World → World
run [] w = w
run (e ∷ es) w = run es (step e w)

pub addrs : List Context → List ℕ
addrs [] = []
addrs (c ∷ cs) = c.addr ∷ addrs cs

-- Every identifier is below a bound, and none stands twice.
pub AreBelow : ℕ → List Context → Type 0
AreBelow n [] = Unit
AreBelow n (c ∷ cs) = (c.idx < n) × AreBelow n cs

pub IsOther : ℕ → List Context → Type 0
IsOther k [] = Unit
IsOther k (c ∷ cs) = (c.idx ≢ k) × IsOther k cs

pub AreDistinct : List Context → Type 0
unfolding IsOther
AreDistinct [] = Unit
AreDistinct (c ∷ cs) = IsOther c.idx cs × AreDistinct cs

-- Every block of the process over `base` is a structure of the client or a handle in a map, and the
-- client's identifiers are distinct and behind the next one of the map.
pub record IsAccounted (base : Heap) (w : World) : Type 0 where
  pub balanced : Balanced base (addrs w.0 ++ held_by w.1.span.handles) w.1
  pub ready : IsReady w.1.span_context.handles
  pub below : AreBelow (next_of w.1) w.0
  pub distinct : AreDistinct w.0

more-AreBelow : (n m : ℕ) (cs : List Context) → n ≤ m → AreBelow n cs → AreBelow m cs
unfolding AreBelow
more-AreBelow n m [] h b = tt
more-AreBelow n m (c ∷ cs) h b = (omega (arith, h, b.0), more-AreBelow n m cs h b.1)

below-IsOther : (n : ℕ) (cs : List Context) → AreBelow n cs → IsOther n cs
unfolding AreBelow IsOther
below-IsOther n [] b = tt
below-IsOther n (c ∷ cs) b = ((λ e. absurd (omega (arith, e, b.0))), below-IsOther n cs b.1)

-- An account may be listed in another order.
pub rebalance :
    (base : Heap) (xs ys : List ℕ) (s : Process)
    → ((p : ℕ) → count p xs ≡ count p ys)
    → Balanced base xs s
    → Balanced base ys s
rebalance base xs ys s e g =
    let h = held_by s.span_context.handles in
    ((λ p. omega (arith, g.0 p, e p, count-append p xs h, count-append p ys h)), g.1)

pub create-IsAccounted :
    (base : Heap) (sdk throws : Bool) (cs : List Context) (s : Process)
    → IsAccounted base (cs, s)
    → IsAccounted base (step (create sdk throws) (cs, s))
unfolding step
create-IsAccounted base sdk throws cs s w = go (context_create sdk throws s) (
    context_create-Creates base (addrs cs ++ held_by s.span.handles) sdk throws s w.balanced
      w.ready)
  where
    go :
        (r : Option Context × Process)
        → Creates base (addrs cs ++ held_by s.span.handles) s r
        → IsAccounted base (keep r.0 cs, r.1)
    go (none, s') q =
        unfold Creates IsNext keep in
        record {
          balanced =
              subst (λ (t : Registry). Balanced base (addrs cs ++ held_by t.handles) s')
                (sym q.0.same_span) q.0.balanced;
          ready = q.0.ready;
          below = more-AreBelow (next_of s) (next_of s') cs q.1 w.below;
          distinct = w.distinct;
        }
    go (some c, s') q =
        unfold Creates IsNext keep addrs AreBelow AreDistinct in
        record {
          balanced =
              subst (λ (t : Registry). Balanced base (c.addr ∷ addrs cs ++ held_by t.handles) s')
                (sym q.0.same_span)
                (rebalance base (c.addr ∷ (addrs cs ++ held_by s.span.handles))
                  (c.addr ∷ addrs cs ++ held_by s.span.handles) s'
                  (λ p. omega (
                    arith,
                    count-append p (c.addr ∷ addrs cs) (held_by s.span.handles),
                    count-append p (addrs cs) (held_by s.span.handles),
                  ))
                  q.0.balanced);
          ready = q.0.ready;
          below = (
            omega (arith, q.1),
            more-AreBelow (next_of s) (next_of s') cs (omega (arith, q.1)) w.below,
          );
          distinct = (rw (q.1.0) (below-IsOther (next_of s) cs w.below), w.distinct);
        }

-- What a destruction leaves: the account without one structure, and nothing of the others' changed.
record Destroys (base : Heap) (xs : List ℕ) (cs : List Context) (s : Process) (w : World)
    : Type 0 where
  accounts : Accounts base (addrs w.0 ++ xs) s w.1
  same_next : next_of w.1 ≡ next_of s
  below : (n : ℕ) → AreBelow n cs → AreBelow n w.0
  other : (k : ℕ) → IsOther k cs → IsOther k w.0
  distinct : AreDistinct cs → AreDistinct w.0

destroy_nth-Destroys :
    (base : Heap) (xs : List ℕ) (n : ℕ) (cs : List Context) (s : Process)
    → Balanced base (addrs cs ++ xs) s
    → IsReady s.span_context.handles
    → Destroys base xs cs s (destroy_nth n cs s)
unfolding destroy_nth addrs AreBelow IsOther AreDistinct
destroy_nth-Destroys base xs n [] s g w = record {
  accounts = record { balanced = g; same_span = refl; same_count = refl; ready = w };
  same_next = refl;
  below = λ n b. b;
  other = λ k o. o;
  distinct = λ d. d;
}
destroy_nth-Destroys base xs zero (c ∷ cs) s g w =
    let move =
      rebalance base (c.addr ∷ addrs cs ++ xs) (c.addr ∷ (addrs cs ++ xs)) s
        (λ p. omega (arith, count-append p (c.addr ∷ addrs cs) xs, count-append p (addrs cs) xs))
        g in
    let d = context_destroy-Accounts base (addrs cs ++ xs) c s move w in
    record {
      accounts = d.0;
      same_next = d.1;
      below = λ n b. b.1;
      other = λ k o. o.1;
      distinct = λ q. q.1;
    }
destroy_nth-Destroys base xs (suc n) (c ∷ cs) s g w =
    let move =
      rebalance base (c.addr ∷ addrs cs ++ xs) (addrs cs ++ c.addr ∷ xs) s
        (λ p.
          omega
            (arith, count-append p (c.addr ∷ addrs cs) xs, count-append p (addrs cs) (c.addr ∷ xs)))
        g in
    let d = destroy_nth-Destroys base (c.addr ∷ xs) n cs s move w in
    let r = destroy_nth n cs s in
    record {
      accounts = record {
        balanced =
            rebalance base (addrs r.0 ++ c.addr ∷ xs) (c.addr ∷ addrs r.0 ++ xs) r.1
              (λ p. omega (
                arith,
                count-append p (c.addr ∷ addrs r.0) xs,
                count-append p (addrs r.0) (c.addr ∷ xs),
              ))
              d.accounts.balanced;
        same_span = d.accounts.same_span;
        same_count = d.accounts.same_count;
        ready = d.accounts.ready;
      };
      same_next = d.same_next;
      below = λ n b. (b.0, d.below n b.1);
      other = λ k o. (o.0, d.other k o.1);
      distinct = λ q. (d.other c.idx q.0, d.distinct q.1);
    }

pub destroy-IsAccounted :
    (base : Heap) (n : ℕ) (cs : List Context) (s : Process)
    → IsAccounted base (cs, s)
    → IsAccounted base (destroy_nth n cs s)
destroy-IsAccounted base n cs s w =
    let xs = held_by s.span.handles in
    let d = destroy_nth-Destroys base xs n cs s w.balanced w.ready in
    let r = destroy_nth n cs s in
    record {
      balanced =
          subst (λ (t : Registry). Balanced base (addrs r.0 ++ held_by t.handles) r.1)
            (sym d.accounts.same_span) d.accounts.balanced;
      ready = d.accounts.ready;
      below = rw d.same_next (d.below (next_of s) w.below);
      distinct = d.distinct w.distinct;
    }
