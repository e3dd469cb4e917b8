-- ===== src/Registry/Maps.antt =====
-- The maps' own lifecycle in src/tracer.cpp: a registration of a tracer allocates them and owns no
-- handle, the last one's end deletes every handle and keeps the numbering.
use opentelemetry_c_wrapper.Prelude.{
  ℕ, ◌≡◌, refl, ap, ◌∙◌, inl, inr, Bool, true, false, List, [], ◌∷◌, ◌++◌, Option, none, some,
  arith, Option-cases, count, count-append,
}
use opentelemetry_c_wrapper.Heap.{Heap, free}
use opentelemetry_c_wrapper.Heap.Balance.{Gained, Gained-free}
use opentelemetry_c_wrapper.Handle.{Handle, otel_handle, for_each_locked}
use opentelemetry_c_wrapper.Handle.Find.{find-shards}
use opentelemetry_c_wrapper.Handle.Values.{values, held-shards, new_map, held-for_each_locked}
use opentelemetry_c_wrapper.Registry.{Registry, init_map, delete_all, tear_down}
use opentelemetry_c_wrapper.Registry.Ledger.{IsReady, held_by, next_idx}

-- What an operation on one map leaves of it: the same handles, and the same numbering.
pub record Carries (r r' : Registry) : Type 0 where
  pub same_held : (p : ℕ) → count p (held_by r'.handles) ≡ count p (held_by r.handles)
  pub same_next : next_idx r'.handles r'.id_base ≡ next_idx r.handles r.id_base
  pub ready : IsReady r.handles → IsReady r'.handles

pub Carries-refl : (r : Registry) → Carries r r
Carries-refl r = record { same_held = λ p. refl; same_next = refl; ready = λ w. w }

pub init_map-Carries :
    (memory : Bool) (shards : ℕ) (r : Registry) → Carries r (init_map memory shards r).1
unfolding init_map IsReady
init_map-Carries memory shards r = go memory r.handles
  where
    go :
        (memory : Bool) (o : Option (Handle ℕ))
        → let r' = record r { handles = o } in Carries r' (init_map memory shards r').1
    go memory (some m) = Carries-refl (record r { handles = some m })
    go false none = Carries-refl (record r { handles = none })
    go true none = elim (Option-cases (otel_handle {V = ℕ} shards)) [
      | inl e ↦ rw e (Carries-refl (record r { handles = none }))
      | inr (m, e) ↦
          let n = record m { id = r.id_base } in
          let w = new_map shards m e in
          rw e (record {
            same_held = λ p. ap (count p) (held-shards n m refl ∙ w.1);
            same_next = refl;
            ready = λ t. record {
              valid = record { some_shard = w.0.some_shard; distinct = w.0.distinct };
              unused = λ k h. find-shards n m k refl ∙ w.2 k;
            };
          })
    ]

delete_all-Gained :
    (base : Heap) (es : List (ℕ × ℕ)) (xs : List ℕ) (h : Heap)
    → Gained base (values es ++ xs) h
    → Gained base xs (delete_all es h)
unfolding delete_all values
delete_all-Gained base [] xs h g = g
delete_all-Gained base ((k, v) ∷ es) xs h g = delete_all-Gained base es xs (free v h) (
    Gained-free base (v ∷ values es ++ xs) (values es ++ xs) v h g
      (λ p. omega (arith, count-append p (v ∷ values es) xs, count-append p (values es) xs)))

-- A tear-down deletes the handles of its map, and the numbering goes on from the saved base.
pub tear_down-Gained :
    (base : Heap) (xs : List ℕ) (r : Registry) (h : Heap)
    → Gained base (held_by r.handles ++ xs) h
    → let t = tear_down r h in
      Gained base xs t.1 × (t.0.handles ≡ none) × (t.0.id_base ≡ next_idx r.handles r.id_base)
unfolding tear_down
tear_down-Gained base xs r h g = go r.handles g
  where
    go :
        (o : Option (Handle ℕ))
        → Gained base (held_by o ++ xs) h
        → let t = tear_down (record r { handles = o }) h in
          Gained base xs t.1 × (t.0.handles ≡ none) × (t.0.id_base ≡ next_idx o r.id_base)
    go none g = ((λ p. omega (arith, g.0 p), g.1), refl, refl)
    go (some m) g =
        let q = held-for_each_locked m in
        (delete_all-Gained base (for_each_locked m).0 xs h (rw q.0 g), refl, q.1)
