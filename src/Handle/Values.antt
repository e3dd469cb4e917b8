-- ===== src/Handle/Values.antt =====
-- The handles that a sharded map of include/util.h holds, counted: what a registration, an erasure
-- and a drain do to them.
use opentelemetry_c_wrapper.Prelude.{
  ℕ, zero, suc, ◌+◌, ◌<◌, ◌≡◌, refl, ap, Bool, List, [], ◌∷◌, ◌++◌, none, some, arith, ◌==◌,
  Bool-cases, inl, inr, if◌then◌else◌, length, set, count, replicate,
}
use opentelemetry_c_wrapper.Heap.{refers}
use opentelemetry_c_wrapper.Handle.{
  Handle, Shard, lookup, is_some, shard_erase, shard_at, get_shard_index, get_shard, put_shard,
  find, emplace, update_peak_size, register_handle, erase, visit_all, otel_handle, otel_handle_init,
  bad_shards, for_each_locked,
}
use opentelemetry_c_wrapper.Handle.Find.{IsValid, get_shard_index-bound, init-IsValid, find-init}
use opentelemetry_c_wrapper.Handle.Refine.{bad_zero}

-- The handles among the entries.
unfoldable pub values : List (ℕ × ℕ) → List ℕ
values [] = []
values ((k, v) ∷ es) = v ∷ values es

unfoldable pub held : Handle ℕ → List ℕ
held m = values (visit_all m.shards)

count-values_append :
    (p : ℕ) (xs ys : List (ℕ × ℕ))
    → count p (values (xs ++ ys)) ≡ count p (values xs) + count p (values ys)
unfolding values
count-values_append p [] ys = omega arith
count-values_append p ((k, v) ∷ xs) ys = omega (arith, count-values_append p xs ys)

count-set :
    (p : ℕ) (ss : List (Shard ℕ)) (i : ℕ) (s : Shard ℕ)
    → i < length ss
    → count p (values (visit_all (set ss i s))) + count p (values (shard_at ss i))
      ≡ count p (values (visit_all ss)) + count p (values s)
unfolding visit_all shard_at
count-set p [] i s h = absurd (omega arith)
count-set p (t ∷ ts) zero s h =
    omega (arith, count-values_append p t (visit_all ts), count-values_append p s (visit_all ts))
count-set p (t ∷ ts) (suc i) s h = omega (
  arith,
  count-set p ts i s (omega arith),
  count-values_append p t (visit_all ts),
  count-values_append p t (visit_all (set ts i s)),
)

count-put_shard :
    (p : ℕ) (m : Handle ℕ) (k : ℕ) (s : Shard ℕ)
    → IsValid m
    → count p (held (put_shard m k s)) + count p (values (get_shard m k))
      ≡ count p (held m) + count p (values s)
unfolding held put_shard get_shard
count-put_shard p m k s w =
    count-set p m.shards (get_shard_index m k) s (get_shard_index-bound m k w.some_shard)

count-shard_erase :
    (p k : ℕ) (s : Shard ℕ)
    → count p (values (shard_erase k s)) + count p (refers (lookup k s)) ≡ count p (values s)
unfolding values shard_erase lookup
count-shard_erase p k [] = omega arith
count-shard_erase p k ((j, v) ∷ s) = elim (Bool-cases (j == k)) [
  | inl e ↦ rw e (omega arith)
  | inr e ↦ rw e (omega (arith, count-shard_erase p k s))
]

-- An erasure gives up the handle that was found.
pub count-erase :
    (p : ℕ) (m : Handle ℕ) (k : ℕ)
    → IsValid m
    → count p (held (erase m k)) + count p (refers (find m k)) ≡ count p (held m)
unfolding erase find
count-erase p m k w = omega (
  arith,
  count-put_shard p m k (shard_erase k (get_shard m k)) w,
  count-shard_erase p k (get_shard m k),
)

-- A registration takes the handle over iff it succeeds.
pub count-register :
    (p : ℕ) (throws : Bool) (m : Handle ℕ) (k v : ℕ)
    → IsValid m
    → let r = register_handle throws m k v in
      count p (held r.1) ≡ count p (held m) + (if r.0 then count p (v ∷ []) else 0)
unfolding register_handle emplace update_peak_size held values
count-register p throws m k v w = elim (Bool-cases throws) [
  | inl t ↦ rw t (omega arith)
  | inr t ↦ elim (Bool-cases (is_some (find m k))) [
    | inl e ↦ rw (t, e) (omega arith)
    | inr e ↦ rw (t, e) (omega (arith, count-put_shard p m k ((k, v) ∷ get_shard m k) w))
  ]
]

pub held-shards : (m n : Handle ℕ) → m.shards ≡ n.shards → held m ≡ held n
unfolding held
held-shards m n e = ap (λ (ss : List (Shard ℕ)). values (visit_all ss)) e

visit_all-replicate : (n : ℕ) → values (visit_all (replicate n [])) ≡ []
unfolding visit_all values
visit_all-replicate zero = refl
visit_all-replicate (suc n) = visit_all-replicate n

-- A new map holds nothing, and numbers its handles from 0.
pub new_map :
    (n : ℕ) (m : Handle ℕ)
    → otel_handle n ≡ some m
    → IsValid m × (held m ≡ []) × ((k : ℕ) → find m k ≡ none)
unfolding otel_handle otel_handle_init held
new_map n m e = elim (Bool-cases (bad_shards n)) [
  | inl b ↦ absurd (ground (arith, e, b))
  | inr b ↦
      let q : otel_handle_init n ≡ m = ground (arith, e, b) in
      rw (← q) (init-IsValid n (bad_zero n b), visit_all-replicate n, find-init n)
]

-- A drain visits exactly the handles, and the number of the next one stays.
pub held-for_each_locked :
    (m : Handle ℕ) → (values (for_each_locked m).0 ≡ held m) × ((for_each_locked m).1.id ≡ m.id)
unfolding for_each_locked held
held-for_each_locked m = (refl, refl)
