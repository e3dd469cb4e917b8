-- ===== src/Handle/Sizes.antt =====
-- The counts of include/util.h over the sharded map: total_map_size, peak_size, and the entries
-- that for_each_locked hands to its callback.
use Prim.Native.Nat.{max}
use opentelemetry_c_wrapper.Prelude.{
  ℕ, zero, suc, ◌+◌, ◌≤◌, ◌<◌, ◌≡◌, refl, Bool, List, [], ◌∷◌, ◌++◌, Option, none, some, arith,
  ◌==◌, ==_iff, Bool-cases, inl, inr, if◌then◌else◌, length, set, length-append, length-set,
  get_elem?,
}
use opentelemetry_c_wrapper.Handle.{
  Handle, Shard, lookup, is_some, shard_erase, shard_at, get_shard_index, get_shard, put_shard,
  find, emplace, update_peak_size, register_handle, erase, sum_sizes, total_map_size, visit_all,
  clear_all, for_each_locked,
}
use opentelemetry_c_wrapper.Handle.Shard.{length-shard_erase, shard_at-set}
use opentelemetry_c_wrapper.Handle.Find.{IsValid, get_shard_index-bound}

module _ {ℓ} {V : Type ℓ} where
  sum_sizes-set :
      (ss : List (Shard V)) (i : ℕ) (s : Shard V)
      → i < length ss
      → sum_sizes (set ss i s) + length (shard_at ss i) ≡ sum_sizes ss + length s
  unfolding sum_sizes shard_at
  sum_sizes-set [] i s h = absurd (omega arith)
  sum_sizes-set (t ∷ ts) zero s h = omega arith
  sum_sizes-set (t ∷ ts) (suc i) s h = omega (arith, sum_sizes-set ts i s (omega arith))

  total-put_shard :
      (m : Handle V) (k : ℕ) (s : Shard V)
      → IsValid m
      → total_map_size (put_shard m k s) + length (get_shard m k) ≡ total_map_size m + length s
  unfolding total_map_size put_shard get_shard
  total-put_shard m k s w =
      sum_sizes-set m.shards (get_shard_index m k) s (get_shard_index-bound m k w.some_shard)

  -- On a well-formed map a registration adds one to total_map_size iff it succeeds.
  pub total-register :
      (throws : Bool) (m : Handle V) (k : ℕ) (v : V)
      → IsValid m
      → let r = register_handle throws m k v in
        total_map_size r.1 ≡ total_map_size m + (if r.0 then 1 else 0)
  unfolding register_handle emplace update_peak_size total_map_size
  total-register throws m k v w = elim (Bool-cases throws) [
    | inl t ↦ rw t (omega arith)
    | inr t ↦ elim (Bool-cases (is_some (find m k))) [
      | inl e ↦ rw (t, e) (omega arith)
      | inr e ↦ rw (t, e) (omega (arith, total-put_shard m k ((k, v) ∷ get_shard m k) w))
    ]
  ]

  -- On a well-formed map an erasure takes one off total_map_size iff the identifier was registered.
  pub total-erase :
      (m : Handle V) (k : ℕ)
      → IsValid m
      → total_map_size (erase m k) + (if is_some (find m k) then 1 else 0) ≡ total_map_size m
  unfolding erase find
  total-erase m k w = omega (
    arith,
    total-put_shard m k (shard_erase k (get_shard m k)) w,
    length-shard_erase k (get_shard m k),
  )

  length-visit_all : (ss : List (Shard V)) → length (visit_all ss) ≡ sum_sizes ss
  unfolding visit_all sum_sizes
  length-visit_all [] = refl
  length-visit_all (s ∷ ss) = omega (arith, length-append s (visit_all ss), length-visit_all ss)

  sum_sizes-clear_all : (ss : List (Shard V)) → sum_sizes (clear_all ss) ≡ 0
  unfolding sum_sizes clear_all
  sum_sizes-clear_all [] = refl
  sum_sizes-clear_all (s ∷ ss) = omega (arith, sum_sizes-clear_all ss)

  -- The high-water mark is at least the size of every shard.
  unfoldable pub IsPeak : Handle V → Type 0
  IsPeak m = (i : ℕ) → length (shard_at m.shards i) ≤ m.peak_size

  raised-IsPeak :
      (ss : List (Shard V)) (i peak : ℕ) (s : Shard V)
      → i < length ss
      → ((j : ℕ) → length (shard_at ss j) ≤ peak)
      → (j : ℕ) → length (shard_at (set ss i s) j) ≤ max peak (length (shard_at (set ss i s) i))
  raised-IsPeak ss i peak s h p j =
      rw (shard_at-set ss i j s h, shard_at-set ss i i s h) (ground (arith, p j))

  -- On a well-formed map whose high-water mark is at least the size of every shard, that remains so
  -- through a registration.
  pub register-IsPeak :
      (throws : Bool) (m : Handle V) (k : ℕ) (v : V)
      → IsValid m
      → IsPeak m
      → IsPeak (register_handle throws m k v).1
  unfolding register_handle emplace update_peak_size put_shard get_shard_index IsPeak
  register-IsPeak throws m k v w p = elim (Bool-cases throws) [
    | inl t ↦ rw t p
    | inr t ↦ elim (Bool-cases (is_some (find m k))) [
      | inl e ↦ rw (t, e) p
      | inr e ↦
          let b = get_shard_index-bound m k w.some_shard in
          let s = (k, v) ∷ get_shard m k in
          rw (t, e, length-set m.shards (get_shard_index m k) s)
            (raised-IsPeak m.shards (get_shard_index m k) m.peak_size s b p)
    ]
  ]

  get_elem?-append_left :
      (xs ys : List (ℕ × V)) (i : ℕ) (e : ℕ × V)
      → get_elem? xs i ≡ some e
      → get_elem? (xs ++ ys) i ≡ some e
  get_elem?-append_left [] ys i e h = absurd (cc (h))
  get_elem?-append_left (x ∷ xs) ys zero e h = h
  get_elem?-append_left (x ∷ xs) ys (suc i) e h = get_elem?-append_left xs ys i e h

  get_elem?-append_right :
      (xs ys : List (ℕ × V)) (i : ℕ) (e : ℕ × V)
      → get_elem? ys i ≡ some e
      → (j : ℕ) × (get_elem? (xs ++ ys) j ≡ some e)
  get_elem?-append_right [] ys i e h = (i, h)
  get_elem?-append_right (x ∷ xs) ys i e h =
      let (j, q) = get_elem?-append_right xs ys i e h in (suc j, q)

  lookup-get_elem? :
      (s : Shard V) (k : ℕ) (v : V) → lookup k s ≡ some v → (i : ℕ) × (get_elem? s i ≡ some (k, v))
  unfolding lookup
  lookup-get_elem? [] k v h = absurd (cc (h))
  lookup-get_elem? ((j, u) ∷ s) k v h = elim (Bool-cases (j == k)) [
    | inl e ↦ (0, ground (arith, (==_iff j k).0 e))
    | inr e ↦ let (i, q) = lookup-get_elem? s k v (ground (arith)) in (suc i, q)
  ]

  visited_at :
      (ss : List (Shard V)) (i k : ℕ) (v : V)
      → lookup k (shard_at ss i) ≡ some v
      → (j : ℕ) × (get_elem? (visit_all ss) j ≡ some (k, v))
  unfolding visit_all shard_at lookup
  visited_at [] i k v h = absurd (cc (h))
  visited_at (s ∷ ss) zero k v h =
      let (i, q) = lookup-get_elem? s k v h in
      (i, get_elem?-append_left s (visit_all ss) i (k, v) q)
  visited_at (s ∷ ss) (suc i) k v h =
      let (j, q) = visited_at ss i k v h in get_elem?-append_right s (visit_all ss) j (k, v) q

  -- A registered handle stands among the visited entries, under its identifier.
  pub IsVisited : ℕ → Option V → List (ℕ × V) → Type ℓ
  IsVisited k none es = Unit
  IsVisited k (some v) es = (i : ℕ) × (get_elem? es i ≡ some (k, v))

  found-IsVisited :
      (ss : List (Shard V)) (i k : ℕ) (o : Option V)
      → lookup k (shard_at ss i) ≡ o
      → IsVisited k o (visit_all ss)
  unfolding IsVisited
  found-IsVisited ss i k none e = tt
  found-IsVisited ss i k (some v) e = visited_at ss i k v e

  -- A drain by for_each_locked hands as many entries to the callback as the map has, every
  -- registered handle among them under its identifier, and leaves the map empty.
  pub for_each_locked-drains :
      (m : Handle V)
      → let (visited, n) = for_each_locked m in
        (length visited ≡ total_map_size m)
        × ((k : ℕ) → IsVisited k (find m k) visited)
        × (total_map_size n ≡ 0)
  unfolding for_each_locked total_map_size find get_shard
  for_each_locked-drains m = (
    length-visit_all m.shards,
    (λ k. found-IsVisited m.shards (get_shard_index m k) k (find m k) refl),
    sum_sizes-clear_all m.shards,
  )
