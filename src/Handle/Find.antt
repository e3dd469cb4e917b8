-- ===== src/Handle/Find.antt =====
-- What registering and erasing do to look-ups in the sharded map of include/util.h: the shards
-- together behave like one map from identifiers to handles.
use Prim.Native.Nat.{bit_and}
use opentelemetry_c_wrapper.Prelude.{
  ℕ, zero, suc, ◌-◌, ◌<◌, ◌≡◌, refl, ap, Bool, false, not, ◌&&◌, List, [], ◌∷◌, Option, none, some,
  arith, ◌==◌, ==_iff, Bool-cases, inl, inr, if◌then◌else◌, length, length-set, length-replicate,
  replicate,
}
use opentelemetry_c_wrapper.Handle.{
  Handle, Shard, lookup, is_some, shard_erase, shard_at, get_shard_index, get_shard, put_shard,
  find, emplace, update_peak_size, register_handle, erase, otel_handle_init,
}
use opentelemetry_c_wrapper.Handle.Index.{bit_and-le}
use opentelemetry_c_wrapper.Handle.Shard.{
  IsDistinct, lookup-shard_erase, shard_erase-IsDistinct, shard_at-set,
}

module _ {ℓ} {V : Type ℓ} where
  -- There is a shard, and no shard has a key twice.
  pub record IsValid (m : Handle V) : Type ℓ where
    pub some_shard : 0 < length m.shards
    pub distinct : (i : ℕ) → IsDistinct (shard_at m.shards i)

  -- The index of every key is the index of a shard.
  pub get_shard_index-bound :
      (m : Handle V) (k : ℕ) → 0 < length m.shards → get_shard_index m k < length m.shards
  unfolding get_shard_index
  get_shard_index-bound m k h = omega (arith, bit_and-le k (length m.shards - 1))

  put_shard-index :
      (m : Handle V) (k : ℕ) (s : Shard V) (j : ℕ)
      → get_shard_index (put_shard m k s) j ≡ get_shard_index m j
  unfolding put_shard get_shard_index
  put_shard-index m k s j = rw (length-set m.shards (get_shard_index m k) s) refl

  put_shard-IsValid :
      (m : Handle V) (k : ℕ) (s : Shard V) → IsValid m → IsDistinct s → IsValid (put_shard m k s)
  unfolding put_shard
  put_shard-IsValid m k s w d = record {
    some_shard = rw (length-set m.shards (get_shard_index m k) s) w.some_shard;
    distinct = λ i.
        rw
          (shard_at-set m.shards (get_shard_index m k) i s (get_shard_index-bound m k w.some_shard))
          (elim (Bool-cases (i == get_shard_index m k)) [
            | inl e ↦ rw e d
            | inr e ↦ rw e (w.distinct i)
          ]);
  }

  -- A look-up after the shard of `k` was replaced by one that differs at `k` only.
  find-put_shard :
      (m : Handle V) (k : ℕ) (s : Shard V) (o : Option V)
      → IsValid m
      → ((j : ℕ) → lookup j s ≡ (if j == k then o else lookup j (get_shard m k)))
      → (j : ℕ) → find (put_shard m k s) j ≡ (if j == k then o else find m j)
  unfolding find get_shard put_shard
  find-put_shard m k s o w e j =
      let i = get_shard_index m k in
      let at =
        shard_at-set m.shards i (get_shard_index m j) s (get_shard_index-bound m k w.some_shard) in
      rw (put_shard-index m k s j, at)
        (elim (Bool-cases (get_shard_index m j == i)) [
          | inl q ↦ let same = (==_iff _ _).0 q in rw (q, e j) (rw same refl)
          | inr q ↦ rw q (elim (Bool-cases (j == k)) [
            | inl t ↦ ground (arith, ap (get_shard_index m) ((==_iff j k).0 t))
            | inr t ↦ rw t refl
          ])
        ])

  pub erase-IsValid : (m : Handle V) (k : ℕ) → IsValid m → IsValid (erase m k)
  unfolding erase get_shard
  erase-IsValid m k w =
      put_shard-IsValid m k _ w
        (shard_erase-IsDistinct k (get_shard m k) (w.distinct (get_shard_index m k)))

  -- An erased identifier is gone, and every other look-up is as before.
  pub find-erase :
      (m : Handle V) (k : ℕ)
      → IsValid m
      → (j : ℕ) → find (erase m k) j ≡ (if j == k then none else find m j)
  unfolding erase get_shard
  find-erase m k w =
      find-put_shard m k (shard_erase k (get_shard m k)) none w
        (λ j. lookup-shard_erase k j (get_shard m k) (w.distinct (get_shard_index m k)))

  or_else : Option V → V → V
  or_else none v = v
  or_else (some u) v = u

  fresh_none : (o : Option V) → is_some o ≡ false → o ≡ none
  unfolding is_some
  fresh_none none e = refl
  fresh_none (some v) e = absurd (cc (e))

  lookup-head :
      (k : ℕ) (v : V) (s : Shard V) (j : ℕ)
      → lookup j ((k, v) ∷ s) ≡ (if j == k then some v else lookup j s)
  unfolding lookup
  lookup-head k v s j = ground arith

  emplaced-IsValid :
      (m : Handle V) (k : ℕ) (v : V)
      → IsValid m
      → is_some (find m k) ≡ false
      → IsValid (put_shard m k ((k, v) ∷ get_shard m k))
  unfolding find get_shard IsDistinct
  emplaced-IsValid m k v w e =
      put_shard-IsValid m k _ w (fresh_none _ e, w.distinct (get_shard_index m k))

  pub register-IsValid :
      (throws : Bool) (m : Handle V) (k : ℕ) (v : V)
      → IsValid m
      → IsValid (register_handle throws m k v).1
  unfolding register_handle emplace update_peak_size
  register-IsValid throws m k v w = elim (Bool-cases throws) [
    | inl t ↦ rw t w
    | inr t ↦ elim (Bool-cases (is_some (find m k))) [
      | inl e ↦ rw (t, e) w
      | inr e ↦
          let n = emplaced-IsValid m k v w e in
          rw (t, e) (record { some_shard = n.some_shard; distinct = n.distinct })
    ]
  ]

  -- OTEL_HANDLE_EMPLACE adds the handle iff nothing throws and the identifier is new.
  pub register_handle-result :
      (throws : Bool) (m : Handle V) (k : ℕ) (v : V)
      → (register_handle throws m k v).0 ≡ (not throws && not (is_some (find m k)))
  unfolding register_handle emplace
  register_handle-result throws m k v = elim (Bool-cases throws) [
    | inl t ↦ rw t refl
    | inr t ↦ elim (Bool-cases (is_some (find m k))) [
      | inl e ↦ rw (t, e) refl
      | inr e ↦ rw (t, e) refl
    ]
  ]

  -- A registered handle is found under its identifier, every other look-up is as before, and a
  -- refused registration changes no look-up at all.
  pub find-register :
      (throws : Bool) (m : Handle V) (k : ℕ) (v : V)
      → IsValid m
      → (j : ℕ)
      → let r = register_handle throws m k v in
        find r.1 j ≡ (if r.0 && (j == k) then some v else find m j)
  unfolding register_handle emplace update_peak_size find get_shard get_shard_index
  find-register throws m k v w j = elim (Bool-cases throws) [
    | inl t ↦ rw t refl
    | inr t ↦ elim (Bool-cases (is_some (find m k))) [
      | inl e ↦ rw (t, e) refl
      | inr e ↦
          rw (t, e)
            (find-put_shard m k ((k, v) ∷ get_shard m k) (some v) w
              (lookup-head k v (get_shard m k)) j)
    ]
  ]

  abbrev no_entries : Shard V
  no_entries = []

  shard_at-replicate : (n i : ℕ) → shard_at (replicate n no_entries) i ≡ no_entries
  unfolding shard_at
  shard_at-replicate zero i = refl
  shard_at-replicate (suc n) zero = refl
  shard_at-replicate (suc n) (suc i) = shard_at-replicate n i

  pub init-IsValid : (n : ℕ) → 0 < n → IsValid (otel_handle_init {V = V} n)
  unfolding otel_handle_init IsDistinct
  init-IsValid n h = record {
    some_shard = rw (length-replicate n no_entries) h;
    distinct = λ i. rw (shard_at-replicate n i) tt;
  }

  pub find-init : (n k : ℕ) → find (otel_handle_init {V = V} n) k ≡ none
  unfolding find get_shard otel_handle_init lookup
  find-init n k = rw (shard_at-replicate n _) refl

  -- The counters have no part in look-ups.
  pub find-shards : (m n : Handle V) (k : ℕ) → m.shards ≡ n.shards → find m k ≡ find n k
  unfolding find get_shard get_shard_index
  find-shards m n k e =
      ap (λ (ss : List (Shard V)). lookup k (shard_at ss (bit_and k (length ss - 1)))) e

  pub erase-id : (m : Handle V) (k : ℕ) → (erase m k).id ≡ m.id
  unfolding erase put_shard
  erase-id m k = refl

  pub register-id :
      (throws : Bool) (m : Handle V) (k : ℕ) (v : V) → (register_handle throws m k v).1.id ≡ m.id
  unfolding register_handle emplace update_peak_size put_shard
  register-id throws m k v = elim (Bool-cases throws) [
    | inl t ↦ rw t refl
    | inr t ↦ elim (Bool-cases (is_some (find m k))) [
      | inl e ↦ rw (t, e) refl
      | inr e ↦ rw (t, e) refl
    ]
  ]
