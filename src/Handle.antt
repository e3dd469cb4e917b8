-- ===== src/Handle.antt =====
-- The sharded handle map of include/util.h (struct otel_handle and the macros around it): handles
-- registered under increasing identifiers, in a power of two of independently locked shards.
-- The std::unordered_map of a shard is an association list; the value type is a parameter.
pub mod Index
pub mod Shard
pub mod Find
pub mod Refine
pub mod Sizes
pub mod Values
mod Examples
use Prim.Native.Nat.{bit_and, max}
use opentelemetry_c_wrapper.Prelude.{
  ℕ, zero, suc, ◌+◌, ◌-◌, Bool, true, false, not, ◌||◌, List, [], ◌∷◌, ◌++◌, Option, none, some,
  ◌==◌, if◌then◌else◌, length, get_elem?, set, replicate,
}

-- A shard: what std::unordered_map promises of find, emplace and erase.
abbrev pub Shard {ℓ} : Type ℓ → Type ℓ
Shard V = List (ℕ × V)

module _ {ℓ} {V : Type ℓ} where
  unfoldable pub lookup : ℕ → Shard V → Option V
  lookup k [] = none
  lookup k ((j, v) ∷ s) = if j == k then some v else lookup k s

  unfoldable pub is_some : Option V → Bool
  is_some none = false
  is_some (some v) = true

  unfoldable pub shard_erase : ℕ → Shard V → Shard V
  shard_erase k [] = []
  shard_erase k ((j, v) ∷ s) = if j == k then s else (j, v) ∷ shard_erase k s

-- The atomics are plain numbers: each operation below is one critical section of its shard.
pub record Handle {ℓ} (V : Type ℓ) : Type ℓ where
  pub id : ℕ
  pub peak_size : ℕ
  pub alloc_fail_cnt : ℕ
  pub erase_cnt : ℕ
  pub destroy_cnt : ℕ
  pub shards : List (Shard V)

-- The constructor's test: (n == 0) || ((n & (n - 1)) != 0) throws.
unfoldable pub bad_shards : ℕ → Bool
bad_shards n = (n == 0) || not (bit_and n (n - 1) == 0)

module _ {ℓ} {V : Type ℓ} where
  -- otel_handle_init over empty shards.
  unfoldable pub otel_handle_init : ℕ → Handle V
  otel_handle_init n = record {
    id = 0;
    peak_size = 0;
    alloc_fail_cnt = 0;
    erase_cnt = 0;
    destroy_cnt = 0;
    shards = replicate n [];
  }

  -- otel_handle(size_t): `none` is the exception.
  unfoldable pub otel_handle : ℕ → Option (Handle V)
  otel_handle n = if bad_shards n then none else some (otel_handle_init n)

  unfoldable pub get_shard_index : Handle V → ℕ → ℕ
  get_shard_index m k = bit_and k (length m.shards - 1)

  -- An index out of range would be undefined behaviour; the model reads an empty shard there.
  unfoldable pub shard_at : List (Shard V) → ℕ → Shard V
  shard_at [] i = []
  shard_at (s ∷ ss) zero = s
  shard_at (s ∷ ss) (suc i) = shard_at ss i

  unfoldable pub get_shard : Handle V → ℕ → Shard V
  unfolding get_shard_index shard_at
  get_shard m k = shard_at m.shards (get_shard_index m k)

  unfoldable pub put_shard : Handle V → ℕ → Shard V → Handle V
  unfolding get_shard_index
  put_shard m k s = record m { shards = set m.shards (get_shard_index m k) s }

  -- OTEL_SPAN_HANDLE and OTEL_SPAN_CONTEXT_HANDLE: otel_map_find in the shard of the identifier.
  unfoldable pub find : Handle V → ℕ → Option V
  unfolding get_shard lookup
  find m k = lookup k (get_shard m k)

  -- emplace(...).second, and the map afterwards.
  unfoldable pub emplace : Handle V → ℕ → V → Bool × Handle V
  unfolding find get_shard put_shard is_some
  emplace m k v =
      if is_some (find m k) then (false, m) else (true, put_shard m k ((k, v) ∷ get_shard m k))

  unfoldable pub update_peak_size : Handle V → ℕ → Handle V
  unfolding shard_at
  update_peak_size m i = record m { peak_size = max m.peak_size (length (shard_at m.shards i)) }

  -- OTEL_HANDLE_EMPLACE: a throwing or refused insertion leaves the map alone (the cleanup is
  -- the caller's); a successful one raises the high-water mark. The flag is the success.
  unfoldable pub register_handle : Bool → Handle V → ℕ → V → Bool × Handle V
  unfolding emplace update_peak_size get_shard_index
  register_handle throws m k v =
      let (inserted, n) = emplace m k v in
      if throws
      then (false, m)
      else if inserted
      then (true, update_peak_size n (get_shard_index n k))
      else (false, m)

  -- map.erase(key) in the shard of the key.
  unfoldable pub erase : Handle V → ℕ → Handle V
  unfolding get_shard put_shard shard_erase
  erase m k = put_shard m k (shard_erase k (get_shard m k))

  pub sum_sizes : List (Shard V) → ℕ
  sum_sizes [] = 0
  sum_sizes (s ∷ ss) = length s + sum_sizes ss

  pub total_map_size : Handle V → ℕ
  unfolding sum_sizes
  total_map_size m = sum_sizes m.shards

  unfoldable pub visit_all : List (Shard V) → List (ℕ × V)
  visit_all [] = []
  visit_all (s ∷ ss) = s ++ visit_all ss

  unfoldable pub clear_all : List (Shard V) → List (Shard V)
  clear_all [] = []
  clear_all (s ∷ ss) = [] ∷ clear_all ss

  -- for_each_locked: the entries that the callback sees, in order, and the emptied map.
  unfoldable pub for_each_locked : Handle V → List (ℕ × V) × Handle V
  unfolding visit_all clear_all
  for_each_locked m = (visit_all m.shards, record m { shards = clear_all m.shards })
