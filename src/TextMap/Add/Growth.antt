-- ===== src/TextMap/Add/Growth.antt =====
-- The growth step of otelc_text_map_add of src/util.cpp: what it keeps, whatever realloc answers.
use opentelemetry_c_wrapper.Prelude.{
  ℕ, ◌+◌, ◌≤◌, ◌<◌, ◌≡◌, refl, true, List, ◌++◌, Option, none, some, arith, length, length-append,
  length-replicate, take, replicate, count, leb, Bool-cases, inl, inr,
}
use opentelemetry_c_wrapper.Heap.{Heap, realloc, refers}
use opentelemetry_c_wrapper.Heap.Balance.{realloc-balance, given_up}
use opentelemetry_c_wrapper.TextMap.{TextMap, Str, no_flags}
use opentelemetry_c_wrapper.TextMap.Owned.{IsValid, Holds, owned}
use opentelemetry_c_wrapper.TextMap.Cells.{take-take_append, length-take_le}
use opentelemetry_c_wrapper.TextMap.Add.{Grown, size_add, grow, grow_flags, grow_key, grow_value}
use opentelemetry_c_wrapper.TextMap.Add.Keeps.{
  Keeps, Keeps-trans, Keeps-refl, Keeps-Holds, Keeps-arrays, count-owned,
}

-- The cells of an array that a realloc made longer.
abbrev longer {ℓ} : {A : Type ℓ} → ℕ → List A → A → List A
longer n xs z = take n xs ++ replicate (size_add n) z

length-longer {ℓ} :
    {A : Type ℓ} (n : ℕ) (xs : List A) (z : A)
    → n ≤ length xs
    → length (longer n xs z) ≡ n + size_add n
length-longer n xs z h = omega (
  arith,
  length-append (take n xs) (replicate (size_add n) z),
  length-take_le n xs h,
  length-replicate (size_add n) z,
)

pub size_add-pos : (n : ℕ) → 0 < size_add n
unfolding size_add
size_add-pos n = ground arith

-- What a growth step ends in: a map that keeps the old one, with room for an entry on success.
pub record Grows (m : TextMap) (h : Heap) (r : Grown) : Type 0 where
  pub keeps : Keeps m h r.1 r.2
  pub room : r.0 ≡ true → r.1.count < r.1.size

-- A realloc with its answer, as far as the counts go.
abbrev Answers : Option ℕ → Heap → Option ℕ × Heap → Type 0
Answers old h r =
    ((p : ℕ)
      → count p r.1.live + count p (given_up old r.0) ≡ count p h.live + count p (refers r.0))
    × (r.1.bad_frees ≡ h.bad_frees)

unanswered :
    {m : TextMap} {h g : Heap} (old : Option ℕ)
    → IsValid m
    → Answers old h (none, g)
    → Keeps m h m g
unanswered {m} {h} {g} old v a = record {
  valid = v;
  same = (Keeps-refl {m = m} {h = h} v).same;
  balance = λ p. omega (arith, a.0 p);
  no_bad_free = a.1;
}

Grows-value :
    (m : TextMap) (h : Heap) (r : Option ℕ × Heap)
    → IsValid m
    → m.size + size_add m.size ≤ length m.flag_cells
    → m.size + size_add m.size ≤ length m.key_cells
    → Answers m.value h r
    → Grows m h (grow_value m r)
unfolding grow_value
Grows-value m h (none, g) v rf rk a = record { keeps = unanswered m.value v a; room = λ e. cc }
Grows-value m h (some b, g) v rf rk a = record {
  keeps =
      Keeps-arrays m _ h g v
        (record { flags_array = v.flags_array; key_array = v.key_array; value_array = tt })
        (record {
          same_addr = refl;
          same_dynamic = refl;
          same_count = refl;
          same_flags = refl;
          same_keys = refl;
          same_values = take-take_append m.count m.size m.value_cells _ v.fits v.value_room;
        })
        (omega arith) rf rk
        (omega (arith, length-longer {A = Option Str} m.size m.value_cells none v.value_room))
        (λ p. omega (arith, a.0 p)) a.1;
  room = λ e. omega (arith, v.fits, size_add-pos m.size);
}

-- A step over one array, and then the steps behind it.
then-Grows : {m n : TextMap} {h g : Heap} {r : Grown} → Keeps m h n g → Grows n g r → Grows m h r
then-Grows k s = record { keeps = Keeps-trans k s.keeps; room = s.room }

Holds-value : (m : TextMap) (h : Heap) → Holds (owned m) h → Holds (refers m.value) h
Holds-value m h l = λ p. omega (arith, l p, count-owned m p)

Holds-key : (m : TextMap) (h : Heap) → Holds (owned m) h → Holds (refers m.key) h
Holds-key m h l = λ p. omega (arith, l p, count-owned m p)

Holds-flags : (m : TextMap) (h : Heap) → Holds (owned m) h → Holds (refers m.flags) h
Holds-flags m h l = λ p. omega (arith, l p, count-owned m p)

Grows-key :
    (m : TextMap) (h : Heap) (r : Option ℕ × Heap)
    → IsValid m
    → Holds (owned m) h
    → m.size + size_add m.size ≤ length m.flag_cells
    → Answers m.key h r
    → Grows m h (grow_key m r)
unfolding grow_key
Grows-key m h (none, g) v l rf a = record { keeps = unanswered m.key v a; room = λ e. cc }
Grows-key m h (some b, g) v l rf a = then-Grows k (
    Grows-value n g (realloc m.value g) k.valid rf
      (omega (arith, length-longer {A = Option Str} m.size m.key_cells none v.key_room))
      (realloc-balance m.value g (Holds-value n g (Keeps-Holds k l))))
  where
    n : TextMap
    n = record m { key = some b; key_cells = longer m.size m.key_cells none }

    k : Keeps m h n g
    k =
        Keeps-arrays m n h g v
          (record { flags_array = v.flags_array; key_array = tt; value_array = v.value_array })
          (record {
            same_addr = refl;
            same_dynamic = refl;
            same_count = refl;
            same_flags = refl;
            same_keys = take-take_append m.count m.size m.key_cells _ v.fits v.key_room;
            same_values = refl;
          })
          (omega arith) v.flag_room
          (omega (arith, length-longer {A = Option Str} m.size m.key_cells none v.key_room))
          v.value_room (λ p. omega (arith, a.0 p)) a.1

Grows-flags :
    (m : TextMap) (h : Heap) (r : Option ℕ × Heap)
    → IsValid m
    → Holds (owned m) h
    → Answers m.flags h r
    → Grows m h (grow_flags m r)
unfolding grow_flags
Grows-flags m h (none, g) v l a = record { keeps = unanswered m.flags v a; room = λ e. cc }
Grows-flags m h (some b, g) v l a = then-Grows k (
    Grows-key n g (realloc m.key g) k.valid (Keeps-Holds k l)
      (omega (arith, length-longer m.size m.flag_cells no_flags v.flag_room))
      (realloc-balance m.key g (Holds-key n g (Keeps-Holds k l))))
  where
    n : TextMap
    n = record m { flags = some b; flag_cells = longer m.size m.flag_cells no_flags }

    k : Keeps m h n g
    k =
        Keeps-arrays m n h g v
          (record { flags_array = tt; key_array = v.key_array; value_array = v.value_array })
          (record {
            same_addr = refl;
            same_dynamic = refl;
            same_count = refl;
            same_flags = take-take_append m.count m.size m.flag_cells _ v.fits v.flag_room;
            same_keys = refl;
            same_values = refl;
          })
          (omega arith) (omega (arith, length-longer m.size m.flag_cells no_flags v.flag_room))
          v.key_room v.value_room (λ p. omega (arith, a.0 p)) a.1

-- The growth step keeps a valid map, its entries and the balance of references, whichever of its
-- three reallocs fails, and leaves room for one more entry if none does.
pub grow-Grows : (m : TextMap) (h : Heap) → IsValid m → Holds (owned m) h → Grows m h (grow m h)
unfolding grow
grow-Grows m h v l = elim (Bool-cases (leb m.size m.count)) [
  | inl e ↦
      rw e (Grows-flags m h (realloc m.flags h) v l (realloc-balance m.flags h (Holds-flags m h l)))
  | inr e ↦ rw e (record { keeps = Keeps-refl v; room = λ _. ground arith })
]
