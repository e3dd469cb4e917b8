-- ===== src/TextMap/Add/Keeps.antt =====
-- What the steps of otelc_text_map_add of src/util.cpp keep: the entries, and the balance between
-- the references of the heap and those of the map.
use opentelemetry_c_wrapper.Prelude.{
  ℕ, ◌+◌, ◌≤◌, ◌≡◌, refl, sym, ap, List, take, length, arith, count, count-append,
}
use opentelemetry_c_wrapper.Heap.{Heap, refers}
use opentelemetry_c_wrapper.TextMap.{TextMap, owns_key, owns_value}
use opentelemetry_c_wrapper.TextMap.Owned.{
  IsShaped, IsValid, Holds, owned, owned_keys, owned_values,
}
use opentelemetry_c_wrapper.TextMap.Cells.{selected-agree, Filled-agree, texts, texts-agree}

pub count-owned :
    (m : TextMap) (p : ℕ)
    → count p (owned m)
      ≡ count p (refers m.flags)
        + count p (refers m.key)
        + count p (refers m.value)
        + count p (owned_keys m)
        + count p (owned_values m)
count-owned m p = simp count-append

-- The first entries of two maps are the same, and so are the structures.
pub record Same (m n : TextMap) : Type 0 where
  pub same_addr : n.addr ≡ m.addr
  pub same_dynamic : n.is_dynamic ≡ m.is_dynamic
  pub same_count : n.count ≡ m.count
  pub same_flags : take m.count n.flag_cells ≡ take m.count m.flag_cells
  pub same_keys : take m.count n.key_cells ≡ take m.count m.key_cells
  pub same_values : take m.count n.value_cells ≡ take m.count m.value_cells

-- From `(m, h)` to `(n, g)` the references of the heap change as those of the map do.
pub record Keeps (m : TextMap) (h : Heap) (n : TextMap) (g : Heap) : Type 0 where
  pub valid : IsValid n
  pub same : Same m n
  pub balance : (p : ℕ) → count p g.live + count p (owned m) ≡ count p h.live + count p (owned n)
  pub no_bad_free : g.bad_frees ≡ h.bad_frees

Same-trans : {a b c : TextMap} → Same a b → Same b c → Same a c
Same-trans {a} {b} {c} s t = record {
  same_addr = cc (s.same_addr, t.same_addr);
  same_dynamic = cc (s.same_dynamic, t.same_dynamic);
  same_count = cc (s.same_count, t.same_count);
  same_flags = cc (s.same_flags, t.same_flags, s.same_count);
  same_keys = cc (s.same_keys, t.same_keys, s.same_count);
  same_values = cc (s.same_values, t.same_values, s.same_count);
}

pub Keeps-trans : {m a n : TextMap} {h g f : Heap} → Keeps m h a g → Keeps a g n f → Keeps m h n f
Keeps-trans k j = record {
  valid = j.valid;
  same = Same-trans k.same j.same;
  balance = λ p. omega (arith, k.balance p, j.balance p);
  no_bad_free = omega (arith, k.no_bad_free, j.no_bad_free);
}

pub Keeps-refl : {m : TextMap} {h : Heap} → IsValid m → Keeps m h m h
Keeps-refl v = record {
  valid = v;
  same = record {
    same_addr = refl;
    same_dynamic = refl;
    same_count = refl;
    same_flags = refl;
    same_keys = refl;
    same_values = refl;
  };
  balance = λ p. omega arith;
  no_bad_free = refl;
}

pub Keeps-Holds :
    {m n : TextMap} {h g : Heap} → Keeps m h n g → Holds (owned m) h → Holds (owned n) g
Keeps-Holds k l = λ p. omega (arith, k.balance p, l p)

-- The strings that are owned, for two maps with the same entries.
pub owned_keys-Same : (m n : TextMap) → Same m n → owned_keys n ≡ owned_keys m
unfolding owned_keys
owned_keys-Same m n s = rw s.same_count (
    selected-agree owns_key m.count n.flag_cells m.flag_cells n.key_cells m.key_cells s.same_flags
      s.same_keys)

pub owned_values-Same : (m n : TextMap) → Same m n → owned_values n ≡ owned_values m
unfolding owned_values
owned_values-Same m n s = rw s.same_count (
    selected-agree owns_value m.count n.flag_cells m.flag_cells n.value_cells m.value_cells
      s.same_flags s.same_values)

-- What a caller reads in a text map: the keys and the values, in the order of insertion.
abbrev pub keys : TextMap → List (List ℕ)
keys m = texts m.count m.key_cells

abbrev pub values : TextMap → List (List ℕ)
values m = texts m.count m.value_cells

pub keys-Same : (m n : TextMap) → Same m n → keys n ≡ keys m
keys-Same m n s = rw s.same_count (texts-agree m.count n.key_cells m.key_cells s.same_keys)

pub values-Same : (m n : TextMap) → Same m n → values n ≡ values m
values-Same m n s = rw s.same_count (texts-agree m.count n.value_cells m.value_cells s.same_values)

-- A step that only replaces arrays by at least as long ones keeps everything, if the blocks of the
-- arrays balance.
pub Keeps-arrays :
    (m n : TextMap) (h g : Heap)
    → IsValid m
    → IsShaped n
    → Same m n
    → m.size ≤ n.size
    → (n.size ≤ length n.flag_cells)
    → (n.size ≤ length n.key_cells)
    → (n.size ≤ length n.value_cells)
    → ((p : ℕ)
        → count p g.live
            + count p (refers m.flags)
            + count p (refers m.key)
            + count p (refers m.value)
          ≡ count p h.live
            + count p (refers n.flags)
            + count p (refers n.key)
            + count p (refers n.value))
    → g.bad_frees ≡ h.bad_frees
    → Keeps m h n g
Keeps-arrays m n h g v sh s le rf rk rv b f = record {
  valid = record {
    shaped = sh;
    fits = omega (arith, v.fits, s.same_count);
    flag_room = rf;
    key_room = rk;
    value_room = rv;
    keys_filled =
        rw s.same_count
          (Filled-agree m.count m.key_cells n.key_cells (sym s.same_keys) v.keys_filled);
    values_filled =
        rw s.same_count
          (Filled-agree m.count m.value_cells n.value_cells (sym s.same_values) v.values_filled);
  };
  same = s;
  balance = λ p. omega (
    arith,
    b p,
    count-owned m p,
    count-owned n p,
    ap (count p) (owned_keys-Same m n s),
    ap (count p) (owned_values-Same m n s),
  );
  no_bad_free = f;
}
