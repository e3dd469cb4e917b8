-- ===== src/KeyValue/Store.antt =====
-- The blocks that an array of src/util.cpp owns, and that its destructor releases exactly those.
-- Shared by the values and the key-value pairs: `own` lists the blocks of one cell.
use opentelemetry_c_wrapper.Prelude.{
  ℕ, zero, suc, ◌+◌, ◌≤◌, ◌≡◌, refl, List, [], ◌∷◌, ◌++◌, Option, none, some, arith, length, take,
  count, count-append,
}
use opentelemetry_c_wrapper.Heap.{Heap, sfree, refers}
use opentelemetry_c_wrapper.TextMap.Owned.{Frees, Frees-nil, Frees-append, Frees-perm, Frees-sfree}
use opentelemetry_c_wrapper.KeyValue.{
  Value, Kv, Array, data_block_of, key_block_of, free_value, free_kv, free_cells, value_destroy,
  kv_destroy,
}

abbrev pub value_blocks : Value → List ℕ
value_blocks v = refers (data_block_of v)

abbrev pub kv_blocks : Kv → List ℕ
kv_blocks e = refers (key_block_of e) ++ refers (data_block_of e.value)

module _ {A : Type 0} (own : A → List ℕ) where
  -- The blocks of the first `n` cells.
  abbrev pub blocks : ℕ → List A → List ℕ
  blocks zero es = []
  blocks (suc n) [] = []
  blocks (suc n) (e ∷ es) = own e ++ blocks n es

  abbrev pub owned : Array A → List ℕ
  owned a = refers a.block ++ blocks a.len a.cells

  -- The cells past the ones in use, and the ones after them, do not count.
  pub blocks-last :
      (n : ℕ) (es : List A) (e : A) (p : ℕ)
      → n ≤ length es
      → count p (blocks (suc n) (take n es ++ e ∷ [])) ≡ count p (blocks n es) + count p (own e)
  blocks-last zero es e p h = omega (arith, count-append p (own e) [])
  blocks-last (suc n) [] e p h = absurd (omega arith)
  blocks-last (suc n) (x ∷ es) e p h = omega (
    arith,
    blocks-last n es e p (omega arith),
    count-append p (own x) (blocks n es),
    count-append p (own x) (blocks (suc n) (take n es ++ e ∷ [])),
  )

  pub blocks-take :
      (n : ℕ) (es fs : List A) (p : ℕ)
      → n ≤ length es
      → count p (blocks n (take n es ++ fs)) ≡ count p (blocks n es)
  blocks-take zero es fs p h = refl
  blocks-take (suc n) [] fs p h = absurd (omega arith)
  blocks-take (suc n) (x ∷ es) fs p h = omega (
    arith,
    blocks-take n es fs p (omega arith),
    count-append p (own x) (blocks n es),
    count-append p (own x) (blocks n (take n es ++ fs)),
  )

  Frees-cells :
      (free_cell : A → Heap → Heap)
      → ((e : A) → Frees (own e) (free_cell e))
      → (n : ℕ) (es : List A) → Frees (blocks n es) (free_cells free_cell n es)
  unfolding free_cells
  Frees-cells g hg zero es = Frees-nil
  Frees-cells g hg (suc n) [] = Frees-nil
  Frees-cells g hg (suc n) (e ∷ es) = Frees-append (hg e) (Frees-cells g hg n es)

-- The cells in use are there, and a null array has none.
pub record IsValid {A : Type 0} (a : Array A) : Type 0 where
  pub room : a.len ≤ length a.cells
  pub null_empty : a.block ≡ none → a.len ≡ 0

pub length-take {ℓ} :
    {A : Type ℓ} (n : ℕ) (xs ys : List A) → n ≤ length xs → length (take n xs ++ ys) ≡ n + length ys
length-take zero xs ys h = omega arith
length-take (suc n) [] ys h = absurd (omega arith)
length-take (suc n) (x ∷ xs) ys h = omega (arith, length-take n xs ys (omega arith))

Frees-value : (v : Value) → Frees (value_blocks v) (free_value v)
unfolding free_value
Frees-value v = Frees-sfree (data_block_of v)

Frees-kv : (e : Kv) → Frees (kv_blocks e) (free_kv e)
unfolding free_kv
Frees-kv e = Frees-append (Frees-sfree (key_block_of e)) (Frees-value e.value)

-- Both destructors, on the caller's pointer to an array.
module _ {A : Type 0} (own : A → List ℕ) (free_cell : A → Heap → Heap)
    (hg : (e : A) → Frees (own e) (free_cell e)) where
  abbrev emptied : Option ℕ → List A → ℕ → Heap → Heap
  emptied none es n h = h
  emptied (some p) es n h = sfree (some p) (free_cells free_cell n es h)

  Frees-emptied :
      (b : Option ℕ) (es : List A) (n : ℕ)
      → (b ≡ none → n ≡ 0)
      → Frees (refers b ++ blocks own n es) (emptied b es n)
  Frees-emptied none es n e = rw (e refl) Frees-nil
  Frees-emptied (some p) es n e =
      Frees-perm (λ q. omega (arith, count-append q (blocks own n es) (p ∷ [])))
        (Frees-append (Frees-cells own free_cell hg n es) (Frees-sfree (some p)))

-- otelc_value_destroy releases the array and the data of its values, each once.
pub Frees-value_destroy :
    (a : Array Value)
    → IsValid a
    → Frees (owned value_blocks a) (λ h. (value_destroy (some a.block) a.cells a.len h).1)
unfolding value_destroy
Frees-value_destroy a v =
    go a.block
      (Frees-emptied value_blocks free_value Frees-value a.block a.cells a.len v.null_empty)
  where
    go :
        (b : Option ℕ)
        → Frees
            (refers b ++ blocks value_blocks a.len a.cells)
            (emptied value_blocks free_value Frees-value b a.cells a.len)
        → Frees
            (refers b ++ blocks value_blocks a.len a.cells)
            (λ h. (value_destroy (some b) a.cells a.len h).1)
    go none f = f
    go (some p) f = f

-- otelc_kv_destroy releases the array, the keys that it duplicated and the data, each once.
pub Frees-kv_destroy :
    (a : Array Kv)
    → IsValid a
    → Frees (owned kv_blocks a) (λ h. (kv_destroy (some a.block) a.cells a.len h).1)
unfolding kv_destroy
Frees-kv_destroy a v =
    go a.block (Frees-emptied kv_blocks free_kv Frees-kv a.block a.cells a.len v.null_empty)
  where
    go :
        (b : Option ℕ)
        → Frees
            (refers b ++ blocks kv_blocks a.len a.cells)
            (emptied kv_blocks free_kv Frees-kv b a.cells a.len)
        → Frees
            (refers b ++ blocks kv_blocks a.len a.cells)
            (λ h. (kv_destroy (some b) a.cells a.len h).1)
    go none f = f
    go (some p) f = f
