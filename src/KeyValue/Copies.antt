-- ===== src/KeyValue/Copies.antt =====
-- What copies, reallocations and releases of src/util.cpp do to the blocks on top of a heap.
use opentelemetry_c_wrapper.Prelude.{
  ℕ, ◌+◌, ◌≡◌, ◌∙◌, List, [], ◌∷◌, ◌++◌, Option, none, some, ◌==◌, arith, take, count, count-append,
  Bool-cases, inl, inr,
}
use opentelemetry_c_wrapper.Heap.{Heap, malloc, realloc, sfree, refers}
use opentelemetry_c_wrapper.Heap.Balance.{
  Gained, malloc-balance, realloc-balance, sfree-live, given_up,
}
use opentelemetry_c_wrapper.TextMap.{str_block}
use opentelemetry_c_wrapper.KeyValue.{size_max, copied, strdup, memdup}

-- An allocation adds what it returns to the blocks on top of `base`.
pub malloc-Gained :
    (base : Heap) (xs : List ℕ) (h : Heap)
    → Gained base xs h
    → Gained base (refers (malloc h).0 ++ xs) (malloc h).1
malloc-Gained base xs h g = (
  (λ p. omega (arith, (malloc-balance h).0 p, g.0 p, count-append p (refers (malloc h).0) xs)),
  (malloc-balance h).1 ∙ g.1,
)

pub copied-Gained :
    (base : Heap) (xs t : List ℕ) (r : Option ℕ × Heap)
    → Gained base (refers r.0 ++ xs) r.1
    → Gained base (refers (str_block (copied t r).0) ++ xs) (copied t r).1
unfolding copied
copied-Gained base xs t (none, h) g = g
copied-Gained base xs t (some p, h) g = g

pub strdup-Gained :
    (base : Heap) (xs : List ℕ) (s : Option (List ℕ)) (h : Heap)
    → Gained base xs h
    → Gained base (refers (str_block (strdup s h).0) ++ xs) (strdup s h).1
unfolding strdup
strdup-Gained base xs none h g = g
strdup-Gained base xs (some s) h g = copied-Gained base xs s (malloc h) (malloc-Gained base xs h g)

pub memdup-Gained :
    (base : Heap) (xs : List ℕ) (s : Option (List ℕ)) (n : ℕ) (h : Heap)
    → Gained base xs h
    → Gained base (refers (str_block (memdup s n h).0) ++ xs) (memdup s n h).1
unfolding memdup
memdup-Gained base xs none n h g = g
memdup-Gained base xs (some s) n h g = elim (Bool-cases (n == size_max)) [
  | inl e ↦ rw e g
  | inr e ↦ rw e (copied-Gained base xs (take n s) (malloc h) (malloc-Gained base xs h g))
]

-- The array as realloc leaves it: the old one, or the new block in its place.
abbrev pub moved_to : Option ℕ → Option ℕ → List ℕ
moved_to old none = refers old
moved_to old (some p) = p ∷ []

pub realloc-Gained :
    (base : Heap) (xs : List ℕ) (old : Option ℕ) (h : Heap)
    → Gained base (refers old ++ xs) h
    → Gained base (moved_to old (realloc old h).0 ++ xs) (realloc old h).1
realloc-Gained base xs old h g = go (realloc old h) balance
  where
    balance :
        ((p : ℕ)
          → count p (realloc old h).1.live + count p (given_up old (realloc old h).0)
            ≡ count p h.live + count p (refers (realloc old h).0))
        × ((realloc old h).1.bad_frees ≡ h.bad_frees)
    balance = realloc-balance old h (λ p. omega (arith, g.0 p, count-append p (refers old) xs))

    go :
        (r : Option ℕ × Heap)
        → ((p : ℕ)
            → count p r.1.live + count p (given_up old r.0) ≡ count p h.live + count p (refers r.0))
          × (r.1.bad_frees ≡ h.bad_frees)
        → Gained base (moved_to old r.0 ++ xs) r.1
    go (none, h') e = ((λ p. omega (arith, e.0 p, g.0 p)), e.1 ∙ g.1)
    go (some q, h') e =
        ((λ p. omega (arith, e.0 p, g.0 p, count-append p (refers old) xs)), e.1 ∙ g.1)

-- Blocks in another order.
pub Gained-perm :
    (base h : Heap) (xs ys : List ℕ)
    → ((p : ℕ) → count p xs ≡ count p ys)
    → Gained base xs h
    → Gained base ys h
Gained-perm base h xs ys e g = ((λ p. omega (arith, e p, g.0 p)), g.1)

-- A block, or none, is released again.
pub sfree-Gained :
    (base : Heap) (o : Option ℕ) (xs : List ℕ) (h : Heap)
    → Gained base (refers o ++ xs) h
    → Gained base xs (sfree o h)
sfree-Gained base o xs h g =
    let f = sfree-live o h (λ p. omega (arith, g.0 p, count-append p (refers o) xs)) in
    ((λ p. omega (arith, f.0 p, g.0 p, count-append p (refers o) xs)), f.1 ∙ g.1)
