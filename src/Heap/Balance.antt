-- ===== src/Heap/Balance.antt =====
-- What each allocator call does to the number of references to every address.
use opentelemetry_c_wrapper.Prelude.{
  ℕ, ◌+◌, ◌≤◌, ◌<◌, ◌≡◌, refl, ◌∙◌, Bool, true, false, List, [], ◌∷◌, Option, none, some, arith,
  count,
}
use opentelemetry_c_wrapper.Heap.{
  Heap, remove, malloc, answered, free, sfree, realloc, moved, refers,
}

count-remove :
    (p q : ℕ) (xs : List ℕ) → 0 < count q xs → count p (remove q xs) + count p (q ∷ []) ≡ count p xs
unfolding remove
count-remove p q [] h = elim h [ ]
count-remove p q (x ∷ xs) h = ground (arith, count-remove p q xs)

-- Freeing a live block takes off one reference and is no bad free.
pub free-live :
    (q : ℕ) (h : Heap)
    → 0 < count q h.live
    → ((p : ℕ) → count p (free q h).live + count p (q ∷ []) ≡ count p h.live)
      × ((free q h).bad_frees ≡ h.bad_frees)
unfolding free
free-live q h l = ((λ p. ground (arith, count-remove p q h.live)), ground arith)

pub sfree-live :
    (o : Option ℕ) (h : Heap)
    → ((p : ℕ) → count p (refers o) ≤ count p h.live)
    → ((p : ℕ) → count p (sfree o h).live + count p (refers o) ≡ count p h.live)
      × ((sfree o h).bad_frees ≡ h.bad_frees)
sfree-live none h l = ((λ p. omega arith), refl)
sfree-live (some q) h l = free-live q h (ground (arith, l q))

-- An allocation adds the reference that it returns, and nothing when it fails.
pub malloc-balance :
    (h : Heap)
    → ((p : ℕ) → count p (malloc h).1.live ≡ count p h.live + count p (refers (malloc h).0))
      × ((malloc h).1.bad_frees ≡ h.bad_frees)
unfolding malloc answered
malloc-balance h = go h.answers
  where
    go :
        (bs : List Bool)
        → ((p : ℕ)
            → count p (answered h bs).1.live ≡ count p h.live + count p (refers (answered h bs).0))
          × ((answered h bs).1.bad_frees ≡ h.bad_frees)
    go [] = ((λ p. omega arith), refl)
    go (true ∷ bs) = ((λ p. omega arith), refl)
    go (false ∷ bs) = ((λ p. omega arith), refl)

-- The references that a realloc with the given result gives up.
abbrev pub given_up : Option ℕ → Option ℕ → List ℕ
given_up old none = []
given_up old (some q) = refers old

-- A realloc of a live block (or of NULL) trades its reference for the returned one, or fails
-- and changes no reference.
pub realloc-balance :
    (old : Option ℕ) (h : Heap)
    → ((p : ℕ) → count p (refers old) ≤ count p h.live)
    → ((p : ℕ)
        → count p (realloc old h).1.live + count p (given_up old (realloc old h).0)
          ≡ count p h.live + count p (refers (realloc old h).0))
      × ((realloc old h).1.bad_frees ≡ h.bad_frees)
unfolding realloc
realloc-balance old h l = go (malloc h) (malloc-balance h)
  where
    go :
        (r : Option ℕ × Heap)
        → ((p : ℕ) → count p r.1.live ≡ count p h.live + count p (refers r.0))
          × (r.1.bad_frees ≡ h.bad_frees)
        → ((p : ℕ)
            → count p (moved old r).1.live + count p (given_up old (moved old r).0)
              ≡ count p h.live + count p (refers (moved old r).0))
          × ((moved old r).1.bad_frees ≡ h.bad_frees)
    go (none, h') e = unfold moved in ((λ p. omega (arith, e.0 p)), e.1)
    go (some q, h') e =
        unfold moved in
        let f = sfree-live old h' (λ p. omega (arith, e.0 p, l p)) in
        ((λ p. omega (arith, f.0 p, e.0 p)), omega (arith, f.1, e.1))

-- `h` is `base` with the listed references on top, and no bad free since.
abbrev pub Gained : Heap → List ℕ → Heap → Type 0
Gained base xs h =
    ((p : ℕ) → count p h.live ≡ count p base.live + count p xs) × (h.bad_frees ≡ base.bad_frees)

-- A block that the list holds is freed.
pub Gained-free :
    (base : Heap) (xs ys : List ℕ) (q : ℕ) (h : Heap)
    → Gained base xs h
    → ((p : ℕ) → count p xs ≡ count p ys + count p (q ∷ []))
    → Gained base ys (free q h)
Gained-free base xs ys q h g e =
    let f = free-live q h (ground (arith, g.0 q, e q)) in
    ((λ p. omega (arith, f.0 p, g.0 p, e p)), f.1 ∙ g.1)

-- The heap has the references that it had before, and no bad free more.
abbrev pub Restored : Heap → Heap → Type 0
Restored base h = ((p : ℕ) → count p h.live ≡ count p base.live) × (h.bad_frees ≡ base.bad_frees)
