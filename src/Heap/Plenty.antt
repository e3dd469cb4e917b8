-- ===== src/Heap/Plenty.antt =====
-- A heap that refuses no allocation from now on.
use opentelemetry_c_wrapper.Prelude.{ℕ, ◌≡◌, refl, [], Option, none, some, arith}
use opentelemetry_c_wrapper.Heap.{Heap, malloc, answered, free, sfree, realloc, moved}

abbrev pub HasPlenty : Heap → Type 0
HasPlenty h = h.answers ≡ []

-- The answer is a block, and there is plenty left.
abbrev pub Succeeds : Option ℕ × Heap → Type 0
Succeeds r = ((b : ℕ) × (r.0 ≡ some b)) × HasPlenty r.1

pub sfree-HasPlenty : (o : Option ℕ) (h : Heap) → HasPlenty h → HasPlenty (sfree o h)
unfolding free
sfree-HasPlenty none h e = e
sfree-HasPlenty (some p) h e = ground arith

pub malloc-Succeeds : (h : Heap) → HasPlenty h → Succeeds (malloc h)
unfolding malloc answered
malloc-Succeeds h e = rw (e, answered) ((h.next, refl), refl)

pub realloc-Succeeds : (old : Option ℕ) (h : Heap) → HasPlenty h → Succeeds (realloc old h)
unfolding realloc
realloc-Succeeds old h e = go (malloc h) (malloc-Succeeds h e)
  where
    go : (r : Option ℕ × Heap) → Succeeds r → Succeeds (moved old r)
    go (none, g) s = unfold moved in absurd (cc (s.0.1))
    go (some b, g) s = unfold moved in ((b, refl), sfree-HasPlenty old g s.1)
