-- ===== src/Heap.antt =====
-- The C allocator that the wrapper calls (malloc, calloc, realloc and free, by the OTELC_ macros
-- of include/opentelemetry-c-wrapper/dbg_malloc.h), seen as a set of live blocks. Which calls
-- run out of memory is an input, so a theorem for every heap covers every pattern of failures.
pub mod Balance
pub mod Plenty
use opentelemetry_c_wrapper.Prelude.{
  ℕ, suc, ◌+◌, Bool, true, false, List, [], ◌∷◌, Option, none, some, ◌==◌, if◌then◌else◌, count,
  ltb,
}

-- `next` is an address never handed out yet; `answers` says for the coming allocations whether
-- there is memory (they all succeed behind the end of the list); `bad_frees` counts the calls of
-- free on a block that is not live.
pub record Heap : Type 0 where
  pub next : ℕ
  pub live : List ℕ
  pub answers : List Bool
  pub bad_frees : ℕ

-- Takes one reference to a block off a list.
unfoldable pub remove : ℕ → List ℕ → List ℕ
remove p [] = []
remove p (q ∷ qs) = if q == p then qs else q ∷ remove p qs

unfoldable pub hand_out : Heap → List Bool → Option ℕ × Heap
hand_out h rest =
    (some h.next, record h { next = suc h.next; live = h.next ∷ h.live; answers = rest })

unfoldable pub answered : Heap → List Bool → Option ℕ × Heap
unfolding hand_out
answered h [] = hand_out h []
answered h (true ∷ rest) = hand_out h rest
answered h (false ∷ rest) = (none, record h { answers = rest })

-- malloc and calloc: a block that was never handed out before, or NULL.
unfoldable pub malloc : Heap → Option ℕ × Heap
unfolding answered
malloc h = answered h h.answers

unfoldable pub free : ℕ → Heap → Heap
free p h =
    if ltb 0 (count p h.live)
    then record h { live = remove p h.live }
    else record h { bad_frees = suc h.bad_frees }

-- OTELC_SFREE: a null pointer is left alone.
abbrev pub sfree : Option ℕ → Heap → Heap
sfree none h = h
sfree (some p) h = free p h

moved : Option ℕ → Option ℕ × Heap → Option ℕ × Heap
moved old (none, h) = (none, h)
moved old (some q, h) = (some q, sfree old h)

-- realloc: the block moves on success and stays as it is on failure.
pub realloc : Option ℕ → Heap → Option ℕ × Heap
unfolding moved
realloc old h = moved old (malloc h)

-- The blocks that a nullable pointer refers to.
abbrev pub refers : Option ℕ → List ℕ
refers none = []
refers (some p) = p ∷ []
