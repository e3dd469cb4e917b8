-- ===== src/TextMap/Lifetime.antt =====
-- The life of a text map of src/util.cpp: made, filled by any calls of otelc_text_map_add, and
-- destroyed.
use opentelemetry_c_wrapper.Prelude.{
  ℕ, ◌+◌, ◌≤◌, ◌≡◌, refl, ◌∙◌, ap, ◌++◌, append_assoc, append-nil, ltb, Bool, true, false, List, [],
  ◌∷◌, Option, none, some, arith, count, count-append, if◌then◌else◌,
}
use opentelemetry_c_wrapper.Heap.{Heap}
use opentelemetry_c_wrapper.TextMap.{
  TextMap, Str, Flags, Made, auto, text_map_new, text_map_destroy,
}
use opentelemetry_c_wrapper.TextMap.Owned.{IsValid, owned, all_owned, Frees-text_map_destroy}
use opentelemetry_c_wrapper.Heap.Balance.{Gained}
use opentelemetry_c_wrapper.TextMap.Make.{IsOutcome, left_owned, text_map_new-Makes}
use opentelemetry_c_wrapper.TextMap.Add.{add_pair}
use opentelemetry_c_wrapper.TextMap.Add.Entry.{adopted, IsIndex}
use opentelemetry_c_wrapper.TextMap.Add.Total.{add_pair-Adds}

-- The arguments of one call.
pub record Request : Type 0 where
  pub key : Str
  pub key_len : ℕ
  pub value : Str
  pub value_len : ℕ
  pub flags : Flags

abbrev pub add_one : Request → TextMap → Heap → Option ℕ × TextMap × Heap
add_one q m h = add_pair m q.key q.key_len q.value q.value_len q.flags h

-- Failed adds are passed over.
pub fill : List Request → TextMap → Heap → TextMap × Heap
fill [] m h = (m, h)
fill (q ∷ qs) m h = let r = add_one q m h in fill qs r.1 r.2

pub lifetime_of : List Request → Made → Heap
unfolding fill
lifetime_of qs r = elim r.left [
  | none ↦ r.heap
  | some m ↦
      if r.made
      then (text_map_destroy (some (fill qs m r.heap).0) (fill qs m r.heap).1).1
      else r.heap
]

pub lifetime : Option ℕ → ℕ → List Request → Heap → Heap
unfolding lifetime_of
lifetime o n qs h = lifetime_of qs (text_map_new o n h)

-- The caller's blocks that the requests offer to the map, and those that the map takes: the strings
-- with FREE and without DUP, of the adds that put their pair into the map.
unfoldable pub offered : List Request → List ℕ
offered [] = []
offered (q ∷ qs) = adopted true q.flags q.key q.value ++ offered qs

unfoldable pub taken : List Request → TextMap → Heap → List ℕ
taken [] m h = []
taken (q ∷ qs) m h =
    let r = add_one q m h in
    adopted (ltb m.count r.1.count) q.flags q.key q.value ++ taken qs r.1 r.2

unfoldable pub lifetime_taken : List Request → Made → List ℕ
unfolding taken
lifetime_taken qs r = elim r.left [ none ↦ [] | some m ↦ if r.made then taken qs m r.heap else [] ]

pub record Fills (base : Heap) (m : TextMap) (h : Heap) : Type 0 where
  pub valid : IsValid m
  pub gained : Gained base (all_owned m) h

-- The same, when the map has taken blocks of `base` over.
record Owes (base : Heap) (xs : List ℕ) (m : TextMap) (h : Heap) : Type 0 where
  valid : IsValid m
  balance : (p : ℕ) → count p h.live + count p xs ≡ count p base.live + count p (all_owned m)
  no_bad_free : h.bad_frees ≡ base.bad_frees

-- With OTELC_TEXT_MAP_AUTO nothing of the caller's is handed over.
adopted-auto : (b : Bool) (k v : Str) → adopted b auto k v ≡ []
adopted-auto false k v = refl
adopted-auto true k v = refl

abbrev frame : TextMap → List ℕ
frame m = if m.is_dynamic then m.addr ∷ [] else []

frame-eq : (m n : TextMap) → n.addr ≡ m.addr → n.is_dynamic ≡ m.is_dynamic → frame n ≡ frame m
frame-eq m n e d = rw (e, d)

Owes-add :
    (k : Str) (kn : ℕ) (s : Str) (sn : ℕ) (f : Flags) (base : Heap) (xs : List ℕ) (m : TextMap)
    (h : Heap)
    → Owes base xs m h
    → ((p : ℕ) → count p xs ≤ count p base.live)
    → let r = add_pair m k kn s sn f h in
      (b : Bool) × (b ≡ ltb m.count r.1.count) × Owes base (xs ++ adopted b f k s) r.1 r.2
Owes-add k kn s sn f base xs m h w l =
    let r = add_pair m k kn s sn f h in
    let a =
      add_pair-Adds m k kn s sn f h w.valid
        (λ p. omega (arith, w.balance p, l p, count-append p (owned m) (frame m))) in
    (
      a.stored,
      grew a.stored r.0 r.1 a.index,
      record {
        valid = a.valid;
        balance = λ p. omega (
          arith,
          w.balance p,
          a.balance p,
          ap (count p) (frame-eq m r.1 a.same_addr a.same_dynamic),
          count-append p xs (adopted a.stored f k s),
          count-append p (owned m) (frame m),
          count-append p (owned r.1) (frame r.1),
        );
        no_bad_free = a.no_bad_free ∙ w.no_bad_free;
      },
    )
  where
    grew : (b : Bool) (i : Option ℕ) (n : TextMap) → IsIndex b i m n → b ≡ ltb m.count n.count
    grew false i n e = ground (arith, e.1)
    grew true i n e = ground (arith, e.1)

pub Fills-add :
    (k : Str) (kn : ℕ) (s : Str) (sn : ℕ) (base : Heap) (m : TextMap) (h : Heap)
    → Fills base m h
    → let r = add_pair m k kn s sn auto h in Fills base r.1 r.2
Fills-add k kn s sn base m h w =
    let (b, e, o) =
      Owes-add k kn s sn auto base [] m h
        (record {
          valid = w.valid;
          balance = λ p. omega (arith, w.gained.0 p);
          no_bad_free = w.gained.1;
        })
        (λ p. omega arith) in
    record {
      valid = o.valid;
      gained =
          ((λ p. omega (arith, o.balance p, ap (count p) (adopted-auto b k s))), o.no_bad_free);
    }

adopted-le :
    (b : Bool) (f : Flags) (k s : Str) (p : ℕ)
    → count p (adopted b f k s) ≤ count p (adopted true f k s)
adopted-le false f k s p = omega arith
adopted-le true f k s p = omega arith

fill-Owes :
    (qs : List Request) (base : Heap) (xs : List ℕ) (m : TextMap) (h : Heap)
    → Owes base xs m h
    → ((p : ℕ) → count p xs + count p (offered qs) ≤ count p base.live)
    → Owes base (xs ++ taken qs m h) (fill qs m h).0 (fill qs m h).1
unfolding fill offered taken
fill-Owes [] base xs m h w l = rw append-nil w
fill-Owes (q ∷ qs) base xs m h w l =
    let own = adopted true q.flags q.key q.value in
    let (b, e, o) =
      Owes-add q.key q.key_len q.value q.value_len q.flags base xs m h w
        (λ p. omega (arith, l p)) in
    let got = adopted b q.flags q.key q.value in
    let more = fill-Owes qs base (xs ++ got) _ _ o (λ p. omega (
      arith,
      l p,
      count-append p own (offered qs),
      count-append p xs got,
      adopted-le b q.flags q.key q.value p,
    )) in
    rw (← e) (rw (← append_assoc xs got (taken qs (add_one q m h).1 (add_one q m h).2)) more)

-- Over `base`, the heap lost the listed references and nothing else, and no free was bad.
abbrev pub Leaves : Heap → List ℕ → Heap → Type 0
Leaves base xs h =
    ((p : ℕ) → count p h.live + count p xs ≡ count p base.live) × (h.bad_frees ≡ base.bad_frees)

destroyed-Leaves :
    (base : Heap) (xs : List ℕ) (m : TextMap) (h : Heap)
    → Owes base xs m h
    → ((p : ℕ) → count p xs ≤ count p base.live)
    → Leaves base xs (text_map_destroy (some m) h).1
destroyed-Leaves base xs m h w l =
    let r =
      (Frees-text_map_destroy m w.valid.shaped).frees h (λ p. omega (arith, w.balance p, l p)) in
    ((λ p. omega (arith, r.0 p, w.balance p)), r.1 ∙ w.no_bad_free)

taken-le :
    (qs : List Request) (m : TextMap) (h : Heap) (p : ℕ)
    → count p (taken qs m h) ≤ count p (offered qs)
unfolding taken offered
taken-le [] m h p = omega arith
taken-le (q ∷ qs) m h p =
    let r = add_one q m h in
    omega (
      arith,
      taken-le qs r.1 r.2 p,
      adopted-le (ltb m.count r.1.count) q.flags q.key q.value p,
      count-append p (adopted true q.flags q.key q.value) (offered qs),
      count-append p (adopted (ltb m.count r.1.count) q.flags q.key q.value) (taken qs r.1 r.2),
    )

lifetime_of-Leaves :
    (qs : List Request) (n : ℕ) (base : Heap) (made : Bool) (left : Option TextMap) (h : Heap)
    → ((p : ℕ) → count p (offered qs) ≤ count p base.live)
    → Gained base (left_owned left) h
    → IsOutcome n made left
    → let r : Made = record { made = made; left = left; heap = h } in
      Leaves base (lifetime_taken qs r) (lifetime_of qs r)
unfolding lifetime_of lifetime_taken
lifetime_of-Leaves qs n base made none h l g o = ((λ p. omega (arith, g.0 p)), g.1)
lifetime_of-Leaves qs n base true (some m) h l g o =
    destroyed-Leaves base (taken qs m h) _ _
      (fill-Owes qs base [] m h
        (record { valid = o.0; balance = λ p. omega (arith, g.0 p); no_bad_free = g.1 })
        (λ p. omega (arith, l p)))
      (λ p. omega (arith, l p, taken-le qs m h p))
lifetime_of-Leaves qs n base false (some m) h l g o =
    ((λ p. omega (arith, g.0 p, ap (count p) o.0)), g.1)

-- A text map leaks nothing and frees nothing twice: made over any structure with any size, filled
-- by any sequence of adds with any flags and destroyed, with any of the allocations failing, it
-- leaves the heap with the blocks that it had before, less those of the caller's strings that the
-- adds handed over to it. What is offered for that must be live, each block once.
pub lifetime-Restored :
    (o : Option ℕ) (n : ℕ) (qs : List Request) (h : Heap)
    → ((p : ℕ) → count p (offered qs) ≤ count p h.live)
    → Leaves h (lifetime_taken qs (text_map_new o n h)) (lifetime o n qs h)
unfolding lifetime
lifetime-Restored o n qs h l =
    let w = text_map_new-Makes o n h in lifetime_of-Leaves qs n h _ _ _ l w.0 w.1
