-- ===== src/Meter/Key.antt =====
-- otel_meter_instrument_key of src/meter.cpp: two instruments share a key exactly when their names
-- differ in the case of letters at most and they have the same type.
pub mod Digits
use opentelemetry_c_wrapper.Prelude.{
  ℕ, zero, suc, ◌+◌, ◌-◌, ◌*◌, ◌/◌, ◌%◌, ◌^◌, ◌≤◌, ◌<◌, ◌≡◌, ◌≢◌, refl, sym, ap, ◌∙◌, Bool, true,
  false, ◌&&◌, ◌⊎◌, inl, inr, ◌↔◌, List, [], ◌∷◌, ◌++◌, map, leb, ltb, if◌then◌else◌, arith,
  Bool-cases,
}
use opentelemetry_c_wrapper.Meter.{
  InstrumentType, counter_uint64, counter_double, histogram_uint64, histogram_double,
  udcounter_int64, udcounter_double, observable_counter_int64, observable_counter_double,
  observable_gauge_int64, observable_gauge_double, observable_udcounter_int64,
  observable_udcounter_double, gauge_int64, gauge_double, other,
}
use opentelemetry_c_wrapper.Meter.Key.Digits.{
  digits, digits-AreDigits, digits-value, AreDigits, value,
}

-- The value of the enumeration, as the bits of an int.
abbrev pub as_int : InstrumentType → ℕ
as_int counter_uint64 = 0
as_int counter_double = 1
as_int histogram_uint64 = 2
as_int histogram_double = 3
as_int udcounter_int64 = 4
as_int udcounter_double = 5
as_int observable_counter_int64 = 6
as_int observable_counter_double = 7
as_int observable_gauge_int64 = 8
as_int observable_gauge_double = 9
as_int observable_udcounter_int64 = 10
as_int observable_udcounter_double = 11
as_int gauge_int64 = 12
as_int gauge_double = 13
as_int (other n) = n

-- std::to_string of an int, from its bits.
abbrev pub to_string : ℕ → List ℕ
to_string n = if ltb n (2 ^ 31) then digits n else 45 ∷ digits (2 ^ 32 - n)

-- Letters of ASCII in lower case; every other byte stays.
abbrev pub lower : ℕ → ℕ
lower c = if leb 65 c && leb c 90 then c + 32 else c

-- otel_meter_instrument_key; that memory runs out is left to the caller.
unfoldable pub instrument_key : List ℕ → InstrumentType → List ℕ
instrument_key name t = map lower name ++ 47 ∷ to_string (as_int t)

abbrev NoSlash : List ℕ → Type 0
NoSlash [] = Unit
NoSlash (c ∷ cs) = (c ≢ 47) × NoSlash cs

AreDigits-NoSlash : (cs : List ℕ) → AreDigits cs → NoSlash cs
AreDigits-NoSlash [] h = tt
AreDigits-NoSlash (c ∷ cs) h = ((λ e. omega (arith, h.0)), AreDigits-NoSlash cs h.1)

to_string-NoSlash : (n : ℕ) → NoSlash (to_string n)
to_string-NoSlash n = elim (Bool-cases (ltb n (2 ^ 31))) [
  | inl e ↦ rw e (AreDigits-NoSlash (digits n) (digits-AreDigits n))
  | inr e ↦
      rw e (
        (λ q. omega arith),
        AreDigits-NoSlash (digits (2 ^ 32 - n)) (digits-AreDigits (2 ^ 32 - n)),
      )
]

-- The last slash cuts a text in one way only.
NoSlash-append : (xs ys : List ℕ) → NoSlash (xs ++ 47 ∷ ys) → ⊥
NoSlash-append [] ys h = h.0 refl
NoSlash-append (x ∷ xs) ys h = NoSlash-append xs ys h.1

cut :
    (xs ys s t : List ℕ) → NoSlash s → NoSlash t → xs ++ 47 ∷ s ≡ ys ++ 47 ∷ t → (xs ≡ ys) × (s ≡ t)
cut [] [] s t hs ht e = (refl, cc (e))
cut [] (y ∷ ys) s t hs ht e = absurd (NoSlash-append ys t (rw (sym (tail_eq e)) hs))
  where
    tail_eq : 47 ∷ s ≡ y ∷ (ys ++ 47 ∷ t) → s ≡ ys ++ 47 ∷ t
    tail_eq q = cc (q)
cut (x ∷ xs) [] s t hs ht e = absurd (NoSlash-append xs s (rw (tail_eq e) ht))
  where
    tail_eq : x ∷ (xs ++ 47 ∷ s) ≡ 47 ∷ t → xs ++ 47 ∷ s ≡ t
    tail_eq q = cc (q)
cut (x ∷ xs) (y ∷ ys) s t hs ht e = let r = cut xs ys s t hs ht (cc (e)) in (cc (e, r.0), r.1)

digits-inj : (a b : ℕ) → digits a ≡ digits b → a ≡ b
digits-inj a b e = sym (digits-value a) ∙ ap value e ∙ digits-value b

-- A number without a sign is not one with a sign.
digits-unsigned : (a : ℕ) (cs : List ℕ) → digits a ≢ 45 ∷ cs
digits-unsigned a cs e = go (digits a) e (digits-AreDigits a)
  where
    go : (ds : List ℕ) → ds ≡ 45 ∷ cs → AreDigits ds → ⊥
    go [] q h = absurd (cc (q))
    go (d ∷ ds) q h = same (cc (q)) h.0
      where
        same : d ≡ 45 → 48 ≤ d → ⊥
        same q' l = omega arith

to_string-inj : (a b : ℕ) → a < 2 ^ 32 → b < 2 ^ 32 → to_string a ≡ to_string b → a ≡ b
to_string-inj a b la lb = elim (Bool-cases (ltb a (2 ^ 31))) [
  | inl ea ↦ elim (Bool-cases (ltb b (2 ^ 31))) [
    | inl eb ↦ rw (ea, eb) (digits-inj a b)
    | inr eb ↦ rw (ea, eb) (λ e. absurd (digits-unsigned a (digits (2 ^ 32 - b)) e))
  ]
  | inr ea ↦ elim (Bool-cases (ltb b (2 ^ 31))) [
    | inl eb ↦ rw (ea, eb) (λ e. absurd (digits-unsigned b (digits (2 ^ 32 - a)) (sym e)))
    | inr eb ↦
        rw (ea, eb) (λ e. let d = digits-inj (2 ^ 32 - a) (2 ^ 32 - b) (cc (e)) in omega arith)
  ]
]

-- The key of an instrument, for types that are bits of an int: two keys are equal exactly when the
-- names are equal up to the case of ASCII letters and the types are equal.
pub instrument_key_iff :
    (name name' : List ℕ) (t t' : InstrumentType)
    → as_int t < 2 ^ 32
    → as_int t' < 2 ^ 32
    → (instrument_key name t ≡ instrument_key name' t')
      ↔ ((map lower name ≡ map lower name') × (as_int t ≡ as_int t'))
unfolding instrument_key
instrument_key_iff name name' t t' l l' = (
  λ e.
      let c =
        cut (map lower name) (map lower name') (to_string (as_int t)) (to_string (as_int t'))
          (to_string-NoSlash (as_int t)) (to_string-NoSlash (as_int t')) e in
      (c.0, to_string-inj (as_int t) (as_int t') l l' c.1),
  λ e. rw (e.0, e.1) refl,
)
