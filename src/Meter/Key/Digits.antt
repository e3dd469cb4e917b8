-- ===== src/Meter/Key/Digits.antt =====
-- The decimal digits of a number, as std::to_string writes them, and their value.
use opentelemetry_c_wrapper.Prelude.{
  ℕ, zero, suc, ◌+◌, ◌-◌, ◌*◌, ◌/◌, ◌%◌, ◌≤◌, ◌<◌, ◌≡◌, refl, ◌∙◌, List, [], ◌∷◌, ◌++◌, ltb,
  if◌then◌else◌, arith, Bool-cases, inl, inr,
}

-- On fuel: a number has no more digits than its value and one.
unfoldable pub digits_from : ℕ → ℕ → List ℕ
digits_from zero n = []
digits_from (suc fuel) n =
    let rest = digits_from fuel (n / 10) in (if ltb n 10 then [] else rest) ++ (48 + n % 10) ∷ []

unfoldable pub digits : ℕ → List ℕ
unfolding digits_from
digits n = digits_from (suc n) n

abbrev pub AreDigits : List ℕ → Type 0
AreDigits [] = Unit
AreDigits (c ∷ cs) = (48 ≤ c) × AreDigits cs

abbrev pub value_from : ℕ → List ℕ → ℕ
value_from a [] = a
value_from a (c ∷ cs) = value_from (a * 10 + (c - 48)) cs

abbrev pub value : List ℕ → ℕ
value cs = value_from 0 cs

AreDigits-last : (cs : List ℕ) (c : ℕ) → AreDigits cs → 48 ≤ c → AreDigits (cs ++ c ∷ [])
AreDigits-last [] c h l = (l, tt)
AreDigits-last (d ∷ cs) c h l = (h.0, AreDigits-last cs c h.1 l)

digits_from-AreDigits : (fuel n : ℕ) → AreDigits (digits_from fuel n)
unfolding digits_from
digits_from-AreDigits zero n = tt
digits_from-AreDigits (suc fuel) n = elim (Bool-cases (ltb n 10)) [
  | inl e ↦ rw e (omega arith, tt)
  | inr e ↦ rw e (
      AreDigits-last (digits_from fuel (n / 10)) (48 + n % 10) (digits_from-AreDigits fuel (n / 10))
        (omega arith))
]

pub digits-AreDigits : (n : ℕ) → AreDigits (digits n)
unfolding digits
digits-AreDigits n = digits_from-AreDigits (suc n) n

value-last :
    (a : ℕ) (cs : List ℕ) (c : ℕ) → value_from a (cs ++ c ∷ []) ≡ value_from a cs * 10 + (c - 48)
value-last a [] c = refl
value-last a (d ∷ cs) c = value-last (a * 10 + (d - 48)) cs c

digits_from-value : (fuel n : ℕ) → n < fuel → value (digits_from fuel n) ≡ n
unfolding digits_from
digits_from-value zero n h = absurd (omega arith)
digits_from-value (suc fuel) n h = elim (Bool-cases (ltb n 10)) [
  | inl e ↦ rw e (ground arith)
  | inr e ↦ rw e (
      value-last 0 (digits_from fuel (n / 10)) (48 + n % 10)
      ∙ ground (arith, digits_from-value fuel (n / 10)))
]

-- The digits of a number have its value.
pub digits-value : (n : ℕ) → value (digits n) ≡ n
unfolding digits
digits-value n = digits_from-value (suc n) n (omega arith)
