-- ===== src/Yaml/Positions.antt =====
-- ryml_get_node_by_path of src/yaml.cpp and printed positions: a path that names a child of a sequence
-- by its number in decimal digits finds that child.
use opentelemetry_c_wrapper.Prelude.{
  ℕ, zero, suc, ◌+◌, ◌-◌, ◌*◌, ◌/◌, ◌%◌, ◌≤◌, ◌≡◌, refl, ap, ◌∙◌, inl, inr, true, ◌&&◌, List, [],
  ◌∷◌, ◌++◌, Option, none, some, leb, ltb, arith, Bool-cases, if◌then◌else◌,
}
use opentelemetry_c_wrapper.Meter.Key.Digits.{digits, digits_from, value_from, digits-value}
use opentelemetry_c_wrapper.Yaml.{Node, sequence, Nodes, child_at, node_at}
use opentelemetry_c_wrapper.Yaml.Path.{decimal, named_child, Sized, node_step-named}

abbrev AreDecimal : List ℕ → Type 0
AreDecimal [] = Unit
AreDecimal (c ∷ cs) = (48 ≤ c) × (c ≤ 57) × AreDecimal cs

AreDecimal-last :
    (cs : List ℕ) (c : ℕ) → AreDecimal cs → 48 ≤ c → c ≤ 57 → AreDecimal (cs ++ c ∷ [])
AreDecimal-last [] c h l u = (l, u, tt)
AreDecimal-last (d ∷ cs) c h l u = (h.0, h.1, AreDecimal-last cs c h.2 l u)

digits_from-AreDecimal : (fuel n : ℕ) → AreDecimal (digits_from fuel n)
unfolding digits_from
digits_from-AreDecimal zero n = tt
digits_from-AreDecimal (suc fuel) n = elim (Bool-cases (ltb n 10)) [
  | inl e ↦ rw e (omega arith, omega arith, tt)
  | inr e ↦ rw e (
      AreDecimal-last (digits_from fuel (n / 10)) (48 + n % 10)
        (digits_from-AreDecimal fuel (n / 10)) (omega arith) (omega arith))
]

decimal-value : (a : ℕ) (cs : List ℕ) → AreDecimal cs → decimal a cs ≡ some (value_from a cs)
unfolding decimal
decimal-value a [] h = refl
decimal-value a (c ∷ cs) h = rw (digit h.0 h.1) (decimal-value (a * 10 + (c - 48)) cs h.2)
  where
    digit : 48 ≤ c → c ≤ 57 → leb 48 c && leb c 57 ≡ true
    digit l u = ground arith

-- A part that reads as a number names the child at that position; there is at least one digit.
named-last :
    (ns : Nodes) (cs : List ℕ) (c i : ℕ)
    → decimal 0 (cs ++ c ∷ []) ≡ some i
    → named_child (sequence ns) (cs ++ c ∷ []) ≡ child_at ns i
unfolding named_child
named-last ns [] c i e = ap (λ (o : Option ℕ). elim o [ none ↦ none | some k ↦ child_at ns k ]) e
named-last ns (d ∷ cs) c i e =
    ap (λ (o : Option ℕ). elim o [ none ↦ none | some k ↦ child_at ns k ]) e

named-digits : (ns : Nodes) (i : ℕ) → named_child (sequence ns) (digits i) ≡ child_at ns i
unfolding digits digits_from
named-digits ns i =
    named-last ns (if ltb i 10 then [] else digits_from i (i / 10)) (48 + i % 10) i (
      decimal-value 0 (digits_from (suc i) i) (digits_from-AreDecimal (suc i) i)
      ∙ ap some (digits-value i))

-- In a sequence that has, like those below it, at most SIZE_MAX children, ryml_get_node_by_path finds
-- with the decimal digits of any number the child at that position, and nothing behind the last one.
pub node_at-digits :
    (ns : Nodes) (i : ℕ)
    → Sized (sequence ns)
    → node_at (sequence ns) (digits i ∷ []) ≡ child_at ns i
unfolding node_at
node_at-digits ns i h =
    ap (λ o. elim o [ none ↦ none | some m ↦ some m ])
      (node_step-named (sequence ns) (digits i) h ∙ named-digits ns i)
    ∙ same (child_at ns i)
  where
    same : (o : Option Node) → elim o [ none ↦ none | some m ↦ some m ] ≡ o
    same none = refl
    same (some m) = refl
