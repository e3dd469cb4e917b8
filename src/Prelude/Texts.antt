-- ===== src/Prelude/Texts.antt =====
-- Equality of byte strings.
use Prim.Native.Nat.{ℕ}
use mathlib.Core.Path.{◌≡◌, refl, sym, ap, ◌∙◌}
use mathlib.Core.Logic.{◌≢◌, ◌⊎◌, inl, inr}
use mathlib.Core.Bool.{Bool, true, false, ◌&&◌}
use mathlib.Core.List.{List, [], ◌∷◌}
use native.Mathlib.Omega.{arith}
use opentelemetry_c_wrapper.Prelude.Tests.{◌==◌, Bool-cases}

unfoldable pub eq_text : List ℕ → List ℕ → Bool
eq_text [] [] = true
eq_text [] (d ∷ ds) = false
eq_text (c ∷ cs) [] = false
eq_text (c ∷ cs) (d ∷ ds) = (c == d) && eq_text cs ds

pub eq_text_refl : (k : List ℕ) → eq_text k k ≡ true
unfolding eq_text
eq_text_refl [] = refl
eq_text_refl (c ∷ cs) = ground (arith, eq_text_refl cs)

pub eq_text_sound : (k l : List ℕ) → eq_text k l ≡ true → k ≡ l
unfolding eq_text
eq_text_sound [] [] e = refl
eq_text_sound [] (d ∷ ds) e = absurd (cc (e))
eq_text_sound (c ∷ cs) [] e = absurd (cc (e))
eq_text_sound (c ∷ cs) (d ∷ ds) e = let h = parts e in cc (h.0, eq_text_sound cs ds h.1)
  where
    parts : (c == d) && eq_text cs ds ≡ true → (c ≡ d) × (eq_text cs ds ≡ true)
    parts q = ground arith

pub text-cases : (k l : List ℕ) → (k ≡ l) ⊎ (k ≢ l)
text-cases k l = elim (Bool-cases (eq_text k l)) [
  | inl e ↦ inl (eq_text_sound k l e)
  | inr e ↦ inr (λ q. apart (eq_text k l) (ap (eq_text k) (sym q) ∙ eq_text_refl k) e)
]
  where
    apart : (b : Bool) → b ≡ true → b ≡ false → ⊥
    apart b t f = cc (t, f)
