-- ===== src/TextMap/Cells.antt =====
-- What depends only on the first `n` cells of the arrays of a text map does not change when cells
-- behind them do.
use opentelemetry_c_wrapper.Prelude.{
  ℕ, zero, suc, ◌≤◌, ◌≡◌, ◌∙◌, refl, sym, ap, append_assoc, append-nil, Bool, List, [], ◌∷◌, ◌++◌,
  Option, none, some, arith, if◌then◌else◌, length, take, set,
}
use opentelemetry_c_wrapper.Heap.{refers}
use opentelemetry_c_wrapper.TextMap.{Str, Flags, str_block}
use opentelemetry_c_wrapper.TextMap.Owned.{selected, Filled, IsArray}

module _ {ℓ} {A : Type ℓ} where
  pub take-take_append :
      (n s : ℕ) (xs zs : List A) → n ≤ s → s ≤ length xs → take n (take s xs ++ zs) ≡ take n xs
  take-take_append zero s xs zs h k = refl
  take-take_append (suc n) zero xs zs h k = absurd (omega arith)
  take-take_append (suc n) (suc s) [] zs h k = absurd (omega arith)
  take-take_append (suc n) (suc s) (x ∷ xs) zs h k =
      ap (◌∷◌ x) (take-take_append n s xs zs (omega arith) (omega arith))

  pub take-set : (n : ℕ) (xs : List A) (v : A) → take n (set xs n v) ≡ take n xs
  take-set zero xs v = refl
  take-set (suc n) [] v = refl
  take-set (suc n) (x ∷ xs) v = ap (◌∷◌ x) (take-set n xs v)

  pub length-take_le : (n : ℕ) (xs : List A) → n ≤ length xs → length (take n xs) ≡ n
  length-take_le zero xs h = refl
  length-take_le (suc n) [] h = absurd (omega arith)
  length-take_le (suc n) (x ∷ xs) h = ap suc (length-take_le n xs (omega arith))

selected-take :
    (owns : Flags → Bool) (n : ℕ) (fs : List Flags) (ss : List (Option Str))
    → selected owns n (take n fs) (take n ss) ≡ selected owns n fs ss
unfolding selected
selected-take owns zero fs ss = refl
selected-take owns (suc n) [] ss = refl
selected-take owns (suc n) (f ∷ fs) [] = refl
selected-take owns (suc n) (f ∷ fs) (s ∷ ss) =
    ap (◌++◌ (if owns f then refers (str_block s) else [])) (selected-take owns n fs ss)

pub selected-agree :
    (owns : Flags → Bool) (n : ℕ) (fs gs : List Flags) (ss ts : List (Option Str))
    → take n fs ≡ take n gs
    → take n ss ≡ take n ts
    → selected owns n fs ss ≡ selected owns n gs ts
selected-agree owns n fs gs ss ts e d = cc (selected-take owns n fs ss, selected-take owns n gs ts)

pub Filled-agree :
    (n : ℕ) (ss ts : List (Option Str)) → take n ss ≡ take n ts → Filled n ss → Filled n ts
Filled-agree zero ss ts e f = tt
Filled-agree (suc n) [] ts e f = absurd f
Filled-agree (suc n) (none ∷ ss) ts e f = absurd f
Filled-agree (suc n) (some s ∷ ss) [] e f = cc
Filled-agree (suc n) (some s ∷ ss) (none ∷ ts) e f = cc
Filled-agree (suc n) (some s ∷ ss) (some t ∷ ts) e f = Filled-agree n ss ts (cc) f

-- One more cell, written behind the first `n`.
pub Filled-set :
    (n : ℕ) (ss : List (Option Str)) (s : Str)
    → suc n ≤ length ss
    → Filled n ss
    → Filled (suc n) (set ss n (some s))
Filled-set zero [] s h f = absurd (omega arith)
Filled-set zero (t ∷ ss) s h f = tt
Filled-set (suc n) [] s h f = absurd f
Filled-set (suc n) (none ∷ ss) s h f = absurd f
Filled-set (suc n) (some t ∷ ss) s h f = Filled-set n ss s (omega arith) f

-- A cell written behind the first `n` adds its string to the owned ones, if its flag says so.
pub selected-set :
    (owns : Flags → Bool) (n : ℕ) (fs : List Flags) (ss : List (Option Str)) (f : Flags) (s : Str)
    → suc n ≤ length fs
    → suc n ≤ length ss
    → selected owns (suc n) (set fs n f) (set ss n (some s))
      ≡ selected owns n fs ss ++ (if owns f then s.addr ∷ [] else [])
unfolding selected
selected-set owns n [] ss f s h k = absurd (omega arith)
selected-set owns n (g ∷ fs) [] f s h k = absurd (omega arith)
selected-set owns zero (g ∷ fs) (t ∷ ss) f s h k = rw append-nil
selected-set owns (suc n) (g ∷ fs) (t ∷ ss) f s h k =
    ap (◌++◌ (if owns g then refers (str_block t) else []))
      (selected-set owns n fs ss f s (omega arith) (omega arith))
    ∙ sym (append_assoc _ (selected owns n fs ss) _)

pub IsArray-set {ℓ} :
    {A : Type ℓ} (o : Option ℕ) (xs : List A) (n : ℕ) (x : A)
    → IsArray o xs
    → IsArray o (set xs n x)
IsArray-set none xs n x e = rw e
IsArray-set (some b) xs n x e = tt

-- The texts in the first `n` cells; a null cell has none.
pub texts : ℕ → List (Option Str) → List (List ℕ)
texts zero ss = []
texts (suc n) [] = []
texts (suc n) (none ∷ ss) = [] ∷ texts n ss
texts (suc n) (some s ∷ ss) = s.text ∷ texts n ss

texts-take : (n : ℕ) (ss : List (Option Str)) → texts n (take n ss) ≡ texts n ss
unfolding texts
texts-take zero ss = refl
texts-take (suc n) [] = refl
texts-take (suc n) (none ∷ ss) = ap (◌∷◌ []) (texts-take n ss)
texts-take (suc n) (some s ∷ ss) = ap (◌∷◌ s.text) (texts-take n ss)

pub texts-agree :
    (n : ℕ) (ss ts : List (Option Str)) → take n ss ≡ take n ts → texts n ss ≡ texts n ts
texts-agree n ss ts e = cc (texts-take n ss, texts-take n ts)

pub texts-set :
    (n : ℕ) (ss : List (Option Str)) (s : Str)
    → suc n ≤ length ss
    → texts (suc n) (set ss n (some s)) ≡ texts n ss ++ s.text ∷ []
unfolding texts
texts-set n [] s h = absurd (omega arith)
texts-set zero (t ∷ ss) s h = refl
texts-set (suc n) (none ∷ ss) s h = ap (◌∷◌ []) (texts-set n ss s (omega arith))
texts-set (suc n) (some t ∷ ss) s h = ap (◌∷◌ t.text) (texts-set n ss s (omega arith))
