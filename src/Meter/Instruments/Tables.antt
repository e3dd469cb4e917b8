-- ===== src/Meter/Instruments/Tables.antt =====
-- What ties the two instrument tables of src/meter.cpp together: the handle map and the index.
use opentelemetry_c_wrapper.Prelude.{
  ℕ, ◌≤◌, ◌≡◌, ◌≢◌, refl, sym, Bool, true, List, ◌∷◌, none, some, ◌==◌, arith, Bool-cases, inl, inr,
  eq_text, eq_text_refl, eq_text_sound,
}
use opentelemetry_c_wrapper.Meter.{Handle, Impl}
use opentelemetry_c_wrapper.Meter.Key.{instrument_key}
use opentelemetry_c_wrapper.Meter.Types.{is_valid}
use opentelemetry_c_wrapper.Meter.Instruments.{find_instrument, map_find, map_erase}

-- The head of the index answers its own key, and no other.
pub find-head :
    (k : List ℕ) (i : ℕ) (rest : List (List ℕ × ℕ)) → find_instrument ((k, i) ∷ rest) k ≡ some i
unfolding find_instrument
find-head k i rest = rw (eq_text_refl k) refl

pub find-tail :
    (k l : List ℕ) (i : ℕ) (rest : List (List ℕ × ℕ))
    → l ≢ k
    → find_instrument ((k, i) ∷ rest) l ≡ find_instrument rest l
unfolding find_instrument
find-tail k l i rest ne = elim (Bool-cases (eq_text k l)) [
  | inl e ↦ absurd (ne (sym (eq_text_sound k l e)))
  | inr e ↦ rw e refl
]

module _ {V : Type 0} where
  pub map_find-head : (i : ℕ) (v : V) (rest : List (ℕ × V)) → map_find ((i, v) ∷ rest) i ≡ some v
  unfolding map_find
  map_find-head i v rest = ground arith

  pub map_find-tail :
      (i j : ℕ) (v : V) (rest : List (ℕ × V)) → j ≢ i → map_find ((i, v) ∷ rest) j ≡ map_find rest j
  unfolding map_find
  map_find-tail i j v rest ne = ground arith

  -- An entry that was just put in front goes out again.
  pub map_erase-head : (i : ℕ) (v : V) (rest : List (ℕ × V)) → map_erase ((i, v) ∷ rest) i ≡ rest
  unfolding map_erase
  map_erase-head i v rest = rw (same i) refl
    where
      same : (n : ℕ) → (n == n) ≡ true
      same n = ground arith

-- `abi2`: which ABI the SDK has.
pub record IsIndexed (abi2 : Bool) (m : Impl) : Type 0 where
  pub fresh : (i : ℕ) → m.instrument.id ≤ i → map_find m.instrument.entries i ≡ none
  pub sound :
      (key : List ℕ) (i : ℕ)
      → find_instrument m.instrument_index key ≡ some i
      → (h : Handle) × (map_find m.instrument.entries i ≡ some h)
        × (instrument_key h.name h.type ≡ key)
  pub complete :
      (i : ℕ) (h : Handle)
      → map_find m.instrument.entries i ≡ some h
      → find_instrument m.instrument_index (instrument_key h.name h.type) ≡ some i
  pub usable :
      (i : ℕ) (h : Handle)
      → map_find m.instrument.entries i ≡ some h
      → is_valid abi2 h.type h.member ≡ true
