-- ===== src/Text/Copy.antt =====
-- otelc_strlcpy of src/util.cpp: what stands in the destination afterwards.
use opentelemetry_c_wrapper.Prelude.{
  ℕ, zero, suc, ◌-◌, ◌≤◌, ◌<◌, ◌≡◌, refl, ap, false, List, [], ◌∷◌, ◌++◌, some, arith, ◌==◌, leb,
  if◌then◌else◌, length, take,
}
use opentelemetry_c_wrapper.Text.{strlen, copied, strlcpy}

pub drop : ℕ → List ℕ → List ℕ
drop zero xs = xs
drop (suc n) [] = []
drop (suc n) (x ∷ xs) = drop n xs

copied-parts :
    (n : ℕ) (src dst : List ℕ)
    → n ≤ length src
    → n < length dst
    → copied n src dst ≡ take n src ++ 0 ∷ drop (suc n) dst
unfolding copied drop
copied-parts zero src [] h b = absurd (omega arith)
copied-parts zero src (d ∷ ds) h b = refl
copied-parts (suc n) src [] h b = absurd (omega arith)
copied-parts (suc n) [] (d ∷ ds) h b = absurd (omega arith)
copied-parts (suc n) (c ∷ cs) (d ∷ ds) h b =
    ap (λ (xs : List ℕ). c ∷ xs) (copied-parts n cs ds (omega arith) (omega arith))

length-copied : (n : ℕ) (src dst : List ℕ) → length (copied n src dst) ≡ length dst
unfolding copied
length-copied zero src [] = refl
length-copied zero src (d ∷ ds) = refl
length-copied (suc n) src [] = refl
length-copied (suc n) [] (d ∷ ds) = refl
length-copied (suc n) (c ∷ cs) (d ∷ ds) = ap suc (length-copied n cs ds)

strlen-le : (src : List ℕ) → strlen src ≤ length src
unfolding strlen
strlen-le [] = omega arith
strlen-le (c ∷ cs) = ground (arith, strlen-le cs)

-- The bytes that the caller gives to copy: a size, or 0 for a whole string.
pub wanted : List ℕ → ℕ → ℕ
wanted src n = if n == 0 then strlen src else n

-- The copied bytes come first, a terminator follows them, and the rest of the buffer is as before.
pub IsCopy : List ℕ → List ℕ → ℕ → List ℕ → Type 0
IsCopy src dst n out = (out ≡ take n src ++ 0 ∷ drop (suc n) dst) × (length out ≡ length dst)

-- As many of them as fit before a terminator.
pub fitting : List ℕ → List ℕ → ℕ → ℕ
unfolding wanted
fitting dst src n = if leb (wanted src n) (length dst - 1) then wanted src n else length dst - 1

fitting-bounds :
    (dst src : List ℕ) (n : ℕ)
    → 0 < length dst
    → n ≤ length src
    → (fitting dst src n ≤ length src) × (fitting dst src n < length dst)
unfolding fitting wanted
fitting-bounds dst src n h b = ground (arith, h, b, strlen-le src)

-- otelc_strlcpy into a buffer of the size that is given, from a source that holds the bytes asked for,
-- copies as many of them as fit before a terminator, returns their number, and writes nothing
-- behind the buffer.
pub strlcpy-IsCopy :
    (dst src : List ℕ) (n : ℕ)
    → 0 < length dst
    → n ≤ length src
    → let k = fitting dst src n in
      (strlcpy (some dst) (length dst) (some src) n ≡ (some k, some (copied k src dst)))
      × IsCopy src dst k (copied k src dst)
unfolding strlcpy fitting wanted IsCopy
strlcpy-IsCopy dst src n h b =
    let k = fitting dst src n in
    let w = fitting-bounds dst src n h b in
    let some_room : (length dst == 0) ≡ false = ground (arith, h) in
    (rw some_room refl, (copied-parts k src dst w.0 w.1, length-copied k src dst))
