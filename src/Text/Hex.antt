-- ===== src/Text/Hex.antt =====
-- What otelc_strhex and otelc_strctrl of src/util.cpp write: hexadecimal digits that can be read back,
-- printable characters, and never more than the buffer holds.
use opentelemetry_c_wrapper.Prelude.{
  ℕ, zero, suc, ◌+◌, ◌-◌, ◌*◌, ◌/◌, ◌%◌, ◌≤◌, ◌<◌, ◌≡◌, refl, sym, ap, ltb→lt, ◌∙◌, inl, inr, true,
  false, List, [], ◌∷◌, some, arith, ltb, leb, if◌then◌else◌, Bool-cases, length, take,
}
use opentelemetry_c_wrapper.Text.{nibble_to_hex, hex_from, strhex, masked, ctrl_from, strctrl}

-- Reads a digit, and pairs of digits.
pub hex_to_nibble : ℕ → ℕ
hex_to_nibble c = if ltb c 97 then c - 48 else c - 87

pub unhex : List ℕ → List ℕ
unfolding hex_to_nibble
unhex [] = []
unhex (h ∷ []) = []
unhex (h ∷ l ∷ cs) = (hex_to_nibble h * 16 + hex_to_nibble l) ∷ unhex cs

unfoldable pub AreBytes : List ℕ → Type 0
AreBytes [] = Unit
AreBytes (b ∷ bs) = (b < 256) × AreBytes bs

hex_to_nibble-nibble_to_hex : (a : ℕ) → a < 16 → hex_to_nibble (nibble_to_hex a) ≡ a
unfolding hex_to_nibble nibble_to_hex
hex_to_nibble-nibble_to_hex a h = ground arith

byte-nibbles :
    (b : ℕ)
    → b < 256
    → hex_to_nibble (nibble_to_hex (b / 16)) * 16 + hex_to_nibble (nibble_to_hex (b % 16)) ≡ b
byte-nibbles b h =
    rw
      (
        hex_to_nibble-nibble_to_hex (b / 16) (omega (arith, h)),
        hex_to_nibble-nibble_to_hex (b % 16) (omega arith),
      )
      (omega arith)

-- How many bytes still fit the buffer.
room : ℕ → ℕ → ℕ
room bufsiz i = (bufsiz - 2 - i + 1) / 2

abbrev no_bytes : List ℕ
no_bytes = []

take-nil : (n : ℕ) → take n no_bytes ≡ no_bytes
take-nil zero = refl
take-nil (suc n) = refl

unhex-hex_from :
    (bufsiz i : ℕ) (bs : List ℕ)
    → AreBytes bs
    → unhex (hex_from bufsiz i bs) ≡ take (room bufsiz i) bs
unfolding unhex hex_from AreBytes
unhex-hex_from bufsiz i [] h = sym (take-nil (room bufsiz i))
unhex-hex_from bufsiz i (b ∷ bs) h = elim (Bool-cases (ltb i (bufsiz - 2))) [
  | inl e ↦
      let more : room bufsiz i ≡ suc (room bufsiz (i + 2)) = next bufsiz i e in
      rw (e, more, byte-nibbles b (h.0), unhex-hex_from bufsiz (i + 2) bs (h.1)) refl
  | inr e ↦ rw (e, last bufsiz i e) refl
]
  where
    next : (bufsiz i : ℕ) → ltb i (bufsiz - 2) ≡ true → room bufsiz i ≡ suc (room bufsiz (i + 2))
    next bufsiz i e = unfold room in omega (arith, ltb→lt i (bufsiz - 2) e)

    last : (bufsiz i : ℕ) → ltb i (bufsiz - 2) ≡ false → room bufsiz i ≡ 0
    last bufsiz i e = unfold room in ground (arith, e)

length-hex_from :
    (bufsiz i : ℕ) (bs : List ℕ)
    → 2 ≤ bufsiz
    → i % 2 ≡ 0
    → bufsiz % 2 ≡ 0
    → i < bufsiz
    → i + length (hex_from bufsiz i bs) < bufsiz
unfolding hex_from
length-hex_from bufsiz i [] b e z h = omega (arith, h)
length-hex_from bufsiz i (c ∷ bs) b e z h = elim (Bool-cases (ltb i (bufsiz - 2))) [
  | inr t ↦ rw t (omega (arith, h))
  | inl t ↦ rw t (
      omega (
        arith,
        length-hex_from bufsiz (i + 2) bs b (omega (arith, e)) z
            (omega (arith, e, z, ltb→lt i (bufsiz - 2) t)),
      ))
]

-- With a buffer of an even size of 2 or more, what otelc_strhex prints of one or more bytes can be
-- read back, up to the bytes that fit the buffer, two digits for each; and the digits with the
-- terminator stay within the buffer.
pub strhex-Reads :
    (bufsiz b : ℕ) (bs : List ℕ)
    → 2 ≤ bufsiz
    → bufsiz % 2 ≡ 0
    → AreBytes (b ∷ bs)
    → (unhex (strhex bufsiz (some (b ∷ bs))) ≡ take ((bufsiz - 2 + 1) / 2) (b ∷ bs))
      × (length (strhex bufsiz (some (b ∷ bs))) < bufsiz)
unfolding strhex room
strhex-Reads bufsiz b bs h z w = (
  unhex-hex_from bufsiz 0 (b ∷ bs) w ∙ ap (λ (n : ℕ). take ((n + 1) / 2) (b ∷ bs)) (omega arith),
  omega (arith, length-hex_from bufsiz 0 (b ∷ bs) h (omega arith) z (omega (arith, h))),
)

-- Every character can be printed.
pub ArePrintable : List ℕ → Type 0
ArePrintable [] = Unit
ArePrintable (c ∷ cs) = (32 ≤ c) × (c ≤ 126) × ArePrintable cs

ctrl_from-ArePrintable : (bufsiz n : ℕ) (bs : List ℕ) → ArePrintable (ctrl_from bufsiz n bs)
unfolding ctrl_from ArePrintable masked
ctrl_from-ArePrintable bufsiz n [] = tt
ctrl_from-ArePrintable bufsiz n (b ∷ bs) = elim (Bool-cases (ltb n (bufsiz - 1))) [
  | inr e ↦ rw e tt
  | inl e ↦ rw e (ground arith, ground arith, ctrl_from-ArePrintable bufsiz (n + 1) bs)
]

length-ctrl_from :
    (bufsiz n : ℕ) (bs : List ℕ)
    → length (ctrl_from bufsiz n bs)
      ≡ (if leb (length bs) (bufsiz - 1 - n) then length bs else bufsiz - 1 - n)
unfolding ctrl_from
length-ctrl_from bufsiz n [] = ground arith
length-ctrl_from bufsiz n (b ∷ bs) = elim (Bool-cases (ltb n (bufsiz - 1))) [
  | inr e ↦ rw e (ground (arith, e))
  | inl e ↦ rw e (ground (arith, e, length-ctrl_from bufsiz (n + 1) bs))
]

-- otelc_strctrl prints one character for each byte, up to the size of its buffer less the terminator,
-- and all of them can be printed.
pub strctrl-ArePrintable :
    (bufsiz b : ℕ) (bs : List ℕ)
    → let n = length (b ∷ bs) in
      ArePrintable (strctrl bufsiz (some (b ∷ bs)))
      × (length (strctrl bufsiz (some (b ∷ bs))) ≡ (if leb n (bufsiz - 1) then n else bufsiz - 1))
unfolding strctrl
strctrl-ArePrintable bufsiz b bs =
    (ctrl_from-ArePrintable bufsiz 0 (b ∷ bs), ground (arith, length-ctrl_from bufsiz 0 (b ∷ bs)))
