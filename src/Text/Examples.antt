-- ===== src/Text/Examples.antt =====
-- The theorems about the text helpers at concrete texts, and runs of them.
use opentelemetry_c_wrapper.Prelude.{
  ℕ, ◌+◌, ◌-◌, ◌/◌, ◌<◌, ◌≡◌, refl, List, [], ◌∷◌, some, arith, length, take, leb, if◌then◌else◌,
}
use opentelemetry_c_wrapper.Text.{strhex, hex_from, nibble_to_hex, strctrl, strlcpy, copied}
use opentelemetry_c_wrapper.Text.Hex.{
  AreBytes, unhex, strhex-Reads, ArePrintable, strctrl-ArePrintable,
}
use opentelemetry_c_wrapper.Text.Copy.{IsCopy, fitting, strlcpy-IsCopy}

-- 0x1f 0xa0 is printed as 1fa0.
strhex_prints : strhex 8192 (some (31 ∷ 160 ∷ [])) ≡ 49 ∷ 102 ∷ 97 ∷ 48 ∷ []
unfolding strhex hex_from nibble_to_hex
strhex_prints = refl

two_bytes : AreBytes (31 ∷ 160 ∷ [])
unfolding AreBytes
two_bytes = (omega arith, (omega arith, tt))

strhex-Reads_example :
    (unhex (strhex 8192 (some (31 ∷ 160 ∷ []))) ≡ take ((8192 - 2 + 1) / 2) (31 ∷ 160 ∷ []))
    × (length (strhex 8192 (some (31 ∷ 160 ∷ []))) < 8192)
strhex-Reads_example = strhex-Reads 8192 31 (160 ∷ []) (omega arith) refl two_bytes

abbrev line : List ℕ
line = 10 ∷ 65 ∷ []

strctrl-ArePrintable_example :
    let n = length line in
    ArePrintable (strctrl 8192 (some line))
    × (length (strctrl 8192 (some line)) ≡ (if leb n (8192 - 1) then n else 8192 - 1))
strctrl-ArePrintable_example = strctrl-ArePrintable 8192 10 (65 ∷ [])

abbrev buffer : List ℕ
buffer = 1 ∷ 2 ∷ 3 ∷ []

abbrev source : List ℕ
source = 65 ∷ 66 ∷ 67 ∷ 0 ∷ []

strlcpy-IsCopy_example :
    let k = fitting buffer source 0 in
    (strlcpy (some buffer) (length buffer) (some source) 0
      ≡ (some k, some (copied k source buffer)))
    × IsCopy source buffer k (copied k source buffer)
strlcpy-IsCopy_example = strlcpy-IsCopy buffer source 0 (omega arith) (omega arith)
