-- ===== src/Text.antt =====
-- The text helpers of src/util.cpp and include/define.h: otelc_strhex, otelc_strctrl and otelc_strlcpy.
-- Memory is a list of bytes; `bufsiz` is the constant BUFSIZ of
-- the C library, the size of the buffers that the first two fill.
pub mod Hex
pub mod Copy
mod Examples
use opentelemetry_c_wrapper.Prelude.{
  ℕ, zero, suc, ◌+◌, ◌-◌, ◌*◌, ◌/◌, ◌%◌, Bool, true, false, ◌&&◌, List, [], ◌∷◌, ◌++◌, Option, none,
  some, ◌==◌, if◌then◌else◌, ltb, leb, length, take,
}

-- otel_nibble_to_hex: '0' is 48 and 'a' is 97.
pub nibble_to_hex : ℕ → ℕ
nibble_to_hex a = a + (if ltb a 10 then 48 else 97 - 10)

-- "(null)" and "()".
abbrev pub null_text : List ℕ
null_text = 40 ∷ 110 ∷ 117 ∷ 108 ∷ 108 ∷ 41 ∷ []

abbrev pub empty_text : List ℕ
empty_text = 40 ∷ 41 ∷ []

-- The loop of otelc_strhex from an index of the buffer on.
pub hex_from : ℕ → ℕ → List ℕ → List ℕ
unfolding nibble_to_hex
hex_from bufsiz i [] = []
hex_from bufsiz i (b ∷ bs) =
    let rest = hex_from bufsiz (i + 2) bs in
    if ltb i (bufsiz - 2) then nibble_to_hex (b / 16) ∷ nibble_to_hex (b % 16) ∷ rest else []

pub strhex : ℕ → Option (List ℕ) → List ℕ
unfolding hex_from
strhex bufsiz none = null_text
strhex bufsiz (some []) = empty_text
strhex bufsiz (some (b ∷ bs)) = hex_from bufsiz 0 (b ∷ bs)

-- OTELC_IN_RANGE(c, 0x20, 0x7e) ? c : '.'.
pub masked : ℕ → ℕ
masked c = if leb 32 c && leb c 126 then c else 46

-- The loop of otelc_strctrl.
pub ctrl_from : ℕ → ℕ → List ℕ → List ℕ
unfolding masked
ctrl_from bufsiz n [] = []
ctrl_from bufsiz n (b ∷ bs) =
    let rest = ctrl_from bufsiz (n + 1) bs in if ltb n (bufsiz - 1) then masked b ∷ rest else []

pub strctrl : ℕ → Option (List ℕ) → List ℕ
unfolding ctrl_from
strctrl bufsiz none = null_text
strctrl bufsiz (some []) = empty_text
strctrl bufsiz (some (b ∷ bs)) = ctrl_from bufsiz 0 (b ∷ bs)

-- strlen: the bytes before the terminator.
pub strlen : List ℕ → ℕ
strlen [] = 0
strlen (c ∷ cs) = let rest = strlen cs in if c == 0 then 0 else suc rest

-- memcpy of the first `n` bytes, and a terminator at index `n`.
pub copied : ℕ → List ℕ → List ℕ → List ℕ
copied n src [] = []
copied zero src (d ∷ ds) = 0 ∷ ds
copied (suc n) [] (d ∷ ds) = d ∷ ds
copied (suc n) (c ∷ cs) (d ∷ ds) = c ∷ copied n cs ds

abbrev copy_length : ℕ → List ℕ → ℕ → ℕ
copy_length dst_size src src_size =
    let n = if src_size == 0 then strlen src else src_size in
    if leb n (dst_size - 1) then n else dst_size - 1

-- otelc_strlcpy: the returned length, or OTELC_RET_ERROR, and the destination.
pub strlcpy : Option (List ℕ) → ℕ → Option (List ℕ) → ℕ → Option ℕ × Option (List ℕ)
unfolding copied strlen
strlcpy none dst_size src src_size = (none, none)
strlcpy (some dst) dst_size none src_size = (none, some dst)
strlcpy (some dst) dst_size (some src) src_size = if dst_size == 0 then (none, some dst) else (
  some (copy_length dst_size src src_size),
  some (copied (copy_length dst_size src src_size) src dst),
)
