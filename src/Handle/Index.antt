-- ===== src/Handle/Index.antt =====
-- The shard index of include/util.h: `key & (shards.size() - 1)` stays below the number of shards,
-- and for the sizes that the constructor accepts it is the remainder of the key.
use Prim.Native.Nat.{min, bit_and, bit_and-bitwise, digits}
use native.Mathlib.Nat.{
  pow-suc, add-mul-mod_self_left, mod-eq_of_lt, mod-lt, mod-le, mod_self, div-add-mod,
}
use opentelemetry_c_wrapper.Prelude.{
  ℕ, zero, suc, ◌+◌, ◌-◌, ◌*◌, ◌/◌, ◌%◌, ◌^◌, ◌≤◌, ◌<◌, ◌≡◌, ◌↔◌, refl, ap, ◌∙◌, false, arith, ◌==◌,
  ==_iff, Bool-cases, inl, inr,
}
use opentelemetry_c_wrapper.Handle.{bad_shards}

-- A bitwise and, over a count of digits that may be more than enough.
and_upto : ℕ → ℕ → ℕ → ℕ
and_upto = digits (λ b. zero) min

bit_and-and_upto : (a b : ℕ) → bit_and a b ≡ and_upto a a b
unfolding and_upto
bit_and-and_upto a b = bit_and-bitwise a b

and_upto-le : (n a b : ℕ) → and_upto n a b ≤ b
unfolding and_upto
and_upto-le zero a b = omega arith
and_upto-le (suc n) zero b = omega arith
and_upto-le (suc n) (suc a) b = omega (arith, and_upto-le n (suc a / 2) (b / 2))

and_upto_self : (n a : ℕ) → a ≤ n → and_upto n a a ≡ a
unfolding and_upto
and_upto_self zero zero h = refl
and_upto_self zero (suc a) h = absurd (omega arith)
and_upto_self (suc n) zero h = refl
and_upto_self (suc n) (suc a) h = omega (arith, and_upto_self n (suc a / 2) (omega arith))

pub bit_and-le : (a b : ℕ) → bit_and a b ≤ b
bit_and-le a b = omega (arith, bit_and-and_upto a b, and_upto-le a a b)

pow-pos : (j : ℕ) → 0 < 2 ^ j
pow-pos zero = omega arith
pow-pos (suc j) = omega (arith, pow-suc 2 j, pow-pos j)

pow_double : (j : ℕ) → 2 ^ suc j ≡ 2 * 2 ^ j
pow_double j = omega (arith, pow-suc 2 j)

-- The remainder by an even number keeps the lowest digit.
mod_double : (a m : ℕ) → 0 < m → a % (2 * m) ≡ (a / 2 % m) * 2 + a % 2
mod_double a m h =
    ap (λ (t : ℕ). t % (2 * m)) split
    ∙ add-mul-mod_self_left low (2 * m) (a / 2 / m)
    ∙ mod-eq_of_lt (omega (arith, mod-lt (a / 2) h))
  where
    low : ℕ
    low = (a / 2 % m) * 2 + a % 2

    split : a ≡ low + 2 * m * (a / 2 / m)
    split = omega (arith, div-add-mod (a / 2) m)

and_upto-mask : (n a j : ℕ) → a ≤ n → and_upto n a (2 ^ j - 1) ≡ a % 2 ^ j
unfolding and_upto
and_upto-mask n a zero h = omega (arith, and_upto-le n a 0)
and_upto-mask zero zero (suc j) h = omega (arith, mod-le 0 (2 ^ suc j))
and_upto-mask zero (suc a) (suc j) h = absurd (omega arith)
and_upto-mask (suc n) zero (suc j) h = omega (arith, mod-le 0 (2 ^ suc j))
and_upto-mask (suc n) (suc a) (suc j) h =
    let half : (2 * 2 ^ j - 1) / 2 ≡ 2 ^ j - 1 = omega (arith, pow-pos j) in
    let odd : (2 * 2 ^ j - 1) % 2 ≡ 1 = omega (arith, pow-pos j) in
    rw (pow_double j, half, odd, mod_double (suc a) (2 ^ j) (pow-pos j))
      (omega (arith, and_upto-mask n (suc a / 2) j (omega arith)))

-- Masking by a power of two less one is the remainder.
pub bit_and-mask : (a j : ℕ) → bit_and a (2 ^ j - 1) ≡ a % 2 ^ j
bit_and-mask a j = omega (arith, bit_and-and_upto a (2 ^ j - 1), and_upto-mask a a j (omega arith))

-- A positive number that shares no digit with its predecessor is a power of two.
pow_of_and_upto : (n a : ℕ) → a ≤ n → 0 < a → and_upto n a (a - 1) ≡ 0 → (k : ℕ) × (a ≡ 2 ^ k)
unfolding and_upto
pow_of_and_upto zero a h p e = absurd (omega arith)
pow_of_and_upto (suc n) zero h p e = absurd (omega arith)
pow_of_and_upto (suc n) (suc a) h p e = elim (Bool-cases (a % 2 == 0)) [
  | inl even ↦
      let z = (==_iff _ _).0 even in
      let same : suc a / 2 ≡ (suc a - 1) / 2 = omega arith in
      (
        0,
        omega
            (arith, and_upto_self n (suc a / 2) (omega arith), ap (and_upto n (suc a / 2)) same, e),
      )
  | inr odd ↦
      let one : a % 2 ≡ 1 = ground arith in
      let less : (suc a - 1) / 2 ≡ suc a / 2 - 1 = omega arith in
      let (k, q) =
        pow_of_and_upto n (suc a / 2) (omega arith) (omega arith)
          (omega (arith, ap (and_upto n (suc a / 2)) less, e)) in
      (suc k, omega (arith, pow_double k))
]

bad_shards-pow : (k : ℕ) → bad_shards (2 ^ k) ≡ false
unfolding bad_shards
bad_shards-pow k = ground (arith, pow-pos k, bit_and-mask (2 ^ k) k, mod_self (2 ^ k))

-- The constructor of otel_handle accepts a number of shards iff it is a power of two.
pub bad_shards_iff : (n : ℕ) → (bad_shards n ≡ false) ↔ ((k : ℕ) × (n ≡ 2 ^ k))
unfolding bad_shards
bad_shards_iff n = (
  (λ e.
      pow_of_and_upto n n (omega arith) (ground arith)
        (ground (arith, bit_and-and_upto n (n - 1)))),
  (λ w. rw (w.1) (bad_shards-pow (w.0))),
)
