-- ===== src/DbgMem/Calls/Requests.antt =====
-- The overflow guards of src/dbg_malloc.cpp: the size that reaches the C library is the size of the
-- payload and its header, in 64 bits, and a request that would wrap around is refused.
use opentelemetry_c_wrapper.Prelude.{
  ℕ, ◌+◌, ◌-◌, ◌*◌, ◌/◌, ◌<◌, ◌≡◌, sym, ◌∙◌, ltb→lt, Option, none, some, arith, ltb, Bool-cases,
  inl, inr, if◌then◌else◌,
}
use native.Mathlib.Nat.{div-lt_iff_lt-mul}
use opentelemetry_c_wrapper.DbgMem.{word, header_size}
use opentelemetry_c_wrapper.DbgMem.Calls.{malloc_request, calloc_request, memdup_request}

-- A number, unless it needs more than 64 bits.
abbrev pub in_word : ℕ → Option ℕ
in_word n = if ltb n word then some n else none

-- otelc_dbg_malloc and otelc_dbg_realloc ask for the payload and the header, or refuse.
malloc_request_lem : (n : ℕ) → malloc_request n ≡ in_word (n + header_size)
unfolding malloc_request
malloc_request_lem n = ground arith

-- otelc_dbg_memdup asks for the bytes, a terminator and the header, or refuses.
memdup_request_lem : (n : ℕ) → memdup_request n ≡ in_word (n + 1 + header_size)
unfolding memdup_request
memdup_request_lem n = ground arith

-- The quotient test of calloc against the product.
quotient_test :
    (n e : ℕ) → 0 < e → ltb ((word - 1 - header_size) / e) n ≡ ltb (word - 1 - header_size) (n * e)
quotient_test n e h =
    let q = div-lt_iff_lt-mul {k = e} {x = word - 1 - header_size} {y = n} h in
    elim (Bool-cases (ltb (word - 1 - header_size) (n * e))) [
      | inl t ↦ ground (arith, t, q.1 (ltb→lt _ _ t))
      | inr t ↦ elim (Bool-cases (ltb ((word - 1 - header_size) / e) n)) [
        | inl u ↦ absurd (ground (arith, t, q.0 (ltb→lt _ _ u)))
        | inr u ↦ u ∙ sym t
      ]
    ]

calloc_request_lem : (n e : ℕ) → calloc_request n e ≡ in_word (n * e + header_size)
unfolding calloc_request
calloc_request_lem n e = elim (Bool-cases (ltb 0 e)) [
  | inl h ↦ rw (h, quotient_test n e (ltb→lt 0 e h)) (ground arith)
  | inr h ↦ let z : e ≡ 0 = ground (arith, h) in rw (h, z) (ground (arith))
]

-- The guarded requests never wrap around: otelc_dbg_malloc (and otelc_dbg_realloc), otelc_dbg_calloc
-- and otelc_dbg_memdup ask the C library for exactly the payload and its header when that sum is
-- a 64-bit number, and refuse the call otherwise.
pub requests-Exact :
    (n e : ℕ)
    → (malloc_request n ≡ in_word (n + header_size))
      × (calloc_request n e ≡ in_word (n * e + header_size))
      × (memdup_request n ≡ in_word (n + 1 + header_size))
requests-Exact n e = (malloc_request_lem n, calloc_request_lem n e, memdup_request_lem n)
