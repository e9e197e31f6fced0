-- ===== src/Serial/Sizes.antt =====
-- support/serialization.hpp:34-125: a size as bytes, of which the first tells how many there are:
-- the encoding of 32 bits, which is the one in use. As in Utf8, `x & 0x3f` is `x % 64`, `x >> 6` is `x / 64`, a
-- test of leading bits is one of a quotient, and `|` of parts without a common bit is a sum.
use test_assignment.Prelude.{
  ℕ, ◌+◌, ◌*◌, ◌/◌, ◌%◌, ◌<◌, ◌≤◌, ◌≡◌, refl, [], ◌∷◌, ◌++◌, Bytes, ltb, leb, ◌==◌, if◌then◌else◌,
  length, get_or, arith,
}
use test_assignment.Serial.{SizeCode}

unfoldable pub n_size_32 : ℕ → ℕ
n_size_32 first =
    if ltb first 0x80
    then 1
    else if first / 32 == 6
    then 2
    else if first / 16 == 14
    then 3
    else if first / 8 == 30
    then 4
    else if first / 4 == 62
    then 5
    else if first / 2 == 126
    then 6
    else 0

unfoldable pub m_to_n_32 : Bytes → ℕ × ℕ
m_to_n_32 s =
    let b0 = get_or s 0 0 in
    let b1 = get_or s 1 0 % 64 in
    let b2 = get_or s 2 0 % 64 in
    let b3 = get_or s 3 0 % 64 in
    let b4 = get_or s 4 0 % 64 in
    let b5 = get_or s 5 0 % 64 in
    if ltb b0 0x80
    then (b0, 1)
    else if b0 / 32 == 6
    then (b0 % 32 * 64 + b1, 2)
    else if b0 / 16 == 14
    then (b0 % 16 * 4096 + b1 * 64 + b2, 3)
    else if b0 / 8 == 30
    then (b0 % 8 * 262144 + b1 * 4096 + b2 * 64 + b3, 4)
    else if b0 / 4 == 62
    then (b0 % 4 * 16777216 + b1 * 262144 + b2 * 4096 + b3 * 64 + b4, 5)
    else if b0 / 2 == 126
    then (b0 % 2 * 1073741824 + b1 * 16777216 + b2 * 262144 + b3 * 4096 + b4 * 64 + b5, 6)
    else (b0, 0)

abbrev low_bits : ℕ → ℕ
low_bits c = c % 64 + 0x80

-- The argument has 32 bits: `unumber_to_mem` cuts its own off. The first byte of six has bit 1 of
-- the number where bit 30 belongs.
unfoldable pub n_to_m_32 : ℕ → Bytes
n_to_m_32 s =
    let c = s % 0x100000000 in
    if leb c 0x7f
    then c % 128 ∷ []
    else if leb c 0x7ff
    then (c / 64 % 32 + 0xc0) ∷ low_bits c ∷ []
    else if leb c 0xffff
    then (c / 4096 % 16 + 0xe0) ∷ low_bits (c / 64) ∷ low_bits c ∷ []
    else if leb c 0x1fffff
    then (c / 262144 % 8 + 0xf0) ∷ low_bits (c / 4096) ∷ low_bits (c / 64) ∷ low_bits c ∷ []
    else if leb c 0x3ffffff
    then (c / 16777216 % 4 + 0xf8)
      ∷ low_bits (c / 262144)
      ∷ low_bits (c / 4096)
      ∷ low_bits (c / 64)
      ∷ low_bits c
      ∷ []
    else (c / 2 % 2 + 0xfc)
      ∷ low_bits (c / 16777216)
      ∷ low_bits (c / 262144)
      ∷ low_bits (c / 4096)
      ∷ low_bits (c / 64)
      ∷ low_bits c
      ∷ []

pub m_to_n-n_to_m_32 :
    (c : ℕ) (rest : Bytes)
    → c < 0x4000000
    → m_to_n_32 (n_to_m_32 c ++ rest) ≡ (c, length (n_to_m_32 c))
unfolding m_to_n_32 n_to_m_32
m_to_n-n_to_m_32 c rest h = ground arith

pub n_size-n_to_m_32 :
    (c : ℕ) (rest : Bytes)
    → c < 0x4000000
    → n_size_32 (get_or (n_to_m_32 c ++ rest) 0 0) ≡ length (n_to_m_32 c)
unfolding n_size_32 n_to_m_32
n_size-n_to_m_32 c rest h = ground arith

pub bounds_32 : (c : ℕ) → (1 ≤ length (n_to_m_32 c)) × (length (n_to_m_32 c) ≤ 9)
unfolding n_to_m_32
bounds_32 c = (ground arith, ground arith)

pub zero_32 : n_to_m_32 0 ≡ 0 ∷ []
unfolding n_to_m_32
zero_32 = refl

-- A size below 2^26 is read back.
unfoldable pub code_32 : SizeCode
code_32 = record {
  n_size = n_size_32;
  m_to_n = m_to_n_32;
  n_to_m = n_to_m_32;
  limit = 0x4000000;
  m_to_n-n_to_m = m_to_n-n_to_m_32;
  n_size-n_to_m = n_size-n_to_m_32;
  zero_code = zero_32;
  bounds = bounds_32;
}
