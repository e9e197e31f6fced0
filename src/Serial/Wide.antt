-- ===== src/Serial/Wide.antt =====
-- support/serialization.hpp:126-282: a size as bytes with the encoding of 64 bits, which a macro that the
-- repository does not define selects.
use Prim.Native.Nat.{bit_or}
use test_assignment.Prelude.{
  ℕ, ◌+◌, ◌-◌, ◌*◌, ◌/◌, ◌%◌, ◌^◌, ◌<◌, ◌≤◌, ◌≡◌, refl, true, [], ◌∷◌, ◌++◌, Bytes, leb, ◌==◌,
  if◌then◌else◌, length, get_or, arith, all_below, all_below_sound,
}
use test_assignment.Prelude.Int.{two_64}
use test_assignment.Bits.{num_of_set_bits, shr}
use test_assignment.Serial.{SizeCode}

unfoldable pub n_size_64 : ℕ → ℕ
unfolding num_of_set_bits
n_size_64 first =
    let f = 255 - first in
    let f1 = bit_or f (shr f 1) in
    let f2 = bit_or f1 (shr f1 2) in let f4 = bit_or f2 (shr f2 4) in 9 - num_of_set_bits f4

unfoldable pub m_to_n_64 : Bytes → ℕ × ℕ
m_to_n_64 s =
    let b0 = get_or s 0 0 in
    let b1 = get_or s 1 0 in
    let b2 = get_or s 2 0 in
    let b3 = get_or s 3 0 in
    let b4 = get_or s 4 0 in
    let b5 = get_or s 5 0 in
    let b6 = get_or s 6 0 in
    let b7 = get_or s 7 0 in
    let b8 = get_or s 8 0 in
    if leb b0 0x7f
    then (b0, 1)
    else if b0 / 64 == 2
    then (b0 % 64 * 2 ^ 8 + b1, 2)
    else if b0 / 32 == 6
    then (b0 % 32 * 2 ^ 16 + b1 * 2 ^ 8 + b2, 3)
    else if b0 / 16 == 14
    then (b0 % 16 * 2 ^ 24 + b1 * 2 ^ 16 + b2 * 2 ^ 8 + b3, 4)
    else if b0 / 8 == 30
    then (b0 % 8 * 2 ^ 32 + b1 * 2 ^ 24 + b2 * 2 ^ 16 + b3 * 2 ^ 8 + b4, 5)
    else if b0 / 4 == 62
    then (b0 % 4 * 2 ^ 40 + b1 * 2 ^ 32 + b2 * 2 ^ 24 + b3 * 2 ^ 16 + b4 * 2 ^ 8 + b5, 6)
    else if b0 / 2 == 126
    then (
      b0 % 2 * 2 ^ 48 + b1 * 2 ^ 40 + b2 * 2 ^ 32 + b3 * 2 ^ 24 + b4 * 2 ^ 16 + b5 * 2 ^ 8 + b6,
      7,
    )
    else if b0 == 0xfe
    then (b1 * 2 ^ 48 + b2 * 2 ^ 40 + b3 * 2 ^ 32 + b4 * 2 ^ 24 + b5 * 2 ^ 16 + b6 * 2 ^ 8 + b7, 8)
    else if b0 == 0xff
    then (
      b1 * 2 ^ 56
          + b2 * 2 ^ 48
          + b3 * 2 ^ 40
          + b4 * 2 ^ 32
          + b5 * 2 ^ 24
          + b6 * 2 ^ 16
          + b7 * 2 ^ 8
          + b8,
      9,
    )
    else (b0, 0)

-- `(std::uint8_t)((c >> n) & 0xff)`
abbrev octet : ℕ → ℕ → ℕ
octet n c = c / 2 ^ n % 256

unfoldable pub n_to_m_64 : ℕ → Bytes
n_to_m_64 c =
    if leb c 0x7f
    then c ∷ []
    else if leb c 0x3fff
    then (c / 2 ^ 8 + 0x80) ∷ octet 0 c ∷ []
    else if leb c 0x1fffff
    then (c / 2 ^ 16 + 0xc0) ∷ octet 8 c ∷ octet 0 c ∷ []
    else if leb c 0xfffffff
    then (c / 2 ^ 24 + 0xe0) ∷ octet 16 c ∷ octet 8 c ∷ octet 0 c ∷ []
    else if leb c 0x7ffffffff
    then (c / 2 ^ 32 + 0xf0) ∷ octet 24 c ∷ octet 16 c ∷ octet 8 c ∷ octet 0 c ∷ []
    else if leb c 0x3ffffffffff
    then (c / 2 ^ 40 + 0xf8) ∷ octet 32 c ∷ octet 24 c ∷ octet 16 c ∷ octet 8 c ∷ octet 0 c ∷ []
    else if leb c 0x1ffffffffffff
    then (c / 2 ^ 48 + 0xfc)
      ∷ octet 40 c
      ∷ octet 32 c
      ∷ octet 24 c
      ∷ octet 16 c
      ∷ octet 8 c
      ∷ octet 0 c
      ∷ []
    else if leb c 0xffffffffffffff
    then 0xfe
      ∷ octet 48 c
      ∷ octet 40 c
      ∷ octet 32 c
      ∷ octet 24 c
      ∷ octet 16 c
      ∷ octet 8 c
      ∷ octet 0 c
      ∷ []
    else 0xff
      ∷ octet 56 c
      ∷ octet 48 c
      ∷ octet 40 c
      ∷ octet 32 c
      ∷ octet 24 c
      ∷ octet 16 c
      ∷ octet 8 c
      ∷ octet 0 c
      ∷ []

-- what the leading ones of a byte say
abbrev lead : ℕ → ℕ
lead b =
    if leb b 0x7f
    then 1
    else if leb b 0xbf
    then 2
    else if leb b 0xdf
    then 3
    else if leb b 0xef
    then 4
    else if leb b 0xf7
    then 5
    else if leb b 0xfb
    then 6
    else if leb b 0xfd
    then 7
    else if leb b 0xfe
    then 8
    else 9

lead_table : all_below 256 (λ b. n_size_64 b == lead b) ≡ true
unfolding all_below n_size_64 num_of_set_bits
lead_table = refl

lead_lem : (b : ℕ) → b < 256 → n_size_64 b ≡ lead b
lead_lem b h = ground (arith, all_below_sound 256 (λ b. n_size_64 b == lead b) b lead_table h)

-- Every number of 64 bits is read back from its bytes, whatever follows them, with the increment
-- that is their number.
pub m_to_n-n_to_m_64 :
    (c : ℕ) (rest : Bytes)
    → c < two_64
    → m_to_n_64 (n_to_m_64 c ++ rest) ≡ (c, length (n_to_m_64 c))
unfolding m_to_n_64 n_to_m_64
m_to_n-n_to_m_64 c rest h = ground arith

first_byte : (c : ℕ) (rest : Bytes) → c < two_64 → get_or (n_to_m_64 c ++ rest) 0 0 < 256
unfolding n_to_m_64
first_byte c rest h = ground arith

pub n_size-n_to_m_64 :
    (c : ℕ) (rest : Bytes)
    → c < two_64
    → n_size_64 (get_or (n_to_m_64 c ++ rest) 0 0) ≡ length (n_to_m_64 c)
unfolding n_to_m_64
n_size-n_to_m_64 c rest h =
    ground (arith, lead_lem (get_or (n_to_m_64 c ++ rest) 0 0) (first_byte c rest h))

pub bounds_64 : (c : ℕ) → (1 ≤ length (n_to_m_64 c)) × (length (n_to_m_64 c) ≤ 9)
unfolding n_to_m_64
bounds_64 c = (ground arith, ground arith)

pub zero_64 : n_to_m_64 0 ≡ 0 ∷ []
unfolding n_to_m_64
zero_64 = refl

unfoldable pub code_64 : SizeCode
code_64 = record {
  n_size = n_size_64;
  m_to_n = m_to_n_64;
  n_to_m = n_to_m_64;
  limit = two_64;
  m_to_n-n_to_m = m_to_n-n_to_m_64;
  n_size-n_to_m = n_size-n_to_m_64;
  zero_code = zero_64;
  bounds = bounds_64;
}
