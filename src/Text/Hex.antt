-- ===== src/Text/Hex.antt =====
-- support/str_util.cpp: `data_to_hex_str` and `hex_str_to_data`. Data is a list of bytes.
use test_assignment.Prelude.{
  ℕ, ◌+◌, ◌-◌, ◌*◌, ◌/◌, ◌%◌, ◌<◌, ◌&&◌, [], ◌∷◌, Bytes, ◌≡◌, refl, ap, ltb, leb, ◌==◌,
  if◌then◌else◌, length, All, arith,
}
use test_assignment.Prelude.Result.{Result, ok, err, ◌>>=◌, bad_hex, fault}

-- `hex_digits`
abbrev pub hex_digit : ℕ → ℕ
hex_digit n = if ltb n 10 then 48 + n else 87 + n

unfoldable pub data_to_hex_str : Bytes → Bytes
data_to_hex_str [] = []
data_to_hex_str (b ∷ data_) = hex_digit (b / 16 % 16) ∷ hex_digit (b % 16) ∷ data_to_hex_str data_

-- `hex_do_digit`, whose -1 throws. A `char` of 128 or more is negative, and its cast to an unsigned
-- number is no index of the table.
unfoldable pub hex_do_digit : ℕ → Result ℕ
hex_do_digit c =
    if leb 128 c
    then err fault
    else if leb 48 c && leb c 57
    then ok (c - 48)
    else if leb 65 c && leb c 70
    then ok (c - 55)
    else if leb 97 c && leb c 102
    then ok (c - 87)
    else err bad_hex

-- the loop, for a text of even size
unfoldable pub hex_loop : Bytes → Result Bytes
hex_loop [] = ok []
hex_loop (c ∷ []) = ok []
hex_loop (c ∷ d ∷ str) = hex_do_digit c >>= λ h.
    hex_do_digit d >>= λ l. hex_loop str >>= λ rest. ok ((h * 16 + l) ∷ rest)

unfoldable pub hex_str_to_data : Bytes → Result Bytes
hex_str_to_data str = if length str % 2 == 0 then hex_loop str else err bad_hex

digit_back : (n : ℕ) → n < 16 → hex_do_digit (hex_digit n) ≡ ok n
unfolding hex_do_digit
digit_back n h = ground arith

loop_back : (data_ : Bytes) → All (λ b. b < 256) data_ → hex_loop (data_to_hex_str data_) ≡ ok data_
unfolding hex_loop data_to_hex_str
loop_back [] h = refl
loop_back (b ∷ data_) h =
    rw
      (
        digit_back (b / 16 % 16) (omega arith),
        digit_back (b % 16) (omega arith),
        loop_back data_ h.1,
      )
      (ap (λ x. ok (x ∷ data_)) (omega (arith, h.0)))

even_size : (data_ : Bytes) → length (data_to_hex_str data_) % 2 ≡ 0
unfolding data_to_hex_str
even_size [] = refl
even_size (b ∷ data_) = omega (arith, even_size data_)

-- Bytes that are printed as hexadecimal digits are read back.
pub hex_str_to_data-data_to_hex_str :
    (data_ : Bytes) → All (λ b. b < 256) data_ → hex_str_to_data (data_to_hex_str data_) ≡ ok data_
unfolding hex_str_to_data
hex_str_to_data-data_to_hex_str data_ h = rw (even_size data_) (loop_back data_ h)
