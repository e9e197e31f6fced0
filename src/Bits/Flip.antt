-- ===== src/Bits/Flip.antt =====
-- support/bit_util.hpp: the three ways to reverse the bits of a byte, and its set bits.
use test_assignment.Prelude.{
  ℕ, zero, suc, ◌+◌, ◌-◌, ◌*◌, ◌/◌, ◌%◌, ◌^◌, ◌<◌, Bool, true, ◌&&◌, ◌≡◌, refl, ◌==◌, all_below,
  all_below_sound, arith,
}
use test_assignment.Bits.{byte_flip, byte_flip_2, byte_flip_3, num_of_set_bits}

-- the digit of `2 ^ i`
abbrev pub bit_at : ℕ → ℕ → ℕ
bit_at b i = b / 2 ^ i % 2

-- the number whose digits below `2 ^ n` are those of `b`, from the other end
abbrev pub mirrored : ℕ → ℕ → ℕ
mirrored zero b = 0
mirrored (suc n) b = bit_at b n * 2 ^ (7 - n) + mirrored n b

abbrev pub ones : ℕ → ℕ → ℕ
ones zero b = 0
ones (suc n) b = bit_at b n + ones n b

flips_right : ℕ → Bool
flips_right b =
    byte_flip b == mirrored 8 b
    && (byte_flip_2 b == mirrored 8 b
        && (byte_flip_3 b == mirrored 8 b && num_of_set_bits b == ones 8 b))

flips_tested : all_below 256 flips_right ≡ true
unfolding all_below flips_right byte_flip byte_flip_2 byte_flip_3 num_of_set_bits
flips_tested = refl

four_equal :
    (a b c d x y : ℕ)
    → (a == x && (b == x && (c == x && d == y))) ≡ true
    → (a ≡ x) × (b ≡ x) × (c ≡ x) × (d ≡ y)
four_equal a b c d x y h = ground arith

-- For every byte, `byte_flip`, `byte_flip_2` and `byte_flip_3` make the same byte, whose digits are
-- those of the given one from the other end, and `num_of_set_bits` is the number of its ones.
pub flips-agree :
    (b : ℕ)
    → b < 256
    → (byte_flip b ≡ mirrored 8 b)
      × (byte_flip_2 b ≡ mirrored 8 b)
      × (byte_flip_3 b ≡ mirrored 8 b)
      × (num_of_set_bits b ≡ ones 8 b)
unfolding flips_right
flips-agree b h =
    four_equal (byte_flip b) (byte_flip_2 b) (byte_flip_3 b) (num_of_set_bits b) (mirrored 8 b)
      (ones 8 b) (all_below_sound 256 flips_right b flips_tested h)
