-- ===== src/Bits/BitMap.antt =====
-- support/bit_util.hpp:530-690: `bit_map`, a number of bits in a vector of bytes. The macro that
-- makes the checks of a range is defined nowhere, so that a byte past the end is undefined.
pub mod Laws
use Prim.Native.Nat.{bit_and, bit_or}
use test_assignment.Prelude.{
  ℕ, zero, suc, ◌+◌, ◌-◌, ◌*◌, ◌/◌, ◌%◌, ◌^◌, Bool, true, false, List, [], ◌∷◌, ◌++◌, Bytes, length,
  get_or, set, take, map, replicate, ltb, leb, ◌==◌, if◌then◌else◌,
}
use test_assignment.Prelude.Result.{Result, ok, err, ◌>>=◌, fault, out_of_range}
use test_assignment.Bits.{shr, shl}

pub record BitMap : Type 0 where
  pub contents : Bytes
  pub current_bits_count : ℕ

-- a byte with one bit set or cleared, and one bit of a byte
unfoldable pub put_bit : ℕ → ℕ → Bool → ℕ
put_bit c k true = bit_or c (shl 1 k)
put_bit c k false = bit_and c (255 - shl 1 k)

unfoldable pub get_bit : ℕ → ℕ → ℕ
get_bit c k = bit_and (shr c k) 1

-- `set_bit`; the flag is whether the value is not 0.
unfoldable pub set_bit : ℕ → Bool → BitMap → Result BitMap
set_bit bit_no value m =
    let byte_no = bit_no / 8 in
    if ltb byte_no (length m.contents)
    then ok (record m {
      contents = set m.contents byte_no (put_bit (get_or m.contents byte_no 0) (bit_no % 8) value);
    })
    else err fault

-- `bit`, on a map that is not `const`
unfoldable pub bit : ℕ → BitMap → Result ℕ
bit bit_no m =
    if ltb (bit_no / 8) (length m.contents)
    then ok (get_bit (get_or m.contents (bit_no / 8) 0) (bit_no % 8))
    else err fault

-- `bit` on a `const` map
unfoldable pub const_bit : ℕ → BitMap → Result ℕ
unfolding bit
const_bit bit_no m = if leb m.current_bits_count bit_no then err out_of_range else bit bit_no m

-- the bytes that hold a number of bits
unfoldable pub bytes_for : ℕ → ℕ
bytes_for bits = bits / 8 + (if bits % 8 == 0 then 0 else 1)

-- `resize`, which cuts off or fills with zeros
unfoldable pub resize : ℕ → BitMap → BitMap
unfolding bytes_for
resize new_bits_count m =
    let n = bytes_for new_bits_count in
    record {
      contents = take n m.contents ++ replicate (n - length m.contents) 0;
      current_bits_count = new_bits_count;
    }

unfoldable pub set_all : BitMap → BitMap
set_all m = record m { contents = replicate (length m.contents) 255 }

unfoldable pub unset_all : BitMap → BitMap
unset_all m = record m { contents = replicate (length m.contents) 0 }

-- the loop of `bin_dump`, by the rounds left
unfoldable pub dump_from : ℕ → ℕ → BitMap → Result Bytes
unfolding const_bit
dump_from zero i m = ok []
dump_from (suc rounds) i m =
    const_bit i m >>= λ b. dump_from rounds (i + 1) m >>= λ s. ok ((48 + b) ∷ s)

unfoldable pub bin_dump : BitMap → Result Bytes
unfolding dump_from
bin_dump m = dump_from m.current_bits_count 0 m
