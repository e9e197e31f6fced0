-- ===== src/Tests/Tools.antt =====
-- The theorems on base64, bits, sorting and sets at concrete inputs.
use mathlib.Core.List.{Perm}
use test_assignment.Prelude.{ℕ, ◌&&◌, ◌||◌, not, true, [], ◌∷◌, codes, ◌≡◌, refl, ltb, arith}
use test_assignment.Prelude.Order.{index_order}
use test_assignment.Prelude.Result.{ok, ◌>>=◌}
use test_assignment.Text.Base64.{data_to_base64_str, base64_str_to_data, base64_char}
use test_assignment.Text.Base64.Decode.{base64_str_to_data-data_to_base64_str}
use test_assignment.Bits.{byte_flip, byte_flip_2, byte_flip_3, num_of_set_bits}
use test_assignment.Bits.Flip.{mirrored, ones, flips-agree}
use test_assignment.Bits.Sort.{bsort}
use test_assignment.Bits.Sort.Sorted.{IsSorted, IsStrictOrder, bsort-IsSorted}
use test_assignment.Bits.BitMap.{
  BitMap, set_bit, put_bit, get_bit, bit, const_bit, resize, bytes_for, bin_dump, dump_from,
}
use test_assignment.SetOf.{SetOf, contains, minus, plus, intersect, from_vector}
use test_assignment.SetOf.Membership.{in_vector, contains_lem}

data_to_base64_str_result : data_to_base64_str (codes "Man M") ≡ codes "TWFuIE0="
unfolding data_to_base64_str base64_char
data_to_base64_str_result = refl

base64_str_to_data-data_to_base64_str_example :
    base64_str_to_data (data_to_base64_str (0 ∷ 255 ∷ 16 ∷ 131 ∷ [])) ≡ ok (0 ∷ 255 ∷ 16 ∷ 131 ∷ [])
base64_str_to_data-data_to_base64_str_example =
    base64_str_to_data-data_to_base64_str (0 ∷ 255 ∷ 16 ∷ 131 ∷ []) (ground arith)

flips-agree_example :
    (byte_flip 6 ≡ mirrored 8 6)
    × (byte_flip_2 6 ≡ mirrored 8 6)
    × (byte_flip_3 6 ≡ mirrored 8 6)
    × (num_of_set_bits 6 ≡ ones 8 6)
flips-agree_example = flips-agree 6 (omega arith)

ltb-IsStrictOrder : IsStrictOrder ltb
ltb-IsStrictOrder = record { asym = λ a b h. ground arith; trans = λ a b c h k. ground arith }

bsort-IsSorted_example :
    IsSorted ltb (bsort ltb (5 ∷ 3 ∷ 9 ∷ 1 ∷ []))
    × Perm (bsort ltb (5 ∷ 3 ∷ 9 ∷ 1 ∷ [])) (5 ∷ 3 ∷ 9 ∷ 1 ∷ [])
bsort-IsSorted_example = bsort-IsSorted ltb ltb-IsStrictOrder (5 ∷ 3 ∷ 9 ∷ 1 ∷ [])

abbrev evens : SetOf ℕ
evens = (2, tt) ∷ (4, tt) ∷ []

abbrev small : SetOf ℕ
small = (1, tt) ∷ (2, tt) ∷ []

contains_lem_example :
    (contains 2 (minus evens small) ≡ (contains 2 evens && not (contains 2 small)))
    × (contains 2 (plus evens small) ≡ (contains 2 evens || contains 2 small))
    × (contains 2 (intersect evens small) ≡ (contains 2 evens && contains 2 small))
    × (contains {T = ℕ} 2 (from_vector (3 ∷ 2 ∷ [])) ≡ in_vector {T = ℕ} 2 (3 ∷ 2 ∷ []))
contains_lem_example = contains_lem 2 evens small (3 ∷ 2 ∷ [])

abbrev no_bits : BitMap
no_bits = record { contents = []; current_bits_count = 0 }

map_dumped : (set_bit 9 true (resize 10 no_bits) >>= λ m. bin_dump m) ≡ ok (codes "0000000001")
unfolding resize bytes_for set_bit put_bit get_bit bit const_bit bin_dump dump_from
map_dumped = refl
