-- ===== src/Text/Base64.antt =====
-- support/str_util.cpp: `data_to_base64_str`, `base64_str_to_data` and `is_valid_base64`. Data is a
-- list of bytes; the masks and shifts of a byte are written as quotients and remainders.
pub mod Decode
use test_assignment.Prelude.{
  ℕ, zero, suc, ◌+◌, ◌-◌, ◌*◌, ◌/◌, ◌%◌, ◌<◌, Bool, true, false, not, ◌&&◌, ◌||◌, List, [], ◌∷◌,
  ◌++◌, Bytes, ◌≡◌, refl, ap, ltb, leb, ◌==◌, if◌then◌else◌, length, All, arith,
}
use test_assignment.Prelude.Result.{Result, ok, err, ◌>>=◌, catch, bad_base64, fault}

-- `base64_chars`
unfoldable pub base64_char : ℕ → ℕ
base64_char n =
    if ltb n 26
    then 65 + n
    else if ltb n 52
    then 71 + n
    else if ltb n 62
    then n - 4
    else if n == 62
    then 43
    else 47

-- `char_array_4` of the three bytes in `char_array_3`
abbrev pub sextet_0 : ℕ → ℕ
sextet_0 a = a / 4

abbrev pub sextet_1 : ℕ → ℕ → ℕ
sextet_1 a b = a % 4 * 16 + b / 16

abbrev pub sextet_2 : ℕ → ℕ → ℕ
sextet_2 b c = b % 16 * 4 + c / 64

abbrev pub sextet_3 : ℕ → ℕ
sextet_3 c = c % 64

unfoldable pub data_to_base64_str : Bytes → Bytes
data_to_base64_str [] = []
data_to_base64_str (a ∷ []) = base64_char (sextet_0 a) ∷ base64_char (sextet_1 a 0) ∷ 61 ∷ 61 ∷ []
data_to_base64_str (a ∷ b ∷ []) =
    base64_char (sextet_0 a) ∷ base64_char (sextet_1 a b) ∷ base64_char (sextet_2 b 0) ∷ 61 ∷ []
data_to_base64_str (a ∷ b ∷ c ∷ data_) =
    base64_char (sextet_0 a)
    ∷ base64_char (sextet_1 a b)
    ∷ base64_char (sextet_2 b c)
    ∷ base64_char (sextet_3 c)
    ∷ data_to_base64_str data_

-- `base64_remap`, cast to a byte: -1 is 255.
unfoldable pub base64_remap : ℕ → ℕ
base64_remap c =
    if leb 65 c && leb c 90
    then c - 65
    else if leb 97 c && leb c 122
    then c - 71
    else if leb 48 c && leb c 57
    then c + 4
    else if c == 43
    then 62
    else if c == 47
    then 63
    else 255

unfoldable pub is_base64 : ℕ → Bool
is_base64 c = leb 65 c && leb c 90 || leb 97 c && leb c 122 || leb 47 c && leb c 57 || c == 43

-- `iscntrl(c) || isspace(c)` of a `char`, which is undefined for a negative one
unfoldable pub is_skipped : ℕ → Result Bool
is_skipped c = if leb 128 c then err fault else ok (ltb c 33 || c == 127)

-- `char_array_3` of the four values in `char_array_4`, as bytes
abbrev pub octet_0 : ℕ → ℕ → ℕ
octet_0 x y = (x * 4 + y % 64 / 16) % 256

abbrev pub octet_1 : ℕ → ℕ → ℕ
octet_1 y z = (y % 16 * 16 + z % 64 / 4) % 256

abbrev pub octet_2 : ℕ → ℕ → ℕ
octet_2 z w = (z % 4 * 64 + w) % 256

-- What stands in `char_array_4`, at most three characters between two rounds.
pub data Group : Type 0 where
  group_0 : Group
  group_1 : ℕ → Group
  group_2 : ℕ → ℕ → Group
  group_3 : ℕ → ℕ → ℕ → Group

-- behind the loop: the rest of the array is 0, which the table maps to 255
unfoldable pub last_octets : Group → Bytes
last_octets group_0 = []
last_octets (group_1 x) = []
last_octets (group_2 x y) = octet_0 (base64_remap x) (base64_remap y) ∷ []
last_octets (group_3 x y z) =
    octet_0 (base64_remap x) (base64_remap y) ∷ octet_1 (base64_remap y) (base64_remap z) ∷ []

-- the loop, up to the first `=`
unfoldable pub base64_loop : Bytes → Group → Result Bytes
base64_loop [] g = ok (last_octets g)
base64_loop (c ∷ s) g =
    if c == 61
    then ok (last_octets g)
    else if is_base64 c
    then (elim g [
      | group_0 ↦ base64_loop s (group_1 c)
      | group_1 x ↦ base64_loop s (group_2 x c)
      | group_2 x y ↦ base64_loop s (group_3 x y c)
      | group_3 x y z ↦ base64_loop s group_0 >>= λ rest. ok (
          octet_0 (base64_remap x) (base64_remap y)
          ∷ octet_1 (base64_remap y) (base64_remap z)
          ∷ octet_2 (base64_remap z) (base64_remap c)
          ∷ rest)
    ])
    else (is_skipped c >>= λ skipped. if skipped then base64_loop s g else err bad_base64)

unfoldable pub base64_str_to_data : Bytes → Result Bytes
base64_str_to_data encoded_string =
    if length encoded_string == 0
    then ok []
    else if length encoded_string % 4 == 0
    then base64_loop encoded_string group_0
    else err bad_base64

-- `is_valid_base64`: text that data comes out of
unfoldable pub is_valid_base64 : Bytes → Bool
is_valid_base64 may_be_b64 =
    not (length may_be_b64 == 0)
    && catch (base64_str_to_data may_be_b64 >>= λ recovered. ok (not (length recovered == 0))) false
