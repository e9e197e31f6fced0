-- ===== src/Text/Number.antt =====
-- support/str_util.hpp:348-406 `atoi` and support/str_util.cpp:344-393 `itoa`, `utoa`.
-- A machine word is kept as its bit pattern: a signed product or sum that overflows is undefined
-- in C++ and wraps in the project's compilers.
use mathlib.Core.List.{reverse}
use test_assignment.Prelude.{
  ℕ, zero, suc, ◌-◌, ◌+◌, ◌*◌, ◌/◌, ◌%◌, Bool, true, false, ◌||◌, ◌&&◌, Option, none, some, [], ◌∷◌,
  ◌++◌, Bytes, codes, ltb, leb, ◌==◌, if◌then◌else◌, length, get_or,
}
use test_assignment.Prelude.Int.{ℤ, pos, negsuc, two_63, two_64, signed}
use test_assignment.Prelude.Result.{
  Result, ok, err, ◌>>=◌, invalid_string, invalid_radix, empty_string, fault,
}

-- the entries of the table `digits` that are not -1
unfoldable pub digit_of : ℕ → Option ℕ
digit_of c =
    if leb 48 c && leb c 57
    then some (c - 48)
    else if leb 65 c && leb c 90
    then some (c - 55)
    else if leb 97 c && leb c 122
    then some (c - 87)
    else none

abbrev pub minus : ℕ
minus = 45

abbrev pub plus : ℕ
plus = 43

-- `if((dd < radix) && (dd >= 0)) { … } else { allright = false; }`
unfoldable pub digit_below : ℕ → ℕ → Option ℕ
unfolding digit_of
digit_below radix c = elim (digit_of c) [
  | none ↦ none
  | some d ↦ if ltb d radix then some d else none
]

-- The loop, from the last character to the first; `result` and `pwr` are patterns of `int64_t`.
-- A sign ends the loop wherever it stands. The result is the pattern and the sign.
unfoldable pub atoi_loop : ℕ → Bytes → ℕ → ℕ → Result (ℕ × Bool)
unfolding digit_below
atoi_loop radix [] result pwr = ok (result, false)
atoi_loop radix (c ∷ s) result pwr =
    if c == minus
    then ok (result, true)
    else if c == plus
    then ok (result, false)
    else if leb 128 c
    then err fault
    else elim (digit_below radix c) [
      | none ↦ err invalid_string
      | some d ↦ atoi_loop radix s ((result + d * pwr) % two_64) (pwr * radix % two_64)
    ]

-- `return negative ? -result : result;`
unfoldable pub with_sign : ℕ × Bool → ℤ
with_sign (result, negative) =
    if negative then signed ((two_64 - result) % two_64) else signed result

unfoldable pub atoi : Bytes → ℕ → Result ℤ
atoi a radix =
    if length a == 0
    then err empty_string
    else if ltb radix 2 || ltb 36 radix
    then err invalid_radix
    else (atoi_loop radix (reverse a) 0 1 >>= λ r. ok (with_sign r))

abbrev pub digit_chars : Bytes
digit_chars = codes "0123456789abcdefghijklmnopqrstuvwxyz"

-- `char_stack`, the lowest digit first. The fuel is 64: with a radix of 2 or more a word has at
-- most 64 digits, and the array holds 256.
unfoldable pub char_stack : ℕ → ℕ → ℕ → Bytes
char_stack radix zero val = []
char_stack radix (suc fuel) val =
    let rest = char_stack radix fuel (val / radix) in
    if val == 0 then [] else get_or digit_chars (val % radix) 0 ∷ rest

abbrev pub bad_radix : ℕ → Bool
bad_radix radix = ltb radix 2 || ltb 36 radix

unfoldable pub utoa : ℕ → ℕ → Result Bytes
utoa value radix =
    if bad_radix radix
    then err invalid_radix
    else if value == 0
    then ok (codes "0")
    else ok (reverse (char_stack radix 64 value))

-- -INT64_MIN overflows: the loop then indexes `digits` with a negative remainder.
unfoldable pub itoa : ℤ → ℕ → Result Bytes
itoa (pos n) radix =
    if bad_radix radix
    then err invalid_radix
    else if n == 0
    then ok (codes "0")
    else ok (reverse (char_stack radix 64 n))
itoa (negsuc n) radix =
    if bad_radix radix
    then err invalid_radix
    else if suc n == two_63
    then err fault
    else ok (reverse (char_stack radix 64 (suc n) ++ minus ∷ []))

-- `std::ostream << int` in decimal
unfoldable pub decimal : ℤ → Bytes
decimal (pos n) = if n == 0 then codes "0" else reverse (char_stack 10 64 n)
decimal (negsuc n) = minus ∷ reverse (char_stack 10 64 (suc n))
