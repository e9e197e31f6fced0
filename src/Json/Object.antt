-- ===== src/Json/Object.antt =====
-- support/json.hpp: the conversions of `object` that depend on its tag.
use test_assignment.Prelude.{
  ℕ, zero, suc, ◌+◌, Bool, true, false, not, List, [], ◌∷◌, Bytes, codes, ◌==◌, length,
}
use test_assignment.Prelude.Int.{ℤ, pos, negsuc}
use test_assignment.Prelude.Result.{Result, ok, err, ◌>>=◌, wrong_number, invalid_conversion}
use test_assignment.Text.Number.{itoa}
use test_assignment.Json.Value.{
  Value, null, boolean, integer, real, string, object, array, fields, items,
}
use test_assignment.Json.Real.{LongDouble}
use test_assignment.Json.Element.{size, get_index}
use test_assignment.Json.Print.{strip_fraction, serialize}

module _ (R : LongDouble) where
  unfoldable pub as_number : Value R.F → Result ℤ
  as_number (integer z) = ok z
  as_number (real x) = ok (R.to_int x)
  as_number _ = err wrong_number

  -- `as_number(default_value)`
  unfoldable pub as_number_or : ℤ → Value R.F → ℤ
  as_number_or d (integer z) = z
  as_number_or d (real x) = R.to_int x
  as_number_or d _ = d

  unfoldable pub as_longdouble : Value R.F → Result R.F
  as_longdouble (real x) = ok x
  as_longdouble (integer z) = ok (R.of_int z)
  as_longdouble _ = err wrong_number

  -- `as_longdouble(default_value)`
  unfoldable pub as_longdouble_or : R.F → Value R.F → R.F
  as_longdouble_or d (real x) = x
  as_longdouble_or d (integer z) = R.of_int z
  as_longdouble_or d _ = d

  abbrev pub bit_of : Bool → ℤ
  bit_of true = pos 1
  bit_of false = pos 0

  unfoldable pub try_as_long_double : Value R.F → R.F
  unfolding size
  try_as_long_double (real x) = x
  try_as_long_double (integer z) = R.of_int z
  try_as_long_double (boolean b) = R.of_int (bit_of b)
  try_as_long_double null = R.of_int (pos 0)
  try_as_long_double (array xs) = R.of_int (pos (size R.real_size (array xs)))
  try_as_long_double (object fs) = R.of_int (pos (size R.real_size (object fs)))
  try_as_long_double (string s) = R.atof s

  unfoldable pub try_as_number : Value R.F → ℤ
  unfolding try_as_long_double
  try_as_number (real x) = R.to_int x
  try_as_number (integer z) = z
  try_as_number (boolean b) = bit_of b
  try_as_number null = pos 0
  try_as_number (array xs) = pos (size R.real_size (array xs))
  try_as_number (object fs) = pos (size R.real_size (object fs))
  try_as_number (string s) = R.to_int (R.atof s)

  abbrev pub is_zero : ℤ → Bool
  is_zero (pos n) = n == 0
  is_zero (negsuc n) = false

  -- `try_as_long_double` throws for no tag, so that the `try` block always returns: the text is
  -- never compared with "true".
  unfoldable pub as_boolean : Value R.F → Bool
  unfolding try_as_long_double
  as_boolean (boolean b) = b
  as_boolean null = false
  as_boolean (integer z) = not (is_zero z)
  as_boolean (real x) = R.nonzero x
  as_boolean (object fs) = not (length (fields fs) == 0)
  as_boolean (array xs) = not (length (items xs) == 0)
  as_boolean (string s) = R.nonzero (try_as_long_double (string s))

  unfoldable pub as_string : Value R.F → Result Bytes
  as_string null = ok []
  as_string (integer z) = itoa z 10
  as_string (real x) = ok (strip_fraction (R.fixed6 x))
  as_string (boolean true) = ok (codes "true")
  as_string (boolean false) = ok (codes "false")
  as_string (object fs) = serialize R true (object fs)
  as_string (array xs) = serialize R true (array xs)
  as_string (string s) = ok s

  -- `string_ref` and `direct_string`
  unfoldable pub string_ref : Value R.F → Result Bytes
  string_ref (string s) = ok s
  string_ref _ = err invalid_conversion

  -- The loop of `extract_strarray`: `i` up to `sz`, by the rounds left.
  unfoldable pub strarray_loop : ℕ → ℕ → Value R.F → Result (List Bytes)
  unfolding as_string get_index
  strarray_loop zero i v = ok []
  strarray_loop (suc rounds) i v = get_index i v >>= λ r.
      as_string r.0 >>= λ s. strarray_loop rounds (i + 1) r.1 >>= λ rest. ok (s ∷ rest)

  unfoldable pub extract_strarray : Value R.F → Result (List Bytes)
  unfolding strarray_loop size
  extract_strarray (array xs) = strarray_loop (size R.real_size (array xs)) 0 (array xs)
  extract_strarray _ = err invalid_conversion
