-- ===== src/Serial/Readers.antt =====
-- support/serialization.hpp: a buffer's data as a number, a text or bytes.
use test_assignment.Prelude.{
  ℕ, ◌+◌, ◌-◌, ◌*◌, ◌%◌, ◌^◌, ◌||◌, [], ◌∷◌, Bytes, ltb, leb, ◌==◌, if◌then◌else◌, length, take,
  drop,
}
use test_assignment.Prelude.Int.{ℤ, pos, negsuc}
use test_assignment.Prelude.Result.{Result, ok, err, ◌>>=◌, fault, bad_cast}
use test_assignment.Serial.{SizeCode, buffer_size, data_at}

unfoldable pub from_bytes : Bytes → ℕ
from_bytes [] = 0
from_bytes (b ∷ bs) = b + 256 * from_bytes bs

-- two's complement read back
unfoldable pub signed_bytes : ℕ → ℕ → ℤ
signed_bytes width n = if ltb (n * 2) (256 ^ width) then pos n else negsuc (256 ^ width - 1 - n)

module _ (C : SizeCode) where
  -- `count` bytes from `data()` on
  abbrev pub stored : Bytes → ℕ → ℕ → Result Bytes
  stored m p count = data_at C m p >>= λ d.
      if ltb (length m) (d + count) then err fault else ok (take count (drop d m))

  unfoldable pub as_bytevec : Bytes → ℕ → Result Bytes
  as_bytevec m p = buffer_size C m p >>= λ s. if s == 0 then ok [] else stored m p s

  -- `as_string()`, a view of at least one `char`
  unfoldable pub as_string : Bytes → ℕ → Result Bytes
  as_string m p = buffer_size C m p >>= λ s. if leb 1 s then stored m p s else err bad_cast

  -- `as_wstring()`: the bytes of the view; a `wchar_t` has two.
  unfoldable pub as_wstring : Bytes → ℕ → Result Bytes
  as_wstring m p = buffer_size C m p >>= λ s.
      if leb 2 s then (if s % 2 == 0 then stored m p s else err bad_cast) else ok []

  -- `as_unumber()`, on a machine that is little-endian
  unfoldable pub as_unumber : Bytes → ℕ → Result ℕ
  as_unumber m p = buffer_size C m p >>= λ s.
      if s == 8 || s == 4 || s == 2 || s == 1
      then (stored m p s >>= λ bs. ok (from_bytes bs))
      else err bad_cast

  -- `as_number()`
  unfoldable pub as_number : Bytes → ℕ → Result ℤ
  as_number m p = buffer_size C m p >>= λ s.
      if s == 8 || s == 4 || s == 2 || s == 1
      then (stored m p s >>= λ bs. ok (signed_bytes s (from_bytes bs)))
      else err bad_cast
