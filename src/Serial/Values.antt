-- ===== src/Serial/Values.antt =====
-- support/serialization.hpp: a value that was pushed, read back in its type.
use test_assignment.Prelude.{
  ℕ, zero, suc, ◌*◌, ◌/◌, ◌%◌, ◌^◌, ◌<◌, ◌≡◌, refl, ap, ap₂, sym, append-nil, ◌∙◌, [], ◌∷◌, ◌++◌,
  Bytes, Bool, true, false, ◌||◌, arith, length, leb, ◌==◌, if◌then◌else◌,
}
use native.Mathlib.Numerals.{unary_clauses}
use test_assignment.Prelude.Int.{ℤ, pos, negsuc}
use test_assignment.Prelude.Result.{ok, err, ◌>>=◌, bad_cast}
use test_assignment.Serial.Push.{push_back_lem, frame}
use test_assignment.Serial.Walk.{around, size_lem, stored_lem}
use test_assignment.Serial.Readers.{
  from_bytes, signed_bytes, as_string, as_wstring, as_unumber, as_number,
}
use test_assignment.Serial.{SizeCode, to_bytes, pattern, push_back, push_unumber, push_number}

length-to_bytes : (w v : ℕ) → length (to_bytes w v) ≡ w
unfolding to_bytes
length-to_bytes zero v = refl
length-to_bytes (suc w) v = ap suc (length-to_bytes w (v / 256))

power_suc : (w : ℕ) → 256 ^ suc w ≡ 256 ^ w * 256
power_suc w = simp unary_clauses

from_bytes-to_bytes : (w v : ℕ) → v < 256 ^ w → from_bytes (to_bytes w v) ≡ v
unfolding to_bytes from_bytes
from_bytes-to_bytes zero v h = omega arith
from_bytes-to_bytes (suc w) v h =
    let less : v / 256 < 256 ^ w = omega (arith, power_suc w) in
    omega (arith, from_bytes-to_bytes w (v / 256) less)

-- the numbers that `width` bytes hold
abbrev pub FitsBytes : ℕ → ℤ → Type 0
FitsBytes width (pos n) = n * 2 < 256 ^ width
FitsBytes width (negsuc n) = n * 2 < 256 ^ width

pattern-bound : (w : ℕ) (z : ℤ) → FitsBytes w z → pattern w z < 256 ^ w
unfolding pattern
pattern-bound w (pos n) h = omega arith
pattern-bound w (negsuc n) h = omega arith

signed_bytes-pattern :
    (w : ℕ) (z : ℤ) → (256 ^ w % 2 ≡ 0) → FitsBytes w z → signed_bytes w (pattern w z) ≡ z
unfolding pattern signed_bytes
signed_bytes-pattern w (pos n) e h = ground arith
signed_bytes-pattern w (negsuc n) e h = ground arith

abbrev is_width : ℕ → Bool
is_width w = w == 8 || w == 4 || w == 2 || w == 1

even : (w : ℕ) → is_width w ≡ true → 256 ^ w % 2 ≡ 0
even zero h = ground arith
even (suc w) h = omega (arith, power_suc w)

module _ (C : SizeCode) (pre post : Bytes) where
  read_unumber :
      (d : Bytes)
      → is_width (length d) ≡ true
      → length d < C.limit
      → as_unumber C (around C pre d post) (length pre) ≡ ok (from_bytes d)
  unfolding as_unumber
  read_unumber d i h = rw (size_lem C pre d post h, i, stored_lem C pre d post h) refl

  read_number :
      (d : Bytes)
      → is_width (length d) ≡ true
      → length d < C.limit
      → as_number C (around C pre d post) (length pre) ≡ ok (signed_bytes (length d) (from_bytes d))
  unfolding as_number
  read_number d i h = rw (size_lem C pre d post h, i, stored_lem C pre d post h) refl

  -- A text is read back from its buffer, with any bytes before and behind it, unless it is empty:
  -- then the reader throws.
  pub as_string_lem :
      (d : Bytes)
      → length d < C.limit
      → as_string C (around C pre d post) (length pre)
        ≡ (if length d == 0 then err bad_cast else ok d)
  unfolding as_string
  as_string_lem [] h = rw (size_lem C pre [] post h) refl
  as_string_lem (b ∷ d) h =
      let empty : (suc (length d) == 0) ≡ false = ground arith in
      let some_bytes : leb 1 (suc (length d)) ≡ true = ground arith in
      rw (size_lem C pre (b ∷ d) post h, empty, some_bytes) (stored_lem C pre (b ∷ d) post h)

  -- A wide text is read back; bytes that are no whole number of characters are refused, but for a
  -- single one, which reads as the empty text.
  pub as_wstring_lem :
      (d : Bytes)
      → length d < C.limit
      → as_wstring C (around C pre d post) (length pre)
        ≡ (if length d == 1 then ok [] else if length d % 2 == 0 then ok d else err bad_cast)
  unfolding as_wstring
  as_wstring_lem [] h = rw (size_lem C pre [] post h) refl
  as_wstring_lem (b ∷ []) h = rw (size_lem C pre (b ∷ []) post h) refl
  as_wstring_lem (b ∷ c ∷ d) h =
      let one : (suc (suc (length d)) == 1) ≡ false = ground arith in
      let long : leb 2 (suc (suc (length d))) ≡ true = ground arith in
      rw (size_lem C pre (b ∷ c ∷ d) post h, one, long, stored_lem C pre (b ∷ c ∷ d) post h) refl

module _ (C : SizeCode) (m : Bytes) where
  pushed : (d : Bytes) → length d < C.limit → push_back C d m ≡ ok (around C m d [])
  pushed d h = push_back_lem C d m h ∙ ap (λ t. ok (m ++ t)) (sym (append-nil (frame C d)))

  -- A number of one, two, four or eight bytes that is pushed is read back from its buffer, both an
  -- unsigned and a signed one.
  pub as_number-push_number :
      (w v : ℕ) (z : ℤ)
      → is_width w ≡ true
      → w < C.limit
      → v < 256 ^ w
      → FitsBytes w z
      → ((push_unumber C w v m >>= λ m'. as_unumber C m' (length m)) ≡ ok v)
        × ((push_number C w z m >>= λ m'. as_number C m' (length m)) ≡ ok z)
  unfolding push_unumber push_number
  as_number-push_number w v z i l h k =
      let n : (u : ℕ) → length (to_bytes w u) ≡ w = length-to_bytes w in
      let short : (u : ℕ) → length (to_bytes w u) < C.limit = λ u. omega (arith, n u) in
      let width : (u : ℕ) → is_width (length (to_bytes w u)) ≡ true = λ u. rw (n u) i in
      let p = pattern w z in
      (
        rw (pushed (to_bytes w v) (short v)) (
            read_unumber C m [] (to_bytes w v) (width v) (short v)
            ∙ ap ok (from_bytes-to_bytes w v h)),
        rw (pushed (to_bytes w p) (short p)) (
            read_number C m [] (to_bytes w p) (width p) (short p)
            ∙ ap ok (
                ap₂ signed_bytes (n p) (from_bytes-to_bytes w p (pattern-bound w z k))
                ∙ signed_bytes-pattern w z (even w i) k)),
      )
