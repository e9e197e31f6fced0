-- ===== src/Prelude/Int.antt =====
-- Signed integers over the native numbers, and their 64-bit two's complement patterns.
use Prim.Native.Nat.{ℕ, zero, suc, ◌-◌, ◌%◌, ◌^◌, ◌<◌}
use mathlib.Core.Path.{◌≡◌}
use mathlib.Core.Bool.{Bool, true, false}
use native.Mathlib.Omega.{arith}
use test_assignment.Prelude.Tests.{ltb, ◌==◌, if◌then◌else◌}

-- `negsuc n` is -(n + 1).
pub data ℤ : Type 0 where
  pos : ℕ → ℤ
  negsuc : ℕ → ℤ

abbrev pub two_63 : ℕ
two_63 = 2 ^ 63

abbrev pub two_64 : ℕ
two_64 = 2 ^ 64

-- The `int64_t` whose bit pattern is `w`.
abbrev pub signed : ℕ → ℤ
signed w = if ltb w two_63 then pos w else negsuc (two_64 - w - 1)

-- The bit pattern of an `int64_t`.
abbrev pub pattern64 : ℤ → ℕ
pattern64 (pos n) = n % two_64
pattern64 (negsuc n) = (two_64 - 1 - n % two_64) % two_64

-- The values of `int64_t`.
abbrev pub FitsInt64 : ℤ → Type 0
FitsInt64 (pos n) = n < two_63
FitsInt64 (negsuc n) = n < two_63

pub signed-pattern64 : (z : ℤ) → FitsInt64 z → signed (pattern64 z) ≡ z
signed-pattern64 (pos n) h = ground arith
signed-pattern64 (negsuc n) h = ground arith

abbrev pub same_int : ℤ → ℤ → Bool
same_int (pos a) (pos b) = a == b
same_int (pos a) (negsuc b) = false
same_int (negsuc a) (pos b) = false
same_int (negsuc a) (negsuc b) = a == b

pub same_int→eq : (a b : ℤ) → same_int a b ≡ true → a ≡ b
same_int→eq (pos a) (pos b) h = ground arith
same_int→eq (pos a) (negsuc b) h = ground arith
same_int→eq (negsuc a) (pos b) h = ground arith
same_int→eq (negsuc a) (negsuc b) h = ground arith

-- The cast of an `int64_t` to `int`, of 32 bits.
abbrev pub to_int32 : ℤ → ℤ
to_int32 z =
    let w = pattern64 z % 2 ^ 32 in if ltb w (2 ^ 31) then pos w else negsuc (2 ^ 32 - w - 1)

abbrev pub neg : ℤ → ℤ
neg (pos zero) = pos 0
neg (pos (suc n)) = negsuc n
neg (negsuc n) = pos (suc n)

-- the value of an integer that is not negative, and 0 of one that is
abbrev pub pos_value : ℤ → ℕ
pos_value (pos n) = n
pos_value (negsuc n) = 0
