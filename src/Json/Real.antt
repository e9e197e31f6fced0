-- ===== src/Json/Real.antt =====
-- `long double` and what the JSON value does with it. The model does not read floating point
-- numbers: the type and its conversions are those of the compiler and of its library.
use test_assignment.Prelude.{ℕ, Bool, Bytes}
use test_assignment.Prelude.Int.{ℤ}

pub record LongDouble : Type 1 where
  -- the values
  pub F : Type 0
  -- the conversions from and to `std::int64_t`
  pub of_int : ℤ → F
  pub to_int : F → ℤ
  -- `x != 0.0L`
  pub nonzero : F → Bool
  -- `std::setprecision(6) << std::fixed << x`
  pub fixed6 : F → Bytes
  -- `std::atof`
  pub atof : Bytes → F
  -- `sizeof(long double)`
  pub real_size : ℕ
