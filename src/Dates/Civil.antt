-- ===== src/Dates/Civil.antt =====
-- The calendar of the C library, which support/time/windows/timespec_wrapper.hpp calls: `mktime`
-- with `tm_isdst` -1, and the fields of `localtime`.
use test_assignment.Prelude.{ℕ, ◌%◌, ◌≤◌, ◌≡◌, Bool, ◌&&◌, ◌||◌, not, ◌==◌, if◌then◌else◌}
use test_assignment.Prelude.Int.{ℤ, pos}

pub record Calendar : Type 1 where
  pub Time : Type 0
  -- `time_t` 0
  pub epoch : Time
  -- `mktime` at year, month and day of the month, hour, minute and second
  pub mktime : ℤ → ℤ → ℤ → ℤ → ℤ → ℤ → Time
  -- `localtime(&t)->tm_year + 1900`, `tm_mon + 1` and `tm_mday`
  pub year : Time → ℤ
  pub month : Time → ℤ
  pub day : Time → ℤ
  -- a fraction of a second, of so many digits, added; floating point
  pub add_fraction : ℕ → ℕ → Time → Time
  -- an offset of hours and minutes subtracted, or added where the sign is -; floating point
  pub sub_offset : ℤ → ℤ → Bool → Time → Time
  -- `t + date_gmtoffset(t)`
  pub add_gmtoffset : Time → Time

unfoldable pub is_leap : ℕ → Bool
is_leap y = y % 4 == 0 && (not (y % 100 == 0) || y % 400 == 0)

unfoldable pub days_in : ℕ → ℕ → ℕ
unfolding is_leap
days_in y m =
    if m == 2
    then (if is_leap y then 29 else 28)
    else if m == 4 || m == 6 || m == 9 || m == 11
    then 30
    else 31

-- A day of the Gregorian calendar in the years that `mktime` serves in every time zone.
pub record IsCivil (y m d : ℕ) : Type 0 where
  pub year_low : 1971 ≤ y
  pub year_high : y ≤ 2999
  pub month_low : 1 ≤ m
  pub month_high : m ≤ 12
  pub day_low : 1 ≤ d
  pub day_high : d ≤ days_in y m

abbrev pub midnight : (C : Calendar) → ℕ → ℕ → ℕ → C.Time
midnight C y m d = C.mktime (pos y) (pos m) (pos d) (pos 0) (pos 0) (pos 0)

-- What is documented of the two: `localtime` shows the day that `mktime` was given, and its fields
-- have the ranges of `struct tm`; the year goes up to 3001.
pub record IsLawful (C : Calendar) : Type 0 where
  pub year_of : (y m d : ℕ) → IsCivil y m d → C.year (midnight C y m d) ≡ pos y
  pub month_of : (y m d : ℕ) → IsCivil y m d → C.month (midnight C y m d) ≡ pos m
  pub day_of : (y m d : ℕ) → IsCivil y m d → C.day (midnight C y m d) ≡ pos d
  pub year_range : (t : C.Time) → (n : ℕ) × (C.year t ≡ pos n) × (n ≤ 3001)
  pub month_range : (t : C.Time) → (n : ℕ) × (C.month t ≡ pos n) × (n ≤ 12)
  pub day_range : (t : C.Time) → (n : ℕ) × (C.day t ≡ pos n) × (n ≤ 31)
