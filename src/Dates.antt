-- ===== src/Dates.antt =====
-- src/misc_utils.hpp: the dates of the service, `dd.mm.yyyy` in the data that it fetches and
-- `yyyymmdd` in its tables and in its requests.
pub mod Civil
pub mod Iso
pub mod Shape
use test_assignment.Prelude.{
  ℕ, ◌-◌, Bool, true, false, ◌&&◌, Option, none, some, List, [], ◌∷◌, ◌++◌, Bytes, codes, all,
  length, replicate, ◌==◌, if◌then◌else◌,
}
use test_assignment.Prelude.Int.{ℤ, same_int, to_int32}
use test_assignment.Prelude.Result.{Result, ok, err, ◌>>=◌, catch}
use test_assignment.Text.{is_digit}
use test_assignment.Text.Number.{atoi, decimal}
use test_assignment.Text.Split.{str_tok}
use test_assignment.Dates.Civil.{Calendar}
use test_assignment.Dates.Iso.{from_iso_8601}

unfoldable pub is_valid_yyyymmdd_date : Bytes → Bool
is_valid_yyyymmdd_date date = length date == 8 && all is_digit date

-- `setfill('0') << setw(w) << n`
unfoldable pub setw : ℕ → ℤ → Bytes
unfolding decimal
setw w n = let s = decimal n in replicate (w - length s) 48 ++ s

-- `ctl_date`
unfoldable pub control_date : ℤ → ℤ → ℤ → Bytes
control_date y m d = setw 4 y ++ codes "-" ++ setw 2 m ++ codes "-" ++ setw 2 d

module _ (C : Calendar) where
  -- the three tests on `chck`
  abbrev pub agrees : C.Time → ℤ → ℤ → ℤ → Bool
  agrees t y m d = same_int (C.day t) d && same_int (C.month t) m && same_int (C.year t) y

  unfoldable pub check_date : ℤ → ℤ → ℤ → Option C.Time
  check_date y m d =
      let t = from_iso_8601 C (control_date y m d) in if agrees t y m d then some t else none

  unfoldable pub valid_tokens : List Bytes → Result (Option C.Time)
  valid_tokens (a ∷ b ∷ c ∷ []) = atoi a 10 >>= λ d.
      atoi b 10 >>= λ m. atoi c 10 >>= λ y. ok (check_date (to_int32 y) (to_int32 m) (to_int32 d))
  valid_tokens _ = ok none

  -- `valid_dotted_date`: `some t` stands for `true` with `t` as `*found_value`.
  unfoldable pub valid_dotted_date : Bytes → Option C.Time
  valid_dotted_date s = catch (valid_tokens (str_tok s (codes "."))) none

  -- the text that `dotted_date_to_yyyymmdd` and `date_right_now` make of a time
  unfoldable pub yyyymmdd : C.Time → Bytes
  yyyymmdd t = setw 4 (C.year t) ++ setw 2 (C.month t) ++ setw 2 (C.day t)

  unfoldable pub dotted_date_to_yyyymmdd : Bytes → Bytes
  dotted_date_to_yyyymmdd s = elim (valid_dotted_date s) [ none ↦ [] | some t ↦ yyyymmdd t ]

  -- `date_right_now()` at the time `t` that the clock shows
  unfoldable pub date_right_now : C.Time → Bytes
  date_right_now t = yyyymmdd t
