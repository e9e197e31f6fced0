-- ===== src/Tests/Examples.antt =====
-- The theorems on texts, dates, requests and cron rounds at concrete inputs.
use test_assignment.Prelude.{◌≡◌, true, [], ◌∷◌, codes, true, arith}
use test_assignment.Prelude.Result.{ok}
use test_assignment.Dates.{is_valid_yyyymmdd_date, yyyymmdd}
use test_assignment.Dates.Shape.{yyyymmdd-valid}
use test_assignment.Utf8.{from_utf8, to_utf8}
use test_assignment.Utf8.Words.{from_utf8-to_utf8}
use test_assignment.Json.Print.Escape.{wescape, wunescape, wunescape-wescape}
use test_assignment.Tests.World.{test_calendar, test_calendar-IsLawful}

wunescape-wescape_example : wunescape (wescape (codes "a\"b")) ≡ codes "a\"b"
wunescape-wescape_example = wunescape-wescape (codes "a\"b")

from_utf8-to_utf8_example : from_utf8 (to_utf8 (0x433 ∷ 0x20AC ∷ [])) ≡ ok (0x433 ∷ 0x20AC ∷ [])
from_utf8-to_utf8_example =
    from_utf8-to_utf8 (0x433 ∷ 0x20AC ∷ [])
      ((omega arith, omega arith), ((omega arith, omega arith), tt))

yyyymmdd-valid_example : is_valid_yyyymmdd_date (yyyymmdd test_calendar (2024, 3, 5)) ≡ true
yyyymmdd-valid_example = yyyymmdd-valid test_calendar test_calendar-IsLawful (2024, 3, 5)
