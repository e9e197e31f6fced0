-- ===== src/Tests/Rates.antt =====
-- The theorems on the stored rates at concrete inputs.
use test_assignment.Prelude.{
  ◌≡◌, refl, true, ◌&&◌, some, Bytes, codes, same, ◌==◌, arith, length, if◌then◌else◌,
}
use test_assignment.Prelude.Int.{ℤ, pos}
use test_assignment.Prelude.Result.{ok}
use test_assignment.Dates.{dotted_date_to_yyyymmdd}
use test_assignment.Json.Value.{
  item, stop, array, Value, null, integer, real, string, object, field, end,
}
use test_assignment.Map.{lookup}
use test_assignment.Json.Member.{own_fields, get_key}
use test_assignment.Json.Object.{as_string, try_as_long_double}
use test_assignment.Storage
use test_assignment.Storage.Lookup.{
  HasFullDates, get_exchange_rate-add_record, get_exchange_rate-early,
}
use test_assignment.Storage.Keys.{add-HasFullDates}
use test_assignment.Json.Member.Laws.{entry}
use test_assignment.Storage.Added.{rate_of, add_record_lem}
use test_assignment.Tests.World.{test_real, test_calendar, no_schedule}

abbrev dollar_of : Bytes → Value ℤ
dollar_of date = object (
    field (codes "cc") (string (codes "USD"))
      (field (codes "exchangedate") (string date) (field (codes "rate") (integer (pos 38)) end)))

abbrev dollar : Value ℤ
dollar = dollar_of (codes "15.03.2024")

dollar_cc : Storage.text_field test_real (codes "cc") dollar ≡ ok (codes "USD")
unfolding Storage.text_field get_key lookup as_string
dollar_cc = refl

dollar_date : Storage.text_field test_real (codes "exchangedate") dollar ≡ ok (codes "15.03.2024")
unfolding Storage.text_field get_key lookup as_string
dollar_date = refl

dollar_rate : get_key (codes "rate") dollar ≡ ok (integer (pos 38))
unfolding get_key lookup
dollar_rate = refl

add_record_lem_example :
    ((Storage.add_record test_real test_calendar dollar null).1 ≡ true)
    × (rate_of
          (codes "20240315")
          (codes "USD")
          (Storage.add_record test_real test_calendar dollar null).0
        ≡ (if length (dotted_date_to_yyyymmdd test_calendar (codes "15.03.2024")) == 8
              && (same
                    (codes "20240315")
                    (dotted_date_to_yyyymmdd test_calendar (codes "15.03.2024"))
                  && same (codes "USD") (codes "USD"))
            then some (real (try_as_long_double test_real (integer (pos 38))))
            else rate_of (codes "20240315") (codes "USD") no_schedule))
add_record_lem_example =
    add_record_lem test_real test_calendar dollar null (integer (pos 38)) (codes "USD")
      (codes "15.03.2024") (codes "20240315") (codes "USD") dollar_cc dollar_date dollar_rate

-- the table after the rate of the 5th of March was added
abbrev march_rates : Value ℤ
march_rates =
    Storage.add test_real test_calendar (array (item 0 (dollar_of (codes "05.03.2024")) stop)) null

get_exchange_rate-add_record_example :
    Storage.get_exchange_rate test_real
      (pos 15)
      (pos 3)
      (pos 2024)
      (codes "USD")
      (Storage.add_record test_real test_calendar dollar null).0
    ≡ (if length (dotted_date_to_yyyymmdd test_calendar (codes "15.03.2024")) == 8
          && (same
                (Storage.key_date test_real (pos 15) (pos 3) (pos 2024))
                (dotted_date_to_yyyymmdd test_calendar (codes "15.03.2024"))
              && same (codes "USD") (codes "USD"))
        then try_as_long_double test_real (integer (pos 38))
        else Storage.get_exchange_rate test_real
            (pos 15)
            (pos 3)
            (pos 2024)
            (codes "USD")
            no_schedule)
get_exchange_rate-add_record_example =
    get_exchange_rate-add_record test_real test_calendar dollar null (integer (pos 38))
      (codes "USD") (codes "15.03.2024") (codes "USD") (pos 15) (pos 3) (pos 2024) dollar_cc
      dollar_date dollar_rate

no_rates : HasFullDates no_schedule
unfolding rate_of entry own_fields lookup
no_rates date c x h = cc h

add-HasFullDates_example : HasFullDates march_rates
add-HasFullDates_example =
    add-HasFullDates test_real test_calendar (array (item 0 (dollar_of (codes "05.03.2024")) stop))
      null no_rates

get_exchange_rate-early_example :
    Storage.get_exchange_rate test_real (pos 5) (pos 3) (pos 2024) (codes "USD") march_rates ≡ pos 0
get_exchange_rate-early_example =
    get_exchange_rate-early test_real 5 3 2024 (codes "USD") march_rates
      (add-HasFullDates test_real test_calendar
        (array (item 0 (dollar_of (codes "05.03.2024")) stop)) null no_rates)
      (omega arith) (omega arith) (omega arith)
