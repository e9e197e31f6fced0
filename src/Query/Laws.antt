-- ===== src/Query/Laws.antt =====
-- The address of a dated request.
use test_assignment.Prelude.{
  ◌≡◌, ◌↔◌, ◌≢◌, true, [], ◌++◌, Bytes, codes, same, arith, if◌then◌else◌,
}
use test_assignment.Text.{strtolower}
use test_assignment.Dates.{is_valid_yyyymmdd_date}
use test_assignment.Query.{given_date_rates, base_url, str_format}

-- A request is composed exactly for a date of eight digits, and then carries the date behind the
-- address of the service; the suffix asks for JSON unless the format is "xml" in any case.
pub given_date_rates_lem :
    (date fmt : Bytes)
    → ((is_valid_yyyymmdd_date date ≡ true) ↔ (given_date_rates date fmt ≢ []))
      × (given_date_rates date fmt ≡ (
          if is_valid_yyyymmdd_date date
          then base_url
            ++ codes "?date="
            ++ date
            ++ (if same (strtolower fmt) (codes "xml") then [] else codes "&json")
          else []))
unfolding given_date_rates str_format
given_date_rates_lem date fmt = ground arith
