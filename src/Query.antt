-- ===== src/Query.antt =====
-- src/api_queries_composer.hpp: the addresses of the requests to the bank.
pub mod Laws
use test_assignment.Prelude.{Bool, true, false, [], ◌++◌, Bytes, codes, same, if◌then◌else◌}
use test_assignment.Text.{strtolower}
use test_assignment.Dates.{is_valid_yyyymmdd_date}

pub data Format : Type 0 where
  json xml : Format

unfoldable pub str_format : Bytes → Format
str_format fmt_str = if same (strtolower fmt_str) (codes "xml") then xml else json

abbrev pub base_url : Bytes
base_url = codes "https://bank.gov.ua/NBUStatService/v1/statdirectory/exchange"

abbrev pub current_suffix : Format → Bytes
current_suffix json = codes "?json"
current_suffix xml = []

abbrev pub dated_suffix : Format → Bytes
dated_suffix json = codes "&json"
dated_suffix xml = []

unfoldable pub current_date_rates : Bytes → Bytes
unfolding str_format
current_date_rates fmt_str = base_url ++ current_suffix (str_format fmt_str)

unfoldable pub given_date_rates : Bytes → Bytes → Bytes
unfolding str_format is_valid_yyyymmdd_date
given_date_rates date fmt_str =
    if is_valid_yyyymmdd_date date
    then base_url ++ codes "?date=" ++ date ++ dated_suffix (str_format fmt_str)
    else []
