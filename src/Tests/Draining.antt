-- ===== src/Tests/Draining.antt =====
-- The retry job on a schedule of one date, with a bank that answers.
use mathlib.Core.Path.{subst}
use test_assignment.Prelude.{
  sym, all, ap, ℕ, zero, suc, ◌≡◌, refl, true, some, [], ◌∷◌, Bytes, codes, same, if◌then◌else◌,
  arith, length,
}
use test_assignment.Prelude.Int.{ℤ, pos}
use test_assignment.Prelude.Result.{Result, ok}
use test_assignment.Map.{Map, insert, lookup, erase, member, last_key, keys}
use test_assignment.Disk.{load_from_file}
use test_assignment.Text.{strtolower, tolower}
use test_assignment.Text.Number.{
  atoi, atoi_loop, digit_below, digit_of, with_sign, decimal, char_stack,
}
use test_assignment.Text.Split.{str_tok, str_tok_loop, cut, string_starts_from}
use test_assignment.Dates.{
  setw, control_date, check_date, valid_tokens, valid_dotted_date, is_valid_yyyymmdd_date,
}
use test_assignment.Dates.Iso.{
  from_iso_8601, scan, scan_char, separator, digit, split_offset, store, store_last, count_fraction,
  year_sign, to_offset, offset_sign, time_of,
}
use test_assignment.Json.Value.{
  Value, null, boolean, integer, string, object, array, field, end, item, stop, of_fields,
  is_object, is_array, is_string, is_number, is_real,
}
use test_assignment.Json.Member.{
  set_key, at_key, own_fields, get_key, key_exists, string_field_exists,
}
use test_assignment.Json.Element.{size, array_size, get_index, push_back, own_items}
use test_assignment.Json.Object.{as_string}
use test_assignment.Json.Print.{
  serialize, serialize_actual, field_texts, print_object, print_entries, style, prefix,
}
use test_assignment.Json.Translate.{
  Node, string_node, bool_node, int64_node, array_node, object_node, node, no_node, pair, no_pair,
  deserialize, translate, translate_array, translate_object, c_str,
}
use test_assignment.Schedule
use test_assignment.Fetch
use test_assignment.Fetch.{
  Env, World, Send, field_is, dated, is_valid_entry, entries_valid, is_valid_currencies_array,
}
use test_assignment.Fetch.Remaining.{without_last}
use test_assignment.Fetch.Drain.{Prints, left_after, retry_job-drains}
use test_assignment.Tests.World.{
  test_real, test_calendar, test_disk, test_disk-IsLawful, march_5, test_config,
}

-- the parser reads "x" as the bank's array, "{}" as it stands, and all else as a schedule
abbrev bank_parse : Bytes → Result (Node ℤ)
bank_parse text =
    if same text (codes "x")
    then ok (
        array_node (
          node
            (object_node (
              pair (codes "cc") (string_node (codes "USD")) (
                pair (codes "exchangedate") (string_node (codes "05.03.2024")) (
                  pair (codes "r030") (int64_node (pos 840)) (
                    pair (codes "rate") (int64_node (pos 38))
                      (pair (codes "txt") (string_node (codes "Dollar")) no_pair))))))
            no_node))
    else if same text (codes "{}")
    then ok (object_node no_pair)
    else ok (object_node (pair march_5 (bool_node true) no_pair))

abbrev bank_env : Env
bank_env = record { R = test_real; C = test_calendar; D = test_disk; parse = bank_parse }

abbrev open_bank : Send
open_bank url = ok (record {
  code = 200;
  header_fields = (codes "Content-Type", codes "application/json; charset=utf-8") ∷ [];
  body = codes "x";
})

abbrev bank_array : Value ℤ
bank_array = array (
    item 0
      (object (
        field (codes "cc") (string (codes "USD")) (
          field (codes "exchangedate") (string (codes "05.03.2024")) (
            field (codes "r030") (integer (pos 840)) (
              field (codes "rate") (integer (pos 38))
                (field (codes "txt") (string (codes "Dollar")) end))))))
      stop)

body_read : deserialize bank_parse (codes "x") ≡ ok bank_array
unfolding deserialize translate translate_array translate_object c_str set_key at_key own_fields
    insert lookup push_back own_items array_size last_key
body_read = refl

array_valid : is_valid_currencies_array test_real test_calendar bank_array ≡ true
unfolding is_valid_currencies_array is_array size array_size last_key entries_valid get_index lookup
    is_valid_entry is_object string_field_exists is_string field_is key_exists member get_key dated
    as_string valid_dotted_date str_tok str_tok_loop cut string_starts_from valid_tokens atoi
    atoi_loop digit_below digit_of with_sign check_date control_date setw decimal char_stack
    from_iso_8601 scan scan_char separator digit split_offset store store_last count_fraction
    year_sign to_offset offset_sign time_of is_number is_real
array_valid = refl

answers :
    (i : ℕ) (d : Bytes) (w : World bank_env)
    → (Fetch.fetch_rates bank_env test_config open_bank d w).1 ≡ true
unfolding Fetch.fetch_rates Fetch.handle_response Fetch.try_headers Fetch.try_content_type
    Fetch.try_tokens str_tok str_tok_loop cut string_starts_from strtolower tolower
answers i d w = rw (body_read, array_valid) refl

abbrev one_date : Map Bytes (Value ℤ)
one_date = (march_5, boolean true) ∷ []

one_date-Prints : Prints bank_env test_config one_date
unfolding serialize serialize_actual field_texts print_object print_entries style prefix deserialize
    translate translate_object c_str set_key at_key own_fields insert lookup
one_date-Prints = (codes "{\n    \"20240305\": true\n}", refl, refl)

nothing-Prints : Prints bank_env test_config []
unfolding serialize serialize_actual field_texts print_object style prefix deserialize translate
    translate_object
nothing-Prints = (codes "{}", refl, refl)

nothing_left : (n : ℕ) → left_after bank_env test_config n [] ≡ []
unfolding without_last erase
nothing_left zero = refl
nothing_left (suc n) = nothing_left n

all-Prints : (n : ℕ) → Prints bank_env test_config (left_after bank_env test_config n one_date)
unfolding without_last erase Fetch.last_or_empty
all-Prints zero = one_date-Prints
all-Prints (suc n) = subst (Prints bank_env test_config) (sym (nothing_left n)) nothing-Prints

abbrev waiting_bank : World bank_env
waiting_bank = record { store = null; disk = (codes "sched", codes "y") ∷ [] }

bank_opened : Fetch.open_schedule bank_env test_config waiting_bank ≡ object (of_fields one_date)
unfolding Fetch.open_schedule Schedule.load load_from_file deserialize translate translate_object
    c_str set_key at_key own_fields insert lookup
bank_opened = refl

one_date-valid : all is_valid_yyyymmdd_date (keys one_date) ≡ true
unfolding is_valid_yyyymmdd_date
one_date-valid = refl

retry_job-drains_example :
    (w' : World bank_env) × (Fetch.retry_job bank_env test_config 2 (λ i. open_bank) 0 waiting_bank
      ≡ some w')
    × (Fetch.open_schedule bank_env test_config w' ≡ object (of_fields []))
retry_job-drains_example =
    retry_job-drains bank_env test_config test_disk-IsLawful (λ i. open_bank)
      (λ e. omega (arith, ap length e)) answers (λ s text. refl) 2 0 one_date waiting_bank
      (omega arith) bank_opened one_date-valid all-Prints
