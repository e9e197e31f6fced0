-- ===== src/Storage.antt =====
-- src/rates_storage.hpp: the table of rates, a JSON object with a dictionary of currencies under
-- "currencies" and, under "rates", an object of rates for each date. Logging is left out.
pub mod Lookup
pub mod Added
pub mod Keys
use test_assignment.Prelude.{
  ℕ, zero, suc, ◌+◌, ◌-◌, Bool, true, false, Option, none, some, [], ◌∷◌, ◌++◌, Bytes, codes, ◌==◌,
  if◌then◌else◌, length,
}
use test_assignment.Prelude.Int.{ℤ, pos}
use test_assignment.Prelude.Result.{Result, ok, err, ◌>>=◌, catch}
use test_assignment.Disk.{Disk, load_from_file, save_to_file}
use test_assignment.Text.Number.{decimal}
use test_assignment.Dates.{setw, dotted_date_to_yyyymmdd}
use test_assignment.Dates.Civil.{Calendar}
use test_assignment.Json.Real.{LongDouble}
use test_assignment.Json.Value.{Value, null, integer, real, string, is_array}
use test_assignment.Json.Member.{at_key, set_key, get_key, key_exists}
use test_assignment.Json.Element.{size, get_index}
use test_assignment.Json.Object.{as_number, as_string, as_longdouble_or, try_as_long_double}
use test_assignment.Json.Print.{serialize}
use test_assignment.Json.Translate.{Node, deserialize}

abbrev pub rates_key : Bytes
rates_key = codes "rates"

abbrev pub currencies_key : Bytes
currencies_key = codes "currencies"

-- `data["currencies"][cc][name] = x`, and likewise for the rates
unfoldable pub set_path : {F : Type 0} → Bytes → Bytes → Bytes → Value F → Value F → Value F
set_path top middle name x data_ = at_key top (λ t. at_key middle (λ m. set_key name x m) t) data_

module _ (R : LongDouble) where
  -- `rec[name].as_string()`, on a constant value
  unfoldable pub text_field : Bytes → Value R.F → Result Bytes
  unfolding as_string
  text_field name rec = get_key name rec >>= λ v. as_string R v

  unfoldable pub number_field : Bytes → Value R.F → Result ℤ
  unfolding as_number
  number_field name rec = get_key name rec >>= λ v. as_number R v

  -- the second assignment of `check_curr_dict`, which evaluates its right side first
  unfoldable pub add_txt : Bytes → Value R.F → Value R.F → Value R.F
  add_txt cc rec data_ = elim (text_field (codes "txt") rec) [
    | err e ↦ data_
    | ok txt ↦ set_path currencies_key cc (codes "txt") (string txt) data_
  ]

  unfoldable pub add_currency : Bytes → Value R.F → Value R.F → Value R.F
  add_currency cc rec data_ = elim (number_field (codes "r030") rec) [
    | err e ↦ data_
    | ok n ↦ add_txt cc rec (set_path currencies_key cc (codes "r030") (integer n) data_)
  ]

  abbrev pub under_currencies : Result (Value R.F) → Value R.F
  under_currencies (ok c) = c
  under_currencies (err e) = null

  -- `check_curr_dict(rec)`: `(**data_)["currencies"]` makes the dictionary before `rec` is read.
  unfoldable pub check_curr_dict : Value R.F → Value R.F → Value R.F
  check_curr_dict rec data_ =
      let data' = at_key currencies_key (λ c. c) data_ in
      elim (text_field (codes "cc") rec) [
        | err e ↦ data'
        | ok cc ↦
            if key_exists cc (under_currencies (get_key currencies_key data'))
            then data'
            else add_currency cc rec data'
      ]

  module _ (C : Calendar) where
    -- The assignment of a rate. The right side is evaluated first; the object of the date is made
    -- before `rec["cc"]` is read. The flag says that nothing was thrown.
    unfoldable pub add_rate : Bytes → Value R.F → Value R.F → Value R.F × Bool
    add_rate db_date rec data_ = elim (get_key (codes "rate") rec) [
      | err e ↦ (data_, false)
      | ok rate ↦ elim (text_field (codes "cc") rec) [
        | err e ↦ (at_key rates_key (λ r. at_key db_date (λ d. d) r) data_, false)
        | ok cc ↦ (set_path rates_key db_date cc (real (try_as_long_double R rate)) data_, true)
      ]
    ]

    -- one round of the loop of `add`
    unfoldable pub add_record : Value R.F → Value R.F → Value R.F × Bool
    add_record rec data_ =
        let data' = check_curr_dict rec data_ in
        elim (text_field (codes "exchangedate") rec) [
          | err e ↦ (data', false)
          | ok text ↦
              let db_date = dotted_date_to_yyyymmdd C text in
              if length db_date == 8 then add_rate db_date rec data' else (data', true)
        ]

    -- The loop, by the rounds left; an exception ends it and keeps what was stored.
    unfoldable pub add_loop : ℕ → ℕ → Value R.F → Value R.F → Value R.F
    add_loop zero i exchange_rates data_ = data_
    add_loop (suc rounds) i exchange_rates data_ = elim (get_index i exchange_rates) [
      | err e ↦ data_
      | ok (rec, exchange_rates') ↦
          let (data', completed) = add_record rec data_ in
          elim completed [ true ↦ add_loop rounds (i + 1) exchange_rates' data' | false ↦ data' ]
    ]

    unfoldable pub add : Value R.F → Value R.F → Value R.F
    add exchange_rates data_ =
        if is_array exchange_rates
        then add_loop (size R.real_size exchange_rates) 0 exchange_rates data_
        else data_

  -- `key_date`: the width of two is set for the month and not for the day.
  unfoldable pub key_date : ℤ → ℤ → ℤ → Bytes
  unfolding setw
  key_date day month year = setw 4 year ++ setw 2 month ++ decimal day

  abbrev pub zero_rate : R.F
  zero_rate = R.of_int (pos 0)

  -- the rate of a currency in the object of a date
  unfoldable pub rate_in : Bytes → Value R.F → R.F
  rate_in currency day_rates =
      if key_exists currency day_rates
      then catch (get_key currency day_rates >>= λ v. ok (as_longdouble_or R zero_rate v)) zero_rate
      else zero_rate

  unfoldable pub get_exchange_rate : ℤ → ℤ → ℤ → Bytes → Value R.F → R.F
  unfolding key_date rate_in
  get_exchange_rate day month year currency data_ =
      catch
        (get_key rates_key data_ >>= λ rates.
          if key_exists (key_date day month year) rates
          then (get_key (key_date day month year) rates >>= λ r. ok (rate_in currency r))
          else ok zero_rate)
        zero_rate

  -- the rate of the last date
  unfoldable pub get_actual_ex_rate : Bytes → Value R.F → R.F
  unfolding rate_in
  get_actual_ex_rate currency data_ =
      if key_exists rates_key data_
      then catch
          (get_key rates_key data_ >>= λ rates.
            if size R.real_size rates == 0
            then ok zero_rate
            else (get_index (size R.real_size rates - 1) rates >>= λ r. ok (rate_in currency r.0)))
          zero_rate
      else zero_rate

  module _ (D : Disk) where
    -- `load(file_name)`: the data is cleared first.
    unfoldable pub load : (Bytes → Result (Node R.F)) → Bytes → D.State → Value R.F × Bool
    unfolding load_from_file
    load parse file_name s =
        elim (load_from_file D s file_name >>= λ text. deserialize parse text) [
          | ok v ↦ (v, true)
          | err e ↦ (null, false)
        ]

    -- `save(file_name)`
    unfoldable pub save : Bytes → Value R.F → D.State → D.State
    unfolding save_to_file
    save file_name data_ s = elim (serialize R false data_) [
      | err e ↦ s
      | ok text ↦ (save_to_file D s file_name text).0
    ]
