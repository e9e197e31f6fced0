-- ===== src/Storage/Keys.antt =====
-- The dates under which rates are stored.
use test_assignment.Prelude.{
  ℕ, zero, suc, ◌+◌, ◌≡◌, sym, ◌∙◌, Bytes, codes, same, same→eq, ◌==◌, ==_iff, arith, length,
  Bool-cases, inl, inr,
}
use test_assignment.Prelude.Result.{Result-cases}
use test_assignment.Dates.{dotted_date_to_yyyymmdd}
use test_assignment.Dates.Civil.{Calendar}
use test_assignment.Json.Real.{LongDouble}
use test_assignment.Json.Value.{Value, real, is_array}
use test_assignment.Json.Member.{at_key, get_key, or_null}
use test_assignment.Json.Member.Laws.{entry, entry-at_key}
use test_assignment.Json.Element.{size, get_index}
use test_assignment.Json.Object.{try_as_long_double}
use test_assignment.Storage
use test_assignment.Storage.{
  set_path, rates_key, text_field, check_curr_dict, add_rate, add_record, add_loop,
}
use test_assignment.Storage.Added.{
  rate_of, entry-or_null, rate_of-set_path, rate_of-check_curr_dict,
}
use test_assignment.Storage.Lookup.{HasFullDates}

module _ {F : Type 0} where
  -- making the object of a date stores no rate
  rate_of-at_key :
      (d date c : Bytes) (data_ : Value F)
      → rate_of date c (at_key rates_key (λ r. at_key d (λ t. t) r) data_) ≡ rate_of date c data_
  unfolding rate_of
  rate_of-at_key d date c data_ = ground (
    arith,
    entry-at_key rates_key rates_key (λ r. at_key d (λ t. t) r) data_,
    entry-at_key d date (λ t. t) (or_null (entry rates_key data_)),
    entry-or_null date (entry rates_key data_),
    entry-or_null d (entry rates_key data_),
    entry-or_null c (entry d (or_null (entry rates_key data_))),
    same→eq date d,
  )

  HasFullDates-set_path :
      (d cc : Bytes) (x data_ : Value F)
      → length d ≡ 8
      → HasFullDates data_
      → HasFullDates (set_path rates_key d cc x data_)
  HasFullDates-set_path d cc x data_ e full date c y h = elim (Bool-cases (same date d)) [
    | inl s ↦ rw (same→eq date d s) e
    | inr s ↦ full date c y (ground (arith, rate_of-set_path d cc x date c data_))
  ]

module _ (R : LongDouble) (C : Calendar) where
  HasFullDates-add_rate :
      (d : Bytes) (rec data_ : Value R.F)
      → length d ≡ 8
      → HasFullDates data_
      → HasFullDates (add_rate R C d rec data_).0
  unfolding add_rate
  HasFullDates-add_rate d rec data_ e full = elim (Result-cases (get_key (codes "rate") rec)) [
    | inr (f, no_rate) ↦ rw (no_rate, add_rate) full
    | inl (rate, r) ↦ elim (Result-cases (text_field R (codes "cc") rec)) [
      | inr (f, no_name) ↦
          rw (r, no_name, add_rate)
            (λ date c x h. full date c x (sym (rate_of-at_key d date c data_) ∙ h))
      | inl (name, n) ↦
          rw (r, n, add_rate)
            (HasFullDates-set_path d name (real (try_as_long_double R rate)) data_ e full)
    ]
  ]

  HasFullDates-add_record :
      (rec data_ : Value R.F) → HasFullDates data_ → HasFullDates (add_record R C rec data_).0
  unfolding add_record
  HasFullDates-add_record rec data_ full =
      elim (Result-cases (text_field R (codes "exchangedate") rec)) [
        | inr (f, e) ↦ rw (e, add_record) checked
        | inl (text, e) ↦
            rw (e, add_record)
              (elim (Bool-cases (length (dotted_date_to_yyyymmdd C text) == 8)) [
                | inl eight ↦ rw eight (
                    HasFullDates-add_rate (dotted_date_to_yyyymmdd C text) rec
                      (check_curr_dict R rec data_)
                      ((==_iff (length (dotted_date_to_yyyymmdd C text)) 8).0 eight) checked)
                | inr other ↦ rw other checked
              ])
      ]
    where
      checked : HasFullDates (check_curr_dict R rec data_)
      checked date c x h = full date c x (sym (rate_of-check_curr_dict R rec date c data_) ∙ h)

  HasFullDates-add_loop :
      (rounds i : ℕ) (rates data_ : Value R.F)
      → HasFullDates data_
      → HasFullDates (add_loop R C rounds i rates data_)
  unfolding add_loop
  HasFullDates-add_loop zero i rates data_ full = full
  HasFullDates-add_loop (suc rounds) i rates data_ full = elim (Result-cases (get_index i rates)) [
    | inr (f, e) ↦ rw (e, add_loop) full
    | inl ((rec, rates'), e) ↦
        rw (e, add_loop)
          (elim (Bool-cases (add_record R C rec data_).1) [
            | inl completed ↦ rw completed (
                HasFullDates-add_loop rounds (i + 1) rates' (add_record R C rec data_).0
                  (HasFullDates-add_record rec data_ full))
            | inr stopped ↦ rw stopped (HasFullDates-add_record rec data_ full)
          ])
  ]

  -- Whatever is added, and wherever an exception ends it, the dates of the stored rates keep their
  -- eight bytes.
  pub add-HasFullDates :
      (rates data_ : Value R.F) → HasFullDates data_ → HasFullDates (Storage.add R C rates data_)
  unfolding Storage.add
  add-HasFullDates rates data_ full = elim (Bool-cases (is_array rates)) [
    | inl e ↦ rw e (HasFullDates-add_loop (size R.real_size rates) 0 rates data_ full)
    | inr e ↦ rw e full
  ]
