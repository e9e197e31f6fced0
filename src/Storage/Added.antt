-- ===== src/Storage/Added.antt =====
-- What adding a record of the bank's answer stores.
use test_assignment.Prelude.{
  ◌≡◌, refl, ◌∙◌, true, ◌&&◌, Option, none, some, Bytes, codes, same, same→eq, ◌==◌, arith, length,
  if◌then◌else◌, Bool-cases, inl, inr,
}
use test_assignment.Map.{lookup}
use test_assignment.Prelude.Result.{ok, Result-cases}
use test_assignment.Dates.{dotted_date_to_yyyymmdd}
use test_assignment.Dates.Civil.{Calendar}
use test_assignment.Json.Real.{LongDouble}
use test_assignment.Json.Value.{Value, null, integer, real, string}
use test_assignment.Json.Member.{at_key, set_key, get_key, key_exists, or_null}
use test_assignment.Json.Member.Laws.{entry, entry-at_key, entry-set_key}
use test_assignment.Json.Object.{try_as_long_double}
use test_assignment.Storage.{
  set_path, rates_key, currencies_key, text_field, number_field, add_txt, add_currency,
  under_currencies, check_curr_dict, add_rate, add_record,
}

module _ {F : Type 0} where
  abbrev pub entry_of : Bytes → Option (Value F) → Option (Value F)
  entry_of k none = none
  entry_of k (some v) = entry k v

  -- the value stored for a date and a currency
  unfoldable pub rate_of : Bytes → Bytes → Value F → Option (Value F)
  rate_of date cc data_ = entry_of cc (entry_of date (entry rates_key data_))

  pub entry-null : (k : Bytes) → entry {F = F} k null ≡ none
  unfolding entry lookup
  entry-null k = refl

  pub entry-or_null : (k : Bytes) (o : Option (Value F)) → entry k (or_null o) ≡ entry_of k o
  entry-or_null k none = entry-null k
  entry-or_null k (some v) = refl

  -- Writing a rate changes that rate and no other.
  pub rate_of-set_path :
      (d cc : Bytes) (x : Value F) (date c : Bytes) (data_ : Value F)
      → rate_of date c (set_path rates_key d cc x data_)
        ≡ (if same date d && same c cc then some x else rate_of date c data_)
  unfolding rate_of set_path
  rate_of-set_path d cc x date c data_ = ground (
    arith,
    entry-at_key rates_key rates_key (λ t. at_key d (λ m. set_key cc x m) t) data_,
    entry-at_key d date (λ m. set_key cc x m) (or_null (entry rates_key data_)),
    entry-set_key cc c x (or_null (entry d (or_null (entry rates_key data_)))),
    entry-or_null d (entry rates_key data_),
    entry-or_null date (entry rates_key data_),
    entry-or_null c (entry d (or_null (entry rates_key data_))),
    same→eq date d,
  )

  -- the dictionary of currencies stands beside the rates
  rate_of-currencies :
      (f : Value F → Value F) (date c : Bytes) (data_ : Value F)
      → rate_of date c (at_key currencies_key f data_) ≡ rate_of date c data_
  unfolding rate_of
  rate_of-currencies f date c data_ = rw (entry-at_key currencies_key rates_key f data_)

module _ (R : LongDouble) where
  rate_of-add_txt :
      (cc : Bytes) (rec : Value R.F) (date c : Bytes) (data_ : Value R.F)
      → rate_of date c (add_txt R cc rec data_) ≡ rate_of date c data_
  unfolding add_txt set_path
  rate_of-add_txt cc rec date c data_ = elim (Result-cases (text_field R (codes "txt") rec)) [
    | inl (txt, e) ↦
        rw (e, add_txt)
          (rate_of-currencies (λ t. at_key cc (λ m. set_key (codes "txt") (string txt) m) t) date c
            data_)
    | inr (f, e) ↦ rw (e, add_txt) refl
  ]

  rate_of-add_currency :
      (cc : Bytes) (rec : Value R.F) (date c : Bytes) (data_ : Value R.F)
      → rate_of date c (add_currency R cc rec data_) ≡ rate_of date c data_
  unfolding add_currency set_path
  rate_of-add_currency cc rec date c data_ =
      elim (Result-cases (number_field R (codes "r030") rec)) [
        | inl (n, e) ↦
            rw (e, add_currency)
              (rate_of-add_txt cc rec date c _
                ∙ rate_of-currencies (λ t. at_key cc (λ m. set_key (codes "r030") (integer n) m) t)
                    date c data_)
        | inr (f, e) ↦ rw (e, add_currency) refl
      ]

  pub rate_of-check_curr_dict :
      (rec : Value R.F) (date c : Bytes) (data_ : Value R.F)
      → rate_of date c (check_curr_dict R rec data_) ≡ rate_of date c data_
  unfolding check_curr_dict
  rate_of-check_curr_dict rec date c data_ = elim (Result-cases (text_field R (codes "cc") rec)) [
    | inr (f, e) ↦ rw (e, check_curr_dict) (rate_of-currencies (λ t. t) date c data_)
    | inl (cc, e) ↦
        rw (e, check_curr_dict)
          (elim (Bool-cases (
            key_exists cc (
              under_currencies R
                (get_key currencies_key (at_key currencies_key (λ t. t) data_))))) [
                  | inl known ↦ rw known (rate_of-currencies (λ t. t) date c data_)
                  | inr new ↦ rw new (
                      rate_of-add_currency cc rec date c (at_key currencies_key (λ t. t) data_)
                      ∙ rate_of-currencies (λ t. t) date c data_)
                ])
  ]

  module _ (C : Calendar) where
    -- A record with a currency, a date text and a rate is stored under its date, if the text is a
    -- date of the calendar, and nothing is thrown: its rate is there, and the rate of every other
    -- date and currency is what it was. For any other text no rate changes.
    pub add_record_lem :
        (rec data_ rate : Value R.F) (cc text date c : Bytes)
        → text_field R (codes "cc") rec ≡ ok cc
        → text_field R (codes "exchangedate") rec ≡ ok text
        → get_key (codes "rate") rec ≡ ok rate
        → ((add_record R C rec data_).1 ≡ true)
          × (rate_of date c (add_record R C rec data_).0 ≡ (
              if length (dotted_date_to_yyyymmdd C text) == 8
                && (same date (dotted_date_to_yyyymmdd C text) && same c cc)
              then some (real (try_as_long_double R rate))
              else rate_of date c data_))
    unfolding add_record
    add_record_lem rec data_ rate cc text date c hcc htext hrate =
        elim (Bool-cases (length (dotted_date_to_yyyymmdd C text) == 8)) [
          | inl e ↦
              rw (htext, add_record)
                (rw e (
                  unfold add_rate in
                  rw (hrate, add_rate)
                    (rw (hcc, add_rate)
                      (
                        refl,
                        rate_of-set_path (dotted_date_to_yyyymmdd C text) cc
                              (real (try_as_long_double R rate)) date c
                              (check_curr_dict R rec data_)
                            ∙ rw (rate_of-check_curr_dict rec date c data_),
                      ))))
          | inr e ↦ rw (htext, add_record) (rw e (refl, rate_of-check_curr_dict rec date c data_))
        ]
