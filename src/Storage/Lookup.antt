-- ===== src/Storage/Lookup.antt =====
-- What the two lookups of a rate find.
use test_assignment.Prelude.{
  ℕ, ◌<◌, ◌≡◌, refl, sym, ap, ◌∙◌, Bool, true, false, ◌&&◌, Option, none, some, ◌++◌, Bytes, codes,
  same, ◌==◌, arith, length, length-append, if◌then◌else◌, Option-cases, inl, inr, all_below,
  all_below_sound, ==_iff,
}
use test_assignment.Prelude.Int.{ℤ, pos}
use test_assignment.Prelude.Result.{Result, ok, ◌>>=◌, catch}
use test_assignment.Text.Number.{decimal, char_stack}
use test_assignment.Dates.{setw, dotted_date_to_yyyymmdd}
use test_assignment.Dates.Civil.{Calendar}
use test_assignment.Json.Real.{LongDouble}
use test_assignment.Json.Value.{Value, real}
use test_assignment.Json.Member.{get_key}
use test_assignment.Json.Member.Laws.{
  entry, get_key_of_some, get_key_of_none, key_exists_of_some, key_exists_of_none,
}
use test_assignment.Json.Object.{as_longdouble_or, try_as_long_double}
use test_assignment.Storage.{
  text_field, rates_key, key_date, zero_rate, rate_in, get_exchange_rate, add_record,
}
use test_assignment.Storage.Added.{entry_of, rate_of, add_record_lem}

module _ (R : LongDouble) where
  -- the number in a stored value, or zero
  pub number_of : Option (Value R.F) → R.F
  number_of none = zero_rate R
  number_of (some v) = as_longdouble_or R (zero_rate R) v

  number_of-if :
      (b : Bool) (x : R.F) (o : Option (Value R.F))
      → number_of (if b then some (real x) else o) ≡ (if b then x else number_of o)
  unfolding number_of as_longdouble_or
  number_of-if true x o = refl
  number_of-if false x o = refl

  -- the lookup in the object of a date, if there is one
  rate_in-entry : (c : Bytes) (v : Value R.F) → rate_in R c v ≡ number_of (entry c v)
  unfolding rate_in number_of
  rate_in-entry c v = elim (Option-cases (entry c v)) [
    | inl e ↦ rw (e, number_of) (rw (key_exists_of_none c v e) refl)
    | inr (x, e) ↦
        rw (e, number_of) (rw (key_exists_of_some c v e) (rw (get_key_of_some c v e) refl))
  ]

  -- reading the rates through a name, where a failure gives zero
  through :
      (k : Bytes) (v : Value R.F) (f : Value R.F → Result R.F) (x : R.F)
      → (entry k v ≡ none → x ≡ zero_rate R)
      → ((u : Value R.F) → entry k v ≡ some u → catch (f u) (zero_rate R) ≡ x)
      → catch (get_key k v >>= f) (zero_rate R) ≡ x
  through k v f x n s = elim (Option-cases (entry k v)) [
    | inl e ↦ let (failure, eq) = get_key_of_none k v e in rw eq (sym (n e))
    | inr (u, e) ↦ rw (get_key_of_some k v e) (s u e)
  ]

  -- `get_exchange_rate` returns the number stored for the text that it makes of the date and for
  -- the currency, and zero where there is none, whatever the data is.
  pub get_exchange_rate_lem :
      (d m y : ℤ) (c : Bytes) (data_ : Value R.F)
      → get_exchange_rate R d m y c data_ ≡ number_of (rate_of (key_date R d m y) c data_)
  unfolding get_exchange_rate rate_of number_of
  get_exchange_rate_lem d m y c data_ =
      through rates_key data_ _ _ (λ e. rw (e, entry_of) refl)
        (λ rates e.
          rw (e, entry_of)
            (elim (Option-cases (entry (key_date R d m y) rates)) [
              | inl none_there ↦
                  rw (key_exists_of_none (key_date R d m y) rates none_there)
                    (rw (none_there, entry_of) refl)
              | inr (day, there) ↦ rw (key_exists_of_some (key_date R d m y) rates there) (
                  rw (get_key_of_some (key_date R d m y) rates there)
                    (rw (there, entry_of) (rate_in-entry c day)))
            ]))

  module _ (C : Calendar) where
    -- After a record of the bank is added, the lookup of a date finds the record's rate where the
    -- record's date is a date of the calendar, is the text that the lookup makes of its date, and
    -- the currency is the record's; it finds what it found before in every other case.
    pub get_exchange_rate-add_record :
        (rec data_ rate : Value R.F) (cc text c : Bytes) (d m y : ℤ)
        → text_field R (codes "cc") rec ≡ ok cc
        → text_field R (codes "exchangedate") rec ≡ ok text
        → get_key (codes "rate") rec ≡ ok rate
        → get_exchange_rate R d m y c (add_record R C rec data_).0 ≡ (
            if length (dotted_date_to_yyyymmdd C text) == 8
              && (same (key_date R d m y) (dotted_date_to_yyyymmdd C text) && same c cc)
            then try_as_long_double R rate
            else get_exchange_rate R d m y c data_)
    get_exchange_rate-add_record rec data_ rate cc text c d m y hcc htext hrate =
        get_exchange_rate_lem d m y c (add_record R C rec data_).0
        ∙ ap number_of
            (add_record_lem R C rec data_ rate cc text (key_date R d m y) c hcc htext hrate).1
        ∙ number_of-if _ (try_as_long_double R rate) (rate_of (key_date R d m y) c data_)
        ∙ rw (get_exchange_rate_lem d m y c data_) refl

-- the key of a day below 10 has seven bytes
year_fits : ℕ → Bool
unfolding setw decimal char_stack
year_fits y = length (setw 4 (pos y)) == 4

years_fit : all_below 3002 year_fits ≡ true
unfolding all_below year_fits
years_fit = refl

month_fits : ℕ → Bool
unfolding setw decimal char_stack
month_fits m = length (setw 2 (pos m)) == 2

months_fit : all_below 13 month_fits ≡ true
unfolding all_below month_fits
months_fit = refl

day_fits : ℕ → Bool
unfolding decimal char_stack
day_fits d = length (decimal (pos d)) == 1

days_fit : all_below 10 day_fits ≡ true
unfolding all_below day_fits
days_fit = refl

length-key_date :
    (R : LongDouble) (d m y : ℕ)
    → d < 10
    → m < 13
    → y < 3002
    → length (key_date R (pos d) (pos m) (pos y)) ≡ 7
unfolding key_date year_fits month_fits day_fits
length-key_date R d m y hd hm hy = omega (
  arith,
  length-append (setw 4 (pos y) ++ setw 2 (pos m)) (decimal (pos d)),
  length-append (setw 4 (pos y)) (setw 2 (pos m)),
  (==_iff (length (decimal (pos d))) 1).0 (all_below_sound 10 day_fits d days_fit hd),
  (==_iff (length (setw 2 (pos m))) 2).0 (all_below_sound 13 month_fits m months_fit hm),
  (==_iff (length (setw 4 (pos y))) 4).0 (all_below_sound 3002 year_fits y years_fit hy),
)

-- the dates of the stored rates have eight bytes
abbrev pub HasFullDates : {F : Type 0} → Value F → Type 0
HasFullDates {F} data_ =
    (date c : Bytes) (x : Value F) → rate_of date c data_ ≡ some x → length date ≡ 8

-- Where every stored date has eight bytes, as those that are added have, the lookup of one of the
-- first nine days of a month finds nothing and returns zero.
pub get_exchange_rate-early :
    (R : LongDouble) (d m y : ℕ) (c : Bytes) (data_ : Value R.F)
    → HasFullDates data_
    → d < 10
    → m < 13
    → y < 3002
    → get_exchange_rate R (pos d) (pos m) (pos y) c data_ ≡ zero_rate R
unfolding number_of
get_exchange_rate-early R d m y c data_ full hd hm hy =
    elim (Option-cases (rate_of (key_date R (pos d) (pos m) (pos y)) c data_)) [
      | inl e ↦ get_exchange_rate_lem R (pos d) (pos m) (pos y) c data_ ∙ rw (e, number_of) refl
      | inr (x, e) ↦ absurd (
          omega (
            arith,
            full (key_date R (pos d) (pos m) (pos y)) c x e,
            length-key_date R d m y hd hm hy,
          ))
    ]
