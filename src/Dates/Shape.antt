-- ===== src/Dates/Shape.antt =====
-- The texts that the service makes of times are dates of eight digits.
use test_assignment.Prelude.{
  ℕ, ◌+◌, ◌≡◌, refl, ◌⊎◌, inl, inr, Bool, true, ◌&&◌, [], ◌∷◌, ◌++◌, Bytes, arith, length,
  length-append, all, ◌==◌, ==_iff, all_below, all_below_sound, &&-left, &&-right, Option-cases,
}
use test_assignment.Prelude.Int.{pos}
use test_assignment.Text.{is_digit}
use test_assignment.Text.Number.{decimal, char_stack}
use test_assignment.Dates.{
  setw, yyyymmdd, is_valid_yyyymmdd_date, valid_dotted_date, dotted_date_to_yyyymmdd,
  date_right_now,
}
use test_assignment.Dates.Civil.{Calendar, IsLawful}

-- `setw` fills a field of `w` digits
fills : ℕ → ℕ → Bool
unfolding setw decimal char_stack
fills w n = length (setw w (pos n)) == w && all is_digit (setw w (pos n))

fills_four : all_below 3002 (fills 4) ≡ true
unfolding all_below fills
fills_four = refl

fills_two : all_below 32 (fills 2) ≡ true
unfolding all_below fills
fills_two = refl

record Digits (w : ℕ) (s : Bytes) : Type 0 where
  size : length s ≡ w
  digits : all is_digit s ≡ true

Digits-setw : (w n : ℕ) → fills w n ≡ true → Digits w (setw w (pos n))
unfolding fills
Digits-setw w n h = record {
  size = (==_iff (length (setw w (pos n))) w).0 (&&-left _ _ h);
  digits = &&-right (length (setw w (pos n)) == w) _ h;
}

all-append :
    (s t : Bytes) → all is_digit s ≡ true → all is_digit t ≡ true → all is_digit (s ++ t) ≡ true
all-append [] t h k = k
all-append (c ∷ s) t h k = ground (arith, all-append s t)

Digits-append : (v w : ℕ) (s t : Bytes) → Digits v s → Digits w t → Digits (v + w) (s ++ t)
Digits-append v w s t p q = record {
  size = omega (arith, length-append s t, p.size, q.size);
  digits = all-append s t p.digits q.digits;
}

module _ (C : Calendar) (laws : IsLawful C) where
  -- The text of any time that the calendar shows is a date of eight digits, if the calendar's fields
  -- have their documented ranges.
  pub yyyymmdd-valid : (t : C.Time) → is_valid_yyyymmdd_date (yyyymmdd C t) ≡ true
  unfolding is_valid_yyyymmdd_date yyyymmdd
  yyyymmdd-valid t =
      let (y, ey, hy) = laws.year_range t in
      let (m, em, hm) = laws.month_range t in
      let (d, ed, hd) = laws.day_range t in
      let r =
        Digits-append 6 2 (setw 4 (pos y) ++ setw 2 (pos m)) (setw 2 (pos d))
          (Digits-append 4 2 (setw 4 (pos y)) (setw 2 (pos m))
            (Digits-setw 4 y (all_below_sound 3002 (fills 4) y fills_four (omega arith)))
            (Digits-setw 2 m (all_below_sound 32 (fills 2) m fills_two (omega arith))))
          (Digits-setw 2 d (all_below_sound 32 (fills 2) d fills_two (omega arith))) in
      rw (ey, em, ed) (ground (arith, r.size, r.digits))

  pub date_right_now-valid : (t : C.Time) → is_valid_yyyymmdd_date (date_right_now C t) ≡ true
  unfolding date_right_now
  date_right_now-valid t = yyyymmdd-valid t

  -- What a dotted date becomes is nothing or a date of eight digits, under the same condition.
  pub dotted_date_to_yyyymmdd-valid :
      (s : Bytes)
      → (dotted_date_to_yyyymmdd C s ≡ [])
        ⊎ (is_valid_yyyymmdd_date (dotted_date_to_yyyymmdd C s) ≡ true)
  unfolding dotted_date_to_yyyymmdd
  dotted_date_to_yyyymmdd-valid s = elim (Option-cases (valid_dotted_date C s)) [
    | inl e ↦ inl (rw (e, dotted_date_to_yyyymmdd) refl)
    | inr (t, e) ↦ inr (rw (e, dotted_date_to_yyyymmdd) (yyyymmdd-valid t))
  ]
