-- ===== src/Dates/Iso.antt =====
-- support/time/windows/timespec_wrapper.hpp:338-433, 119-128: `parse_iso_8601`, which scans a text
-- with nine states, and `from_iso_8601`.
use test_assignment.Prelude.{
  ℕ, ◌+◌, Bool, true, false, not, ◌&&◌, ◌||◌, [], ◌∷◌, ◌++◌, Bytes, List, ltb, leb, ◌==◌,
  if◌then◌else◌, length, set, get_or,
}
use test_assignment.Prelude.Int.{ℤ, pos, neg, pos_value, same_int, to_int32}
use test_assignment.Prelude.Result.{Result, ok, err, ◌>>=◌}
use test_assignment.Text.{is_digit}
use test_assignment.Text.Number.{atoi}
use test_assignment.Dates.Civil.{Calendar}

-- `states`, as the numbers that the code casts them to: year, month, day, hour, minute, second,
-- fraction, hours and minutes of the offset, and the end.
abbrev pub ye : ℕ
ye = 0

abbrev pub ho : ℕ
ho = 3

abbrev pub sf : ℕ
sf = 6

abbrev pub oh : ℕ
oh = 7

abbrev pub om : ℕ
om = 8

abbrev pub fi : ℕ
fi = 9

-- the variables of the loop
pub record Scan : Type 0 where
  pub brdn : List ℤ
  pub state : ℕ
  pub buf : Bytes
  pub minus_year : Bool
  pub minus_offset : Bool
  pub sec_frac_nums : ℕ
  pub offset_is_given : Bool

abbrev pub start : Scan
start = record {
  brdn = pos 0 ∷ pos 0 ∷ pos 0 ∷ pos 0 ∷ pos 0 ∷ pos 0 ∷ pos 0 ∷ pos 0 ∷ pos 0 ∷ [];
  state = ye;
  buf = [];
  minus_year = false;
  minus_offset = false;
  sec_frac_nums = 0;
  offset_is_given = false;
}

abbrev pub is_empty : Bytes → Bool
is_empty [] = true
is_empty (c ∷ s) = false

abbrev pub is_sign : ℕ → Bool
is_sign c = c == b'-' || c == b'+'

abbrev pub is_zulu : ℕ → Bool
is_zulu c = c == b'Z' || c == b'z'

-- `brdn[state] = atoi(buf); buf.clear(); state = state + 1;`
unfoldable pub store : Scan → Result Scan
store s = atoi s.buf 10 >>= λ n.
    ok (record s { brdn = set s.brdn s.state n; buf = []; state = s.state + 1 })

unfoldable pub year_sign : ℕ → Scan → Scan
year_sign c s =
    if s.state == ye && is_empty s.buf && is_sign c then record s { minus_year = c == b'-' } else s

unfoldable pub to_offset : ℕ → Scan → Scan
to_offset c s =
    if leb ho s.state && leb s.state sf && (is_sign c || is_zulu c)
    then record s { state = oh }
    else s

unfoldable pub offset_sign : ℕ → Scan → Scan
offset_sign c s =
    if not (s.state == oh && is_empty s.buf)
    then s
    else if is_zulu c
    then record s { offset_is_given = true; state = fi }
    else if c == b'-'
    then record s { minus_offset = true }
    else s

-- the branch of a character that is no digit
unfoldable pub separator : ℕ → Scan → Result Scan
unfolding store year_sign to_offset offset_sign
separator c s =
    let s' = year_sign c s in
    (if is_empty s'.buf then ok s' else store s') >>= λ t. ok (offset_sign c (to_offset c t))

abbrev pub next_is_digit : Bytes → Bool
next_is_digit [] = false
next_is_digit (c ∷ rest) = is_digit c

-- two digits of an offset end the field where a third follows
unfoldable pub split_offset : ℕ → Bytes → Scan → Result Scan
unfolding store
split_offset field rest s =
    if not (s.state == field)
    then ok s
    else let s' = record s { offset_is_given = true } in
      if length s.buf == 2 && next_is_digit rest then store s' else ok s'

-- the last character stores the field, and does not go on to the next
unfoldable pub store_last : Bytes → Scan → Result Scan
store_last [] s =
    if is_empty s.buf
    then ok s
    else (atoi s.buf 10 >>= λ n. ok (record s { brdn = set s.brdn s.state n }))
store_last (c ∷ rest) s = ok s

unfoldable pub count_fraction : Scan → Scan
count_fraction s = if s.state == sf then record s { sec_frac_nums = s.sec_frac_nums + 1 } else s

-- the branch of a digit
unfoldable pub digit : ℕ → Bytes → Scan → Result Scan
unfolding count_fraction split_offset store_last
digit c rest s = split_offset oh rest (count_fraction (record s { buf = s.buf ++ c ∷ [] })) >>= λ t.
    split_offset om rest t >>= λ u. store_last rest u

unfoldable pub scan_char : ℕ → Bytes → Scan → Result Scan
unfolding separator digit
scan_char c rest s = if is_digit c then digit c rest s else separator c s

unfoldable pub scan : Bytes → Scan → Result Scan
unfolding scan_char
scan [] s = ok s
scan (c ∷ rest) s = if ltb s.state fi then (scan_char c rest s >>= λ t. scan rest t) else ok s

abbrev pub part : Scan → ℕ → ℤ
part s i = get_or s.brdn i (pos 0)

module _ (C : Calendar) where
  -- `mktime`, then the fraction and the offset where they are given
  unfoldable pub time_of : Scan → C.Time
  time_of s =
      let y = if s.minus_year then neg (part s 0) else part s 0 in
      let t =
        C.mktime (to_int32 y) (to_int32 (part s 1)) (to_int32 (part s 2)) (to_int32 (part s 3))
          (to_int32 (part s 4)) (to_int32 (part s 5)) in
      let u =
        if ltb 0 (pos_value (part s 6))
        then C.add_fraction (pos_value (part s 6)) s.sec_frac_nums t
        else t in
      if same_int (part s 7) (pos 0) && same_int (part s 8) (pos 0)
      then u
      else C.sub_offset (part s 7) (part s 8) s.minus_offset u

  -- what an exception or an empty text leaves is the epoch, with no offset
  unfoldable pub from_iso_8601 : Bytes → C.Time
  unfolding time_of scan
  from_iso_8601 [] = C.epoch
  from_iso_8601 (c ∷ s) = elim (scan (c ∷ s) start) [
    | err e ↦ C.epoch
    | ok r ↦ if r.offset_is_given then C.add_gmtoffset (time_of r) else time_of r
  ]
