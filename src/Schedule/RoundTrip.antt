-- ===== src/Schedule/RoundTrip.antt =====
-- src/fetch_schedule.hpp: the schedule through its file, with the serializer and the parser.
use test_assignment.Prelude.{
  Bool, true, false, [], ◌∷◌, Bytes, ◌≡◌, refl, sym, ap, all, arith, ◌∙◌, Bool-cases, inl, inr,
}
use mathlib.Core.Path.{subst}
use test_assignment.Prelude.Order.{bytes_order}
use test_assignment.Prelude.Result.{Result}
use test_assignment.Map.{Map, insert}
use test_assignment.Map.Sorted.{IsSorted, insert-IsSorted}
use test_assignment.Text.{is_digit}
use test_assignment.Disk.{Disk, IsLawful}
use test_assignment.Dates.{is_valid_yyyymmdd_date}
use test_assignment.Json.Real.{LongDouble}
use test_assignment.Json.Value.{Value, null, boolean, object, of_fields, fields-of_fields}
use test_assignment.Json.Member.{own_fields, set_key, at_key}
use test_assignment.Json.Translate.{Node}
use test_assignment.Json.Documents.{is_plain, ReadsDocuments}
use test_assignment.Json.Flags.{values, flags, HasPlainNames, insert-values}
use test_assignment.Json.FlagsText.{deserialize-serialize}
use test_assignment.Schedule.{schedule, load}
use test_assignment.Schedule.File.{ReadsBack, load-schedule_of_read}

-- Every name is a date of eight digits.
abbrev pub HasDates : Map Bytes Bool → Type 0
HasDates [] = Unit
HasDates ((k, b) ∷ l) = (is_valid_yyyymmdd_date k ≡ true) × HasDates l

-- A schedule has nothing but dates, each `true` or `false`, in the order of a `std::map`.
pub record IsSchedule {F : Type 0} (v : Value F) : Type 0 where
  pub dates : Map Bytes Bool
  pub entries : own_fields v ≡ values dates
  pub valid : HasDates dates
  pub sorted : IsSorted dates

digits-plain : (k : Bytes) → all is_digit k ≡ true → all is_plain k ≡ true
digits-plain [] h = refl
digits-plain (c ∷ k) h = ground (arith, digits-plain k)

HasDates-HasPlainNames : (l : Map Bytes Bool) → HasDates l → HasPlainNames l
unfolding is_valid_yyyymmdd_date
HasDates-HasPlainNames [] h = tt
HasDates-HasPlainNames ((k, b) ∷ l) (h, hs) =
    (digits-plain k (ground arith), HasDates-HasPlainNames l hs)

insert-HasDates :
    (k : Bytes) (b : Bool) (l : Map Bytes Bool)
    → is_valid_yyyymmdd_date k ≡ true
    → HasDates l
    → HasDates (insert k b l)
unfolding insert
insert-HasDates k b [] h hs = (h, tt)
insert-HasDates k b ((j, c) ∷ l) h (hj, hs) = ground (arith, insert-HasDates k b l h hs)

-- the schedule that a value without entries is
pub null-IsSchedule : {F : Type 0} → IsSchedule {F = F} null
unfolding own_fields
null-IsSchedule = record { dates = []; entries = refl; valid = tt; sorted = tt }

module _ {F : Type 0} where
  flags-IsSchedule : (l : Map Bytes Bool) → HasDates l → IsSorted l → IsSchedule {F = F} (flags l)
  unfolding own_fields
  flags-IsSchedule l h s = record {
    dates = l;
    entries = fields-of_fields (values l);
    valid = h;
    sorted = s;
  }

  set_key-schedule :
      (d : Bytes) (v : Value F) (q : IsSchedule v)
      → set_key d (boolean true) v ≡ flags (insert d true q.dates)
  unfolding set_key at_key
  set_key-schedule d v q =
      ap (λ m. object (of_fields (insert d (boolean true) m))) q.entries
      ∙ ap (λ m. object (of_fields m)) (insert-values d true q.dates)

module _ (R : LongDouble) (D : Disk) (file : Bytes) where
  refused-schedule :
      (d : Bytes) (v : Value R.F) (s : D.State)
      → is_valid_yyyymmdd_date d ≡ false
      → (schedule R D file d v s).2 ≡ false
  unfolding schedule
  refused-schedule d v s e = rw e refl

  made-schedule :
      (d : Bytes) (v : Value R.F) (s : D.State) (q : IsSchedule v)
      → is_valid_yyyymmdd_date d ≡ true
      → (schedule R D file d v s).1 ≡ flags (insert d true q.dates)
  unfolding schedule
  made-schedule d v s q e = rw e (set_key-schedule d v q)

module _ (R : LongDouble) (D : Disk) (parse : Bytes → Result (Node R.F)) (disk_laws : IsLawful D)
    (reads : ReadsDocuments parse) (file : Bytes) where
  -- A schedule that holds nothing but dates of eight digits, each `true` or `false`, in order, and
  -- that a date is added to and that is written to its file, still holds nothing else, and it is
  -- what the next object loads from that file: where the disk does what is documented, and the
  -- parser reads every document of the grammar, in whatever way it is spaced.
  pub load-schedule :
      (d : Bytes) (v : Value R.F) (s : D.State)
      → IsSchedule v
      → (schedule R D file d v s).2 ≡ true
      → IsSchedule (schedule R D file d v s).1
        × (load R D parse file (schedule R D file d v s).0 ≡ ((schedule R D file d v s).1, true))
  load-schedule d v s q k = elim (Bool-cases (is_valid_yyyymmdd_date d)) [
    | inr e ↦ cc (k, refused-schedule R D file d v s e)
    | inl e ↦
        let l = insert d true q.dates in
        let made = made-schedule R D file d v s q e in
        let valid = insert-HasDates d true q.dates e q.valid in
        let sorted = insert-IsSorted d true q.dates q.sorted in
        (
          subst IsSchedule (sym made) (flags-IsSchedule l valid sorted),
          load-schedule_of_read R D parse disk_laws file d v s
              (subst (ReadsBack R parse) (sym made) (λ text.
                deserialize-serialize R parse l text reads (HasDates-HasPlainNames l valid) sorted))
              k,
        )
  ]
