-- ===== src/Schedule/File.antt =====
-- The schedule through its file: what one object saved, the next one loads.
use test_assignment.Prelude.{◌≡◌, true, false, Bytes, arith, Bool-cases, inl, inr}
use test_assignment.Prelude.Order.{bytes_order}
use test_assignment.Prelude.Result.{Result, ok, catch, Result-cases}
use test_assignment.Disk.{Disk, IsLawful}
use test_assignment.Dates.{is_valid_yyyymmdd_date}
use test_assignment.Json.Real.{LongDouble}
use test_assignment.Json.Value.{Value, boolean}
use test_assignment.Json.Member.{set_key, key_remove}
use test_assignment.Json.Print.{serialize}
use test_assignment.Json.Translate.{Node, deserialize}
use test_assignment.Schedule.{schedule, unschedule, scheduled, save, load}

-- The JSON parser reads the value back from what the serializer prints of it.
abbrev pub ReadsBack : (R : LongDouble) → (Bytes → Result (Node R.F)) → Value R.F → Type 0
ReadsBack R parse v = (text : Bytes) → serialize R false v ≡ ok text → deserialize parse text ≡ ok v

module _ (R : LongDouble) (D : Disk) (parse : Bytes → Result (Node R.F)) (disk_laws : IsLawful D)
    (file : Bytes) where
  load-save :
      (v : Value R.F) (s : D.State)
      → ReadsBack R parse v
      → (save R D file v s).1 ≡ true
      → load R D parse file (save R D file v s).0 ≡ (v, true)
  unfolding save load
  load-save v s reads k = elim (Result-cases (serialize R false v)) [
    | inl (text, e) ↦ ground (
      arith,
      e,
      reads text e,
      disk_laws.exists-write s file text,
      disk_laws.contents-write s file text,
    )
    | inr (f, e) ↦ ground (arith, e)
  ]

  -- A schedule that a date is added to, and that is written to its file, is what the next object
  -- loads from that file, if the parser reads back what is printed of it and the disk does what is
  -- documented.
  pub load-schedule_of_read :
      (d : Bytes) (v : Value R.F) (s : D.State)
      → ReadsBack R parse (schedule R D file d v s).1
      → (schedule R D file d v s).2 ≡ true
      → load R D parse file (schedule R D file d v s).0 ≡ ((schedule R D file d v s).1, true)
  unfolding schedule
  load-schedule_of_read d v s reads k = elim (Bool-cases (is_valid_yyyymmdd_date d)) [
    | inl e ↦ rw e (load-save (set_key d (boolean true) v) s (rw e at reads) (rw e at k))
    | inr e ↦ cc (k, e)
  ]

  -- A schedule that a date is taken from, and that is written to its file, is what the next object
  -- loads from that file, if the parser reads back what is printed of it and the disk does what is
  -- documented.
  pub load-unschedule :
      (d : Bytes) (v : Value R.F) (s : D.State)
      → ReadsBack R parse (unschedule R D file d v s).1
      → (unschedule R D file d v s).2 ≡ true
      → load R D parse file (unschedule R D file d v s).0 ≡ ((unschedule R D file d v s).1, true)
  unfolding unschedule
  load-unschedule d v s reads k = elim (Bool-cases (scheduled d v)) [
    | inl e ↦ rw e (load-save (catch (key_remove d v) v) s (rw e at reads) (rw e at k))
    | inr e ↦ ground (arith, k, e)
  ]
