-- ===== src/Schedule/Memory.antt =====
-- The schedule in memory: which dates are scheduled after each operation.
use test_assignment.Prelude.{
  ◌≡◌, refl, ap, Bool, true, false, Option, none, some, Bytes, arith, ◌&&◌, same, same→eq,
  if◌then◌else◌,
}
use test_assignment.Map.{lookup}
use test_assignment.Prelude.Result.{catch}
use test_assignment.Dates.{is_valid_yyyymmdd_date}
use test_assignment.Disk.{Disk}
use test_assignment.Json.Real.{LongDouble}
use test_assignment.Json.Value.{Value, boolean, object}
use test_assignment.Json.Member.{set_key, key_remove}
use test_assignment.Json.Member.Laws.{entry, entry-set_key, entry-key_remove}
use test_assignment.Schedule.{scheduled, schedule, unschedule}

module _ {F : Type 0} where
  abbrev pub present : Option (Value F) → Bool
  present none = false
  present (some v) = true

  -- a date is scheduled where the object has an entry for it
  pub scheduled-eq-present : (d : Bytes) (v : Value F) → scheduled d v ≡ present (entry d v)
  unfolding scheduled entry lookup
  scheduled-eq-present d (object fs) = refl
  scheduled-eq-present d _ = refl

  -- a value that is no object has no date, before and after
  scheduled-key_remove :
      (d j : Bytes) (v : Value F)
      → scheduled j (catch (key_remove d v) v) ≡ (if same j d then false else scheduled j v)
  scheduled-key_remove d j (object fs) = ground (
    arith,
    scheduled-eq-present j (catch (key_remove d (object fs)) (object fs)),
    scheduled-eq-present j (object fs),
    entry-key_remove d j fs,
  )
  scheduled-key_remove d j _ = unfold scheduled key_remove in ground arith

module _ (R : LongDouble) (D : Disk) (file d j : Bytes) (v : Value R.F) (s : D.State) where
  -- Whether or not the file can be written, scheduling a date of eight digits schedules it and
  -- leaves every other date as it was; any other text changes neither the schedule nor the disk
  -- and is refused.
  pub schedule_lem :
      (scheduled j (schedule R D file d v s).1
        ≡ (if is_valid_yyyymmdd_date d && same j d then true else scheduled j v))
      × ((if is_valid_yyyymmdd_date d then (s, v, false) else schedule R D file d v s)
          ≡ (s, v, false))
  unfolding schedule
  schedule_lem = ground (
    arith,
    scheduled-eq-present j v,
    scheduled-eq-present j (set_key d (boolean true) v),
    entry-set_key d j (boolean true) v,
  )

  -- Whether or not the file can be written, unscheduling a date takes that date away and leaves
  -- every other one; a date that is not scheduled changes nothing and is refused.
  pub unschedule_lem :
      (scheduled j (unschedule R D file d v s).1 ≡ (if same j d then false else scheduled j v))
      × ((if scheduled d v then (s, v, false) else unschedule R D file d v s) ≡ (s, v, false))
  unfolding unschedule
  unschedule_lem = ground (
    arith,
    scheduled-key_remove d j v,
    same→eq j d,
    ap (λ (k : Bytes). scheduled k v) {x = j} {y = d},
  )
