-- ===== src/Schedule.antt =====
-- src/fetch_schedule.hpp: the dates whose rates could not be fetched, kept in a file.
-- A method gets the state of the disk and returns it changed, beside the schedule.
pub mod Memory
pub mod File
pub mod RoundTrip
use test_assignment.Prelude.{Bool, true, false, ◌&&◌, List, [], ◌∷◌, Bytes, if◌then◌else◌}
use test_assignment.Prelude.Result.{Result, ok, err, ◌>>=◌, catch}
use test_assignment.Map.{keys}
use test_assignment.Disk.{Disk, load_from_file, save_to_file}
use test_assignment.Dates.{is_valid_yyyymmdd_date}
use test_assignment.Json.Real.{LongDouble}
use test_assignment.Json.Value.{Value, null, boolean, object, is_object}
use test_assignment.Json.Member.{set_key, key_exists, key_remove, traverse_object}
use test_assignment.Json.Print.{serialize}
use test_assignment.Json.Translate.{Node, deserialize}

module _ {F : Type 0} where
  unfoldable pub scheduled : Bytes → Value F → Bool
  unfolding is_object key_exists
  scheduled date schd = is_object schd && key_exists date schd

  unfoldable pub all_scheduled_dates : Value F → List Bytes
  unfolding is_object traverse_object
  all_scheduled_dates schd = if is_object schd then keys (catch (traverse_object schd) []) else []

module _ (R : LongDouble) (D : Disk) where
  -- `save()` on the file of that name
  unfoldable pub save : Bytes → Value R.F → D.State → D.State × Bool
  unfolding is_object save_to_file
  save file_name schd s =
      if is_object schd
      then elim (serialize R false schd) [
        | err e ↦ (s, false)
        | ok text ↦ save_to_file D s file_name text
      ]
      else (s, false)

  -- `schedule(date)`: the disk, the schedule and what is returned
  unfoldable pub schedule : Bytes → Bytes → Value R.F → D.State → D.State × Value R.F × Bool
  unfolding save
  schedule file_name date schd s =
      if is_valid_yyyymmdd_date date
      then (let schd' = set_key date (boolean true) schd in
          let (s', done) = save file_name schd' s in (s', schd', done))
      else (s, schd, false)

  -- `unschedule(date)`
  unfoldable pub unschedule : Bytes → Bytes → Value R.F → D.State → D.State × Value R.F × Bool
  unfolding save scheduled
  unschedule file_name date schd s =
      if scheduled date schd
      then (let schd' = catch (key_remove date schd) schd in
          let (s', done) = save file_name schd' s in (s', schd', done))
      else (s, schd, false)

  -- `load()`, which the constructor calls on a schedule that is null, over the JSON parser
  unfoldable pub load : (Bytes → Result (Node R.F)) → Bytes → D.State → Value R.F × Bool
  unfolding load_from_file
  load parse file_name s =
      if D.file_exists s file_name
      then elim (load_from_file D s file_name >>= λ text. deserialize parse text) [
        | ok v ↦ (v, true)
        | err e ↦ (null, false)
      ]
      else (null, false)
