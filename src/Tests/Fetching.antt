-- ===== src/Tests/Fetching.antt =====
-- The theorems on the schedule and on fetching at concrete inputs.
use test_assignment.Prelude.{
  ℕ, ◌≡◌, refl, true, false, ◌&&◌, none, [], ◌∷◌, Bytes, codes, same, if◌then◌else◌,
}
use test_assignment.Prelude.Int.{ℤ}
use test_assignment.Prelude.Result.{ok, ◌>>=◌, catch}
use test_assignment.Disk.{load_from_file, save_to_file}
use test_assignment.Dates.{is_valid_yyyymmdd_date, date_right_now, yyyymmdd, setw}
use test_assignment.Text.Number.{decimal, char_stack}
use test_assignment.Query.{given_date_rates}
use test_assignment.Json.Value.{Value, boolean, object, field, end, is_object}
use test_assignment.Map.{insert, lookup}
use test_assignment.Json.Member.{set_key, at_key, own_fields, traverse_object}
use test_assignment.Json.Translate.{deserialize, translate, translate_object, c_str}
use test_assignment.Json.Print.{
  serialize, serialize_actual, field_texts, print_object, print_entries, prefix, style,
}
use test_assignment.Schedule
use test_assignment.Schedule.Memory.{schedule_lem}
use test_assignment.Schedule.RoundTrip.{IsSchedule, null-IsSchedule, load-schedule}
use test_assignment.Tests.Reader.{reader, reader-ReadsDocuments}
use test_assignment.Fetch
use test_assignment.Fetch.Outcome.{accept, fetch_rates_lem}
use test_assignment.Fetch.Retry.{retry_job-spins, fetch_today_rates-schedules}
use test_assignment.Tests.World.{
  test_real, test_calendar, test_calendar-IsLawful, test_disk, test_disk-IsLawful, march_5,
  test_parse, test_env, test_config, empty_world, waiting_world, no_network, no_schedule,
}

schedule_lem_example :
    (Schedule.scheduled march_5
        (Schedule.schedule test_real test_disk (codes "sched") march_5 no_schedule []).1
      ≡ (if is_valid_yyyymmdd_date march_5 && same march_5 march_5
          then true
          else Schedule.scheduled march_5 no_schedule))
    × ((if is_valid_yyyymmdd_date march_5
          then ([], no_schedule, false)
          else Schedule.schedule test_real test_disk (codes "sched") march_5 no_schedule [])
        ≡ ([], no_schedule, false))
schedule_lem_example =
    schedule_lem test_real test_disk (codes "sched") march_5 march_5 no_schedule []

abbrev march_6 : Bytes
march_6 = codes "20240306"

abbrev one_date : Value ℤ
one_date = (Schedule.schedule test_real test_disk (codes "sched") march_5 no_schedule []).1

made_by_schedule :
    (Schedule.schedule test_real test_disk (codes "sched") march_5 no_schedule []).1
    ≡ object (field march_5 (boolean true) end)
unfolding Schedule.schedule is_valid_yyyymmdd_date set_key at_key own_fields insert lookup
made_by_schedule = refl

march_5-valid : is_valid_yyyymmdd_date march_5 ≡ true
unfolding is_valid_yyyymmdd_date
march_5-valid = refl

deserialized :
    (text : Bytes) → deserialize test_parse text ≡ ok (object (field march_5 (boolean true) end))
unfolding deserialize translate translate_object c_str set_key at_key own_fields insert lookup
deserialized text = refl

written : (Schedule.schedule test_real test_disk (codes "sched") march_5 no_schedule []).2 ≡ true
unfolding Schedule.schedule Schedule.save is_object is_valid_yyyymmdd_date set_key at_key own_fields
    insert lookup save_to_file serialize serialize_actual field_texts print_object print_entries
    style prefix
written = refl

-- The parser reads any document with flags, and the schedule has a date already.
march_6-written :
    (Schedule.schedule test_real test_disk (codes "sched") march_6 one_date []).2 ≡ true
unfolding Schedule.schedule Schedule.save is_object is_valid_yyyymmdd_date set_key at_key own_fields
    insert lookup save_to_file serialize serialize_actual field_texts print_object print_entries
    style prefix
march_6-written = refl

one_date-IsSchedule : IsSchedule one_date
one_date-IsSchedule =
    (load-schedule test_real test_disk reader test_disk-IsLawful reader-ReadsDocuments
      (codes "sched") march_5 no_schedule [] null-IsSchedule written).0

load-schedule_example :
    IsSchedule (Schedule.schedule test_real test_disk (codes "sched") march_6 one_date []).1
    × (Schedule.load test_real test_disk reader
          (codes "sched")
          (Schedule.schedule test_real test_disk (codes "sched") march_6 one_date []).0
        ≡ ((Schedule.schedule test_real test_disk (codes "sched") march_6 one_date []).1, true))
load-schedule_example =
    load-schedule test_real test_disk reader test_disk-IsLawful reader-ReadsDocuments
      (codes "sched") march_6 one_date [] one_date-IsSchedule march_6-written

loaded :
    Fetch.open_schedule test_env test_config waiting_world
    ≡ object (field march_5 (boolean true) end)
unfolding Fetch.open_schedule Schedule.load load_from_file deserialize translate translate_object
    c_str set_key at_key own_fields insert lookup
loaded = refl

last_waiting : Fetch.get_last_scheduled test_env test_config waiting_world ≡ march_5
unfolding Fetch.get_last_scheduled
last_waiting =
    rw loaded
      (unfold Schedule.all_scheduled_dates is_object traverse_object Fetch.last_or_empty in refl)

fails : (d : Bytes) (w : _) → (Fetch.fetch_rates test_env test_config no_network d w).1 ≡ false
unfolding Fetch.fetch_rates
fails d w = refl

retry_job-spins_example :
    Fetch.retry_job test_env test_config 9 (λ i. no_network) 0 waiting_world ≡ none
retry_job-spins_example =
    retry_job-spins test_env test_config (λ i. no_network) march_5 waiting_world last_waiting
      march_5-valid (λ i. fails march_5 waiting_world) 9 0

-- an answer of the bank, which the parser reads as an object
abbrev bank : Fetch.Send
bank url = ok (record {
  code = 200;
  header_fields = (codes "Content-Type", codes "application/json; charset=utf-8") ∷ [];
  body = codes "x";
})

fetch_rates_lem_example :
    Fetch.fetch_rates test_env test_config bank march_5 empty_world
    ≡ catch
        (bank (given_date_rates march_5 test_config.fetched_data_type) >>= λ resp.
          ok (accept test_env test_config resp empty_world))
        (empty_world, false)
fetch_rates_lem_example = fetch_rates_lem test_env test_config bank march_5 empty_world

abbrev now : ℕ × ℕ × ℕ
now = (2024, 3, 5)

abbrev today : Bytes
today = date_right_now test_calendar now

schedule-today :
    Schedule.schedule test_real test_disk
      (codes "sched")
      today
      (Fetch.open_schedule test_env test_config empty_world)
      []
    ≡ Schedule.schedule test_real test_disk (codes "sched") march_5 no_schedule []
unfolding date_right_now yyyymmdd setw decimal char_stack Fetch.open_schedule Schedule.load
schedule-today = refl

fetch_today_rates-schedules_example :
    (Schedule.scheduled today (
        Fetch.open_schedule test_env test_config
          (Fetch.fetch_today_rates test_env test_config no_network now empty_world))
      ≡ (if same today today
          then true
          else Schedule.scheduled today (Fetch.open_schedule test_env test_config empty_world)))
    × ((Fetch.fetch_today_rates test_env test_config no_network now empty_world).store
        ≡ empty_world.store)
fetch_today_rates-schedules_example =
    fetch_today_rates-schedules test_env test_config test_disk-IsLawful no_network now empty_world
      today test_calendar-IsLawful (fails today empty_world)
      (λ text h. rw (schedule-today, made_by_schedule) (deserialized text))
      (rw schedule-today written)
