-- ===== src/Fetch/Retry.antt =====
-- Failed dates: what a failed fetch leaves on the schedule, and when the retry job ends.
use test_assignment.Prelude.{
  ℕ, zero, suc, ◌+◌, ◌≡◌, refl, true, false, none, [], ◌∷◌, Bytes, same, arith, if◌then◌else◌,
}
use test_assignment.Disk.{IsLawful}
use test_assignment.Dates.{is_valid_yyyymmdd_date, date_right_now}
use test_assignment.Dates.Civil
use test_assignment.Dates.Shape.{date_right_now-valid}
use test_assignment.Schedule
use test_assignment.Schedule.Memory.{schedule_lem}
use test_assignment.Schedule.File.{ReadsBack, load-schedule_of_read}
use test_assignment.Fetch.Outcome.{fetch_rates-false}
use test_assignment.Fetch.{
  Env, World, Config, Send, fetch_rates, open_schedule, schedule_fetching, fetch_today_rates,
  fetch_scheduled_for_date, get_last_scheduled, retry_round, retry_job,
}

module _ (E : Env) (config : Config) where
  retry_round-fails :
      (send : Send) (d : Bytes) (w : World E)
      → is_valid_yyyymmdd_date d ≡ true
      → (fetch_rates E config send d w).1 ≡ false
      → retry_round E config send d w ≡ w
  unfolding retry_round fetch_scheduled_for_date
  retry_round-fails send d w valid failed =
      ground (arith, fetch_rates-false E config send d w failed)

  -- A valid date that is last on the schedule, and whose fetch fails each time and changes
  -- nothing, keeps the retry job in its loop: no number of rounds ends it.
  pub retry_job-spins :
      (net : ℕ → Send) (d : Bytes) (w : World E)
      → get_last_scheduled E config w ≡ d
      → is_valid_yyyymmdd_date d ≡ true
      → ((i : ℕ) → (fetch_rates E config (net i) d w).1 ≡ false)
      → (fuel i : ℕ) → retry_job E config fuel net i w ≡ none
  unfolding retry_job
  retry_job-spins net d w last valid fails zero i = refl
  retry_job-spins net [] w last valid fails (suc fuel) i =
      absurd (unfold is_valid_yyyymmdd_date in cc valid)
  retry_job-spins net (c ∷ d) w last valid fails (suc fuel) i =
      rw (last, retry_job)
        (rw (retry_round-fails (net i) (c ∷ d) w valid (fails i))
          (retry_job-spins net (c ∷ d) w last valid fails fuel (i + 1)))

  -- what the disk and the parser are documented to do
  module _ (disk_laws : IsLawful E.D) where
    -- Where the rates of the day cannot be fetched, and the schedule with the day can be written
    -- and is read back as it is printed, the next look at the schedule finds the day on it, beside
    -- the dates that were there, and the stored rates have not changed; the disk and the calendar
    -- do what is documented of them.
    pub fetch_today_rates-schedules :
        (send : Send) (now : E.C.Time) (w : World E) (j : Bytes)
        → Civil.IsLawful E.C
        → (fetch_rates E config send (date_right_now E.C now) w).1 ≡ false
        → ReadsBack E.R E.parse
            (Schedule.schedule E.R E.D config.sched_file_name
              (date_right_now E.C now)
              (open_schedule E config w)
              w.disk).1
        → (Schedule.schedule E.R E.D config.sched_file_name
            (date_right_now E.C now)
            (open_schedule E config w)
            w.disk).2
          ≡ true
        → (Schedule.scheduled j (open_schedule E config (fetch_today_rates E config send now w)) ≡ (
            if same j (date_right_now E.C now)
            then true
            else Schedule.scheduled j (open_schedule E config w)))
          × ((fetch_today_rates E config send now w).store ≡ w.store)
    unfolding fetch_today_rates schedule_fetching open_schedule
    fetch_today_rates-schedules send now w j laws failed reads written =
        rw (fetch_rates-false E config send (date_right_now E.C now) w failed) (
          ground (
            arith,
            load-schedule_of_read E.R E.D E.parse disk_laws config.sched_file_name
                (date_right_now E.C now) (open_schedule E config w) w.disk reads written,
            schedule_lem E.R E.D config.sched_file_name (date_right_now E.C now) j
                (open_schedule E config w) w.disk,
            date_right_now-valid E.C laws now,
          ))
