-- ===== src/Fetch/Drain.antt =====
-- The retry job where the bank answers: it takes every date off the schedule and ends.
use test_assignment.Prelude.{
  ℕ, zero, suc, ◌+◌, ◌<◌, ◌≡◌, refl, ap, ◌∙◌, ◌≢◌, ◌⊎◌, inl, inr, true, false, ◌&&◌, some, [], ◌∷◌,
  Bytes, all, ◌==◌, length, arith, Bool-cases,
}
use test_assignment.Prelude.Order.{bytes_order}
use test_assignment.Prelude.Result.{ok, Result-cases}
use test_assignment.Map.{Map, keys}
use test_assignment.Disk.{IsLawful, load_from_file, save_to_file}
use test_assignment.Dates.{is_valid_yyyymmdd_date}
use test_assignment.Query.{given_date_rates}
use test_assignment.Json.Value.{Value, object, Fields, of_fields, fields-of_fields, is_object}
use test_assignment.Json.Member.{key_remove, traverse_object}
use test_assignment.Json.Print.{serialize}
use test_assignment.Json.Translate.{deserialize}
use test_assignment.Schedule
use test_assignment.Schedule.{scheduled, unschedule}
use test_assignment.Schedule.File.{load-unschedule}
use test_assignment.Storage
use test_assignment.Fetch.Outcome.{fetch_rates_lem, accept, read_body, announces_json}
use test_assignment.Fetch.{
  Env, World, Config, Send, Response, fetch_rates, keep_rates, open_schedule, unschedule_fetching,
  fetch_scheduled_for_date, last_or_empty, get_last_scheduled, retry_round, retry_job,
  is_valid_currencies_array,
}
use test_assignment.Fetch.Remaining.{
  without_last, member-last, length-erase, all-keys-erase, all-last, scheduled-last,
  key_remove-last,
}

module _ (E : Env) (config : Config) where
  accept-world :
      (resp : Response) (w : World E)
      → ((accept E config resp w).0 ≡ w)
        ⊎ ((v : Value E.R.F) × ((accept E config resp w).0 ≡ keep_rates E config v w))
  unfolding accept read_body
  accept-world resp w = elim (Bool-cases (resp.code == 200 && announces_json resp.header_fields)) [
    | inr e ↦ inl (rw e refl)
    | inl e ↦ elim (Result-cases (deserialize E.parse resp.body)) [
      | inr (f, bad) ↦ inl (rw (e, bad, read_body) refl)
      | inl (v, parsed) ↦ elim (Bool-cases (is_valid_currencies_array E.R E.C v)) [
        | inl valid ↦ inr (v, rw (e, parsed, valid, read_body) refl)
        | inr other ↦ inl (rw (e, parsed, other, read_body) refl)
      ]
    ]
  ]

  -- a fetch leaves the world or keeps some rates
  fetch_rates-world :
      (send : Send) (d : Bytes) (w : World E)
      → ((fetch_rates E config send d w).0 ≡ w)
        ⊎ ((v : Value E.R.F) × ((fetch_rates E config send d w).0 ≡ keep_rates E config v w))
  fetch_rates-world send d w =
      rw (fetch_rates_lem E config send d w)
        (elim (Result-cases (send (given_date_rates d config.fetched_data_type))) [
          | inl (resp, e) ↦ rw e (accept-world resp w)
          | inr (f, e) ↦ inl (rw e refl)
        ])

  module _ (laws : IsLawful E.D) where
    save-other :
        (file other : Bytes) (v : Value E.R.F) (s : E.D.State)
        → other ≢ file
        → (E.D.file_exists (Storage.save E.R E.D file v s) other ≡ E.D.file_exists s other)
          × (E.D.contents (Storage.save E.R E.D file v s) other ≡ E.D.contents s other)
    unfolding Storage.save save_to_file
    save-other file other v s ne = elim (Result-cases (serialize E.R false v)) [
      | inl (text, e) ↦
          rw (e, Storage.save)
            (laws.exists-other s file text other ne, laws.contents-other s file text other ne)
      | inr (f, e) ↦ rw (e, Storage.save) (refl, refl)
    ]

    load-same :
        (file : Bytes) (s t : E.D.State)
        → E.D.file_exists s file ≡ E.D.file_exists t file
        → E.D.contents s file ≡ E.D.contents t file
        → Schedule.load E.R E.D E.parse file s ≡ Schedule.load E.R E.D E.parse file t
    unfolding Schedule.load load_from_file
    load-same file s t h k = rw (h, k) refl

    -- fetching does not touch the schedule's file
    open_schedule-fetch_rates :
        (send : Send) (d : Bytes) (w : World E)
        → config.sched_file_name ≢ config.data_file_name
        → open_schedule E config (fetch_rates E config send d w).0 ≡ open_schedule E config w
    unfolding open_schedule keep_rates
    open_schedule-fetch_rates send d w ne = elim (fetch_rates-world send d w) [
      | inl e ↦ ap (open_schedule E config) e
      | inr (v, e) ↦
          let same_file =
            save-other config.data_file_name config.sched_file_name (Storage.add E.R E.C v w.store)
              w.disk ne in
          ap (open_schedule E config) e
          ∙ ap (λ l. l.0) (load-same config.sched_file_name _ _ same_file.0 same_file.1)
    ]

    -- unscheduling a date that is there, where the rest can be printed
    unschedule-done :
        (file d : Bytes) (v : Value E.R.F) (fs : Fields E.R.F) (s : E.D.State) (text : Bytes)
        → scheduled d v ≡ true
        → key_remove d v ≡ ok (object fs)
        → serialize E.R false (object fs) ≡ ok text
        → (E.D.write s file text).1 ≡ true
        → ((unschedule E.R E.D file d v s).1 ≡ object fs)
          × ((unschedule E.R E.D file d v s).2 ≡ true)
    unfolding unschedule Schedule.save save_to_file is_object
    unschedule-done file d v fs s text there removed printed written =
        (rw (there, removed) refl, rw (there, removed) (rw (printed, Schedule.save) written))

    load-unscheduled :
        (file d : Bytes) (v : Value E.R.F) (fs : Fields E.R.F) (s : E.D.State) (text : Bytes)
        → scheduled d v ≡ true
        → key_remove d v ≡ ok (object fs)
        → serialize E.R false (object fs) ≡ ok text
        → deserialize E.parse text ≡ ok (object fs)
        → (E.D.write s file text).1 ≡ true
        → (Schedule.load E.R E.D E.parse file (unschedule E.R E.D file d v s).0).0 ≡ object fs
    load-unscheduled file d v fs s text there removed printed parsed written =
        let (kept, done) = unschedule-done file d v fs s text there removed printed written in
        ap (λ l. l.0)
          (load-unschedule E.R E.D E.parse laws file d v s
            (rw kept (λ t h. cc (h, printed, parsed))) done)
        ∙ kept

    open_schedule-unschedule_fetching :
        (d : Bytes) (v : Value E.R.F) (fs : Fields E.R.F) (w : World E) (text : Bytes)
        → open_schedule E config w ≡ v
        → scheduled d v ≡ true
        → key_remove d v ≡ ok (object fs)
        → serialize E.R false (object fs) ≡ ok text
        → deserialize E.parse text ≡ ok (object fs)
        → ((s : E.D.State) (t : Bytes) → (E.D.write s config.sched_file_name t).1 ≡ true)
        → open_schedule E config (unschedule_fetching E config d w) ≡ object fs
    unfolding unschedule_fetching
    open_schedule-unschedule_fetching d v fs w text opened there removed printed parsed writes =
        rw opened (
          unfold open_schedule in
          load-unscheduled config.sched_file_name d v fs w.disk text there removed printed parsed
            (writes w.disk text))

    -- What one round does to a schedule whose last date is valid: it takes that date away.
    retry_round-open_schedule :
        (send : Send) (e : Bytes × Value E.R.F) (m : Map Bytes (Value E.R.F)) (w : World E)
        → config.sched_file_name ≢ config.data_file_name
        → open_schedule E config w ≡ object (of_fields (e ∷ m))
        → is_valid_yyyymmdd_date (last_or_empty (keys (e ∷ m))) ≡ true
        → (fetch_rates E config send (last_or_empty (keys (e ∷ m))) w).1 ≡ true
        → ((s : E.D.State) (text : Bytes) → (E.D.write s config.sched_file_name text).1 ≡ true)
        → (text : Bytes) → serialize E.R false (object (of_fields (without_last (e ∷ m)))) ≡ ok text
        → deserialize E.parse text ≡ ok (object (of_fields (without_last (e ∷ m))))
        → open_schedule E config (retry_round E config send (last_or_empty (keys (e ∷ m))) w)
          ≡ object (of_fields (without_last (e ∷ m)))
    unfolding retry_round fetch_scheduled_for_date
    retry_round-open_schedule send e m w ne opened valid fetched writes text printed parsed =
        rw (valid, fetched)
          (open_schedule-unschedule_fetching (last_or_empty (keys (e ∷ m)))
            (object (of_fields (e ∷ m))) (of_fields (without_last (e ∷ m)))
            (fetch_rates E config send (last_or_empty (keys (e ∷ m))) w).0 text
            (open_schedule-fetch_rates send (last_or_empty (keys (e ∷ m))) w ne ∙ opened)
            (scheduled-last e m) (key_remove-last e m) printed parsed writes)

  last_open :
      (m : Map Bytes (Value E.R.F)) (w : World E)
      → open_schedule E config w ≡ object (of_fields m)
      → get_last_scheduled E config w ≡ last_or_empty (keys m)
  unfolding get_last_scheduled Schedule.all_scheduled_dates is_object traverse_object
  last_open m w opened = rw opened (rw (fields-of_fields m) refl)

  retry_job-round :
      (net : ℕ → Send) (fuel i : ℕ) (w : World E) (d : Bytes)
      → get_last_scheduled E config w ≡ d
      → is_valid_yyyymmdd_date d ≡ true
      → retry_job E config (suc fuel) net i w
        ≡ retry_job E config fuel net (i + 1) (retry_round E config (net i) d w)
  unfolding retry_job
  retry_job-round net fuel i w [] last valid = absurd (unfold is_valid_yyyymmdd_date in cc valid)
  retry_job-round net fuel i w (c ∷ d) last valid = rw (last, retry_job) refl

  -- the schedule of these dates, and what is left of it, can be printed and read back
  abbrev pub Prints : Map Bytes (Value E.R.F) → Type 0
  Prints m =
      (text : Bytes) × (serialize E.R false (object (of_fields m)) ≡ ok text)
      × (deserialize E.parse text ≡ ok (object (of_fields m)))

  abbrev pub left_after : ℕ → Map Bytes (Value E.R.F) → Map Bytes (Value E.R.F)
  left_after zero m = m
  left_after (suc n) m = left_after n (without_last m)

  module _ (laws : IsLawful E.D) (net : ℕ → Send)
      (ne : config.sched_file_name ≢ config.data_file_name)
      (fetches : (i : ℕ) (d : Bytes) (w : World E) → (fetch_rates E config (net i) d w).1 ≡ true)
      (writes : (s : E.D.State) (text : Bytes)
        → (E.D.write s config.sched_file_name text).1 ≡ true) where
    -- Where each fetch succeeds and the schedule's file can be written, the job ends, with as much
    -- fuel as there are scheduled dates and one more, and leaves an empty schedule: if the disk
    -- does what is documented, the rates are kept in another file, the scheduled names are dates,
    -- and the schedules that are left on the way are read back as they are printed.
    pub retry_job-drains :
        (fuel i : ℕ) (m : Map Bytes (Value E.R.F)) (w : World E)
        → length m < fuel
        → open_schedule E config w ≡ object (of_fields m)
        → all is_valid_yyyymmdd_date (keys m) ≡ true
        → ((n : ℕ) → Prints (left_after n m))
        → (w' : World E) × (retry_job E config fuel net i w ≡ some w')
          × (open_schedule E config w' ≡ object (of_fields []))
    unfolding retry_job
    retry_job-drains zero i m w k opened valid prints = absurd (omega arith)
    retry_job-drains (suc fuel) i [] w k opened valid prints =
        (w, rw (last_open [] w opened, retry_job) (unfold last_or_empty in refl), opened)
    retry_job-drains (suc fuel) i (e ∷ m) w k opened valid prints =
        let d = last_or_empty (keys (e ∷ m)) in
        let d_valid = all-last is_valid_yyyymmdd_date e m valid in
        let (text, printed, parsed) = prints 1 in
        let (w', done, empty) =
          retry_job-drains fuel (i + 1) (without_last (e ∷ m)) (retry_round E config (net i) d w)
            (unfold without_last in omega (arith, length-erase d (e ∷ m) (member-last e m)))
            (retry_round-open_schedule laws (net i) e m w ne opened d_valid (fetches i d w) writes
              text printed parsed)
            (unfold without_last in all-keys-erase is_valid_yyyymmdd_date d (e ∷ m) valid)
            (λ n. prints (suc n)) in
        (w', retry_job-round net fuel i w d (last_open (e ∷ m) w opened) d_valid ∙ done, empty)
