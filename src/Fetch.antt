-- ===== src/Fetch.antt =====
-- src/exchange_rates_fetch_logic.hpp: fetching the rates of a date, the schedule of failed dates,
-- and the job that retries them. The HTTP client and the clock are the environment's.
pub mod Outcome
pub mod Retry
pub mod Remaining
pub mod Drain
pub mod Cron
use test_assignment.Prelude.{
  ℕ, zero, suc, ◌+◌, ◌-◌, Bool, true, false, ◌&&◌, ◌||◌, not, Option, none, some, List, [], ◌∷◌,
  ◌++◌, Bytes, codes, same, ltb, ◌==◌, if◌then◌else◌, length,
}
use test_assignment.Prelude.Result.{Result, ok, err, ◌>>=◌, catch}
use test_assignment.Text.{strtolower}
use test_assignment.Text.Split.{str_tok}
use test_assignment.Disk.{Disk}
use test_assignment.Dates.{is_valid_yyyymmdd_date, valid_dotted_date, date_right_now}
use test_assignment.Dates.Civil.{Calendar}
use test_assignment.Query.{given_date_rates}
use test_assignment.Json.Real.{LongDouble}
use test_assignment.Json.Value.{Value, null, is_array, is_object, is_number, is_real}
use test_assignment.Json.Member.{get_key, key_exists, string_field_exists}
use test_assignment.Json.Element.{size, get_index}
use test_assignment.Json.Object.{as_string}
use test_assignment.Json.Translate.{Node, deserialize}
use test_assignment.Schedule
use test_assignment.Storage

-- `http::Response`, as far as it is read
pub record Response : Type 0 where
  pub code : ℕ
  pub header_fields : List (Bytes × Bytes)
  pub body : Bytes

-- what the fetch logic reads of the configuration
pub record Config : Type 0 where
  pub fetched_data_type : Bytes
  pub data_file_name : Bytes
  pub sched_file_name : Bytes

abbrev pub is_some {ℓ} : {A : Type ℓ} → Option A → Bool
is_some none = false
is_some (some a) = true

module _ (R : LongDouble) (C : Calendar) where
  -- a field that is there and passes the test
  unfoldable pub field_is : Bytes → (Value R.F → Bool) → Value R.F → Bool
  field_is name p entry =
      key_exists name entry && catch (get_key name entry >>= λ v. ok (p v)) false

  unfoldable pub dated : Value R.F → Bool
  dated v = catch (as_string R v >>= λ s. ok (is_some (valid_dotted_date C s))) false

  -- the test of one entry of `is_valid_currencies_array`
  unfoldable pub is_valid_entry : Value R.F → Bool
  unfolding field_is dated
  is_valid_entry entry =
      is_object entry
      && string_field_exists (codes "cc") entry
      && (string_field_exists (codes "exchangedate") entry
          && field_is (codes "exchangedate") dated entry)
      && field_is (codes "r030") is_number entry
      && field_is (codes "rate") (λ v. is_real v || is_number v) entry
      && string_field_exists (codes "txt") entry

  -- The loop, by the rounds left. A gap is read as null, which is no entry.
  unfoldable pub entries_valid : ℕ → ℕ → Value R.F → Bool
  unfolding is_valid_entry
  entries_valid zero i currencies = true
  entries_valid (suc rounds) i currencies = elim (get_index i currencies) [
    | err e ↦ false
    | ok (entry, currencies') ↦ elim (is_valid_entry entry) [
      | true ↦ entries_valid rounds (i + 1) currencies'
      | false ↦ false
    ]
  ]

  unfoldable pub is_valid_currencies_array : Value R.F → Bool
  unfolding entries_valid
  is_valid_currencies_array currencies =
      is_array currencies
      && ltb 0 (size R.real_size currencies)
      && entries_valid (size R.real_size currencies) 0 currencies

-- what the fetch logic calls and the repository does not hold: floating point, the calendar, the
-- disk and the JSON parser
pub record Env : Type 1 where
  pub R : LongDouble
  pub C : Calendar
  pub D : Disk
  pub parse : Bytes → Result (Node R.F)

-- what the calls change: `strg_` and the disk
pub record World (E : Env) : Type 0 where
  pub store : Value E.R.F
  pub disk : E.D.State

-- `http::Request{url}.send()`, which may throw
abbrev pub Send : Type 0
Send = Bytes → Result Response

-- `schs[schs.size() - 1]`, or the empty text
unfoldable pub last_or_empty : List Bytes → Bytes
last_or_empty [] = []
last_or_empty (d ∷ []) = d
last_or_empty (d ∷ e ∷ ds) = last_or_empty (e ∷ ds)

module _ (E : Env) (config : Config) where
  -- `strg_--->add(curr_data); strg_--->save(...)`
  unfoldable pub keep_rates : Value E.R.F → World E → World E
  keep_rates curr_data w =
      let store' = Storage.add E.R E.C curr_data w.store in
      record { store = store'; disk = Storage.save E.R E.D config.data_file_name store' w.disk }

  -- the loop over the parts of a media type
  unfoldable pub try_tokens : List Bytes → Bytes → World E → Result (World E × Bool)
  try_tokens [] body w = ok (w, false)
  try_tokens (sl_tk ∷ sl_tokens) body w =
      let rest = try_tokens sl_tokens body w in
      if same (strtolower sl_tk) (codes "json")
      then (deserialize E.parse body >>= λ curr_data.
          if is_valid_currencies_array E.R E.C curr_data
          then ok (keep_rates curr_data w, true)
          else rest)
      else rest

  -- a "content-type" header
  unfoldable pub try_content_type : Bytes → Bytes → World E → Result (World E × Bool)
  unfolding try_tokens
  try_content_type value body w = elim (str_tok value (codes ";")) [
    | [] ↦ ok (w, false)
    | media ∷ parameters ↦ try_tokens (str_tok media (codes "/")) body w
  ]

  -- the loop over the headers; it ends at the first one that is processed
  unfoldable pub try_headers : List (Bytes × Bytes) → Bytes → World E → Result (World E × Bool)
  unfolding try_content_type
  try_headers [] body w = ok (w, false)
  try_headers ((name, value) ∷ hs) body w =
      let rest = try_headers hs body w in
      if same (strtolower name) (codes "content-type")
      then elim (try_content_type value body w) [
        | err e ↦ err e
        | ok (w', processed) ↦ elim processed [ true ↦ ok (w', true) | false ↦ rest ]
      ]
      else rest

  unfoldable pub handle_response : Response → World E → Result (World E × Bool)
  unfolding try_headers
  handle_response resp w =
      if resp.code == 200 then try_headers resp.header_fields resp.body w else ok (w, false)

  -- `fetch_rates(date)`: whatever is thrown is caught, with nothing stored.
  unfoldable pub fetch_rates : Send → Bytes → World E → World E × Bool
  unfolding handle_response
  fetch_rates send date w =
      catch
        (send (given_date_rates date config.fetched_data_type) >>= λ resp. handle_response resp w)
        (w, false)

  -- `fetch_schedule fs{config()--->sched_file_name()}`
  unfoldable pub open_schedule : World E → Value E.R.F
  open_schedule w = (Schedule.load E.R E.D E.parse config.sched_file_name w.disk).0

  unfoldable pub schedule_fetching : Bytes → World E → World E
  schedule_fetching date w = record w {
    disk = (Schedule.schedule E.R E.D config.sched_file_name date (open_schedule w) w.disk).0;
  }

  unfoldable pub unschedule_fetching : Bytes → World E → World E
  unschedule_fetching date w = record w {
    disk = (Schedule.unschedule E.R E.D config.sched_file_name date (open_schedule w) w.disk).0;
  }

  unfoldable pub get_last_scheduled : World E → Bytes
  get_last_scheduled w = last_or_empty (Schedule.all_scheduled_dates (open_schedule w))

  unfoldable pub fetch_scheduled_for_date : Send → Bytes → World E → World E × Bool
  fetch_scheduled_for_date send date w =
      let (w', fetched) = fetch_rates send date w in
      if fetched then (unschedule_fetching date w', true) else (w', false)

  -- `fetch_today_rates()` at the time that the clock shows
  unfoldable pub fetch_today_rates : Send → E.C.Time → World E → World E
  fetch_today_rates send now w =
      let (w', fetched) = fetch_rates send (date_right_now E.C now) w in
      if fetched then w' else schedule_fetching (date_right_now E.C now) w'

  -- the body of the loop of the retry job
  unfoldable pub retry_round : Send → Bytes → World E → World E
  retry_round send lsd w =
      if is_valid_yyyymmdd_date lsd
      then (fetch_scheduled_for_date send lsd w).0
      else unschedule_fetching lsd w

  -- The retry job: `for(lsd = get_last_scheduled(); !lsd.empty(); lsd = get_last_scheduled())`.
  -- The network answers each round anew. `none` means that the fuel ran out.
  unfoldable pub retry_job : ℕ → (ℕ → Send) → ℕ → World E → Option (World E)
  retry_job zero net i w = none
  retry_job (suc fuel) net i w = elim (get_last_scheduled w) [
    | [] ↦ some w
    | c ∷ lsd ↦ retry_job fuel net (i + 1) (retry_round (net i) (c ∷ lsd) w)
  ]
