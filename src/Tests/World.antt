-- ===== src/Tests/World.antt =====
-- A world to run the code in: integers for floating point, a calendar that keeps the day that it
-- is given, a disk that is a list of files, a parser with one answer, and a cron library whose
-- next time is a minute ahead.
use test_assignment.Prelude.{
  ℕ, ◌+◌, ◌≤◌, ◌≡◌, ◌≢◌, refl, same→eq, Bool-cases, inl, inr, Bool, true, false, not, Option, none,
  some, List, [], ◌∷◌, ◌++◌, Bytes, codes, same, same_refl, leb, arith, if◌then◌else◌,
}
use test_assignment.Prelude.Int.{ℤ, pos, negsuc, same_int}
use test_assignment.Prelude.Result.{Result, ok, err, catch, io_error}
use test_assignment.Text.Number.{atoi, decimal}
use test_assignment.Dates.Civil
use test_assignment.Dates.Civil.{Calendar}
use test_assignment.Disk
use test_assignment.Disk.{Disk}
use test_assignment.Json.Real.{LongDouble}
use test_assignment.Json.Value.{Value, null}
use test_assignment.Json.Translate.{Node, bool_node, object_node, pair, no_pair}
use test_assignment.Fetch.{Env, World, Config, Send}
use test_assignment.Fetch.Cron.{CronLibrary, IsForward}

abbrev pub test_real : LongDouble
test_real = record {
  F = ℤ;
  of_int = λ z. z;
  to_int = λ z. z;
  nonzero = λ z. not (same_int z (pos 0));
  fixed6 = λ z. decimal z ++ codes ".000000";
  atof = λ s. catch (atoi s 10) (pos 0);
  real_size = 16;
}

abbrev pub up_to : ℕ → ℕ → ℕ
up_to top n = if leb n top then n else top

abbrev pub day_number : ℤ → ℕ
day_number (pos n) = n
day_number (negsuc n) = 0

abbrev pub test_calendar : Calendar
test_calendar = record {
  Time = ℕ × ℕ × ℕ;
  epoch = (1970, 1, 1);
  mktime = λ y m d h i s. (day_number y, day_number m, day_number d);
  year = λ t. pos (up_to 3001 t.0);
  month = λ t. pos (up_to 12 t.1);
  day = λ t. pos (up_to 31 t.2);
  add_fraction = λ digits n t. t;
  sub_offset = λ h m minus t. t;
  add_gmtoffset = λ t. t;
}

up_to_le : (top n : ℕ) → up_to top n ≤ top
up_to_le top n = ground arith

up_to_eq : (top n : ℕ) → n ≤ top → pos (up_to top n) ≡ pos n
up_to_eq top n h = ground arith

days_in-bound : (y m : ℕ) → Civil.days_in y m ≤ 31
unfolding Civil.days_in Civil.is_leap
days_in-bound y m = ground arith

pub test_calendar-IsLawful : Civil.IsLawful test_calendar
test_calendar-IsLawful = record {
  year_of = λ y m d c. up_to_eq 3001 y (omega (arith, c.year_high));
  month_of = λ y m d c. up_to_eq 12 m c.month_high;
  day_of = λ y m d c. up_to_eq 31 d (omega (arith, c.day_high, days_in-bound y m));
  year_range = λ t. (up_to 3001 t.0, refl, up_to_le 3001 t.0);
  month_range = λ t. (up_to 12 t.1, refl, up_to_le 12 t.1);
  day_range = λ t. (up_to 31 t.2, refl, up_to_le 31 t.2);
}

-- the file of that name, the last one written
abbrev pub find_file : Bytes → List (Bytes × Bytes) → Option Bytes
find_file fn [] = none
find_file fn ((name, text) ∷ files) = if same fn name then some text else find_file fn files

abbrev pub or_empty : Option Bytes → Bytes
or_empty none = []
or_empty (some text) = text

abbrev pub there : Option Bytes → Bool
there none = false
there (some text) = true

different : (a b : Bytes) → a ≢ b → same a b ≡ false
different a b ne = elim (Bool-cases (same a b)) [ inl e ↦ absurd (ne (same→eq a b e)) | inr e ↦ e ]

abbrev pub test_disk : Disk
test_disk = record {
  State = List (Bytes × Bytes);
  file_exists = λ s fn. there (find_file fn s);
  contents = λ s fn. or_empty (find_file fn s);
  write = λ s fn text. ((fn, text) ∷ s, true);
}

pub test_disk-IsLawful : Disk.IsLawful test_disk
test_disk-IsLawful = record {
  exists-write = λ s fn text h. rw (same_refl fn) refl;
  contents-write = λ s fn text h. rw (same_refl fn) refl;
  exists-other = λ s fn text other ne. rw (different other fn ne) refl;
  contents-other = λ s fn text other ne. rw (different other fn ne) refl;
}

abbrev pub no_schedule : Value ℤ
no_schedule = null

abbrev pub march_5 : Bytes
march_5 = codes "20240305"

-- the parser: any text is the schedule with that one date
abbrev pub test_parse : Bytes → Result (Node ℤ)
test_parse text = ok (object_node (pair march_5 (bool_node true) no_pair))

abbrev pub test_env : Env
test_env = record { R = test_real; C = test_calendar; D = test_disk; parse = test_parse }

abbrev pub test_config : Config
test_config = record {
  fetched_data_type = codes "json";
  data_file_name = codes "data";
  sched_file_name = codes "sched";
}

abbrev pub empty_world : World test_env
empty_world = record { store = null; disk = [] }

-- the schedule's file is there
abbrev pub waiting_world : World test_env
waiting_world = record { store = null; disk = (codes "sched", codes "x") ∷ [] }

-- a network that is down
abbrev pub no_network : Send
no_network url = err io_error

abbrev pub test_cron : CronLibrary
test_cron = record { Expression = Bytes; make_cron = λ s. s; cron_next = λ x t. t + 60 }

pub test_cron-IsForward : IsForward test_cron
test_cron-IsForward x t = omega arith
