-- ===== src/Config.antt =====
-- src/configuration.hpp: the service's configuration and its file. `load`, `store` and `reload` get
-- the state of the disk; the clock's time is an argument.
pub mod Values
pub mod Reload
pub mod File
use test_assignment.Prelude.{
  ℕ, Bool, true, false, ◌&&◌, ◌||◌, not, Option, none, some, List, [], ◌∷◌, Bytes, codes, same,
  if◌then◌else◌,
}
use test_assignment.Prelude.Order.{bytes_order}
use test_assignment.Prelude.Result.{Result, ok, err, ◌>>=◌, configuration_error}
use test_assignment.Map.{lookup}
use test_assignment.Text.{strtolower}
use test_assignment.Disk.{Disk, load_from_file, save_to_file}
use test_assignment.Disk.Path.{extract_file_dir, is_empty}
use test_assignment.Json.Real.{LongDouble}
use test_assignment.Json.Value.{Value, null, boolean, string, object}
use test_assignment.Json.Member.{at_key, set_key, key_exists, own_fields, or_null}
use test_assignment.Json.Object.{as_string, as_boolean}
use test_assignment.Json.Print.{serialize}
use test_assignment.Json.Translate.{Node, deserialize}

pub record Configuration : Type 0 where
  pub filepath : Bytes
  pub cron_string : Bytes
  pub failed_sched_cron_string : Bytes
  pub fetched_data_type : Bytes
  pub data_file_name : Bytes
  pub sched_file_name : Bytes
  pub enable_log_file : Bool
  pub log_file_name : Bytes

-- a configuration as it is constructed
abbrev pub new_configuration : Configuration
new_configuration = record {
  filepath = [];
  cron_string = codes "0 0 6 * * *";
  failed_sched_cron_string = codes "0 */5 * * * *";
  fetched_data_type = codes "json";
  data_file_name = codes "currency_rates.json";
  sched_file_name = codes "rates_fetch_sched.json";
  enable_log_file = false;
  log_file_name = codes "currency_rates_svc.log";
}

abbrev pub set_defaults : Configuration → Configuration
set_defaults c = record {
  filepath = c.filepath;
  cron_string = codes "0 0 6 * * *";
  failed_sched_cron_string = codes "0 */5 * * * *";
  fetched_data_type = codes "json";
  data_file_name = codes "CurrRatesService.db";
  sched_file_name = codes "CurrRatesService.bad";
  enable_log_file = true;
  log_file_name = codes "CurrRatesService.log";
}

-- What is not the repository's: the disk with its directories, the JSON parser, floating point, and
-- the cron library, whose `make_cron` throws and whose `cron_next` may be `INVALID_TIME`.
pub record Surroundings : Type 1 where
  pub R : LongDouble
  pub D : Disk
  pub dir_exists : D.State → Bytes → Bool
  pub parse : Bytes → Result (Node R.F)
  pub Expression : Type 0
  pub make_cron : Bytes → Result Expression
  pub cron_next : Expression → ℕ → Option ℕ

module _ (E : Surroundings) where
  -- src/misc_utils.hpp
  unfoldable pub good_file_name_or_candidate : E.D.State → Bytes → Bool
  good_file_name_or_candidate s file_name =
      E.D.file_exists s file_name
      || E.dir_exists s (extract_file_dir file_name)
      || (is_empty (extract_file_dir file_name) && not (is_empty file_name))

  abbrev pub require : Bool → Result Bool
  require true = ok true
  require false = err configuration_error

  abbrev pub is_some : Option ℕ → Bool
  is_some none = false
  is_some (some t) = true

  -- `cfg[name].as_string()`, which makes an entry that is not there
  unfoldable pub read_string : Bytes → Value E.R.F → Result (Bytes × Value E.R.F)
  read_string name cfg = as_string E.R (or_null (lookup name (own_fields cfg))) >>= λ text.
      ok (text, at_key name (λ v. v) cfg)

  -- `INVALID_TIME != cron_next(make_cron(text), time(0))`
  unfoldable pub has_next : ℕ → Bytes → Result Bool
  has_next now text = E.make_cron text >>= λ x. ok (is_some (E.cron_next x now))

  unfoldable pub read_cron : ℕ → Bytes → Value E.R.F → Result (Bytes × Value E.R.F)
  read_cron now name cfg =
      read_string name cfg >>= λ r. has_next now r.0 >>= λ valid. require valid >>= λ u. ok r

  -- both tests of the data type, of which the second refuses what the first lets pass
  unfoldable pub read_data_type : Value E.R.F → Result (Bytes × Value E.R.F)
  read_data_type cfg = read_string (codes "fetched_data_type") cfg >>= λ r.
      let type = strtolower r.0 in
      require (same type (codes "json") || same type (codes "xml")) >>= λ u.
      require (not (same type (codes "xml"))) >>= λ u'. ok (type, r.1)

  unfoldable pub read_file_name : E.D.State → Bytes → Value E.R.F → Result (Bytes × Value E.R.F)
  read_file_name s name cfg =
      read_string name cfg >>= λ r. require (good_file_name_or_candidate s r.0) >>= λ u. ok r

  -- The switch is read where it is there, and the name is tested where the switch is on.
  abbrev pub log_switch : Value E.R.F → Bool
  log_switch cfg =
      if key_exists (codes "enable_log_file") cfg
      then as_boolean E.R (or_null (lookup (codes "enable_log_file") (own_fields cfg)))
      else false

  unfoldable pub read_log : E.D.State → Value E.R.F → Result (Bool × Bytes)
  read_log s cfg = read_string (codes "log_file_name") cfg >>= λ r.
      require (not (log_switch cfg) || good_file_name_or_candidate s r.0) >>= λ u.
      ok (log_switch cfg, r.0)

  -- the `try` block of `reload`, behind the parser
  unfoldable pub read_configuration : ℕ → Bytes → E.D.State → Value E.R.F → Result Configuration
  read_configuration now filepath s cfg = read_cron now (codes "cron_string") cfg >>= λ cron.
      read_cron now (codes "failed_sched_cron_string") cron.1 >>= λ sched_cron.
      read_data_type sched_cron.1 >>= λ type.
      read_file_name s (codes "data_file_name") type.1 >>= λ rates.
      read_file_name s (codes "sched_file_name") rates.1 >>= λ sched. read_log s sched.1 >>= λ log.
      ok (record {
        filepath = filepath;
        cron_string = cron.0;
        failed_sched_cron_string = sched_cron.0;
        fetched_data_type = type.0;
        data_file_name = rates.0;
        sched_file_name = sched.0;
        enable_log_file = log.0;
        log_file_name = log.1;
      })

  -- `reload()`: the configuration behind it and whether it was read
  unfoldable pub reload : ℕ → Configuration → E.D.State → Configuration × Bool
  reload now c s =
      if E.D.file_exists s c.filepath
      then elim (load_from_file E.D s c.filepath >>= λ text.
          deserialize E.parse text >>= λ cfg. read_configuration now c.filepath s cfg) [
            | ok c' ↦ (c', true)
            | err e ↦ (c, false)
          ]
      else (c, false)

  -- what `store` prints
  abbrev pub as_json : Configuration → Value E.R.F
  as_json c = set_key (codes "log_file_name") (string c.log_file_name) (
      set_key (codes "enable_log_file") (boolean c.enable_log_file) (
        set_key (codes "sched_file_name") (string c.sched_file_name) (
          set_key (codes "data_file_name") (string c.data_file_name) (
            set_key (codes "fetched_data_type") (string c.fetched_data_type) (
              set_key (codes "failed_sched_cron_string") (string c.failed_sched_cron_string)
                (set_key (codes "cron_string") (string c.cron_string) null))))))

  unfoldable pub store : Configuration → E.D.State → E.D.State × Bool
  store c s = elim (serialize E.R false (as_json c)) [
    | err e ↦ (s, false)
    | ok text ↦ save_to_file E.D s c.filepath text
  ]

  -- `load(filepath, create_when_not_exists)`
  unfoldable pub load :
      ℕ → Bytes → Bool → Configuration → E.D.State → E.D.State × Configuration × Bool
  load now filepath create_when_not_exists c s =
      let c' = record c { filepath = filepath } in
      if E.D.file_exists s filepath
      then (s, (reload now c' s).0, (reload now c' s).1)
      else if create_when_not_exists
      then (let (s', done) = store c' s in (s', c', done))
      else (s, c', false)
