-- ===== src/Config/Reload.antt =====
-- src/configuration.hpp: what `reload` takes from the file.
use test_assignment.Prelude.{
  ℕ, Bool, true, false, ◌||◌, not, Bytes, codes, ◌≡◌, refl, Bool-cases, inl, inr, arith, ◌⊎◌,
  same→eq, none,
}
use test_assignment.Prelude.Result.{Result, ok, ◌>>=◌, Result-cases}
use test_assignment.Disk.{load_from_file}
use test_assignment.Disk.Path.{separator, is_empty, extract_file_dir-plain}
use test_assignment.Text.Split.{cut}
use test_assignment.Json.Value.{Value}
use test_assignment.Json.Translate.{deserialize}
use test_assignment.Config.{
  Configuration, Surroundings, good_file_name_or_candidate, has_next, read_cron, read_data_type,
  read_file_name, read_log, read_configuration, reload,
}
use test_assignment.Config.Values.{bind-ok, IsReadFrom, read_configuration-IsReadFrom}

module _ (E : Surroundings) where
  -- The values are in order: both cron strings have a next time, the data is JSON, and each file is
  -- there or can be made, that of the log where it is switched on.
  pub record IsUsable (now : ℕ) (s : E.D.State) (c : Configuration) : Type 0 where
    pub cron : has_next E now c.cron_string ≡ ok true
    pub sched_cron : has_next E now c.failed_sched_cron_string ≡ ok true
    pub type : c.fetched_data_type ≡ codes "json"
    pub data_file : good_file_name_or_candidate E s c.data_file_name ≡ true
    pub sched_file : good_file_name_or_candidate E s c.sched_file_name ≡ true
    pub log_file : (not c.enable_log_file || good_file_name_or_candidate E s c.log_file_name) ≡ true

  -- A name without a directory passes, unless it is empty.
  pub plain_name-passes :
      (s : E.D.State) (name : Bytes)
      → cut name separator ≡ none
      → is_empty name ≡ false
      → good_file_name_or_candidate E s name ≡ true
  unfolding good_file_name_or_candidate
  plain_name-passes s name e h = ground (arith, extract_file_dir-plain name e, h)

  cron-passes :
      (now : ℕ) (name : Bytes) (cfg : Value E.R.F) (r : Bytes × Value E.R.F)
      → read_cron E now name cfg ≡ ok r
      → has_next E now r.0 ≡ ok true
  unfolding read_cron
  cron-passes now name cfg r h = ground arith

  type-passes :
      (cfg : Value E.R.F) (r : Bytes × Value E.R.F)
      → read_data_type E cfg ≡ ok r
      → r.0 ≡ codes "json"
  unfolding read_data_type
  type-passes cfg r h = ground (arith, same→eq r.0 (codes "json"))

  file-passes :
      (s : E.D.State) (name : Bytes) (cfg : Value E.R.F) (r : Bytes × Value E.R.F)
      → read_file_name E s name cfg ≡ ok r
      → good_file_name_or_candidate E s r.0 ≡ true
  unfolding read_file_name
  file-passes s name cfg r h = ground arith

  log-passes :
      (s : E.D.State) (cfg : Value E.R.F) (r : Bool × Bytes)
      → read_log E s cfg ≡ ok r
      → (not r.0 || good_file_name_or_candidate E s r.1) ≡ true
  unfolding read_log
  log-passes s cfg r h = ground arith

  read-IsUsable :
      (now : ℕ) (filepath : Bytes) (s : E.D.State) (cfg : Value E.R.F) (c : Configuration)
      → read_configuration E now filepath s cfg ≡ ok c
      → IsUsable now s c × (c.filepath ≡ filepath)
  unfolding read_configuration
  read-IsUsable now filepath s cfg c h =
      let (cron, e1, h1) = bind-ok (read_cron E now (codes "cron_string") cfg) _ c h in
      let (sched_cron, e2, h2) =
        bind-ok (read_cron E now (codes "failed_sched_cron_string") cron.1) _ c h1 in
      let (type, e3, h3) = bind-ok (read_data_type E sched_cron.1) _ c h2 in
      let (rates, e4, h4) = bind-ok (read_file_name E s (codes "data_file_name") type.1) _ c h3 in
      let (sched, e5, h5) = bind-ok (read_file_name E s (codes "sched_file_name") rates.1) _ c h4 in
      let (log, e6, h6) = bind-ok (read_log E s sched.1) _ c h5 in
      (
        record {
          cron = ground (arith, cron-passes now (codes "cron_string") cfg cron e1, h6);
          sched_cron =
              ground (
                arith,
                cron-passes now (codes "failed_sched_cron_string") cron.1 sched_cron e2,
                h6,
              );
          type = ground (arith, type-passes sched_cron.1 type e3, h6);
          data_file = ground (arith, file-passes s (codes "data_file_name") type.1 rates e4, h6);
          sched_file = ground (arith, file-passes s (codes "sched_file_name") rates.1 sched e5, h6);
          log_file = ground (arith, log-passes s sched.1 log e6, h6);
        },
        ground (arith, h6),
      )

  abbrev parsed : ℕ → Configuration → E.D.State → Result Configuration
  parsed now c s = load_from_file E.D s c.filepath >>= λ text.
      deserialize E.parse text >>= λ cfg. read_configuration E now c.filepath s cfg

  -- What the file holds is there, and each value of the configuration is that of its own entry.
  pub record IsFromFile (s : E.D.State) (filepath : Bytes) (c : Configuration) : Type 0 where
    pub text : Bytes
    pub cfg : Value E.R.F
    pub loaded : load_from_file E.D s filepath ≡ ok text
    pub parses : deserialize E.parse text ≡ ok cfg
    pub read : IsReadFrom E cfg c

  parsed_lem :
      (now : ℕ) (c : Configuration) (s : E.D.State) (c' : Configuration)
      → parsed now c s ≡ ok c'
      → IsUsable now s c' × IsFromFile s c.filepath c' × (c'.filepath ≡ c.filepath)
  parsed_lem now c s c' h =
      let (text, e1, h1) = bind-ok (load_from_file E.D s c.filepath) _ c' h in
      let (cfg, e2, h2) = bind-ok (deserialize E.parse text) _ c' h1 in
      let (usable, kept) = read-IsUsable now c.filepath s cfg c' h2 in
      let read = read_configuration-IsReadFrom E now c.filepath s cfg c' h2 in
      (usable, record { text = text; cfg = cfg; loaded = e1; parses = e2; read = read }, kept)

  -- `reload` either leaves the configuration as it was and returns false, or it returns true: the
  -- file is there then, its text parses, and each value of the configuration behind it is that of
  -- the entry of its own name, the data type in lower case and the switch of the log off where it
  -- is not there; the values are all in order, and the file's path is kept.
  pub reload_lem :
      (now : ℕ) (c : Configuration) (s : E.D.State)
      → (reload E now c s ≡ (c, false))
        ⊎ (((reload E now c s).1 ≡ true)
            × IsFromFile s c.filepath (reload E now c s).0
            × IsUsable now s (reload E now c s).0
            × ((reload E now c s).0.filepath ≡ c.filepath))
  unfolding reload
  reload_lem now c s = elim (Bool-cases (E.D.file_exists s c.filepath)) [
    | inr e ↦ inl (rw e refl)
    | inl e ↦ elim (Result-cases (parsed now c s)) [
      | inr (f, e') ↦ inl (rw (e, e') refl)
      | inl (c', e') ↦
          let (usable, from_file, kept) = parsed_lem now c s c' e' in
          inr (rw (e, e') (refl, from_file, usable, kept))
    ]
  ]
