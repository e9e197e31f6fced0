-- ===== src/Config/File.antt =====
-- src/configuration.hpp: a configuration through its file.
use test_assignment.Prelude.{
  ℕ, true, false, ◌||◌, not, Bytes, codes, ◌≡◌, refl, sym, ap, ◌≢◌, inl, inr, arith, ◌∙◌,
}
use test_assignment.Prelude.Order.{bytes_order}
use test_assignment.Prelude.Result.{ok, err, Result-cases, Failure}
use test_assignment.Map.{lookup, insert, member}
use test_assignment.Text.{strtolower}
use test_assignment.Disk.{load_from_file, save_to_file, IsLawful}
use test_assignment.Json.Value.{Value}
use test_assignment.Json.Member.{at_key, set_key, own_fields, key_exists}
use test_assignment.Json.Object.{as_string, as_boolean}
use test_assignment.Json.Print.{serialize}
use test_assignment.Json.Translate.{deserialize}
use test_assignment.Schedule.File.{ReadsBack}
use test_assignment.Config.{
  Configuration, Surroundings, good_file_name_or_candidate, read_string, has_next, read_cron,
  read_data_type, read_file_name, read_log, read_configuration, reload, store, as_json,
}
use test_assignment.Config.Reload.{IsUsable}

module _ (E : Surroundings) where
  -- Each text is read from what is printed of the configuration, which it leaves as it is.
  module _ (c : Configuration) where
    Reads : Bytes → Bytes → Type 0
    Reads name text = read_string E name (as_json E c) ≡ ok (text, as_json E c)

    Reads-cron_string : Reads (codes "cron_string") c.cron_string
    unfolding Reads read_string as_string set_key at_key own_fields lookup insert
    Reads-cron_string = refl

    Reads-failed_sched_cron_string :
        Reads (codes "failed_sched_cron_string") c.failed_sched_cron_string
    unfolding Reads read_string as_string set_key at_key own_fields lookup insert
    Reads-failed_sched_cron_string = refl

    Reads-fetched_data_type : Reads (codes "fetched_data_type") c.fetched_data_type
    unfolding Reads read_string as_string set_key at_key own_fields lookup insert
    Reads-fetched_data_type = refl

    Reads-data_file_name : Reads (codes "data_file_name") c.data_file_name
    unfolding Reads read_string as_string set_key at_key own_fields lookup insert
    Reads-data_file_name = refl

    Reads-sched_file_name : Reads (codes "sched_file_name") c.sched_file_name
    unfolding Reads read_string as_string set_key at_key own_fields lookup insert
    Reads-sched_file_name = refl

    Reads-log_file_name : Reads (codes "log_file_name") c.log_file_name
    unfolding Reads read_string as_string set_key at_key own_fields lookup insert
    Reads-log_file_name = refl

    log_name :
        (s : E.D.State)
        → (not c.enable_log_file || good_file_name_or_candidate E s c.log_file_name) ≡ true
        → read_log E s (as_json E c) ≡ ok (c.enable_log_file, c.log_file_name)
    unfolding read_log Reads key_exists member as_boolean set_key at_key own_fields lookup insert
    log_name s h = rw (Reads-log_file_name, h) refl

  cron_is :
      (now : ℕ) (name text : Bytes) (cfg : Value E.R.F)
      → read_string E name cfg ≡ ok (text, cfg)
      → has_next E now text ≡ ok true
      → read_cron E now name cfg ≡ ok (text, cfg)
  unfolding read_cron
  cron_is now name text cfg e h = rw (e, h) refl

  type_is :
      (text : Bytes) (cfg : Value E.R.F)
      → read_string E (codes "fetched_data_type") cfg ≡ ok (text, cfg)
      → text ≡ codes "json"
      → read_data_type E cfg ≡ ok (text, cfg)
  unfolding read_data_type strtolower
  type_is text cfg e h = rw (e, h) refl

  file_is :
      (s : E.D.State) (name text : Bytes) (cfg : Value E.R.F)
      → read_string E name cfg ≡ ok (text, cfg)
      → good_file_name_or_candidate E s text ≡ true
      → read_file_name E s name cfg ≡ ok (text, cfg)
  unfolding read_file_name
  file_is s name text cfg e h = rw (e, h) refl

  printed_is :
      (now : ℕ) (c : Configuration) (s : E.D.State)
      → IsUsable E now s c
      → read_configuration E now c.filepath s (as_json E c) ≡ ok c
  unfolding read_configuration Reads
  printed_is now c s u =
      rw
        (
          cron_is now (codes "cron_string") c.cron_string (as_json E c) (Reads-cron_string c)
              u.cron,
          cron_is now (codes "failed_sched_cron_string") c.failed_sched_cron_string (as_json E c)
              (Reads-failed_sched_cron_string c) u.sched_cron,
          type_is c.fetched_data_type (as_json E c) (Reads-fetched_data_type c) u.type,
          file_is s (codes "data_file_name") c.data_file_name (as_json E c) (Reads-data_file_name c)
              u.data_file,
          file_is s (codes "sched_file_name") c.sched_file_name (as_json E c)
              (Reads-sched_file_name c) u.sched_file,
          log_name c s u.log_file,
        )
        refl

  reload_of :
      (now : ℕ) (old : Configuration) (s : E.D.State) (text : Bytes) (cfg : Value E.R.F)
      (c : Configuration)
      → E.D.file_exists s old.filepath ≡ true
      → E.D.contents s old.filepath ≡ text
      → deserialize E.parse text ≡ ok cfg
      → read_configuration E now old.filepath s cfg ≡ ok c
      → reload E now old s ≡ (c, true)
  unfolding reload load_from_file
  reload_of now old s text cfg c there holds parsed reads = rw (there, holds, parsed, reads) refl

  store_writes :
      (c : Configuration) (s : E.D.State) (text : Bytes)
      → serialize E.R false (as_json E c) ≡ ok text
      → store E c s ≡ E.D.write s c.filepath text
  unfolding store save_to_file
  store_writes c s text e = rw (e, store) refl

  store_fails :
      (c : Configuration) (s : E.D.State) (f : Failure)
      → serialize E.R false (as_json E c) ≡ err f
      → (store E c s).1 ≢ true
  unfolding store
  store_fails c s f e done = ground (arith, e)

  kept :
      (c : Configuration) (s : E.D.State) (text : Bytes)
      → IsLawful E.D
      → store E c s ≡ E.D.write s c.filepath text
      → (store E c s).1 ≡ true
      → (E.D.file_exists (store E c s).0 c.filepath ≡ true)
        × (E.D.contents (store E c s).0 c.filepath ≡ text)
  kept c s text laws written done =
      let done' = sym (ap (λ x. x.1) written) ∙ done in
      (
        ap (λ x. E.D.file_exists x.0 c.filepath) written
            ∙ laws.exists-write s c.filepath text done',
        ap (λ x. E.D.contents x.0 c.filepath) written ∙ laws.contents-write s c.filepath text done',
      )

  -- A configuration whose values are in order, and that is written to its file, is what `reload`
  -- reads from it, if the parser reads back what is printed of it and the disk does what is
  -- documented.
  pub reload-store :
      (now : ℕ) (c old : Configuration) (s : E.D.State)
      → IsLawful E.D
      → ReadsBack E.R E.parse (as_json E c)
      → old.filepath ≡ c.filepath
      → (store E c s).1 ≡ true
      → IsUsable E now (store E c s).0 c
      → reload E now old (store E c s).0 ≡ (c, true)
  reload-store now c old s laws reads same_file done u =
      elim (Result-cases (serialize E.R false (as_json E c))) [
        | inl (text, e) ↦
            let written = store_writes c s text e in
            let (there, holds) = kept c s text laws written done in
            reload_of now old (store E c s).0 text (as_json E c) c (rw same_file there)
              (rw same_file holds) (reads text e)
              (rw same_file (printed_is now c (store E c s).0 u))
        | inr (f, e) ↦ absurd (store_fails c s f e done)
      ]
