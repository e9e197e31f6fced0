-- ===== src/Tests/Settings.antt =====
-- The theorems on the configuration, on a disk with one file and a parser that knows its text.
use test_assignment.Prelude.{◌+◌, true, false, some, List, [], ◌∷◌, Bytes, codes, ◌≡◌, ◌⊎◌, refl}
use test_assignment.Prelude.Int.{ℤ}
use test_assignment.Prelude.Result.{ok}
use test_assignment.Map.{insert, lookup}
use test_assignment.Disk.{save_to_file, load_from_file}
use test_assignment.Text.{strtolower}
use test_assignment.Text.Split.{cut, string_starts_from}
use test_assignment.Json.Member.{set_key, at_key, own_fields, key_exists}
use test_assignment.Json.Object.{as_string, as_boolean}
use test_assignment.Json.Print.{serialize}
use test_assignment.Json.Print.Escape.{escape}
use test_assignment.Utf8.{from_utf8, utf8_to_ucs}
use test_assignment.Json.Translate.{
  Node, deserialize, translate, translate_object, c_str, object_node, pair, no_pair, string_node,
  bool_node,
}
use test_assignment.Schedule.File.{ReadsBack}
use test_assignment.Config.{
  Configuration, Surroundings, has_next, reload, store, as_json, read_configuration, read_cron,
  read_data_type, read_file_name, read_log, read_string, good_file_name_or_candidate,
}
use test_assignment.Config.Reload.{IsUsable, IsFromFile, reload_lem, plain_name-passes}
use test_assignment.Config.File.{reload-store}
use test_assignment.Tests.World.{test_real, test_disk, test_disk-IsLawful}

-- a parser that knows one text
abbrev test_node : Node ℤ
test_node = object_node (
    pair (codes "cron_string") (string_node (codes "*")) (
      pair (codes "data_file_name") (string_node (codes "d")) (
        pair (codes "enable_log_file") (bool_node true) (
          pair (codes "failed_sched_cron_string") (string_node (codes "+")) (
            pair (codes "fetched_data_type") (string_node (codes "json")) (
              pair (codes "log_file_name") (string_node (codes "l"))
                (pair (codes "sched_file_name") (string_node (codes "s")) no_pair)))))))

abbrev surroundings : Surroundings
surroundings = record {
  R = test_real;
  D = test_disk;
  dir_exists = λ s dir. false;
  parse = λ text. ok test_node;
  Expression = Bytes;
  make_cron = λ text. ok text;
  cron_next = λ x now. some (now + 60);
}

abbrev settings : Configuration
settings = record {
  filepath = codes "c";
  cron_string = codes "*";
  failed_sched_cron_string = codes "+";
  fetched_data_type = codes "json";
  data_file_name = codes "d";
  sched_file_name = codes "s";
  enable_log_file = true;
  log_file_name = codes "l";
}

abbrev old_settings : Configuration
old_settings = record settings { enable_log_file = false; log_file_name = [] }

-- The file is there, and so are those that it names.
abbrev settings_disk : List (Bytes × Bytes)
settings_disk = (codes "c", codes "{}") ∷ (codes "d", []) ∷ (codes "s", []) ∷ (codes "l", []) ∷ []

reload_lem_example :
    (reload surroundings 0 old_settings settings_disk ≡ (old_settings, false))
    ⊎ (((reload surroundings 0 old_settings settings_disk).1 ≡ true)
        × IsFromFile surroundings settings_disk
            (codes "c")
            (reload surroundings 0 old_settings settings_disk).0
        × IsUsable surroundings 0 settings_disk (reload surroundings 0 old_settings settings_disk).0
        × ((reload surroundings 0 old_settings settings_disk).0.filepath ≡ codes "c"))
reload_lem_example = reload_lem surroundings 0 old_settings settings_disk

-- It is read.
reload_result : reload surroundings 0 old_settings settings_disk ≡ (settings, true)
unfolding reload load_from_file strtolower read_configuration read_cron read_data_type
    read_file_name read_log read_string has_next good_file_name_or_candidate deserialize translate
    translate_object c_str set_key at_key own_fields lookup insert key_exists as_string as_boolean
reload_result = refl

settings-ReadsBack : ReadsBack test_real surroundings.parse (as_json surroundings settings)
unfolding deserialize translate translate_object c_str set_key at_key own_fields lookup insert
settings-ReadsBack text e = refl

settings-IsUsable : IsUsable surroundings 0 (store surroundings settings []).0 settings
unfolding has_next cut string_starts_from
settings-IsUsable = record {
  cron = refl;
  sched_cron = refl;
  type = refl;
  data_file = plain_name-passes surroundings _ (codes "d") refl refl;
  sched_file = plain_name-passes surroundings _ (codes "s") refl refl;
  log_file = plain_name-passes surroundings _ (codes "l") refl refl;
}

reload-store_example :
    reload surroundings 0 old_settings (store surroundings settings []).0 ≡ (settings, true)
unfolding store save_to_file serialize set_key insert escape from_utf8 utf8_to_ucs
reload-store_example =
    reload-store surroundings 0 settings old_settings [] test_disk-IsLawful settings-ReadsBack refl
      refl settings-IsUsable
