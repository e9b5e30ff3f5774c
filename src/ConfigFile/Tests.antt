-- ===== src/ConfigFile/Tests.antt =====
-- A disk that holds its files in a list, a YAML of one document, and a configuration that is saved.
use Prim.Native.String.{◌++◌ as str_append}
use tera_agent.Base.{
  true, false, some, List, [], ◌∷◌, String, str_eq, eq_iff, if◌then◌else◌, ◌≡◌, ◌≢◌, refl, subst,
  ap, length, arith, ◌==◌,
}
use text.Mathlib.Text.{starts_with}
use tera_agent.Base.Int.{pos}
use tera_agent.Config.{Config}
use tera_agent.Failure.{Result, ok, err, not_found, not_yaml, log_outside}
use tera_agent.Printing.{Bytes}
use tera_agent.ConfigFile.{
  Stat, present, absent, Files, Paths, Yaml, wire_of, load, save, ensure_default, log_file_within,
  yaml_str_onto,
}
use tera_agent.ConfigFile.RoundTrip.{IsFiles, Reads, levelled, load-save}
use tera_agent.ConfigFile.Quoted.{read_quoted, IsOneLine, IsUnquoted, read_quoted-yaml_str_onto}

abbrev Disk : Type 0
Disk = List (String × Bytes)

read_from : String → Disk → Result Bytes
read_from path [] = err (not_found path)
read_from path ((name, content) ∷ more) =
    if str_eq name path then ok content else read_from path more

stat_of : Result Bytes → Stat
stat_of (ok _) = present
stat_of (err _) = absent

abbrev files : Files Disk
unfolding read_from stat_of
files = record {
  read = read_from;
  stat = λ path disk. stat_of (read_from path disk);
  write = λ path content disk. (ok tt, (path, content) ∷ disk);
  make_dirs = λ _ disk. (ok tt, disk);
}

found :
    (path : String) (content : Bytes) (disk : Disk)
    → (read_from path ((path, content) ∷ disk) ≡ ok content)
      × (stat_of (read_from path ((path, content) ∷ disk)) ≡ present)
unfolding read_from stat_of
found path content disk = rw ((eq_iff path path).1 refl) (refl, refl)

files-IsFiles : IsFiles files
unfolding read_from stat_of
files-IsFiles = record {
  written = λ path content w w' e.
      subst (λ v. (files.read path v ≡ ok content) × (files.stat path v ≡ present))
        (ap (λ r. r.1) e) (found path content w);
  kept = λ dir path w here. (refl, here);
}

abbrev saved : Config
saved = record {
  backend_url = "wss://erp.example/ws/agent/";
  token = "abc";
  agent_id = "";
  default_printer = "Caja";
  printers =
      record {
        name = "Caja";
        role = "pos";
        enabled = true;
        kind = "thermal";
        cut_feed_dots = pos 40;
        top_margin_dots = pos 0;
        page_margin_mm = pos 0;
        page_mode = "";
      }
      ∷ [];
  cut_feed_dots = pos 0;
  top_margin_dots = pos 0;
  page_margin_mm = pos 0;
  heartbeat_interval = pos 30000000000;
  log_level = "";
  log_file = "";
  log_max_size_mb = pos 0;
  log_max_backups = pos 0;
  http_addr = "127.0.0.1:9100";
  http_token = "";
  insecure_skip_verify = false;
  data_dir = "/var/lib/tera";
}

-- It knows the one configuration by its token.
abbrev yaml : Yaml
yaml = record {
  marshal = λ w. if str_eq w.server_token "abc" then ok (1 ∷ []) else err not_yaml;
  unmarshal = λ content. if length content == 1 then ok (wire_of saved) else err not_yaml;
}

abbrev paths : Paths
paths = record {
  join = λ a b. str_append a (str_append "/" b);
  is_abs = λ path. starts_with path "/";
  clean = λ path. path;
  rel = λ base path. if starts_with path base then some "logs/x.log" else some "../x.log";
  separator = "/";
}

abbrev disk : Disk
disk = ("tera.yaml", 1 ∷ []) ∷ []

was_saved : save files yaml "tera.yaml" saved [] ≡ (ok tt, disk)
unfolding save files
was_saved = refl

saved-Reads : Reads yaml (wire_of saved)
unfolding wire_of
saved-Reads content e = subst (λ r. yaml.unmarshal r ≡ ok (wire_of saved)) (ok_lem e) refl
  where
    ok_lem : {A : Type 0} {a b : A} → ok a ≡ ok b → a ≡ b
    ok_lem e = cc

load-save_example :
    (load files yaml "tera.yaml" disk ≡ ok (levelled saved))
    × (load files yaml "tera.yaml" (ensure_default files paths "tera.yaml" "/var" disk).1
        ≡ ok (levelled saved))
    × ((ensure_default files paths "tera.yaml" "/var" disk).0 ≢ ok true)
load-save_example =
    load-save files yaml files-IsFiles paths "tera.yaml" "/var" saved [] disk
      (30, refl, omega arith) saved-Reads was_saved

-- A first start writes a configuration.
first_start : (ensure_default files paths "tera.yaml" "/var" []).0 ≡ ok true
unfolding ensure_default files
first_start = refl

log_outside_lem :
    log_file_within paths "/etc/passwd" "/var" ≡ err (log_outside "/etc/passwd" "/var")
unfolding log_file_within
log_outside_lem = refl

read_quoted-yaml_str_onto_example :
    read_quoted (yaml_str_onto "C:\\O'Brien" " # datos") ≡ some ("C:\\O'Brien", " # datos")
unfolding IsOneLine IsUnquoted
read_quoted-yaml_str_onto_example =
    read_quoted-yaml_str_onto "C:\\O'Brien" " # datos" (ground arith) refl
