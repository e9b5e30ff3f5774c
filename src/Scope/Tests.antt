-- ===== src/Scope/Tests.antt =====
-- A system whose YAML is of one configuration, its start, its setup and its registration.
use Prim.Native.String.{◌++◌ as str_append}
use native.Mathlib.Decide.{ℕ_discrete}
use tera_agent.Base.{
  ℕ, Bool, true, false, Option, none, some, List, [], ◌∷◌, map, String, str_eq, eq_iff,
  if◌then◌else◌, ◌≡◌, ◌≢◌, refl, ap, subst, sym, length, ◌==◌, arith,
}
use tera_agent.Base.Duration.{times_second, whole_seconds}
use tera_agent.Base.Int.{pos}
use tera_agent.Config.{Config}
use tera_agent.Failure.{Result, ok, err, not_found, not_yaml}
use tera_agent.Printing.{Bytes}
use tera_agent.Texts.{trim, utf8}
use tera_agent.ConfigFile.{
  Stat, present, absent, Files, Paths, Wire, Yaml, wire_of, config_of, default_yaml,
  validate_backend_url, load, save, ensure_default,
}
use tera_agent.ConfigFile.RoundTrip.{IsFiles, Reads}
use tera_agent.Scope.{
  service, System, windows_folder, parse_scope, config_path, resolve_config_path, prepare_for_run,
  setup_data,
}
use tera_agent.Scope.Acl.{Ace, Grant, Acls, windows, access_allowed, can_write}
use tera_agent.Panel.Routes.{serve_all}
use tera_agent.Panel.Routes.ReadOnly.{IsConnectionOf}
use tera_agent.Panel.Routes.Tests.{deps, hosts, mux, encode, calls, panel}
use tera_agent.Scope.Guarded.{IsSealed, prepare_for_run-IsGuarded, setup_data-IsSealed}
use tera_agent.Scope.Register.{register}
use tera_agent.Scope.Register.Saved.{IsSystem, IsRegistered, register-IsRegistered}
use tera_agent.Scope.Acl.Closed.{IsProtected, IsAcls}

decide : (s t : String) (b : Bool) → str_eq s t ≡ b → Dec (s ≡ t)
decide s t true e = yes ((eq_iff s t).0 e)
decide s t false e = no (λ p. ground (arith, e, (eq_iff s t).1 p))

str_discrete : Discrete String
unfolding decide
str_discrete s t = decide s t (str_eq s t) refl

wire_discrete : Discrete Wire
wire_discrete = hlevel (ℕ_discrete, str_discrete)

-- The files, and the lists of the folders.
record World : Type 0 where
  disk : List (String × Bytes)
  lists : List (String × List (Result Ace))

read_from : List (String × Bytes) → String → Result Bytes
read_from [] path = err (not_found path)
read_from ((name, content) ∷ more) path =
    if str_eq name path then ok content else read_from more path

stat_of : Result Bytes → Stat
stat_of (ok _) = present
stat_of (err _) = absent

abbrev files : Files World
unfolding read_from stat_of
files = record {
  read = λ path w. read_from w.disk path;
  stat = λ path w. stat_of (read_from w.disk path);
  write = λ path content w. (ok tt, record w { disk = (path, content) ∷ w.disk });
  make_dirs = λ _ w. (ok tt, w);
}

found :
    (path : String) (content : Bytes) (w : World)
    → (files.read path (files.write path content w).1 ≡ ok content)
      × (files.stat path (files.write path content w).1 ≡ present)
unfolding read_from stat_of files
found path content w = rw ((eq_iff path path).1 refl) (refl, refl)

files-IsFiles : IsFiles files
unfolding files
files-IsFiles = record {
  written = λ path content w w' e.
      subst (λ v. (files.read path v ≡ ok content) × (files.stat path v ≡ present))
        (ap (λ r. r.1) e) (found path content w);
  kept = λ dir path w here. (refl, here);
}

list_of : List (String × List (Result Ace)) → String → Result (Option (List (Result Ace)))
list_of [] dir = err (not_found dir)
list_of ((name, aces) ∷ more) dir = if str_eq name dir then ok (some aces) else list_of more dir

-- The rights of files that the generic ones stand for.
file_mask : ℕ → ℕ
file_mask access = if access == 0x10000000 then 0x1F01FF else 0x1200A9

ace : Grant → Result Ace
unfolding file_mask
ace g = ok (record { ace_type = access_allowed; mask = file_mask g.access; sid = g.trustee })

abbrev acls : Acls World
unfolding list_of ace
acls = record {
  well_known = ok (record {
    system = "S-1-5-18";
    admins = "S-1-5-32-544";
    users = "S-1-5-32-545";
    creator_owner = "S-1-3-0";
  });
  dacl = λ dir w. list_of w.lists dir;
  protect = λ dir grants owner w. (ok tt, record w { lists = (dir, map ace grants) ∷ w.lists });
}

set :
    (dir owner : String) (grants : List Grant) (w : World)
    → acls.dacl dir (acls.protect dir grants owner w).1 ≡ ok (some (map ace grants))
unfolding list_of acls
set dir owner grants w = rw ((eq_iff dir dir).1 refl) refl

acls-IsAcls : IsAcls acls
unfolding acls list_of ace file_mask can_write
acls-IsAcls = record {
  file_mask = file_mask;
  reads_only = refl;
  protected = λ dir owner grants w w' e.
      subst (λ v. acls.dacl dir v ≡ ok (some (map ace grants))) (ap (λ r. r.1) e)
        (set dir owner grants w);
  others = λ dir other owner grants w apart. ground (arith, eq_iff dir other, apart);
}

abbrev fresh : Config
fresh = record {
  backend_url = "wss://erp.example/ws/agent/";
  token = "";
  agent_id = "";
  default_printer = "";
  printers = [];
  cut_feed_dots = pos 0;
  top_margin_dots = pos 0;
  page_margin_mm = pos 0;
  heartbeat_interval = pos 0;
  log_level = "info";
  log_file = "";
  log_max_size_mb = pos 0;
  log_max_backups = pos 0;
  http_addr = "127.0.0.1:9100";
  http_token = "";
  insecure_skip_verify = false;
  data_dir = "C:\\ProgramData/TeraAgent";
}

abbrev registered : Wire
registered = wire_of (record fresh { token = "abc" })

document : (wire : Wire) → Dec (wire ≡ registered) → Result Bytes
document wire (yes _) = ok (1 ∷ [])
document wire (no _) = err not_yaml

-- It writes the registered configuration only, and reads what else is there as the first one.
abbrev yaml : Yaml
unfolding document
yaml = record {
  marshal = λ wire. document wire (wire_discrete wire registered);
  unmarshal = λ content. ok (if length content == 1 then registered else wire_of fresh);
}

yaml-Reads : (wire : Wire) → Reads yaml wire
unfolding yaml
yaml-Reads wire content = by (wire_discrete wire registered)
  where
    ok_lem : {A : Type 0} {a b : A} → ok a ≡ ok b → a ≡ b
    ok_lem e = cc

    by :
        (q : Dec (wire ≡ registered))
        → document wire q ≡ ok content
        → yaml.unmarshal content ≡ ok wire
    by (yes p) e = subst (λ c. yaml.unmarshal c ≡ ok wire) (ok_lem e) (ap ok (sym p))
    by (no n) e = ground (arith, e)

abbrev paths : Paths
paths = record {
  join = λ a b. str_append a (str_append "/" b);
  is_abs = λ path. true;
  clean = λ path. path;
  rel = λ base path. none;
  separator = "/";
}

abbrev system : System World
unfolding files acls yaml windows windows_folder
system = record {
  files = files;
  paths = paths;
  yaml = yaml;
  parse_url = λ _. some ("wss", "erp.example");
  text_of = λ _. "abc";
  data_dir = windows_folder paths (ok "C:\\ProgramData") (ok "C:\\Users\\Ana");
  fsacl = windows acls;
  ask = λ w. ("", w);
  ask_secret = λ w. (ok "abc", w);
  restart = λ w. (ok tt, w);
}

abbrev empty : World
empty = record { disk = []; lists = [] }

secured : World
secured = (setup_data system ("--scope" ∷ "service" ∷ []) empty).1

was_set_up : setup_data system ("--scope" ∷ "service" ∷ []) empty ≡ (ok tt, secured)
unfolding setup_data secured system parse_scope ensure_default
was_set_up = refl

starts :
    prepare_for_run system "" "service" secured
    ≡ (ok "C:\\ProgramData/TeraAgent/config.yaml", true, secured)
unfolding prepare_for_run secured system setup_data resolve_config_path ensure_default
starts = refl

prepare_for_run-IsGuarded_example :
    ((dir : String) × (system.data_dir service ≡ ok dir) × IsProtected acls dir secured)
    × IsConnectionOf (deps true) panel.cfg (serve_all (deps true) hosts mux encode calls panel).cfg
unfolding system
prepare_for_run-IsGuarded_example =
    prepare_for_run-IsGuarded system acls refl (deps true) hosts mux encode calls panel ""
      "C:\\ProgramData/TeraAgent/config.yaml" true secured secured starts refl

logs_apart : (dir : String) → system.data_dir service ≡ ok dir → system.paths.join dir "logs" ≢ dir
unfolding system windows_folder
logs_apart dir e =
    subst (λ (d : Result String). Apart d) e
      (λ p.
        ground (arith, (eq_iff "C:\\ProgramData/TeraAgent/logs" "C:\\ProgramData/TeraAgent").1 p))
  where
    Apart : Result String → Type 0
    Apart (ok d) = paths.join d "logs" ≢ d
    Apart (err _) = Unit

setup_data-IsSealed_example : IsSealed system secured
unfolding system
setup_data-IsSealed_example =
    setup_data-IsSealed system acls acls-IsAcls empty secured refl logs_apart was_set_up

system-IsSystem : IsSystem system
unfolding system
system-IsSystem = record { files = files-IsFiles; restarts = λ path w. refl; reads = yaml-Reads }

enrolled : World
enrolled = (register system [] secured).1

was_registered : register system [] secured ≡ (ok "C:\\ProgramData/TeraAgent/config.yaml", enrolled)
unfolding register enrolled secured setup_data system parse_scope ensure_default load save trim utf8
    wire_of config_of config_path validate_backend_url default_yaml wire_discrete document
    str_discrete ℕ_discrete whole_seconds times_second
was_registered = refl

register-IsRegistered_example : IsRegistered system "C:\\ProgramData/TeraAgent/config.yaml" enrolled
register-IsRegistered_example =
    register-IsRegistered system system-IsSystem [] "C:\\ProgramData/TeraAgent/config.yaml" secured
      enrolled was_registered
