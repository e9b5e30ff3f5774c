-- ===== src/ConfigFile.antt =====
-- internal/adapters/config/file.go: the configuration as a YAML file, and the first one of an
-- installation. `Files` is what the source uses of `os`, `Paths` of `path/filepath`; `Yaml` is the YAML
-- of a `Wire`, and `parse_url` is `url.Parse`. The modes of files and folders are left out.
pub mod Quoted
pub mod RoundTrip
mod Tests
use Prim.Native.Char.{code}
use Prim.Native.String.{◌++◌ as str_append}
use tera_agent.Base.{
  ℕ, Bool, true, false, ◌||◌, ◌&&◌, not, Option, none, some, List, [], ◌∷◌, map, String, str_eq,
  ◌==◌, if◌then◌else◌,
}
use text.Mathlib.Text.{starts_with}
use tera_agent.Base.Duration.{times_second, whole_seconds}
use tera_agent.Base.Int.{ℤ}
use tera_agent.Config.{Config, ManagedPrinter, default_backend_url}
use tera_agent.Texts.{utf8}
use tera_agent.Failure.{
  Error, Result, ok, err, ◌>>=◌, bad_url, bad_scheme, no_host, log_not_absolute, log_outside,
  not_yaml,
}
use tera_agent.Printing.{Bytes}

-- What `os.Stat` finds: a file, none, or another error.
pub data Stat : Type 0 where
  present : Stat
  absent : Stat
  unknown : Error → Stat

pub record Files (W : Type 0) : Type 0 where
  pub read : String → W → Result Bytes
  pub stat : String → W → Stat
  pub write : String → Bytes → W → Result (Unit {0}) × W
  pub make_dirs : String → W → Result (Unit {0}) × W

pub record Paths : Type 0 where
  pub join : String → String → String
  pub is_abs : String → Bool
  pub clean : String → String
  pub rel : String → String → Option String
  pub separator : String

-- The scheme and the host of a URL.
abbrev pub UrlParser : Type 0
UrlParser = String → Option (String × String)

-- `ValidateBackendURL`.
unfoldable pub validate_backend_url : UrlParser → String → Result (Unit {0})
validate_backend_url parse_url raw = elim (parse_url raw) [
  | none ↦ err (bad_url raw)
  | some (scheme, host) ↦
      if not (str_eq scheme "wss") && not (str_eq scheme "ws")
      then err (bad_scheme scheme)
      else if str_eq host ""
      then err no_host
      else ok tt
]

is_outside : Paths → Option String → Bool
is_outside paths none = true
is_outside paths (some rel) = str_eq rel ".." || starts_with rel (str_append ".." paths.separator)

-- `LogFileWithin`.
unfoldable pub log_file_within : Paths → String → String → Result (Unit {0})
unfolding is_outside
log_file_within paths log_file data_dir =
    if str_eq log_file ""
    then ok tt
    else if not (paths.is_abs log_file)
    then err (log_not_absolute log_file)
    else if is_outside paths (paths.rel (paths.clean data_dir) (paths.clean log_file))
    then err (log_outside log_file data_dir)
    else ok tt

pub record WirePrinter : Type 0 where
  pub name : String
  pub role : String
  pub enabled : Bool
  pub kind : String
  pub cut_feed_dots : ℤ
  pub top_margin_dots : ℤ
  pub page_margin_mm : ℤ
  pub page_mode : String

-- `wire`, its groups side by side.
pub record Wire : Type 0 where
  pub server_url : String
  pub server_token : String
  pub insecure_skip_verify : Bool
  pub agent_id : String
  pub data_dir : String
  pub printer_default : String
  pub cut_feed_dots : ℤ
  pub top_margin_dots : ℤ
  pub page_margin_mm : ℤ
  pub managed : List WirePrinter
  pub heartbeat_seconds : ℤ
  pub http_addr : String
  pub http_token : String
  pub log_level : String
  pub log_file : String
  pub log_max_size_mb : ℤ
  pub log_max_backups : ℤ

pub record Yaml : Type 0 where
  pub marshal : Wire → Result Bytes
  pub unmarshal : Bytes → Result Wire

unfoldable pub printer_of : WirePrinter → ManagedPrinter
printer_of p = record {
  name = p.name;
  role = p.role;
  enabled = p.enabled;
  kind = p.kind;
  cut_feed_dots = p.cut_feed_dots;
  top_margin_dots = p.top_margin_dots;
  page_margin_mm = p.page_margin_mm;
  page_mode = p.page_mode;
}

unfoldable pub wire_printer_of : ManagedPrinter → WirePrinter
wire_printer_of p = record {
  name = p.name;
  role = p.role;
  enabled = p.enabled;
  kind = p.kind;
  cut_feed_dots = p.cut_feed_dots;
  top_margin_dots = p.top_margin_dots;
  page_margin_mm = p.page_margin_mm;
  page_mode = p.page_mode;
}

-- The code of a single quote.
abbrev pub quote : ℕ
quote = 39

abbrev pub level_of : String → String
level_of level = if str_eq level "" then "info" else level

-- The configuration that `Load` makes of the file.
unfoldable pub config_of : Wire → Config
unfolding printer_of
config_of w = record {
  backend_url = w.server_url;
  token = w.server_token;
  agent_id = w.agent_id;
  default_printer = w.printer_default;
  printers = map printer_of w.managed;
  cut_feed_dots = w.cut_feed_dots;
  top_margin_dots = w.top_margin_dots;
  page_margin_mm = w.page_margin_mm;
  heartbeat_interval = times_second w.heartbeat_seconds;
  log_level = level_of w.log_level;
  log_file = w.log_file;
  log_max_size_mb = w.log_max_size_mb;
  log_max_backups = w.log_max_backups;
  http_addr = w.http_addr;
  http_token = w.http_token;
  insecure_skip_verify = w.insecure_skip_verify;
  data_dir = w.data_dir;
}

-- What `Save` writes of it.
unfoldable pub wire_of : Config → Wire
unfolding wire_printer_of
wire_of c = record {
  server_url = c.backend_url;
  server_token = c.token;
  insecure_skip_verify = c.insecure_skip_verify;
  agent_id = c.agent_id;
  data_dir = c.data_dir;
  printer_default = c.default_printer;
  cut_feed_dots = c.cut_feed_dots;
  top_margin_dots = c.top_margin_dots;
  page_margin_mm = c.page_margin_mm;
  managed = map wire_printer_of c.printers;
  heartbeat_seconds = whole_seconds c.heartbeat_interval;
  http_addr = c.http_addr;
  http_token = c.http_token;
  log_level = c.log_level;
  log_file = c.log_file;
  log_max_size_mb = c.log_max_size_mb;
  log_max_backups = c.log_max_backups;
}

-- The rest of a quoted text, with its quotes doubled, and what follows it.
pub quote_onto : String → String → String
quote_onto String.[] rest = String.◌∷◌ "'" rest
quote_onto (String.◌∷◌ c s) rest =
    let more = String.◌∷◌ c (quote_onto s rest) in
    if code c == quote then String.◌∷◌ c more else more

-- `yamlStr`, with what follows it.
unfoldable pub yaml_str_onto : String → String → String
unfolding quote_onto
yaml_str_onto s rest = String.◌∷◌ "'" (quote_onto s rest)

abbrev yaml_str : String → String
yaml_str s = yaml_str_onto s ""

abbrev pub log_subdir : String
log_subdir = "logs"

-- `strings.Join` of lines.
join_lines : List String → String
join_lines [] = ""
join_lines (x ∷ []) = x
join_lines (x ∷ y ∷ ys) = str_append x (str_append "\n" (join_lines (y ∷ ys)))

-- `DefaultYAML`.
unfoldable pub default_yaml : Paths → String → String
unfolding yaml_str_onto join_lines
default_yaml paths data_dir =
    let log_file = paths.join (paths.join data_dir log_subdir) "tera-agent.log" in
    join_lines (
      "# Tera Agent - configuracion. Registra el equipo desde el panel:"
      ∷ "#   http://127.0.0.1:9180"
      ∷ "server:"
      ∷ str_append "  url: " (str_append (yaml_str default_backend_url) " # vacio = modo local")
      ∷ "  token: '' # lo emite el Backend; se rellena al registrar"
      ∷ "printer:"
      ∷ "  default: ''"
      ∷ "http:"
      ∷ str_append "  addr: " (yaml_str "127.0.0.1:9100")
      ∷ "  token: ''"
      ∷ str_append "data_dir: " (yaml_str data_dir)
      ∷ "log:"
      ∷ str_append "  level: " (yaml_str "info")
      ∷ str_append "  file: " (yaml_str log_file)
      ∷ ""
      ∷ [])

module _ {W : Type 0} (files : Files W) where
  unfoldable pub load : Yaml → String → W → Result Config
  unfolding config_of
  load yaml path w = do
    content ← files.read path w
    wire ← yaml.unmarshal content
    ok (config_of wire)

  save_marshalled : String → Result Bytes → W → Result (Unit {0}) × W
  save_marshalled path (err e) w = (err e, w)
  save_marshalled path (ok content) w = files.write path content w

  unfoldable pub save : Yaml → String → Config → W → Result (Unit {0}) × W
  unfolding wire_of save_marshalled
  save yaml path c w = save_marshalled path (yaml.marshal (wire_of c)) w

  default_written : Result (Unit {0}) × W → Result Bool × W
  default_written (err e, w) = (err e, w)
  default_written (ok _, w) = (ok true, w)

  -- What `EnsureDefault` does after `os.Stat`.
  ensure_found : Paths → String → String → Stat → W → Result Bool × W
  unfolding default_written default_yaml
  ensure_found paths path data_dir present w = (ok false, w)
  ensure_found paths path data_dir (unknown e) w = (err e, w)
  ensure_found paths path data_dir absent w =
      default_written (files.write path (utf8 (default_yaml paths data_dir)) w)

  ensure_made : Paths → String → String → Result (Unit {0}) × W → Result Bool × W
  unfolding ensure_found
  ensure_made paths path data_dir (err e, w) = (err e, w)
  ensure_made paths path data_dir (ok _, w) = ensure_found paths path data_dir (files.stat path w) w

  unfoldable pub ensure_default : Paths → String → String → W → Result Bool × W
  unfolding ensure_made
  ensure_default paths path data_dir w =
      ensure_made paths path data_dir (files.make_dirs (paths.join data_dir log_subdir) w)
