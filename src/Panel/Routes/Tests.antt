-- ===== src/Panel/Routes/Tests.antt =====
-- A panel with a multiplexer of exact paths, and requests that change its configuration.
use Prim.Native.String.{◌++◌ as str_append}
use tera_agent.Base.{
  ℕ, suc, Bool, true, false, ◌||◌, ◌&&◌, none, some, List, [], ◌∷◌, ◌≡◌, ◌⊎◌, inl, inr, refl,
  eq_iff, Bool-cases, String, str_eq, if◌then◌else◌, length, ◌==◌, Memᴰ, arith,
}
use tera_agent.Base.Int.{pos, negsuc}
use tera_agent.Config.{Config, ManagedPrinter}
use tera_agent.Failure.{ok, err, not_yaml, external}
use tera_agent.Panel.{Names, Request, Hosts, new_guard, same_origin, wrap, is_json}
use tera_agent.Panel.Reach.{IsLocal, IsOwn}
use tera_agent.Panel.Server.{
  settings_shown, Deps, Panel, Reply, Call, Settings, Managing, save, tune, persist, answered,
}
use tera_agent.Texts.{trim, utf8}
use tera_agent.Panel.Managed.{clamp}
use tera_agent.Panel.Server.Printers.{printers_manage}
use tera_agent.Panel.Server.Connection.{
  config, change_settings, apply_url, validate_backend_url, apply_connection_change, apply_rest,
  apply_token, token_hint,
}
use tera_agent.Panel.Managed.Laws.{margin_room}
use tera_agent.Panel.Routes.{Pattern, Route, found, unrouted, Mux, patterns, served, serve_all}
use tera_agent.Panel.Routes.Own.{IsMux, Reads, served-IsOwn}
use tera_agent.Panel.Routes.Secret.{same_end, with_secret, served-with_secret}
use tera_agent.Panel.Routes.ReadOnly.{IsConnectionOf, serve_all-IsConnectionOf}
use tera_agent.Panel.Routes.Sound.{IsSound, serve_all-IsSound}

abbrev names : Names
names = record {
  lower = λ s. s;
  equal_fold = str_eq;
  split_host_port =
      λ addr. if str_eq addr "127.0.0.1:9180" then some ("127.0.0.1", "9180") else none;
  join_host_port = λ host port. str_append host (str_append ":" port);
  is_loopback_ip = λ host. str_eq host "127.0.0.1";
  media_type = λ s. some s;
}

abbrev pub hosts : Hosts
hosts = "localhost:9180" ∷ "127.0.0.1:9180" ∷ "127.0.0.1:9180" ∷ []

made : new_guard names "127.0.0.1:9180" ≡ some hosts
unfolding new_guard
made = refl

takes : Pattern → String → String → Bool
takes p method path =
    (str_eq p.method method || (str_eq p.method "GET" && str_eq method "HEAD"))
    && str_eq p.path path

-- The first pattern of the method and the path.
pub mux : Mux
unfolding takes
mux [] method path = unrouted 404
mux (p ∷ ps) method path = if takes p method path then found p.route else mux ps method path

takes-method :
    (p : Pattern) (method path : String)
    → takes p method path ≡ true
    → (p.method ≡ method) ⊎ ((p.method ≡ "GET") × (method ≡ "HEAD"))
unfolding takes
takes-method p method path e =
    ground (arith, eq_iff p.method method, eq_iff p.method "GET", eq_iff method "HEAD")

Picks : List Pattern → String → Route → Type 0
Picks ps method route =
    (p : Pattern) × Memᴰ p ps
    × (p.route ≡ route)
    × ((p.method ≡ method) ⊎ ((p.method ≡ "GET") × (method ≡ "HEAD")))

mux-Picks :
    (ps : List Pattern) (method path : String) (route : Route)
    → mux ps method path ≡ found route
    → Picks ps method route
unfolding mux Picks
mux-Picks [] method path route e = ground arith
mux-Picks (p ∷ ps) method path route e = elim (Bool-cases (takes p method path)) [
  | inl t ↦ (p, Memᴰ.head refl, ground (arith, t, e), takes-method p method path t)
  | inr f ↦
      let (q, listed, same, by_method) = mux-Picks ps method path route (ground (arith, f, e)) in
      (q, Memᴰ.tail listed, same, by_method)
]

mux-IsMux : IsMux mux
unfolding Picks
mux-IsMux = record { picks = mux-Picks patterns }

-- A body of one byte sets a margin below 0 and a URL.
abbrev asked : Settings
asked = record {
  nombre = some "Caja 2";
  url = some "wss://otro.example/ws";
  token = none;
  log = none;
  cut_feed_dots = some (negsuc 4);
  top_margin_dots = none;
  page_margin_mm = none;
}

abbrev pub drawer : Managing
drawer = record {
  name = "Caja";
  role = "pos";
  enabled = true;
  kind = "";
  cut_feed_dots = pos 5000;
  top_margin_dots = pos 0;
  page_margin_mm = pos 0;
  page_mode = "";
}

abbrev caja : ManagedPrinter
caja = record {
  name = "Caja";
  role = "pos";
  enabled = true;
  kind = "";
  cut_feed_dots = pos 0;
  top_margin_dots = pos 0;
  page_margin_mm = pos 0;
  page_mode = "";
}

-- It always saves.
abbrev pub deps_on : {W : Type 0} → (W → W) → Bool → Deps Unit W
deps_on count service = record {
  names = names;
  parse_url =
      λ raw. some (record { scheme = "wss"; host = "otro.example"; hostname = "otro.example" });
  managing = λ _. drawer;
  named = λ _. "Caja";
  settings = λ body. if length body == 0 then err not_yaml else ok asked;
  registration = λ _. record { token = "abc"; url = "" };
  message = λ _. "error";
  engine = λ _. record {
    resolver = λ _ _. err (external "unused");
    profiles = λ _. err (external "unused");
    tuning = none;
  };
  profile_or = λ _ _ p. p;
  discovery = λ w. (ok (record { name = "Caja"; status = "idle" } ∷ []), w);
  state = λ _. "registered";
  identity = λ _. record { uuid = ""; empresa = ""; sucursal = ""; equipo = "" };
  elapsed = λ _. none;
  decimal = λ _. "";
  stamp = λ _. "";
  save_config = some (λ _ w. (ok tt, count w));
  apply_tuning = none;
  on_registered = none;
  open_folder = λ _ w. w;
  test_page = [];
  version = "1";
  os = "linux";
  data_dir = "/var/lib/tera";
  run_mode = "user";
  conn_read_only = service;
}

-- The world counts the saves.
abbrev pub deps : Bool → Deps Unit ℕ
deps = deps_on (λ w. suc w)

abbrev pub start : Config
start = record {
  backend_url = "wss://erp.example/ws/agent/";
  token = "0123456789";
  agent_id = "";
  default_printer = "";
  printers = [];
  cut_feed_dots = pos 0;
  top_margin_dots = pos 0;
  page_margin_mm = pos 0;
  heartbeat_interval = pos 30000000000;
  log_level = "info";
  log_file = "";
  log_max_size_mb = pos 0;
  log_max_backups = pos 0;
  http_addr = "";
  http_token = "";
  insecure_skip_verify = false;
  data_dir = "/var/lib/tera";
}

abbrev pub panel : Panel ℕ
panel = record { cfg = start; world = 0 }

abbrev request : String → String → Request
request method origin = record {
  method = method;
  host = "127.0.0.1:9180";
  origin = origin;
  content_type = "application/json";
  over_tls = false;
}

abbrev call : String → String → String → Call
call method path origin = record {
  request = request method origin;
  path = path;
  query_name = "";
  body = 1 ∷ [];
}

abbrev own : String
own = "http://127.0.0.1:9180"

abbrev pub calls : List Call
calls =
    call "POST" "/api/printers/manage" own
    ∷ call "POST" "/api/config" own
    ∷ call "POST" "/api/config" "https://evil.example"
    ∷ []

abbrev pub encode : Reply → String
encode (settings_shown v) = v.url
encode _ = "{}"

-- What a page of the panel asks for is done, within the bounds.
managed_within :
    ((serve_all (deps false) hosts mux encode calls panel).cfg.agent_id ≡ "Caja 2")
    × ((serve_all (deps false) hosts mux encode calls panel).cfg.cut_feed_dots ≡ pos 0)
    × ((serve_all (deps false) hosts mux encode calls panel).world ≡ 2)
unfolding serve_all served mux wrap same_origin is_json takes config change_settings apply_url trim
    validate_backend_url save printers_manage answered persist apply_connection_change apply_rest
    clamp
managed_within = (refl, refl, refl)

-- A request of HEAD from another site changes the settings.
head_changes :
    (served
      (deps false)
      hosts
      mux
      encode
      (call "HEAD" "/api/config" "https://evil.example")
      panel).1.cfg.backend_url
    ≡ "wss://otro.example/ws"
unfolding served mux wrap takes config change_settings apply_url trim validate_backend_url save
    apply_connection_change tune apply_rest apply_token
head_changes = refl

secured : IsSound (deps false) start
secured = record {
  url = inr (record {
    parsed = record { scheme = "wss"; host = "otro.example"; hostname = "otro.example" };
    parses = refl;
    has_host = λ e. ground (arith, (eq_iff "otro.example" "").1 e);
    encrypted = inl refl;
  });
  distinct = tt;
  managed = tt;
  cut = (omega arith, omega arith);
  top = (omega arith, omega arith);
  margin = (omega arith, margin_room);
}

serve_all-IsSound_example :
    IsSound (deps false) (serve_all (deps false) hosts mux encode calls panel).cfg
serve_all-IsSound_example = serve_all-IsSound (deps false) hosts mux encode calls panel secured

serve_all-IsConnectionOf_example :
    IsConnectionOf (deps true) start (serve_all (deps true) hosts mux encode calls panel).cfg
serve_all-IsConnectionOf_example =
    serve_all-IsConnectionOf (deps true) hosts mux encode calls panel refl

served-IsOwn_example :
    Reads
      (deps false)
      hosts
      panel
      (served (deps false) hosts mux encode (call "POST" "/api/config" own) panel).1
    ⊎ (IsLocal names "127.0.0.1:9180" "127.0.0.1:9180" × IsOwn names (request "POST" own))
served-IsOwn_example =
    served-IsOwn (deps false) hosts mux mux-IsMux encode "127.0.0.1:9180"
      (call "POST" "/api/config" own) panel made (λ e. ground (arith, (eq_iff "POST" "HEAD").1 e))

-- A token of the same end is shown as the same.
served-with_secret_example :
    (served
      (deps false)
      hosts
      mux
      encode
      (call "GET" "/api/config" "")
      (with_secret "abcdef6789" panel)).0
    ≡ (served (deps false) hosts mux encode (call "GET" "/api/config" "") panel).0
unfolding token_hint utf8
served-with_secret_example =
    served-with_secret (deps false) hosts mux mux-IsMux encode (call "GET" "/api/config" "") panel
      "abcdef6789" refl
      (same_end (97 ∷ 98 ∷ 99 ∷ 100 ∷ 101 ∷ 102 ∷ []) (48 ∷ 49 ∷ 50 ∷ 51 ∷ 52 ∷ 53 ∷ [])
        (54 ∷ 55 ∷ 56 ∷ 57 ∷ []) (omega arith) (omega arith) refl refl refl)
