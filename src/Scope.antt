-- ===== src/Scope.antt =====
-- cmd/tera-agent/scope.go and internal/adapters/apppath: the two ways of deployment, the start of the
-- agent, the setup of its folder and its registration. `System` is what the commands use: the folder
-- of each scope and the operations of its permissions are the system's own, of which both are here.
-- What the commands print, and the hint that is added to an error of permission, are left out.
pub mod Acl
pub mod Register
pub mod Guarded
mod Tests
use tera_agent.Base.{
  ℕ, Bool, true, false, Option, none, some, List, [], ◌∷◌, ◌++◌, String, str_eq, if◌then◌else◌,
}
use tera_agent.Config.{Config}
use tera_agent.Texts.{trim}
use tera_agent.Failure.{
  Error, Result, ok, err, ◌>>=◌, unknown_scope, unsafe_folder, empty_token, no_url,
}
use tera_agent.ConfigFile.{
  Files, Paths, Yaml, UrlParser, validate_backend_url, ensure_default, load, save, log_subdir,
}
use tera_agent.Scope.Acl.{Fsacl}

pub data Scope : Type 0 where
  service user : Scope

-- `ParseScope`.
unfoldable pub parse_scope : String → Result Scope
parse_scope s =
    if str_eq s "service"
    then ok service
    else if str_eq s "user"
    then ok user
    else err (unknown_scope s)

-- apppath_other.go: `DataDir`, from `os.UserConfigDir`.
unfoldable pub other_folder : Paths → Result String → Scope → Result String
other_folder paths user_config_dir service = ok "/var/lib/tera-agent"
other_folder paths user_config_dir user = do
  base ← user_config_dir
  ok (paths.join base "tera-agent")

-- apppath_windows.go: `DataDir`, from the folders of all users and of the own user.
unfoldable pub windows_folder : Paths → Result String → Result String → Scope → Result String
windows_folder paths program_data local_app_data service = do
  base ← program_data
  ok (paths.join base "TeraAgent")
windows_folder paths program_data local_app_data user = do
  base ← local_app_data
  ok (paths.join base "TeraAgent")

-- `ask` reads a line after a prompt, `ask_secret` one that is not shown, of which both may change the
-- world; `restart` is that of the service.
pub record System (W : Type 0) : Type 0 where
  pub files : Files W
  pub paths : Paths
  pub yaml : Yaml
  pub parse_url : UrlParser
  pub text_of : List ℕ → String
  pub data_dir : Scope → Result String
  pub fsacl : Fsacl W
  pub ask : W → String × W
  pub ask_secret : W → Result String × W
  pub restart : W → Result (Unit {0}) × W

-- `popFlag`.
pop_onto : List String → String → List String → String × List String
pop_onto skipped name [] = ("", skipped)
pop_onto skipped name (arg ∷ []) = ("", skipped ++ arg ∷ [])
pop_onto skipped name (arg ∷ value ∷ args) =
    let further = pop_onto (skipped ++ arg ∷ []) name (value ∷ args) in
    if str_eq arg name then (value, skipped ++ args) else further

unfoldable pub pop_flag : List String → String → String × List String
unfolding pop_onto
pop_flag args name = pop_onto [] name args

module _ {W : Type 0} (sys : System W) where
  unfoldable pub config_path : Scope → Result String
  config_path sc = do dir ← sys.data_dir sc; ok (sys.paths.join dir "config.yaml")

  path_of : Option Scope → Result String
  unfolding config_path
  path_of none = ok "config.yaml"
  path_of (some sc) = config_path sc

  -- `resolveConfigPath`.
  unfoldable pub resolve_config_path : String → String → Result (String × Option Scope)
  unfolding path_of parse_scope
  resolve_config_path explicit scope = do
    sc ← if str_eq scope "" then ok none else (do parsed ← parse_scope scope; ok (some parsed))
    path ← if str_eq explicit "" then path_of sc else ok explicit
    ok (path, sc)

  -- The end of `prepareForRun`: its result, `panelConnReadOnly`, and the world.
  unfoldable pub verified : String → String → Result (Unit {0}) → W → Result String × Bool × W
  verified path dir (err e) w = (err (unsafe_folder dir e), false, w)
  verified path dir (ok _) w = (ok path, true, w)

  ensured : String → Scope → String → Result Bool × W → Result String × Bool × W
  unfolding verified
  ensured path sc dir (err e, w) = (err e, false, w)
  ensured path user dir (ok _, w) = (ok path, false, w)
  ensured path service dir (ok _, w) =
      verified path dir (sys.fsacl.verify_no_untrusted_write dir w) w

  prepared : String → Scope → Result String → W → Result String × Bool × W
  unfolding ensured
  prepared path sc (err e) w = (err e, false, w)
  prepared path sc (ok dir) w = ensured path sc dir (ensure_default sys.files sys.paths path dir w)

  resolved : Result (String × Option Scope) → W → Result String × Bool × W
  unfolding prepared
  resolved (err e) w = (err e, false, w)
  resolved (ok (path, none)) w = (ok path, false, w)
  resolved (ok (path, some sc)) w = prepared path sc (sys.data_dir sc) w

  unfoldable pub prepare_for_run : String → String → W → Result String × Bool × W
  unfolding resolved
  prepare_for_run explicit scope w = resolved (resolve_config_path explicit scope) w

  granted : String → Result (Unit {0}) × W → Result (Unit {0}) × W
  granted dir (err e, w) = (err e, w)
  granted dir (ok _, w) = sys.fsacl.grant_users_read (sys.paths.join dir log_subdir) w

  -- The permissions of `cmdSetupData`.
  secured : Scope → String → Result Bool × W → Result (Unit {0}) × W
  unfolding granted
  secured sc dir (err e, w) = (err e, w)
  secured user dir (ok _, w) = (ok tt, w)
  secured service dir (ok _, w) = granted dir (sys.fsacl.secure_service_dir dir w)

  setup_at : Scope → Result String → Result String → W → Result (Unit {0}) × W
  unfolding secured
  setup_at sc (err e) path w = (err e, w)
  setup_at sc (ok dir) (err e) w = (err e, w)
  setup_at sc (ok dir) (ok path) w = secured sc dir (ensure_default sys.files sys.paths path dir w)

  setup_as : Result Scope → W → Result (Unit {0}) × W
  unfolding setup_at config_path
  setup_as (err e) w = (err e, w)
  setup_as (ok sc) w = setup_at sc (sys.data_dir sc) (config_path sc) w

  named_scope : String → List String → String
  named_scope scope [] = scope
  named_scope scope (first ∷ rest) = if str_eq scope "" then first else scope

  -- `cmdSetupData`.
  unfoldable pub setup_data : List String → W → Result (Unit {0}) × W
  unfolding setup_as named_scope pop_flag
  setup_data args w =
      let (scope, rest) = pop_flag args "--scope" in
      setup_as (parse_scope (named_scope scope rest)) w
