-- ===== src/Wiring.antt =====
-- internal/infra/di/container.go and cmd/tera-agent/main.go: how the panel reaches what runs. Of the
-- application this is what a change of the configuration replaces; the rest is in the world `W`.
pub mod Applied
mod Tests
use tera_agent.Base.{
  Bool, true, false, ◌||◌, Option, none, some, List, map, String, str_eq, if◌then◌else◌,
}
use tera_agent.Base.Int.{ℤ}
use tera_agent.Config.{Config, mode_vector, page_mode_of, page_margin, printer_tuning}
use tera_agent.Failure.{Result, ok, err}
use tera_agent.ConfigFile.{Paths}
use tera_agent.Print.Engine.{Engine}
use tera_agent.Print.Roles.{RoleResolver, update, new_role_resolver}
use tera_agent.Panel.Server.{Deps}

-- `pageModes.Of`, of what `pageModes.Set` stored.
unfoldable pub mode_of : Option (String → String) → String → String
mode_of none printer_id = mode_vector
mode_of (some fn) printer_id = fn printer_id

-- A driver as `applyPageMargin` sees it: it takes a resolver of margins, and may have one, or not.
pub data MarginDriver : Type 0 where
  setter : Option (String → ℤ) → MarginDriver
  other : MarginDriver

set_margin : (String → ℤ) → MarginDriver → MarginDriver
set_margin fn (setter old) = setter (some fn)
set_margin fn other = other

unfoldable pub apply_page_margin : List MarginDriver → (String → ℤ) → List MarginDriver
unfolding set_margin
apply_page_margin drivers fn = map (set_margin fn) drivers

-- `dataDir`.
unfoldable pub data_dir : Paths → Result String → Config → String
data_dir paths user_config_dir cfg =
    if str_eq cfg.data_dir ""
    then (elim user_config_dir [ ok dir ↦ paths.join dir "tera-agent" | err _ ↦ "tera-agent-data" ])
    else cfg.data_dir

-- `isLocal`.
unfoldable pub is_local : Config → Bool
is_local cfg = str_eq cfg.backend_url "" || str_eq cfg.token ""

pub record App (W : Type 0) : Type 0 where
  pub tuning : Option (String → ℤ × ℤ)
  pub modes : Option (String → String)
  pub drivers : List MarginDriver
  pub roles : RoleResolver
  pub outside : W

-- What `Build` installs.
unfoldable pub build : {W : Type 0} → Config → List MarginDriver → W → App W
unfolding apply_page_margin
build cfg drivers w = record {
  tuning = some (printer_tuning cfg);
  modes = some (page_mode_of cfg);
  drivers = apply_page_margin drivers (page_margin cfg);
  roles = new_role_resolver cfg.printers cfg.default_printer;
  outside = w;
}

-- The `ApplyTuning` of `buildUIServer`.
unfoldable pub apply_tuning : {W : Type 0} → Config → App W → App W
unfolding apply_page_margin
apply_tuning c a = record a {
  tuning = some (printer_tuning c);
  modes = some (page_mode_of c);
  drivers = apply_page_margin a.drivers (page_margin c);
  roles = update a.roles c.printers c.default_printer;
}

-- `buildUIServer`: the panel on the application, and its engine with the tuning of the time.
unfoldable pub build_ui_server : {Image W : Type 0} → Deps Image (App W) → Bool → Deps Image (App W)
unfolding apply_tuning
build_ui_server d read_only = record d {
  engine = λ a. record (d.engine a) { tuning = a.tuning };
  apply_tuning = some apply_tuning;
  conn_read_only = read_only;
}
