-- ===== src/Scope/Register.antt =====
-- cmd/tera-agent/scope.go: the registration from a console.
pub mod Saved
use tera_agent.Base.{Bool, List, String, str_eq, if◌then◌else◌}
use tera_agent.Config.{Config}
use tera_agent.Texts.{trim}
use tera_agent.Failure.{Result, ok, err, empty_token, no_url}
use tera_agent.Printing.{Bytes}
use tera_agent.ConfigFile.{validate_backend_url, ensure_default, load, save}
use tera_agent.Scope.{Scope, service, user, System, parse_scope, config_path, pop_flag}

-- The scope of a registration is the service's where none is named.
abbrev scope_or_service : String → String
scope_or_service scope = if str_eq scope "" then "service" else scope

module _ {W : Type 0} (sys : System W) where
  restarted : Scope → String → Result (Unit {0}) × W → Result String × W
  restarted sc path (err e, w) = (err e, w)
  restarted user path (ok _, w) = (ok path, w)
  restarted service path (ok _, w) = (ok path, (sys.restart w).1)

  validated : Scope → String → String → Config → Result (Unit {0}) → W → Result String × W
  unfolding restarted
  validated sc path token cfg (err e) w = (err e, w)
  validated sc path token cfg (ok _) w =
      if str_eq cfg.backend_url ""
      then (err no_url, w)
      else restarted sc path (save sys.files sys.yaml path (record cfg { token = token }) w)

  -- The URL that was given, or the one that the configuration has.
  with_url : Scope → String → String → String → Config → W → Result String × W
  unfolding validated
  with_url sc path url token cfg w =
      if str_eq url ""
      then validated sc path token cfg (ok tt) w
      else validated sc path token (record cfg { backend_url = url })
          (validate_backend_url sys.parse_url url) w

  with_token : Scope → String → String → Config → Result String × W → Result String × W
  unfolding with_url
  with_token sc path url cfg (err e, w) = (err e, w)
  with_token sc path url cfg (ok raw, w) =
      let token = trim raw in
      if str_eq token "" then (err empty_token, w) else with_url sc path url token cfg w

  text_read : Result Bytes → Result String
  text_read (err e) = err e
  text_read (ok content) = ok (trim (sys.text_of content))

  -- The token, of a file or as it is typed.
  asked_token : String → W → Result String × W
  unfolding text_read
  asked_token file w =
      if str_eq file "" then sys.ask_secret w else (text_read (sys.files.read file w), w)

  with_answer : Scope → String → String → Config → String × W → Result String × W
  unfolding with_token asked_token
  with_answer sc path file cfg (url, w) = with_token sc path (trim url) cfg (asked_token file w)

  loaded : Scope → String → String → String → Result Config → W → Result String × W
  unfolding with_answer
  loaded sc path url file (err e) w = (err e, w)
  loaded sc path url file (ok cfg) w =
      with_answer sc path file cfg (if str_eq (trim url) "" then sys.ask w else (url, w))

  made : Scope → String → String → String → Result Bool × W → Result String × W
  unfolding loaded
  made sc path url file (err e, w) = (err e, w)
  made sc path url file (ok _, w) = loaded sc path url file (load sys.files sys.yaml path w) w

  placed : Scope → String → String → Result String → Result String → W → Result String × W
  unfolding made
  placed sc url file (err e) dir w = (err e, w)
  placed sc url file (ok path) (err e) w = (err e, w)
  placed sc url file (ok path) (ok dir) w =
      made sc path url file (ensure_default sys.files sys.paths path dir w)

  scoped : String → String → String → Result Scope → W → Result String × W
  unfolding placed
  scoped config url file (err e) w = (err e, w)
  scoped config url file (ok sc) w =
      placed sc url file (if str_eq config "" then config_path sys sc else ok config)
        (sys.data_dir sc) w

  -- `cmdRegister`: the path of the configuration that it saved.
  unfoldable pub register : List String → W → Result String × W
  unfolding scoped
  register args w =
      scoped (pop_flag args "--config").0 (pop_flag args "--url").0 (pop_flag args "--token-file").0
        (parse_scope (scope_or_service (pop_flag args "--scope").0)) w
