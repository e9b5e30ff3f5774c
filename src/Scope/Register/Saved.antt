-- ===== src/Scope/Register/Saved.antt =====
-- What a registration that succeeds leaves in the configuration file.
use tera_agent.Base.{
  Bool, List, String, str_eq, eq_iff, ◌≡◌, ◌≢◌, refl, subst, inl, inr, Bool-cases, arith,
}
use tera_agent.Config.{Config}
use tera_agent.Texts.{trim}
use tera_agent.Failure.{Result, ok, err}
use tera_agent.ConfigFile.{Wire, wire_of, config_of, validate_backend_url, load, save}
use tera_agent.ConfigFile.RoundTrip.{IsFiles, Reads, save_loads}
use tera_agent.Scope.{Scope, service, user, System, parse_scope, pop_flag}
use tera_agent.Scope.Register.{
  scope_or_service, restarted, validated, with_url, with_token, with_answer, loaded, made, placed,
  scoped, register,
}

module _ {W : Type 0} (sys : System W) where
  -- What the registration relies on: the files are as `IsFiles` says, the restart of the service leaves
  -- them, and YAML reads again what it makes.
  pub record IsSystem : Type 0 where
    pub files : IsFiles sys.files
    pub restarts :
        (path : String) (w : W) → sys.files.read path (sys.restart w).1 ≡ sys.files.read path w
    pub reads : (wire : Wire) → Reads sys.yaml wire

  -- A configuration that connects.
  pub record IsRegistered (path : String) (w : W) : Type 0 where
    pub cfg : Config
    pub kept : load sys.files sys.yaml path w ≡ ok cfg
    pub has_token : cfg.token ≢ ""
    pub has_url : cfg.backend_url ≢ ""

  -- What a result leaves.
  abbrev Leaves : Result String × W → Type 0
  Leaves (err e, w) = Unit
  Leaves (ok path, w) = IsRegistered path w

  module _ (law : IsSystem) where
    restarted-Leaves :
        (sc : Scope) (path : String) (c : Config) (w : W)
        → c.token ≢ ""
        → c.backend_url ≢ ""
        → Leaves (restarted sys sc path (save sys.files sys.yaml path c w))
    unfolding restarted load config_of wire_of
    restarted-Leaves sc path c w token url = by sc (save sys.files sys.yaml path c w) refl
      where
        registered :
            (v : W)
            → load sys.files sys.yaml path v ≡ ok (config_of (wire_of c))
            → IsRegistered path v
        registered v e = record {
          cfg = config_of (wire_of c);
          kept = e;
          has_token = token;
          has_url = url;
        }

        by :
            (sc : Scope) (r : Result (Unit {0}) × W)
            → save sys.files sys.yaml path c w ≡ r
            → Leaves (restarted sys sc path r)
        by sc (err x, v) e = tt
        by user (ok _, v) e =
            registered v
              (save_loads sys.files sys.yaml law.files sys.paths path "" c w v
                (law.reads (wire_of c)) e).0
        by service (ok _, v) e = registered (sys.restart v).1 (
            rw (law.restarts path v)
              (save_loads sys.files sys.yaml law.files sys.paths path "" c w v
                (law.reads (wire_of c)) e).0)

    validated-Leaves :
        (sc : Scope) (path token : String) (c : Config) (r : Result (Unit {0})) (w : W)
        → token ≢ ""
        → Leaves (validated sys sc path token c r w)
    unfolding validated
    validated-Leaves sc path token c (err x) w h = tt
    validated-Leaves sc path token c (ok _) w h = elim (Bool-cases (str_eq c.backend_url "")) [
      | inl e ↦ rw e tt
      | inr e ↦ rw e (
          restarted-Leaves sc path (record c { token = token }) w h
            (ground (arith, e, eq_iff c.backend_url "")))
    ]

    with_token-Leaves :
        (sc : Scope) (path url : String) (c : Config) (r : Result String × W)
        → Leaves (with_token sys sc path url c r)
    unfolding with_token with_url
    with_token-Leaves sc path url c (err x, w) = tt
    with_token-Leaves sc path url c (ok raw, w) = elim (Bool-cases (str_eq (trim raw) "")) [
      | inl e ↦ rw e tt
      | inr e ↦ rw e (elim (Bool-cases (str_eq url "")) [
        | inl f ↦ rw f (
            validated-Leaves sc path (trim raw) c (ok tt) w
              (ground (arith, e, eq_iff (trim raw) "")))
        | inr f ↦ rw f (
            validated-Leaves sc path (trim raw) (record c { backend_url = url })
              (validate_backend_url sys.parse_url url) w (ground (arith, e, eq_iff (trim raw) "")))
      ])
    ]

    made-Leaves :
        (sc : Scope) (path url file : String) (r : Result Bool × W)
        → Leaves (made sys sc path url file r)
    unfolding made loaded with_answer
    made-Leaves sc path url file (err x, w) = tt
    made-Leaves sc path url file (ok _, w) = by (load sys.files sys.yaml path w)
      where
        by : (c : Result Config) → Leaves (loaded sys sc path url file c w)
        by (err x) = tt
        by (ok c) = with_token-Leaves sc path _ c _

    placed-Leaves :
        (sc : Scope) (url file : String) (path dir : Result String) (w : W)
        → Leaves (placed sys sc url file path dir w)
    unfolding placed
    placed-Leaves sc url file (err x) dir w = tt
    placed-Leaves sc url file (ok path) (err x) w = tt
    placed-Leaves sc url file (ok path) (ok dir) w = made-Leaves sc path url file _

    scoped-Leaves :
        (config url file : String) (sc : Result Scope) (w : W)
        → Leaves (scoped sys config url file sc w)
    unfolding scoped
    scoped-Leaves config url file (err x) w = tt
    scoped-Leaves config url file (ok sc) w = placed-Leaves sc url file _ _ w

    -- Where a registration ends without an error, with whatever flags and answers, the file that it names
    -- is loaded as a configuration with a token and a URL of the Backend, also after the restart
    -- of the service. Files hold what was written, also through that restart, and YAML reads again
    -- what it makes.
    pub register-IsRegistered :
        (args : List String) (path : String) (w w' : W)
        → register sys args w ≡ (ok path, w')
        → IsRegistered path w'
    unfolding register
    register-IsRegistered args path w w' e = subst Leaves e (
        scoped-Leaves (pop_flag args "--config").0 (pop_flag args "--url").0
          (pop_flag args "--token-file").0
          (parse_scope (scope_or_service (pop_flag args "--scope").0)) w)
