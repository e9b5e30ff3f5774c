-- ===== src/Scope/Guarded.antt =====
-- The start in service mode: the folder, the panel and the setup together.
use tera_agent.Base.{
  Bool, true, some, List, String, str_eq, if◌then◌else◌, ◌≡◌, ◌≢◌, [], ◌∷◌, refl, sym, ap, subst,
  ◌∙◌,
}
use tera_agent.Failure.{Result, ok, err, ◌>>=◌}
use tera_agent.Panel.{Hosts}
use tera_agent.Panel.Server.{Deps, Panel, Reply, Call}
use tera_agent.Panel.Routes.{Mux, serve_all}
use tera_agent.Panel.Routes.ReadOnly.{IsConnectionOf, serve_all-IsConnectionOf}
use tera_agent.ConfigFile.{log_subdir, ensure_default}
use tera_agent.Scope.{
  service, System, config_path, secured, granted, setup_at, setup_as, pop_flag, setup_data,
  resolve_config_path, secured, granted, setup_at, setup_as, pop_flag, setup_data, path_of,
  parse_scope, verified, ensured, prepared, resolved, prepare_for_run,
}
use tera_agent.Scope.Acl.{Fsacl, IsSealing, Acls, windows}
use tera_agent.Scope.Acl.Closed.{IsAcls, IsProtected, windows-IsSealing, verify-IsProtected}

module _ {W : Type 0} (sys : System W) where
  -- The folder of the service passed the check in a world, and the panel is to leave the connection.
  pub record IsChecked (read_only : Bool) (w : W) : Type 0 where
    pub dir : String
    pub folder : sys.data_dir service ≡ ok dir
    pub passed : sys.fsacl.verify_no_untrusted_write dir w ≡ ok tt
    pub shut : read_only ≡ true

  abbrev Leaves : Result String × Bool × W → Type 0
  Leaves (err e, read_only, w) = Unit
  Leaves (ok path, read_only, w) = IsChecked read_only w

  prepared-Leaves :
      (path : String) (folder : Result String) (w : W)
      → sys.data_dir service ≡ folder
      → Leaves (prepared sys path service folder w)
  unfolding prepared ensured verified
  prepared-Leaves path (err x) w e = tt
  prepared-Leaves path (ok dir) w e = made (ensure_default sys.files sys.paths path dir w)
    where
      checked :
          (r : Result (Unit {0})) (v : W)
          → sys.fsacl.verify_no_untrusted_write dir v ≡ r
          → Leaves (verified sys path dir r v)
      checked (err x) v f = tt
      checked (ok _) v f = record { dir = dir; folder = e; passed = f; shut = refl }

      made : (r : Result Bool × W) → Leaves (ensured sys path service dir r)
      made (err x, v) = tt
      made (ok b, v) = checked (sys.fsacl.verify_no_untrusted_write dir v) v refl

  prepare_for_run-Leaves :
      (explicit : String) (w : W) → Leaves (prepare_for_run sys explicit "service" w)
  unfolding prepare_for_run resolved resolve_config_path path_of parse_scope
  prepare_for_run-Leaves explicit w =
      by (if str_eq explicit "" then config_path sys service else ok explicit)
    where
      by : (path : Result String) → Leaves (resolved sys (path >>= λ p. ok (p, some service)) w)
      by (err x) = tt
      by (ok path) = prepared-Leaves path (sys.data_dir service) w refl

module _ {W : Type 0} (sys : System W) (acls : Acls W) (same : sys.fsacl ≡ windows acls) where
  -- Where `prepareForRun` ends on Windows with the scope of the service and without an error, each
  -- entry of the list of the service's folder that is of the type ACCESS_ALLOWED and is not of the
  -- system, the administrators or CREATOR OWNER has none of the rights to write data, append, write
  -- attributes of either kind, delete the folder, or take its list or its ownership (to delete what is in
  -- the folder, FILE_DELETE_CHILD, is not among them). And the panel that is told to leave the
  -- connection by what it set leaves the Backend's URL and the token as they are, whatever it is asked.
  pub prepare_for_run-IsGuarded :
      {Image V : Type 0} (d : Deps Image V) (hosts : Hosts) (mux : Mux) (encode : Reply → String)
      (calls : List Call) (s : Panel V) (explicit path : String) (read_only : Bool) (w w' : W)
      → prepare_for_run sys explicit "service" w ≡ (ok path, read_only, w')
      → d.conn_read_only ≡ read_only
      → ((dir : String) × (sys.data_dir service ≡ ok dir) × IsProtected acls dir w')
        × IsConnectionOf d s.cfg (serve_all d hosts mux encode calls s).cfg
  prepare_for_run-IsGuarded d hosts mux encode calls s explicit path read_only w w' e f =
      let h : IsChecked sys read_only w' =
        subst (Leaves sys) e (prepare_for_run-Leaves sys explicit w) in
      (
        (
          h.dir,
          h.folder,
          verify-IsProtected acls h.dir w'
              (subst (λ (a : Fsacl W). a.verify_no_untrusted_write h.dir w' ≡ ok tt) same h.passed),
        ),
        serve_all-IsConnectionOf d hosts mux encode calls s (f ∙ h.shut),
      )

module _ {W : Type 0} (sys : System W) where
  -- The folders of the service pass the check.
  pub record IsSealed (w : W) : Type 0 where
    pub dir : String
    pub folder : sys.data_dir service ≡ ok dir
    pub kept_data : sys.fsacl.verify_no_untrusted_write dir w ≡ ok tt
    pub kept_logs : sys.fsacl.verify_no_untrusted_write (sys.paths.join dir log_subdir) w ≡ ok tt

  abbrev Seals : Result (Unit {0}) × W → Type 0
  Seals (err e, w) = Unit
  Seals (ok _, w) = IsSealed w

  module _ (law : IsSealing sys.fsacl)
      (apart : (dir : String)
        → sys.data_dir service ≡ ok dir
        → sys.paths.join dir log_subdir ≢ dir) where
    secured-Seals :
        (dir : String) (r : Result Bool × W)
        → sys.data_dir service ≡ ok dir
        → Seals (secured sys service dir r)
    unfolding secured granted
    secured-Seals dir (err x, w) e = tt
    secured-Seals dir (ok b, w) e = by_secured (sys.fsacl.secure_service_dir dir w) refl
      where
        logs : String
        logs = sys.paths.join dir log_subdir

        by_granted :
            (v : W) (r : Result (Unit {0}) × W)
            → sys.fsacl.verify_no_untrusted_write dir v ≡ ok tt
            → sys.fsacl.grant_users_read logs v ≡ r
            → Seals r
        by_granted v (err x, u) h f = tt
        by_granted v (ok _, u) h f = record {
          dir = dir;
          folder = e;
          kept_data =
              subst (λ (z : W). sys.fsacl.verify_no_untrusted_write dir z ≡ ok tt) (ap (λ r. r.1) f)
                (law.others logs dir v (apart dir e) ∙ h);
          kept_logs = law.granted logs v u f;
        }

        by_secured :
            (r : Result (Unit {0}) × W)
            → sys.fsacl.secure_service_dir dir w ≡ r
            → Seals (granted sys dir r)
        by_secured (err x, v) f = tt
        by_secured (ok _, v) f = by_granted v _ (law.secured dir w v f) refl

    setup_data-Seals : (w : W) → Seals (setup_data sys ("--scope" ∷ "service" ∷ []) w)
    unfolding setup_data setup_as setup_at parse_scope pop_flag config_path
    setup_data-Seals w = by (sys.data_dir service) refl
      where
        by :
            (r : Result String)
            → sys.data_dir service ≡ r
            → Seals (setup_at sys service r (config_path sys service) w)
        by (err x) e = tt
        by (ok dir) e = at_path (config_path sys service)
          where
            at_path : (r : Result String) → Seals (setup_at sys service (ok dir) r w)
            at_path (err x) = tt
            at_path (ok path) = secured-Seals dir (ensure_default sys.files sys.paths path dir w) e

module _ {W : Type 0} (sys : System W) (acls : Acls W) (law : IsAcls acls) where
  -- Where `setup-data --scope service` ends on Windows without an error, the folder of the service and that
  -- of its log pass the check that a start makes. The log's folder is another than the data's; a list
  -- holds what it was set to, and that of another folder stays.
  pub setup_data-IsSealed :
      (w w' : W)
      → sys.fsacl ≡ windows acls
      → ((dir : String) → sys.data_dir service ≡ ok dir → sys.paths.join dir log_subdir ≢ dir)
      → setup_data sys ("--scope" ∷ "service" ∷ []) w ≡ (ok tt, w')
      → IsSealed sys w'
  setup_data-IsSealed w w' same apart e =
      subst (Seals sys) e
        (setup_data-Seals sys (subst IsSealing (sym same) (windows-IsSealing acls law)) apart w)
