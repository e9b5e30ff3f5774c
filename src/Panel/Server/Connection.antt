-- ===== src/Panel/Server/Connection.antt =====
-- internal/adapters/ui/server.go: the handlers of the status, the settings and the registration.
use Prim.Native.String.{◌++◌ as str_append}
use tera_agent.Base.{
  ◌-◌, Bool, true, false, ◌&&◌, ◌||◌, not, Option, none, some, [], String, str_eq, ltb,
  if◌then◌else◌, length, drop,
}
use tera_agent.Base.Int.{ℤ, pos}
use tera_agent.Config.{Config, default_backend_url}
use tera_agent.Texts.{trim, utf8}
use tera_agent.Failure.{Result, ok, err, bad_url, bad_scheme, no_host, unencrypted}
use tera_agent.Printing.{Bytes}
use tera_agent.Panel.{Names, is_loopback_host}
use tera_agent.Panel.Managed.{max_cut_feed_dots, max_page_margin_mm, clamp}
use tera_agent.Panel.Server.{
  Deps, Panel, Reply, done, noted, status_shown, settings_shown, refuse, Settings, Url, Handler,
  save, tune, first_non_empty,
}
use tera_agent.Panel.Server.Push.{human_since}

-- `tokenHint`.
unfoldable pub token_hint : Bytes → Bytes
token_hint token = if ltb (length token) 8 then [] else drop (length token - 4) token

unfoldable pub check_url : Names → String → Option Url → Result (Unit {0})
check_url names raw none = err (bad_url raw)
check_url names raw (some u) =
    if not (str_eq u.scheme "wss") && not (str_eq u.scheme "ws")
    then err (bad_scheme u.scheme)
    else if str_eq u.hostname ""
    then err no_host
    else if str_eq u.scheme "ws" && not (is_loopback_host names u.hostname)
    then err unencrypted
    else ok tt

module _ {Image W : Type 0} (d : Deps Image W) where
  unfoldable pub validate_backend_url : String → Result (Unit {0})
  unfolding check_url
  validate_backend_url raw = check_url d.names raw (d.parse_url raw)

  unfoldable pub status : Handler d
  status call s = (
    status_shown (record {
      registered = not (str_eq s.cfg.token "") && not (str_eq s.cfg.backend_url "");
      conn_read_only = d.conn_read_only;
      state = d.state s.world;
      empresa = (d.identity s.world).empresa;
      sede = (d.identity s.world).sucursal;
      equipo = first_non_empty (d.identity s.world).equipo s.cfg.agent_id;
      agent_id = s.cfg.agent_id;
      last_sync = human_since d.decimal (d.elapsed s.world);
      version = d.version;
      os = d.os;
      data_dir = d.data_dir;
      server_url = s.cfg.backend_url;
      default_url = default_backend_url;
      cut_feed_dots = s.cfg.cut_feed_dots;
      top_margin_dots = s.cfg.top_margin_dots;
    }),
    s,
  )

  unfoldable pub show_settings : Panel W → Reply × Panel W
  unfolding token_hint
  show_settings s = (
    settings_shown (record {
      nombre = s.cfg.agent_id;
      url = s.cfg.backend_url;
      token_set = not (str_eq s.cfg.token "");
      token_hint = token_hint (utf8 s.cfg.token);
      log = s.cfg.log_level;
      data_dir = d.data_dir;
      run_mode = d.run_mode;
      conn_read_only = d.conn_read_only;
      cut_feed_dots = s.cfg.cut_feed_dots;
      top_margin_dots = s.cfg.top_margin_dots;
      page_margin_mm = s.cfg.page_margin_mm;
    }),
    s,
  )

  -- `applyConnectionChange`: the restart begins behind the reply.
  unfoldable pub connection_changed : String → Option (W → W) → Panel W → Reply × Panel W
  connection_changed note none s = (noted note true, s)
  connection_changed note (some restart) s = (noted note true, record s { world = restart s.world })

  unfoldable pub apply_connection_change : String → Panel W → Reply × Panel W
  unfolding connection_changed
  apply_connection_change note s = connection_changed note d.on_registered s

  -- The URL of the settings: the configuration after it, and whether the connection changes.
  unfoldable pub set_url : String → Config → Config × Bool
  set_url url cfg =
      if str_eq url cfg.backend_url then (cfg, false) else (record cfg { backend_url = url }, true)

  unfoldable pub checked_url : Result (Unit {0}) → String → Config → Result (Config × Bool)
  unfolding set_url
  checked_url (err e) url cfg = err e
  checked_url (ok _) url cfg = ok (set_url url cfg)

  unfoldable pub apply_url : Option String → Config → Result (Config × Bool)
  unfolding checked_url
  apply_url none cfg = ok (cfg, false)
  apply_url (some raw) cfg =
      checked_url (if str_eq (trim raw) "" then ok tt else validate_backend_url (trim raw))
        (trim raw) cfg

  unfoldable pub apply_token : Option String → Config → Config × Bool
  apply_token none cfg = (cfg, false)
  apply_token (some raw) cfg =
      if not (str_eq (trim raw) "") && not (str_eq (trim raw) cfg.token)
      then (record cfg { token = trim raw }, true)
      else (cfg, false)

  unfoldable pub trimmed : Option String → String → String
  trimmed none old = old
  trimmed (some new) old = trim new

  unfoldable pub logged : Option String → String → String
  logged none old = old
  logged (some new) old = if str_eq new "" then old else new

  unfoldable pub clamped : ℤ → Option ℤ → ℤ → ℤ
  clamped hi none old = old
  clamped hi (some new) old = clamp new (pos 0) hi

  -- The settings that need no new connection.
  unfoldable pub apply_rest : Settings → Config → Config
  unfolding trimmed logged clamped
  apply_rest body cfg = record cfg {
    agent_id = trimmed body.nombre cfg.agent_id;
    log_level = logged body.log cfg.log_level;
    cut_feed_dots = clamped max_cut_feed_dots body.cut_feed_dots cfg.cut_feed_dots;
    top_margin_dots = clamped max_cut_feed_dots body.top_margin_dots cfg.top_margin_dots;
    page_margin_mm = clamped max_page_margin_mm body.page_margin_mm cfg.page_margin_mm;
  }

  unfoldable pub conclude_settings : Bool → Result (Unit {0}) × Panel W → Reply × Panel W
  conclude_settings changed (err e, s) = (refuse (d.message e), s)
  conclude_settings changed (ok _, s) =
      if changed
      then apply_connection_change "Datos de conexión guardados; reconectando…" s
      else (noted "Cambios guardados y aplicados." false, s)

  unfoldable pub applied : Settings → Result (Config × Bool) → Panel W → Reply × Panel W
  unfolding conclude_settings
  applied body (err e) s = (refuse (d.message e), s)
  applied body (ok (cfg, url_changed)) s =
      let (with_token, token_changed) = apply_token body.token cfg in
      conclude_settings (url_changed || token_changed)
        (save d (tune d (record s { cfg = apply_rest body with_token })))

  unfoldable pub change_settings : Settings → Panel W → Reply × Panel W
  unfolding applied
  change_settings body s = applied body (apply_url body.url s.cfg) s

  -- In service mode a change of the connection is refused, and the rest is applied.
  unfoldable pub new_token : Option String → Bool
  new_token none = false
  new_token (some token) = not (str_eq (trim token) "")

  unfoldable pub new_url : Option String → String → Bool
  new_url none url = false
  new_url (some raw) url = not (str_eq (trim raw) url)

  unfoldable pub guarded_settings : Settings → Panel W → Reply × Panel W
  unfolding new_token new_url
  guarded_settings body s =
      if not d.conn_read_only
      then change_settings body s
      else if new_token body.token
      then (
        refuse
            "en modo servicio el Token es de solo lectura; regístralo con 'tera-agent register' como administrador",
        s,
      )
      else if new_url body.url s.cfg.backend_url
      then (
        refuse
            "en modo servicio la URL del servidor es de solo lectura; cámbiala con 'tera-agent register' como administrador",
        s,
      )
      else change_settings (record body { token = none; url = none }) s

  unfoldable pub decoded_settings : Result Settings → Panel W → Reply × Panel W
  unfolding guarded_settings
  decoded_settings (err e) s = (refuse (str_append "petición inválida: " (d.message e)), s)
  decoded_settings (ok body) s = guarded_settings body s

  unfoldable pub config : Handler d
  unfolding decoded_settings
  config call s =
      if str_eq call.request.method "GET"
      then show_settings s
      else decoded_settings (d.settings call.body) s

  -- The save before a change of the connection.
  unfoldable pub saved_connection : String → Result (Unit {0}) × Panel W → Reply × Panel W
  saved_connection note (err e, s) = (refuse (d.message e), s)
  saved_connection note (ok _, s) = apply_connection_change note s

  unfoldable pub unregister : Handler d
  unfolding saved_connection
  unregister call s =
      if not (str_eq call.request.method "POST")
      then (refuse "usa POST", s)
      else if d.conn_read_only
      then (
        refuse
            "en modo servicio usa 'tera-agent register' como administrador para cambiar la vinculación",
        s,
      )
      else saved_connection "Equipo desvinculado; reiniciando…"
          (save d (record s { cfg = record s.cfg { token = ""; backend_url = "" } }))

  unfoldable pub with_url : String → String → Panel W → Reply × Panel W
  unfolding saved_connection
  with_url token url s =
      let cfg = if str_eq url "" then s.cfg else record s.cfg { backend_url = url } in
      if str_eq cfg.backend_url ""
      then (refuse "falta la URL del servidor", s)
      else saved_connection "aplicando registro…"
          (save d (record s { cfg = record cfg { token = token } }))

  unfoldable pub valid_or_not : Result (Unit {0}) → String → String → Panel W → Reply × Panel W
  unfolding with_url
  valid_or_not (err e) token url s = (refuse (d.message e), s)
  valid_or_not (ok _) token url s = with_url token url s

  unfoldable pub register_as : String → String → Panel W → Reply × Panel W
  unfolding valid_or_not
  register_as token url s =
      if str_eq token ""
      then (refuse "token vacío", s)
      else valid_or_not (if str_eq url "" then ok tt else validate_backend_url url) token url s

  unfoldable pub register : Handler d
  unfolding register_as
  register call s =
      if d.conn_read_only
      then (
        refuse "en modo servicio el registro se hace con 'tera-agent register' como administrador",
        s,
      )
      else register_as (trim (d.registration call.body).token) (trim (d.registration call.body).url)
          s

  unfoldable pub open_data : Handler d
  open_data call s =
      if str_eq d.data_dir ""
      then (refuse "sin carpeta de datos", s)
      else (done, record s { world = d.open_folder d.data_dir s.world })
