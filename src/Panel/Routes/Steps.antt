-- ===== src/Panel/Routes/Steps.antt =====
-- What a request that is served does to the panel's configuration, and what holds over any requests.
use tera_agent.Base.{
  str_eq, String, List, [], ◌∷◌, ◌≡◌, refl, sym, ap, subst, ◌⊎◌, inl, inr, Bool-cases,
}
use tera_agent.Config.{Config}
use tera_agent.Panel.{Hosts, allowed_host, is_safe_method, same_origin, is_json, wrap}
use tera_agent.Panel.Server.{Deps, Panel, Reply, Call, first_non_empty}
use tera_agent.Panel.Server.Printers.{printers_manage, printers_default, printers_drawer}
use tera_agent.Panel.Server.Connection.{status, open_data}
use tera_agent.Panel.Server.Edits.{
  Edit, unchanged, printers-Edit, manage-Edit, set_default-Edit, drawer-Edit, test_print-cfg,
}
use tera_agent.Panel.Server.Edits.Linked.{config-Edit, unregister-Edit, register-Edit}
use tera_agent.Panel.Routes.{
  Route, static_files, status_route, printers_route, manage_route, default_route, drawer_route,
  history_route, logs_route, test_route, config_route, register_route, unregister_route,
  open_data_route, ws_route, Picked, found, unrouted, Mux, patterns, handle, handle_picked, routed,
  respond, served, serve_all,
}

module _ {Image W : Type 0} (d : Deps Image W) (hosts : Hosts) where
  handle-Edit :
      (route : Route) (call : Call) (s : Panel W) → Edit d s.cfg (handle d hosts route call s).1.cfg
  unfolding handle status open_data printers_manage printers_default printers_drawer
  handle-Edit static_files call s = unchanged refl
  handle-Edit status_route call s = unchanged refl
  handle-Edit printers_route call s = printers-Edit d call s
  handle-Edit manage_route call s = manage-Edit d (d.managing call.body) s
  handle-Edit default_route call s = set_default-Edit d (d.named call.body) s
  handle-Edit drawer_route call s =
      drawer-Edit d (first_non_empty (d.named call.body) s.cfg.default_printer) s
  handle-Edit history_route call s = unchanged refl
  handle-Edit logs_route call s = unchanged refl
  handle-Edit test_route call s = unchanged (test_print-cfg d call s)
  handle-Edit config_route call s = config-Edit d call s
  handle-Edit register_route call s = register-Edit d call s
  handle-Edit unregister_route call s = unregister-Edit d call s
  handle-Edit open_data_route call s = elim (Bool-cases (str_eq d.data_dir "")) [
    | inl e ↦ unchanged (rw e refl)
    | inr e ↦ unchanged (rw e refl)
  ]
  handle-Edit ws_route call s = unchanged refl

  module _ (mux : Mux) where
    pub routed-Edit : (call : Call) (s : Panel W) → Edit d s.cfg (routed d hosts mux call s).1.cfg
    unfolding routed handle_picked
    routed-Edit call s = by (mux patterns call.request.method call.path)
      where
        by : (p : Picked) → Edit d s.cfg (handle_picked d hosts p call s).1.cfg
        by (unrouted code) = unchanged refl
        by (found route) = handle-Edit route call s

    module _ (encode : Reply → String) where
      -- A request is stopped by the guard, or it is handled.
      pub served-through :
          (call : Call) (s : Panel W)
          → ((served d hosts mux encode call s).1 ≡ s)
            ⊎ ((served d hosts mux encode call s).1 ≡ (routed d hosts mux call s).1)
      unfolding served wrap respond
      served-through call s = elim (Bool-cases (allowed_host d.names hosts call.request)) [
        | inr e ↦ inl (rw e refl)
        | inl e ↦ rw e (elim (Bool-cases (is_safe_method call.request.method)) [
          | inl f ↦ inr (rw f refl)
          | inr f ↦ rw f (elim (Bool-cases (same_origin d.names hosts call.request)) [
            | inr g ↦ inl (rw g refl)
            | inl g ↦ rw g (elim (Bool-cases (is_json d.names call.request)) [
              | inr h ↦ inl (rw h refl)
              | inl h ↦ inr (rw h refl)
            ])
          ])
        ])
      ]

      pub served-Edit :
          (call : Call) (s : Panel W) → Edit d s.cfg (served d hosts mux encode call s).1.cfg
      served-Edit call s = elim (served-through call s) [
        | inl e ↦ unchanged (ap (λ (t : Panel W). t.cfg) e)
        | inr e ↦ subst (λ (t : Panel W). Edit d s.cfg t.cfg) (sym e) (routed-Edit call s)
      ]

      -- What every edit keeps holds after any requests.
      pub serve_all-keeps :
          (P : Config → Type 0)
          → ((c c' : Config) → Edit d c c' → P c → P c')
          → (calls : List Call) (s : Panel W) → P s.cfg
          → P (serve_all d hosts mux encode calls s).cfg
      unfolding serve_all
      serve_all-keeps P keep [] s h = h
      serve_all-keeps P keep (call ∷ calls) s h =
          serve_all-keeps P keep calls (served d hosts mux encode call s).1
            (keep s.cfg (served d hosts mux encode call s).1.cfg (served-Edit call s) h)
