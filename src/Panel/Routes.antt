-- ===== src/Panel/Routes.antt =====
-- internal/adapters/ui/server.go: the routes of the panel, behind its guard. The multiplexer is Go's
-- `http.ServeMux`, a parameter: from the patterns, a method and a path it finds a route or a status. The
-- JSON of a reply is a parameter too, and of its headers the guard's are kept.
pub mod Steps
pub mod Sound
pub mod ReadOnly
pub mod Own
pub mod Secret
pub mod Tests
use tera_agent.Base.{ℕ, Bool, Option, List, [], ◌∷◌, String, if◌then◌else◌}
use tera_agent.Panel.{Hosts, Request, Response, same_origin, wrap}
use tera_agent.Panel.Server.{
  Deps, Panel, Reply, failed, done, done_at, noted, no_history, no_logs, file, upgraded, Call,
  Handler,
}
use tera_agent.Panel.Server.Printers.{
  printers, printers_manage, printers_default, printers_drawer, test_print,
}
use tera_agent.Panel.Server.Connection.{status, config, register, unregister, open_data}

pub data Route : Type 0 where
  static_files status_route printers_route manage_route default_route drawer_route history_route
        logs_route test_route config_route register_route unregister_route open_data_route
        ws_route :
      Route

pub record Pattern : Type 0 where
  pub method : String
  pub path : String
  pub route : Route

abbrev on : String → String → Route → Pattern
on method path route = record { method = method; path = path; route = route }

abbrev pub patterns : List Pattern
patterns =
    on "GET" "/" static_files
    ∷ on "GET" "/api/status" status_route
    ∷ on "GET" "/api/printers" printers_route
    ∷ on "DELETE" "/api/printers" printers_route
    ∷ on "POST" "/api/printers/manage" manage_route
    ∷ on "POST" "/api/printers/default" default_route
    ∷ on "POST" "/api/printers/drawer" drawer_route
    ∷ on "GET" "/api/history" history_route
    ∷ on "GET" "/api/logs" logs_route
    ∷ on "POST" "/api/test-print" test_route
    ∷ on "GET" "/api/config" config_route
    ∷ on "POST" "/api/config" config_route
    ∷ on "POST" "/api/register" register_route
    ∷ on "POST" "/api/unregister" unregister_route
    ∷ on "POST" "/api/open-data" open_data_route
    ∷ on "GET" "/ws/ui" ws_route
    ∷ []

pub data Picked : Type 0 where
  found : Route → Picked
  unrouted : ℕ → Picked

abbrev pub Mux : Type 0
Mux = List Pattern → String → String → Picked

module _ {Image W : Type 0} (d : Deps Image W) (hosts : Hosts) where
  -- `history` and `logs` are empty. The web socket is open to the panel's own pages.
  unfoldable pub handle : Route → Handler d
  handle static_files call s = (file call.path, s)
  handle status_route call s = status d call s
  handle printers_route call s = printers d call s
  handle manage_route call s = printers_manage d call s
  handle default_route call s = printers_default d call s
  handle drawer_route call s = printers_drawer d call s
  handle history_route call s = (no_history, s)
  handle logs_route call s = (no_logs, s)
  handle test_route call s = test_print d call s
  handle config_route call s = config d call s
  handle register_route call s = register d call s
  handle unregister_route call s = unregister d call s
  handle open_data_route call s = open_data d call s
  handle ws_route call s =
      ((if same_origin d.names hosts call.request then upgraded else failed 403 ""), s)

  unfoldable pub handle_picked : Picked → Handler d
  unfolding handle
  handle_picked (unrouted code) call s = (failed code "", s)
  handle_picked (found route) call s = handle route call s

  module _ (mux : Mux) where
    unfoldable pub routed : Handler d
    unfolding handle_picked
    routed call s = handle_picked (mux patterns call.request.method call.path) call s

    module _ (encode : Reply → String) where
      unfoldable pub code_of : Reply → ℕ
      code_of (failed code msg) = code
      code_of upgraded = 101
      code_of _ = 200

      unfoldable pub respond : List (String × String) → Reply × Panel W → Response × Panel W
      unfolding code_of
      respond headers (reply, s) =
          (record { status = code_of reply; headers = headers; body = encode reply }, s)

      -- `routes`: the multiplexer behind the guard.
      unfoldable pub served : Call → Panel W → Response × Panel W
      unfolding routed respond
      served call s =
          wrap d.names hosts
            (λ headers r t. respond headers (routed (record call { request = r }) t)) call.request s

      -- The panel after any number of requests.
      unfoldable pub serve_all : List Call → Panel W → Panel W
      unfolding served
      serve_all [] s = s
      serve_all (call ∷ calls) s = serve_all calls (served call s).1
