-- ===== src/Panel/Routes/Own.antt =====
-- Which requests act: the guard, the multiplexer and the handlers together.
use tera_agent.Base.{
  true, String, str_eq, eq_iff, some, ◌≡◌, refl, sym, ap, subst, ◌⊎◌, inl, inr, Bool-cases, All,
  All-Memᴰ, Memᴰ, arith,
}
use tera_agent.Failure.{Error, err}
use tera_agent.Panel.{Hosts, is_safe_method, new_guard}
use tera_agent.Panel.Reach.{IsLocal, IsOwn, wrap-IsLocal}
use tera_agent.Panel.Server.{Deps, Panel, Reply, Call}
use tera_agent.Panel.Server.Printers.{printers, list_printers}
use tera_agent.Panel.Server.Connection.{status, config, decoded_settings, show_settings}
use tera_agent.Panel.Routes.{
  Route, static_files, status_route, printers_route, manage_route, default_route, drawer_route,
  history_route, logs_route, test_route, config_route, register_route, unregister_route,
  open_data_route, ws_route, Pattern, Picked, found, unrouted, Mux, patterns, handle, handle_picked,
  routed, respond, served,
}

-- What `http.ServeMux` documents: the pattern that it picks has the request's method, and a pattern of
-- GET takes HEAD too.
pub record IsMux (mux : Mux) : Type 0 where
  pub picks :
      (method path : String) (route : Route)
      → mux patterns method path ≡ found route
      → (p : Pattern) × Memᴰ p patterns
        × (p.route ≡ route)
        × ((p.method ≡ method) ⊎ ((p.method ≡ "GET") × (method ≡ "HEAD")))

-- The routes that only show.
abbrev pub Shows : Route → Type 0
Shows static_files = Unit
Shows status_route = Unit
Shows printers_route = Unit
Shows history_route = Unit
Shows logs_route = Unit
Shows config_route = Unit
Shows ws_route = Unit
Shows _ = ⊥

patterns-Shows : All (λ (p : Pattern). is_safe_method p.method ≡ true → Shows p.route) patterns
patterns-Shows = ground arith

module _ {Image W : Type 0} (d : Deps Image W) (hosts : Hosts) where
  -- Nothing is done but that the printers are listed.
  abbrev pub Reads : Panel W → Panel W → Type 0
  Reads s t = (t ≡ s) ⊎ (t ≡ record s { world = (d.discovery s.world).1 })

  -- A request of HEAD carries no settings: browsers send it with no body.
  abbrev pub HeadIsBare : Call → Type 0
  HeadIsBare call = call.request.method ≡ "HEAD" → (e : Error) × (d.settings call.body ≡ err e)

  safe_methods : (m : String) → is_safe_method m ≡ true → (m ≡ "GET") ⊎ (m ≡ "HEAD")
  safe_methods m h = elim (Bool-cases (str_eq m "GET")) [
    | inl e ↦ inl ((eq_iff m "GET").0 e)
    | inr e ↦ inr ((eq_iff m "HEAD").0 (ground (arith, e)))
  ]

  config-Reads :
      (call : Call) (s : Panel W)
      → (call.request.method ≡ "GET") ⊎ (call.request.method ≡ "HEAD")
      → HeadIsBare call
      → (config d call s).1 ≡ s
  unfolding config decoded_settings show_settings
  config-Reads call s (inl e) bare = rw ((eq_iff call.request.method "GET").1 e) refl
  config-Reads call s (inr e) bare =
      let (x, f) = bare e in
      elim (Bool-cases (str_eq call.request.method "GET")) [
        | inl g ↦ rw g refl
        | inr g ↦ rw (g, f) refl
      ]

  printers-Reads :
      (call : Call) (s : Panel W)
      → (call.request.method ≡ "GET") ⊎ (call.request.method ≡ "HEAD")
      → (printers d call s).1 ≡ record s { world = (d.discovery s.world).1 }
  unfolding printers list_printers
  printers-Reads call s safe = elim (Bool-cases (str_eq call.request.method "DELETE")) [
    | inr e ↦ rw e refl
    | inl e ↦ absurd (by ((eq_iff call.request.method "DELETE").0 e) safe)
  ]
    where
      by : {m : String} → m ≡ "DELETE" → (m ≡ "GET") ⊎ (m ≡ "HEAD") → ⊥
      by e (inl f) = cc
      by e (inr f) = cc

  handle-Reads :
      (route : Route) (call : Call) (s : Panel W)
      → Shows route
      → (call.request.method ≡ "GET") ⊎ (call.request.method ≡ "HEAD")
      → HeadIsBare call
      → Reads s (handle d hosts route call s).1
  unfolding handle status
  handle-Reads static_files call s _ safe bare = inl refl
  handle-Reads status_route call s _ safe bare = inl refl
  handle-Reads printers_route call s _ safe bare = inr (printers-Reads call s safe)
  handle-Reads history_route call s _ safe bare = inl refl
  handle-Reads logs_route call s _ safe bare = inl refl
  handle-Reads config_route call s _ safe bare = inl (config-Reads call s safe bare)
  handle-Reads ws_route call s _ safe bare = inl refl
  handle-Reads manage_route call s h safe bare = elim h [ ]
  handle-Reads default_route call s h safe bare = elim h [ ]
  handle-Reads drawer_route call s h safe bare = elim h [ ]
  handle-Reads test_route call s h safe bare = elim h [ ]
  handle-Reads register_route call s h safe bare = elim h [ ]
  handle-Reads unregister_route call s h safe bare = elim h [ ]
  handle-Reads open_data_route call s h safe bare = elim h [ ]

  module _ (mux : Mux) (law : IsMux mux) where
    pub route-Shows :
        (method path : String) (route : Route)
        → is_safe_method method ≡ true
        → mux patterns method path ≡ found route
        → Shows route
    route-Shows method path route safe e =
        let (p, listed, same, by_method) = law.picks method path route e in
        subst Shows same (
          All-Memᴰ (λ (q : Pattern). is_safe_method q.method ≡ true → Shows q.route) patterns
            patterns-Shows listed (pattern_safe by_method))
      where
        pattern_safe :
            {m : String}
            → (m ≡ method) ⊎ ((m ≡ "GET") × (method ≡ "HEAD"))
            → is_safe_method m ≡ true
        pattern_safe (inl f) = subst (λ (n : String). is_safe_method n ≡ true) (sym f) safe
        pattern_safe (inr (f, _)) = subst (λ (n : String). is_safe_method n ≡ true) (sym f) refl

    routed-Reads :
        (call : Call) (s : Panel W)
        → is_safe_method call.request.method ≡ true
        → HeadIsBare call
        → Reads s (routed d hosts mux call s).1
    unfolding routed handle_picked
    routed-Reads call s safe bare = by (mux patterns call.request.method call.path) refl
      where
        methods : (call.request.method ≡ "GET") ⊎ (call.request.method ≡ "HEAD")
        methods = safe_methods call.request.method safe

        by :
            (p : Picked)
            → mux patterns call.request.method call.path ≡ p
            → Reads s (handle_picked d hosts p call s).1
        by (unrouted code) e = inl refl
        by (found route) e =
            handle-Reads route call s (route-Shows call.request.method call.path route safe e)
              methods bare

    -- Where the guard is that of the panel's address and the multiplexer is as documented: a request
    -- does nothing but that the printers are listed; or it comes from the panel itself: its host is a
    -- loopback name with the panel's port, its origin is the panel's own and its body is JSON. A
    -- request of HEAD must carry no settings.
    pub served-IsOwn :
        (encode : Reply → String) (addr : String) (call : Call) (s : Panel W)
        → new_guard d.names addr ≡ some hosts
        → HeadIsBare call
        → Reads s (served d hosts mux encode call s).1
          ⊎ (IsLocal d.names addr call.request.host × IsOwn d.names call.request)
    unfolding served respond
    served-IsOwn encode addr call s made bare =
        elim (wrap-IsLocal d.names addr hosts
          (λ headers r t.
            respond d hosts mux encode headers (routed d hosts mux (record call { request = r }) t))
          call.request s made) [
            | inl (x, code, headers, e) ↦ inl (inl (ap (λ r. r.1) e))
            | inr (e, here, own) ↦ elim (Bool-cases (is_safe_method call.request.method)) [
              | inr acts ↦ inr (here, own acts)
              | inl safe ↦
                  inl (subst (Reads s) (sym (ap (λ r. r.1) e)) (routed-Reads call s safe bare))
            ]
          ]
