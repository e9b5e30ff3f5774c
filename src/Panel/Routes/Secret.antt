-- ===== src/Panel/Routes/Secret.antt =====
-- What the panel shows of the token.
use tera_agent.Base.{
  ◌-◌, ◌≤◌, ◌<◌, true, false, String, str_eq, eq_iff, List, [], ◌++◌, ◌≡◌, ◌≢◌, refl, sym, ap, ◌∙◌,
  inl, inr, Bool-cases, length, drop, length-append, drop-length-append, arith,
}
use tera_agent.Config.{Config, page_mode_of}
use tera_agent.Failure.{Result, ok, err}
use tera_agent.Printing.{Bytes}
use tera_agent.Texts.{utf8}
use tera_agent.Panel.{Hosts, protecting, is_safe_method, allowed_host, wrap}
use tera_agent.Panel.Server.{Deps, Panel, Reply, Call, Printer}
use tera_agent.Panel.Server.Printers.{printers, list_printers, listed, view_of}
use tera_agent.Panel.Server.Connection.{status, config, show_settings, token_hint}
use tera_agent.Panel.Routes.{
  Route, static_files, status_route, printers_route, manage_route, default_route, drawer_route,
  history_route, logs_route, test_route, config_route, register_route, unregister_route,
  open_data_route, ws_route, handle, handle_picked, Picked, found, unrouted, Mux, patterns, routed,
  respond, served,
}
use tera_agent.Panel.Routes.Own.{IsMux, Shows, route-Shows}

-- The panel with another token.
abbrev pub with_secret : {W : Type 0} → String → Panel W → Panel W
with_secret token s = record s { cfg = record s.cfg { token = token } }

-- Two tokens of which the same may be known: both are empty, both are of fewer than eight bytes, or both
-- are of eight at least and end in the same four.
pub data Alike (a b : String) : Type 0 where
  both_empty : a ≡ "" → b ≡ "" → Alike a b
  both_short : a ≢ "" → b ≢ "" → length (utf8 a) < 8 → length (utf8 b) < 8 → Alike a b
  same_end :
      (front front' last : Bytes)
      → 4 ≤ length front
      → 4 ≤ length front'
      → length last ≡ 4
      → utf8 a ≡ front ++ last
      → utf8 b ≡ front' ++ last
      → Alike a b

is_set : (a : String) → a ≢ "" → str_eq a "" ≡ false
is_set a h = ground (arith, eq_iff a "", h)

long_is_set : (a : String) → 8 ≤ length (utf8 a) → str_eq a "" ≡ false
unfolding utf8
long_is_set a h = is_set a (λ e. omega (arith, h, ap (λ x. length (utf8 x)) e))

ends_long :
    (bytes front last : Bytes)
    → 4 ≤ length front
    → length last ≡ 4
    → bytes ≡ front ++ last
    → 8 ≤ length bytes
ends_long bytes front last h k e = omega (arith, ap (λ l. length l) e, length-append front last)

short_hint : (bytes : Bytes) → length bytes < 8 → token_hint bytes ≡ []
unfolding token_hint
short_hint bytes h = ground (arith, h)

end_hint :
    (bytes front last : Bytes)
    → 4 ≤ length front
    → length last ≡ 4
    → bytes ≡ front ++ last
    → token_hint bytes ≡ last
unfolding token_hint
end_hint bytes front last h k e =
    let long = ends_long bytes front last h k e in
    let at_end : drop (length bytes - 4) bytes ≡ last =
      ap (drop (length bytes - 4)) e
      ∙ drop-length-append front last (length bytes - 4)
          (omega (arith, k, ap (λ l. length l) e, length-append front last)) in
    ground (arith, long, at_end)

-- Whether there is a token, and what the panel shows of it.
Alike-shown :
    (a b : String)
    → Alike a b
    → (str_eq a "" ≡ str_eq b "") × (token_hint (utf8 a) ≡ token_hint (utf8 b))
Alike-shown a b (both_empty e f) = rw (e, f) (refl, refl)
Alike-shown a b (both_short e f h k) =
    (is_set a e ∙ sym (is_set b f), short_hint (utf8 a) h ∙ sym (short_hint (utf8 b) k))
Alike-shown a b (same_end front front' last h h' k e e') = (
  long_is_set a (ends_long (utf8 a) front last h k e)
      ∙ sym (long_is_set b (ends_long (utf8 b) front' last h' k e')),
  end_hint (utf8 a) front last h k e ∙ sym (end_hint (utf8 b) front' last h' k e'),
)

module _ {Image W : Type 0} (d : Deps Image W) (hosts : Hosts) where
  listed-with_secret :
      (cfg : Config) (token : String) (r : Result (List Printer))
      → listed (record cfg { token = token }) r ≡ listed cfg r
  unfolding listed view_of page_mode_of
  listed-with_secret cfg token (err e) = refl
  listed-with_secret cfg token (ok ps) = refl

  handle-with_secret :
      (route : Route) (call : Call) (s : Panel W) (token : String)
      → Shows route
      → call.request.method ≡ "GET"
      → str_eq token "" ≡ str_eq s.cfg.token ""
      → token_hint (utf8 token) ≡ token_hint (utf8 s.cfg.token)
      → (handle d hosts route call (with_secret token s)).0 ≡ (handle d hosts route call s).0
  unfolding handle status config show_settings printers list_printers
  handle-with_secret static_files call s token _ get set hint = refl
  handle-with_secret status_route call s token _ get set hint = rw set refl
  handle-with_secret printers_route call s token _ get set hint =
      rw get (listed-with_secret s.cfg token (d.discovery s.world).0)
  handle-with_secret history_route call s token _ get set hint = refl
  handle-with_secret logs_route call s token _ get set hint = refl
  handle-with_secret config_route call s token _ get set hint = rw (get, set, hint) refl
  handle-with_secret ws_route call s token _ get set hint = refl
  handle-with_secret manage_route call s token h get set hint = elim h [ ]
  handle-with_secret default_route call s token h get set hint = elim h [ ]
  handle-with_secret drawer_route call s token h get set hint = elim h [ ]
  handle-with_secret test_route call s token h get set hint = elim h [ ]
  handle-with_secret register_route call s token h get set hint = elim h [ ]
  handle-with_secret unregister_route call s token h get set hint = elim h [ ]
  handle-with_secret open_data_route call s token h get set hint = elim h [ ]

  module _ (mux : Mux) (law : IsMux mux) where
    routed-with_secret :
        (call : Call) (s : Panel W) (token : String)
        → call.request.method ≡ "GET"
        → str_eq token "" ≡ str_eq s.cfg.token ""
        → token_hint (utf8 token) ≡ token_hint (utf8 s.cfg.token)
        → (routed d hosts mux call (with_secret token s)).0 ≡ (routed d hosts mux call s).0
    unfolding routed handle_picked
    routed-with_secret call s token get set hint =
        by (mux patterns call.request.method call.path) refl
      where
        by :
            (p : Picked)
            → mux patterns call.request.method call.path ≡ p
            → (handle_picked d hosts p call (with_secret token s)).0
              ≡ (handle_picked d hosts p call s).0
        by (unrouted code) e = refl
        by (found route) e =
            handle-with_secret route call s token
              (route-Shows d hosts mux law call.request.method call.path route (rw get refl) e) get
              set hint

    -- A response to GET is the same for every token of which the same may be known: that there is none,
    -- that there is one of fewer than eight bytes, or its last four bytes where it has eight at least. The
    -- multiplexer is as documented.
    pub served-with_secret :
        (encode : Reply → String) (call : Call) (s : Panel W) (token : String)
        → call.request.method ≡ "GET"
        → Alike token s.cfg.token
        → (served d hosts mux encode call (with_secret token s)).0
          ≡ (served d hosts mux encode call s).0
    unfolding served wrap respond
    served-with_secret encode call s token get alike =
        elim (Bool-cases (allowed_host d.names hosts call.request)) [
          | inr e ↦ rw e refl
          | inl e ↦
              let (set, hint) = Alike-shown token s.cfg.token alike in
              rw (e, safe)
                (ap (λ r. (respond d hosts mux encode protecting (r, s)).0)
                  (routed-with_secret call s token get set hint))
        ]
      where
        safe : is_safe_method call.request.method ≡ true
        safe = rw get refl
