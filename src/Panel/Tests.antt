-- ===== src/Panel/Tests.antt =====
-- A panel on the loopback address, requests for it, and the theorem of the guard at one of them.
use Prim.Native.String.{◌++◌ as str_append}
use tera_agent.Base.{
  ℕ, suc, ◌≡◌, refl, false, none, some, List, [], ◌∷◌, String, str_eq, if◌then◌else◌,
}
use tera_agent.Panel.{Names, Request, Response, Hosts, new_guard, same_origin, wrap, forbidden}

abbrev names : Names
names = record {
  lower = λ s. s;
  equal_fold = str_eq;
  split_host_port =
      λ addr. if str_eq addr "127.0.0.1:9180" then some ("127.0.0.1", "9180") else none;
  join_host_port = λ host port. str_append host (str_append ":" port);
  is_loopback_ip = λ host. str_eq host "127.0.0.1";
  media_type = λ s. some s;
}

abbrev hosts : Hosts
hosts = "localhost:9180" ∷ "127.0.0.1:9180" ∷ "127.0.0.1:9180" ∷ []

made : new_guard names "127.0.0.1:9180" ≡ some hosts
unfolding new_guard
made = refl

-- A page of another site sends a change; the world counts the requests that come to the panel.
abbrev forged : Request
forged = record {
  method = "POST";
  host = "127.0.0.1:9180";
  origin = "https://evil.example";
  content_type = "text/plain";
  over_tls = false;
}

abbrev next : List (String × String) → Request → ℕ → Response × ℕ
next headers r w = (record { status = 200; headers = headers; body = "" }, suc w)

forged-forbidden : wrap names hosts next forged 0 ≡ (forbidden 403 "origen no permitido", 0)
unfolding wrap same_origin
forged-forbidden = refl
