-- ===== src/Panel.antt =====
-- internal/adapters/ui/guard.go: what a request must have to reach the panel. `Names` is what Go's
-- libraries do with names and headers: `strings.ToLower` and `EqualFold`, `net.SplitHostPort`,
-- `JoinHostPort` and the loopback addresses, and the media type of `mime`. The protecting headers of a
-- response are its field `headers`.
pub mod Managed
pub mod Local
pub mod Server
pub mod Routes
pub mod Reach
mod Tests
use Prim.Native.String.{◌++◌ as str_append}
use tera_agent.Base.{
  ℕ, Bool, true, false, ◌&&◌, ◌||◌, not, Option, none, some, List, [], ◌∷◌, ◌++◌, String, str_eq,
  if◌then◌else◌,
}

pub record Names : Type 0 where
  pub lower : String → String
  pub equal_fold : String → String → Bool
  pub split_host_port : String → Option (String × String)
  pub join_host_port : String → String → String
  pub is_loopback_ip : String → Bool
  pub media_type : String → Option String

pub record Request : Type 0 where
  pub method : String
  pub host : String
  pub origin : String
  pub content_type : String
  pub over_tls : Bool

pub record Response : Type 0 where
  pub status : ℕ
  pub headers : List (String × String)
  pub body : String

abbrev pub Hosts : Type 0
Hosts = List String

abbrev pub protecting : List (String × String)
protecting =
    ("X-Frame-Options", "DENY")
    ∷ ("Content-Security-Policy", "frame-ancestors 'none'")
    ∷ ("X-Content-Type-Options", "nosniff")
    ∷ []

abbrev pub is_safe_method : String → Bool
is_safe_method m = str_eq m "GET" || str_eq m "HEAD"

unfoldable pub contains : Hosts → String → Bool
contains [] host = false
contains (h ∷ hosts) host = str_eq h host || contains hosts host

abbrev pub forbidden : ℕ → String → Response
forbidden status body = record { status = status; headers = protecting; body = body }

module _ (names : Names) where
  abbrev pub is_loopback_host : String → Bool
  is_loopback_host host = names.equal_fold host "localhost" || names.is_loopback_ip host

  hosts_of : Option (String × String) → Option Hosts
  hosts_of none = none
  hosts_of (some (host, port)) =
      if str_eq port ""
      then none
      else some (
          names.join_host_port "localhost" port
          ∷ names.join_host_port "127.0.0.1" port
          ∷ (if is_loopback_host host
              then names.lower (names.join_host_port host port) ∷ []
              else []))

  -- `newGuard`, with `none` for the error on an address.
  unfoldable pub new_guard : String → Option Hosts
  unfolding hosts_of
  new_guard addr = hosts_of (names.split_host_port addr)

  abbrev pub allowed_host : Hosts → Request → Bool
  allowed_host hosts r = contains hosts (names.lower r.host)

  abbrev pub scheme : Request → String
  scheme r = if r.over_tls then "https" else "http"

  -- `sameOrigin`, which is also the check of the panel's web socket.
  unfoldable pub same_origin : Hosts → Request → Bool
  same_origin hosts r =
      allowed_host hosts r
      && names.equal_fold r.origin (str_append (scheme r) (str_append "://" r.host))

  is_media : Option String → Bool
  is_media none = false
  is_media (some m) = str_eq m "application/json"

  unfoldable pub is_json : Request → Bool
  unfolding is_media
  is_json r = is_media (names.media_type r.content_type)

  -- `wrap`: `next` answers with the protecting headers that stand.
  unfoldable pub wrap :
      {W : Type 0}
      → Hosts
      → (List (String × String) → Request → W → Response × W)
      → Request
      → W
      → Response × W
  unfolding contains
  wrap hosts next r w =
      if not (allowed_host hosts r)
      then (forbidden 403 "host no permitido", w)
      else if is_safe_method r.method
      then next protecting r w
      else if not (same_origin hosts r)
      then (forbidden 403 "origen no permitido", w)
      else if not (is_json r)
      then (forbidden 415 "se requiere Content-Type application/json", w)
      else next protecting r w
