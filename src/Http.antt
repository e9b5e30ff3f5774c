-- ===== src/Http.antt =====
-- internal/adapters/api/httpapi/server.go: the local print service. A handler takes a request and gives
-- a response, and changes the world through the engine alone; the lock around a print makes it one
-- step. `profile_or` is that of the profiles, which the service only reads. The routing by path, the
-- start and the end of the server are Go's library.
pub mod Parse
pub mod Access
mod Tests
use tera_agent.Base.{
  ℕ, Bool, true, false, ◌&&◌, not, Option, none, some, List, [], ◌∷◌, String, str_eq, if◌then◌else◌,
}
use Prim.Native.String.{◌++◌ as str_append}
use tera_agent.Base.Int.{ℤ, pos, eqb_ℤ}
use tera_agent.Failure.{Error, Result, ok, err}
use tera_agent.Printing.{Bytes, PrinterProfile, PrintJob}
use tera_agent.Printing.Format
use tera_agent.Printing.Device
use tera_agent.Print.Engine.{Engine, print_with_profile}
use tera_agent.Http.Parse.{PrintRequest, Reader, parse_request}

pub record Request (Body : Type 0) : Type 0 where
  pub method : String
  pub authorization : String
  pub content_type : String
  pub body : Body

-- The status and, for an error, its key.
pub record Response : Type 0 where
  pub status : ℕ
  pub key : String

abbrev pub done : Response
done = record { status = 200; key = "" }

abbrev pub refusal : ℕ → String → Response
refusal status key = record { status = status; key = key }

abbrev pub Handler : Type 0 → Type 0 → Type 0
Handler Body W = Request Body → W → Response × W

pub record Server (Image Body W : Type 0) : Type 0 where
  pub engine : Engine Image W
  pub profile_or : String → PrinterProfile → PrinterProfile
  pub printers : W → Result (List String) × W
  pub reader : Reader Body
  pub token : String

paper_width : PrintRequest → ℤ
paper_width r = if eqb_ℤ r.paper (pos 58) then pos 384 else pos 576

pub width_of : PrintRequest → ℤ
unfolding paper_width
width_of r = if eqb_ℤ r.width (pos 0) then paper_width r else r.width

abbrev or_true : Option Bool → Bool
or_true none = true
or_true (some b) = b

-- The profile of a printer that has none.
unfoldable pub fallback_profile : PrintRequest → PrinterProfile
unfolding width_of
fallback_profile r = record {
  printer_id = r.printer;
  native_formats = Device.escpos ∷ [];
  width_dots = width_of r;
  dpi = pos 203;
  supports_cut = true;
  supports_drawer = true;
  meta = [];
}

unfoldable pub job_of : PrintRequest → PrintJob
job_of r = record {
  printer_id = r.printer;
  format = if str_eq r.format "" then Format.pdf else r.format;
  content = r.content;
  options = record { copies = pos 1; cut = or_true r.cut; open_drawer = r.drawer };
}

is_empty : Bytes → Bool
is_empty [] = true
is_empty (b ∷ bytes) = false

printed : {W : Type 0} → Result (Unit {0}) × W → Response × W
printed (ok _, w) = (done, w)
printed (err e, w) = (refusal 502 "print_failed", w)

listed : {W : Type 0} → Result (List String) × W → Response × W
listed (ok _, w) = (done, w)
listed (err e, w) = (refusal 500 "discovery_failed", w)

module _ {Image Body W : Type 0} (s : Server Image Body W) where
  unfoldable pub auth : Handler Body W → Handler Body W
  auth next r w =
      if not (str_eq s.token "") && not (str_eq r.authorization (str_append "Bearer " s.token))
      then (refusal 401 "unauthorized", w)
      else next r w

  unfoldable pub handle_health : Handler Body W
  handle_health r w = (done, w)

  unfoldable pub handle_printers : Handler Body W
  unfolding listed
  handle_printers r w = listed (s.printers w)

  print_request : PrintRequest → W → Response × W
  unfolding printed job_of fallback_profile
  print_request req w =
      printed (
        print_with_profile s.engine (job_of req) (s.profile_or req.printer (fallback_profile req))
          w)

  handle_request : Result PrintRequest → W → Response × W
  unfolding print_request is_empty
  handle_request (err e) w = (refusal 400 "bad_request", w)
  handle_request (ok req) w =
      if str_eq req.printer ""
      then (refusal 400 "bad_request", w)
      else if is_empty req.content
      then (refusal 400 "bad_request", w)
      else print_request req w

  unfoldable pub handle_print : Handler Body W
  unfolding handle_request
  handle_print r w =
      if str_eq r.method "POST"
      then handle_request (parse_request s.reader r.content_type r.body) w
      else (refusal 405 "method_not_allowed", w)

  -- The route `/print`.
  unfoldable pub print_route : Handler Body W
  unfolding auth
  print_route = auth handle_print
