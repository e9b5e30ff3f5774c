-- ===== src/Session/Tests.antt =====
-- A session that receives one job over a transport that fails after four frames, and the theorems of
-- the session at this input.
use tera_agent.Base.{
  ◌≡◌, ◌≢◌, inl, refl, Bool, true, false, none, some, List, [], ◌∷◌, ◌++◌, String, leb,
  if◌then◌else◌, length,
}
use tera_agent.Base.Int.{ℤ, pos, ◌≤ℤ◌}
use tera_agent.Maps.{get, has, put}
use tera_agent.Config.{Config}
use tera_agent.Failure.{ok, err, external}
use tera_agent.Printing.{Bytes}
use tera_agent.Agent.{starting, shutting_down, connecting, transition, can_transition, notify}
use tera_agent.Profiles.Cache.{Cache}
use tera_agent.Dispatch.{Dispatcher, kind_print, dispatch}
use tera_agent.Store.{Disk, seen, mark_done, add_pending, take_pending}
use tera_agent.Store.Prune.{IsByAge}
use tera_agent.Session.{
  Lifecycle, Session, Transport, Codec, send, emit_result, handle_job, handle, set_state,
  flush_pending,
}
use tera_agent.Session.Messages.{Outgoing, job_completed, job_failed, JobMessage, ErrorBody}
use tera_agent.Session.Jobs.{confirmed, dispatched, handle_job-twice}
use tera_agent.Session.Connection.{
  Attempt, tick, expired, run_once, run, authenticated, registered, serve,
}
use tera_agent.Session.Connection.Delivery.{jobs_of_attempt, jobs_of_run}
use tera_agent.Session.Connection.Phases.{current, run-current}

-- The world is the frames that the transport accepted.
abbrev World : Type 0
World = List Bytes

-- The first byte of a frame of a result is at least 10.
abbrev frame_of : Outgoing → Bytes
frame_of (job_completed id duration) = 10 ∷ []
frame_of (job_failed id body) = 11 ∷ []
frame_of _ = 1 ∷ []

abbrev counted : Bytes → Bool
counted [] = false
counted (b ∷ bytes) = leb 10 b

abbrev lost : World → Bool
lost w = leb 4 (length w)

abbrev transport : Transport World
transport = record {
  connect = λ w. (ok tt, w);
  send = λ frame w. if lost w then (err (external "closed"), w) else (ok tt, w ++ frame ∷ []);
  close = λ w. w;
}

abbrev no_error : ErrorBody
no_error = record { code = ""; message = "" }

abbrev type_of : Bytes → String
type_of [] = ""
type_of (b ∷ bytes) = if leb 7 b then "job" else "authenticated"

abbrev job : JobMessage
job = record { id = "a"; job_type = "print"; payload = [] }

abbrev codec : Codec
codec = record {
  marshal = λ msg. some (frame_of msg);
  type_of = type_of;
  authenticated = λ _. record {
    agent_id = "1";
    company_id = "";
    branch_id = "";
    company_name = "";
    branch_name = "";
    equipo = "";
  };
  auth_error = λ _. record { error = no_error; retryable = false };
  profiles_sync = λ _. none;
  profile_update = λ _. none;
  config = λ _. none;
  job = λ _. some job;
}

abbrev printing : Cache → Dispatcher World
printing c = (kind_print, (λ j w. (ok tt, w))) ∷ []

abbrev config : Config
config = record {
  backend_url = "wss://backend";
  token = "t";
  agent_id = "i";
  default_printer = "";
  printers = [];
  cut_feed_dots = pos 0;
  top_margin_dots = pos 0;
  page_margin_mm = pos 0;
  heartbeat_interval = pos 0;
  log_level = "info";
  log_file = "";
  log_max_size_mb = pos 0;
  log_max_backups = pos 0;
  http_addr = "";
  http_token = "";
  insecure_skip_verify = false;
  data_dir = "";
}

abbrev disk : Disk
disk = record { marshal = λ _. none; unmarshal = λ _. none }

abbrev lifecycle : Lifecycle World
lifecycle = record {
  transport = transport;
  codec = codec;
  dispatcher = printing;
  printers = λ w. ([], w);
  config = config;
  version = "1.0.0";
  disk = disk;
  by_age = λ m. m;
  saves = λ _. true;
  now = λ _. pos 5;
  elapsed = λ _ _. pos 0;
  memory = λ _. 0;
  uptime = λ _. pos 0;
  hostname = "caja";
  os = "windows";
  message = λ _. "";
}

abbrev session : Session World
session = record {
  machine = record { current = starting; observers = [] };
  store = record { done = []; pending = []; file = none };
  profiles = [];
  info = none;
  interval = pos 30;
  world = [];
}

-- The first attempt is authenticated and receives the job, which is completed when the transport no
-- longer sends; the context is cancelled in the wait after the second.
abbrev attempts : List Attempt
attempts =
    record {
      replies = (2 ∷ []) ∷ (7 ∷ []) ∷ [];
      wait = expired;
      inputs = tick ∷ [];
      cancelled_after = false;
      cancelled_waiting = false;
    }
    ∷ record {
      replies = [];
      wait = expired;
      inputs = [];
      cancelled_after = false;
      cancelled_waiting = true;
    }
    ∷ []

-- The result waits after the run.
result_waits : (run lifecycle attempts session).0.store.pending ≡ (10 ∷ []) ∷ []
unfolding run run_once set_state transition can_transition notify authenticated registered send
    handle handle_job emit_result seen mark_done add_pending take_pending flush_pending serve
    dispatch has get put
result_waits = refl

one_job : jobs_of_run lifecycle attempts session ≡ job ∷ []
unfolding jobs_of_run jobs_of_attempt run_once set_state transition can_transition notify
    authenticated registered send handle handle_job emit_result seen mark_done add_pending
    take_pending flush_pending serve dispatch has get put
one_job = refl

run-current_example : current (run lifecycle attempts session).0 ≡ shutting_down
run-current_example = run-current lifecycle attempts session (inl refl)

abbrev first_attempt : Attempt
first_attempt = record {
  replies = (2 ∷ []) ∷ (7 ∷ []) ∷ [];
  wait = expired;
  inputs = tick ∷ [];
  cancelled_after = false;
  cancelled_waiting = false;
}

abbrev begun : Session World
begun = set_state lifecycle connecting session

abbrev failing : Cache → Dispatcher World
failing c = (kind_print, (λ j w. (err (external "paper"), w))) ∷ []

abbrev done_already : Session World
done_already = record session {
  store = record { done = ("a", pos 1) ∷ []; pending = []; file = none };
}

seen_already : seen done_already.store "a" ≡ true
unfolding seen has
seen_already = refl

unseen : seen session.store "a" ≡ false
unfolding seen has
unseen = refl

abbrev broken : Lifecycle World
broken = record lifecycle { dispatcher = failing }

fails : (dispatched broken job session).0 ≡ err (external "paper")
unfolding dispatch get send
fails = refl

prints : (dispatched lifecycle job session).0 ≡ ok tt
unfolding dispatch get send
prints = refl

sorted : IsByAge (put "a" (pos 5) []) (put "a" (pos 5) [])
unfolding put has
sorted = record { same = λ k. refl; distinct = (refl, tt); sized = refl; aged = (tt, tt) }

newest : (j : String) (u : ℤ) → "a" ≢ j → get j [] ≡ some u → ¬ (pos 5 ≤ℤ u)
unfolding get
newest j u differs e = cc

handle_job-twice_example :
    let after = handle_job lifecycle job session in
    handle_job (record lifecycle { dispatcher = failing }) job after
    ≡ emit_result lifecycle (job_completed "a" (pos 0)) (confirmed lifecycle job after)
handle_job-twice_example = handle_job-twice lifecycle job session prints tt sorted newest failing
