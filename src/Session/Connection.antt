-- ===== src/Session/Connection.antt =====
-- internal/app/lifecycle/lifecycle.go: an attempt to connect, from the transport's `Connect` to its
-- `Close`, and the loop of `Run`. An attempt is given by the frames that come in before the wait of
-- `authenticate` ends, how that wait ends if none of them decides, the inputs of `serve`, how it ends,
-- and whether the context is cancelled after the attempt or in the wait that follows.
pub mod Handshake
pub mod Delivery
pub mod Phases
use tera_agent.Base.{
  ℕ, ◌*◌, Bool, true, false, Option, none, some, List, [], ◌∷◌, ◌++◌, map, String, str_eq, ltb,
  if◌then◌else◌,
}
use tera_agent.Base.Duration.{second}
use tera_agent.Base.Int.{ℤ, pos, leb_ℤ}
use tera_agent.Config.{ManagedPrinter}
use tera_agent.Failure.{Error, Result, ok, err, external}
use tera_agent.Printing.{Bytes}
use tera_agent.Agent.{
  State, starting, connecting, authenticating, registering, connected, disconnected, reconnecting,
  offline, error, shutting_down,
}
use tera_agent.Session.{
  Lifecycle, Session, Info, Identity, Discovered, set_state, send, handle, flush_pending,
}
use tera_agent.Session.Messages.{
  Outgoing, PrinterDto, Authenticated, hello, authenticate, register, capabilities, heartbeat,
  protocol_version, type_authenticated, type_auth_error,
}

-- How the wait of `authenticate` ends: the context, the timeout or the channel.
pub data Wait : Type 0 where
  cancelled : Wait
  expired : Wait
  closed : Wait

pub data Input : Type 0 where
  tick : Input
  received : Bytes → Input

pub record Attempt : Type 0 where
  pub replies : List Bytes
  pub wait : Wait
  pub inputs : List Input
  pub cancelled_after : Bool
  pub cancelled_waiting : Bool

abbrev pub default_heartbeat : ℤ
default_heartbeat = pos (30 * second)

abbrev pub first_backoff : ℕ
first_backoff = 1

abbrev pub max_backoff : ℕ
max_backoff = 60

-- `string(l.machine.Current())`
pub state_name : State → String
state_name starting = "STARTING"
state_name connecting = "CONNECTING"
state_name authenticating = "AUTHENTICATING"
state_name registering = "REGISTERING"
state_name connected = "CONNECTED"
state_name disconnected = "DISCONNECTED"
state_name reconnecting = "RECONNECTING"
state_name offline = "OFFLINE"
state_name error = "ERROR"
state_name shutting_down = "SHUTTING_DOWN"

abbrev pub first : String → String → String
first a b = if str_eq a "" then b else a

abbrev pub identity_of : Authenticated → Identity
identity_of m = record {
  uuid = m.agent_id;
  empresa = first m.company_name m.company_id;
  sucursal = first m.branch_name m.branch_id;
  equipo = m.equipo;
}

-- The map `managed` keeps the last printer of a name.
managed_as : String → List ManagedPrinter → Option ManagedPrinter
managed_as name [] = none
managed_as name (p ∷ ps) =
    let later = managed_as name ps in
    elim later [ some q ↦ some q | none ↦ if str_eq p.name name then some p else none ]

annotate : Discovered → Option ManagedPrinter → PrinterDto
annotate (name, driver) none = record {
  name = name;
  driver = driver;
  kind = driver;
  role = "";
  enabled = true;
}
annotate (name, driver) (some p) = record {
  name = name;
  driver = driver;
  kind = driver;
  role = p.role;
  enabled = p.enabled;
}

unfoldable pub printer_dto : List ManagedPrinter → Discovered → PrinterDto
unfolding managed_as annotate
printer_dto managed p = annotate p (managed_as p.0 managed)

abbrev pub next_backoff : ℕ → ℕ
next_backoff b = if ltb max_backoff (b * 2) then max_backoff else b * 2

touch : ℤ → Option Info → Option Info
touch now none = none
touch now (some info) = some (record info { last_sync = now })

identify : Identity → ℤ → Option Info → Option Info
identify identity now none = none
identify identity now (some info) = some (record { identity = identity; last_sync = now })

module _ {W : Type 0} (l : Lifecycle W) where
  -- The error, or the frames of the channel that are left for `serve`.
  pub await : List Bytes → Wait → Session W → Result (List Bytes) × Session W
  unfolding identify
  await [] cancelled s = (err (external "context"), s)
  await [] expired s = (err (external "authentication timeout"), s)
  await [] closed s = (err (external "connection closed during authentication"), s)
  await (raw ∷ frames) wait s =
      let later = await frames wait s in
      let type = l.codec.type_of raw in
      if str_eq type type_authenticated
      then (
        ok frames,
        record s {
          info = identify (identity_of (l.codec.authenticated raw)) (l.now s.world) s.info;
        },
      )
      else if str_eq type type_auth_error
      then (err (external (l.codec.auth_error raw).error.code), set_state l error s)
      else later

  -- The second message is sent only if the first was, and the wait begins only if both were.
  await_after : Attempt → Result (Unit {0}) × Session W → Result (List Bytes) × Session W
  unfolding await
  await_after a (ok _, s) = await a.replies a.wait s
  await_after a (err e, s) = (err e, s)

  authenticate_after : Attempt → Result (Unit {0}) × Session W → Result (List Bytes) × Session W
  unfolding await_after
  authenticate_after a (ok _, s) = await_after a (send l (authenticate l.config.token) s)
  authenticate_after a (err e, s) = (err e, s)

  unfoldable pub authenticated : Attempt → Session W → Result (List Bytes) × Session W
  unfolding authenticate_after
  authenticated a s = authenticate_after a (
      send l
        (hello (record {
          agent_version = l.version;
          protocol_version = protocol_version;
          installation_id = l.config.agent_id;
          machine_id = l.hostname;
        }))
        (set_state l authenticating s))

  -- `register`: the errors of both messages are ignored.
  unfoldable pub registered : Session W → Session W
  registered s =
      let announced =
        (send l
          (register (record {
            hostname = l.hostname;
            os = l.os;
            os_version = "";
            agent_version = l.version;
            local_ip = "";
          }))
          (set_state l registering s)).1 in
      let found = l.printers announced.world in
      (send l (capabilities ("printer" ∷ []) (map (printer_dto l.config.printers) found.0))
        (record announced { world = found.1 })).1

  unfoldable pub send_heartbeat : Session W → Session W
  unfolding touch
  send_heartbeat s =
      (send l
        (heartbeat (record {
          state = state_name s.machine.current;
          uptime_s = l.uptime s.world;
          mem_bytes = l.memory s.world;
          version = l.version;
          pending_jobs = pos 0;
        }))
        (record s { info = touch (l.now s.world) s.info })).1

  take_input : Input → Session W → Session W
  unfolding send_heartbeat
  take_input tick s = send_heartbeat s
  take_input (received raw) s = handle l raw s

  -- The loop of `serve`, until the context is cancelled or the channel closed.
  pub serve_loop : List Input → Session W → Session W
  unfolding take_input
  serve_loop [] s = s
  serve_loop (i ∷ is) s = serve_loop is (take_input i s)

  unfoldable pub serve : List Input → Session W → Session W
  unfolding serve_loop
  serve inputs s =
      let interval = l.config.heartbeat_interval in
      serve_loop inputs
        (record s { interval = if leb_ℤ interval (pos 0) then default_heartbeat else interval })

  hang_up : Session W → Session W
  hang_up s = set_state l disconnected (record s { world = l.transport.close s.world })

  serve_after : Attempt → Result (List Bytes) × Session W → Session W
  unfolding serve
  serve_after a (err e, s) = s
  serve_after a (ok frames, s) =
      serve (map received frames ++ a.inputs)
        (flush_pending l (set_state l connected (registered s)))

  connected_or_not : Attempt → Result (Unit {0}) × W → Session W → Session W
  unfolding serve_after hang_up
  connected_or_not a (err e, w) s = set_state l disconnected (record s { world = w })
  connected_or_not a (ok _, w) s =
      hang_up (serve_after a (authenticated a (record s { world = w })))

  unfoldable pub run_once : Attempt → Session W → Session W
  unfolding connected_or_not
  run_once a s =
      let begun = set_state l connecting s in
      connected_or_not a (l.transport.connect begun.world) begun

  -- `Run`: the session after it, and the waits between the attempts, in seconds. With no attempt left
  -- the last wait is still on.
  pub run_loop : ℕ → List Attempt → Session W → Session W × List ℕ
  run_loop backoff [] s = (s, [])
  run_loop backoff (a ∷ attempts) s =
      let after = run_once a s in
      let waiting = set_state l reconnecting after in
      let later = run_loop (next_backoff backoff) attempts waiting in
      if a.cancelled_after
      then (set_state l shutting_down after, [])
      else if a.cancelled_waiting
      then (set_state l shutting_down waiting, backoff ∷ [])
      else (later.0, backoff ∷ later.1)

  unfoldable pub run : List Attempt → Session W → Session W × List ℕ
  unfolding run_loop
  run attempts s = run_loop first_backoff attempts s
