-- ===== src/Session.antt =====
-- internal/app/lifecycle/lifecycle.go: the session with the Backend. The package takes the frames that
-- come in, the ticks of the heartbeat and the end of each wait as an input; a frame is one step. `W` is
-- the world outside: what a transport, a driver or an observer changes, and what a clock reads.
pub mod Messages
pub mod Connection
pub mod Jobs
pub mod Ledger
pub mod Idle
mod Tests
use tera_agent.Base.{
  ℕ, Bool, true, false, Option, none, some, List, [], ◌∷◌, map, String, str_eq, if◌then◌else◌,
}
use tera_agent.Base.Duration.{times_second}
use tera_agent.Base.Int.{ℤ, pos, ltb_ℤ}
use tera_agent.Maps.{Map, get}
use tera_agent.Config.{ManagedPrinter, Config}
use tera_agent.Failure.{Error, Result, ok, err, external}
use tera_agent.Printing.{Bytes, PrinterProfile}
use tera_agent.Printing.Device
use tera_agent.Agent.{State, Machine, transition}
use tera_agent.Profiles.Cache
use tera_agent.Profiles.Cache.{Cache}
use tera_agent.Store.{Store, Disk, seen, mark_done, add_pending, take_pending}
use tera_agent.Dispatch.{Job, Dispatcher, dispatch, kind_print, kind_device}
use tera_agent.Session.Messages.{
  Outgoing, hello, authenticate, register, capabilities, profiles_ack, heartbeat, job_received,
  job_completed, job_failed, ProfileDto, ProfilesSync, ProfileUpdate, ConfigMessage, JobMessage,
  Authenticated, AuthError, PrinterDto, type_profiles_sync, type_profile_update, type_config,
  type_job,
}

pub record Transport (W : Type 0) : Type 0 where
  pub connect : W → Result (Unit {0}) × W
  pub send : Bytes → W → Result (Unit {0}) × W
  pub close : W → W

-- encoding/json on the messages. The source ignores the errors on `authenticated` and `auth_error`.
pub record Codec : Type 0 where
  pub marshal : Outgoing → Option Bytes
  pub type_of : Bytes → String
  pub authenticated : Bytes → Authenticated
  pub auth_error : Bytes → AuthError
  pub profiles_sync : Bytes → Option ProfilesSync
  pub profile_update : Bytes → Option ProfileUpdate
  pub config : Bytes → Option ConfigMessage
  pub job : Bytes → Option JobMessage

-- A printer of the discovery, with its name and driver.
abbrev pub Discovered : Type 0
Discovered = String × String

-- `dispatcher` reads the cache that the session writes. `printers` is what the discovery lists, empty
-- when it fails; `now` is the clock in seconds and `elapsed` the milliseconds between two worlds.
pub record Lifecycle (W : Type 0) : Type 0 where
  pub transport : Transport W
  pub codec : Codec
  pub dispatcher : Cache → Dispatcher W
  pub printers : W → List Discovered × W
  pub config : Config
  pub version : String
  pub disk : Disk
  pub by_age : Map ℤ → List (String × ℤ)
  pub saves : W → Bool
  pub now : W → ℤ
  pub elapsed : W → W → ℤ
  pub memory : W → ℕ
  pub uptime : W → ℤ
  pub hostname : String
  pub os : String
  pub message : Error → String

-- internal/domain/agent/agent.go and info.go, with the time of the last synchronisation.
pub record Identity : Type 0 where
  pub uuid : String
  pub empresa : String
  pub sucursal : String
  pub equipo : String

pub record Info : Type 0 where
  pub identity : Identity
  pub last_sync : ℤ

-- `interval` is that of the heartbeat's ticker, in nanoseconds.
pub record Session (W : Type 0) : Type 0 where
  pub machine : Machine W
  pub store : Store
  pub profiles : Cache
  pub info : Option Info
  pub interval : ℤ
  pub world : W

native_formats_of : List String → List String
native_formats_of [] = Device.escpos ∷ []
native_formats_of (f ∷ fs) = f ∷ fs

-- `mapProfile`: without formats a profile is that of a thermal printer.
unfoldable pub map_profile : ProfileDto → PrinterProfile
unfolding native_formats_of
map_profile d = record {
  printer_id = d.printer_id;
  native_formats = native_formats_of d.native_formats;
  width_dots = d.width_dots;
  dpi = d.dpi;
  supports_cut = d.supports_cut;
  supports_drawer = d.supports_drawer;
  meta = d.meta;
}

abbrev pub job_of : JobMessage → Job
job_of m = record {
  id = m.id;
  kind = if str_eq m.job_type "device" then kind_device else kind_print;
  payload = m.payload;
}

module _ {W : Type 0} (l : Lifecycle W) where
  unfoldable pub set_state : State → Session W → Session W
  set_state next s =
      let r = transition s.machine next s.world in record s { machine = r.machine; world = r.world }

  pub transmit : Bytes → Session W → Result (Unit {0}) × Session W
  transmit frame s = let r = l.transport.send frame s.world in (r.0, record s { world = r.1 })

  send_marshalled : Option Bytes → Session W → Result (Unit {0}) × Session W
  unfolding transmit
  send_marshalled none s = (err (external "json"), s)
  send_marshalled (some frame) s = transmit frame s

  unfoldable pub send : Outgoing → Session W → Result (Unit {0}) × Session W
  unfolding send_marshalled
  send msg s = send_marshalled (l.codec.marshal msg) s

  abbrev pub hold : Bytes → Session W → Session W
  hold frame s = record s { store = add_pending l.disk (l.saves s.world) s.store frame }

  hold_unsent : Bytes → Result (Unit {0}) × Session W → Session W
  hold_unsent frame (ok _, s) = s
  hold_unsent frame (err _, s) = hold frame s

  emit_marshalled : Option Bytes → Session W → Session W
  unfolding transmit hold_unsent
  emit_marshalled none s = s
  emit_marshalled (some frame) s = hold_unsent frame (transmit frame s)

  -- `emitResult`: a result that cannot be sent waits in the store.
  unfoldable pub emit_result : Outgoing → Session W → Session W
  unfolding emit_marshalled
  emit_result msg s = emit_marshalled (l.codec.marshal msg) s

  conclude_job : JobMessage → W → Result (Unit {0}) × W → Session W → Session W
  unfolding emit_result
  conclude_job m start (err e, w) s =
      emit_result (job_failed m.id (record { code = "JOB_FAILED"; message = l.message e }))
        (record s { world = w })
  conclude_job m start (ok _, w) s =
      emit_result (job_completed m.id (l.elapsed start w)) (record s {
        store = mark_done l.disk l.by_age (l.now w) (l.saves w) s.store m.id;
        world = w;
      })

  pub run_job : JobMessage → Session W → Session W
  unfolding conclude_job
  run_job m s = conclude_job m s.world (dispatch (l.dispatcher s.profiles) (job_of m) s.world) s

  unfoldable pub handle_job : JobMessage → Session W → Session W
  unfolding run_job send emit_result
  handle_job m s =
      let received = (send (job_received m.id) s).1 in
      if seen received.store m.id
      then emit_result (job_completed m.id (pos 0)) received
      else run_job m received

  sync_profiles : Option ProfilesSync → Session W → Session W
  unfolding send
  sync_profiles none s = s
  sync_profiles (some m) s =
      (send (profiles_ack m.version)
        (record s { profiles = Cache.set_all s.profiles (map map_profile m.profiles) })).1

  update_profile : Option ProfileUpdate → Session W → Session W
  update_profile none s = s
  update_profile (some m) s = record s { profiles = Cache.set s.profiles (map_profile m.profile) }

  reset_ticker : Option ConfigMessage → Session W → Session W
  reset_ticker none s = s
  reset_ticker (some m) s =
      if ltb_ℤ (pos 0) m.heartbeat_seconds
      then record s { interval = times_second m.heartbeat_seconds }
      else s

  take_job : Option JobMessage → Session W → Session W
  unfolding handle_job
  take_job none s = s
  take_job (some m) s = handle_job m s

  -- `handle`: an error of the server is only logged.
  unfoldable pub handle : Bytes → Session W → Session W
  unfolding sync_profiles update_profile reset_ticker take_job
  handle raw s =
      let type = l.codec.type_of raw in
      if str_eq type type_profiles_sync
      then sync_profiles (l.codec.profiles_sync raw) s
      else if str_eq type type_profile_update
      then update_profile (l.codec.profile_update raw) s
      else if str_eq type type_config
      then reset_ticker (l.codec.config raw) s
      else if str_eq type type_job
      then take_job (l.codec.job raw) s
      else s

  -- The loop over the frames: the first that cannot be sent waits again, with all behind it.
  pub hold_each : List Bytes → Session W → Session W
  hold_each [] s = s
  hold_each (frame ∷ frames) s = hold_each frames (hold frame s)

  flush_loop : List Bytes → Session W → Session W
  unfolding hold_each
  flush_loop [] s = s
  flush_loop (frame ∷ frames) s =
      let r = l.transport.send frame s.world in
      let sent = flush_loop frames (record s { world = r.1 }) in
      let kept = hold_each (frame ∷ frames) (record s { world = r.1 }) in
      elim r.0 [ ok _ ↦ sent | err _ ↦ kept ]

  unfoldable pub flush_pending : Session W → Session W
  unfolding flush_loop
  flush_pending s =
      let r = take_pending l.disk (l.saves s.world) s.store in
      flush_loop r.0 (record s { store = r.1 })
