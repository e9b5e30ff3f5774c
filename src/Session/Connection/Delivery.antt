-- ===== src/Session/Connection/Delivery.antt =====
-- The account of the results over attempts and over a whole run.
use tera_agent.Base.{ℕ, Bool, List, [], ◌∷◌, ◌++◌, map, if◌then◌else◌}
use tera_agent.Failure.{Result, ok, err}
use tera_agent.Printing.{Bytes}
use tera_agent.Agent.{connecting, reconnecting}
use tera_agent.Session.{Lifecycle, Session, set_state}
use tera_agent.Session.Messages.{JobMessage}
use tera_agent.Session.Ledger.{IsAccount, Grows, Quiet}
use tera_agent.Session.Ledger.Frames.{job_in, Settles}
use tera_agent.Session.Connection.{Input, tick, received, Attempt, authenticated, run_once}

module _ {W : Type 0} (l : Lifecycle W) where
  -- The jobs among the inputs of a session.
  abbrev pub jobs_in : List Input → List JobMessage
  jobs_in [] = []
  jobs_in (tick ∷ is) = jobs_in is
  jobs_in (received raw ∷ is) = job_in l raw ++ jobs_in is

  jobs_after : Attempt → Result (List Bytes) × Session W → List JobMessage
  jobs_after a (err e, s) = []
  jobs_after a (ok frames, s) = jobs_in (map received frames ++ a.inputs)

  jobs_connected : Attempt → Result (Unit {0}) × W → Session W → List JobMessage
  unfolding jobs_after
  jobs_connected a (err e, w) s = []
  jobs_connected a (ok _, w) s = jobs_after a (authenticated l a (record s { world = w }))

  -- The jobs that an attempt receives: none, unless it connects and authenticates.
  unfoldable pub jobs_of_attempt : Attempt → Session W → List JobMessage
  unfolding jobs_connected
  jobs_of_attempt a s =
      let begun = set_state l connecting s in
      jobs_connected a (l.transport.connect begun.world) begun

  -- The jobs that a run receives.
  unfoldable pub jobs_of_run : List Attempt → Session W → List JobMessage
  jobs_of_run [] s = []
  jobs_of_run (a ∷ attempts) s =
      let later = jobs_of_run attempts (set_state l reconnecting (run_once l a s)) in
      jobs_of_attempt a s
      ++ (if a.cancelled_after then [] else if a.cancelled_waiting then [] else later)

  module _ (counted : Bytes → Bool) (accepted : W → ℕ)
      (account : IsAccount l counted accepted) where
    abbrev IsStill : Session W → Session W → Type 0
    IsStill = Grows l counted accepted 0

    abbrev IsQuiet : Session W → Type 0
    IsQuiet = Quiet l counted accepted

    abbrev Settled : List JobMessage → Session W → Session W → Type 0
    Settled = Settles l counted accepted
