-- ===== src/Session/Idle.antt =====
-- Frames, results and the flush leave the state machine as it is.
use tera_agent.Base.{
  ◌≡◌, refl, ◌∙◌, Bool-cases, inl, inr, Option, none, some, List, [], ◌∷◌, if◌then◌else◌, arith,
}
use tera_agent.Failure.{Result, ok, err, Result-cases}
use tera_agent.Printing.{Bytes}
use tera_agent.Agent.{State, can_transition, transition}
use tera_agent.Store.{seen}
use tera_agent.Session.{
  Lifecycle, Session, send, hold, transmit, set_state, conclude_job, run_job, handle_job,
  sync_profiles, update_profile, reset_ticker, take_job, handle, hold_each, flush_loop,
  flush_pending,
}
use tera_agent.Session.Messages.{
  JobMessage, ProfilesSync, ProfileUpdate, ConfigMessage, job_received,
}
use tera_agent.Session.Jobs.{send-machine, emit_result-machine}

module _ {W : Type 0} (l : Lifecycle W) where
  pub set_state-current :
      (next : State) (s : Session W)
      → (set_state l next s).machine.current
        ≡ (if can_transition s.machine.current next then next else s.machine.current)
  unfolding set_state transition
  set_state-current next s = ground arith

  conclude_job-machine :
      (m : JobMessage) (start : W) (r : Result (Unit {0}) × W) (s : Session W)
      → (conclude_job l m start r s).machine ≡ s.machine
  unfolding conclude_job
  conclude_job-machine m start (ok _, w) s = emit_result-machine l _ _
  conclude_job-machine m start (err e, w) s = emit_result-machine l _ _

  handle_job-machine : (m : JobMessage) (s : Session W) → (handle_job l m s).machine ≡ s.machine
  unfolding handle_job run_job
  handle_job-machine m s =
      let sent = send-machine l (job_received m.id) s in
      elim (Bool-cases (seen (send l (job_received m.id) s).1.store m.id)) [
        | inl e ↦ rw e (emit_result-machine l _ _ ∙ sent)
        | inr e ↦ rw e (conclude_job-machine m _ _ _ ∙ sent)
      ]

  sync_profiles-machine :
      (m : Option ProfilesSync) (s : Session W) → (sync_profiles l m s).machine ≡ s.machine
  unfolding sync_profiles
  sync_profiles-machine none s = refl
  sync_profiles-machine (some m) s = send-machine l _ _

  update_profile-machine :
      (m : Option ProfileUpdate) (s : Session W) → (update_profile l m s).machine ≡ s.machine
  unfolding update_profile
  update_profile-machine none s = refl
  update_profile-machine (some m) s = refl

  reset_ticker-machine :
      (m : Option ConfigMessage) (s : Session W) → (reset_ticker l m s).machine ≡ s.machine
  unfolding reset_ticker
  reset_ticker-machine none s = refl
  reset_ticker-machine (some m) s = ground arith

  take_job-machine : (m : Option JobMessage) (s : Session W) → (take_job l m s).machine ≡ s.machine
  unfolding take_job
  take_job-machine none s = refl
  take_job-machine (some m) s = handle_job-machine m s

  pub handle-machine : (raw : Bytes) (s : Session W) → (handle l raw s).machine ≡ s.machine
  unfolding handle
  handle-machine raw s = ground (
    arith,
    sync_profiles-machine (l.codec.profiles_sync raw) s,
    update_profile-machine (l.codec.profile_update raw) s,
    reset_ticker-machine (l.codec.config raw) s,
    take_job-machine (l.codec.job raw) s,
  )

  hold_each-machine :
      (frames : List Bytes) (s : Session W) → (hold_each l frames s).machine ≡ s.machine
  unfolding hold_each
  hold_each-machine [] s = refl
  hold_each-machine (frame ∷ frames) s = hold_each-machine frames (hold l frame s)

  flush_loop-machine :
      (frames : List Bytes) (s : Session W) → (flush_loop l frames s).machine ≡ s.machine
  unfolding flush_loop transmit
  flush_loop-machine [] s = refl
  flush_loop-machine (frame ∷ frames) s =
      let t = (transmit l frame s).1 in
      elim (Result-cases (l.transport.send frame s.world).0) [
        | inl (u, e) ↦ rw (e, flush_loop) (flush_loop-machine frames t)
        | inr (x, e) ↦ rw (e, flush_loop) (hold_each-machine (frame ∷ frames) t)
      ]

  pub flush_pending-machine : (s : Session W) → (flush_pending l s).machine ≡ s.machine
  unfolding flush_pending
  flush_pending-machine s = flush_loop-machine _ _
