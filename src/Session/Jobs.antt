-- ===== src/Session/Jobs.antt =====
-- What becomes of a job: it runs at most once, and it has one result.
use tera_agent.Base.{
  ◌≡◌, ◌≢◌, refl, ap, ◌∙◌, Bool, true, false, Bool-cases, inl, inr, Option, none, some, String,
  arith,
}
use tera_agent.Base.Int.{ℤ, pos, ◌≤ℤ◌}
use tera_agent.Maps.{Map, get, put, IsMap}
use tera_agent.Failure.{Error, Result, ok, err}
use tera_agent.Printing.{Bytes}
use tera_agent.Profiles.Cache.{Cache}
use tera_agent.Store.{Store, seen, mark_done}
use tera_agent.Store.Keeps.{add_pending-done}
use tera_agent.Store.Prune.{IsByAge, seen-mark_done}
use tera_agent.Dispatch.{Dispatcher, dispatch}
use tera_agent.Session.{
  Lifecycle, Session, job_of, transmit, send, hold_unsent, emit_marshalled, emit_result,
  send_marshalled, conclude_job, run_job, handle_job,
}
use tera_agent.Session.Messages.{
  Outgoing, JobMessage, ErrorBody, job_received, job_completed, job_failed,
}

-- The result of the job `id`.
pub data IsResultOf (id : String) : Outgoing → Type 0 where
  success : (duration : ℤ) → IsResultOf id (job_completed id duration)
  failure : (body : ErrorBody) → IsResultOf id (job_failed id body)

module _ {W : Type 0} (l : Lifecycle W) where
  pub send-store : (msg : Outgoing) (s : Session W) → (send l msg s).1.store ≡ s.store
  unfolding send transmit
  send-store msg s = ground arith

  pub send-machine : (msg : Outgoing) (s : Session W) → (send l msg s).1.machine ≡ s.machine
  unfolding send transmit
  send-machine msg s = ground arith

  pub emit_result-machine :
      (msg : Outgoing) (s : Session W) → (emit_result l msg s).machine ≡ s.machine
  unfolding emit_result
  emit_result-machine msg s = ground arith

  hold_unsent-done :
      (frame : Bytes) (r : Result (Unit {0}) × Session W)
      → (hold_unsent l frame r).store.done ≡ r.1.store.done
  unfolding hold_unsent
  hold_unsent-done frame (ok _, s) = refl
  hold_unsent-done frame (err _, s) = add_pending-done l.disk (l.saves s.world) s.store frame

  emit_marshalled-done :
      (frame : Option Bytes) (s : Session W) → (emit_marshalled l frame s).store.done ≡ s.store.done
  unfolding emit_marshalled
  emit_marshalled-done none s = refl
  emit_marshalled-done (some frame) s = hold_unsent-done frame (transmit l frame s)

  pub emit_result-done :
      (msg : Outgoing) (s : Session W) → (emit_result l msg s).store.done ≡ s.store.done
  unfolding emit_result
  emit_result-done msg s = emit_marshalled-done (l.codec.marshal msg) s

  pub emit_result-seen :
      (msg : Outgoing) (id : String) (s : Session W)
      → seen (emit_result l msg s).store id ≡ seen s.store id
  unfolding seen
  emit_result-seen msg id s = rw (emit_result-done msg s)

  -- The session once the arrival of the job was confirmed, and what its dispatch then gives.
  abbrev pub confirmed : JobMessage → Session W → Session W
  confirmed m s = (send l (job_received m.id) s).1

  abbrev pub dispatched : JobMessage → Session W → Result (Unit {0}) × W
  dispatched m s = let r = confirmed m s in dispatch (l.dispatcher r.profiles) (job_of m) r.world

  -- The same session with other handlers.
  abbrev pub with_handlers : (Cache → Dispatcher W) → Lifecycle W
  with_handlers d = record l { dispatcher = d }

  send-handlers :
      (d : Cache → Dispatcher W) (msg : Outgoing) (s : Session W)
      → send (with_handlers d) msg s ≡ send l msg s
  unfolding send
  send-handlers d msg s = by_frame (l.codec.marshal msg)
    where
      by_frame :
          (frame : Option Bytes)
          → send_marshalled (with_handlers d) frame s ≡ send_marshalled l frame s
      by_frame none = refl
      by_frame (some frame) = refl

  emit_result-handlers :
      (d : Cache → Dispatcher W) (msg : Outgoing) (s : Session W)
      → emit_result (with_handlers d) msg s ≡ emit_result l msg s
  unfolding emit_result
  emit_result-handlers d msg s = by_frame (l.codec.marshal msg)
    where
      by_sending :
          (frame : Bytes) (r : Result (Unit {0}) × Session W)
          → hold_unsent (with_handlers d) frame r ≡ hold_unsent l frame r
      by_sending frame (ok _, t) = refl
      by_sending frame (err _, t) = refl

      by_frame :
          (frame : Option Bytes)
          → emit_marshalled (with_handlers d) frame s ≡ emit_marshalled l frame s
      by_frame none = refl
      by_frame (some frame) = by_sending frame (transmit l frame s)

  confirmed-seen :
      (m : JobMessage) (s : Session W) (id : String)
      → seen (confirmed m s).store id ≡ seen s.store id
  confirmed-seen m s id = ap (λ (t : Store). seen t id) (send-store (job_received m.id) s)

  handle_job-repeated :
      (m : JobMessage) (s : Session W)
      → seen s.store m.id ≡ true
      → handle_job l m s ≡ emit_result l (job_completed m.id (pos 0)) (confirmed m s)
  unfolding handle_job
  handle_job-repeated m s h = rw (confirmed-seen m s m.id ∙ h)

  -- A job that is seen reaches no handler: whichever handlers there are, the session after it is the
  -- same.
  handle_job-seen :
      (m : JobMessage) (s : Session W) (d : Cache → Dispatcher W)
      → seen s.store m.id ≡ true
      → handle_job (with_handlers d) m s ≡ handle_job l m s
  unfolding handle_job
  handle_job-seen m s d h =
      rw (send-handlers d (job_received m.id) s)
        (rw (confirmed-seen m s m.id ∙ h) (emit_result-handlers d _ _))

  dispatched_seen : JobMessage → Result (Unit {0}) × W → Session W → String → Bool
  dispatched_seen m (ok _, w) s id =
      seen (mark_done l.disk l.by_age (l.now w) (l.saves w) s.store m.id) id
  dispatched_seen m (err _, w) s id = seen s.store id

  conclude_job-seen :
      (m : JobMessage) (start : W) (r : Result (Unit {0}) × W) (s : Session W) (id : String)
      → seen (conclude_job l m start r s).store id ≡ dispatched_seen m r s id
  unfolding conclude_job dispatched_seen
  conclude_job-seen m start (ok _, w) s id = emit_result-seen _ id _
  conclude_job-seen m start (err e, w) s id = emit_result-seen _ id _

  handle_job-new :
      (m : JobMessage) (s : Session W) (id : String)
      → seen s.store m.id ≡ false
      → seen (handle_job l m s).store id ≡ dispatched_seen m (dispatched m s) (confirmed m s) id
  unfolding handle_job run_job
  handle_job-new m s id h =
      rw (confirmed-seen m s m.id ∙ h) (conclude_job-seen m _ (dispatched m s) (confirmed m s) id)

  -- A job that fails is not remembered, and neither is any other job forgotten or added: sent again,
  -- it is dispatched again.
  handle_job-failed :
      (m : JobMessage) (s : Session W) (e : Error) (id : String)
      → seen s.store m.id ≡ false
      → (dispatched m s).0 ≡ err e
      → seen (handle_job l m s).store id ≡ seen s.store id
  unfolding dispatched_seen
  handle_job-failed m s e id h f =
      handle_job-new m s id h ∙ rw (f, dispatched_seen) (confirmed-seen m s id)

  module _ (m : JobMessage) (s : Session W) (done : (dispatched m s).0 ≡ ok tt)
      (one_each : IsMap s.store.done) where
    abbrev pub marked_at : ℤ
    marked_at = l.now (dispatched m s).1

    abbrev pub marked : Map ℤ
    marked = put m.id marked_at s.store.done

    module _ (sorted : IsByAge marked (l.by_age marked))
        (newest : (j : String) (u : ℤ)
          → m.id ≢ j
          → get j s.store.done ≡ some u
          → ¬ (marked_at ≤ℤ u)) where
      seen_when_done : seen (handle_job l m s).store m.id ≡ true
      unfolding dispatched_seen
      seen_when_done = elim (Bool-cases (seen s.store m.id)) [
        | inl before ↦
            ap (λ (t : Session W). seen t.store m.id) (handle_job-repeated m s before)
            ∙ emit_result-seen _ m.id _
            ∙ confirmed-seen m s m.id
            ∙ before
        | inr new ↦
            handle_job-new m s m.id new
            ∙ rw (done, dispatched_seen)
                (ap
                    (λ (t : Store).
                      seen (mark_done l.disk l.by_age marked_at (l.saves (dispatched m s).1) t m.id)
                        m.id)
                    (send-store (job_received m.id) s)
                  ∙ seen-mark_done l.disk l.by_age marked_at (l.saves (dispatched m s).1) s.store
                      m.id one_each sorted newest)
      ]

      -- Where the entries of the store are sorted by age and the job is marked later than every
      -- other one: a job that was dispatched without an error reaches no handler when it comes again,
      -- and its completion is confirmed again.
      pub handle_job-twice :
          (d : Cache → Dispatcher W)
          → let after = handle_job l m s in
            handle_job (with_handlers d) m after
            ≡ emit_result l (job_completed m.id (pos 0)) (confirmed m after)
      handle_job-twice d =
          handle_job-seen m (handle_job l m s) d seen_when_done
          ∙ handle_job-repeated m (handle_job l m s) seen_when_done
