-- ===== src/Session/Ledger/Frames.antt =====
-- What the frames of the Backend and the flush add to the account: one result for each job.
use tera_agent.Base.{
  ℕ, ◌+◌, ◌≡◌, refl, map, eq_iff, ap, Bool, true, false, Bool-cases, inl, inr, Option, none, some,
  List, [], ◌∷◌, ◌++◌, String, str_eq, if◌then◌else◌, arith,
}
use tera_agent.Base.Int.{pos, ltb_ℤ}
use tera_agent.Failure.{Result, ok, err, Result-cases}
use tera_agent.Printing.{Bytes}
use tera_agent.Profiles.Cache
use tera_agent.Store.{seen, mark_done, take_pending}
use tera_agent.Store.Keeps.{mark_done-pending, persist-pending}
use tera_agent.Dispatch.{dispatch}
use tera_agent.Session.{
  Lifecycle, Session, job_of, map_profile, send, hold, transmit, conclude_job, run_job, handle_job,
  sync_profiles, update_profile, reset_ticker, take_job, handle, hold_each, flush_loop,
  flush_pending,
}
use tera_agent.Session.Messages.{
  Outgoing, JobMessage, ProfilesSync, ProfileUpdate, ConfigMessage, profiles_ack, job_received,
  type_profiles_sync, type_profile_update, type_config, type_job,
}
use tera_agent.Session.Jobs.{IsResultOf, success, failure}
use tera_agent.Session.Ledger.{
  IsAccount, Grows, Quiet, Grows-after, weight_of, count, send-Grows, emit_result-Grows, hold-Grows,
  transmit-sent, transmit-failed,
}

-- One result for each job, in order.
pub data Answers : List JobMessage → List Outgoing → Type 0 where
  settled : Answers [] []
  answer :
      {jobs : List JobMessage} {msgs : List Outgoing} (m : JobMessage) (msg : Outgoing)
      → IsResultOf m.id msg
      → Answers jobs msgs
      → Answers (m ∷ jobs) (msg ∷ msgs)

pub Answers-append :
    {xs ys : List JobMessage} {ms ns : List Outgoing}
    → Answers xs ms
    → Answers ys ns
    → Answers (xs ++ ys) (ms ++ ns)
Answers-append settled b = b
Answers-append (answer m msg r a) b = answer m msg r (Answers-append a b)

module _ {W : Type 0} (l : Lifecycle W) where
  abbrev some_job : Option JobMessage → List JobMessage
  some_job none = []
  some_job (some m) = m ∷ []

  -- The job of a frame, if it is one.
  abbrev pub job_in : Bytes → List JobMessage
  job_in raw = if str_eq (l.codec.type_of raw) type_job then some_job (l.codec.job raw) else []

  module _ (counted : Bytes → Bool) (accepted : W → ℕ) where
    abbrev pub weight_all : List Outgoing → ℕ
    weight_all [] = 0
    weight_all (msg ∷ msgs) = weight_of counted (l.codec.marshal msg) + weight_all msgs

    pub weight_all-append :
        (xs ys : List Outgoing) → weight_all (xs ++ ys) ≡ weight_all xs + weight_all ys
    weight_all-append [] ys = omega arith
    weight_all-append (x ∷ xs) ys = omega (arith, weight_all-append xs ys)

    -- From `s` to `t` the account grows by one result for each of the jobs.
    abbrev pub Settles : List JobMessage → Session W → Session W → Type 0
    Settles jobs s t =
        (msgs : List Outgoing) × Answers jobs msgs × Grows l counted accepted (weight_all msgs) s t

    module _ (account : IsAccount l counted accepted) where
      -- What neither sends nor holds a frame.
      still :
          (s t : Session W)
          → accepted t.world ≡ accepted s.world
          → t.store.pending ≡ s.store.pending
          → Quiet l counted accepted t
          → Grows l counted accepted 0 s t
      still s t e f q = record { grown = rw (e, f) (omega arith); quiet = q }

      conclude_job-Settles :
          (m : JobMessage) (start : W) (r : Result (Unit {0}) × W) (s : Session W)
          → accepted r.1 ≡ accepted s.world
          → Quiet l counted accepted s
          → (msg : Outgoing) × IsResultOf m.id msg
            × Grows l counted accepted
                (weight_of counted (l.codec.marshal msg))
                s
                (conclude_job l m start r s)
      unfolding conclude_job
      conclude_job-Settles m start (err e, w) s same q =
          let t : Session W = record s { world = w } in
          (
            _,
            failure _,
            Grows-after l counted accepted account (still s t same refl q)
                (emit_result-Grows l counted accepted account _ t q),
          )
      conclude_job-Settles m start (ok _, w) s same q =
          let t : Session W = record s {
            store = mark_done l.disk l.by_age (l.now w) (l.saves w) s.store m.id;
            world = w;
          } in
          (
            _,
            success _,
            Grows-after l counted accepted account
                (still s t same
                  (mark_done-pending l.disk (l.saves w) s.store l.by_age (l.now w) m.id) q)
                (emit_result-Grows l counted accepted account _ t q),
          )

      handle_job-Settles :
          (m : JobMessage) (s : Session W)
          → Quiet l counted accepted s
          → (msg : Outgoing) × IsResultOf m.id msg
            × Grows l counted accepted
                (weight_of counted (l.codec.marshal msg))
                s
                (handle_job l m s)
      unfolding handle_job run_job
      handle_job-Settles m s q =
          let g = send-Grows l counted accepted account (job_received m.id) s refl q in
          let received = (send l (job_received m.id) s).1 in
          elim (Bool-cases (seen received.store m.id)) [
            | inl e ↦ rw e (
              _,
              success _,
              Grows-after l counted accepted account g
                  (emit_result-Grows l counted accepted account _ received g.quiet),
            )
            | inr e ↦
                let (msg, r, h) =
                  conclude_job-Settles m received.world
                    (dispatch (l.dispatcher received.profiles) (job_of m) received.world) received
                    (account.on_dispatch received.profiles (job_of m) received.world) g.quiet in
                rw e (msg, r, Grows-after l counted accepted account g h)
          ]

      none_settled : {s t : Session W} → Grows l counted accepted 0 s t → Settles [] s t
      none_settled g = ([], settled, g)

      sync_profiles-Grows :
          (m : Option ProfilesSync) (s : Session W)
          → Quiet l counted accepted s
          → Grows l counted accepted 0 s (sync_profiles l m s)
      unfolding sync_profiles
      sync_profiles-Grows none s q = still s s refl refl q
      sync_profiles-Grows (some m) s q =
          let t : Session W = record s {
            profiles = Cache.set_all s.profiles (map map_profile m.profiles);
          } in
          Grows-after l counted accepted account (still s t refl refl q)
            (send-Grows l counted accepted account (profiles_ack m.version) t refl q)

      update_profile-Grows :
          (m : Option ProfileUpdate) (s : Session W)
          → Quiet l counted accepted s
          → Grows l counted accepted 0 s (update_profile l m s)
      unfolding update_profile
      update_profile-Grows none s q = still s s refl refl q
      update_profile-Grows (some m) s q = still s _ refl refl q

      reset_ticker-Grows :
          (m : Option ConfigMessage) (s : Session W)
          → Quiet l counted accepted s
          → Grows l counted accepted 0 s (reset_ticker l m s)
      unfolding reset_ticker
      reset_ticker-Grows none s q = still s s refl refl q
      reset_ticker-Grows (some m) s q = elim (Bool-cases (ltb_ℤ (pos 0) m.heartbeat_seconds)) [
        | inl e ↦ rw e (still s _ refl refl q)
        | inr e ↦ rw e (still s s refl refl q)
      ]

      take_job-Settles :
          (m : Option JobMessage) (s : Session W)
          → Quiet l counted accepted s
          → Settles (some_job m) s (take_job l m s)
      unfolding take_job
      take_job-Settles none s q = none_settled (still s s refl refl q)
      take_job-Settles (some m) s q =
          let (msg, r, g) = handle_job-Settles m s q in
          (
            msg ∷ [],
            answer m msg r settled,
            record { grown = omega (arith, g.grown); quiet = g.quiet },
          )

      other_type :
          (raw : Bytes) (type : String)
          → str_eq (l.codec.type_of raw) type ≡ true
          → str_eq type type_job ≡ false
          → job_in raw ≡ []
      other_type raw type e f = ground (
        arith,
        eq_iff (l.codec.type_of raw) type,
        eq_iff (l.codec.type_of raw) type_job,
        eq_iff type type_job,
      )

      -- Whatever the frame, the account grows by one result if it is a job and by none if not.
      pub handle-Settles :
          (raw : Bytes) (s : Session W)
          → Quiet l counted accepted s
          → Settles (job_in raw) s (handle l raw s)
      unfolding handle
      handle-Settles raw s q = elim (Bool-cases (str_eq (l.codec.type_of raw) type_profiles_sync)) [
        | inl e ↦
            rw (other_type raw type_profiles_sync e refl)
              (rw e (none_settled (sync_profiles-Grows (l.codec.profiles_sync raw) s q)))
        | inr e ↦ elim (Bool-cases (str_eq (l.codec.type_of raw) type_profile_update)) [
          | inl f ↦
              rw (other_type raw type_profile_update f refl)
                (rw (e, f) (none_settled (update_profile-Grows (l.codec.profile_update raw) s q)))
          | inr f ↦ elim (Bool-cases (str_eq (l.codec.type_of raw) type_config)) [
            | inl g ↦
                rw (other_type raw type_config g refl)
                  (rw (e, f, g) (none_settled (reset_ticker-Grows (l.codec.config raw) s q)))
            | inr g ↦ elim (Bool-cases (str_eq (l.codec.type_of raw) type_job)) [
              | inl h ↦ rw (e, f, g, h) (take_job-Settles (l.codec.job raw) s q)
              | inr h ↦ rw (e, f, g, h) (none_settled (still s s refl refl q))
            ]
          ]
        ]
      ]

      hold_each-Grows :
          (frames : List Bytes) (s : Session W)
          → Quiet l counted accepted s
          → Grows l counted accepted (count counted frames) s (hold_each l frames s)
      unfolding hold_each
      hold_each-Grows [] s q = still s s refl refl q
      hold_each-Grows (frame ∷ frames) s q =
          let g = hold-Grows l counted accepted account frame s q in
          let h = hold_each-Grows frames (hold l frame s) q in
          record { grown = omega (arith, g.grown, h.grown); quiet = h.quiet }

      flush_loop-Grows :
          (frames : List Bytes) (s : Session W)
          → Quiet l counted accepted s
          → Grows l counted accepted (count counted frames) s (flush_loop l frames s)
      unfolding flush_loop transmit
      flush_loop-Grows [] s q = still s s refl refl q
      flush_loop-Grows (frame ∷ frames) s q =
          let t = (transmit l frame s).1 in
          elim (Result-cases (l.transport.send frame s.world).0) [
            | inl (u, e) ↦
                let g = transmit-sent l counted accepted account frame s e q in
                let h = flush_loop-Grows frames t q in
                rw (e, flush_loop)
                  (record { grown = omega (arith, g.grown, h.grown); quiet = h.quiet })
            | inr (x, e) ↦
                let g = transmit-failed l counted accepted account frame s x e q in
                rw (e, flush_loop)
                  (Grows-after l counted accepted account g (hold_each-Grows (frame ∷ frames) t q))
          ]

      -- The flush neither loses a frame nor makes one.
      pub flush_pending-Grows :
          (s : Session W)
          → Quiet l counted accepted s
          → Grows l counted accepted 0 s (flush_pending l s)
      unfolding flush_pending take_pending
      flush_pending-Grows s q =
          let r = take_pending l.disk (l.saves s.world) s.store in
          let t : Session W = record s { store = r.1 } in
          let g = flush_loop-Grows s.store.pending t q in
          let none_left : r.1.pending ≡ [] =
            persist-pending l.disk (l.saves s.world) (record s.store { pending = [] }) in
          record { grown = omega (arith, g.grown, ap (count counted) none_left); quiet = g.quiet }
