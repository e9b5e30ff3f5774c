-- ===== src/Session/Ledger.antt =====
-- The account of the result frames: each is accepted by the transport or waits in the store.
pub mod Frames
use tera_agent.Base.{
  ℕ, ◌+◌, ◌≡◌, refl, ap, ◌∙◌, Bool, true, false, Option, none, some, List, [], ◌∷◌, ◌++◌, String,
  if◌then◌else◌, inl, inr, subst, sym, All, arith,
}
use tera_agent.Base.Int.{ℤ}
use tera_agent.Failure.{Error, Result, ok, err, Result-cases}
use tera_agent.Printing.{Bytes}
use tera_agent.Agent.{State, Machine, Observer, notify, transition}
use tera_agent.Profiles.Cache.{Cache}
use tera_agent.Store.{Store, add_pending}
use tera_agent.Store.Keeps.{add_pending-pending}
use tera_agent.Dispatch.{Job, dispatch}
use tera_agent.Session.{
  Lifecycle, Session, set_state, transmit, send_marshalled, send, hold, hold_unsent,
  emit_marshalled, emit_result,
}
use tera_agent.Session.Messages.{
  Outgoing, hello, authenticate, register, capabilities, profiles_ack, heartbeat, job_received,
  job_completed, job_failed,
}

abbrev pub is_result : Outgoing → Bool
is_result (job_completed id duration) = true
is_result (job_failed id body) = true
is_result _ = false

-- How many of the frames are counted.
abbrev pub weight : (Bytes → Bool) → Bytes → ℕ
weight counted frame = if counted frame then 1 else 0

abbrev pub count : (Bytes → Bool) → List Bytes → ℕ
count counted [] = 0
count counted (frame ∷ frames) = weight counted frame + count counted frames

abbrev pub weight_of : (Bytes → Bool) → Option Bytes → ℕ
weight_of counted none = 0
weight_of counted (some frame) = weight counted frame

pub count-append :
    (counted : Bytes → Bool) (xs ys : List Bytes)
    → count counted (xs ++ ys) ≡ count counted xs + count counted ys
count-append counted [] ys = omega arith
count-append counted (x ∷ xs) ys = omega (arith, count-append counted xs ys)

-- `accepted` is how many of the counted frames the transport has accepted. Only its `Send` accepts
-- one, and no frame but that of a result is counted.
pub record IsAccount {W : Type 0} (l : Lifecycle W) (counted : Bytes → Bool) (accepted : W → ℕ)
    : Type 0 where
  pub on_sent :
      (frame : Bytes) (w : W)
      → (l.transport.send frame w).0 ≡ ok tt
      → accepted (l.transport.send frame w).1 ≡ accepted w + weight counted frame
  pub on_failed :
      (frame : Bytes) (w : W) (e : Error)
      → (l.transport.send frame w).0 ≡ err e
      → accepted (l.transport.send frame w).1 ≡ accepted w
  pub on_connect : (w : W) → accepted (l.transport.connect w).1 ≡ accepted w
  pub on_close : (w : W) → accepted (l.transport.close w) ≡ accepted w
  pub on_dispatch :
      (c : Cache) (j : Job) (w : W) → accepted (dispatch (l.dispatcher c) j w).1 ≡ accepted w
  pub on_discovery : (w : W) → accepted (l.printers w).1 ≡ accepted w
  pub others :
      (msg : Outgoing) → is_result msg ≡ false → weight_of counted (l.codec.marshal msg) ≡ 0

module _ {W : Type 0} (l : Lifecycle W) (counted : Bytes → Bool) (accepted : W → ℕ) where
  -- The counted frames that the transport accepted or that wait.
  abbrev pub total : Session W → ℕ
  total s = accepted s.world + count counted s.store.pending

  abbrev pub IsQuiet : Observer W → Type 0
  IsQuiet o = (a b : State) (w : W) → accepted (o a b w) ≡ accepted w

  -- The observers of the machine send nothing.
  abbrev pub Quiet : Session W → Type 0
  Quiet s = All IsQuiet s.machine.observers

  -- From `s` to `t` the account grows by `n`.
  pub record Grows (n : ℕ) (s t : Session W) : Type 0 where
    pub grown : total t ≡ total s + n
    pub quiet : Quiet t

  module _ (account : IsAccount l counted accepted) where
    open account use {on_sent, on_failed, others}

    notify-accepted :
        (os : List (Observer W)) (a b : State) (w : W)
        → All IsQuiet os
        → accepted (notify os a b w) ≡ accepted w
    unfolding notify
    notify-accepted [] a b w h = refl
    notify-accepted (o ∷ os) a b w (q, h) = notify-accepted os a b (o a b w) h ∙ q a b w

    pub set_state-observers :
        (next : State) (s : Session W)
        → (set_state l next s).machine.observers ≡ s.machine.observers
    unfolding set_state transition
    set_state-observers next s = ground arith

    pub set_state-Grows : (next : State) (s : Session W) → Quiet s → Grows 0 s (set_state l next s)
    unfolding set_state transition
    set_state-Grows next s q = record {
      grown = ground (arith, notify-accepted s.machine.observers s.machine.current next s.world q);
      quiet = subst (All IsQuiet) (sym (set_state-observers next s)) q;
    }

    transmit-sent :
        (frame : Bytes) (s : Session W)
        → (transmit l frame s).0 ≡ ok tt
        → Quiet s
        → Grows (weight counted frame) s (transmit l frame s).1
    unfolding transmit
    transmit-sent frame s e q = record { grown = omega (arith, on_sent frame s.world e); quiet = q }

    transmit-failed :
        (frame : Bytes) (s : Session W) (e : Error)
        → (transmit l frame s).0 ≡ err e
        → Quiet s
        → Grows 0 s (transmit l frame s).1
    unfolding transmit
    transmit-failed frame s x e q = record {
      grown = omega (arith, on_failed frame s.world x e);
      quiet = q;
    }

    pub hold-Grows :
        (frame : Bytes) (s : Session W) → Quiet s → Grows (weight counted frame) s (hold l frame s)
    hold-Grows frame s q = record {
      grown =
          rw add_pending-pending (omega (arith, count-append counted s.store.pending (frame ∷ [])));
      quiet = q;
    }

    pub Grows-trans :
        {s t u : Session W} {m n : ℕ} (k : ℕ) → Grows m s t → Grows n t u → k ≡ m + n → Grows k s u
    Grows-trans k g h e = record { grown = omega (arith, g.grown, h.grown); quiet = h.quiet }

    pub Grows-after : {s t u : Session W} {n : ℕ} → Grows 0 s t → Grows n t u → Grows n s u
    Grows-after g h = record { grown = omega (arith, g.grown, h.grown); quiet = h.quiet }

    hold_unsent-Grows :
        (frame : Bytes) (s : Session W)
        → Quiet s
        → Grows (weight counted frame) s (hold_unsent l frame (transmit l frame s))
    unfolding hold_unsent transmit
    hold_unsent-Grows frame s q = elim (Result-cases (transmit l frame s).0) [
      | inl (u, e) ↦ rw (e, hold_unsent) (transmit-sent frame s e q)
      | inr (x, e) ↦
          let failed = transmit-failed frame s x e q in
          rw (e, hold_unsent)
            (Grows-after failed (hold-Grows frame (transmit l frame s).1 failed.quiet))
    ]

    -- A result is accepted or it waits.
    pub emit_result-Grows :
        (msg : Outgoing) (s : Session W)
        → Quiet s
        → Grows (weight_of counted (l.codec.marshal msg)) s (emit_result l msg s)
    unfolding emit_result
    emit_result-Grows msg s q = by_frame (l.codec.marshal msg)
      where
        by_frame :
            (frame : Option Bytes) → Grows (weight_of counted frame) s (emit_marshalled l frame s)
        by_frame none = record { grown = omega arith; quiet = q }
        by_frame (some frame) = hold_unsent-Grows frame s q

    transmit-Grows :
        (frame : Bytes) (s : Session W)
        → weight counted frame ≡ 0
        → Quiet s
        → Grows 0 s (transmit l frame s).1
    transmit-Grows frame s z q = elim (Result-cases (transmit l frame s).0) [
      | inl (u, e) ↦ subst (λ n. Grows n s (transmit l frame s).1) z (transmit-sent frame s e q)
      | inr (x, e) ↦ transmit-failed frame s x e q
    ]

    -- No other message is counted.
    pub send-Grows :
        (msg : Outgoing) (s : Session W)
        → is_result msg ≡ false
        → Quiet s
        → Grows 0 s (send l msg s).1
    unfolding send
    send-Grows msg s other q = by_frame (l.codec.marshal msg) (others msg other)
      where
        by_frame :
            (frame : Option Bytes)
            → weight_of counted frame ≡ 0
            → Grows 0 s (send_marshalled l frame s).1
        by_frame none z = record { grown = omega arith; quiet = q }
        by_frame (some frame) z = transmit-Grows frame s z q
