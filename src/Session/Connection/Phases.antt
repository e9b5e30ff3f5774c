-- ===== src/Session/Connection/Phases.antt =====
-- The states of the machine along an attempt and a run.
use tera_agent.Base.{
  ℕ, ◌≡◌, ◌⊎◌, refl, ap, ◌∙◌, true, false, Bool-cases, inl, inr, List, [], ◌∷◌, ◌++◌, ◌||◌, map,
  str_eq, if◌then◌else◌,
}
use tera_agent.Failure.{Result, ok, err}
use tera_agent.Printing.{Bytes}
use tera_agent.Agent.{
  State, starting, connecting, authenticating, registering, connected, disconnected, reconnecting,
  error, shutting_down, can_transition, Machine,
}
use tera_agent.Session.{Lifecycle, Session, set_state, handle, flush_pending}
use tera_agent.Session.Messages.{type_authenticated, type_auth_error}
use tera_agent.Session.Jobs.{send-machine}
use tera_agent.Session.Idle.{set_state-current, handle-machine, flush_pending-machine}
use tera_agent.Session.Connection.{
  Wait, cancelled, expired, closed, Input, tick, received, Attempt, await, await_after,
  authenticate_after, authenticated, registered, send_heartbeat, take_input, serve_loop, serve,
  hang_up, serve_after, connected_or_not, run_once, next_backoff, first_backoff, run_loop, run,
}

-- An attempt begins in one of these states, and leaves one of those below.
abbrev pub IsReady : State → Type 0
IsReady c = (c ≡ starting) ⊎ (c ≡ reconnecting)

abbrev pub IsLost : State → Type 0
IsLost c = (c ≡ disconnected) ⊎ (c ≡ error)

abbrev IsHandshake : State → Type 0
IsHandshake c = (c ≡ authenticating) ⊎ (c ≡ error)

abbrev pub current : {W : Type 0} → Session W → State
current s = s.machine.current

-- Where a run of the attempts leaves a machine in the state `c`.
abbrev pub state_after : List Attempt → State → State
state_after [] c = c
state_after (a ∷ attempts) c =
    if a.cancelled_after || a.cancelled_waiting
    then shutting_down
    else state_after attempts reconnecting

module _ {W : Type 0} (l : Lifecycle W) where
  moves :
      (from to : State) (s : Session W)
      → current s ≡ from
      → can_transition from to ≡ true
      → current (set_state l to s) ≡ to
  moves from to s e f = rw (set_state-current l to s) (rw e (rw f))

  stays :
      (from to : State) (s : Session W)
      → current s ≡ from
      → can_transition from to ≡ false
      → current (set_state l to s) ≡ from
  stays from to s e f = rw (set_state-current l to s) (rw e (rw f))

  begins : (s : Session W) → IsReady (current s) → current (set_state l connecting s) ≡ connecting
  unfolding can_transition
  begins s (inl e) = moves starting connecting s e refl
  begins s (inr e) = moves reconnecting connecting s e refl

  hangs_up :
      (s : Session W)
      → (current s ≡ connected) ⊎ IsHandshake (current s)
      → IsLost (current (hang_up l s))
  unfolding hang_up can_transition
  hangs_up s (inl e) = inl (moves connected disconnected (record s { world = _ }) e refl)
  hangs_up s (inr (inl e)) = inl (moves authenticating disconnected (record s { world = _ }) e refl)
  hangs_up s (inr (inr e)) = inr (stays error disconnected (record s { world = _ }) e refl)

  -- After the wait: accepted, and the state is still `authenticating`, or not.
  abbrev Waited : Result (List Bytes) × Session W → Type 0
  Waited r =
      IsHandshake (current r.1)
      × ((frames : List Bytes) → r.0 ≡ ok frames → current r.1 ≡ authenticating)

  await-Waited :
      (frames : List Bytes) (wait : Wait) (s : Session W)
      → current s ≡ authenticating
      → Waited (await l frames wait s)
  unfolding await can_transition
  await-Waited [] cancelled s h = (inl h, λ _ _. h)
  await-Waited [] expired s h = (inl h, λ _ _. h)
  await-Waited [] closed s h = (inl h, λ _ _. h)
  await-Waited (raw ∷ frames) wait s h =
      elim (Bool-cases (str_eq (l.codec.type_of raw) type_authenticated)) [
        | inl e ↦ rw e (inl h, λ _ _. h)
        | inr e ↦ elim (Bool-cases (str_eq (l.codec.type_of raw) type_auth_error)) [
          | inl f ↦ rw (e, f) (inr (moves authenticating error s h refl), λ _ x. absurd (cc))
          | inr f ↦ rw (e, f) (await-Waited frames wait s h)
        ]
      ]

  await_after-Waited :
      (a : Attempt) (r : Result (Unit {0}) × Session W)
      → current r.1 ≡ authenticating
      → Waited (await_after l a r)
  unfolding await_after
  await_after-Waited a (ok _, s) h = await-Waited a.replies a.wait s h
  await_after-Waited a (err e, s) h = (inl h, λ _ _. h)

  authenticate_after-Waited :
      (a : Attempt) (r : Result (Unit {0}) × Session W)
      → current r.1 ≡ authenticating
      → Waited (authenticate_after l a r)
  unfolding authenticate_after
  authenticate_after-Waited a (ok _, s) h =
      await_after-Waited a _ (ap (λ (m : Machine W). m.current) (send-machine l _ s) ∙ h)
  authenticate_after-Waited a (err e, s) h = (inl h, λ _ _. h)

  authenticated-Waited :
      (a : Attempt) (s : Session W) → current s ≡ connecting → Waited (authenticated l a s)
  unfolding authenticated can_transition
  authenticated-Waited a s h = authenticate_after-Waited a _ (
      ap (λ (m : Machine W). m.current) (send-machine l _ (set_state l authenticating s))
      ∙ moves connecting authenticating s h refl)

  registered-machine :
      (s : Session W) → (registered l s).machine ≡ (set_state l registering s).machine
  unfolding registered
  registered-machine s = simp send-machine

  registers :
      (s : Session W)
      → current s ≡ authenticating
      → current (set_state l connected (registered l s)) ≡ connected
  unfolding can_transition
  registers s h =
      moves registering connected (registered l s)
        (ap (λ (m : Machine W). m.current) (registered-machine s)
          ∙ moves authenticating registering s h refl)
        refl

  send_heartbeat-machine : (s : Session W) → (send_heartbeat l s).machine ≡ s.machine
  unfolding send_heartbeat
  send_heartbeat-machine s = send-machine l _ _

  serve_loop-machine : (is : List Input) (s : Session W) → (serve_loop l is s).machine ≡ s.machine
  unfolding serve_loop take_input
  serve_loop-machine [] s = refl
  serve_loop-machine (tick ∷ is) s =
      serve_loop-machine is (send_heartbeat l s) ∙ send_heartbeat-machine s
  serve_loop-machine (received raw ∷ is) s =
      serve_loop-machine is (handle l raw s) ∙ handle-machine l raw s

  serves :
      (is : List Input) (s : Session W)
      → current s ≡ authenticating
      → current (serve l is (flush_pending l (set_state l connected (registered l s)))) ≡ connected
  unfolding serve
  serves is s h =
      ap (λ (m : Machine W). m.current)
        (serve_loop-machine is _ ∙ flush_pending-machine l (set_state l connected (registered l s)))
      ∙ registers s h

  serve_after-ends :
      (a : Attempt) (r : Result (List Bytes) × Session W)
      → Waited r
      → (current (serve_after l a r) ≡ connected) ⊎ IsHandshake (current (serve_after l a r))
  unfolding serve_after
  serve_after-ends a (ok frames, s) h =
      inl (serves (map received frames ++ a.inputs) s (h.1 frames refl))
  serve_after-ends a (err e, s) h = inr h.0

  connected_or_not-ends :
      (a : Attempt) (r : Result (Unit {0}) × W) (s : Session W)
      → current s ≡ connecting
      → IsLost (current (connected_or_not l a r s))
  unfolding connected_or_not can_transition
  connected_or_not-ends a (ok _, w) s h =
      hangs_up _ (serve_after-ends a _ (authenticated-Waited a (record s { world = w }) h))
  connected_or_not-ends a (err e, w) s h =
      inl (moves connecting disconnected (record s { world = w }) h refl)

  run_once-ends :
      (a : Attempt) (s : Session W) → IsReady (current s) → IsLost (current (run_once l a s))
  unfolding run_once
  run_once-ends a s h = connected_or_not-ends a _ (set_state l connecting s) (begins s h)

  retries :
      (s : Session W) → IsLost (current s) → current (set_state l reconnecting s) ≡ reconnecting
  unfolding can_transition
  retries s (inl e) = moves disconnected reconnecting s e refl
  retries s (inr e) = moves error reconnecting s e refl

  shuts :
      (s : Session W) → IsLost (current s) → current (set_state l shutting_down s) ≡ shutting_down
  unfolding can_transition
  shuts s (inl e) = moves disconnected shutting_down s e refl
  shuts s (inr e) = moves error shutting_down s e refl

  run_loop-current :
      (b : ℕ) (attempts : List Attempt) (s : Session W)
      → IsReady (current s)
      → current (run_loop l b attempts s).0 ≡ state_after attempts (current s)
  unfolding run_loop can_transition
  run_loop-current b [] s h = refl
  run_loop-current b (a ∷ attempts) s h =
      let lost = run_once-ends a s h in
      let waiting = set_state l reconnecting (run_once l a s) in
      let retried = retries (run_once l a s) lost in
      elim (Bool-cases a.cancelled_after) [
        | inl e ↦ simp e (shuts (run_once l a s) lost)
        | inr e ↦ elim (Bool-cases a.cancelled_waiting) [
          | inl f ↦ simp (e, f) (moves reconnecting shutting_down waiting retried refl)
          | inr f ↦
              simp (e, f)
                (run_loop-current (next_backoff b) attempts waiting (inr retried)
                  ∙ ap (state_after attempts) retried)
        ]
      ]

  -- However its attempts go, a run that begins in `starting` or `reconnecting` is in `shutting_down`
  -- after the attempt with which the context is cancelled, and in `reconnecting` before each further
  -- attempt: no refused transition leaves the machine behind.
  pub run-current :
      (attempts : List Attempt) (s : Session W)
      → IsReady (current s)
      → current (run l attempts s).0 ≡ state_after attempts (current s)
  unfolding run
  run-current attempts s h = run_loop-current first_backoff attempts s h
