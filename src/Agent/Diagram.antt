-- ===== src/Agent/Diagram.antt =====
-- The diagram of the agent's states as a relation, and what can be reached along it.
use tera_agent.Base.{◌≡◌, ◌≢◌, ◌↔◌, refl, subst, true, arith}
use tera_agent.Agent.{
  State, starting, connecting, authenticating, registering, connected, disconnected, reconnecting,
  offline, error, shutting_down, can_transition,
}

-- The phases that precede or make up a session, in their order.
pub data IsPhase : State → Type 0 where
  at_connecting : IsPhase connecting
  at_authenticating : IsPhase authenticating
  at_registering : IsPhase registering
  at_connected : IsPhase connected

infix 40 ◌⟶◌ ◌⟶*◌
pub data ◌⟶◌ : State → State → Type 0 where
  begin : starting ⟶ connecting
  dial : connecting ⟶ authenticating
  accept : authenticating ⟶ registering
  skip : authenticating ⟶ connected
  ready : registering ⟶ connected
  lose : {s : State} → IsPhase s → s ⟶ disconnected
  retry_lost : disconnected ⟶ reconnecting
  retry_offline : offline ⟶ reconnecting
  retry_error : error ⟶ reconnecting
  redial : reconnecting ⟶ connecting
  give_up_lost : disconnected ⟶ offline
  give_up_retry : reconnecting ⟶ offline
  give_up_error : error ⟶ offline
  fail_start : starting ⟶ error
  fail_phase : {s : State} → IsPhase s → s ⟶ error
  fail_retry : reconnecting ⟶ error
  stop : {s : State} → s ≢ shutting_down → s ⟶ shutting_down

pub data ◌⟶*◌ : State → State → Type 0 where
  here : {s : State} → s ⟶* s
  then : {s t u : State} → s ⟶ t → t ⟶* u → s ⟶* u

ruleset edges = (
  begin, dial, accept, skip, ready, lose, retry_lost, retry_offline, retry_error, redial,
  give_up_lost, give_up_retry, give_up_error, fail_start, fail_phase, fail_retry, stop,
  at_connecting, at_authenticating, at_registering, at_connected,
)

phase_lost : {s : State} → IsPhase s → can_transition s disconnected ≡ true
unfolding can_transition
phase_lost at_connecting = refl
phase_lost at_authenticating = refl
phase_lost at_registering = refl
phase_lost at_connected = refl

phase_fails : {s : State} → IsPhase s → can_transition s error ≡ true
unfolding can_transition
phase_fails at_connecting = refl
phase_fails at_authenticating = refl
phase_fails at_registering = refl
phase_fails at_connected = refl

may_stop : (s : State) → s ≢ shutting_down → can_transition s shutting_down ≡ true
unfolding can_transition
may_stop shutting_down h = absurd (h refl)
may_stop starting h = refl
may_stop _ h = refl

⟶-can_transition : {s t : State} → s ⟶ t → can_transition s t ≡ true
unfolding can_transition
⟶-can_transition (lose p) = phase_lost p
⟶-can_transition (fail_phase p) = phase_fails p
⟶-can_transition (stop h) = may_stop _ h
⟶-can_transition begin = refl
⟶-can_transition dial = refl
⟶-can_transition accept = refl
⟶-can_transition skip = refl
⟶-can_transition ready = refl
⟶-can_transition retry_lost = refl
⟶-can_transition retry_offline = refl
⟶-can_transition retry_error = refl
⟶-can_transition redial = refl
⟶-can_transition give_up_lost = refl
⟶-can_transition give_up_retry = refl
⟶-can_transition give_up_error = refl
⟶-can_transition fail_start = refl
⟶-can_transition fail_retry = refl

pub can_transition→⟶ : (s t : State) → can_transition s t ≡ true → s ⟶ t
unfolding can_transition
can_transition→⟶ s t h = grind (arith, edges)

final : (t : State) → can_transition shutting_down t ≢ true
unfolding can_transition
final t e = cc

leaves : {s t : State} → s ⟶* t → s ≡ shutting_down → t ≡ shutting_down
leaves here e = e
leaves (then {t = t} step rest) e =
    absurd (final t (subst (λ u. can_transition u t ≡ true) e (⟶-can_transition step)))

joins : (s : State) → s ≢ shutting_down → s ⟶* connected
joins shutting_down h = absurd (h refl)
joins connected h = here
joins _ h = search (here, then, edges) depth 9

-- From a state the diagram leads to `connected` exactly when the state is not `shutting_down`.
⟶*-connected : (s : State) → (s ⟶* connected) ↔ (s ≢ shutting_down)
⟶*-connected s = ((λ r e. cc (leaves r e)), joins s)
