-- ===== src/Agent.antt =====
-- internal/domain/agent/state.go: the state machine of the agent's lifecycle, with its observers.
-- A mutex that is held for a whole call is left out: a call is one step. An observer is a callback
-- that changes a world of the caller's own, `W`.
pub mod Diagram
pub mod Trace
mod Tests
use tera_agent.Base.{
  Bool, true, false, Option, none, some, List, [], ◌∷◌, ◌++◌, ◌||◌, if◌then◌else◌,
}
use mathlib.Core.Bool.{decide}

pub data State : Type 0 where
  starting connecting authenticating registering connected disconnected reconnecting offline error
        shutting_down :
      State

pub State-discrete : Discrete State
State-discrete = hlevel

-- `s == t` of two states.
abbrev pub same : State → State → Bool
same starting starting = true
same connecting connecting = true
same authenticating authenticating = true
same registering registering = true
same connected connected = true
same disconnected disconnected = true
same reconnecting reconnecting = true
same offline offline = true
same error error = true
same shutting_down shutting_down = true
same _ _ = false

-- The table `transitions`: for each state, the set of states that it may move to.
abbrev pub transitions : List (State × List State)
transitions =
    (starting, connecting ∷ error ∷ shutting_down ∷ [])
    ∷ (connecting, authenticating ∷ disconnected ∷ error ∷ shutting_down ∷ [])
    ∷ (authenticating, registering ∷ connected ∷ disconnected ∷ error ∷ shutting_down ∷ [])
    ∷ (registering, connected ∷ disconnected ∷ error ∷ shutting_down ∷ [])
    ∷ (connected, disconnected ∷ error ∷ shutting_down ∷ [])
    ∷ (disconnected, reconnecting ∷ offline ∷ shutting_down ∷ [])
    ∷ (reconnecting, connecting ∷ offline ∷ error ∷ shutting_down ∷ [])
    ∷ (offline, reconnecting ∷ shutting_down ∷ [])
    ∷ (error, reconnecting ∷ offline ∷ shutting_down ∷ [])
    ∷ (shutting_down, [])
    ∷ []

-- `transitions[from]`, with `none` for a key that the map lacks.
abbrev pub targets : State → List (State × List State) → Option (List State)
targets s [] = none
targets s ((t, set) ∷ rest) = if same t s then some set else targets s rest

abbrev pub contains : State → List State → Bool
contains s [] = false
contains s (t ∷ ts) = same t s || contains s ts

abbrev allowed_in : Option (List State) → State → Bool
allowed_in none to = false
allowed_in (some allowed) to = contains to allowed

unfoldable pub can_transition : State → State → Bool
can_transition from to = allowed_in (targets from transitions) to

pub record InvalidTransition : Type 0 where
  pub from : State
  pub to : State

abbrev pub Observer : Type 0 → Type 0
Observer W = State → State → W → W

pub record Machine (W : Type 0) : Type 0 where
  pub current : State
  pub observers : List (Observer W)

module _ {W : Type 0} where
  unfoldable pub new_machine : Machine W
  new_machine = record { current = starting; observers = [] }

  unfoldable pub subscribe : Machine W → Observer W → Machine W
  subscribe m o = record m { observers = m.observers ++ o ∷ [] }

  -- `for _, o := range observers { o(from, next) }`
  unfoldable pub notify : List (Observer W) → State → State → W → W
  notify [] from next w = w
  notify (o ∷ os) from next w = notify os from next (o from next w)

  -- `Transition`: the machine and the world after the call, and the error it returns.
  unfoldable pub transition :
      Machine W
      → State
      → W
      → record { machine : Machine W; world : W; err : Option InvalidTransition }
  transition m next w =
      let from = m.current in
      if can_transition from next
      then record {
        machine = record m { current = next };
        world = notify m.observers from next w;
        err = none;
      }
      else record { machine = m; world = w; err = some (record { from = from; to = next }) }
