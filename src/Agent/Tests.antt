-- ===== src/Agent/Tests.antt =====
-- Runs of the state machine, and its theorems at concrete inputs.
use tera_agent.Base.{◌≡◌, refl, List, [], ◌∷◌}
use tera_agent.Agent.{
  State, starting, connecting, authenticating, registering, connected, shutting_down,
  can_transition, Machine, new_machine, subscribe, transition, notify,
}
use tera_agent.Agent.Trace.{
  Log, watched, attempt, Chain, Ending, attempt-watched-Chain, connected_was_authenticated,
}

abbrev stopped : Machine Log
stopped = record watched { current = shutting_down }

-- The second attempt is refused.
abbrev session : List State
session = connecting ∷ starting ∷ authenticating ∷ registering ∷ connected ∷ []

attempt-watched-Chain_example :
    Chain (attempt watched session []).1 (attempt watched session []).0.current
attempt-watched-Chain_example = attempt-watched-Chain session

session_connects : (attempt watched session []).0.current ≡ connected
unfolding attempt transition can_transition notify subscribe new_machine
session_connects = refl

connected_was_authenticated_example : Ending connected (attempt watched session []).1
connected_was_authenticated_example = connected_was_authenticated session session_connects
