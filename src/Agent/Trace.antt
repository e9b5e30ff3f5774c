-- ===== src/Agent/Trace.antt =====
-- What an observer sees of a machine over any sequence of attempted transitions.
use tera_agent.Base.{
  ◌≡◌, ◌⊎◌, inl, inr, refl, subst, Bool-cases, List, [], ◌∷◌, ◌++◌, append_assoc, arith,
}
use tera_agent.Agent.{
  State, starting, connecting, authenticating, registering, connected, shutting_down,
  can_transition, Machine, Observer, new_machine, subscribe, notify, transition,
}
use tera_agent.Agent.Diagram.{◌⟶◌, can_transition→⟶, dial, accept, skip, ready}

abbrev pub Log : Type 0
Log = List (State × State)

-- An observer that writes down each change.
abbrev pub record_change : Observer Log
record_change from to log = log ++ (from, to) ∷ []

module _ {W : Type 0} where
  -- The machine and the world after a sequence of attempts; errors are dropped.
  unfoldable pub attempt : Machine W → List State → W → Machine W × W
  attempt m [] w = (m, w)
  attempt m (s ∷ ss) w = let r = transition m s w in attempt r.machine ss r.world

  stays_shut :
      (m : Machine W) (s : State) (w : W)
      → m.current ≡ shutting_down
      → ((transition m s w).machine ≡ m) × ((transition m s w).world ≡ w)
  unfolding transition can_transition
  stays_shut m s w h = ground arith

  -- A machine in `shutting_down` refuses every attempt: it does not change, and no observer runs.
  attempt-shutting_down :
      (m : Machine W) (ss : List State) (w : W)
      → m.current ≡ shutting_down
      → attempt m ss w ≡ (m, w)
  unfolding attempt
  attempt-shutting_down m [] w h = refl
  attempt-shutting_down m (s ∷ ss) w h =
      let (e, f) = stays_shut m s w h in rw (e, f) (attempt-shutting_down m ss w h)

-- `Chain l s`: the changes in `l` lead along edges of the diagram from `starting` to `s`.
pub data Chain : Log → State → Type 0 where
  origin : Chain [] starting
  extend : {l l' : Log} {s t : State} → Chain l s → s ⟶ t → l' ≡ l ++ ((s, t) ∷ []) → Chain l' t

abbrev pub watched : Machine Log
watched = subscribe new_machine record_change

transition-Chain :
    (m : Machine Log) (s : State) (l : Log)
    → m.observers ≡ record_change ∷ []
    → Chain l m.current
    → ((transition m s l).machine.observers ≡ record_change ∷ [])
      × Chain (transition m s l).world (transition m s l).machine.current
unfolding transition notify
transition-Chain m s l h c = elim (Bool-cases (can_transition m.current s)) [
  | inl e ↦ rw (e, h, notify) (refl, extend c (can_transition→⟶ _ _ e) refl)
  | inr e ↦ rw e (h, c)
]

attempt-Chain :
    (m : Machine Log) (ss : List State) (l : Log)
    → m.observers ≡ record_change ∷ []
    → Chain l m.current
    → Chain (attempt m ss l).1 (attempt m ss l).0.current
unfolding attempt
attempt-Chain m [] l h c = c
attempt-Chain m (s ∷ ss) l h c =
    let (h', c') = transition-Chain m s l h c in
    let r = transition m s l in attempt-Chain r.machine ss r.world h' c'

-- Whatever is attempted on a new machine, the changes that an observer is told of are edges of the
-- diagram, each begins where the one before it ended, and they lead from `starting` to the
-- machine's current state.
pub attempt-watched-Chain :
    (ss : List State) → Chain (attempt watched ss []).1 (attempt watched ss []).0.current
unfolding subscribe new_machine
attempt-watched-Chain ss = attempt-Chain watched ss [] refl origin

-- How the changes that led to a state of the session end.
abbrev pub Ending : State → Log → Type 0
Ending authenticating l = (before : Log) × (l ≡ before ++ (connecting, authenticating) ∷ [])
Ending registering l =
    (before : Log) × (l
      ≡ before ++ (connecting, authenticating) ∷ (authenticating, registering) ∷ [])
Ending connected l =
    (before : Log) × ((l
        ≡ before ++ (connecting, authenticating) ∷ (authenticating, connected) ∷ [])
      ⊎ (l
          ≡ before
            ++ (connecting, authenticating)
              ∷ (authenticating, registering)
              ∷ (registering, connected)
              ∷ []))
Ending _ l = Unit

Chain-Ending : {l : Log} {s : State} → Chain l s → Ending s l
Chain-Ending origin = tt
Chain-Ending (extend {l = l} c dial e) = (l, e)
Chain-Ending (extend {l = l} c accept e) =
    let (before, f) = Chain-Ending c in (before, rw (e, f, append_assoc))
Chain-Ending (extend {l = l} c skip e) =
    let (before, f) = Chain-Ending c in (before, inl (rw (e, f, append_assoc)))
Chain-Ending (extend {l = l} c ready e) =
    let (before, f) = Chain-Ending c in (before, inr (rw (e, f, append_assoc)))
Chain-Ending (extend c _ e) = tt

-- Whatever is attempted on a new machine, if it is `connected` then the last changes that an
-- observer was told of are connecting, authenticating and at most registering, in that order.
pub connected_was_authenticated :
    (ss : List State)
    → (attempt watched ss []).0.current ≡ connected
    → Ending connected (attempt watched ss []).1
connected_was_authenticated ss h =
    subst (λ s. Ending s (attempt watched ss []).1) h (Chain-Ending (attempt-watched-Chain ss))
