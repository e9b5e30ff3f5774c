-- ===== src/Session/Connection/Handshake.antt =====
-- The account of the results while a connection is authenticated and registered.
use tera_agent.Base.{ℕ, ◌≡◌, refl, Bool, Bool-cases, inl, inr, List, [], ◌∷◌, str_eq, arith}
use tera_agent.Failure.{Result, ok, err}
use tera_agent.Printing.{Bytes}
use tera_agent.Agent.{authenticating, registering, error}
use tera_agent.Session.{Lifecycle, Session, set_state, send}
use tera_agent.Session.Messages.{authenticate, register, type_authenticated, type_auth_error}
use tera_agent.Session.Ledger.{IsAccount, Grows, Quiet, Grows-after, send-Grows, set_state-Grows}
use tera_agent.Session.Connection.{
  Wait, cancelled, expired, closed, Attempt, await, await_after, authenticate_after, authenticated,
  registered,
}

module _ {W : Type 0} (l : Lifecycle W) (counted : Bytes → Bool) (accepted : W → ℕ) where
  abbrev pub IsStill : Session W → Session W → Type 0
  IsStill = Grows l counted accepted 0

  abbrev pub IsQuiet : Session W → Type 0
  IsQuiet = Quiet l counted accepted

  pub unmoved :
      (s t : Session W)
      → accepted t.world ≡ accepted s.world
      → t.store ≡ s.store
      → IsQuiet t
      → IsStill s t
  unmoved s t e f q = record { grown = rw (e, f) (omega arith); quiet = q }

  module _ (account : IsAccount l counted accepted) where
    await-Grows :
        (frames : List Bytes) (wait : Wait) (s : Session W)
        → IsQuiet s
        → IsStill s (await l frames wait s).1
    unfolding await
    await-Grows [] cancelled s q = unmoved s s refl refl q
    await-Grows [] expired s q = unmoved s s refl refl q
    await-Grows [] closed s q = unmoved s s refl refl q
    await-Grows (raw ∷ frames) wait s q =
        elim (Bool-cases (str_eq (l.codec.type_of raw) type_authenticated)) [
          | inl e ↦ rw e (unmoved s _ refl refl q)
          | inr e ↦ elim (Bool-cases (str_eq (l.codec.type_of raw) type_auth_error)) [
            | inl f ↦ rw (e, f) (set_state-Grows l counted accepted account error s q)
            | inr f ↦ rw (e, f) (await-Grows frames wait s q)
          ]
        ]

    await_after-Grows :
        (a : Attempt) (r : Result (Unit {0}) × Session W)
        → IsQuiet r.1
        → IsStill r.1 (await_after l a r).1
    unfolding await_after
    await_after-Grows a (ok _, s) q = await-Grows a.replies a.wait s q
    await_after-Grows a (err e, s) q = unmoved s s refl refl q

    authenticate_after-Grows :
        (a : Attempt) (r : Result (Unit {0}) × Session W)
        → IsQuiet r.1
        → IsStill r.1 (authenticate_after l a r).1
    unfolding authenticate_after
    authenticate_after-Grows a (ok _, s) q =
        let g = send-Grows l counted accepted account (authenticate l.config.token) s refl q in
        Grows-after l counted accepted account g
          (await_after-Grows a (send l (authenticate l.config.token) s) g.quiet)
    authenticate_after-Grows a (err e, s) q = unmoved s s refl refl q

    pub authenticated-Grows :
        (a : Attempt) (s : Session W) → IsQuiet s → IsStill s (authenticated l a s).1
    unfolding authenticated
    authenticated-Grows a s q =
        let g = set_state-Grows l counted accepted account authenticating s q in
        let h =
          send-Grows l counted accepted account _ (set_state l authenticating s) refl g.quiet in
        Grows-after l counted accepted account g
          (Grows-after l counted accepted account h (authenticate_after-Grows a _ h.quiet))

    pub registered-Grows : (s : Session W) → IsQuiet s → IsStill s (registered l s)
    unfolding registered
    registered-Grows s q =
        let g = set_state-Grows l counted accepted account registering s q in
        let h = send-Grows l counted accepted account _ (set_state l registering s) refl g.quiet in
        let announced =
          (send l
            (register (record {
              hostname = l.hostname;
              os = l.os;
              os_version = "";
              agent_version = l.version;
              local_ip = "";
            }))
            (set_state l registering s)).1 in
        let found = l.printers announced.world in
        let t : Session W = record announced { world = found.1 } in
        let k = unmoved announced t (account.on_discovery announced.world) refl h.quiet in
        Grows-after l counted accepted account g (
          Grows-after l counted accepted account h (
            Grows-after l counted accepted account k
              (send-Grows l counted accepted account _ t refl h.quiet)))
