-- ===== src/Dispatch/Laws.antt =====
-- Which handler and which printer a job gets.
use tera_agent.Base.{
  str_eq-ne, ◌≡◌, ◌≢◌, ◌⊎◌, inl, inr, refl, subst, sym, false, Bool-cases, Option, none, some,
  String, str_eq, eq_iff, [], ◌∷◌, if◌then◌else◌, arith,
}
use tera_agent.Maps.{Map, get, has, put, get-put, has-put}
use tera_agent.Failure.{Error, Result, ok, err, Result-cases, no_handler, panicked}
use tera_agent.Printing.{Bytes, PrinterProfile, Pipeline}
use tera_agent.Print.Roles
use tera_agent.Print.Roles.{RoleResolver}
use tera_agent.Print.Engine.{Engine}
use tera_agent.Print.Engine.Capability.{print_sends_once}
use tera_agent.Dispatch.{
  Kind, Job, Handler, Dispatcher, register, run_handler, dispatch, JobPayload, print_job,
  printer_of, role_printer, resolved, print_on, handle_payload, handle_print,
}

module _ {W : Type 0} where
  has-get-none : (k : String) (m : Map (Handler W)) → has k m ≡ false → get k m ≡ none
  unfolding has get
  has-get-none k [] h = refl
  has-get-none k ((j, v) ∷ m) h = ground (arith, has-get-none k m)

  dispatch-put :
      (d : Dispatcher W) (kind : Kind) (h : Handler W) (j : Job) (w : W)
      → dispatch (put kind h d) j w ≡ (if str_eq kind j.kind then h j w else dispatch d j w)
  unfolding dispatch run_handler
  dispatch-put d kind h j w = elim (Bool-cases (str_eq kind j.kind)) [
    | inl e ↦ rw (get-put kind j.kind h d) (rw (e, run_handler))
    | inr e ↦ rw (get-put kind j.kind h d) (rw (e, run_handler))
  ]

  -- Registering a handler for a kind that has none gives a dispatcher that runs it on the jobs of the
  -- kind, runs on all others what it ran before, and panics on a second handler for the kind; a kind
  -- that has none is an error, and nothing changes.
  dispatch-register :
      (d : Dispatcher W) (kind : Kind) (h : Handler W)
      → has kind d ≡ false
      → ((j : Job) (w : W) → j.kind ≡ kind → dispatch d j w ≡ (err (no_handler kind j.id), w))
        × ((d' : Dispatcher W) × (register d kind h ≡ ok d')
            × ((j : Job) (w : W)
                → dispatch d' j w ≡ (if str_eq kind j.kind then h j w else dispatch d j w))
            × ((h' : Handler W) → register d' kind h' ≡ err panicked))
  unfolding register dispatch run_handler
  dispatch-register d kind h fresh = (
    λ j w e. rw e (rw (has-get-none kind d fresh, run_handler)),
    (
      put kind h d,
      rw fresh refl,
      dispatch-put d kind h,
      λ h'. rw (has-put kind kind h d) (rw ((eq_iff kind kind).1 refl)),
    ),
  )

-- The printer is the one that the payload names, or else the one of its role.
pub data Names (roles : Option RoleResolver) (p : JobPayload) (printer_id : String) : Type 0 where
  named : p.printer_id ≢ "" → printer_id ≡ p.printer_id → Names roles p printer_id
  by_role :
      (r : RoleResolver)
      → roles ≡ some r
      → p.printer_id ≡ ""
      → printer_id ≡ Roles.resolve r p.role
      → printer_id ≢ ""
      → Names roles p printer_id

ok-injective : {x y : String} → ok x ≡ ok y → x ≡ y
ok-injective e = cc

printer_of-Names :
    (roles : Option RoleResolver) (p : JobPayload) (printer_id : String)
    → printer_of roles p ≡ ok printer_id
    → Names roles p printer_id
unfolding printer_of role_printer resolved
printer_of-Names roles p printer_id e = elim (Bool-cases (str_eq p.printer_id "")) [
  | inr f ↦ named (str_eq-ne p.printer_id "" f) (sym (ok-injective (rw f at e)))
  | inl f ↦ by_resolver ((eq_iff p.printer_id "").0 f) roles (rw f at e)
]
  where
    by_resolver :
        p.printer_id ≡ ""
        → (o : Option RoleResolver) → role_printer o p.role ≡ ok printer_id
        → Names o p printer_id
    by_resolver f none g = cc
    by_resolver f (some r) g = elim (Bool-cases (str_eq (Roles.resolve r p.role) "")) [
      | inl h ↦ cc (rw h at g)
      | inr h ↦
          let same = ok-injective (rw h at g) in
          by_role r refl f (sym same)
            (subst (λ (i : String). i ≢ "") same (str_eq-ne (Roles.resolve r p.role) "" h))
    ]

module _ {Image W : Type 0} where
  -- Handling a print job either fails and changes nothing outside, or it is exactly one `Send` of the
  -- driver that the resolver gave, to the printer that the payload names, or else to the one that the
  -- payload's role resolves to.
  pub handle_print_sends_once :
      (unmarshal : Bytes → Result JobPayload) (engine : Engine Image W)
      (roles : Option RoleResolver) (j : Job) (w : W)
      → ((x : Error) × (handle_print unmarshal engine roles j w ≡ (err x, w)))
        ⊎ ((p : JobPayload) × (printer_id : String) × (profile : PrinterProfile) × (pipe : Pipeline
              Image W)
            × (content : Bytes) × (unmarshal j.payload ≡ ok p)
            × Names roles p printer_id
            × (engine.profiles printer_id ≡ ok profile)
            × (engine.resolver p.format profile ≡ ok pipe)
            × (handle_print unmarshal engine roles j w ≡ pipe.driver.send printer_id content w))
  unfolding handle_print
  handle_print_sends_once unmarshal engine roles j w = elim (Result-cases (unmarshal j.payload)) [
    | inr (x, e) ↦ inl (x, rw (e, handle_payload))
    | inl (p, e) ↦ elim (Result-cases (printer_of roles p)) [
      | inr (x, f) ↦ inl (x, rw (e, handle_payload) (rw (f, print_on)))
      | inl (printer_id, f) ↦ elim (print_sends_once engine (print_job p printer_id) w) [
        | inl (x, g) ↦ inl (x, rw (e, handle_payload) (rw (f, print_on) g))
        | inr (profile, pipe, content, found, resolved_to, g) ↦ inr (
          p,
          printer_id,
          profile,
          pipe,
          content,
          e,
          printer_of-Names roles p printer_id f,
          found,
          resolved_to,
          rw (e, handle_payload) (rw (f, print_on) g),
        )
      ]
    ]
  ]
