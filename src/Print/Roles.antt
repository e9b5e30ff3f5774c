-- ===== src/Print/Roles.antt =====
-- internal/app/print/roles.go: a functional role is resolved to a physical printer. The resolver's
-- lock is held for a whole call, so a call is one step.
use tera_agent.Base.{
  ◌≡◌, ◌≢◌, ◌⊎◌, inl, inr, refl, sym, subst, true, Bool-cases, List, [], ◌∷◌, ◌&&◌, Memᴰ, Memᴰ-cons,
  All, All-Memᴰ, String, str_eq, eq_iff, if◌then◌else◌, arith,
}
use tera_agent.Config.{ManagedPrinter}

pub record RoleResolver : Type 0 where
  pub printers : List ManagedPrinter
  pub default_printer : String

unfoldable pub update : RoleResolver → List ManagedPrinter → String → RoleResolver
update r printers default = record r { printers = printers; default_printer = default }

unfoldable pub new_role_resolver : List ManagedPrinter → String → RoleResolver
unfolding update
new_role_resolver printers default =
    update (record { printers = []; default_printer = "" }) printers default

-- The loop that collects the candidates.
candidates : String → List ManagedPrinter → List ManagedPrinter
candidates role [] = []
candidates role (p ∷ ps) =
    let rest = candidates role ps in if str_eq p.role role && p.enabled then p ∷ rest else rest

-- The loop that looks for the default printer among several candidates.
prefer : String → List ManagedPrinter → String → String
prefer default [] other = other
prefer default (m ∷ ms) other = if str_eq m.name default then m.name else prefer default ms other

-- The choice among the candidates: none, one, or several.
choose : String → List ManagedPrinter → String
unfolding prefer
choose default [] = default
choose default (m ∷ []) = m.name
choose default (m ∷ n ∷ ms) = prefer default (m ∷ n ∷ ms) m.name

unfoldable pub resolve : RoleResolver → String → String
unfolding choose candidates
resolve r role =
    if str_eq role ""
    then r.default_printer
    else choose r.default_printer (candidates role r.printers)

-- The printer is activated and plays the role.
pub record Plays (role : String) (p : ManagedPrinter) : Type 0 where
  pub has_role : p.role ≡ role
  pub is_enabled : p.enabled ≡ true

candidates_sound :
    (role : String) (ps : List ManagedPrinter) (p : ManagedPrinter)
    → Memᴰ p (candidates role ps)
    → Memᴰ p ps × Plays role p
unfolding candidates
candidates_sound role [] p m = elim m [ ]
candidates_sound role (q ∷ qs) p m = elim (Bool-cases (str_eq q.role role && q.enabled)) [
  | inl e ↦ elim (Memᴰ-cons (rw e at m)) [
    | inl here ↦
        (Memᴰ.head here, subst (Plays role) (sym here) (ground (arith, eq_iff q.role role)))
    | inr later ↦ let (n, h) = candidates_sound role qs p later in (Memᴰ.tail n, h)
  ]
  | inr e ↦ let (n, h) = candidates_sound role qs p (rw e at m) in (Memᴰ.tail n, h)
]

candidates_complete :
    (role : String) (ps : List ManagedPrinter) (p : ManagedPrinter)
    → Memᴰ p ps
    → Plays role p
    → Memᴰ p (candidates role ps)
unfolding candidates
candidates_complete role [] p m h = elim m [ ]
candidates_complete role (q ∷ qs) p (Memᴰ.head e) h =
    let same : (str_eq q.role role && q.enabled) ≡ true =
      ground (arith, eq_iff q.role role, h.has_role, h.is_enabled, e) in
    rw same (Memᴰ.head e)
candidates_complete role (q ∷ qs) p (Memᴰ.tail m) h =
    let later = candidates_complete role qs p m h in
    elim (Bool-cases (str_eq q.role role && q.enabled)) [
      | inl e ↦ rw e (Memᴰ.tail later)
      | inr e ↦ rw e later
    ]

-- The result of `prefer` is the name of a candidate, or the other name when none is the default.
prefer_lem :
    (default : String) (ms : List ManagedPrinter) (other : String)
    → ((m : ManagedPrinter) × Memᴰ m ms × (prefer default ms other ≡ m.name) × (m.name ≡ default))
      ⊎ ((prefer default ms other ≡ other) × All (λ m. m.name ≢ default) ms)
unfolding prefer
prefer_lem default [] other = inr (refl, tt)
prefer_lem default (m ∷ ms) other = elim (Bool-cases (str_eq m.name default)) [
  | inl e ↦ inl (m, Memᴰ.head refl, rw e refl, (eq_iff m.name default).0 e)
  | inr e ↦ rw e (elim (prefer_lem default ms other) [
    | inl (n, listed, chosen, named) ↦ inl (n, Memᴰ.tail listed, chosen, named)
    | inr (chosen, none_named) ↦
        inr (chosen, ((λ q. ground (arith, eq_iff m.name default)), none_named))
  ])
]

-- A candidate that is named by `default` whenever some candidate is.
abbrev pub Chosen : String → List ManagedPrinter → String → Type 0
Chosen default ms name =
    (q : ManagedPrinter) × Memᴰ q ms
    × (name ≡ q.name)
    × ((s : ManagedPrinter) → Memᴰ s ms → s.name ≡ default → q.name ≡ default)

choose_lem :
    (default : String) (ms : List ManagedPrinter) → ms ≢ [] → Chosen default ms (choose default ms)
unfolding choose
choose_lem default [] h = absurd (h refl)
choose_lem default (m ∷ []) h = (
  m,
  Memᴰ.head refl,
  refl,
  λ s listed named. elim (Memᴰ-cons listed) [
    | inl e ↦ subst (λ (t : ManagedPrinter). t.name ≡ default) e named
    | inr none_left ↦ elim none_left [ ]
  ],
)
choose_lem default (m ∷ n ∷ ms) h = elim (prefer_lem default (m ∷ n ∷ ms) m.name) [
  | inl (q, listed, chosen, named) ↦ (q, listed, chosen, λ s _ _. named)
  | inr (chosen, none_named) ↦
      (m, Memᴰ.head refl, chosen, λ s listed named. absurd (All-Memᴰ _ _ none_named listed named))
]

-- Where some enabled printer plays the (nonempty) role asked for, `Resolve` returns the name of an
-- enabled printer that plays it, and that name is the default printer's whenever an enabled printer
-- of that name plays the role.
pub resolve_role :
    (r : RoleResolver) (role : String) (p : ManagedPrinter)
    → role ≢ ""
    → Memᴰ p r.printers
    → Plays role p
    → (q : ManagedPrinter) × Memᴰ q r.printers
      × Plays role q
      × (resolve r role ≡ q.name)
      × ((s : ManagedPrinter)
          → Memᴰ s r.printers
          → Plays role s
          → s.name ≡ r.default_printer
          → q.name ≡ r.default_printer)
unfolding resolve
resolve_role r role p named listed plays =
    let has_some = candidates_complete role r.printers p listed plays in
    let (q, m, chosen, preferred) =
      choose_lem r.default_printer (candidates role r.printers) (λ e. nowhere (rw e at has_some)) in
    let (m', plays') = candidates_sound role r.printers q m in
    (
      q,
      m',
      plays',
      ground (arith, eq_iff role "", chosen),
      λ s ms ps. preferred s (candidates_complete role r.printers s ms ps),
    )
  where
    nowhere : Memᴰ p [] → ⊥
    nowhere m = elim m [ ]

no_candidates :
    (role : String) (ps : List ManagedPrinter)
    → ((p : ManagedPrinter) → Memᴰ p ps → ¬ Plays role p)
    → candidates role ps ≡ []
no_candidates role ps nobody = go (candidates role ps) refl
  where
    go : (ms : List ManagedPrinter) → candidates role ps ≡ ms → candidates role ps ≡ []
    go [] e = e
    go (m ∷ ms) e =
        let (listed, plays) = candidates_sound role ps m (rw e (Memᴰ.head refl)) in
        absurd (nobody m listed plays)

-- With no role, or where no enabled printer plays the role, `Resolve` returns the default printer.
resolve_default :
    (r : RoleResolver) (role : String)
    → (role ≡ "") ⊎ ((p : ManagedPrinter) → Memᴰ p r.printers → ¬ Plays role p)
    → resolve r role ≡ r.default_printer
unfolding resolve
resolve_default r role (inl e) = ground (arith, eq_iff role "")
resolve_default r role (inr nobody) = ground (arith, no_candidates role r.printers nobody)
