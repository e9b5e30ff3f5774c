-- ===== src/Update/Guards.antt =====
-- What must hold before an update is applied, and what the panel reads.
use tera_agent.Base.{
  ◌≡◌, ◌≢◌, ◌⊎◌, ◌↔◌, inl, inr, refl, true, false, not, ◌||◌, ◌&&◌, Bool-cases, [], ◌∷◌, arith,
}
use tera_agent.Base.Int.{ltb_ℤ, pos}
use tera_agent.Failure.{Error, ok, err, Result-cases, up_to_date, unverifiable}
use tera_agent.Update.Version.{Text, compare, newer}
use tera_agent.Update.Version.Order.{compare-below}
use tera_agent.Update.{
  Manifest, Ports, Service, is_empty, cached, status_of, conclude_check, check, apply_fetched,
  apply,
}

-- What a manifest must have.
pub record IsApplicable (current : Text) (m : Manifest) : Type 0 where
  pub is_newer : newer m.latest current ≡ true
  pub has_url : m.url ≢ []
  pub has_sha256 : m.sha256 ≢ []

not_empty : (t : Text) → is_empty t ≡ false → t ≢ []
not_empty [] h e = absurd (cc)
not_empty (c ∷ cs) h e = cc

named : (t : Text) → not (is_empty t) ≡ true → t ≢ []
named [] h e = cc
named (c ∷ cs) h e = cc

unnamed : (t : Text) → t ≢ [] → not (is_empty t) ≡ true
unnamed [] h = absurd (h refl)
unnamed (c ∷ cs) h = refl

mandatory_iff :
    (current : Text) (m : Manifest)
    → ((m.mandatory
          || (not (is_empty m.min_supported) && ltb_ℤ (compare current m.min_supported) (pos 0)))
        ≡ true)
      ↔ ((m.mandatory ≡ true) ⊎ ((m.min_supported ≢ []) × (newer m.min_supported current ≡ true)))
mandatory_iff current m = rw (compare-below current m.min_supported) (
  (λ h. elim (Bool-cases m.mandatory) [
    | inl e ↦ inl e
    | inr e ↦ inr (named m.min_supported (ground arith), ground arith)
  ]),
  λ h. elim h [
    | inl e ↦ rw e
    | inr (present, below) ↦ ground (arith, unnamed m.min_supported present, below)
  ],
)

module _ {W : Type 0} (ports : Ports W) where
  -- `Apply` asks for the manifest once. Then it fails with nothing more done, or the manifest is of a
  -- newer version and has an address and a hash, and the applier is called on it once; the status that
  -- the panel reads is as it was.
  pub apply-IsApplicable :
      (s : Service W)
      → let fetched = ports.fetch ports.current s.world in
        ((apply ports s).1.last ≡ s.last)
        × (((e : Error) × (apply ports s ≡ (err e, record s { world = fetched.1 })))
            ⊎ ((m : Manifest) × (fetched.0 ≡ ok m)
                × IsApplicable ports.current m
                × ((apply ports s).0 ≡ (ports.apply m fetched.1).0)
                × ((apply ports s).1.world ≡ (ports.apply m fetched.1).1)))
  unfolding apply apply_fetched
  apply-IsApplicable s = (
    refl,
    elim (Result-cases (ports.fetch ports.current s.world).0) [
      | inr (e, f) ↦ inl (e, rw (f, apply_fetched))
      | inl (m, f) ↦ elim (Bool-cases (newer m.latest ports.current)) [
        | inr old ↦ inl (up_to_date, rw (f, apply_fetched) (rw old))
        | inl new ↦ elim (Bool-cases (is_empty m.url || is_empty m.sha256)) [
          | inl bare ↦ inl (unverifiable, rw (f, apply_fetched) (rw new (rw bare)))
          | inr full ↦ inr (
            m,
            f,
            record {
              is_newer = new;
              has_url = not_empty m.url (ground arith);
              has_sha256 = not_empty m.sha256 (ground arith);
            },
            rw (f, apply_fetched) (rw new (rw full)),
            rw (f, apply_fetched) (rw new (rw full)),
          )
        ]
      ]
    ],
  )

  -- After `Check` the panel reads the status that it returned. Where the manifest came, the status
  -- says that a version is available exactly when the manifest's is newer, and that it is mandatory
  -- exactly when the manifest says so or names a smallest version that this one is below; where it did
  -- not come, the status is the one from before.
  check-cached :
      (s : Service W)
      → let checked = check ports s in
        let fetched = ports.fetch ports.current s.world in
        (cached ports checked.after ≡ checked.status)
        × (((e : Error) × (fetched.0 ≡ err e)
              × (checked.failure ≡ err e)
              × (checked.status ≡ s.last))
            ⊎ ((m : Manifest) × (fetched.0 ≡ ok m)
                × (checked.failure ≡ ok tt)
                × (checked.status.available ≡ newer m.latest ports.current)
                × ((checked.status.mandatory ≡ true) ↔ (
                    (m.mandatory ≡ true)
                    ⊎ ((m.min_supported ≢ []) × (newer m.min_supported ports.current ≡ true))))))
  unfolding check conclude_check status_of
  check-cached s = elim (Result-cases (ports.fetch ports.current s.world).0) [
    | inr (e, f) ↦ rw (f, conclude_check) (refl, inl (e, refl, refl, refl))
    | inl (m, f) ↦
        rw (f, conclude_check) (refl, inr (m, refl, refl, refl, mandatory_iff ports.current m))
  ]
