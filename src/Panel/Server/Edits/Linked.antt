-- ===== src/Panel/Server/Edits/Linked.antt =====
-- The changes that the settings and the registration make to the configuration.
use tera_agent.Base.{
  Bool, true, false, Option, none, some, String, str_eq, eq_iff, ◌≡◌, refl, sym, ap, ◌∙◌, ◌⊎◌, inl,
  inr, Bool-cases, if◌then◌else◌, arith, not, ◌&&◌,
}
use tera_agent.Config.{Config}
use tera_agent.Texts.{trim}
use tera_agent.Failure.{Error, Result, ok, err, Result-cases}
use tera_agent.Panel.Server.{Deps, Panel, Call, Settings, save, tune}
use tera_agent.Panel.Server.Connection.{
  validate_backend_url, new_token, new_url, apply_url, checked_url, set_url, apply_token,
  apply_rest, conclude_settings, applied, change_settings, guarded_settings, decoded_settings,
  config, show_settings, unregister, with_url, valid_or_not, register_as, register,
}
use tera_agent.Panel.Server.Edits.{
  ok-injective, IsAccepted, Edit, unchanged, tuned, linked, enrolled, save-cfg, tune-cfg,
  restart-cfg, saved-cfg, either-cfg, split,
}

module _ {Image W : Type 0} (d : Deps Image W) where
  -- The URL of the settings, and the token.
  apply_url-IsAccepted :
      (url : Option String) (c : Config) (out : Config × Bool)
      → apply_url d url c ≡ ok out
      → (new : String) × IsAccepted d c.backend_url new × (out.0 ≡ record c { backend_url = new })
  unfolding apply_url checked_url set_url
  apply_url-IsAccepted none c out h =
      (c.backend_url, record { accepted = inr (inl refl) }, ap (λ r. r.0) (ok-injective (sym h)))
  apply_url-IsAccepted (some raw) c out h =
      by (if str_eq (trim raw) "" then ok tt else validate_backend_url d (trim raw)) refl h
    where
      accepts :
          (if str_eq (trim raw) "" then ok tt else validate_backend_url d (trim raw)) ≡ ok tt
          → IsAccepted d c.backend_url (trim raw)
      accepts e = elim (Bool-cases (str_eq (trim raw) "")) [
        | inl empty ↦ record { accepted = inl ((eq_iff (trim raw) "").0 empty) }
        | inr full ↦ record { accepted = inr (inr (rw full at e)) }
      ]

      by :
          (r : Result (Unit {0}))
          → (if str_eq (trim raw) "" then ok tt else validate_backend_url d (trim raw)) ≡ r
          → checked_url d r (trim raw) c ≡ ok out
          → (new : String) × IsAccepted d c.backend_url new
            × (out.0 ≡ record c { backend_url = new })
      by (err e) same h = cc
      by (ok _) same h = elim (Bool-cases (str_eq (trim raw) c.backend_url)) [
        | inl old ↦ (
          c.backend_url,
          record { accepted = inr (inl refl) },
          ap (λ r. r.0) (ok-injective (sym (rw old at h))),
        )
        | inr fresh ↦ (trim raw, accepts same, ap (λ r. r.0) (ok-injective (sym (rw fresh at h))))
      ]

  apply_token-new :
      (token : Option String) (c : Config)
      → (new : String) × ((apply_token d token c).0 ≡ record c { token = new })
  unfolding apply_token
  apply_token-new none c = (c.token, refl)
  apply_token-new (some raw) c =
      elim (Bool-cases (not (str_eq (trim raw) "") && not (str_eq (trim raw) c.token))) [
        | inl e ↦ (trim raw, rw e refl)
        | inr e ↦ (c.token, rw e refl)
      ]

  -- The settings, once the URL is through: `conclude_settings` on the saved panel.
  concluded-cfg :
      (changed : Bool) (r : Result (Unit {0}) × Panel W)
      → (conclude_settings d changed r).1.cfg ≡ r.1.cfg
  unfolding conclude_settings
  concluded-cfg changed (err e, s) = refl
  concluded-cfg changed (ok _, s) = either-cfg d changed _ _ s.cfg (restart-cfg d _ s) refl

  settled-cfg :
      (changed : Bool) (s : Panel W)
      → (conclude_settings d changed (save d (tune d s))).1.cfg ≡ s.cfg
  settled-cfg changed s =
      concluded-cfg changed (save d (tune d s)) ∙ save-cfg d (tune d s) ∙ tune-cfg d s

  -- What the settings make of the configuration, where a change of the connection is allowed.
  data Settled (body : Settings) (c c' : Config) : Type 0 where
    refused : c' ≡ c → Settled body c c'
    settled :
        (url token : String)
        → IsAccepted d c.backend_url url
        → c' ≡ apply_rest d body (record c { backend_url = url; token = token })
        → Settled body c c'

  change_settings-Settled :
      (body : Settings) (s : Panel W) → Settled body s.cfg (change_settings d body s).1.cfg
  unfolding change_settings applied
  change_settings-Settled body s = elim (Result-cases (apply_url d body.url s.cfg)) [
    | inr (e, f) ↦ rw f (refused refl)
    | inl ((cfg, changed), f) ↦
        let (url, accepted, e) = apply_url-IsAccepted body.url s.cfg (cfg, changed) f in
        let (token, t) = apply_token-new body.token cfg in
        rw f (
          settled url token accepted (
            settled-cfg _ _
            ∙ ap (apply_rest d body) (t ∙ ap (λ (k : Config). record k { token = token }) e)))
  ]

  calibrate-cfg :
      (body : Settings) (s : Panel W)
      → (change_settings d (record body { token = none; url = none }) s).1.cfg
        ≡ apply_rest d (record body { token = none; url = none }) s.cfg
  unfolding change_settings applied apply_url apply_token
  calibrate-cfg body s = settled-cfg false _

  guarded_settings-Edit :
      (body : Settings) (s : Panel W) → Edit d s.cfg (guarded_settings d body s).1.cfg
  unfolding guarded_settings
  guarded_settings-Edit body s =
      split d (not d.conn_read_only) _ _ s.cfg
        (λ free. by (ground (arith, free)) (change_settings-Settled body s))
        λ _.
          split d (new_token d body.token) _ _ s.cfg (λ _. unchanged refl)
            λ _.
              split d (new_url d body.url s.cfg.backend_url) _ _ s.cfg (λ _. unchanged refl)
                λ _. tuned (record body { token = none; url = none }) (calibrate-cfg body s)
    where
      by : {c c' : Config} → d.conn_read_only ≡ false → Settled body c c' → Edit d c c'
      by e (refused h) = unchanged h
      by e (settled url token accepted h) = linked url token body e accepted h

  pub config-Edit : (call : Call) (s : Panel W) → Edit d s.cfg (config d call s).1.cfg
  unfolding config decoded_settings show_settings
  config-Edit call s = elim (Bool-cases (str_eq call.request.method "GET")) [
    | inl e ↦ rw e (unchanged refl)
    | inr e ↦ elim (Result-cases (d.settings call.body)) [
      | inr (x, f) ↦ rw (e, f) (unchanged refl)
      | inl (body, f) ↦ rw (e, f) (guarded_settings-Edit body s)
    ]
  ]

  pub unregister-Edit : (call : Call) (s : Panel W) → Edit d s.cfg (unregister d call s).1.cfg
  unfolding unregister
  unregister-Edit call s =
      split d (not (str_eq call.request.method "POST")) _ _ s.cfg (λ _. unchanged refl)
        λ _.
          split d d.conn_read_only _ _ s.cfg (λ _. unchanged refl)
            λ free.
              enrolled "" "" free (record { accepted = inl refl }) (saved-cfg d _ _ ∙ save-cfg d _)

  with_url-Edit :
      (token url : String) (s : Panel W)
      → d.conn_read_only ≡ false
      → (str_eq url "" ≡ true) ⊎ (validate_backend_url d url ≡ ok tt)
      → Edit d s.cfg (with_url d token url s).1.cfg
  unfolding with_url
  with_url-Edit token url s free valid = elim (Bool-cases (str_eq url "")) [
    | inl e ↦ rw e (elim (Bool-cases (str_eq s.cfg.backend_url "")) [
      | inl f ↦ rw f (unchanged refl)
      | inr f ↦ rw f (
          enrolled s.cfg.backend_url token free (record { accepted = inr (inl refl) })
            (saved-cfg d _ _ ∙ save-cfg d _))
    ])
    | inr e ↦ rw e (
        rw e (
          enrolled url token free (record { accepted = accepts valid e })
            (saved-cfg d _ _ ∙ save-cfg d _)))
  ]
    where
      accepts :
          (str_eq url "" ≡ true) ⊎ (validate_backend_url d url ≡ ok tt)
          → str_eq url "" ≡ false
          → (url ≡ "") ⊎ (url ≡ s.cfg.backend_url) ⊎ (validate_backend_url d url ≡ ok tt)
      accepts (inl empty) e = cc
      accepts (inr valid) e = inr (inr valid)

  pub register-Edit : (call : Call) (s : Panel W) → Edit d s.cfg (register d call s).1.cfg
  unfolding register register_as valid_or_not
  register-Edit call s =
      split d d.conn_read_only _ _ s.cfg (λ _. unchanged refl)
        λ free.
          split d (str_eq token "") _ _ s.cfg (λ _. unchanged refl)
            λ _.
              enrols free (Bool-cases (str_eq url "")) (Result-cases (validate_backend_url d url))
    where
      token : String
      token = trim (d.registration call.body).token

      url : String
      url = trim (d.registration call.body).url

      enrols :
          d.conn_read_only ≡ false
          → (str_eq url "" ≡ true) ⊎ (str_eq url "" ≡ false)
          → ((u : Unit {0}) × (validate_backend_url d url ≡ ok u))
            ⊎ ((e : Error) × (validate_backend_url d url ≡ err e))
          → Edit d s.cfg
              (valid_or_not d
                (if str_eq url "" then ok tt else validate_backend_url d url)
                token
                url
                s).1.cfg
      enrols free (inl g) _ = rw g (with_url-Edit token url s free (inl g))
      enrols free (inr g) (inl (u, h)) = rw (g, h) (with_url-Edit token url s free (inr h))
      enrols free (inr g) (inr (x, h)) = rw (g, h) (unchanged refl)
