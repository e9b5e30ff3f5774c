-- ===== src/Panel/Server/Edits.antt =====
-- What a request may do to the configuration, as a relation of the configuration before and after.
pub mod Linked
use tera_agent.Base.{
  Bool, true, false, Option, none, some, String, str_eq, eq_iff, str_eq-ne, ◌≡◌, ◌≢◌, refl, sym, ap,
  ◌∙◌, ◌⊎◌, inl, inr, Bool-cases, if◌then◌else◌, arith, not, ◌&&◌,
}
use tera_agent.Config.{Config}
use tera_agent.Texts.{trim}
use tera_agent.Failure.{Error, Result, ok, err, Result-cases}
use tera_agent.Panel.Managed.{upsert_managed, remove_managed}
use tera_agent.Panel.Server.{
  Deps, Panel, Reply, Call, Managing, Settings, save, save_by, tune, tune_by, persist, persisted,
  answered, first_non_empty,
}
use tera_agent.Panel.Server.Printers.{
  managed_of, printers, manage, set_default, printed, profile_for, drawer, test_on, test_print,
}
use tera_agent.Panel.Server.Connection.{
  validate_backend_url, new_token, new_url, apply_url, checked_url, set_url, apply_token,
  apply_rest, connection_changed, apply_connection_change, conclude_settings, applied,
  change_settings, guarded_settings, decoded_settings, config, show_settings, saved_connection,
  unregister, with_url, valid_or_not, register_as, register,
}

ok-injective {ℓ} : {A : Type ℓ} {a b : A} → ok a ≡ ok b → a ≡ b
ok-injective e = cc

module _ {Image W : Type 0} (d : Deps Image W) where
  -- A new URL is one that is accepted, or none; or it is the old one.
  pub record IsAccepted (old url : String) : Type 0 where
    pub accepted : (url ≡ "") ⊎ (url ≡ old) ⊎ (validate_backend_url d url ≡ ok tt)

  pub data Edit (c c' : Config) : Type 0 where
    unchanged : c' ≡ c → Edit c c'
    removed :
        (name : String)
        → c' ≡ record c {
          printers = remove_managed c.printers name;
          default_printer = if str_eq name c.default_printer then "" else c.default_printer;
        }
        → Edit c c'
    upserted :
        (body : Managing)
        → body.name ≢ ""
        → c' ≡ record c { printers = upsert_managed c.printers (managed_of body) }
        → Edit c c'
    preferred : (name : String) → c' ≡ record c { default_printer = name } → Edit c c'
    tuned : (body : Settings) → c' ≡ apply_rest d body c → Edit c c'
    linked :
        (url token : String) (body : Settings)
        → d.conn_read_only ≡ false
        → IsAccepted c.backend_url url
        → c' ≡ apply_rest d body (record c { backend_url = url; token = token })
        → Edit c c'
    enrolled :
        (url token : String)
        → d.conn_read_only ≡ false
        → IsAccepted c.backend_url url
        → c' ≡ record c { backend_url = url; token = token }
        → Edit c c'

  -- The configuration through a save and a reply.
  save-cfg : (s : Panel W) → (save d s).1.cfg ≡ s.cfg
  unfolding save
  save-cfg s = by d.save_config
    where
      by : (o : Option (Config → W → Result (Unit {0}) × W)) → (save_by d o s).1.cfg ≡ s.cfg
      by none = refl
      by (some f) = refl

  tune-cfg : (s : Panel W) → (tune d s).cfg ≡ s.cfg
  unfolding tune
  tune-cfg s = by d.apply_tuning
    where
      by : (o : Option (Config → W → W)) → (tune_by d o s).cfg ≡ s.cfg
      by none = refl
      by (some f) = refl

  persist-cfg : (s : Panel W) → (persist d s).1.cfg ≡ s.cfg
  unfolding persist
  persist-cfg s = by (save d s) ∙ save-cfg s
    where
      by : (r : Result (Unit {0}) × Panel W) → (persisted d r).1.cfg ≡ r.1.cfg
      by (err e, t) = refl
      by (ok _, t) = tune-cfg t

  answered-cfg : (r : Result (Unit {0}) × Panel W) → (answered d r).1.cfg ≡ r.1.cfg
  unfolding answered
  answered-cfg (err e, s) = refl
  answered-cfg (ok _, s) = refl

  kept : (s : Panel W) → (answered d (persist d s)).1.cfg ≡ s.cfg
  kept s = answered-cfg (persist d s) ∙ persist-cfg s

  restart-cfg : (note : String) (s : Panel W) → (apply_connection_change d note s).1.cfg ≡ s.cfg
  unfolding apply_connection_change
  restart-cfg note s = by d.on_registered
    where
      by : (o : Option (W → W)) → (connection_changed d note o s).1.cfg ≡ s.cfg
      by none = refl
      by (some f) = refl

  saved-cfg :
      (note : String) (r : Result (Unit {0}) × Panel W)
      → (saved_connection d note r).1.cfg ≡ r.1.cfg
  unfolding saved_connection
  saved-cfg note (err e, s) = refl
  saved-cfg note (ok _, s) = restart-cfg note s

  printed-cfg :
      (printer : String) (s : Panel W) (r : Result (Unit {0}) × W)
      → (printed d printer s r).1.cfg ≡ s.cfg
  unfolding printed
  printed-cfg printer s (err e, w) = refl
  printed-cfg printer s (ok _, w) = refl

  either-cfg :
      (b : Bool) (x y : Reply × Panel W) (c : Config)
      → x.1.cfg ≡ c
      → y.1.cfg ≡ c
      → (if b then x else y).1.cfg ≡ c
  either-cfg true x y c p q = p
  either-cfg false x y c p q = q

  split :
      (b : Bool) (x y : Reply × Panel W) (c : Config)
      → (b ≡ true → Edit c x.1.cfg)
      → (b ≡ false → Edit c y.1.cfg)
      → Edit c (if b then x else y).1.cfg
  split true x y c p q = p refl
  split false x y c p q = q refl

  -- The handlers.
  pub printers-Edit : (call : Call) (s : Panel W) → Edit s.cfg (printers d call s).1.cfg
  unfolding printers
  printers-Edit call s = elim (Bool-cases (str_eq call.request.method "DELETE")) [
    | inr e ↦ rw e (unchanged refl)
    | inl e ↦ rw e (elim (Bool-cases (str_eq call.query_name "")) [
      | inl f ↦ rw f (unchanged refl)
      | inr f ↦ rw f (removed call.query_name (kept _))
    ])
  ]

  pub manage-Edit : (body : Managing) (s : Panel W) → Edit s.cfg (manage d body s).1.cfg
  unfolding manage
  manage-Edit body s = elim (Bool-cases (str_eq body.name "")) [
    | inl e ↦ rw e (unchanged refl)
    | inr e ↦ rw e (upserted body (str_eq-ne body.name "" e) (kept _))
  ]

  pub set_default-Edit : (name : String) (s : Panel W) → Edit s.cfg (set_default d name s).1.cfg
  unfolding set_default
  set_default-Edit name s = elim (Bool-cases (str_eq name "")) [
    | inl e ↦ rw e (unchanged refl)
    | inr e ↦ rw e (preferred name (kept _))
  ]

  pub drawer-Edit : (printer : String) (s : Panel W) → Edit s.cfg (drawer d printer s).1.cfg
  unfolding drawer
  drawer-Edit printer s = elim (Bool-cases (str_eq printer "")) [
    | inl e ↦ rw e (unchanged refl)
    | inr e ↦ rw e (
        unchanged (
          either-cfg (not (profile_for d s printer).supports_drawer) _ _ s.cfg refl
            (printed-cfg printer s _)))
  ]

  test_on-cfg : (printer : String) (s : Panel W) → (test_on d printer s).1.cfg ≡ s.cfg
  unfolding test_on
  test_on-cfg printer s = either-cfg (str_eq printer "") _ _ s.cfg refl (printed-cfg printer s _)

  pub test_print-cfg : (call : Call) (s : Panel W) → (test_print d call s).1.cfg ≡ s.cfg
  unfolding test_print
  test_print-cfg call s =
      either-cfg (str_eq (first_non_empty (d.named call.body) s.cfg.default_printer) "") _ _ s.cfg
        (test_on-cfg _ _) (test_on-cfg _ s)
