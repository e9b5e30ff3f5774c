-- ===== src/Cli/Found.antt =====
-- The command line needs no profile of the Backend.
use tera_agent.Base.{str_eq, eq_iff, [], ◌≡◌, ◌≢◌, refl, arith, Bool-cases, inl, inr}
use tera_agent.Failure.{Result, ok}
use tera_agent.Maps.{get-put}
use tera_agent.Printing.{SourceFormat, PrinterProfile, Pipeline}
use tera_agent.Print.Engine.{print, print_with_profile}
use tera_agent.Profiles.Cache.{set, profile, normalized_profile}
use tera_agent.Cli.{EngineArgs, flags_profile, flags_job, engine_with, run_engine}

module _ {Image W : Type 0} (resolver : SourceFormat → PrinterProfile → Result (Pipeline Image W))
    (normalize : PrinterProfile → PrinterProfile) where
  found :
      (p : PrinterProfile) → normalized_profile normalize (set [] p) p.printer_id ≡ ok (normalize p)
  unfolding normalized_profile set profile
  found p =
      ground
        (arith, get-put p.printer_id p.printer_id p [], (eq_iff p.printer_id p.printer_id).1 refl)

  -- With a printer, the document is printed with the profile of the flags, as the system prepares it.
  run_engine_lem :
      (a : EngineArgs) (w : W)
      → a.printer ≢ ""
      → run_engine resolver normalize a w
        ≡ print_with_profile
            (engine_with resolver normalize (flags_profile a))
            (flags_job a)
            (normalize (flags_profile a))
            w
  unfolding run_engine print flags_profile engine_with
  run_engine_lem a w h = elim (Bool-cases (str_eq a.printer "")) [
    | inl e ↦ absurd (h ((eq_iff a.printer "").0 e))
    | inr e ↦ rw (e, found (flags_profile a)) refl
  ]
