-- ===== src/Wiring/Applied.antt =====
-- What a change in the panel is for the next job.
use Prim.Native.Nat.{min}
use tera_agent.Base.{zero, suc, Bool, Option, none, some, List, String, str_eq, ◌≡◌, if◌then◌else◌}
use tera_agent.Base.Int.{ℤ, pos, negsuc}
use tera_agent.Config.{
  Config, ManagedPrinter, mode_vector, mode_image, page_mode_of, printer_tuning, override,
  page_margin,
}
use tera_agent.Panel.Managed.{upsert_managed}
use tera_agent.Panel.Server.{Deps, Panel, Managing}
use tera_agent.Panel.Server.Printers.{managed_of}
use tera_agent.Wiring.{App, MarginDriver, apply_page_margin, build_ui_server}

tuning_of : Option ManagedPrinter → ℤ → ℤ → ℤ × ℤ
tuning_of none cut top = (cut, top)
tuning_of (some p) cut top = (override p.cut_feed_dots cut, override p.top_margin_dots top)

shown_mode : Option ManagedPrinter → String
shown_mode none = mode_vector
shown_mode (some p) = if str_eq p.page_mode mode_image then mode_image else mode_vector

-- A configuration with what a request says of a printer.
abbrev edited : Config → Managing → Config
edited c body = record c { printers = upsert_managed c.printers (managed_of body) }

-- The cut of a printer: what was asked for, 2000 dots at most, and the default one where nothing above
-- 0 was.
abbrev pub cut_for : ℤ → ℤ → ℤ
cut_for (pos zero) default = default
cut_for (pos (suc n)) default = pos (min (suc n) 2000)
cut_for (negsuc n) default = default

-- Its top margin: what was asked for, and the default one where nothing above 0 was.
abbrev pub top_for : ℤ → ℤ → ℤ
top_for (pos zero) default = default
top_for (pos (suc n)) default = pos (suc n)
top_for (negsuc n) default = default

module _ {Image W : Type 0} (d : Deps Image (App W)) (read_only : Bool) where
  abbrev ui : Deps Image (App W)
  ui = build_ui_server d read_only

  -- What the application has is that of the panel's configuration.
  pub record IsLive (s : Panel (App W)) : Type 0 where
    pub tuning : s.world.tuning ≡ some (printer_tuning s.cfg)
    pub modes : s.world.modes ≡ some (page_mode_of s.cfg)
    pub printers : s.world.roles.printers ≡ s.cfg.printers
    pub default : s.world.roles.default_printer ≡ s.cfg.default_printer
    pub margins :
        (drivers : List MarginDriver) × (s.world.drivers
          ≡ apply_page_margin drivers (page_margin s.cfg))
