-- ===== src/Wiring/Tests.antt =====
-- An application with a driver that places pages and one that does not, and a change in its panel.
use tera_agent.Base.{ℕ, false, none, [], ◌∷◌}
use tera_agent.Panel.Server.{Deps, Panel}
use tera_agent.Panel.Server.Printers.{manage}
use tera_agent.Panel.Routes.Tests.{deps_on, start, drawer}
use tera_agent.Wiring.{App, setter, other, build, build_ui_server}

abbrev deps : Deps Unit (App ℕ)
deps = deps_on (λ a. a) false

abbrev panel : Panel (App ℕ)
unfolding build
panel = record { cfg = start; world = build start (setter none ∷ other ∷ []) 0 }

abbrev after : Panel (App ℕ)
after = (manage (build_ui_server deps false) drawer panel).1
