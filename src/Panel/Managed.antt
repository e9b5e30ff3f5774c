-- ===== src/Panel/Managed.antt =====
-- internal/adapters/ui/server.go: the managed printers of a configuration, and the bounds of what the
-- panel may set.
pub mod Laws
use tera_agent.Base.{
  ℕ, ◌*◌, ◌^◌, Bool, true, false, ◌||◌, not, Option, none, some, List, [], ◌∷◌, ◌++◌, String,
  str_eq, if◌then◌else◌,
}
use tera_agent.Base.Int.{ℤ, pos, ltb_ℤ}
use tera_agent.Config.{ManagedPrinter}

unfoldable pub find_managed : List ManagedPrinter → String → Option ManagedPrinter
find_managed [] name = none
find_managed (p ∷ ps) name = if str_eq p.name name then some p else find_managed ps name

-- The loop of `upsertManaged`: what it returns, and whether it replaced an entry.
replace_each : List ManagedPrinter → ManagedPrinter → List ManagedPrinter × Bool
replace_each [] mp = ([], false)
replace_each (p ∷ ps) mp =
    let (rest, replaced) = replace_each ps mp in
    if str_eq p.name mp.name then (mp ∷ rest, true) else (p ∷ rest, replaced)

unfoldable pub upsert_managed : List ManagedPrinter → ManagedPrinter → List ManagedPrinter
unfolding replace_each
upsert_managed ps mp =
    let (out, replaced) = replace_each ps mp in if replaced then out else out ++ mp ∷ []

unfoldable pub remove_managed : List ManagedPrinter → String → List ManagedPrinter
remove_managed [] name = []
remove_managed (p ∷ ps) name =
    let rest = remove_managed ps name in if str_eq p.name name then rest else p ∷ rest

abbrev pub max_cut_feed_dots : ℤ
max_cut_feed_dots = pos 2000

-- 50 mm.
pub max_page_margin_mm : ℤ
max_page_margin_mm = pos (50 * 2 ^ 1074)

-- `clamp`, and `clampFloat`.
unfoldable pub clamp : ℤ → ℤ → ℤ → ℤ
clamp v lo hi = if ltb_ℤ v lo then lo else if ltb_ℤ hi v then hi else v
