-- ===== src/Profiles/Cache.antt =====
-- internal/adapters/printing/profile/memory.go, and the wrapper of platform/profile_cache.go.
use tera_agent.Base.{
  ◌≡◌, refl, ap, ◌∙◌, Option, none, some, List, [], ◌∷◌, String, str_eq, if◌then◌else◌, arith,
}
use tera_agent.Maps.{Map, get, put, get-put}
use tera_agent.Failure.{Result, ok, err, unknown_printer}
use tera_agent.Printing.{PrinterProfile}

abbrev pub Cache : Type 0
Cache = Map PrinterProfile

abbrev pub known : String → Option PrinterProfile → Result PrinterProfile
known printer_id none = err (unknown_printer printer_id)
known printer_id (some p) = ok p

unfoldable pub profile : Cache → String → Result PrinterProfile
profile c printer_id = known printer_id (get printer_id c)

unfoldable pub or_fallback : Option PrinterProfile → PrinterProfile → PrinterProfile
or_fallback none fallback = fallback
or_fallback (some p) fallback = elim p.native_formats [ [] ↦ fallback | _ ∷ _ ↦ p ]

unfoldable pub profile_or : Cache → String → PrinterProfile → PrinterProfile
unfolding or_fallback
profile_or c printer_id fallback =
    or_fallback (get printer_id c) (record fallback { printer_id = printer_id })

unfoldable pub set : Cache → PrinterProfile → Cache
set c p = put p.printer_id p c

set_each : Cache → List PrinterProfile → Cache
set_each c [] = c
set_each c (p ∷ ps) = set_each (put p.printer_id p c) ps

-- `SetAll`: the old cache is dropped.
unfoldable pub set_all : Cache → List PrinterProfile → Cache
unfolding set_each
set_all c ps = set_each [] ps

-- `normalizingCache.Profile` and `normalizingCache.ProfileOr`.
unfoldable pub normalized_profile :
    (PrinterProfile → PrinterProfile) → Cache → String → Result PrinterProfile
normalized_profile normalize c printer_id = elim (profile c printer_id) [
  | ok p ↦ ok (normalize p)
  | err x ↦ err x
]

unfoldable pub normalized_profile_or :
    (PrinterProfile → PrinterProfile) → Cache → String → PrinterProfile → PrinterProfile
normalized_profile_or normalize c printer_id fallback = normalize (profile_or c printer_id fallback)

-- The last profile of a list that is of the printer.
abbrev pub last_of : String → List PrinterProfile → Option PrinterProfile
last_of printer_id [] = none
last_of printer_id (p ∷ ps) = elim (last_of printer_id ps) [
  | some q ↦ some q
  | none ↦ if str_eq p.printer_id printer_id then some p else none
]

abbrev pub or_else : Option PrinterProfile → Option PrinterProfile → Option PrinterProfile
or_else (some q) other = some q
or_else none other = other

or_else-none : (o : Option PrinterProfile) → or_else o none ≡ o
or_else-none none = refl
or_else-none (some q) = refl

get-set_each :
    (printer_id : String) (c : Cache) (ps : List PrinterProfile)
    → get printer_id (set_each c ps) ≡ or_else (last_of printer_id ps) (get printer_id c)
unfolding set_each
get-set_each printer_id c [] = refl
get-set_each printer_id c (p ∷ ps) =
    ground (
      arith,
      get-set_each printer_id (put p.printer_id p c) ps,
      get-put p.printer_id printer_id p c,
    )

-- A sequence of calls of `Set`.
unfoldable pub set_sequence : Cache → List PrinterProfile → Cache
unfolding set
set_sequence c [] = c
set_sequence c (p ∷ ps) = set_sequence (set c p) ps

get-set_sequence :
    (printer_id : String) (c : Cache) (ps : List PrinterProfile)
    → get printer_id (set_sequence c ps) ≡ or_else (last_of printer_id ps) (get printer_id c)
unfolding set_sequence
get-set_sequence printer_id c [] = refl
get-set_sequence printer_id c (p ∷ ps) = ground (
  arith,
  get-set_sequence printer_id (put p.printer_id p c) ps,
  get-put p.printer_id printer_id p c,
)

-- After `SetAll` and then any number of `Set`s, the profile of a printer is the last one that these
-- calls gave for it, and a printer that none of them named is unknown, whatever was cached before.
pub profile-set_all :
    (c : Cache) (synced updates : List PrinterProfile) (printer_id : String)
    → profile (set_sequence (set_all c synced) updates) printer_id
      ≡ known printer_id (or_else (last_of printer_id updates) (last_of printer_id synced))
unfolding profile set_all get
profile-set_all c synced updates printer_id = ap (known printer_id) (
    get-set_sequence printer_id (set_each [] synced) updates
    ∙ ap (or_else (last_of printer_id updates))
        (get-set_each printer_id [] synced ∙ or_else-none (last_of printer_id synced)))
