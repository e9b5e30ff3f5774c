-- ===== src/ConfigFile/RoundTrip.antt =====
-- What the agent saves is what it loads again, and a later start leaves it as it is.
use mathlib.Core.Path.{ap₂}
use tera_agent.Base.{true, List, [], ◌∷◌, map, String, ◌≡◌, ◌≢◌, refl, ap, ◌∙◌, arith}
use tera_agent.Base.Duration.{IsWhole, times_second-whole_seconds}
use tera_agent.Config.{Config, ManagedPrinter}
use tera_agent.Failure.{Result, ok, err}
use tera_agent.Printing.{Bytes}
use tera_agent.ConfigFile.{
  present, Files, Paths, Wire, Yaml, config_of, wire_of, level_of, printer_of, wire_printer_of,
  load, save, save_marshalled, ensure_default, ensure_made, ensure_found, log_subdir,
}

-- What the agent relies on: a file that was written is read as it was written, and is present; making
-- folders leaves the files as they are.
pub record IsFiles {W : Type 0} (files : Files W) : Type 0 where
  pub written :
      (path : String) (content : Bytes) (w w' : W)
      → files.write path content w ≡ (ok tt, w')
      → (files.read path w' ≡ ok content) × (files.stat path w' ≡ present)
  pub kept :
      (dir path : String) (w : W)
      → files.stat path w ≡ present
      → (files.read path (files.make_dirs dir w).1 ≡ files.read path w)
        × (files.stat path (files.make_dirs dir w).1 ≡ present)

-- YAML reads again what it makes of a wire.
abbrev pub Reads : Yaml → Wire → Type 0
Reads yaml wire =
    (content : Bytes) → yaml.marshal wire ≡ ok content → yaml.unmarshal content ≡ ok wire

-- The configuration with the default level where it has none.
abbrev pub levelled : Config → Config
levelled c = record c { log_level = level_of c.log_level }

printers-round : (ps : List ManagedPrinter) → map printer_of (map wire_printer_of ps) ≡ ps
unfolding printer_of wire_printer_of
printers-round [] = refl
printers-round (p ∷ ps) = ap (λ qs. p ∷ qs) (printers-round ps)

config_of-wire_of : (c : Config) → IsWhole c.heartbeat_interval → config_of (wire_of c) ≡ levelled c
unfolding config_of wire_of
config_of-wire_of c whole =
    ap₂ (λ ps d. record (levelled c) { printers = ps; heartbeat_interval = d })
      (printers-round c.printers) (times_second-whole_seconds c.heartbeat_interval whole)

module _ {W : Type 0} (files : Files W) (yaml : Yaml) (law : IsFiles files) where
  loaded :
      (path : String) (c : Config) (content : Bytes) (w : W)
      → Reads yaml (wire_of c)
      → yaml.marshal (wire_of c) ≡ ok content
      → files.read path w ≡ ok content
      → load files yaml path w ≡ ok (config_of (wire_of c))
  unfolding load
  loaded path c content w reads e f = rw (f, reads content e) refl

  -- Once there is a file, `EnsureDefault` writes nothing.
  ensure_default-kept :
      (paths : Paths) (path data_dir : String) (w : W)
      → files.stat path w ≡ present
      → (files.read path (ensure_default files paths path data_dir w).1 ≡ files.read path w)
        × (files.stat path (ensure_default files paths path data_dir w).1 ≡ present)
        × ((ensure_default files paths path data_dir w).0 ≢ ok true)
  unfolding ensure_default ensure_made ensure_found
  ensure_default-kept paths path data_dir w here =
      by (files.make_dirs (paths.join data_dir log_subdir) w)
        (law.kept (paths.join data_dir log_subdir) path w here)
    where
      by :
          (r : Result (Unit {0}) × W)
          → (files.read path r.1 ≡ files.read path w) × (files.stat path r.1 ≡ present)
          → (files.read path (ensure_made files paths path data_dir r).1 ≡ files.read path w)
            × (files.stat path (ensure_made files paths path data_dir r).1 ≡ present)
            × ((ensure_made files paths path data_dir r).0 ≢ ok true)
      by (err e, v) (same, there) = (same, there, ground arith)
      by (ok _, v) (same, there) = rw there (same, there, ground arith)

  -- What was saved is loaded as `Load` makes it of what `Save` wrote, also after an `EnsureDefault`.
  pub save_loads :
      (paths : Paths) (path data_dir : String) (c : Config) (w w' : W)
      → Reads yaml (wire_of c)
      → save files yaml path c w ≡ (ok tt, w')
      → (load files yaml path w' ≡ ok (config_of (wire_of c)))
        × (load files yaml path (ensure_default files paths path data_dir w').1
            ≡ ok (config_of (wire_of c)))
        × ((ensure_default files paths path data_dir w').0 ≢ ok true)
  unfolding save save_marshalled
  save_loads paths path data_dir c w w' reads e = by (yaml.marshal (wire_of c)) refl e
    where
      by :
          (r : Result Bytes)
          → yaml.marshal (wire_of c) ≡ r
          → save_marshalled files path r w ≡ (ok tt, w')
          → (load files yaml path w' ≡ ok (config_of (wire_of c)))
            × (load files yaml path (ensure_default files paths path data_dir w').1
                ≡ ok (config_of (wire_of c)))
            × ((ensure_default files paths path data_dir w').0 ≢ ok true)
      by (err x) f g = ground arith
      by (ok content) f g =
          let (same, here) = law.written path content w w' g in
          let (kept, still, not_made) = ensure_default-kept paths path data_dir w' here in
          (
            loaded path c content w' reads f same,
            loaded path c content (ensure_default files paths path data_dir w').1 reads f
                (kept ∙ same),
            not_made,
          )

  -- A configuration that was saved without an error is loaded again as it was, a missing level of the log being
  -- "info"; and so it is after a later `EnsureDefault`, which does not say that it made one. The
  -- interval of the heartbeat is a whole number of seconds, files hold what was written to them, and
  -- YAML reads again what it makes of the configuration.
  pub load-save :
      (paths : Paths) (path data_dir : String) (c : Config) (w w' : W)
      → IsWhole c.heartbeat_interval
      → Reads yaml (wire_of c)
      → save files yaml path c w ≡ (ok tt, w')
      → (load files yaml path w' ≡ ok (levelled c))
        × (load files yaml path (ensure_default files paths path data_dir w').1 ≡ ok (levelled c))
        × ((ensure_default files paths path data_dir w').0 ≢ ok true)
  load-save paths path data_dir c w w' whole reads e =
      let (same, later, not_made) = save_loads paths path data_dir c w w' reads e in
      let round = ap ok (config_of-wire_of c whole) in (same ∙ round, later ∙ round, not_made)
