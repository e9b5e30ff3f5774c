-- ===== src/Update.antt =====
-- internal/domain/update and internal/app/update/service.go: the order of versions, and the guards of
-- an update. A text is the list of its code points here, since a version is taken apart. `Source` and
-- `Applier` are ports; the state that the panel reads is `last`. An `int` has 64 bits.
pub mod Version
pub mod Guards
mod Tests
use tera_agent.Base.{ℕ, Bool, true, false, ◌&&◌, ◌||◌, not, List, [], ◌∷◌, if◌then◌else◌}
use tera_agent.Base.Int.{ℤ, pos, ltb_ℤ}
use tera_agent.Failure.{Error, Result, ok, err, up_to_date, unverifiable}
use tera_agent.Update.Version.{Text, compare, newer}

pub record Manifest : Type 0 where
  pub latest : Text
  pub url : Text
  pub sha256 : Text
  pub mandatory : Bool
  pub min_supported : Text
  pub notes : Text

pub record Status : Type 0 where
  pub current : Text
  pub latest : Text
  pub available : Bool
  pub mandatory : Bool
  pub notes : Text

abbrev pub is_empty : Text → Bool
is_empty [] = true
is_empty (c ∷ cs) = false

-- `current` is the version that runs; `fetch` and `apply` are the ports, on the world outside.
pub record Ports (W : Type 0) : Type 0 where
  pub current : Text
  pub fetch : Text → W → Result Manifest × W
  pub apply : Manifest → W → Result (Unit {0}) × W

-- The service's own state is `last`.
pub record Service (W : Type 0) : Type 0 where
  pub last : Status
  pub world : W

module _ {W : Type 0} (ports : Ports W) where
  -- `New`.
  unfoldable pub new_service : W → Service W
  new_service w = record {
    last = record {
      current = ports.current;
      latest = [];
      available = false;
      mandatory = false;
      notes = [];
    };
    world = w;
  }

  status_of : Manifest → Status
  status_of m = record {
    current = ports.current;
    latest = m.latest;
    available = newer m.latest ports.current;
    mandatory =
        m.mandatory
        || (not (is_empty m.min_supported)
            && ltb_ℤ (compare ports.current m.min_supported) (pos 0));
    notes = m.notes;
  }

  abbrev pub cached : Service W → Status
  cached s = s.last

  -- The status and the error that `Check` returns, and the service after it.
  pub record Checked : Type 0 where
    pub status : Status
    pub failure : Result (Unit {0})
    pub after : Service W

  conclude_check : Result Manifest × W → Service W → Checked
  unfolding status_of
  conclude_check (err e, w) s = record {
    status = cached s;
    failure = err e;
    after = record s { world = w };
  }
  conclude_check (ok m, w) s = record {
    status = status_of m;
    failure = ok tt;
    after = record { last = status_of m; world = w };
  }

  unfoldable pub check : Service W → Checked
  unfolding conclude_check
  check s = conclude_check (ports.fetch ports.current s.world) s

  apply_fetched : Result Manifest × W → Result (Unit {0}) × W
  apply_fetched (err e, w) = (err e, w)
  apply_fetched (ok m, w) =
      if not (newer m.latest ports.current)
      then (err up_to_date, w)
      else if is_empty m.url || is_empty m.sha256
      then (err unverifiable, w)
      else ports.apply m w

  -- `Apply`: an error of the applier is passed on with a text before it.
  unfoldable pub apply : Service W → Result (Unit {0}) × Service W
  unfolding apply_fetched
  apply s =
      let r = apply_fetched (ports.fetch ports.current s.world) in (r.0, record s { world = r.1 })
