-- ===== src/Update/Tests.antt =====
-- Versions as in the tests of the source, and the theorems of the update at concrete inputs.
use Prim.Native.Char.{code}
use tera_agent.Base.{◌≡◌, ◌≢◌, ◌⊎◌, refl, true, false, List, [], ◌∷◌, String}
use tera_agent.Base.Int.{negsuc}
use tera_agent.Failure.{Error, ok, err}
use tera_agent.Update.Version.{Text, parse, compare, newer}
use tera_agent.Update.Version.Order.{newer-order}
use tera_agent.Update.{Manifest, Ports, Service, apply}
use tera_agent.Update.Guards.{IsApplicable, apply-IsApplicable}

abbrev text : String → Text
text String.[] = []
text (String.◌∷◌ c s) = code c ∷ text s

newer_pre : compare (text "v1.3.0-rc1") (text " 1.3.0 ") ≡ negsuc 0
unfolding compare parse
newer_pre = refl

newer_minor : newer (text "1.10.0") (text "1.9.9") ≡ true
unfolding newer compare parse
newer_minor = refl

-- Build metadata behind a release takes part in the order: its patch counts as 0.
metadata_counts : newer (text "1.2.3") (text "1.2.3+b") ≡ true
unfolding newer compare parse
metadata_counts = refl

newer-order_example :
    let a = text "1.3.0" in
    let b = text "1.3.0-rc1" in
    ((newer a b ≡ true) ⊎ (newer b a ≡ true) ⊎ (parse a ≡ parse b))
    × (newer a b ≡ true → (newer b a ≡ false) × (parse a ≢ parse b))
    × ((c : Text) → newer a b ≡ true → newer b c ≡ true → newer a c ≡ true)
newer-order_example = newer-order (text "1.3.0") (text "1.3.0-rc1")

abbrev manifest : Manifest
manifest = record {
  latest = text "1.4.0";
  url = text "https://erp/agent";
  sha256 = text "ab";
  mandatory = false;
  min_supported = text "1.3.0";
  notes = [];
}

-- The world is the manifests that the applier was called on.
abbrev ports : Ports (List Manifest)
ports = record {
  current = text "1.2.0";
  fetch = λ current w. (ok manifest, w);
  apply = λ m w. (ok tt, m ∷ w);
}

abbrev service : Service (List Manifest)
service = record {
  last = record {
    current = text "1.2.0";
    latest = [];
    available = false;
    mandatory = false;
    notes = [];
  };
  world = [];
}

apply_calls : (apply ports service).1.world ≡ manifest ∷ []
unfolding apply newer compare parse
apply_calls = refl

apply-IsApplicable_example :
    ((apply ports service).1.last ≡ service.last)
    × (((e : Error) × (apply ports service ≡ (err e, service)))
        ⊎ ((m : Manifest) × (ok manifest ≡ ok m)
            × IsApplicable (text "1.2.0") m
            × ((apply ports service).0 ≡ ok tt)
            × ((apply ports service).1.world ≡ m ∷ [])))
apply-IsApplicable_example = apply-IsApplicable ports service
