-- ===== src/Http/Tests.antt =====
-- A print service with a token, requests for it, and the theorems of the service at these inputs.
use tera_agent.Base.{◌≡◌, ◌⊎◌, refl, false, none, some, List, [], ◌∷◌, ◌++◌, String, str_eq}
use tera_agent.Base.Int.{pos, negsuc}
use tera_agent.Failure.{ok, err, external}
use tera_agent.Maps.{get}
use tera_agent.Printing.{Bytes, PrinterProfile}
use tera_agent.Printing.Format
use tera_agent.Printing.Device
use tera_agent.Profiles.Cache
use tera_agent.Profiles.Cache.{Cache}
use tera_agent.Print.Resolver
use tera_agent.Print.Resolver.{Resolver}
use tera_agent.Print.Engine.{Engine}
use tera_agent.Http.Parse.{PrintRequest, atoi_default, format_from_name}
use tera_agent.Http.{Request, Server, refusal, print_route}
use tera_agent.Http.Access.{Admits, Prints, Refuses, print_route-Admits}

reads_number : atoi_default " -12 " (pos 7) ≡ negsuc 11
unfolding atoi_default
reads_number = refl

reads_default : atoi_default "9223372036854775808" (pos 7) ≡ pos 7
unfolding atoi_default
reads_default = refl

reads_name : format_from_name (λ c. str_eq "" "x") "Factura.v2.PDF" ≡ Format.pdf
unfolding format_from_name
reads_name = refl

-- The world is what was printed.
abbrev World : Type 0
World = List (String × Bytes)

abbrev components : Resolver Unit World
components = record {
  renderers = [];
  encoders = [];
  drivers =
      record {
        accepts = λ f. str_eq f Device.pdf;
        send = λ printer content w. (ok tt, w ++ (printer, content) ∷ []);
      }
      ∷ [];
}

abbrev engine : Engine Unit World
engine = record {
  resolver = Resolver.resolve components;
  profiles = λ _. err (external "unused");
  tuning = none;
}

abbrev laser : PrinterProfile
laser = record {
  printer_id = "HP";
  native_formats = Device.pdf ∷ [];
  width_dots = pos 0;
  dpi = pos 600;
  supports_cut = false;
  supports_drawer = false;
  meta = [];
}

abbrev cache : Cache
cache = ("HP", laser) ∷ []

abbrev invoice : PrintRequest
invoice = record {
  printer = "HP";
  format = "";
  content = 37 ∷ 80 ∷ [];
  paper = pos 58;
  width = pos 0;
  cut = none;
  drawer = false;
}

abbrev server : Server Unit Unit World
server = record {
  engine = engine;
  profile_or = Cache.profile_or cache;
  printers = λ w. (ok [], w);
  reader = record {
    json = λ _. ok invoice;
    form = λ _. err (external "no form");
    is_separator = λ _. false;
  };
  token = "secret";
}

abbrev request : Request Unit
request = record {
  method = "POST";
  authorization = "Bearer secret";
  content_type = "application/json";
  body = tt;
}

print_route-Admits_example :
    Refuses server [] (print_route server request [])
    ⊎ ((req : PrintRequest) × Admits server request req
        × Prints server req [] (print_route server request []))
print_route-Admits_example = print_route-Admits server request []

refused :
    print_route server (record request { authorization = "" }) [] ≡ (refusal 401 "unauthorized", [])
unfolding print_route
refused = refl

has_laser : get "HP" cache ≡ some laser
unfolding get
has_laser = refl
