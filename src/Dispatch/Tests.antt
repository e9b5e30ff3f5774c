-- ===== src/Dispatch/Tests.antt =====
-- A dispatcher with one handler, a print job for a laser printer, and the theorems at these inputs.
use tera_agent.Base.{◌≡◌, ◌⊎◌, refl, false, none, List, [], ◌∷◌, ◌++◌, String, str_eq}
use tera_agent.Base.Int.{pos}
use tera_agent.Maps.{has}
use tera_agent.Failure.{Error, Result, ok, err}
use tera_agent.Printing.{Bytes, PrinterProfile, Pipeline}
use tera_agent.Printing.Format
use tera_agent.Printing.Device
use tera_agent.Print.Resolver
use tera_agent.Print.Resolver.{Resolver}
use tera_agent.Print.Engine.{Engine}
use tera_agent.Dispatch.{
  Job, Handler, Dispatcher, JobPayload, kind_print, kind_device, handle_print,
}
use tera_agent.Dispatch.Laws.{Names, handle_print_sends_once}

-- The world is what was printed.
abbrev World : Type 0
World = List (String × Bytes)

abbrev note : Handler World
note j w = (ok tt, w ++ (j.id, j.payload) ∷ [])

abbrev devices : Dispatcher World
devices = (kind_device, note) ∷ []

print_free : has kind_print devices ≡ false
unfolding has
print_free = refl

abbrev laser : PrinterProfile
laser = record {
  printer_id = "HP";
  native_formats = Device.pdf ∷ [];
  width_dots = pos 0;
  dpi = pos 600;
  supports_cut = false;
  supports_drawer = false;
  meta = [];
}

abbrev components : Resolver Unit World
components = record {
  renderers = [];
  encoders = [];
  drivers =
      record {
        accepts = λ f. str_eq f Device.pdf;
        send = λ printer content w. (ok tt, w ++ (printer, content) ∷ []);
      }
      ∷ [];
}

abbrev engine : Engine Unit World
engine = record { resolver = Resolver.resolve components; profiles = λ _. ok laser; tuning = none }

abbrev unmarshal : Bytes → Result JobPayload
unmarshal content = ok (record {
  printer_id = "HP";
  role = "";
  format = Format.pdf;
  content = content;
  copies = pos 1;
  cut = false;
  open_drawer = false;
})

abbrev invoice : Job
invoice = record { id = "j1"; kind = kind_print; payload = 37 ∷ 80 ∷ [] }

handle_print_sends_once_example :
    ((x : Error) × (handle_print unmarshal engine none invoice [] ≡ (err x, [])))
    ⊎ ((p : JobPayload) × (printer_id : String) × (profile : PrinterProfile) × (pipe : Pipeline Unit
          World)
        × (content : Bytes) × (unmarshal (37 ∷ 80 ∷ []) ≡ ok p)
        × Names none p printer_id
        × (engine.profiles printer_id ≡ ok profile)
        × (engine.resolver p.format profile ≡ ok pipe)
        × (handle_print unmarshal engine none invoice [] ≡ pipe.driver.send printer_id content []))
handle_print_sends_once_example = handle_print_sends_once unmarshal engine none invoice []
