-- ===== src/Print/Tests.antt =====
-- A thermal and a laser printer, jobs for them, and the theorems of the engine at these inputs.
use tera_agent.Base.{
  ◌≡◌, refl, true, false, none, some, List, [], ◌∷◌, ◌++◌, Memᴰ, All, String, str_eq, eq_iff, arith,
}
use tera_agent.Base.Int.{pos}
use tera_agent.Config.{ManagedPrinter}
use tera_agent.Failure.{Error, ok, err, Reason, no_driver, no_pipeline}
use tera_agent.Printing.{
  Bytes, PrinterProfile, Options, PrintJob, Renderer, Driver, Pipeline, source_is_device,
  text_artifact,
}
use tera_agent.Printing.Format
use tera_agent.Printing.Device
use tera_agent.Printing.Kind
use tera_agent.Escpos.{new_text}
use tera_agent.Print.Passthrough.{passthrough_renderer, passthrough_encoder}
use tera_agent.Print.Resolver
use tera_agent.Print.Resolver.{Resolver, driver_for, round}
use tera_agent.Print.Resolver.Complete.{
  First, Unserved, ExplainsAll, resolve-First, resolve_refusal,
}
use tera_agent.Print.Roles
use tera_agent.Print.Roles.{RoleResolver, Plays, resolve_role}
use tera_agent.Print.Engine.{Engine, print_with_profile}
use tera_agent.Print.Engine.Capability.{print_with_profile-granted}

-- What the drivers were sent.
abbrev Sent : Type 0
Sent = List (String × Bytes)

abbrev pdf_driver : Driver Sent
pdf_driver = record {
  accepts = λ f. str_eq f Device.pdf;
  send = λ printer content sent. (ok tt, sent ++ (printer, content) ∷ []);
}

abbrev text_renderer : Renderer Unit
text_renderer = record {
  can_render = λ f. str_eq f Format.text;
  produces = Kind.text;
  render = λ content _. ok (text_artifact content);
}

abbrev components : Resolver Unit Sent
components = record {
  renderers = text_renderer ∷ [];
  encoders = new_text ∷ [];
  drivers = pdf_driver ∷ [];
}

abbrev laser : PrinterProfile
laser = record {
  printer_id = "HP";
  native_formats = Device.pdf ∷ Device.raw ∷ [];
  width_dots = pos 4960;
  dpi = pos 600;
  supports_cut = false;
  supports_drawer = false;
  meta = [];
}

abbrev thermal : PrinterProfile
thermal = record laser { printer_id = "XP-80"; native_formats = Device.escpos ∷ [] }

abbrev direct : Pipeline Unit Sent
direct = record {
  renderer = passthrough_renderer Unit Device.pdf;
  encoder = passthrough_encoder Unit Device.pdf;
  driver = pdf_driver;
}

pdf_accepted : driver_for Device.pdf components.drivers ≡ some pdf_driver
unfolding driver_for
pdf_accepted = refl

pdf_resolves : Resolver.resolve components Format.pdf laser ≡ ok direct
unfolding Resolver.resolve Resolver.resolve_loop round driver_for source_is_device
pdf_resolves = refl

resolve-First_example : First components Format.pdf laser.native_formats direct
resolve-First_example = resolve-First components Format.pdf laser direct pdf_resolves

abbrev refusal : Error
refusal = no_pipeline Format.text "XP-80" (no_driver Device.escpos ∷ [])

thermal_refused : Resolver.resolve components Format.text thermal ≡ err refusal
unfolding Resolver.resolve Resolver.resolve_loop round driver_for
thermal_refused = refl

resolve_refusal_example :
    (whys : List Reason) × (refusal ≡ no_pipeline Format.text "XP-80" whys)
    × ExplainsAll components Format.text thermal.native_formats whys
    × All (Unserved components Format.text) thermal.native_formats
resolve_refusal_example =
    resolve_refusal components Format.text thermal refusal (λ e. cc) thermal_refused

abbrev engine : Engine Unit Sent
engine = record { resolver = Resolver.resolve components; profiles = λ _. ok laser; tuning = none }

abbrev plain : Options
plain = record { copies = pos 1; cut = false; open_drawer = false }

abbrev invoice : PrintJob
invoice = record { printer_id = "HP"; format = Format.pdf; content = 37 ∷ 80 ∷ []; options = plain }

abbrev eager : Options
eager = record { copies = pos 3; cut = true; open_drawer = true }

print_with_profile-granted_example :
    print_with_profile engine invoice laser []
    ≡ print_with_profile engine (record invoice { options = eager }) laser []
print_with_profile-granted_example = print_with_profile-granted engine invoice eager laser [] refl

pdf_is_device : source_is_device Format.pdf Device.pdf ≡ true
unfolding source_is_device
pdf_is_device = refl

abbrev managed : String → String → ManagedPrinter
managed name role = record {
  name = name;
  role = role;
  enabled = true;
  kind = "thermal";
  cut_feed_dots = pos 0;
  top_margin_dots = pos 0;
  page_margin_mm = pos 0;
  page_mode = "";
}

abbrev roles : RoleResolver
roles = record {
  printers = managed "XP-80" "cocina" ∷ managed "KL200" "cocina" ∷ managed "HP" "oficina" ∷ [];
  default_printer = "KL200";
}

cocina_resolves : Roles.resolve roles "cocina" ≡ "KL200"
unfolding Roles.resolve
cocina_resolves = refl

resolve_role_example :
    (q : ManagedPrinter) × Memᴰ q roles.printers
    × Plays "cocina" q
    × (Roles.resolve roles "cocina" ≡ q.name)
    × ((s : ManagedPrinter)
        → Memᴰ s roles.printers
        → Plays "cocina" s
        → s.name ≡ "KL200"
        → q.name ≡ "KL200")
resolve_role_example =
    resolve_role roles "cocina" (managed "XP-80" "cocina") (ground (arith, eq_iff "cocina" ""))
      (Memᴰ.head refl) (record { has_role = refl; is_enabled = refl })
