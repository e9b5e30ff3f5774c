-- ===== src/Dispatch.antt =====
-- internal/app/dispatcher/dispatcher.go and internal/app/print/handler.go: a job goes to the handler
-- of its kind, and the handler of a print job makes it a job of the engine. `unmarshal` stands for the
-- JSON of a payload. The time a job was received is read by no handler and is left out.
mod Laws
mod Tests
use tera_agent.Base.{Bool, true, false, Option, none, some, List, String, str_eq, if◌then◌else◌}
use tera_agent.Base.Int.{ℤ}
use tera_agent.Maps.{Map, get, has, put}
use tera_agent.Failure.{
  Error, Result, ok, err, bad_payload, no_role_resolver, unresolved_role, no_handler, panicked,
}
use tera_agent.Printing.{Bytes, PrintJob}
use tera_agent.Print.Roles
use tera_agent.Print.Roles.{RoleResolver}
use tera_agent.Print.Engine.{Engine, print}

abbrev pub Kind : Type 0
Kind = String

abbrev pub kind_print : Kind
kind_print = "PRINT"

abbrev pub kind_device : Kind
kind_device = "DEVICE"

pub record Job : Type 0 where
  pub id : String
  pub kind : Kind
  pub payload : Bytes

-- A handler returns an error or nothing, and changes the world.
abbrev pub Handler : Type 0 → Type 0
Handler W = Job → W → Result (Unit {0}) × W

abbrev pub Dispatcher : Type 0 → Type 0
Dispatcher W = Map (Handler W)

module _ {W : Type 0} where
  -- `Register` panics on a kind that has a handler.
  unfoldable pub register : Dispatcher W → Kind → Handler W → Result (Dispatcher W)
  register d kind h = if has kind d then err panicked else ok (put kind h d)

  run_handler : Option (Handler W) → Job → W → Result (Unit {0}) × W
  run_handler none j w = (err (no_handler j.kind j.id), w)
  run_handler (some h) j w = h j w

  unfoldable pub dispatch : Dispatcher W → Job → W → Result (Unit {0}) × W
  unfolding run_handler
  dispatch d j w = run_handler (get j.kind d) j w

pub record JobPayload : Type 0 where
  pub printer_id : String
  pub role : String
  pub format : String
  pub content : Bytes
  pub copies : ℤ
  pub cut : Bool
  pub open_drawer : Bool

resolved : String → String → Result String
resolved role printer_id =
    if str_eq printer_id "" then err (unresolved_role role) else ok printer_id

role_printer : Option RoleResolver → String → Result String
unfolding resolved
role_printer none role = err no_role_resolver
role_printer (some roles) role = resolved role (Roles.resolve roles role)

-- The printer of a payload: the one it names, or else the one of its role.
pub printer_of : Option RoleResolver → JobPayload → Result String
unfolding role_printer
printer_of roles p = if str_eq p.printer_id "" then role_printer roles p.role else ok p.printer_id

abbrev pub print_job : JobPayload → String → PrintJob
print_job p printer_id = record {
  printer_id = printer_id;
  format = p.format;
  content = p.content;
  options = record { copies = p.copies; cut = p.cut; open_drawer = p.open_drawer };
}

module _ {Image W : Type 0} where
  print_on : Engine Image W → JobPayload → Result String → W → Result (Unit {0}) × W
  print_on engine p (ok printer_id) w = print engine (print_job p printer_id) w
  print_on engine p (err e) w = (err e, w)

  handle_payload :
      Engine Image W → Option RoleResolver → Result JobPayload → W → Result (Unit {0}) × W
  unfolding print_on printer_of
  handle_payload engine roles (ok p) w = print_on engine p (printer_of roles p) w
  handle_payload engine roles (err e) w = (err e, w)

  -- `JobHandler.Handle`.
  unfoldable pub handle_print :
      (Bytes → Result JobPayload) → Engine Image W → Option RoleResolver → Handler W
  unfolding handle_payload
  handle_print unmarshal engine roles j w = handle_payload engine roles (unmarshal j.payload) w
