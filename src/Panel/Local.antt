-- ===== src/Panel/Local.antt =====
-- internal/adapters/ui/server.go: the local actions of the panel and of the tray, which print with the
-- printer's profile or else with one by the declared kind. `W` is the world outside; the engine and the
-- profiles are read from it.
use Prim.Native.String.{◌++◌ as str_append}
use tera_agent.Base.{Bool, true, false, ◌||◌, List, [], ◌∷◌, String, str_eq, if◌then◌else◌}
use tera_agent.Base.Int.{pos}
use tera_agent.Config.{Config, kind_of, kind_pdf}
use tera_agent.Texts.{utf8}
use tera_agent.Failure.{Result}
use tera_agent.Printing.{Bytes, DeviceFormat, PrinterProfile, PrintJob}
use tera_agent.Printing.Format
use tera_agent.Printing.Device
use tera_agent.Print.Engine.{Engine, print_with_profile}

unfoldable pub escpos_profile : String → PrinterProfile
escpos_profile printer = record {
  printer_id = printer;
  native_formats = Device.escpos ∷ [];
  width_dots = pos 576;
  dpi = pos 203;
  supports_cut = true;
  supports_drawer = true;
  meta = [];
}

unfoldable pub pdf_profile : String → PrinterProfile
pdf_profile printer = record {
  printer_id = printer;
  native_formats = Device.pdf ∷ [];
  width_dots = pos 0;
  dpi = pos 0;
  supports_cut = false;
  supports_drawer = false;
  meta = [];
}

any_pdf : List DeviceFormat → Bool
any_pdf [] = false
any_pdf (f ∷ fs) = str_eq f Device.pdf || str_eq f Device.gdi_raster || any_pdf fs

unfoldable pub profile_is_pdf : PrinterProfile → Bool
unfolding any_pdf
profile_is_pdf p = any_pdf p.native_formats

unfoldable pub fallback_of : Config → String → PrinterProfile
fallback_of cfg printer =
    if str_eq (kind_of cfg printer) kind_pdf then pdf_profile printer else escpos_profile printer

unfoldable pub local_profile :
    (String → PrinterProfile → PrinterProfile) → Config → String → PrinterProfile
unfolding fallback_of
local_profile profile_or cfg printer = profile_or printer (fallback_of cfg printer)

-- The job of the test page. `page` is the embedded file, `stamp` the time as it is printed.
unfoldable pub test_job : Bytes → String → String → PrinterProfile → PrintJob
test_job page stamp printer prof =
    if profile_is_pdf prof
    then record {
      printer_id = printer;
      format = Format.pdf;
      content = page;
      options = record { copies = pos 1; cut = false; open_drawer = false };
    }
    else record {
      printer_id = printer;
      format = Format.text;
      content = utf8 (str_append "TERA AGENT\nPrueba de impresion\n" (str_append stamp "\n"));
      options = record { copies = pos 1; cut = true; open_drawer = false };
    }

unfoldable pub print_test_page :
    {Image W : Type 0}
    → Bytes
    → String
    → Engine Image W
    → (String → PrinterProfile → PrinterProfile)
    → Config
    → String
    → W
    → Result (Unit {0}) × W
unfolding test_job
print_test_page page stamp engine profile_or cfg printer w =
    let prof = local_profile profile_or cfg printer in
    print_with_profile engine (test_job page stamp printer prof) prof w

-- The job that opens the drawer and prints nothing.
unfoldable pub drawer_job : String → PrintJob
drawer_job printer = record {
  printer_id = printer;
  format = Format.text;
  content = [];
  options = record { copies = pos 1; cut = false; open_drawer = true };
}
