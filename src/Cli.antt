-- ===== src/Cli.antt =====
-- cmd/tera-agent/main.go: the commands that print without a Backend. The flags are read by Go's library;
-- what is read of a file or of the standard input is a parameter, as are the lower case of a text and
-- the extension of a path. The density is the binarizer's, in the resolver.
pub mod Found
mod Tests
use tera_agent.Base.{Bool, true, false, none, List, [], ◌∷◌, ◌||◌, String, str_eq, if◌then◌else◌}
use tera_agent.Base.Int.{ℤ, pos, ltb_ℤ, eqb_ℤ}
use tera_agent.Texts.{utf8}
use tera_agent.Failure.{Result, ok, err, ◌>>=◌, printer_required, no_text}
use tera_agent.Printing.{Bytes, SourceFormat, PrinterProfile, PrintJob, Driver, Pipeline}
use tera_agent.Printing.Format
use tera_agent.Printing.Device
use tera_agent.Print.Engine.{Engine, print}
use tera_agent.Profiles.Cache.{set, normalized_profile}

-- `resolveWidth`.
unfoldable pub resolve_width : ℤ → ℤ → ℤ
resolve_width paper_mm width_dots =
    if ltb_ℤ (pos 0) width_dots
    then width_dots
    else if eqb_ℤ paper_mm (pos 58)
    then pos 384
    else pos 576

-- `resolveFormat`, of the explicit format and the extension of the file, both in lower case.
unfoldable pub resolve_format : String → String → SourceFormat
resolve_format explicit ext =
    if str_eq explicit "pdf"
    then Format.pdf
    else if str_eq explicit "png"
    then Format.png
    else if str_eq explicit "jpeg" || str_eq explicit "jpg"
    then Format.jpeg
    else if str_eq explicit "text" || str_eq explicit "txt"
    then Format.text
    else if str_eq ext ".pdf"
    then Format.pdf
    else if str_eq ext ".png"
    then Format.png
    else if str_eq ext ".jpg" || str_eq ext ".jpeg"
    then Format.jpeg
    else if str_eq ext ".txt"
    then Format.text
    else Format.pdf

pub record EngineArgs : Type 0 where
  pub printer : String
  pub format : SourceFormat
  pub content : Bytes
  pub width : ℤ
  pub cut : Bool
  pub drawer : Bool

-- The profile that the flags make.
unfoldable pub flags_profile : EngineArgs → PrinterProfile
flags_profile a = record {
  printer_id = a.printer;
  native_formats = Device.escpos ∷ [];
  width_dots = a.width;
  dpi = pos 203;
  supports_cut = true;
  supports_drawer = true;
  meta = [];
}

unfoldable pub flags_job : EngineArgs → PrintJob
flags_job a = record {
  printer_id = a.printer;
  format = a.format;
  content = a.content;
  options = record { copies = pos 1; cut = a.cut; open_drawer = a.drawer };
}

-- The flags of the commands `print`, `text` and `raw`, as far as they have them.
pub record PrintFlags : Type 0 where
  pub printer : String
  pub format : String
  pub text : String
  pub file : String
  pub paper : ℤ
  pub width : ℤ
  pub cut : Bool
  pub drawer : Bool

module _ {Image W : Type 0} (resolver : SourceFormat → PrinterProfile → Result (Pipeline Image W))
    (normalize : PrinterProfile → PrinterProfile) where
  -- `BuildPrinting`, with the profile that is set in its empty cache.
  unfoldable pub engine_with : PrinterProfile → Engine Image W
  engine_with p = record {
    resolver = resolver;
    profiles = normalized_profile normalize (set [] p);
    tuning = none;
  }

  unfoldable pub run_engine : EngineArgs → W → Result (Unit {0}) × W
  unfolding engine_with flags_profile flags_job
  run_engine a w =
      if str_eq a.printer ""
      then (err printer_required, w)
      else print (engine_with (flags_profile a)) (flags_job a) w

  -- `cmdText`, with the reader of files.
  text_with : PrintFlags → Result Bytes → W → Result (Unit {0}) × W
  unfolding run_engine resolve_width
  text_with f (err e) w = (err e, w)
  text_with f (ok content) w =
      run_engine
        (record {
          printer = f.printer;
          format = Format.text;
          content = content;
          width = resolve_width f.paper f.width;
          cut = f.cut;
          drawer = f.drawer;
        })
        w

  unfoldable pub cmd_text : (String → W → Result Bytes) → PrintFlags → W → Result (Unit {0}) × W
  unfolding text_with
  cmd_text read f w =
      if str_eq f.text ""
      then (if str_eq f.file "" then (err no_text, w) else text_with f (read f.file w) w)
      else text_with f (ok (utf8 f.text)) w

  print_read :
      (String → String) → (String → String) → PrintFlags → Result Bytes → W → Result (Unit {0}) × W
  unfolding run_engine resolve_width resolve_format
  print_read lower ext f (err e) w = (err e, w)
  print_read lower ext f (ok content) w =
      run_engine
        (record {
          printer = f.printer;
          format = resolve_format (lower f.format) (lower (ext f.file));
          content = content;
          width = resolve_width f.paper f.width;
          cut = f.cut;
          drawer = f.drawer;
        })
        w

  -- `cmdPrint`: `read_input` reads the file, or the standard input for "".
  unfoldable pub cmd_print :
      (String → String)
      → (String → String)
      → (String → W → Result Bytes)
      → PrintFlags
      → W
      → Result (Unit {0}) × W
  unfolding print_read
  cmd_print lower ext read_input f w = print_read lower ext f (read_input f.file w) w

  -- `cmdRaw`: the bytes of the file to the raw driver.
  raw_read : Driver W → String → Result Bytes → W → Result (Unit {0}) × W
  raw_read driver printer (err e) w = (err e, w)
  raw_read driver printer (ok content) w = driver.send printer content w

  unfoldable pub cmd_raw :
      Driver W → (String → W → Result Bytes) → PrintFlags → W → Result (Unit {0}) × W
  unfolding raw_read
  cmd_raw driver read_input f w =
      if str_eq f.printer ""
      then (err printer_required, w)
      else raw_read driver f.printer (read_input f.file w) w
