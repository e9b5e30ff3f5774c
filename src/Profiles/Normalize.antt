-- ===== src/Profiles/Normalize.antt =====
-- internal/adapters/printing/platform/normalize.go: a profile of the Backend as Windows can run it.
pub mod Formats
pub mod Windows
use Prim.Native.Char.{code}
use tera_agent.Base.{
  ℕ, ◌<◌, ◌≤◌, ◌≡◌, refl, Bool, true, false, ◌&&◌, not, Option, none, some, List, [], ◌∷◌, ◌++◌,
  String, str_eq, eq_iff, if◌then◌else◌, arith, ltb,
}
use tera_agent.Base.Int.{ℤ, pos, ltb_ℤ}
use tera_agent.Config.{mode_image, mode_vector}
use tera_agent.Printing.{DeviceFormat, PrinterProfile}
use tera_agent.Printing.Device

abbrev pub min_raster_dpi : ℤ
min_raster_dpi = pos 600

abbrev pub min_raster_width_dots : ℤ
min_raster_width_dots = pos 4960

unfoldable pub contains : DeviceFormat → List DeviceFormat → Bool
contains f [] = false
contains f (g ∷ gs) = if str_eq g f then true else contains f gs

abbrev pub to_raster : DeviceFormat → DeviceFormat
to_raster f = if str_eq f Device.pdf then Device.gdi_raster else f

-- The loop over the native formats, with the set `seen`.
pub raster_formats : List DeviceFormat → List DeviceFormat → List DeviceFormat
raster_formats seen [] = []
raster_formats seen (f ∷ fs) =
    let g = to_raster f in
    let skipped = raster_formats seen fs in
    let kept = g ∷ raster_formats (g ∷ seen) fs in if contains g seen then skipped else kept

-- `rasterTarget` after the loop.
pub has_raster : List DeviceFormat → Bool
has_raster [] = false
has_raster (f ∷ fs) = if str_eq (to_raster f) Device.gdi_raster then true else has_raster fs

abbrev raise_to : ℤ → ℤ → ℤ
raise_to floor n = if ltb_ℤ n floor then floor else n

unfoldable pub normalize_for_gdi_raster : PrinterProfile → PrinterProfile
unfolding raster_formats has_raster contains
normalize_for_gdi_raster p = elim p.native_formats [
  | [] ↦ p
  | f ∷ fs ↦
      let out = record p { native_formats = raster_formats [] (f ∷ fs) } in
      if has_raster (f ∷ fs)
      then record out {
        dpi = raise_to min_raster_dpi p.dpi;
        width_dots = raise_to min_raster_width_dots p.width_dots;
      }
      else out
]

-- The loop that puts the PDF in front of the raster.
pub with_pdf : List DeviceFormat → List DeviceFormat
with_pdf [] = []
with_pdf (f ∷ fs) =
    let rest = with_pdf fs in if str_eq f Device.gdi_raster then Device.pdf ∷ f ∷ rest else f ∷ rest

unfoldable pub normalize_for_windows : PrinterProfile → String → PrinterProfile
unfolding normalize_for_gdi_raster with_pdf
normalize_for_windows p mode =
    let out = normalize_for_gdi_raster p in
    if str_eq mode mode_image
    then out
    else record out { native_formats = with_pdf out.native_formats }

-- `isASCII`: a text has a byte from 0x80 on exactly when it has such a code point.
is_ascii : String → Bool
is_ascii String.[] = true
is_ascii (String.◌∷◌ c s) = if ltb (code c) 0x80 then is_ascii s else false

unfoldable pub effective_page_mode : String → String → Bool → String
unfolding is_ascii
effective_page_mode configured printer_id utf8_acp =
    if str_eq configured mode_image
    then mode_image
    else if not utf8_acp && not (is_ascii printer_id)
    then mode_image
    else mode_vector

-- `ProfileNormalizerForOS` of platform_windows.go, for a resolver of modes and a version of Windows.
unfoldable pub normalizer : (String → String) → Bool → PrinterProfile → PrinterProfile
unfolding normalize_for_windows effective_page_mode
normalizer mode_of utf8_acp p =
    normalize_for_windows p (effective_page_mode (mode_of p.printer_id) p.printer_id utf8_acp)
