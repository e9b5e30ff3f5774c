-- ===== src/Profiles/Tests.antt =====
-- A laser printer of the Backend on Windows, and the theorems of the profiles at it.
use tera_agent.Base.{◌≡◌, ◌≢◌, refl, true, false, [], ◌∷◌, map, eq_iff, arith}
use tera_agent.Base.Int.{pos}
use tera_agent.Config.{mode_image, mode_vector}
use tera_agent.Printing.{DeviceFormat, PrinterProfile}
use tera_agent.Printing.Device
use tera_agent.Profiles.Cache.{
  profile, set_sequence, set_all, known, or_else, last_of, profile-set_all,
}
use tera_agent.Profiles.Normalize.{
  contains, to_raster, normalize_for_gdi_raster, normalize_for_windows, effective_page_mode,
}
use tera_agent.Profiles.Normalize.Formats.{IsDistinct}
use tera_agent.Profiles.Normalize.Windows.{IsSharp, normalize_for_gdi_raster_lem}

abbrev laser : PrinterProfile
laser = record {
  printer_id = "HP";
  native_formats = Device.pdf ∷ Device.raw ∷ Device.pdf ∷ [];
  width_dots = pos 2480;
  dpi = pos 1200;
  supports_cut = false;
  supports_drawer = false;
  meta = [];
}

abbrev thermal : PrinterProfile
thermal = record laser { printer_id = "XP-80"; native_formats = Device.escpos ∷ [] }

laser_by_vector : normalize_for_windows laser mode_vector ≡ record laser {
  native_formats = Device.pdf ∷ Device.gdi_raster ∷ Device.raw ∷ [];
  width_dots = pos 4960;
}
unfolding normalize_for_windows
laser_by_vector = refl

-- A name that is not ASCII prints in the image mode where the code page is not UTF-8.
accented_mode : effective_page_mode "" "Impresión" false ≡ mode_image
unfolding effective_page_mode
accented_mode = refl

vector_mode : mode_vector ≢ mode_image
vector_mode = ground (arith, eq_iff mode_vector mode_image)

normalize_for_gdi_raster_lem_example :
    let q = normalize_for_gdi_raster laser in
    IsDistinct q.native_formats
    × (contains Device.pdf q.native_formats ≡ false)
    × ((f : DeviceFormat)
        → contains f q.native_formats ≡ contains f (map to_raster laser.native_formats))
    × (contains Device.gdi_raster q.native_formats ≡ true → IsSharp q)
    × (contains Device.gdi_raster q.native_formats ≡ false
        → (q.dpi ≡ laser.dpi) × (q.width_dots ≡ laser.width_dots))
    × (q.printer_id ≡ laser.printer_id)
    × (q.supports_cut ≡ laser.supports_cut)
    × (q.supports_drawer ≡ laser.supports_drawer)
    × (q.meta ≡ laser.meta)
normalize_for_gdi_raster_lem_example = normalize_for_gdi_raster_lem laser

no_pdf : contains Device.pdf thermal.native_formats ≡ false
unfolding contains
no_pdf = refl

no_raster : contains Device.gdi_raster thermal.native_formats ≡ false
unfolding contains
no_raster = refl

thermal-IsDistinct : IsDistinct thermal.native_formats
unfolding contains
thermal-IsDistinct = (refl, tt)

profile-set_all_example :
    profile (set_sequence (set_all (("HP", thermal) ∷ []) (laser ∷ [])) (thermal ∷ [])) "HP"
    ≡ known "HP" (or_else (last_of "HP" (thermal ∷ [])) (last_of "HP" (laser ∷ [])))
profile-set_all_example = profile-set_all (("HP", thermal) ∷ []) (laser ∷ []) (thermal ∷ []) "HP"
