-- ===== src/Profiles/Normalize/Windows.antt =====
-- What a profile is like once it is normalised.
use tera_agent.Base.{
  ◌≡◌, ◌≢◌, refl, sym, ap, ◌∙◌, true, false, Bool-cases, inl, inr, List, [], ◌∷◌, ◌++◌, map, String,
  str_eq, eq_iff, if◌then◌else◌, arith,
}
use tera_agent.Base.Int.{leb_ℤ}
use tera_agent.Config.{mode_image}
use tera_agent.Printing.{DeviceFormat, PrinterProfile}
use tera_agent.Printing.Device
use tera_agent.Profiles.Normalize.{
  contains, to_raster, raster_formats, has_raster, with_pdf, raise_to, normalize_for_gdi_raster,
  normalize_for_windows, min_raster_dpi, min_raster_width_dots,
}
use tera_agent.Profiles.Normalize.Formats.{
  IsDistinct, contains-raster_formats, raster_formats-IsDistinct, no_pdf, raster_formats_kept,
  map-to_raster_kept, has_raster-contains, has_raster-raster_formats,
}

-- The same profile in one expression.
abbrev normal_form : PrinterProfile → PrinterProfile
normal_form p = record p {
  native_formats = raster_formats [] p.native_formats;
  dpi = if has_raster p.native_formats then raise_to min_raster_dpi p.dpi else p.dpi;
  width_dots =
      if has_raster p.native_formats
      then raise_to min_raster_width_dots p.width_dots
      else p.width_dots;
}

normalize-normal_form : (p : PrinterProfile) → normalize_for_gdi_raster p ≡ normal_form p
unfolding normalize_for_gdi_raster
normalize-normal_form p = go p.native_formats refl
  where
    go :
        (fs : List DeviceFormat)
        → p.native_formats ≡ fs
        → normalize_for_gdi_raster p ≡ normal_form p
    go [] e = ground arith
    go (f ∷ fs) e = ground arith

-- Where a printer is reached by raster, at least the resolution and the width of the raster path.
abbrev pub IsSharp : PrinterProfile → Type 0
IsSharp p = (leb_ℤ min_raster_dpi p.dpi ≡ true) × (leb_ℤ min_raster_width_dots p.width_dots ≡ true)

-- The normalised profile lists each format once, never the PDF, and exactly the formats of the
-- profile with the raster in place of the PDF. If the raster is among them it is sharp, and if not
-- the resolution and the width are unchanged. The printer, its cutter, its drawer and its metadata
-- are unchanged.
pub normalize_for_gdi_raster_lem :
    (p : PrinterProfile)
    → let q = normalize_for_gdi_raster p in
      IsDistinct q.native_formats
      × (contains Device.pdf q.native_formats ≡ false)
      × ((f : DeviceFormat)
          → contains f q.native_formats ≡ contains f (map to_raster p.native_formats))
      × (contains Device.gdi_raster q.native_formats ≡ true → IsSharp q)
      × (contains Device.gdi_raster q.native_formats ≡ false
          → (q.dpi ≡ p.dpi) × (q.width_dots ≡ p.width_dots))
      × (q.printer_id ≡ p.printer_id)
      × (q.supports_cut ≡ p.supports_cut)
      × (q.supports_drawer ≡ p.supports_drawer)
      × (q.meta ≡ p.meta)
unfolding contains
normalize_for_gdi_raster_lem p = rw normalize-normal_form (
  raster_formats-IsDistinct [] p.native_formats,
  without,
  same,
  (λ h. ground (arith, sharp, h, same Device.gdi_raster)),
  (λ h. ground (arith, sharp, h, same Device.gdi_raster)),
  refl,
  refl,
  refl,
  refl,
)
  where
    same :
        (f : DeviceFormat)
        → contains f (raster_formats [] p.native_formats)
          ≡ contains f (map to_raster p.native_formats)
    same f = ground (arith, contains-raster_formats f [] p.native_formats)

    without : contains Device.pdf (raster_formats [] p.native_formats) ≡ false
    without = same Device.pdf ∙ no_pdf p.native_formats

    sharp :
        has_raster p.native_formats ≡ contains Device.gdi_raster (map to_raster p.native_formats)
    sharp = has_raster-contains p.native_formats

normal_form_idem : (p : PrinterProfile) → normal_form (normal_form p) ≡ normal_form p
unfolding contains
normal_form_idem p = ground (
  arith,
  has_raster-raster_formats p.native_formats,
  raster_formats_kept [] (raster_formats [] p.native_formats)
      (raster_formats-IsDistinct [] p.native_formats)
      (ground
        (arith, contains-raster_formats Device.pdf [] p.native_formats, no_pdf p.native_formats))
      (λ f h. cc),
)

-- Normalising twice is normalising once.
normalize_for_gdi_raster_idem :
    (p : PrinterProfile)
    → normalize_for_gdi_raster (normalize_for_gdi_raster p) ≡ normalize_for_gdi_raster p
normalize_for_gdi_raster_idem p =
    ap normalize_for_gdi_raster (normalize-normal_form p)
    ∙ normalize-normal_form (normal_form p)
    ∙ normal_form_idem p
    ∙ sym (normalize-normal_form p)

with_pdf_absent : (l : List DeviceFormat) → contains Device.gdi_raster l ≡ false → with_pdf l ≡ l
unfolding with_pdf contains
with_pdf_absent [] h = refl
with_pdf_absent (f ∷ fs) h = ground (arith, with_pdf_absent fs)

-- The PDF stands in `v` right in front of the raster of `g`, and nothing else differs.
abbrev pub PdfFirst : List DeviceFormat → List DeviceFormat → Type 0
PdfFirst g v =
    (before : List DeviceFormat) × (after : List DeviceFormat) × (g
      ≡ before ++ Device.gdi_raster ∷ after)
    × (v ≡ before ++ Device.pdf ∷ Device.gdi_raster ∷ after)

with_pdf_present :
    (l : List DeviceFormat)
    → IsDistinct l
    → contains Device.gdi_raster l ≡ true
    → PdfFirst l (with_pdf l)
unfolding with_pdf contains
with_pdf_present [] d h = absurd (cc)
with_pdf_present (f ∷ fs) (fresh, d) h = elim (Bool-cases (str_eq f Device.gdi_raster)) [
  | inl e ↦
      let f_is : f ≡ Device.gdi_raster = (eq_iff f Device.gdi_raster).0 e in
      let alone : with_pdf fs ≡ fs = with_pdf_absent fs (rw f_is at fresh) in
      (
        [],
        fs,
        ap (λ (x : DeviceFormat). x ∷ fs) f_is,
        rw (e, alone) (ap (λ (x : DeviceFormat). Device.pdf ∷ x ∷ fs) f_is),
      )
  | inr e ↦
      let (before, after, old, new) = with_pdf_present fs d (rw e at h) in
      (f ∷ before, after, ap (λ l. f ∷ l) old, rw e (ap (λ l. f ∷ l) new))
]

-- In the vector mode the formats of a Windows printer are those of the raster mode with the PDF right
-- in front of the raster, if the raster is among them, and exactly those if it is not; nothing else
-- differs between the modes.
normalize_for_windows_vector :
    (p : PrinterProfile) (mode : String)
    → mode ≢ mode_image
    → let g = normalize_for_gdi_raster p in
      let v = normalize_for_windows p mode in
      (contains Device.gdi_raster g.native_formats ≡ true
        → PdfFirst g.native_formats v.native_formats)
      × (contains Device.gdi_raster g.native_formats ≡ false → v ≡ g)
      × (record v { native_formats = g.native_formats } ≡ g)
unfolding normalize_for_windows
normalize_for_windows_vector p mode h =
    let vector : str_eq mode mode_image ≡ false = ground (arith, eq_iff mode mode_image) in
    let g = normalize_for_gdi_raster p in
    rw vector (
      (λ present. with_pdf_present g.native_formats (normalize_for_gdi_raster_lem p).0 present),
      (λ absent. ground (arith, with_pdf_absent g.native_formats absent)),
      refl,
    )

-- A profile with distinct formats, neither the PDF nor the raster among them, is left as it is in
-- every mode.
normalize_for_windows_other :
    (p : PrinterProfile) (mode : String)
    → IsDistinct p.native_formats
    → contains Device.pdf p.native_formats ≡ false
    → contains Device.gdi_raster p.native_formats ≡ false
    → normalize_for_windows p mode ≡ p
unfolding normalize_for_windows contains
normalize_for_windows_other p mode d n r =
    let kept : raster_formats [] p.native_formats ≡ p.native_formats =
      raster_formats_kept [] p.native_formats d n (λ f h. cc) in
    let no_raster : has_raster p.native_formats ≡ false =
      rw (has_raster-contains, map-to_raster_kept p.native_formats n) r in
    let same : normalize_for_gdi_raster p ≡ p =
      normalize-normal_form p ∙ ground (arith, kept, no_raster) in
    elim (Bool-cases (str_eq mode mode_image)) [
      | inl e ↦ rw (e, same)
      | inr e ↦ rw (e, same) (ground (arith, with_pdf_absent p.native_formats r))
    ]
