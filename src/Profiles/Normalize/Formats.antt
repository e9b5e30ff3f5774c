-- ===== src/Profiles/Normalize/Formats.antt =====
-- What the normalisation does to the list of native formats.
use tera_agent.Base.{
  ◌≡◌, refl, ap, true, false, ◌&&◌, not, Bool-cases, inl, inr, List, [], ◌∷◌, map, str_eq, eq_iff,
  arith,
}
use tera_agent.Printing.{DeviceFormat}
use tera_agent.Printing.Device
use tera_agent.Profiles.Normalize.{contains, to_raster, raster_formats, has_raster}

-- No format stands twice.
abbrev pub IsDistinct : List DeviceFormat → Type 0
IsDistinct [] = Unit
IsDistinct (f ∷ fs) = (contains f fs ≡ false) × IsDistinct fs

pub contains-raster_formats :
    (f : DeviceFormat) (seen fs : List DeviceFormat)
    → contains f (raster_formats seen fs) ≡ (contains f (map to_raster fs) && not (contains f seen))
unfolding contains raster_formats
contains-raster_formats f seen [] = refl
contains-raster_formats f seen (g ∷ gs) = ground (
  arith,
  eq_iff (to_raster g) f,
  contains-raster_formats f seen gs,
  contains-raster_formats f (to_raster g ∷ seen) gs,
)

fresh :
    (f : DeviceFormat) (seen fs : List DeviceFormat)
    → contains f (raster_formats (f ∷ seen) fs) ≡ false
unfolding contains
fresh f seen fs = ground (arith, eq_iff f f, contains-raster_formats f (f ∷ seen) fs)

pub raster_formats-IsDistinct : (seen fs : List DeviceFormat) → IsDistinct (raster_formats seen fs)
unfolding raster_formats
raster_formats-IsDistinct seen [] = tt
raster_formats-IsDistinct seen (g ∷ gs) = elim (Bool-cases (contains (to_raster g) seen)) [
  | inl e ↦ rw e (raster_formats-IsDistinct seen gs)
  | inr e ↦ rw e (fresh (to_raster g) seen gs, raster_formats-IsDistinct (to_raster g ∷ seen) gs)
]

pub no_pdf : (fs : List DeviceFormat) → contains Device.pdf (map to_raster fs) ≡ false
unfolding contains
no_pdf [] = refl
no_pdf (f ∷ fs) = elim (Bool-cases (str_eq f Device.pdf)) [
  | inl e ↦ rw e (no_pdf fs)
  | inr e ↦ rw e (rw e (no_pdf fs))
]

-- Formats that are distinct, none of them the PDF and none of them seen before, are kept as they are.
abbrev pub Unseen : List DeviceFormat → List DeviceFormat → Type 0
Unseen seen fs = (f : DeviceFormat) → contains f seen ≡ true → contains f fs ≡ false

pub raster_formats_kept :
    (seen fs : List DeviceFormat)
    → IsDistinct fs
    → contains Device.pdf fs ≡ false
    → Unseen seen fs
    → raster_formats seen fs ≡ fs
unfolding raster_formats contains
raster_formats_kept seen [] d n u = refl
raster_formats_kept seen (f ∷ fs) (fresh_head, d) n u =
    let plain : str_eq f Device.pdf ≡ false = ground (arith, n) in
    let unseen : contains f seen ≡ false = ground (arith, u f, eq_iff f f) in
    rw (plain, unseen)
      (ap (λ l. f ∷ l)
        (raster_formats_kept (f ∷ seen) fs d (ground (arith, n))
          (λ g h. ground (arith, u g, eq_iff f g, h, fresh_head))))

pub has_raster-contains :
    (fs : List DeviceFormat) → has_raster fs ≡ contains Device.gdi_raster (map to_raster fs)
unfolding has_raster contains
has_raster-contains [] = refl
has_raster-contains (f ∷ fs) = ground (arith, has_raster-contains fs)

pub map-to_raster_kept :
    (fs : List DeviceFormat) → contains Device.pdf fs ≡ false → map to_raster fs ≡ fs
unfolding contains
map-to_raster_kept [] h = refl
map-to_raster_kept (f ∷ fs) h =
    let plain : str_eq f Device.pdf ≡ false = ground (arith, h) in
    rw plain (ap (λ l. f ∷ l) (map-to_raster_kept fs (ground (arith, h))))

pub has_raster-raster_formats :
    (fs : List DeviceFormat) → has_raster (raster_formats [] fs) ≡ has_raster fs
unfolding contains
has_raster-raster_formats fs = ground (
  arith,
  has_raster-contains (raster_formats [] fs),
  has_raster-contains fs,
  ap (contains Device.gdi_raster) (
      map-to_raster_kept (raster_formats [] fs)
        (ground (arith, contains-raster_formats Device.pdf [] fs, no_pdf fs))),
  contains-raster_formats Device.gdi_raster [] fs,
)
