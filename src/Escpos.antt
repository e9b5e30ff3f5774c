-- ===== src/Escpos.antt =====
-- internal/adapters/printing/encoder/escpos: artifacts as ESC/POS bytes. A byte is a number below
-- 256. A Go `int` that may be negative is an integer; sizes are natural numbers.
pub mod Printer
pub mod Feed
pub mod Trim
pub mod Bands
pub mod Encode
mod Tests
use tera_agent.Base.{
  ℕ, zero, suc, ◌+◌, ◌-◌, ◌*◌, ◌/◌, ◌%◌, Bool, true, false, List, [], ◌∷◌, ◌++◌, ltb, leb, ◌==◌,
  if◌then◌else◌, length,
}
use tera_agent.Base.Int.{ℤ, pos, leb_ℤ, ltb_ℤ, pos_part}
use tera_agent.Failure.{Result, ok, err, ◌>>=◌, slice, wrong_artifact}
use tera_agent.Printing.{
  Bytes, Artifact, raster_artifact, text_artifact, artifact_kind, EncodeOptions, Encoder,
  MonoBitmap, stride,
}
use tera_agent.Printing.Device
use tera_agent.Printing.Kind

abbrev pub band_rows : ℕ
band_rows = 128

abbrev pub default_cut_feed_dots : ℕ
default_cut_feed_dots = 232

abbrev pub default_top_margin_dots : ℕ
default_top_margin_dots = 16

abbrev pub escj_max : ℕ
escj_max = 255

abbrev pub max_feed_dots : ℕ
max_feed_dots = 2000

abbrev pub cmd_init : Bytes
cmd_init = 0x1B ∷ 0x40 ∷ []

abbrev pub cmd_full_cut : Bytes
cmd_full_cut = 0x1D ∷ 0x56 ∷ 0x00 ∷ []

abbrev pub cmd_drawer : Bytes
cmd_drawer = 0x1B ∷ 0x70 ∷ 0x00 ∷ 0x19 ∷ 0xFA ∷ []

abbrev pub raster_start : Bytes
raster_start = 0x1D ∷ 0x76 ∷ 0x30 ∷ 0x00 ∷ []

-- The feed in dots that `escJFeed` settles on before its loop.
abbrev pub clamp_feed : ℤ → ℕ
clamp_feed dots =
    let asked = if leb_ℤ dots (pos 0) then default_cut_feed_dots else pos_part dots in
    if ltb max_feed_dots asked then max_feed_dots else asked

-- The loop of `escJFeed`. A round takes one dot at least, so `dots` rounds are enough.
pub feed_loop : ℕ → ℕ → Bytes
feed_loop zero dots = []
feed_loop (suc fuel) dots =
    let n = if ltb escj_max dots then escj_max else dots in
    let more = 0x1B ∷ 0x4A ∷ (n % 256) ∷ feed_loop fuel (dots - n) in if dots == 0 then [] else more

unfoldable pub escj_feed : ℤ → Bytes
unfolding feed_loop
escj_feed dots = let n = clamp_feed dots in feed_loop n n

unfoldable pub resolve_top_margin : ℤ → ℤ
resolve_top_margin dots = if leb_ℤ dots (pos 0) then pos default_top_margin_dots else dots

-- `for _, b := range row { if b != 0 … }`
unfoldable pub is_blank : Bytes → Bool
is_blank [] = true
is_blank (b ∷ bs) = if b == 0 then is_blank bs else false

-- The loop of `trimLeadingBlankTo` from row `blank` on, with `left` rows to go.
pub blank_rows : MonoBitmap → ℕ → ℕ → Result ℕ
blank_rows mb zero blank = ok blank
blank_rows mb (suc left) blank = do
  row ← slice mb.bits (blank * stride mb) ((blank + 1) * stride mb)
  let more = blank_rows mb left (blank + 1)
  if is_blank row then more else ok blank

unfoldable pub trim_leading_blank_to : MonoBitmap → ℤ → Result MonoBitmap
unfolding blank_rows
trim_leading_blank_to mb keep = do
  let kept = if ltb_ℤ keep (pos 0) then 0 else pos_part keep
  blank ← blank_rows mb mb.height 0
  let gone = blank - kept
  let trimmed = do
    rest ← slice mb.bits (gone * stride mb) (length mb.bits)
    ok (record mb { height = mb.height - gone; bits = rest })
  if leb blank kept then ok mb else trimmed

-- The loop of `trimTrailingBlank`: the height that is left.
pub inked_height : MonoBitmap → ℕ → Result ℕ
inked_height mb zero = ok 0
inked_height mb (suc h) = do
  row ← slice mb.bits (h * stride mb) (suc h * stride mb)
  let more = inked_height mb h
  if is_blank row then more else ok (suc h)

unfoldable pub trim_trailing_blank : MonoBitmap → Result MonoBitmap
unfolding inked_height
trim_trailing_blank mb = do
  h ← inked_height mb mb.height
  let trimmed = do
    rest ← slice mb.bits 0 (h * stride mb)
    ok (record mb { height = h; bits = rest })
  if h == mb.height then ok mb else trimmed

raster_header : ℕ → ℕ → Bytes
raster_header width h =
    raster_start ++ (width % 256) ∷ (width / 256 % 256) ∷ (h % 256) ∷ (h / 256 % 256) ∷ []

-- The loop of `writeRaster` from row `y0` on. A round advances, so `Height` rounds are enough.
pub write_bands : ℕ → MonoBitmap → ℕ → Result Bytes
unfolding raster_header
write_bands zero mb y0 = ok []
write_bands (suc fuel) mb y0 =
    let h = if ltb mb.height (y0 + band_rows) then mb.height - y0 else band_rows in
    let band = (do
      rows ← slice mb.bits (y0 * stride mb) ((y0 + h) * stride mb)
      more ← write_bands fuel mb (y0 + band_rows)
      ok (raster_header (stride mb) h ++ (rows ++ more))) in
    if ltb y0 mb.height then band else ok []

unfoldable pub write_raster : MonoBitmap → Result Bytes
unfolding write_bands
write_raster mb = write_bands mb.height mb 0

abbrev when : Bool → Bytes → Bytes
when true bs = bs
when false bs = []

-- What both encoders write behind the content.
pub ending : EncodeOptions → Bytes
unfolding escj_feed
ending opts =
    when opts.open_drawer cmd_drawer ++ when opts.cut (escj_feed opts.cut_feed_dots ++ cmd_full_cut)

module _ {Image : Type 0} (binarize : Image → MonoBitmap) where
  -- The bitmap of a page as it is printed; only the first page loses its top margin.
  page_bitmap : Bool → ℤ → Image → Result MonoBitmap
  page_bitmap first keep page = do
    mb ← trim_trailing_blank (binarize page)
    if first then trim_leading_blank_to mb keep else ok mb

  -- The loop over the pages.
  pub encode_pages : Bool → ℤ → List Image → Result Bytes
  unfolding page_bitmap
  encode_pages first keep [] = ok []
  encode_pages first keep (page ∷ pages) = do
    mb ← page_bitmap first keep page
    rows ← (if mb.height == 0 then ok [] else write_raster mb)
    more ← encode_pages false keep pages
    ok (rows ++ more)

  pub encode_raster : Artifact Image → EncodeOptions → Result Bytes
  unfolding ending
  encode_raster (raster_artifact pages width) opts = do
    rows ← encode_pages true (resolve_top_margin opts.top_margin_dots) pages
    ok (cmd_init ++ (rows ++ ending opts))
  encode_raster a opts = err (wrong_artifact (artifact_kind a))

  unfoldable pub new_raster : Encoder Image
  unfolding encode_raster
  new_raster = record { accepts = Kind.raster; produces = Device.escpos; encode = encode_raster }

module _ {Image : Type 0} where
  -- `text.go`: an empty body is a job for the drawer alone.
  pub encode_text : Artifact Image → EncodeOptions → Result Bytes
  unfolding ending
  encode_text (text_artifact body) opts =
      let line : Bytes = elim body [ [] ↦ [] | b ∷ bs ↦ (b ∷ bs) ++ 10 ∷ [] ] in
      ok (cmd_init ++ (line ++ ending opts))
  encode_text a opts = err (wrong_artifact (artifact_kind a))

unfoldable pub new_text : {Image : Type 0} → Encoder Image
unfolding encode_text
new_text = record { accepts = Kind.text; produces = Device.escpos; encode = encode_text }
