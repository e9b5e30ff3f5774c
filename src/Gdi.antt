-- ===== src/Gdi.antt =====
-- internal/adapters/printing/driver/gdi/raster_prep.go: the images that the driver of Windows sends. Of
-- the file this is the sizes of a device-independent bitmap, the packing of a bitmap of one bit a dot,
-- and the downscaling of a gray image. The scales, which are floats, the images in color and the calls
-- of Windows are left out.
pub mod Average
pub mod Downscale
pub mod Mono
pub mod Spans
mod Tests
use tera_agent.Base.{
  ℕ, zero, suc, ◌+◌, ◌-◌, ◌*◌, ◌/◌, ◌%◌, ◌^◌, List, [], ◌∷◌, ltb, leb, ◌==◌, ◌++◌, if◌then◌else◌,
  length, replicate,
}
use tera_agent.Base.Int.{ℤ, pos, negsuc}
use tera_agent.Failure.{Result, ok, err, ◌>>=◌, slice, byte_at, panicked}
use tera_agent.Printing.{Bytes}

abbrev pub stride24 : ℕ → ℕ
stride24 w = (w * 3 + 3) / 4 * 4

abbrev pub stride1 : ℕ → ℕ
stride1 w = (w + 31) / 32 * 4

abbrev pub dib_bytes24 : ℕ → ℕ → ℕ
dib_bytes24 w h = stride24 w * h

abbrev pub dib_bytes1 : ℕ → ℕ → ℕ
dib_bytes1 w h = stride1 w * h

-- `int32(n)` of an `int`.
int32 : ℕ → ℤ
int32 n = if ltb (n % 2 ^ 32) (2 ^ 31) then pos (n % 2 ^ 32) else negsuc (2 ^ 32 - n % 2 ^ 32 - 1)

-- `-int32(n)`, which wraps.
minus_int32 : ℕ → ℤ
unfolding int32
minus_int32 n = int32 (2 ^ 32 - n % 2 ^ 32)

pub record BitmapInfoHeader : Type 0 where
  pub size : ℕ
  pub width : ℤ
  pub height : ℤ
  pub planes : ℕ
  pub bit_count : ℕ
  pub compression : ℕ
  pub size_image : ℕ
  pub x_pels_per_meter : ℤ
  pub y_pels_per_meter : ℤ
  pub clr_used : ℕ
  pub clr_important : ℕ

pub record RgbQuad : Type 0 where
  pub blue : ℕ
  pub green : ℕ
  pub red : ℕ
  pub reserved : ℕ

pub record BitmapInfo : Type 0 where
  pub header : BitmapInfoHeader
  pub colors : List RgbQuad

-- `copy(buf[i:], src)`, as far as `buf` reaches.
pub copy_at : ℕ → Bytes → Bytes → Bytes
copy_at i src [] = []
copy_at zero [] (b ∷ buf) = b ∷ buf
copy_at zero (s ∷ src) (b ∷ buf) = s ∷ copy_at zero src buf
copy_at (suc i) src (b ∷ buf) = b ∷ copy_at i src buf

module _ (width : ℕ) (bits : Bytes) (src_stride : ℕ) where
  -- The loop over the rows, of which `n` are left from `y` on.
  pub pack_mono_rows : ℕ → ℕ → Bytes → Result Bytes
  unfolding copy_at
  pack_mono_rows zero y buf = ok buf
  pack_mono_rows (suc n) y buf =
      slice buf (y * stride1 width) (y * stride1 width + src_stride) >>= λ target.
      slice bits (y * src_stride) (y * src_stride + src_stride) >>= λ row.
      pack_mono_rows n (y + 1) (copy_at (y * stride1 width) row buf)

mono_info : ℕ → ℕ → ℕ → BitmapInfo
unfolding int32 minus_int32
mono_info width height size = record {
  header = record {
    size = 40;
    width = int32 width;
    height = minus_int32 height;
    planes = 1;
    bit_count = 1;
    compression = 0;
    size_image = size % 2 ^ 32;
    x_pels_per_meter = pos 0;
    y_pels_per_meter = pos 0;
    clr_used = 2;
    clr_important = 0;
  };
  colors =
      record { blue = 255; green = 255; red = 255; reserved = 0 }
      ∷ record { blue = 0; green = 0; red = 0; reserved = 0 }
      ∷ [];
}

unfoldable pub pack_mono1bpp : ℕ → ℕ → Bytes → ℕ → Result (Bytes × BitmapInfo)
unfolding pack_mono_rows mono_info
pack_mono1bpp width height bits src_stride =
    pack_mono_rows width bits src_stride height 0 (replicate (stride1 width * height) 0) >>= λ buf.
    ok (buf, mono_info width height (length buf))

-- `span`, for a nonempty target.
unfoldable pub span : ℕ → ℕ → ℕ → ℕ × ℕ
span idx dst_n src_n =
    let lo = idx * src_n / dst_n in
    let hi = (idx + 1) * src_n / dst_n in (lo, (if leb hi lo then lo + 1 else hi))

-- `image.Gray`: its bounds, and its levels row by row, `stride` apart, from the corner of the bounds on.
pub record GrayImage : Type 0 where
  pub min_x : ℕ
  pub min_y : ℕ
  pub width : ℕ
  pub height : ℕ
  pub stride : ℕ
  pub pix : Bytes

-- The loop over the levels of a row, of which `n` are left from `xx` on, with the sum and the number of
-- those before, both a `uint32`.
pub sum_row : Bytes → ℕ → ℕ → ℕ × ℕ → Result (ℕ × ℕ)
sum_row row zero xx acc = ok acc
sum_row row (suc n) xx (sum, count) =
    byte_at row xx >>= λ v. sum_row row n (xx + 1) ((sum + v) % 2 ^ 32, (count + 1) % 2 ^ 32)

-- `uint8(sum / n)`, which panics on 0.
abbrev pub average : ℕ × ℕ → Result ℕ
average (sum, count) = if count == 0 then err panicked else ok (sum / count % 256)

module _ (src : GrayImage) where
  -- The loop over the rows of a box, of which `n` are left from `yy` on.
  pub sum_rows : ℕ → ℕ → ℕ → ℕ → ℕ × ℕ → Result (ℕ × ℕ)
  unfolding sum_row
  sum_rows x0 columns zero yy acc = ok acc
  sum_rows x0 columns (suc n) yy acc =
      slice src.pix ((src.min_y + yy) * src.stride + src.min_x) (length src.pix) >>= λ row.
      sum_row row columns x0 acc >>= λ next. sum_rows x0 columns n (yy + 1) next

  module _ (dst_w dst_h : ℕ) where
    pub downscale_pixel : ℕ → ℕ → Result ℕ
    unfolding sum_rows span
    downscale_pixel dx dy =
        let (y0, y1) = span dy dst_h src.height in
        let (x0, x1) = span dx dst_w src.width in
        sum_rows x0 (x1 - x0) (y1 - y0) y0 (0, 0) >>= average

    -- The loop over a row of the target, of which `n` pixels are left from `dx` on.
    pub downscale_row : ℕ → ℕ → ℕ → Result Bytes
    unfolding downscale_pixel
    downscale_row dy zero dx = ok []
    downscale_row dy (suc n) dx = downscale_pixel dx dy >>= λ level.
        downscale_row dy n (dx + 1) >>= λ levels. ok (level ∷ levels)

    -- The loop over the rows of the target, of which `n` are left from `dy` on.
    pub downscale_rows : ℕ → ℕ → Result Bytes
    unfolding downscale_row
    downscale_rows zero dy = ok []
    downscale_rows (suc n) dy = downscale_row dy dst_w 0 >>= λ levels.
        downscale_rows n (dy + 1) >>= λ more. ok (levels ++ more)

    unfoldable pub downscale_gray : Result GrayImage
    unfolding downscale_rows
    downscale_gray = downscale_rows dst_h 0 >>= λ levels. ok (record {
      min_x = 0;
      min_y = 0;
      width = dst_w;
      height = dst_h;
      stride = dst_w;
      pix = levels;
    })
