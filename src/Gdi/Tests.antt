-- ===== src/Gdi/Tests.antt =====
-- A small bitmap for the driver of Windows, and the theorems at it.
use tera_agent.Base.{ℕ, ◌*◌, ◌%◌, ◌<◌, arith, ◌≡◌, refl, [], ◌∷◌, length, All}
use tera_agent.Failure.{ok, slice}
use tera_agent.Printing.{Bytes}
use tera_agent.Binarizer.Dots.{dot}
use tera_agent.Gdi.{
  stride1, copy_at, pack_mono_rows, mono_info, BitmapInfo, pack_mono1bpp, span, GrayImage, sum_row,
  sum_rows, downscale_pixel, downscale_row, downscale_rows, downscale_gray,
}
use tera_agent.Gdi.Average.{Between, IsImage}
use tera_agent.Gdi.Downscale.{downscale_gray-Between}
use tera_agent.Gdi.Mono.{pack_mono1bpp-dot}

-- Two rows of nine dots.
abbrev two_rows : Bytes
two_rows = 129 ∷ 0 ∷ 64 ∷ 128 ∷ []

pack_mono1bpp-dot_example :
    (buf : Bytes) × (info : BitmapInfo) × (pack_mono1bpp 9 2 two_rows 2 ≡ ok (buf, info))
    × (length buf ≡ 2 * stride1 9)
    × (stride1 9 % 4 ≡ 0)
    × ((x y : ℕ) → x < 9 → y < 2 → dot (stride1 9) buf x y ≡ dot 2 two_rows x y)
pack_mono1bpp-dot_example = pack_mono1bpp-dot 9 2 two_rows refl

packed_rows :
    (info : BitmapInfo) × (pack_mono1bpp 9 2 two_rows 2
      ≡ ok (129 ∷ 0 ∷ 0 ∷ 0 ∷ 64 ∷ 128 ∷ 0 ∷ 0 ∷ [], info))
unfolding pack_mono1bpp pack_mono_rows copy_at mono_info slice
packed_rows = (mono_info 9 2 8, refl)

-- Four levels in a row.
abbrev ramp : GrayImage
ramp = record {
  min_x = 0;
  min_y = 0;
  width = 4;
  height = 1;
  stride = 4;
  pix = 10 ∷ 20 ∷ 40 ∷ 41 ∷ [];
}

ramp-IsImage : IsImage 10 41 (omega arith) ramp
ramp-IsImage = record {
  at_left = refl;
  at_top = refl;
  wide = omega arith;
  whole = omega arith;
  levels =
      let b : Between 10 41 (omega arith) 10 = (omega arith, omega arith) in
      let c : Between 10 41 (omega arith) 20 = (omega arith, omega arith) in
      let d : Between 10 41 (omega arith) 40 = (omega arith, omega arith) in
      let e : Between 10 41 (omega arith) 41 = (omega arith, omega arith) in (b, (c, (d, (e, tt))));
  small = omega arith;
}

downscale_gray-Between_example :
    (dst : GrayImage) × (downscale_gray ramp 2 1 ≡ ok dst)
    × (dst.width ≡ 2)
    × (dst.height ≡ 1)
    × (length dst.pix ≡ 1 * 2)
    × All (Between 10 41 (omega arith)) dst.pix
downscale_gray-Between_example =
    downscale_gray-Between 10 41 (omega arith) ramp ramp-IsImage (omega arith) (omega arith) 2 1
      (omega arith) (omega arith)

ramp_halved :
    downscale_gray ramp 2 1 ≡ ok (record ramp { width = 2; stride = 2; pix = 15 ∷ 40 ∷ [] })
unfolding downscale_gray downscale_rows downscale_row downscale_pixel sum_rows sum_row slice span
ramp_halved = refl
