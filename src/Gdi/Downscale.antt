-- ===== src/Gdi/Downscale.antt =====
-- The image that `downscaleGray` makes.
use tera_agent.Base.{
  mul_mono, ℕ, zero, suc, ◌+◌, ◌-◌, ◌*◌, ◌^◌, ◌≤◌, ◌<◌, ◌≡◌, refl, ap, [], ◌∷◌, ◌++◌, length,
  length-append, All, arith,
}
use tera_agent.Failure.{ok}
use tera_agent.Printing.{Bytes}
use tera_agent.Gdi.{GrayImage, span, downscale_pixel, downscale_row, downscale_rows, downscale_gray}
use tera_agent.Gdi.Spans.{span-covers}
use tera_agent.Gdi.Average.{
  Between, no_levels, IsImage, average-Between, All-append, sum_rows-IsSum,
}

module _ (lo hi : ℕ) (byte : hi < 256) (src : GrayImage) (image : IsImage lo hi byte src)
    (some_columns : 0 < src.width) (some_rows : 0 < src.height) (dst_w dst_h : ℕ)
    (target_w : 0 < dst_w) (target_h : 0 < dst_h) where
  abbrev Ranged : ℕ → Type 0
  Ranged = Between lo hi byte

  box_small :
      (columns rows : ℕ)
      → columns ≤ src.width
      → rows ≤ src.height
      → (0 + columns * rows) * 255 < 2 ^ 32
  box_small columns rows h k =
      let wide : columns * rows ≤ src.width * rows = mul_mono columns src.width rows h in
      let high : rows * src.width ≤ src.height * src.width = mul_mono rows src.height src.width k in
      let all : columns * rows ≤ src.width * src.height = grind (arith, wide, high) in
      omega (arith, all, image.small)

  box_some : (columns rows : ℕ) → 0 < columns → 0 < rows → 0 < 0 + columns * rows
  box_some columns rows h k = grind arith

  downscale_pixel-Between :
      (dx dy : ℕ)
      → dx < dst_w
      → dy < dst_h
      → (level : ℕ) × (downscale_pixel src dst_w dst_h dx dy ≡ ok level) × Ranged level
  unfolding downscale_pixel
  downscale_pixel-Between dx dy in_w in_h =
      let (x_some, x_room) = (span-covers dst_w src.width target_w some_columns).0 dx in_w in
      let (y_some, y_room) = (span-covers dst_h src.height target_h some_rows).0 dy in_h in
      let x0 = (span dx dst_w src.width).0 in
      let columns = (span dx dst_w src.width).1 - x0 in
      let y0 = (span dy dst_h src.height).0 in
      let rows = (span dy dst_h src.height).1 - y0 in
      let (total, e, t) =
        sum_rows-IsSum lo hi byte src image x0 columns (omega (arith, x_some, x_room)) rows y0 0
          (0, 0) (omega (arith, y_some, y_room))
          (box_small columns rows (omega (arith, x_room)) (omega (arith, y_room)))
          (no_levels lo hi byte) in
      let (level, f, between) =
        average-Between lo hi byte (0 + columns * rows) total
          (box_some columns rows (omega (arith, x_some)) (omega (arith, y_some))) t in
      (level, rw e f, between)

  downscale_row-Between :
      (dy n dx : ℕ)
      → dy < dst_h
      → dx + n ≤ dst_w
      → (levels : Bytes) × (downscale_row src dst_w dst_h dy n dx ≡ ok levels)
        × (length levels ≡ n)
        × All Ranged levels
  unfolding downscale_row
  downscale_row-Between dy zero dx in_h room = ([], refl, refl, tt)
  downscale_row-Between dy (suc n) dx in_h room =
      let (level, e, between) = downscale_pixel-Between dx dy (omega arith) in_h in
      let (levels, f, sized, all) = downscale_row-Between dy n (dx + 1) in_h (omega arith) in
      (level ∷ levels, rw e (rw f refl), ap suc sized, (between, all))

  downscale_rows-Between :
      (n dy : ℕ)
      → dy + n ≤ dst_h
      → (levels : Bytes) × (downscale_rows src dst_w dst_h n dy ≡ ok levels)
        × (length levels ≡ n * dst_w)
        × All Ranged levels
  unfolding downscale_rows
  downscale_rows-Between zero dy room = ([], refl, omega arith, tt)
  downscale_rows-Between (suc n) dy room =
      let (levels, e, sized, all) = downscale_row-Between dy dst_w 0 (omega arith) (omega arith) in
      let (more, f, more_sized, more_all) = downscale_rows-Between n (dy + 1) (omega arith) in
      (
        levels ++ more,
        rw e (rw f refl),
        omega (arith, length-append levels more, sized, more_sized),
        All-append lo hi byte levels more all more_all,
      )

  -- For a nonempty image at the origin, small enough that the sum of its levels fits 32 bits, and a
  -- nonempty target: `downscaleGray` does not panic, neither on a range nor on a division by 0, its
  -- image has the target's size and one level a pixel, and where all levels of the source are between
  -- two bounds, those of the target are between them too.
  pub downscale_gray-Between :
      (dst : GrayImage) × (downscale_gray src dst_w dst_h ≡ ok dst)
      × (dst.width ≡ dst_w)
      × (dst.height ≡ dst_h)
      × (length dst.pix ≡ dst_h * dst_w)
      × All Ranged dst.pix
  unfolding downscale_gray
  downscale_gray-Between =
      let (levels, e, sized, all) = downscale_rows-Between dst_h 0 (omega arith) in
      (
        record {
          min_x = 0;
          min_y = 0;
          width = dst_w;
          height = dst_h;
          stride = dst_w;
          pix = levels;
        },
        rw e refl,
        refl,
        refl,
        sized,
        all,
      )
