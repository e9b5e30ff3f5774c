-- ===== src/Escpos/Bands.antt =====
-- The raster blocks of a bitmap print its rows, each once and in order.
use tera_agent.Base.{
  mul_mono, ℕ, zero, suc, ◌+◌, ◌-◌, ◌*◌, ◌≤◌, ◌<◌, ◌≡◌, ◌⊎◌, refl, ap, sym, subst, ◌∙◌, Bool-cases,
  inl, inr, List, [], ◌∷◌, ◌++◌, ltb, length, take, drop, length-take, length-drop,
  take-append-drop, take-append_le, drop-append_le, drop-drop, arith,
}
use tera_agent.Failure.{Result, ok, ◌>>=◌, slice, slice_ok}
use tera_agent.Printing.{Bytes, MonoBitmap, stride}
use tera_agent.Escpos.{band_rows, raster_header, write_bands, write_raster}
use tera_agent.Escpos.Printer.{Mark, row, rows_of, Makes, Makes-nil, Makes-append, Makes-raster}

-- The bits are `height` rows of `stride` bytes, and a row fits the command's two length bytes.
pub record IsBitmap (mb : MonoBitmap) : Type 0 where
  pub whole : length mb.bits ≡ mb.height * stride mb
  pub narrow : stride mb < 65536

rows_of-append :
    (w a b : ℕ) (x y : Bytes)
    → length x ≡ a * w
    → rows_of w (a + b) (x ++ y) ≡ rows_of w a x ++ rows_of w b y
unfolding rows_of
rows_of-append w zero b [] y h = let none_left : 0 + b ≡ b = omega arith in rw none_left
rows_of-append w zero b (c ∷ x) y h = absurd (omega arith)
rows_of-append w (suc a) b x y h =
    let next : suc a + b ≡ suc (a + b) = omega arith in
    let room : w ≤ length x = omega arith in
    let left : length (drop w x) ≡ a * w = omega (arith, length-drop w x) in
    rw (next, take-append_le w x y room, drop-append_le w x y room)
      (ap (λ l. row (take w x) ∷ l) (rows_of-append w a b (drop w x) y left))

-- The rows from row `y0` on.
abbrev pub rows_from : MonoBitmap → ℕ → List Mark
rows_from mb y0 = rows_of (stride mb) (mb.height - y0) (drop (y0 * stride mb) mb.bits)

-- The bytes print the rows, and there is no panic.
abbrev pub Prints : Result Bytes → List Mark → Type 0
Prints r ms = (bytes : Bytes) × (r ≡ ok bytes) × Makes bytes ms

module _ (mb : MonoBitmap) (wf : IsBitmap mb) where
  -- One block, with what follows it.
  band_lem :
      (y0 h left : ℕ) (more : Bytes)
      → y0 + h ≤ mb.height
      → h ≤ band_rows
      → Makes more (rows_of (stride mb) left (drop ((y0 + h) * stride mb) mb.bits))
      → Prints
          (do
            rows ← slice mb.bits (y0 * stride mb) ((y0 + h) * stride mb)
            ok (raster_header (stride mb) h ++ (rows ++ more)))
          (rows_of (stride mb) (h + left) (drop (y0 * stride mb) mb.bits))
  unfolding raster_header
  band_lem y0 h left more fits small makes =
      rw (slice_ok mb.bits (y0 * w) ((y0 + h) * w) (omega arith) within) (
        raster_header w h ++ (rows ++ more),
        refl,
        subst (Makes (raster_header w h ++ (rows ++ more))) joined
            (Makes-append (Makes-raster w h rows wf.narrow (omega arith) size) makes),
      )
    where
      w : ℕ
      w = stride mb

      within : (y0 + h) * w ≤ length mb.bits
      within = omega (arith, mul_mono (y0 + h) mb.height w fits, wf.whole)

      rows : Bytes
      rows = take ((y0 + h) * w - y0 * w) (drop (y0 * w) mb.bits)

      size : length rows ≡ w * h
      size = omega (
        arith,
        length-take ((y0 + h) * w - y0 * w) (drop (y0 * w) mb.bits),
        length-drop (y0 * w) mb.bits,
        within,
      )

      rest : drop ((y0 + h) * w - y0 * w) (drop (y0 * w) mb.bits) ≡ drop ((y0 + h) * w) mb.bits
      rest = drop-drop (y0 * w) ((y0 + h) * w - y0 * w) ((y0 + h) * w) mb.bits (omega arith)

      joined :
          rows_of w h rows ++ rows_of w left (drop ((y0 + h) * w) mb.bits)
          ≡ rows_of w (h + left) (drop (y0 * w) mb.bits)
      joined =
          ap (λ t. rows_of w h rows ++ rows_of w left t) (sym rest)
          ∙ sym (rows_of-append w h left rows _ (omega (arith, size)))
          ∙ ap (rows_of w (h + left)) (take-append-drop _ (drop (y0 * w) mb.bits))

  past_end : (y0 : ℕ) → mb.height ≤ y0 → rows_from mb y0 ≡ []
  unfolding rows_of
  past_end y0 h = let none_left : mb.height - y0 ≡ 0 = omega arith in rw none_left

  -- The rows behind a block are the same whether the block was full or the last.
  after_block :
      (y0 h : ℕ)
      → (h ≡ band_rows) ⊎ (mb.height ≤ y0 + band_rows)
      → rows_from mb (y0 + band_rows)
        ≡ rows_of (stride mb) (mb.height - (y0 + band_rows)) (drop ((y0 + h) * stride mb) mb.bits)
  unfolding rows_of
  after_block y0 h (inl full) = rw full
  after_block y0 h (inr last) =
      let none_left : mb.height - (y0 + band_rows) ≡ 0 = omega arith in rw none_left

  block_lem :
      (fuel y0 h : ℕ)
      → y0 + h ≤ mb.height
      → h ≤ band_rows
      → (h ≡ band_rows) × (y0 + band_rows ≤ mb.height)
        ⊎ (h ≡ mb.height - y0) × (mb.height ≤ y0 + band_rows)
      → Prints (write_bands fuel mb (y0 + band_rows)) (rows_from mb (y0 + band_rows))
      → Prints
          (do
            rows ← slice mb.bits (y0 * stride mb) ((y0 + h) * stride mb)
            more ← write_bands fuel mb (y0 + band_rows)
            ok (raster_header (stride mb) h ++ (rows ++ more)))
          (rows_from mb y0)
  block_lem fuel y0 h fits small kind (more, e, makes) =
      rw (e, counted)
        (band_lem y0 h (mb.height - (y0 + band_rows)) more fits small
          (subst (Makes more) (after_block y0 h side) makes))
    where
      counted : mb.height - y0 ≡ h + (mb.height - (y0 + band_rows))
      counted = ground arith

      side : (h ≡ band_rows) ⊎ (mb.height ≤ y0 + band_rows)
      side = ground arith

  write_bands_lem :
      (fuel y0 : ℕ) → mb.height ≤ fuel + y0 → Prints (write_bands fuel mb y0) (rows_from mb y0)
  unfolding write_bands
  write_bands_lem zero y0 enough = ([], refl, rw (past_end y0 (omega arith)) Makes-nil)
  write_bands_lem (suc fuel) y0 enough =
      let rest = write_bands_lem fuel (y0 + band_rows) (omega arith) in
      elim (Bool-cases (ltb y0 mb.height)) [
        | inr done ↦ rw done ([], refl, rw (past_end y0 (ground arith)) Makes-nil)
        | inl going ↦ elim (Bool-cases (ltb mb.height (y0 + band_rows))) [
          | inl last ↦
              rw (going, last)
                (block_lem fuel y0 (mb.height - y0) (ground arith) (ground arith)
                  (inr (refl, ground arith)) rest)
          | inr full ↦
              rw (going, full)
                (block_lem fuel y0 band_rows (ground arith) (omega arith) (inl (refl, ground arith))
                  rest)
        ]
      ]

-- For a well-formed bitmap `writeRaster` does not panic, and what it writes prints the bitmap's rows,
-- every row once, in order and at the bitmap's width.
pub write_raster-Prints :
    (mb : MonoBitmap)
    → IsBitmap mb
    → Prints (write_raster mb) (rows_of (stride mb) mb.height mb.bits)
unfolding write_raster
write_raster-Prints mb wf =
    subst (Prints (write_raster mb)) all_rows (write_bands_lem mb wf mb.height 0 (omega arith))
  where
    all_rows : rows_from mb 0 ≡ rows_of (stride mb) mb.height mb.bits
    all_rows =
        let first : (mb.height - 0 ≡ mb.height) × (0 * stride mb ≡ 0) = omega arith in
        rw (first.0, first.1)
