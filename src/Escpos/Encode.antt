-- ===== src/Escpos/Encode.antt =====
-- What a printer makes of the bytes of a whole job.
use tera_agent.Base.{
  mul_mono, ℕ, ◌+◌, ◌-◌, ◌*◌, ◌/◌, ◌≤◌, ◌≡◌, refl, ap, sym, ◌∙◌, Bool, true, false, Bool-cases, inl,
  inr, some, List, [], ◌∷◌, ◌++◌, map, append_assoc, All, ◌==◌, if◌then◌else◌, length, take, drop,
  take-append-drop, take-add, arith,
}
use tera_agent.Base.Int.{ℤ, pos_part}
use tera_agent.Failure.{ok}
use tera_agent.Printing.{Bytes, raster_artifact, text_artifact, EncodeOptions, MonoBitmap, stride}
use tera_agent.Escpos.{
  cmd_init, resolve_top_margin, is_blank, when, ending, write_raster, page_bitmap, encode_pages,
  encode_raster, encode_text,
}
use tera_agent.Escpos.Printer.{
  Mark, reset, cut, kick, glyph, line_feed, rows_of, interpret, Emits-whole, Makes, Makes-nil,
  Makes-append, Makes-init, Makes-cut, Makes-drawer, Makes-glyph, Makes-line_feed,
}
use tera_agent.Escpos.Feed.{Feeds, dots_for, escj_feed-MakesFeed}
use tera_agent.Escpos.Bands.{IsBitmap, Prints, write_raster-Prints}
use tera_agent.Escpos.Trim.{
  is_blank-append, kept_size, trim_trailing_blank_lem, trim_leading_blank_to_lem,
}

-- The printer makes the marks of these bytes, and no others.
abbrev pub Renders : Bytes → List Mark → Type 0
Renders bytes ms = (fuel : ℕ) × (interpret fuel bytes ≡ some ms)

Makes-Renders : {bytes : Bytes} {ms : List Mark} → Makes bytes ms → Renders bytes ms
Makes-Renders {bytes} {ms} m = (m.commands + 1, Emits-whole m.commands bytes ms m.emits)

abbrev mark_if : Bool → List Mark → List Mark
mark_if true ms = ms
mark_if false ms = []

-- The drawer kick and the cut that the options ask for, with the feed that is configured before the cut.
abbrev pub EndMarks : EncodeOptions → List Mark → Type 0
EndMarks opts ms =
    (feeds : List Mark) × Feeds feeds (dots_for opts.cut_feed_dots)
    × (ms ≡ mark_if opts.open_drawer (kick ∷ []) ++ mark_if opts.cut (feeds ++ cut ∷ []))

when-Makes :
    (b : Bool) {bytes : Bytes} {ms : List Mark}
    → Makes bytes ms
    → Makes (when b bytes) (mark_if b ms)
when-Makes true m = m
when-Makes false m = Makes-nil

ending-EndMarks :
    (opts : EncodeOptions) → (ms : List Mark) × Makes (ending opts) ms × EndMarks opts ms
unfolding ending
ending-EndMarks opts =
    let (feeds, makes, total) = escj_feed-MakesFeed opts.cut_feed_dots in
    (
      mark_if opts.open_drawer (kick ∷ []) ++ mark_if opts.cut (feeds ++ cut ∷ []),
      Makes-append (when-Makes opts.open_drawer Makes-drawer)
          (when-Makes opts.cut (Makes-append makes Makes-cut)),
      (feeds, total, refl),
    )

-- The rows of a bitmap without blank rows above and below them, above only on the first page: the bits
-- are three parts of whole rows, of which the outer ones are blank, and the middle one is printed.
abbrev pub PageRows : Bool → MonoBitmap → List Mark → Type 0
PageRows first mb ms =
    (top : Bytes) × (kept : Bytes) × (bottom : Bytes) × (t : ℕ) × (h : ℕ) × (b : ℕ) × (mb.bits
      ≡ top ++ (kept ++ bottom))
    × (is_blank top ≡ true)
    × (is_blank bottom ≡ true)
    × (first ≡ false → top ≡ [])
    × (length top ≡ t * stride mb)
    × (length kept ≡ h * stride mb)
    × (length bottom ≡ b * stride mb)
    × (mb.height ≡ t + h + b)
    × (ms ≡ rows_of (stride mb) h kept)

same_stride : (a b : MonoBitmap) → a.width ≡ b.width → stride a ≡ stride b
unfolding stride
same_stride a b e = ap (λ (n : ℕ). (n + 7) / 8) e

-- A part of a blank top is blank.
white_top :
    (bits : Bytes) (n g w : ℕ)
    → g ≤ n
    → is_blank (take (n * w) bits) ≡ true
    → is_blank (take (g * w) bits) ≡ true
white_top bits n g w le white = ground (arith, parts, is_blank-append front back)
  where
    front : Bytes
    front = take (g * w) bits

    back : Bytes
    back = take (n * w - g * w) (drop (g * w) bits)

    parts : is_blank (front ++ back) ≡ true
    parts =
        rw (← take-add (g * w) (n * w - g * w) (n * w) bits (omega (arith, mul_mono g n w le)))
          white

module _ {Image : Type 0} (binarize : Image → MonoBitmap) where
  page_bitmap_lem :
      (first : Bool) (keep : ℤ) (page : Image)
      → IsBitmap (binarize page)
      → (out : MonoBitmap) × (page_bitmap binarize first keep page ≡ ok out)
        × IsBitmap out
        × PageRows first (binarize page) (rows_of (stride out) out.height out.bits)
  unfolding page_bitmap is_blank
  page_bitmap_lem false keep page wf =
      let (out, gone, e, wf', wide, bits, blank, low, size, _) =
        trim_trailing_blank_lem (binarize page) wf in
      let same = same_stride out (binarize page) wide in
      (
        out,
        rw e refl,
        wf',
        (
          [],
          out.bits,
          gone,
          0,
          out.height,
          (binarize page).height - out.height,
          bits,
          refl,
          blank,
          (λ _. refl),
          omega arith,
          rw (← same) wf'.whole,
          size,
          omega (arith, low),
          ap (λ w. rows_of w out.height out.bits) same,
        ),
      )
  page_bitmap_lem true keep page wf =
      let (mid, gone, e, wf', wide, bits, blank, low, size, _) =
        trim_trailing_blank_lem (binarize page) wf in
      let (n, out, (white, _), few, e', wf'', wide', high, rest) =
        trim_leading_blank_to_lem mid keep wf' in
      let g = n - pos_part keep in
      let same = same_stride out (binarize page) (wide' ∙ wide) in
      let top = take (g * stride mid) mid.bits in
      (
        out,
        rw e e',
        wf'',
        (
          top,
          out.bits,
          gone,
          g,
          out.height,
          (binarize page).height - mid.height,
          bits
              ∙ ap (λ t. t ++ gone) (sym (take-append-drop (g * stride mid) mid.bits))
              ∙ append_assoc top _ gone
              ∙ ap (λ t. top ++ (t ++ gone)) (sym rest),
          white_top mid.bits n g (stride mid) (omega arith) white,
          blank,
          (λ f. cc),
          kept_size mid wf' g (omega (arith, few))
              ∙ ap (λ w. g * w) (same_stride mid (binarize page) wide),
          rw (← same) wf''.whole,
          size,
          omega (arith, low, few, high),
          ap (λ w. rows_of w out.height out.bits) same,
        ),
      )

  -- The rows of every page, in order.
  abbrev pub PagesRows : Bool → List Image → List Mark → Type 0
  PagesRows first [] ms = ms ≡ []
  PagesRows first (page ∷ pages) ms =
      (here : List Mark) × (later : List Mark) × (ms ≡ here ++ later)
      × PageRows first (binarize page) here
      × PagesRows false pages later

  abbrev pub AllBitmaps : List Image → Type 0
  AllBitmaps pages = All (λ page. IsBitmap (binarize page)) pages

  bitmap-Prints :
      (mb : MonoBitmap)
      → IsBitmap mb
      → Prints
          (if mb.height == 0 then ok [] else write_raster mb)
          (rows_of (stride mb) mb.height mb.bits)
  unfolding rows_of
  bitmap-Prints mb wf = elim (Bool-cases (mb.height == 0)) [
    | inr some_rows ↦ rw some_rows (write_raster-Prints mb wf)
    | inl empty ↦
        let no_rows : mb.height ≡ 0 = ground arith in rw (empty, no_rows) ([], refl, Makes-nil)
  ]

  encode_pages_lem :
      (first : Bool) (keep : ℤ) (pages : List Image)
      → AllBitmaps pages
      → (bytes : Bytes) × (ms : List Mark) × (encode_pages binarize first keep pages ≡ ok bytes)
        × Makes bytes ms
        × PagesRows first pages ms
  unfolding encode_pages
  encode_pages_lem first keep [] wf = ([], [], refl, Makes-nil, refl)
  encode_pages_lem first keep (page ∷ pages) (wf, wfs) =
      let (mb, e, wf', rows) = page_bitmap_lem first keep page wf in
      let (here, e', makes) = bitmap-Prints mb wf' in
      let (later, ms, e'', makes', rows') = encode_pages_lem false keep pages wfs in
      (
        here ++ later,
        _ ++ ms,
        rw e (rw e' (rw e'')),
        Makes-append makes makes',
        (_, ms, refl, rows, rows'),
      )

  -- For pages whose bitmaps are well-formed the raster encoder does not panic, and a printer that is
  -- sent its bytes is reset, prints the rows of every page in order, whole and at their width, but
  -- for blank rows at the end of a page and at the top of the first, and then kicks the drawer and
  -- feeds and cuts as the options ask for.
  pub encode_raster_prints :
      (pages : List Image) (width : ℤ) (opts : EncodeOptions)
      → AllBitmaps pages
      → (bytes : Bytes) × (rows : List Mark) × (end : List Mark) × (encode_raster binarize
            (raster_artifact pages width)
            opts
          ≡ ok bytes)
        × Renders bytes (reset ∷ (rows ++ end))
        × PagesRows true pages rows
        × EndMarks opts end
  unfolding encode_raster
  encode_raster_prints pages width opts wf =
      let (bytes, rows, e, makes, printed) =
        encode_pages_lem true (resolve_top_margin opts.top_margin_dots) pages wf in
      let (end, makes', ends) = ending-EndMarks opts in
      (
        cmd_init ++ (bytes ++ ending opts),
        rows,
        end,
        rw e,
        Makes-Renders (Makes-append Makes-init (Makes-append makes makes')),
        printed,
        ends,
      )

-- The glyphs of a body, with the line feed that ends it if it is not empty.
abbrev pub text_marks : Bytes → List Mark
text_marks [] = []
text_marks (b ∷ bs) = map glyph (b ∷ bs) ++ line_feed ∷ []

glyphs-Makes : (body : Bytes) → All (λ b. 0x20 ≤ b) body → Makes body (map glyph body)
glyphs-Makes [] h = Makes-nil
glyphs-Makes (b ∷ bs) (h, hs) = Makes-append (Makes-glyph b h) (glyphs-Makes bs hs)

-- For a body of printable bytes the text encoder's bytes make a printer reset, print the body and end
-- the line, or neither for an empty body, and then kick the drawer and feed and cut as the options
-- ask for.
pub encode_text_prints :
    (Image : Type 0) (body : Bytes) (opts : EncodeOptions)
    → All (λ b. 0x20 ≤ b) body
    → (bytes : Bytes) × (end : List Mark) × (encode_text {Image = Image} (text_artifact body) opts
        ≡ ok bytes)
      × Renders bytes (reset ∷ (text_marks body ++ end))
      × EndMarks opts end
unfolding encode_text
encode_text_prints Image [] opts h =
    let (end, makes, ends) = ending-EndMarks opts in
    (cmd_init ++ ending opts, end, refl, Makes-Renders (Makes-append Makes-init makes), ends)
encode_text_prints Image (b ∷ bs) opts h =
    let (end, makes, ends) = ending-EndMarks opts in
    let line = Makes-append (glyphs-Makes (b ∷ bs) h) Makes-line_feed in
    (
      cmd_init ++ (((b ∷ bs) ++ 10 ∷ []) ++ ending opts),
      end,
      refl,
      Makes-Renders (Makes-append Makes-init (Makes-append line makes)),
      ends,
    )
