-- ===== src/Escpos/Trim.antt =====
-- Which rows of a bitmap the encoder leaves out.
use tera_agent.Base.{
  mul_mono, ℕ, zero, suc, ◌+◌, ◌-◌, ◌*◌, ◌≤◌, ◌<◌, ◌≡◌, ◌⊎◌, refl, ap, sym, true, false, ◌&&◌,
  Bool-cases, inl, inr, [], ◌∷◌, ◌++◌, leb, ◌==◌, if◌then◌else◌, length, take, drop, length-take,
  length-drop, take-append-drop, take-add, take_all, drop-drop, drop_all, arith,
}
use tera_agent.Base.Int.{ℤ, pos, ltb_ℤ, pos_part}
use tera_agent.Failure.{ok, ◌>>=◌, slice, slice_ok}
use tera_agent.Printing.{Bytes, MonoBitmap, stride}
use tera_agent.Escpos.{
  is_blank, blank_rows, trim_leading_blank_to, inked_height, trim_trailing_blank,
}
use tera_agent.Escpos.Bands.{IsBitmap}

pub is_blank-append : (a b : Bytes) → is_blank (a ++ b) ≡ (is_blank a && is_blank b)
unfolding is_blank
is_blank-append [] b = refl
is_blank-append (c ∷ a) b = ground (arith, is_blank-append a b)

-- The row `i` of a bitmap.
abbrev pub row_at : MonoBitmap → ℕ → Bytes
row_at mb i = take (stride mb) (drop (i * stride mb) mb.bits)

-- What is known of the height that `trimTrailingBlank` finds.
abbrev pub Inked : MonoBitmap → ℕ → Type 0
Inked mb r =
    (is_blank (drop (r * stride mb) mb.bits) ≡ true)
    × ((r ≡ 0) ⊎ (is_blank (row_at mb (r - 1)) ≡ false))

-- What is known of the number of blank rows that `trimLeadingBlankTo` counts.
abbrev pub Blank : MonoBitmap → ℕ → Type 0
Blank mb n =
    (is_blank (take (n * stride mb) mb.bits) ≡ true)
    × ((n ≡ mb.height) ⊎ (is_blank (row_at mb n) ≡ false))

module _ (mb : MonoBitmap) (wf : IsBitmap mb) where
  -- The slice of one row does not panic.
  row_slice :
      (i j : ℕ)
      → j ≡ i + 1
      → i < mb.height
      → slice mb.bits (i * stride mb) (j * stride mb) ≡ ok (row_at mb i)
  row_slice i j e h =
      rw
        (slice_ok mb.bits (i * stride mb) (j * stride mb) (omega (arith, size))
          (omega (arith, size, wf.whole, mul_mono j mb.height (stride mb) (omega arith))))
        (ap (λ n. ok (take n (drop (i * stride mb) mb.bits))) (omega (arith, size)))
    where
      size : j * stride mb ≡ i * stride mb + stride mb
      size = rw e (omega arith)

  blank_below :
      (h : ℕ)
      → is_blank (row_at mb h) ≡ true
      → is_blank (drop (suc h * stride mb) mb.bits) ≡ true
      → is_blank (drop (h * stride mb) mb.bits) ≡ true
  blank_below h here below = rw (← take-append-drop (stride mb) (drop (h * stride mb) mb.bits)) (
      rw
        (
          is_blank-append,
          here,
          drop-drop (h * stride mb) (stride mb) (suc h * stride mb) mb.bits (omega arith),
        )
        below)

  inked_height_lem :
      (h : ℕ)
      → h ≤ mb.height
      → is_blank (drop (h * stride mb) mb.bits) ≡ true
      → (r : ℕ) × (inked_height mb h ≡ ok r) × (r ≤ h) × Inked mb r
  unfolding inked_height
  inked_height_lem zero fits blank = (0, refl, omega arith, (blank, inl refl))
  inked_height_lem (suc h) fits blank = elim (Bool-cases (is_blank (row_at mb h))) [
    | inl white ↦
        let (r, e, le, inked) = inked_height_lem h (omega arith) (blank_below h white blank) in
        (r, rw (row_slice h (suc h) (omega arith) fits) (rw white e), omega arith, inked)
    | inr ink ↦ (
      suc h,
      rw (row_slice h (suc h) (omega arith) fits) (rw ink refl),
      omega arith,
      (blank, inr (let last : suc h - 1 ≡ h = omega arith in rw last ink)),
    )
  ]

  blank_above :
      (n : ℕ)
      → is_blank (take (n * stride mb) mb.bits) ≡ true
      → is_blank (row_at mb n) ≡ true
      → is_blank (take ((n + 1) * stride mb) mb.bits) ≡ true
  blank_above n above here =
      rw (take-add (n * stride mb) (stride mb) ((n + 1) * stride mb) mb.bits (omega arith))
        (rw (is_blank-append, above) here)

  blank_rows_lem :
      (left n : ℕ)
      → n + left ≡ mb.height
      → is_blank (take (n * stride mb) mb.bits) ≡ true
      → (r : ℕ) × (blank_rows mb left n ≡ ok r) × (r ≤ mb.height) × Blank mb r
  unfolding blank_rows
  blank_rows_lem zero n sum blank = (n, refl, omega arith, (blank, inl (omega arith)))
  blank_rows_lem (suc left) n sum blank = elim (Bool-cases (is_blank (row_at mb n))) [
    | inl white ↦
        let (r, e, le, facts) =
          blank_rows_lem left (n + 1) (omega arith) (blank_above n blank white) in
        (r, rw (row_slice n (n + 1) refl (omega arith)) (rw white e), le, facts)
    | inr ink ↦ (
      n,
      rw (row_slice n (n + 1) refl (omega arith)) (rw ink refl),
      omega arith,
      (blank, inr ink),
    )
  ]

module _ (mb : MonoBitmap) (wf : IsBitmap mb) (h : ℕ) (le : h ≤ mb.height) where
  within : h * stride mb ≤ length mb.bits
  within = omega (arith, wf.whole, mul_mono h mb.height (stride mb) le)

  pub kept_size : length (take (h * stride mb) mb.bits) ≡ h * stride mb
  kept_size = omega (arith, length-take (h * stride mb) mb.bits, within)

  kept_rows :
      (if h == mb.height then ok mb else (do
        rest ← slice mb.bits 0 (h * stride mb)
        ok (record mb { height = h; bits = rest })))
      ≡ ok (record mb { height = h; bits = take (h * stride mb) mb.bits })
  kept_rows = elim (Bool-cases (h == mb.height)) [
    | inl all_left ↦
        let same : h ≡ mb.height = ground arith in
        let full : take (h * stride mb) mb.bits ≡ mb.bits =
          take_all (h * stride mb) mb.bits (rw same (omega (arith, wf.whole))) in
        rw (all_left, full) (ground arith)
    | inr some_gone ↦
        let from : h * stride mb - 0 ≡ h * stride mb = omega arith in
        rw (some_gone, slice_ok mb.bits 0 (h * stride mb) (omega arith) within) (rw from)
  ]

  left_size : length (drop (h * stride mb) mb.bits) ≡ (mb.height - h) * stride mb
  left_size = omega (arith, length-drop (h * stride mb) mb.bits, wf.whole, split)
    where
      split : (mb.height - h) * stride mb + h * stride mb ≡ mb.height * stride mb
      split = grind arith

-- For a well-formed bitmap `trimTrailingBlank` does not panic. What it returns is well-formed and as
-- wide, what it leaves out at the end are blank rows, and its last row, if it has one, is not.
pub trim_trailing_blank_lem :
    (mb : MonoBitmap)
    → IsBitmap mb
    → (out : MonoBitmap) × (gone : Bytes) × (trim_trailing_blank mb ≡ ok out)
      × IsBitmap out
      × (out.width ≡ mb.width)
      × (mb.bits ≡ out.bits ++ gone)
      × (is_blank gone ≡ true)
      × (out.height ≤ mb.height)
      × (length gone ≡ (mb.height - out.height) * stride mb)
      × ((out.height ≡ 0) ⊎ (is_blank (row_at mb (out.height - 1)) ≡ false))
unfolding trim_trailing_blank stride is_blank
trim_trailing_blank_lem mb wf =
    let (h, e, le, (blank, ink)) =
      inked_height_lem mb wf mb.height (omega arith)
        (rw (drop_all (mb.height * stride mb) mb.bits (omega (arith, wf.whole))) refl) in
    let kept = take (h * stride mb) mb.bits in
    (
      record mb { height = h; bits = kept },
      drop (h * stride mb) mb.bits,
      rw e (kept_rows mb wf h le),
      record { whole = kept_size mb wf h le; narrow = wf.narrow },
      refl,
      sym (take-append-drop (h * stride mb) mb.bits),
      blank,
      le,
      left_size mb wf h le,
      ink,
    )

no_rows : (mb : MonoBitmap) → is_blank (take (0 * stride mb) mb.bits) ≡ true
unfolding is_blank
no_rows mb = let nothing : 0 * stride mb ≡ 0 = omega arith in rw nothing

kept_sign : (keep : ℤ) → (if ltb_ℤ keep (pos 0) then 0 else pos_part keep) ≡ pos_part keep
kept_sign keep = ground arith

module _ (mb : MonoBitmap) (wf : IsBitmap mb) (n k : ℕ) (le : n ≤ mb.height) where
  kept_tail :
      (if leb n k then ok mb else (do
        rest ← slice mb.bits ((n - k) * stride mb) (length mb.bits)
        ok (record mb { height = mb.height - (n - k); bits = rest })))
      ≡ ok (record mb { height = mb.height - (n - k); bits = drop ((n - k) * stride mb) mb.bits })
  kept_tail = elim (Bool-cases (leb n k)) [
    | inl few ↦
        let none_gone : n - k ≡ 0 = ground arith in
        let no_bytes : 0 * stride mb ≡ 0 = omega arith in
        rw (few, none_gone, no_bytes) (ground arith)
    | inr many ↦
        rw (many, slice_ok mb.bits ((n - k) * stride mb) (length mb.bits) fits (omega arith))
          (rw tail_all)
  ]
    where
      fits : (n - k) * stride mb ≤ length mb.bits
      fits = omega (arith, wf.whole, mul_mono (n - k) mb.height (stride mb) (omega arith))

      tail_all :
          take (length mb.bits - (n - k) * stride mb) (drop ((n - k) * stride mb) mb.bits)
          ≡ drop ((n - k) * stride mb) mb.bits
      tail_all = take_all _ _ (omega (arith, length-drop ((n - k) * stride mb) mb.bits))

-- For a well-formed bitmap `trimLeadingBlankTo` does not panic. It counts the blank rows at the top,
-- and what it returns is well-formed, as wide, and the bitmap less as many of them as there are over
-- the number to keep (a negative number counts as 0).
pub trim_leading_blank_to_lem :
    (mb : MonoBitmap) (keep : ℤ)
    → IsBitmap mb
    → (n : ℕ) × (out : MonoBitmap) × Blank mb n
      × (n ≤ mb.height)
      × (trim_leading_blank_to mb keep ≡ ok out)
      × IsBitmap out
      × (out.width ≡ mb.width)
      × (out.height ≡ mb.height - (n - pos_part keep))
      × (out.bits ≡ drop ((n - pos_part keep) * stride mb) mb.bits)
unfolding trim_leading_blank_to stride is_blank
trim_leading_blank_to_lem mb keep wf =
    let (n, e, le, blank) = blank_rows_lem mb wf mb.height 0 (omega arith) (no_rows mb) in
    let gone = n - pos_part keep in
    (
      n,
      record mb { height = mb.height - gone; bits = drop (gone * stride mb) mb.bits },
      blank,
      le,
      rw (e, kept_sign keep) (kept_tail mb wf n (pos_part keep) le),
      record { whole = left_size mb wf gone (omega arith); narrow = wf.narrow },
      refl,
      refl,
      refl,
    )
