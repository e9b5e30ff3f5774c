-- ===== src/Gdi/Average.antt =====
-- The sums and averages of the levels of an image that `downscaleGray` computes.
use native.Mathlib.Nat.{le-div_iff_mul-le, div-lt_iff_lt-mul}
use tera_agent.Base.{
  mul_mono, ℕ, zero, suc, ◌+◌, ◌-◌, ◌*◌, ◌/◌, ◌%◌, ◌^◌, ◌≤◌, ◌<◌, ◌≡◌, refl, sym, ap, ◌∙◌, [], ◌∷◌,
  ◌++◌, length, length-drop, take, drop, All, subst, arith,
}
use tera_agent.Failure.{ok, slice, slice_ok, byte_at}
use tera_agent.Printing.{Bytes}
use tera_agent.Gdi.{GrayImage, sum_row, average, sum_rows}

module _ (lo hi : ℕ) (byte : hi < 256) where
  abbrev pub Between : ℕ → Type 0
  Between v = (lo ≤ v) × (v ≤ hi)

  -- The sum of `k` levels, and their number.
  pub record IsSum (k : ℕ) (acc : ℕ × ℕ) : Type 0 where
    counted : acc.1 ≡ k
    least : lo * k ≤ acc.0
    most : acc.0 ≤ hi * k

  pub no_levels : IsSum 0 (0, 0)
  no_levels = record { counted = refl; least = omega arith; most = omega arith }

  byte_at-Between :
      (row : Bytes) (i : ℕ)
      → i < length row
      → All Between row
      → (v : ℕ) × (byte_at row i ≡ ok v) × Between v
  byte_at-Between [] i h all = absurd (omega arith)
  byte_at-Between (b ∷ row) zero h (b_between, all) = (b, refl, b_between)
  byte_at-Between (b ∷ row) (suc i) h (b_between, all) = byte_at-Between row i (omega arith) all

  adds :
      (k : ℕ) (acc : ℕ × ℕ) (v : ℕ)
      → (k + 1) * 255 < 2 ^ 32
      → Between v
      → IsSum k acc
      → IsSum (k + 1) ((acc.0 + v) % 2 ^ 32, (acc.1 + 1) % 2 ^ 32)
  adds k (sum, count) v small (low, high) s =
      let bound : sum + v ≤ hi * (k + 1) = grind (arith, s.most) in
      let below : hi * (k + 1) ≤ 255 * (k + 1) = mul_mono hi 255 (k + 1) (omega arith) in
      let kept : (sum + v) % 2 ^ 32 ≡ sum + v = omega arith in
      record {
        counted = omega (arith, s.counted);
        least = subst (λ t. lo * (k + 1) ≤ t) (sym kept) (grind (arith, s.least));
        most = subst (λ t. t ≤ hi * (k + 1)) (sym kept) bound;
      }

  sum_row-IsSum :
      (row : Bytes) (n xx k : ℕ) (acc : ℕ × ℕ)
      → xx + n ≤ length row
      → All Between row
      → (k + n) * 255 < 2 ^ 32
      → IsSum k acc
      → (total : ℕ × ℕ) × (sum_row row n xx acc ≡ ok total) × IsSum (k + n) total
  unfolding sum_row
  sum_row-IsSum row zero xx k acc room all small s =
      (acc, refl, subst (λ t. IsSum t acc) (omega arith) s)
  sum_row-IsSum row (suc n) xx k (sum, count) room all small s =
      let (v, e, between) = byte_at-Between row xx (omega arith) all in
      let (total, f, t) =
        sum_row-IsSum row n (xx + 1) (k + 1) ((sum + v) % 2 ^ 32, (count + 1) % 2 ^ 32)
          (omega arith) all (omega arith) (adds k (sum, count) v (omega arith) between s) in
      (total, rw e f, subst (λ j. IsSum j total) (omega arith) t)

  -- The average of a nonempty sum.
  pub average-Between :
      (k : ℕ) (acc : ℕ × ℕ)
      → 0 < k
      → IsSum k acc
      → (level : ℕ) × (average acc ≡ ok level) × Between level
  average-Between k (sum, count) some s =
      let positive : 0 < count = omega (arith, s.counted) in
      let low : lo ≤ sum / count =
        (le-div_iff_mul-le positive).1 (subst (λ t. lo * t ≤ sum) (sym s.counted) s.least) in
      let high : sum / count < hi + 1 = (div-lt_iff_lt-mul positive).1 (
        let most : sum ≤ hi * count = subst (λ t. sum ≤ hi * t) (sym s.counted) s.most in
        grind arith) in
      (sum / count % 256, ground arith, (omega arith, omega arith))

  All-drop : (n : ℕ) (row : Bytes) → All Between row → All Between (drop n row)
  All-drop zero row all = all
  All-drop (suc n) [] all = tt
  All-drop (suc n) (b ∷ row) (_, all) = All-drop n row all

  pub All-append : (xs ys : Bytes) → All Between xs → All Between ys → All Between (xs ++ ys)
  All-append [] ys _ h = h
  All-append (x ∷ xs) ys (p, all) h = (p, All-append xs ys all h)

  take-all : (n : ℕ) (xs : Bytes) → length xs ≤ n → take n xs ≡ xs
  take-all zero [] h = refl
  take-all zero (x ∷ xs) h = absurd (omega arith)
  take-all (suc n) [] h = refl
  take-all (suc n) (x ∷ xs) h = ap (λ t. x ∷ t) (take-all n xs (omega arith))

  slice-tail :
      (xs : Bytes) (off : ℕ) → off ≤ length xs → slice xs off (length xs) ≡ ok (drop off xs)
  slice-tail xs off h =
      slice_ok xs off (length xs) h (omega arith)
      ∙ ap ok (take-all (length xs - off) (drop off xs) (omega (arith, length-drop off xs)))

  -- An image whose bounds begin at the origin, with all its rows, and no more levels than their sum
  -- can hold.
  pub record IsImage (src : GrayImage) : Type 0 where
    pub at_left : src.min_x ≡ 0
    pub at_top : src.min_y ≡ 0
    pub wide : src.width ≤ src.stride
    pub whole : src.height * src.stride ≤ length src.pix
    pub levels : All Between src.pix
    pub small : src.width * src.height * 255 < 2 ^ 32

  module _ (src : GrayImage) (image : IsImage src) where
    abbrev offset : ℕ → ℕ
    offset yy = (src.min_y + yy) * src.stride + src.min_x

    offset_room : (yy : ℕ) → yy < src.height → offset yy + src.width ≤ length src.pix
    offset_room yy h =
        let start : offset yy ≡ yy * src.stride =
          rw image.at_left (rw image.at_top (grind arith)) in
        omega (arith, start, mul_mono (suc yy) src.height src.stride h, image.wide, image.whole)

    module _ (x0 columns : ℕ) (within : x0 + columns ≤ src.width) where
      pub sum_rows-IsSum :
          (n yy k : ℕ) (acc : ℕ × ℕ)
          → yy + n ≤ src.height
          → (k + columns * n) * 255 < 2 ^ 32
          → IsSum k acc
          → (total : ℕ × ℕ) × (sum_rows src x0 columns n yy acc ≡ ok total)
            × IsSum (k + columns * n) total
      unfolding sum_rows
      sum_rows-IsSum zero yy k acc room small s =
          (acc, refl, subst (λ t. IsSum t acc) (omega arith) s)
      sum_rows-IsSum (suc n) yy k acc room small s =
          let fits = offset_room yy (omega arith) in
          let more : k + columns * suc n ≡ (k + columns) + columns * n = grind arith in
          let (next, e, t) =
            sum_row-IsSum (drop (offset yy) src.pix) columns x0 k acc
              (omega (arith, fits, within, length-drop (offset yy) src.pix))
              (All-drop (offset yy) src.pix image.levels) (omega (arith, more, small)) s in
          let (total, f, u) =
            sum_rows-IsSum n (yy + 1) (k + columns) next (omega arith) (omega (arith, more, small))
              t in
          (
            total,
            rw (slice-tail src.pix (offset yy) (omega (arith, fits))) (rw e f),
            subst (λ j. IsSum j total) (sym more) u,
          )
