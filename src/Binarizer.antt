-- ===== src/Binarizer.antt =====
-- internal/adapters/printing/binarizer/binarizer.go and threshold.go: a gray image becomes a bitmap of
-- one bit a dot. `Gray` stands for `image.Gray`: its size, and its level at a position counted from the
-- corner of its bounds. The gray of a color is Go's, and a parameter.
pub mod Bits
pub mod Dots
pub mod Pack
mod Tests
use Prim.Native.Nat.{bit_or}
use tera_agent.Base.{
  ℕ, zero, suc, ◌+◌, ◌*◌, ◌/◌, ◌%◌, ◌^◌, Bool, List, [], ◌∷◌, ltb, if◌then◌else◌, replicate,
}
use tera_agent.Printing.{Bytes, MonoBitmap}

pub record Gray : Type 0 where
  pub width : ℕ
  pub height : ℕ
  pub level : ℕ → ℕ → ℕ

-- `bits[i] |= mask`. A write out of range, which panics in the source, changes nothing here: it would
-- leave its dot white.
pub or_at : ℕ → ℕ → Bytes → Bytes
or_at i mask [] = []
or_at zero mask (b ∷ bytes) = bit_or b mask ∷ bytes
or_at (suc i) mask (b ∷ bytes) = b ∷ or_at i mask bytes

-- `0x80 >> (x % 8)`
abbrev pub mask_of : ℕ → ℕ
mask_of k = 0x80 / 2 ^ k

pub set_dot : ℕ → ℕ → ℕ → Bytes → Bytes
unfolding or_at
set_dot stride x y bits = or_at (y * stride + x / 8) (mask_of (x % 8)) bits

module _ (g : Gray) (black : ℕ → Bool) where
  abbrev pub row_bytes : ℕ
  row_bytes = (g.width + 7) / 8

  -- The loop over the dots of row `y`, of which `n` are left from `x` on.
  pub pack_row : ℕ → ℕ → ℕ → Bytes → Bytes
  pack_row y zero x bits = bits
  pack_row y (suc n) x bits =
      pack_row y n (x + 1) (if black (g.level x y) then set_dot row_bytes x y bits else bits)

  -- The loop over the rows, of which `n` are left from `y` on.
  pub pack_rows : ℕ → ℕ → Bytes → Bytes
  unfolding pack_row
  pack_rows zero y bits = bits
  pack_rows (suc n) y bits = pack_rows n (y + 1) (pack_row y g.width 0 bits)

  unfoldable pub pack : MonoBitmap
  unfolding pack_rows
  pack = record {
    width = g.width;
    height = g.height;
    bits = pack_rows g.height 0 (replicate (row_bytes * g.height) 0);
  }

-- `image.Image`: a gray one, or one of other colors, with its size and the color at a position.
pub data Image (Color : Type 0) : Type 0 where
  gray : Gray → Image Color
  colored : ℕ → ℕ → (ℕ → ℕ → Color) → Image Color

-- `toGray`; `convert` is `color.GrayModel`.
unfoldable pub to_gray : {Color : Type 0} → (Color → ℕ) → Image Color → Gray
to_gray convert (gray g) = g
to_gray convert (colored width height at) = record {
  width = width;
  height = height;
  level = λ x y. convert (at x y);
}

-- `Threshold.Binarize`.
unfoldable pub binarize : {Color : Type 0} → (Color → ℕ) → ℕ → Image Color → MonoBitmap
unfolding to_gray
binarize convert threshold image = pack (to_gray convert image) (λ v. ltb v threshold)
