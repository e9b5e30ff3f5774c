-- ===== src/Binarizer/Dots.antt =====
-- The dots of a row-major bitmap, and what setting one of them does.
use Prim.Native.Nat.{bit_or}
use mathlib.Core.Path.{ap₂}
use tera_agent.Base.{
  mul_mono, ℕ, zero, suc, ◌+◌, ◌*◌, ◌/◌, ◌%◌, ◌<◌, ◌≡◌, inl, inr, refl, ap, ◌∙◌, Bool, false,
  Bool-cases, ◌&&◌, ◌||◌, ◌==◌, ==_iff, ltb, ltb→lt, ◌≢◌, if◌then◌else◌, [], ◌∷◌, length, All,
  arith,
}
use tera_agent.Printing.{Bytes}
use tera_agent.Binarizer.{or_at, mask_of, set_dot}
use tera_agent.Binarizer.Bits.{dot_of, dot_of-bit_or, bit_or-byte}

abbrev pub IsByte : ℕ → Type 0
IsByte b = b < 256

abbrev pub byte_or_zero : Bytes → ℕ → ℕ
byte_or_zero [] i = 0
byte_or_zero (b ∷ bytes) zero = b
byte_or_zero (b ∷ bytes) (suc i) = byte_or_zero bytes i

-- The dot at `x`, `y` of bits with `s` bytes a row.
unfoldable pub dot : ℕ → Bytes → ℕ → ℕ → Bool
dot s bits x y = dot_of (byte_or_zero bits (y * s + x / 8)) (x % 8)

pub length-or_at : (i m : ℕ) (bits : Bytes) → length (or_at i m bits) ≡ length bits
unfolding or_at
length-or_at i m [] = refl
length-or_at zero m (b ∷ bits) = refl
length-or_at (suc i) m (b ∷ bits) = ap suc (length-or_at i m bits)

byte-or_at :
    (i j m : ℕ) (bits : Bytes)
    → i < length bits
    → byte_or_zero (or_at i m bits) j
      ≡ (if i == j then bit_or (byte_or_zero bits j) m else byte_or_zero bits j)
unfolding or_at
byte-or_at i j m [] h = absurd (omega arith)
byte-or_at zero zero m (b ∷ bits) h = refl
byte-or_at zero (suc j) m (b ∷ bits) h = ground arith
byte-or_at (suc i) zero m (b ∷ bits) h = ground arith
byte-or_at (suc i) (suc j) m (b ∷ bits) h = ground (arith, byte-or_at i j m bits)

pub or_at-IsByte :
    (i k : ℕ) (bits : Bytes) → k < 8 → All IsByte bits → All IsByte (or_at i (mask_of k) bits)
unfolding or_at
or_at-IsByte i k [] low h = tt
or_at-IsByte zero k (b ∷ bits) low (byte, h) = (bit_or-byte b k 0 byte low (omega arith), h)
or_at-IsByte (suc i) k (b ∷ bits) low (byte, h) = (byte, or_at-IsByte i k bits low h)

byte-IsByte : (bits : Bytes) (i : ℕ) → All IsByte bits → byte_or_zero bits i < 256
byte-IsByte [] i h = omega arith
byte-IsByte (b ∷ bits) zero (byte, h) = byte
byte-IsByte (b ∷ bits) (suc i) (byte, h) = byte-IsByte bits i h

-- Places in different rows are different.
row_apart : (s y y' a b : ℕ) → a < s → b < s → y * s + a ≡ y' * s + b → y ≡ y'
row_apart s y y' a b p q e = elim (Bool-cases (ltb y y')) [
  | inl less ↦ absurd (omega (arith, mul_mono (suc y) y' s (ltb→lt y y' less)))
  | inr no_less ↦ elim (Bool-cases (ltb y' y)) [
    | inl more ↦ absurd (omega (arith, mul_mono (suc y') y s (ltb→lt y' y more)))
    | inr no_more ↦ ground (arith, no_less, no_more)
  ]
]

module _ (s x y x' y' : ℕ) (bits : Bytes) (inside : x / 8 < s) (inside' : x' / 8 < s)
    (room : y * s + x / 8 < length bits) (bytes : All IsByte bits) where
  abbrev written : ℕ
  written = y * s + x / 8

  abbrev read : ℕ
  read = y' * s + x' / 8

  same_byte :
      written ≡ read
      → dot_of (bit_or (byte_or_zero bits read) (mask_of (x % 8))) (x' % 8)
        ≡ (dot s bits x' y' || (x == x' && y == y'))
  unfolding dot
  same_byte e =
      let rows = row_apart s y y' (x / 8) (x' / 8) inside inside' e in
      let columns : x / 8 ≡ x' / 8 = omega (arith, ap (λ (t : ℕ). t * s) rows) in
      let same_dot : (x % 8 == x' % 8) ≡ (x == x' && y == y') = ground (arith, rows, columns) in
      dot_of-bit_or (byte_or_zero bits read) (x % 8) (x' % 8) (byte-IsByte bits read bytes)
        (omega arith) (omega arith)
      ∙ ap (λ t. dot s bits x' y' || t) same_dot

  other_byte : written ≢ read → (x == x' && y == y') ≡ false
  other_byte h = elim (Bool-cases (x == x')) [
    | inr e ↦ rw e
    | inl e ↦ elim (Bool-cases (y == y')) [
      | inr f ↦ ground (arith, e, f)
      | inl f ↦
          absurd (h (ap₂ (λ (a b : ℕ). a * s + b / 8) ((==_iff y y').0 f) ((==_iff x x').0 e)))
    ]
  ]

  pub dot-set_dot : dot s (set_dot s x y bits) x' y' ≡ (dot s bits x' y' || (x == x' && y == y'))
  unfolding dot set_dot
  dot-set_dot =
      rw (byte-or_at written read (mask_of (x % 8)) bits room)
        (elim (Bool-cases (written == read)) [
          | inl e ↦ rw e (same_byte ((==_iff written read).0 e))
          | inr e ↦ rw e (ground (arith, other_byte (λ f. cc ((==_iff written read).1 f, e))))
        ])
