-- ===== src/Binarizer/Pack.antt =====
-- The packed bitmap has exactly the black dots of the image.
use tera_agent.Base.{
  mul_mono, ℕ, zero, suc, ◌+◌, ◌*◌, ◌/◌, ◌%◌, ◌<◌, ◌≡◌, inl, inr, refl, sym, ap, ◌∙◌, Bool, false,
  Bool-cases, ◌&&◌, ◌||◌, ◌==◌, ==_iff, leb, ltb, if◌then◌else◌, length, length-replicate,
  replicate, All, arith,
}
use tera_agent.Printing.{Bytes, stride}
use tera_agent.Binarizer.{Gray, mask_of, set_dot, row_bytes, pack_row, pack_rows, pack}
use tera_agent.Binarizer.Dots.{IsByte, byte_or_zero, dot, length-or_at, or_at-IsByte, dot-set_dot}

module _ (g : Gray) (black : ℕ → Bool) where
  abbrev bytes_a_row : ℕ
  bytes_a_row = row_bytes g black

  -- Room for every dot of the image, in bytes.
  record IsRoom (bits : Bytes) : Type 0 where
    sized : length bits ≡ bytes_a_row * g.height
    bytes : All IsByte bits

  module _ (y : ℕ) (row : y < g.height) where
    abbrev marked : ℕ → Bytes → Bytes
    marked x bits = if black (g.level x y) then set_dot bytes_a_row x y bits else bits

    room_at :
        (x : ℕ) (bits : Bytes) → x < g.width → IsRoom bits → y * bytes_a_row + x / 8 < length bits
    room_at x bits h r = omega (arith, mul_mono (suc y) g.height bytes_a_row row, r.sized)

    marked-IsRoom : (x : ℕ) (bits : Bytes) → IsRoom bits → IsRoom (marked x bits)
    unfolding set_dot
    marked-IsRoom x bits r = elim (Bool-cases (black (g.level x y))) [
      | inr e ↦ rw e r
      | inl e ↦ rw e (record {
        sized = length-or_at (y * bytes_a_row + x / 8) (mask_of (x % 8)) bits ∙ r.sized;
        bytes = or_at-IsByte (y * bytes_a_row + x / 8) (x % 8) bits (omega arith) r.bytes;
      })
    ]

    dot-marked :
        (x x' y' : ℕ) (bits : Bytes)
        → x < g.width
        → x' < g.width
        → IsRoom bits
        → dot bytes_a_row (marked x bits) x' y'
          ≡ (dot bytes_a_row bits x' y' || ((x == x' && y == y') && black (g.level x y)))
    dot-marked x x' y' bits h h' r = elim (Bool-cases (black (g.level x y))) [
      | inr e ↦ rw e (ground arith)
      | inl e ↦ rw e (
          dot-set_dot bytes_a_row x y x' y' bits (omega arith) (omega arith) (room_at x bits h r)
            r.bytes
          ∙ ground arith)
    ]

    -- What the loop over a row adds at `x'`, `y'`, with `n` dots left from `x` on.
    abbrev added : ℕ → ℕ → ℕ → ℕ → Bool
    added x n x' y' = (y == y') && (leb x x' && ltb x' (x + n)) && black (g.level x' y)

    added-step :
        (x n x' y' : ℕ) (d : Bool)
        → ((d || ((x == x' && y == y') && black (g.level x y))) || added (x + 1) n x' y')
          ≡ (d || added x (suc n) x' y')
    added-step x n x' y' d = elim (Bool-cases (x == x')) [
      | inl e ↦ rw (sym ((==_iff x x').0 e)) (ground arith)
      | inr e ↦ rw e (ground (arith, e))
    ]

    pack_row-IsRoom : (n x : ℕ) (bits : Bytes) → IsRoom bits → IsRoom (pack_row g black y n x bits)
    unfolding pack_row
    pack_row-IsRoom zero x bits r = r
    pack_row-IsRoom (suc n) x bits r =
        pack_row-IsRoom n (x + 1) (marked x bits) (marked-IsRoom x bits r)

    dot-pack_row :
        (n x x' y' : ℕ) (bits : Bytes)
        → x + n ≡ g.width
        → x' < g.width
        → IsRoom bits
        → dot bytes_a_row (pack_row g black y n x bits) x' y'
          ≡ (dot bytes_a_row bits x' y' || added x n x' y')
    unfolding pack_row
    dot-pack_row zero x x' y' bits e h r = ground arith
    dot-pack_row (suc n) x x' y' bits e h r =
        dot-pack_row n (x + 1) x' y' (marked x bits) (omega arith) h (marked-IsRoom x bits r)
        ∙ ap (λ d. d || added (x + 1) n x' y') (dot-marked x x' y' bits (omega arith) h r)
        ∙ added-step x n x' y' (dot bytes_a_row bits x' y')

  -- What the loop over the rows adds.
  abbrev rows_added : ℕ → ℕ → ℕ → ℕ → Bool
  rows_added y n x' y' = (leb y y' && ltb y' (y + n)) && black (g.level x' y')

  rows_added-step :
      (y n x' y' : ℕ) (row : y < g.height) (d : Bool)
      → x' < g.width
      → ((d || added y row 0 g.width x' y') || rows_added (y + 1) n x' y')
        ≡ (d || rows_added y (suc n) x' y')
  rows_added-step y n x' y' row d h = elim (Bool-cases (y == y')) [
    | inl e ↦ rw (sym ((==_iff y y').0 e)) (ground arith)
    | inr e ↦ rw e (ground (arith, e))
  ]

  pack_rows-IsRoom :
      (n y : ℕ) (bits : Bytes)
      → y + n ≡ g.height
      → IsRoom bits
      → IsRoom (pack_rows g black n y bits)
  unfolding pack_rows
  pack_rows-IsRoom zero y bits e r = r
  pack_rows-IsRoom (suc n) y bits e r =
      pack_rows-IsRoom n (y + 1) (pack_row g black y g.width 0 bits) (omega arith)
        (pack_row-IsRoom y (omega arith) g.width 0 bits r)

  dot-pack_rows :
      (n y x' y' : ℕ) (bits : Bytes)
      → y + n ≡ g.height
      → x' < g.width
      → IsRoom bits
      → dot bytes_a_row (pack_rows g black n y bits) x' y'
        ≡ (dot bytes_a_row bits x' y' || rows_added y n x' y')
  unfolding pack_rows
  dot-pack_rows zero y x' y' bits e h r = ground arith
  dot-pack_rows (suc n) y x' y' bits e h r =
      let row : y < g.height = omega arith in
      dot-pack_rows n (y + 1) x' y' (pack_row g black y g.width 0 bits) (omega arith) h
        (pack_row-IsRoom y row g.width 0 bits r)
      ∙ ap (λ d. d || rows_added (y + 1) n x' y')
          (dot-pack_row y row g.width 0 x' y' bits (omega arith) h r)
      ∙ rows_added-step y n x' y' row (dot bytes_a_row bits x' y') h

  zeros : (n : ℕ) → All IsByte (replicate n 0)
  zeros zero = tt
  zeros (suc n) = (omega arith, zeros n)

  byte-zeros : (n i : ℕ) → byte_or_zero (replicate n 0) i ≡ 0
  byte-zeros zero i = refl
  byte-zeros (suc n) zero = refl
  byte-zeros (suc n) (suc i) = byte-zeros n i

  blank : (n x' y' : ℕ) → dot bytes_a_row (replicate n 0) x' y' ≡ false
  unfolding dot
  blank n x' y' = rw (byte-zeros n (y' * bytes_a_row + x' / 8)) (ground arith)

  -- The packed bitmap has the size of the image, its bits are `height` rows of `stride` bytes, and
  -- the dot at a position of the image is set exactly when the level there is black.
  pub pack-dot :
      ((pack g black).width ≡ g.width)
      × ((pack g black).height ≡ g.height)
      × (length (pack g black).bits ≡ g.height * stride (pack g black))
      × All IsByte (pack g black).bits
      × ((x y : ℕ)
          → x < g.width
          → y < g.height
          → dot (stride (pack g black)) (pack g black).bits x y ≡ black (g.level x y))
  unfolding pack stride
  pack-dot =
      let start : IsRoom (replicate (bytes_a_row * g.height) 0) = record {
        sized = length-replicate (bytes_a_row * g.height) 0;
        bytes = zeros (bytes_a_row * g.height);
      } in
      let r = pack_rows-IsRoom g.height 0 _ (omega arith) start in
      (
        refl,
        refl,
        omega (arith, r.sized),
        r.bytes,
        λ x y h k.
            dot-pack_rows g.height 0 x y _ (omega arith) h start
            ∙ ground (arith, blank (bytes_a_row * g.height) x y),
      )
