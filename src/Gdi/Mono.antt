-- ===== src/Gdi/Mono.antt =====
-- What `packMono1bpp` makes of a bitmap.
use tera_agent.Base.{
  mul_mono, ℕ, zero, suc, ◌+◌, ◌-◌, ◌*◌, ◌/◌, ◌%◌, ◌≤◌, ◌<◌, ◌≡◌, inl, inr, refl, ap, ◌∙◌, Bool,
  Bool-cases, ltb, ltb→lt, [], ◌∷◌, length, replicate, take, drop, length-take, length-drop,
  length-replicate, subst, arith,
}
use tera_agent.Failure.{ok, slice_ok}
use tera_agent.Printing.{Bytes}
use tera_agent.Binarizer.Dots.{byte_or_zero, dot}
use tera_agent.Binarizer.Bits.{dot_of}
use tera_agent.Gdi.{stride1, copy_at, pack_mono_rows, mono_info, BitmapInfo, pack_mono1bpp}

length-copy_at : (i : ℕ) (src buf : Bytes) → length (copy_at i src buf) ≡ length buf
unfolding copy_at
length-copy_at i src [] = refl
length-copy_at zero [] (b ∷ buf) = refl
length-copy_at zero (s ∷ src) (b ∷ buf) = ap suc (length-copy_at zero src buf)
length-copy_at (suc i) src (b ∷ buf) = ap suc (length-copy_at i src buf)

byte-copy_at_inside :
    (i j k : ℕ) (src buf : Bytes)
    → k ≡ i + j
    → j < length src
    → i + length src ≤ length buf
    → byte_or_zero (copy_at i src buf) k ≡ byte_or_zero src j
unfolding copy_at
byte-copy_at_inside i j k [] buf e h room = absurd (omega arith)
byte-copy_at_inside i j k (s ∷ src) [] e h room = absurd (omega arith)
byte-copy_at_inside zero zero zero (s ∷ src) (b ∷ buf) e h room = refl
byte-copy_at_inside zero zero (suc k) (s ∷ src) (b ∷ buf) e h room = absurd (omega arith)
byte-copy_at_inside zero (suc j) zero (s ∷ src) (b ∷ buf) e h room = absurd (omega arith)
byte-copy_at_inside zero (suc j) (suc k) (s ∷ src) (b ∷ buf) e h room =
    byte-copy_at_inside zero j k src buf (omega arith) (omega arith) (omega arith)
byte-copy_at_inside (suc i) j zero (s ∷ src) (b ∷ buf) e h room = absurd (omega arith)
byte-copy_at_inside (suc i) j (suc k) (s ∷ src) (b ∷ buf) e h room =
    byte-copy_at_inside i j k (s ∷ src) buf (omega arith) h (omega arith)

byte-copy_at_before :
    (i j : ℕ) (src buf : Bytes) → j < i → byte_or_zero (copy_at i src buf) j ≡ byte_or_zero buf j
unfolding copy_at
byte-copy_at_before i j src [] h = refl
byte-copy_at_before zero j src (b ∷ buf) h = absurd (omega arith)
byte-copy_at_before (suc i) zero src (b ∷ buf) h = refl
byte-copy_at_before (suc i) (suc j) src (b ∷ buf) h = byte-copy_at_before i j src buf (omega arith)

byte-take : (n j : ℕ) (xs : Bytes) → j < n → byte_or_zero (take n xs) j ≡ byte_or_zero xs j
byte-take zero j xs h = absurd (omega arith)
byte-take (suc n) j [] h = refl
byte-take (suc n) zero (x ∷ xs) h = refl
byte-take (suc n) (suc j) (x ∷ xs) h = byte-take n j xs (omega arith)

byte-drop : (n j k : ℕ) (xs : Bytes) → k ≡ n + j → byte_or_zero (drop n xs) j ≡ byte_or_zero xs k
byte-drop zero j k xs e = ap (byte_or_zero xs) (omega arith)
byte-drop (suc n) j k [] e = refl
byte-drop (suc n) j zero (x ∷ xs) e = absurd (omega arith)
byte-drop (suc n) j (suc k) (x ∷ xs) e = byte-drop n j k xs (omega arith)

module _ (width height : ℕ) (bits : Bytes) where
  abbrev source : ℕ
  source = (width + 7) / 8

  abbrev target : ℕ
  target = stride1 width

  -- The rows before row `y` are packed.
  record IsPacked (y : ℕ) (buf : Bytes) : Type 0 where
    sized : length buf ≡ target * height
    same :
        (y' j : ℕ)
        → y' < y
        → j < source
        → byte_or_zero buf (y' * target + j) ≡ byte_or_zero bits (y' * source + j)

  abbrev row_at : ℕ → Bytes
  row_at y = take (y * source + source - y * source) (drop (y * source) bits)

  length-row_at : (y : ℕ) → y * source + source ≤ length bits → length (row_at y) ≡ source
  length-row_at y h = omega (
    arith,
    length-take (y * source + source - y * source) (drop (y * source) bits),
    length-drop (y * source) bits,
  )

  byte-row_at :
      (y j : ℕ) → j < source → byte_or_zero (row_at y) j ≡ byte_or_zero bits (y * source + j)
  byte-row_at y j h =
      byte-take (y * source + source - y * source) j (drop (y * source) bits) (omega arith)
      ∙ byte-drop (y * source) j _ bits refl

  module _ (whole : length bits ≡ height * source) where
    packs_row :
        (y : ℕ) (buf : Bytes)
        → y < height
        → IsPacked y buf
        → IsPacked (suc y) (copy_at (y * target) (row_at y) buf)
    packs_row y buf h p =
        let row_room = mul_mono (suc y) height source h in
        let sized_row = length-row_at y (omega (arith, row_room, whole)) in
        let room : y * target + source ≤ length buf =
          omega (arith, mul_mono (suc y) height target h, p.sized) in
        record {
          sized = length-copy_at (y * target) (row_at y) buf ∙ p.sized;
          same = λ y' j before inside. elim (Bool-cases (ltb y' y)) [
            | inl e ↦
                byte-copy_at_before (y * target) (y' * target + j) (row_at y) buf
                  (omega (arith, mul_mono (suc y') y target (ltb→lt y' y e)))
                ∙ p.same y' j (ltb→lt y' y e) inside
            | inr e ↦
                let same_row : y' ≡ y = ground (arith, e) in
                rw same_row (
                  byte-copy_at_inside (y * target) j _ (row_at y) buf refl
                    (omega (arith, sized_row)) (omega (arith, sized_row, room))
                  ∙ byte-row_at y j inside)
          ];
        }

    pack_mono_rows-packs :
        (n y : ℕ) (buf : Bytes)
        → y + n ≡ height
        → IsPacked y buf
        → (packed : Bytes) × (pack_mono_rows width bits source n y buf ≡ ok packed)
          × IsPacked height packed
    unfolding pack_mono_rows
    pack_mono_rows-packs zero y buf h p =
        let last : y ≡ height = omega arith in (buf, refl, subst (λ t. IsPacked t buf) last p)
    pack_mono_rows-packs (suc n) y buf h p =
        let here = mul_mono (suc y) height source (omega arith) in
        let there = mul_mono (suc y) height target (omega arith) in
        let (packed, e, q) =
          pack_mono_rows-packs n (y + 1) (copy_at (y * target) (row_at y) buf) (omega arith) (
            subst (λ t. IsPacked t (copy_at (y * target) (row_at y) buf)) (omega arith)
              (packs_row y buf (omega arith) p)) in
        (
          packed,
          rw
              (slice_ok buf (y * target) (y * target + source) (omega arith)
                (omega (arith, p.sized, there)))
              (rw
                (slice_ok bits (y * source) (y * source + source) (omega arith)
                  (omega (arith, whole, here)))
                e),
          q,
        )

    -- Where the bits are rows of the width's bytes: `packMono1bpp` does not panic, its buffer has
    -- `height` rows of `stride1` bytes, which are a multiple of four, and each dot of the bitmap stands
    -- in it.
    pub pack_mono1bpp-dot :
        (buf : Bytes) × (info : BitmapInfo) × (pack_mono1bpp width height bits source
          ≡ ok (buf, info))
        × (length buf ≡ height * target)
        × (target % 4 ≡ 0)
        × ((x y : ℕ) → x < width → y < height → dot target buf x y ≡ dot source bits x y)
    unfolding pack_mono1bpp dot
    pack_mono1bpp-dot =
        let start : IsPacked 0 (replicate (target * height) 0) = record {
          sized = length-replicate (target * height) 0;
          same = λ y' j before inside. absurd (omega arith);
        } in
        let (buf, e, p) = pack_mono_rows-packs height 0 _ (omega arith) start in
        (
          buf,
          mono_info width height (length buf),
          rw e refl,
          omega (arith, p.sized),
          omega arith,
          λ x y inside row. ap (λ b. dot_byte b x) (p.same y (x / 8) row (omega arith)),
        )
      where
        dot_byte : ℕ → ℕ → Bool
        dot_byte b x = dot_of b (x % 8)
