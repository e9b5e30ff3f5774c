-- ===== src/Gdi/Spans.antt =====
-- How `span` cuts an axis.
use native.Mathlib.Nat.{le-div_iff_mul-le, div-lt_iff_lt-mul, mul-div-le}
use tera_agent.Base.{ℕ, ◌+◌, ◌*◌, ◌/◌, ◌≤◌, ◌<◌, ◌≡◌, ap, arith}
use tera_agent.Gdi.{span}

module _ (dst_n src_n : ℕ) (target : 0 < dst_n) where
  abbrev place : ℕ → ℕ
  place i = i * src_n / dst_n

  -- A place below a position of the target is below its place on the source's axis.
  place_reaches : (i k : ℕ) → k * dst_n ≤ i * src_n → k ≤ place i
  place_reaches i k h = (le-div_iff_mul-le target).1 h

  place_below : (i k : ℕ) → i * src_n < k * dst_n → place i < k
  place_below i k h = (div-lt_iff_lt-mul target).1 h

  -- Where nothing is enlarged, the next place is further.
  place_grows : (i : ℕ) → dst_n ≤ src_n → place i < place (i + 1)
  place_grows i h =
      omega
        (arith, place_reaches (i + 1) (place i + 1) (grind (arith, mul-div-le (i * src_n) dst_n)))

  place-end : place dst_n ≡ src_n
  place-end =
      omega (
        arith,
        place_reaches dst_n src_n (grind arith),
        place_below dst_n (src_n + 1) (grind arith),
      )

  place_within : (i : ℕ) → 0 < src_n → i < dst_n → place i < src_n
  place_within i source h = place_below i src_n (grind arith)

  place_bounded : (i : ℕ) → i ≤ dst_n → place i ≤ src_n
  place_bounded i h = omega (arith, place_below i (src_n + 1) (grind arith))

  -- For a nonempty source and target, each pixel of the target has a span that is not empty and
  -- within the source. Where the target is not larger than the source, the spans stand in a row: the
  -- first begins at 0, each ends where the next begins, and the last ends with the source.
  pub span-covers :
      0 < src_n
      → ((i : ℕ)
          → i < dst_n
          → ((span i dst_n src_n).0 < (span i dst_n src_n).1) × ((span i dst_n src_n).1 ≤ src_n))
        × (dst_n ≤ src_n
            → ((span 0 dst_n src_n).0 ≡ 0)
              × ((i : ℕ) → (span i dst_n src_n).1 ≡ (span (i + 1) dst_n src_n).0)
              × ((i : ℕ) → i + 1 ≡ dst_n → (span i dst_n src_n).1 ≡ src_n))
  unfolding span
  span-covers source = (
    (λ i h. ground (arith, place_within i source h, place_bounded (i + 1) (omega arith))),
    λ smaller. (
      omega (arith, place_below 0 1 (omega arith)),
      (λ i. ground (arith, place_grows i smaller)),
      λ i last. ground (arith, place_grows i smaller, ap place last, place-end),
    ),
  )
