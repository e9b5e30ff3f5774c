-- ===== src/Base/Duration.antt =====
-- Go's `time.Duration`: an `int64` of nanoseconds, with the products that wrap around and the quotients
-- that truncate toward 0.
use tera_agent.Base.{
  ℕ, zero, suc, ◌-◌, ◌*◌, ◌/◌, ◌%◌, ◌^◌, ◌<◌, ◌≡◌, ap, ◌∙◌, ltb, if◌then◌else◌, arith,
}
use tera_agent.Base.Int.{ℤ, pos, negsuc}

abbrev pub second : ℕ
second = 1000000000

-- The `int64` of these 64 bits.
abbrev signed : ℕ → ℤ
signed bits = if ltb bits (2 ^ 63) then pos bits else negsuc (2 ^ 64 - 1 - bits)

-- `time.Duration(n) * time.Second`.
unfoldable pub times_second : ℤ → ℤ
times_second (pos n) = signed (n * second % 2 ^ 64)
times_second (negsuc n) = signed ((2 ^ 64 - suc n * second % 2 ^ 64) % 2 ^ 64)

abbrev negated : ℕ → ℤ
negated zero = pos 0
negated (suc n) = negsuc n

-- `int(d / time.Second)`.
unfoldable pub whole_seconds : ℤ → ℤ
whole_seconds (pos n) = pos (n / second)
whole_seconds (negsuc n) = negated (suc n / second)

-- A duration, an `int64`, of a whole number of seconds.
abbrev pub IsWhole : ℤ → Type 0
IsWhole (pos n) = (k : ℕ) × (n ≡ k * second) × (n < 2 ^ 63)
IsWhole (negsuc n) = (k : ℕ) × (suc n ≡ k * second) × (n < 2 ^ 63)

pub times_second-whole_seconds : (d : ℤ) → IsWhole d → times_second (whole_seconds d) ≡ d
unfolding times_second whole_seconds
times_second-whole_seconds (pos n) (k, e, h) =
    let same : n / second * second % 2 ^ 64 ≡ n = omega (arith, e, h) in
    ap signed same ∙ ground (arith, h)
times_second-whole_seconds (negsuc n) (zero, e, h) = absurd (omega (arith, e))
times_second-whole_seconds (negsuc n) (suc k, e, h) =
    let q : suc n / second ≡ suc k = omega (arith, e) in
    let bits : (2 ^ 64 - suc k * second % 2 ^ 64) % 2 ^ 64 ≡ 2 ^ 64 - 1 - n = omega (arith, e, h) in
    let back : 2 ^ 64 - 1 - (2 ^ 64 - 1 - n) ≡ n = omega (arith, h) in
    ap (λ x. times_second (negated x)) q ∙ (ap signed bits ∙ ground (arith, h, back))
