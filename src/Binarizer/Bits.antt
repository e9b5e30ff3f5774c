-- ===== src/Binarizer/Bits.antt =====
-- The bits of a byte, read one by one, and what setting one of them does.
use Prim.Native.Nat.{bit_or}
use tera_agent.Base.{
  ℕ, zero, suc, ◌-◌, ◌/◌, ◌%◌, ◌^◌, ◌<◌, ◌≤◌, ◌+◌, ◌≡◌, inl, inr, refl, Bool-cases, ==_iff, Bool,
  true, false, ◌&&◌, ◌||◌, ◌==◌, ltb, ltb→lt, arith,
}
use tera_agent.Binarizer.{mask_of}

-- The bit `k` of a byte, counted from the highest.
abbrev pub dot_of : ℕ → ℕ → Bool
dot_of b k = (b / 2 ^ (7 - k) % 2) == 1

-- Whether a test holds of the numbers from `i` on, of which there are `n`.
each_from : ℕ → ℕ → (ℕ → Bool) → Bool
each_from i zero test = true
each_from i (suc n) test = each_from (suc i) n test && test i

each_holds :
    (i n : ℕ) (test : ℕ → Bool) (k : ℕ)
    → i ≤ k
    → k < i + n
    → each_from i n test ≡ true
    → test k ≡ true
unfolding each_from
each_holds i zero test k low high all = absurd (omega arith)
each_holds i (suc n) test k low high all = elim (Bool-cases (i == k)) [
  | inl e ↦ grind (arith, ==_iff i k)
  | inr e ↦ each_holds (suc i) n test k (ground (arith, ==_iff i k)) (omega arith) (ground arith)
]

same : Bool → Bool → Bool
same true b = b
same false true = false
same false false = true

same_sound : (a b : Bool) → same a b ≡ true → a ≡ b
unfolding same
same_sound true b h = ground arith
same_sound false b h = ground arith

sets : ℕ → ℕ → ℕ → Bool
unfolding same
sets b k j =
    same (dot_of (bit_or b (mask_of k)) j) (dot_of b j || k == j) && ltb (bit_or b (mask_of k)) 256

sets_everywhere : each_from 0 256 (λ b. each_from 0 8 (λ k. each_from 0 8 (λ j. sets b k j))) ≡ true
unfolding each_from sets
sets_everywhere = refl

module _ (b k j : ℕ) (byte : b < 256) (low : k < 8) (small : j < 8) where
  checked : sets b k j ≡ true
  checked =
      let of_byte = each_holds 0 256 _ b (omega arith) byte sets_everywhere in
      let of_dot = each_holds 0 8 _ k (omega arith) low of_byte in
      each_holds 0 8 (λ i. sets b k i) j (omega arith) small of_dot

  pub dot_of-bit_or : dot_of (bit_or b (mask_of k)) j ≡ (dot_of b j || k == j)
  unfolding sets
  dot_of-bit_or = same_sound _ _ (ground (arith, checked))

  pub bit_or-byte : bit_or b (mask_of k) < 256
  unfolding sets
  bit_or-byte = ltb→lt _ _ (ground (arith, checked))
