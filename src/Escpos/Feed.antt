-- ===== src/Escpos/Feed.antt =====
-- The feed before the cut.
use Prim.Native.Nat.{min}
use tera_agent.Base.{
  ℕ, zero, suc, ◌+◌, ◌-◌, ◌%◌, ◌≤◌, ◌<◌, ◌≡◌, refl, subst, false, Bool-cases, inl, inr, List, [],
  ◌∷◌, ltb, ◌==◌, arith,
}
use tera_agent.Base.Int.{ℤ, pos, negsuc}
use tera_agent.Printing.{Bytes}
use tera_agent.Escpos.{escj_max, escj_feed, feed_loop, clamp_feed}
use tera_agent.Escpos.Printer.{Mark, feed, Makes, Makes-nil, Makes-append, Makes-feed}

-- The marks feed the paper by so many dots in all, by 1 to 255 at a time.
pub data Feeds : List Mark → ℕ → Type 0 where
  still : Feeds [] 0
  fed :
      {ms : List Mark} {m t : ℕ} (n : ℕ)
      → 0 < n
      → n ≤ 255
      → Feeds ms m
      → t ≡ n + m
      → Feeds (feed n ∷ ms) t

abbrev pub MakesFeed : Bytes → ℕ → Type 0
MakesFeed bytes dots = (ms : List Mark) × Makes bytes ms × Feeds ms dots

feed_loop-MakesFeed : (fuel dots : ℕ) → dots ≤ fuel → MakesFeed (feed_loop fuel dots) dots
unfolding feed_loop
feed_loop-MakesFeed zero zero h = ([], Makes-nil, still)
feed_loop-MakesFeed zero (suc d) h = absurd (omega arith)
feed_loop-MakesFeed (suc fuel) zero h = ([], Makes-nil, still)
feed_loop-MakesFeed (suc fuel) (suc d) h = elim (Bool-cases (ltb escj_max (suc d))) [
  | inl big ↦
      let rest = feed_loop-MakesFeed fuel (suc d - 255) (omega arith) in
      rw (nonzero, big)
        (
          feed 255 ∷ rest.0,
          Makes-append (Makes-feed 255) rest.1,
          fed 255 (omega arith) (omega arith) rest.2 (ground arith),
        )
  | inr small ↦
      let rest = feed_loop-MakesFeed fuel (suc d - suc d) (omega arith) in
      let whole : suc d % 256 ≡ suc d = ground arith in
      rw (nonzero, small, whole)
        (
          feed (suc d) ∷ rest.0,
          Makes-append (Makes-feed (suc d)) rest.1,
          fed (suc d) (omega arith) (ground arith) rest.2 (omega arith),
        )
]
  where
    nonzero : (suc d == 0) ≡ false
    nonzero = ground arith

-- The dots that a configured feed stands for: 232 where none is configured, and 2000 at most.
abbrev pub dots_for : ℤ → ℕ
dots_for (pos zero) = 232
dots_for (pos (suc n)) = min (suc n) 2000
dots_for (negsuc n) = 232

clamp_feed-dots_for : (dots : ℤ) → clamp_feed dots ≡ dots_for dots
clamp_feed-dots_for (pos zero) = refl
clamp_feed-dots_for (pos (suc n)) = ground arith
clamp_feed-dots_for (negsuc n) = ground arith

pub escj_feed-MakesFeed : (dots : ℤ) → MakesFeed (escj_feed dots) (dots_for dots)
unfolding escj_feed
escj_feed-MakesFeed dots =
    subst (MakesFeed (escj_feed dots)) (clamp_feed-dots_for dots)
      (feed_loop-MakesFeed (clamp_feed dots) (clamp_feed dots) (omega arith))
