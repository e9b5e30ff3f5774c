-- ===== src/Base/Numbers.antt =====
-- Facts on products of numbers and on tests of texts.
use Prim.Native.Nat.{ℕ, ◌*◌, ◌≤◌}
use Prim.Native.String.{String}
use mathlib.Core.Path.{◌≡◌}
use mathlib.Core.Logic.{◌≢◌}
use mathlib.Core.Bool.{false}
use native.Mathlib.Omega.{arith}
use text.Mathlib.Text.{◌==◌ as str_eq}
use text.Mathlib.TextEquality.{eq_iff}

pub mul_mono : (a b w : ℕ) → a ≤ b → a * w ≤ b * w
mul_mono a b w h = grind arith

pub str_eq-ne : (a b : String) → str_eq a b ≡ false → a ≢ b
str_eq-ne a b e same = cc (e, (eq_iff a b).1 same)
