-- ===== src/Binarizer/Tests.antt =====
-- A small image, its bitmap, and the theorem of the packing at it.
use tera_agent.Base.{ℕ, ◌*◌, ◌<◌, ◌≡◌, refl, Bool, ltb, ◌==◌, [], ◌∷◌, length, All, if◌then◌else◌}
use tera_agent.Printing.{stride}
use tera_agent.Binarizer.{Gray, gray, to_gray, set_dot, pack_rows, pack_row, or_at, pack, binarize}
use tera_agent.Binarizer.Dots.{IsByte, dot}
use tera_agent.Binarizer.Pack.{pack-dot}

-- The diagonal is black.
abbrev image : Gray
image = record { width = 9; height = 2; level = λ x y. if x == y then 0 else 200 }

image_bits : (binarize (λ (c : ℕ). c) 128 (gray image)).bits ≡ 128 ∷ 0 ∷ 64 ∷ 0 ∷ []
unfolding binarize to_gray pack set_dot pack_rows pack_row or_at
image_bits = refl

pack-dot_example :
    let black : ℕ → Bool = λ v. ltb v 128 in
    ((pack image black).width ≡ 9)
    × ((pack image black).height ≡ 2)
    × (length (pack image black).bits ≡ 2 * stride (pack image black))
    × All IsByte (pack image black).bits
    × ((x y : ℕ)
        → x < 9
        → y < 2
        → dot (stride (pack image black)) (pack image black).bits x y ≡ black (image.level x y))
pack-dot_example = pack-dot image (λ v. ltb v 128)
