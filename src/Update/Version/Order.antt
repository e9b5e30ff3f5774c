-- ===== src/Update/Version/Order.antt =====
-- The versions are ordered: one is newer than another, or the other way round, or they are read alike.
use mathlib.Core.Path.{ap₂}
use tera_agent.Base.{ℕ, ◌≡◌, ◌≢◌, ◌⊎◌, inl, inr, refl, sym, ap, ◌∙◌, true, false, [], ◌∷◌, arith}
use tera_agent.Base.Int.{ℤ, pos, negsuc, ltb_ℤ}
use tera_agent.Update.Version.{
  Text, Parsed, parse, compare_text, compare_pre, compare_number, compare_parsed, compare, newer,
}

-- A comparison the other way round.
abbrev flip : ℤ → ℤ
flip (pos ℕ.zero) = pos 0
flip (pos (ℕ.suc n)) = negsuc n
flip (negsuc n) = pos (ℕ.suc n)

compare_text-flip : (a b : Text) → compare_text b a ≡ flip (compare_text a b)
unfolding compare_text
compare_text-flip [] [] = refl
compare_text-flip [] (d ∷ ds) = refl
compare_text-flip (c ∷ cs) [] = refl
compare_text-flip (c ∷ cs) (d ∷ ds) = ground (arith, compare_text-flip cs ds)

compare_text-eq : (a b : Text) → compare_text a b ≡ pos 0 → a ≡ b
unfolding compare_text
compare_text-eq [] [] h = refl
compare_text-eq [] (d ∷ ds) h = cc
compare_text-eq (c ∷ cs) [] h = absurd (cc)
compare_text-eq (c ∷ cs) (d ∷ ds) h = ground (arith, compare_text-eq cs ds)

compare_text_trans :
    (a b c : Text) → compare_text a b ≡ pos 1 → compare_text b c ≡ pos 1 → compare_text a c ≡ pos 1
unfolding compare_text
compare_text_trans (x ∷ a) (y ∷ b) (z ∷ c) h k =
    ground (arith, compare_text_trans a b c, compare_text-eq a b, compare_text-eq b c)
compare_text_trans (x ∷ a) b [] h k = refl
compare_text_trans (x ∷ a) [] (z ∷ c) h k = cc
compare_text_trans [] [] c h k = cc
compare_text_trans [] (y ∷ b) c h k = cc

-- The three results of a comparison.
abbrev IsSign : ℤ → Type 0
IsSign r = (r ≡ negsuc 0) ⊎ (r ≡ pos 0) ⊎ (r ≡ pos 1)

compare_text-IsSign : (a b : Text) → IsSign (compare_text a b)
unfolding compare_text
compare_text-IsSign [] [] = inr (inl refl)
compare_text-IsSign [] (d ∷ ds) = inl refl
compare_text-IsSign (c ∷ cs) [] = inr (inr refl)
compare_text-IsSign (c ∷ cs) (d ∷ ds) = ground (arith, compare_text-IsSign cs ds)

compare_pre-IsSign : (a b : Text) → IsSign (compare_pre a b)
unfolding compare_pre
compare_pre-IsSign [] [] = inr (inl refl)
compare_pre-IsSign [] (d ∷ ds) = inr (inr refl)
compare_pre-IsSign (c ∷ cs) [] = inl refl
compare_pre-IsSign (c ∷ cs) (d ∷ ds) = compare_text-IsSign (c ∷ cs) (d ∷ ds)

compare_pre-flip : (a b : Text) → compare_pre b a ≡ flip (compare_pre a b)
unfolding compare_pre
compare_pre-flip [] [] = refl
compare_pre-flip [] (d ∷ ds) = refl
compare_pre-flip (c ∷ cs) [] = refl
compare_pre-flip (c ∷ cs) (d ∷ ds) = compare_text-flip (c ∷ cs) (d ∷ ds)

compare_pre-eq : (a b : Text) → compare_pre a b ≡ pos 0 → a ≡ b
unfolding compare_pre
compare_pre-eq [] [] h = refl
compare_pre-eq [] (d ∷ ds) h = absurd (cc)
compare_pre-eq (c ∷ cs) [] h = cc
compare_pre-eq (c ∷ cs) (d ∷ ds) h = compare_text-eq (c ∷ cs) (d ∷ ds) h

compare_pre_trans :
    (a b c : Text) → compare_pre a b ≡ pos 1 → compare_pre b c ≡ pos 1 → compare_pre a c ≡ pos 1
unfolding compare_pre
compare_pre_trans (x ∷ a) (y ∷ b) (z ∷ c) h k = compare_text_trans (x ∷ a) (y ∷ b) (z ∷ c) h k
compare_pre_trans [] b (z ∷ c) h k = refl
compare_pre_trans [] [] [] h k = h
compare_pre_trans [] (y ∷ b) [] h k = cc
compare_pre_trans (x ∷ a) [] c h k = cc
compare_pre_trans (x ∷ a) (y ∷ b) [] h k = cc

compare_number-IsSign : (m n r : ℤ) → IsSign r → IsSign (compare_number m n r)
unfolding compare_number
compare_number-IsSign m n r h = ground arith

compare_number-flip :
    (m n r s : ℤ) → s ≡ flip r → compare_number n m s ≡ flip (compare_number m n r)
unfolding compare_number
compare_number-flip m n r s h = ground arith

compare_number-eq : (m n r : ℤ) → compare_number m n r ≡ pos 0 → (m ≡ n) × (r ≡ pos 0)
unfolding compare_number
compare_number-eq m n r h = ground arith

compare_number_trans :
    (m n k p q r : ℤ)
    → (p ≡ pos 1 → q ≡ pos 1 → r ≡ pos 1)
    → compare_number m n p ≡ pos 1
    → compare_number n k q ≡ pos 1
    → compare_number m k r ≡ pos 1
unfolding compare_number
compare_number_trans m n k p q r f h e = ground arith

compare_parsed_trans :
    (a b c : Parsed)
    → compare_parsed a b ≡ pos 1
    → compare_parsed b c ≡ pos 1
    → compare_parsed a c ≡ pos 1
unfolding compare_parsed
compare_parsed_trans a b c = compare_number_trans a.major b.major c.major _ _ _ (
    compare_number_trans a.minor b.minor c.minor _ _ _
      (compare_number_trans a.patch b.patch c.patch _ _ _ (compare_pre_trans a.pre b.pre c.pre)))

compare_parsed-flip : (a b : Parsed) → compare_parsed b a ≡ flip (compare_parsed a b)
unfolding compare_parsed
compare_parsed-flip a b = compare_number-flip a.major b.major _ _ (
    compare_number-flip a.minor b.minor _ _
      (compare_number-flip a.patch b.patch _ _ (compare_pre-flip a.pre b.pre)))

compare_parsed-eq : (a b : Parsed) → compare_parsed a b ≡ pos 0 → a ≡ b
unfolding compare_parsed
compare_parsed-eq a b h =
    let (major, rest) = compare_number-eq a.major b.major _ h in
    let (minor, rest') = compare_number-eq a.minor b.minor _ rest in
    let (patch, last) = compare_number-eq a.patch b.patch _ rest' in
    let pre = compare_pre-eq a.pre b.pre last in
    λ i. record { major = major i; minor = minor i; patch = patch i; pre = pre i }

compare_parsed-IsSign : (a b : Parsed) → IsSign (compare_parsed a b)
unfolding compare_parsed
compare_parsed-IsSign a b = compare_number-IsSign a.major b.major _ (
    compare_number-IsSign a.minor b.minor _
      (compare_number-IsSign a.patch b.patch _ (compare_pre-IsSign a.pre b.pre)))

is_newer : (a b : Text) → newer a b ≡ true → compare a b ≡ pos 1
unfolding newer
is_newer a b h = ground (arith, compare_parsed-IsSign (parse a) (parse b))

newer_of : (a b : Text) → compare a b ≡ pos 1 → newer a b ≡ true
unfolding newer
newer_of a b h = rw h

compare-flip : (a b : Text) → compare b a ≡ flip (compare a b)
unfolding compare
compare-flip a b = compare_parsed-flip (parse a) (parse b)

not_newer : (a b : Text) → compare a b ≡ pos 1 → newer b a ≡ false
unfolding newer
not_newer a b h = ground (arith, compare-flip a b)

compare-read_alike : (a b : Text) → parse a ≡ parse b → compare a b ≡ compare b a
unfolding compare
compare-read_alike a b e = ap₂ compare_parsed e (sym e)

-- `Newer` is a strict order that is total on what is read of a version: of two versions one is newer
-- than the other or both are read alike, never two of the three, and what is newer than a newer
-- version is newer.
pub newer-order :
    (a b : Text)
    → ((newer a b ≡ true) ⊎ (newer b a ≡ true) ⊎ (parse a ≡ parse b))
      × (newer a b ≡ true → (newer b a ≡ false) × (parse a ≢ parse b))
      × ((c : Text) → newer a b ≡ true → newer b c ≡ true → newer a c ≡ true)
newer-order a b = (
  either (compare_parsed-IsSign (parse a) (parse b)),
  (λ h.
      let e = is_newer a b h in
      (
        not_newer a b e,
        λ same. cc (sym e ∙ compare-read_alike a b same ∙ compare-flip a b ∙ ap flip e),
      )),
  λ c h k. newer_of a c (transitive c (is_newer a b h) (is_newer b c k)),
)
  where
    either :
        IsSign (compare_parsed (parse a) (parse b))
        → (newer a b ≡ true) ⊎ (newer b a ≡ true) ⊎ (parse a ≡ parse b)
    either (inl e) = inr (inl (newer_of b a (compare-flip a b ∙ unfold compare in ap flip e)))
    either (inr (inl e)) = inr (inr (compare_parsed-eq (parse a) (parse b) e))
    either (inr (inr e)) = inl (newer_of a b (unfold compare in e))

    transitive : (c : Text) → compare a b ≡ pos 1 → compare b c ≡ pos 1 → compare a c ≡ pos 1
    transitive c h k = unfold compare in compare_parsed_trans (parse a) (parse b) (parse c) h k

-- A version is below those that are newer.
pub compare-below : (a b : Text) → ltb_ℤ (compare a b) (pos 0) ≡ newer b a
unfolding newer
compare-below a b = ground (arith, compare-flip a b)
