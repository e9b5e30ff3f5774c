-- ===== src/Update/Version.antt =====
-- internal/domain/update/version.go: versions and their order, with what it uses of Go's `strings` and
-- `strconv`.
pub mod Order
use tera_agent.Base.{
  ℕ, ◌+◌, ◌-◌, ◌*◌, ◌^◌, Bool, true, false, ◌&&◌, ◌||◌, Option, none, some, List, [], ◌∷◌, ltb, leb,
  ◌==◌, if◌then◌else◌,
}
use mathlib.Core.List.{reverse}
use tera_agent.Texts.{is_space}
use tera_agent.Base.Int.{ℤ, pos, negsuc, ltb_ℤ, eqb_ℤ}

abbrev pub Text : Type 0
Text = List ℕ

trim_left : Text → Text
unfolding is_space
trim_left [] = []
trim_left (c ∷ cs) = let rest = trim_left cs in if is_space c then rest else c ∷ cs

-- `strings.TrimSpace`.
unfoldable pub trim_space : Text → Text
unfolding trim_left
trim_space v = reverse (trim_left (reverse (trim_left v)))

-- `strings.TrimPrefix(v, "v")`.
trim_v : Text → Text
trim_v [] = []
trim_v (c ∷ cs) = if c == b'v' then cs else c ∷ cs

-- The text before the first `mark`, and the one behind it if there is a `mark`.
cut_at : ℕ → Text → Text × Option Text
cut_at mark [] = ([], none)
cut_at mark (c ∷ cs) =
    let rest = cut_at mark cs in if c == mark then ([], some cs) else (c ∷ rest.0, rest.1)

or_empty : Option Text → Text
or_empty none = []
or_empty (some cs) = cs

-- `strings.SplitN(v, ".", n + 1)`.
split_n : ℕ → Text → List Text
unfolding cut_at
split_n ℕ.zero v = v ∷ []
split_n (ℕ.suc n) v =
    let parts = cut_at b'.' v in
    elim parts.1 [ none ↦ v ∷ [] | some rest ↦ parts.0 ∷ split_n n rest ]

is_digit : ℕ → Bool
is_digit c = leb b'0' c && leb c b'9'

-- `strconv.ParseUint`: it stops at the digit that overflows.
parse_digits : ℕ → Text → Option ℕ
unfolding is_digit
parse_digits n [] = some n
parse_digits n (c ∷ cs) =
    let m = n * 10 + (c - b'0') in
    let rest = parse_digits m cs in
    if is_digit c then (if ltb m (2 ^ 64) then rest else some (2 ^ 64 - 1)) else none

unfoldable pub parse_uint : Text → Option ℕ
unfolding parse_digits
parse_uint [] = none
parse_uint (c ∷ cs) = parse_digits 0 (c ∷ cs)

positive : Option ℕ → ℤ
positive none = pos 0
positive (some n) = if ltb n (2 ^ 63) then pos n else pos (2 ^ 63 - 1)

negative : Option ℕ → ℤ
negative none = pos 0
negative (some ℕ.zero) = pos 0
negative (some (ℕ.suc n)) = if ltb n (2 ^ 63) then negsuc n else negsuc (2 ^ 63 - 1)

-- The number that `strconv.Atoi` returns, whether or not there is an error.
atoi : Text → ℤ
unfolding parse_uint positive negative
atoi [] = pos 0
atoi (c ∷ cs) =
    if c == b'-'
    then negative (parse_uint cs)
    else if c == b'+'
    then positive (parse_uint cs)
    else positive (parse_uint (c ∷ cs))

pub record Parsed : Type 0 where
  pub major : ℤ
  pub minor : ℤ
  pub patch : ℤ
  pub pre : Text

number : Text → ℤ
unfolding atoi trim_space
number part = atoi (trim_space part)

-- The loop over the parts; a part that is absent is 0.
numbers : List Text → Text → Parsed
unfolding number
numbers [] pre = record { major = pos 0; minor = pos 0; patch = pos 0; pre = pre }
numbers (a ∷ []) pre = record { major = number a; minor = pos 0; patch = pos 0; pre = pre }
numbers (a ∷ b ∷ []) pre = record { major = number a; minor = number b; patch = pos 0; pre = pre }
numbers (a ∷ b ∷ c ∷ _) pre = record {
  major = number a;
  minor = number b;
  patch = number c;
  pre = pre;
}

unfoldable pub parse : Text → Parsed
unfolding numbers trim_space trim_v cut_at or_empty split_n
parse v =
    let parts = cut_at b'-' (trim_v (trim_space v)) in
    numbers (split_n 2 parts.0) (cut_at b'+' (or_empty parts.1)).0

-- `strings.Compare`. The order of code points is that of their UTF-8 bytes.
pub compare_text : Text → Text → ℤ
compare_text [] [] = pos 0
compare_text [] (d ∷ ds) = negsuc 0
compare_text (c ∷ cs) [] = pos 1
compare_text (c ∷ cs) (d ∷ ds) =
    let rest = compare_text cs ds in if ltb c d then negsuc 0 else if ltb d c then pos 1 else rest

-- A release comes after its pre-releases.
pub compare_pre : Text → Text → ℤ
unfolding compare_text
compare_pre [] [] = pos 0
compare_pre [] (d ∷ ds) = pos 1
compare_pre (c ∷ cs) [] = negsuc 0
compare_pre (c ∷ cs) (d ∷ ds) = compare_text (c ∷ cs) (d ∷ ds)

-- One round of the loop over the three numbers.
pub compare_number : ℤ → ℤ → ℤ → ℤ
compare_number m n rest = if eqb_ℤ m n then rest else if ltb_ℤ m n then negsuc 0 else pos 1

pub compare_parsed : Parsed → Parsed → ℤ
unfolding compare_number compare_pre
compare_parsed a b =
    compare_number a.major b.major
      (compare_number a.minor b.minor (compare_number a.patch b.patch (compare_pre a.pre b.pre)))

unfoldable pub compare : Text → Text → ℤ
unfolding compare_parsed
compare a b = compare_parsed (parse a) (parse b)

unfoldable pub newer : Text → Text → Bool
unfolding compare
newer latest current = ltb_ℤ (pos 0) (compare latest current)
