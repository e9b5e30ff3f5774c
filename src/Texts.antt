-- ===== src/Texts.antt =====
-- What the source uses of Go's `strings` on whole texts, and the bytes of a text.
use Prim.Native.Char.{code}
use tera_agent.Base.{
  ℕ, ◌+◌, ◌/◌, ◌%◌, Bool, ◌&&◌, ◌||◌, List, [], ◌∷◌, ◌++◌, String, leb, ltb, ◌==◌, if◌then◌else◌,
}

-- The code points of a text.
abbrev pub codes : String → List ℕ
codes String.[] = []
codes (String.◌∷◌ c s) = code c ∷ codes s

-- `unicode.IsSpace`.
unfoldable pub is_space : ℕ → Bool
is_space c =
    (leb 9 c && leb c 13)
    || c == 32
    || c == 0x85
    || c == 0xA0
    || c == 0x1680
    || (leb 0x2000 c && leb c 0x200A)
    || c == 0x2028
    || c == 0x2029
    || c == 0x202F
    || c == 0x205F
    || c == 0x3000

trim_start : String → String
unfolding is_space
trim_start String.[] = ""
trim_start (String.◌∷◌ c s) =
    let rest = trim_start s in if is_space (code c) then rest else String.◌∷◌ c s

reverse_onto : String → String → String
reverse_onto String.[] done = done
reverse_onto (String.◌∷◌ c s) done = reverse_onto s (String.◌∷◌ c done)

-- `strings.TrimSpace`.
unfoldable pub trim : String → String
unfolding trim_start reverse_onto
trim s = reverse_onto (trim_start (reverse_onto (trim_start s) "")) ""

utf8_of : ℕ → List ℕ
utf8_of c =
    if ltb c 0x80
    then c ∷ []
    else if ltb c 0x800
    then (0xC0 + c / 64) ∷ (0x80 + c % 64) ∷ []
    else if ltb c 0x10000
    then (0xE0 + c / 4096) ∷ (0x80 + c / 64 % 64) ∷ (0x80 + c % 64) ∷ []
    else (0xF0 + c / 262144) ∷ (0x80 + c / 4096 % 64) ∷ (0x80 + c / 64 % 64) ∷ (0x80 + c % 64) ∷ []

each_utf8 : List ℕ → List ℕ
unfolding utf8_of
each_utf8 [] = []
each_utf8 (c ∷ cs) = utf8_of c ++ each_utf8 cs

-- The bytes of a text, in UTF-8.
unfoldable pub utf8 : String → List ℕ
unfolding each_utf8
utf8 s = each_utf8 (codes s)
