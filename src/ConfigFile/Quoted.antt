-- ===== src/ConfigFile/Quoted.antt =====
-- YAML's single-quoted scalars on one line, and what `yamlStr` writes. The reader here is of YAML's
-- specification: two quotes stand for one, all else stands for itself, and a line break or a character
-- that YAML does not allow is refused.
use Prim.Native.Char.{code}
use tera_agent.Base.{
  ℕ, Bool, true, false, ◌||◌, ◌&&◌, leb, Option, none, some, String, ◌==◌, if◌then◌else◌, ◌≡◌, refl,
  ap, Bool-cases, inl, inr,
}
use tera_agent.ConfigFile.{quote, quote_onto, yaml_str_onto}

within : ℕ → ℕ → ℕ → Bool
within a b c = leb a c && leb c b

-- A character that YAML allows in a document, other than a line break (of LF, CR, NEL, LS and PS) and the
-- mark of the byte order.
is_plain : ℕ → Bool
unfolding within
is_plain c =
    c == 0x9
    || within 0x20 0x7E c
    || within 0xA0 0x2027 c
    || within 0x202A 0xD7FF c
    || within 0xE000 0xFEFE c
    || within 0xFF00 0xFFFD c
    || within 0x10000 0x10FFFF c

before : {A : Type 0} → (A → A) → Option (A × String) → Option (A × String)
before f none = none
before f (some (a, rest)) = some (f a, rest)

-- The text of a scalar on one line, after its opening quote, and what stands behind the closing one;
-- `after_quote` says that a quote was the last read: a second stands for one in the text.
read_more : Bool → String → Option (String × String)
unfolding before is_plain
read_more false String.[] = none
read_more true String.[] = some ("", "")
read_more false (String.◌∷◌ c s) =
    let closed = read_more true s in
    let more = before (String.◌∷◌ c) (read_more false s) in
    if code c == quote then closed else if is_plain (code c) then more else none
read_more true (String.◌∷◌ c s) =
    let more = before (String.◌∷◌ c) (read_more false s) in
    if code c == quote then more else some ("", String.◌∷◌ c s)

-- A single-quoted scalar of one line at the start of a text, and the rest of the text.
unfoldable pub read_quoted : String → Option (String × String)
unfolding read_more
read_quoted String.[] = none
read_quoted (String.◌∷◌ c s) = if code c == quote then read_more false s else none

unfoldable pub IsOneLine : String → Type 0
unfolding is_plain
IsOneLine String.[] = Unit
IsOneLine (String.◌∷◌ c s) = (is_plain (code c) ≡ true) × IsOneLine s

unfoldable pub IsUnquoted : String → Type 0
IsUnquoted String.[] = Unit
IsUnquoted (String.◌∷◌ c s) = (code c == quote) ≡ false

read_more-closed : (rest : String) → IsUnquoted rest → read_more true rest ≡ some ("", rest)
unfolding read_more IsUnquoted
read_more-closed String.[] h = refl
read_more-closed (String.◌∷◌ c s) h = rw h refl

read_more-quote_onto :
    (s rest : String)
    → IsOneLine s
    → IsUnquoted rest
    → read_more false (quote_onto s rest) ≡ some (s, rest)
unfolding read_more quote_onto IsOneLine before
read_more-quote_onto String.[] rest line h = read_more-closed rest h
read_more-quote_onto (String.◌∷◌ c s) rest (whole, line) h = elim (Bool-cases (code c == quote)) [
  | inl e ↦ rw (e, e) (ap (before (String.◌∷◌ c)) (read_more-quote_onto s rest line h))
  | inr e ↦ rw (e, e, whole) (ap (before (String.◌∷◌ c)) (read_more-quote_onto s rest line h))
]

-- Whatever quotes and backslashes a text has, the rules of YAML's single-quoted scalars read from
-- what `yamlStr` makes of it the text itself, where no quote follows. The text has no line break and no
-- character that YAML does not allow.
pub read_quoted-yaml_str_onto :
    (s rest : String)
    → IsOneLine s
    → IsUnquoted rest
    → read_quoted (yaml_str_onto s rest) ≡ some (s, rest)
unfolding read_quoted yaml_str_onto
read_quoted-yaml_str_onto = read_more-quote_onto
