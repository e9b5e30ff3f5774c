-- ===== src/Http/Parse.antt =====
-- internal/adapters/api/httpapi/parse.go: a print request from JSON or from a form. `Body` is the body of
-- a request; `json` decodes it and `form` reads it as a multipart form, both of Go's library, within the
-- bound on its size. A separator of paths depends on the system.
use tera_agent.Base.{
  ℕ, ◌+◌, ◌-◌, ◌^◌, Bool, true, false, ◌&&◌, ◌||◌, Option, none, some, [], ◌∷◌, String, str_eq, leb,
  ◌==◌, if◌then◌else◌,
}
use text.Mathlib.Text.{starts_with}
use tera_agent.Texts.{codes}
use tera_agent.Base.Int.{ℤ, pos, negsuc}
use tera_agent.Failure.{Result, ok, err, ◌>>=◌, unsupported_content_type}
use tera_agent.Printing.{Bytes}
use tera_agent.Printing.Format
use tera_agent.Update.Version.{Text, trim_space, parse_uint}

pub record PrintRequest : Type 0 where
  pub printer : String
  pub format : String
  pub content : Bytes
  pub paper : ℤ
  pub width : ℤ
  pub cut : Option Bool
  pub drawer : Bool

-- The fields of a form, "" where there is none, and the file of the field `file`, with its name.
pub record Form : Type 0 where
  pub value : String → String
  pub file : Result (String × Bytes)

pub record Reader (Body : Type 0) : Type 0 where
  pub json : Body → Result PrintRequest
  pub form : Body → Result Form
  pub is_separator : ℕ → Bool

in_range : ℕ → Option ℕ → Option ℕ
in_range limit none = none
in_range limit (some n) = if leb n limit then some n else none

positive : Option ℕ → ℤ → ℤ
positive none default = default
positive (some n) default = pos n

negative : Option ℕ → ℤ → ℤ
negative none default = default
negative (some ℕ.zero) default = pos 0
negative (some (ℕ.suc n)) default = negsuc n

-- `strconv.Atoi`, or the default where it fails.
atoi_or : Text → ℤ → ℤ
unfolding in_range positive negative parse_uint
atoi_or [] default = default
atoi_or (c ∷ cs) default =
    if c == b'-'
    then negative (in_range (2 ^ 63) (parse_uint cs)) default
    else if c == b'+'
    then positive (in_range (2 ^ 63 - 1) (parse_uint cs)) default
    else positive (in_range (2 ^ 63 - 1) (parse_uint (c ∷ cs))) default

unfoldable pub atoi_default : String → ℤ → ℤ
unfolding atoi_or trim_space
atoi_default s default = atoi_or (trim_space (codes s)) default

-- `filepath.Ext`: from the last dot on, if no separator is behind it.
ext_from : (ℕ → Bool) → Text → Text → Text
ext_from is_separator found [] = found
ext_from is_separator found (c ∷ cs) =
    let start = c ∷ cs in
    ext_from is_separator (if is_separator c then [] else if c == b'.' then start else found) cs

lower : Text → Text
lower [] = []
lower (c ∷ cs) = (if leb b'A' c && leb c b'Z' then c + 32 else c) ∷ lower cs

same_text : Text → Text → Bool
same_text [] [] = true
same_text (a ∷ as') (b ∷ bs) = a == b && same_text as' bs
same_text _ _ = false

format_of : Text → String
unfolding same_text
format_of e =
    if same_text e (codes ".pdf")
    then Format.pdf
    else if same_text e (codes ".png")
    then Format.png
    else if same_text e (codes ".jpg") || same_text e (codes ".jpeg")
    then Format.jpeg
    else if same_text e (codes ".txt")
    then Format.text
    else ""

-- `formatFromName`. Beyond ASCII no letter's lower case stands in these names.
unfoldable pub format_from_name : (ℕ → Bool) → String → String
unfolding ext_from lower format_of
format_from_name is_separator name = format_of (lower (ext_from is_separator [] (codes name)))

module _ {Body : Type 0} (reader : Reader Body) where
  request_of : Form → String × Bytes → PrintRequest
  request_of form (name, content) = record {
    printer = form.value "printer";
    format =
        if str_eq (form.value "format") ""
        then format_from_name reader.is_separator name
        else form.value "format";
    content = content;
    paper = atoi_default (form.value "paper") (pos 0);
    width = atoi_default (form.value "width") (pos 0);
    cut = if str_eq (form.value "cut") "" then none else some (str_eq (form.value "cut") "true");
    drawer = str_eq (form.value "drawer") "true";
  }

  parse_multipart : Body → Result PrintRequest
  unfolding request_of
  parse_multipart body = do form ← reader.form body; file ← form.file; ok (request_of form file)

  unfoldable pub parse_request : String → Body → Result PrintRequest
  unfolding parse_multipart
  parse_request content_type body =
      if starts_with content_type "multipart/form-data"
      then parse_multipart body
      else if str_eq content_type "" || starts_with content_type "application/json"
      then reader.json body
      else err unsupported_content_type
