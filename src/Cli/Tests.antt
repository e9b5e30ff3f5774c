-- ===== src/Cli/Tests.antt =====
-- Papers and formats of the command line.
use tera_agent.Base.{◌≡◌, refl}
use tera_agent.Base.Int.{pos, negsuc}
use tera_agent.Printing.Format
use tera_agent.Cli.{resolve_width, resolve_format}

narrow : resolve_width (pos 58) (negsuc 4) ≡ pos 384
unfolding resolve_width
narrow = refl

by_flag : resolve_format "jpg" ".pdf" ≡ Format.jpeg
unfolding resolve_format
by_flag = refl

by_file : resolve_format "" ".txt" ≡ Format.text
unfolding resolve_format
by_file = refl

-- What is neither known by its flag nor by its extension is taken for a PDF.
by_default : resolve_format "docx" "" ≡ Format.pdf
unfolding resolve_format
by_default = refl
