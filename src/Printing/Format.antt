-- ===== src/Printing/Format.antt =====
-- internal/domain/printing/format.go: the source formats, MIME-like.
use tera_agent.Base.{String}

abbrev pub pdf : String
pdf = "application/pdf"

abbrev pub png : String
png = "image/png"

abbrev pub jpeg : String
jpeg = "image/jpeg"

abbrev pub text : String
text = "text/plain"

abbrev pub escpos : String
escpos = "application/vnd.escpos"

abbrev pub zpl : String
zpl = "application/vnd.zpl"
