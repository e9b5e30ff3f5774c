-- ===== src/Printing/Kind.antt =====
-- internal/domain/printing/artifact.go: the kinds of artifact.
use tera_agent.Base.{String}

abbrev pub raster : String
raster = "raster"

abbrev pub text : String
text = "text"

abbrev pub bytes : String
bytes = "bytes"
