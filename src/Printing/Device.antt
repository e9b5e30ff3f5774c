-- ===== src/Printing/Device.antt =====
-- internal/domain/printing/format.go: the device formats.
use tera_agent.Base.{String}

abbrev pub escpos : String
escpos = "escpos"

abbrev pub zpl : String
zpl = "zpl"

abbrev pub epl : String
epl = "epl"

abbrev pub pdf : String
pdf = "pdf"

abbrev pub png : String
png = "png"

abbrev pub raw : String
raw = "raw"

abbrev pub gdi_raster : String
gdi_raster = "gdi-raster"
