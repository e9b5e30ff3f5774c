-- ===== src/Config.antt =====
-- internal/app/ports/config.go: the configuration, its managed printers, and what is resolved from
-- them. A margin is a finite float of 64 bits, and stands here as the whole number of its 2 ^ -1074ths:
-- the configuration only copies and compares it. An interval is a duration, in nanoseconds.
use tera_agent.Base.{Bool, List, [], ◌∷◌, String, str_eq, if◌then◌else◌}
use tera_agent.Base.Int.{ℤ, pos, eqb_ℤ}

pub record ManagedPrinter : Type 0 where
  pub name : String
  pub role : String
  pub enabled : Bool
  pub kind : String
  pub cut_feed_dots : ℤ
  pub top_margin_dots : ℤ
  pub page_margin_mm : ℤ
  pub page_mode : String

pub record Config : Type 0 where
  pub backend_url : String
  pub token : String
  pub agent_id : String
  pub default_printer : String
  pub printers : List ManagedPrinter
  pub cut_feed_dots : ℤ
  pub top_margin_dots : ℤ
  pub page_margin_mm : ℤ
  pub heartbeat_interval : ℤ
  pub log_level : String
  pub log_file : String
  pub log_max_size_mb : ℤ
  pub log_max_backups : ℤ
  pub http_addr : String
  pub http_token : String
  pub insecure_skip_verify : Bool
  pub data_dir : String

abbrev pub default_backend_url : String
default_backend_url = "wss://api.grupotera.cloud/ws/agent/"

abbrev pub mode_vector : String
mode_vector = "vector"

abbrev pub mode_image : String
mode_image = "image"

abbrev pub kind_thermal : String
kind_thermal = "thermal"

abbrev pub kind_pdf : String
kind_pdf = "pdf"

-- The loop of `PageModeOf`.
unfoldable pub page_mode_loop : String → List ManagedPrinter → String
page_mode_loop printer_id [] = mode_vector
page_mode_loop printer_id (p ∷ ps) =
    if str_eq p.name printer_id
    then (if str_eq p.page_mode mode_image then mode_image else mode_vector)
    else page_mode_loop printer_id ps

unfoldable pub page_mode_of : Config → String → String
unfolding page_mode_loop
page_mode_of c printer_id = page_mode_loop printer_id c.printers

-- The loop of `KindOf`.
kind_loop : String → List ManagedPrinter → String
kind_loop printer_id [] = kind_thermal
kind_loop printer_id (p ∷ ps) =
    if str_eq p.name printer_id
    then (if str_eq p.kind "" then kind_thermal else p.kind)
    else kind_loop printer_id ps

unfoldable pub kind_of : Config → String → String
unfolding kind_loop
kind_of c printer_id = kind_loop printer_id c.printers

abbrev pub override : ℤ → ℤ → ℤ
override own default = if eqb_ℤ own (pos 0) then default else own

abbrev pub default_page_margin_mm : ℤ
default_page_margin_mm = pos 0

-- The loop of `PageMargin`.
unfoldable pub margin_loop : String → List ManagedPrinter → ℤ → ℤ
margin_loop printer_id [] margin = margin
margin_loop printer_id (p ∷ ps) margin =
    if str_eq p.name printer_id
    then override p.page_margin_mm margin
    else margin_loop printer_id ps margin

unfoldable pub page_margin : Config → String → ℤ
unfolding margin_loop
page_margin c printer_id =
    override (margin_loop printer_id c.printers c.page_margin_mm) default_page_margin_mm

-- The loop of `PrinterTuning`.
unfoldable pub tuning_loop : String → List ManagedPrinter → ℤ → ℤ → ℤ × ℤ
tuning_loop printer_id [] cut top = (cut, top)
tuning_loop printer_id (p ∷ ps) cut top =
    if str_eq p.name printer_id
    then (override p.cut_feed_dots cut, override p.top_margin_dots top)
    else tuning_loop printer_id ps cut top

unfoldable pub printer_tuning : Config → String → ℤ × ℤ
unfolding tuning_loop
printer_tuning c printer_id = tuning_loop printer_id c.printers c.cut_feed_dots c.top_margin_dots
