-- ===== src/Escpos/Tests.antt =====
-- Bytes of small jobs, and the theorems of the encoders at concrete inputs.
use tera_agent.Base.{◌≡◌, refl, true, List, [], ◌∷◌, ◌++◌, arith}
use tera_agent.Base.Int.{pos}
use tera_agent.Failure.{ok}
use tera_agent.Printing.{Bytes, raster_artifact, text_artifact, EncodeOptions, MonoBitmap, stride}
use tera_agent.Escpos.{escj_feed, encode_raster, encode_text}
use tera_agent.Escpos.Printer.{Mark, reset}
use tera_agent.Escpos.Bands.{IsBitmap}
use tera_agent.Escpos.Encode.{
  Renders, EndMarks, PagesRows, text_marks, encode_raster_prints, encode_text_prints,
}

-- Chained feeds, as in the tests of the source.
feed_300 : escj_feed (pos 300) ≡ 0x1B ∷ 0x4A ∷ 255 ∷ 0x1B ∷ 0x4A ∷ 45 ∷ []
unfolding escj_feed
feed_300 = refl

-- Four rows of one byte: one blank, one with ink, two blank.
abbrev receipt : MonoBitmap
receipt = record { width = 8; height = 4; bits = 0 ∷ 255 ∷ 0 ∷ 0 ∷ [] }

receipt-IsBitmap : IsBitmap receipt
unfolding stride
receipt-IsBitmap = record { whole = refl; narrow = omega arith }

abbrev cut_options : EncodeOptions
cut_options = record {
  width_dots = pos 8;
  cut = true;
  open_drawer = true;
  cut_feed_dots = pos 0;
  top_margin_dots = pos 0;
}

encode_raster_prints_example :
    (bytes : Bytes) × (rows : List Mark) × (end : List Mark) × (encode_raster
        (λ (page : MonoBitmap). page)
        (raster_artifact (receipt ∷ receipt ∷ []) (pos 8))
        cut_options
      ≡ ok bytes)
    × Renders bytes (reset ∷ (rows ++ end))
    × PagesRows (λ (page : MonoBitmap). page) true (receipt ∷ receipt ∷ []) rows
    × EndMarks cut_options end
encode_raster_prints_example =
    encode_raster_prints (λ (page : MonoBitmap). page) (receipt ∷ receipt ∷ []) (pos 8) cut_options
      (receipt-IsBitmap, (receipt-IsBitmap, tt))

encode_text_prints_example :
    (bytes : Bytes) × (end : List Mark) × (encode_text {Image = Unit {0}}
        (text_artifact (72 ∷ 105 ∷ []))
        cut_options
      ≡ ok bytes)
    × Renders bytes (reset ∷ (text_marks (72 ∷ 105 ∷ []) ++ end))
    × EndMarks cut_options end
encode_text_prints_example = encode_text_prints (Unit {0}) (72 ∷ 105 ∷ []) cut_options (omega arith)
