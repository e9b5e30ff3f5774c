-- ===== src/Raster/Tests.antt =====
-- A container of two pages, and the theorems of the container at it.
use tera_agent.Base.{◌≡◌, ◌≢◌, refl, false, List, [], ◌∷◌, arith}
use tera_agent.Base.Int.{pos}
use tera_agent.Failure.{ok, err, panicked, out_of_memory, truncated_body, slice}
use tera_agent.Printing.{Bytes, raster_artifact, EncodeOptions}
use tera_agent.Raster.{encode, decode}
use tera_agent.Raster.RoundTrip.{decode-encode, decode-ne-panicked}

abbrev options : EncodeOptions
options = record {
  width_dots = pos 0;
  cut = false;
  open_drawer = false;
  cut_feed_dots = pos 0;
  top_margin_dots = pos 0;
}

-- An image is its PNG file.
abbrev pages : List Bytes
pages = (137 ∷ 80 ∷ []) ∷ (137 ∷ []) ∷ []

decode-encode_example :
    (content : Bytes) × (encode (λ page. ok page) (raster_artifact pages (pos 0)) options
      ≡ ok content)
    × (decode 2 content ≡ ok pages)
decode-encode_example =
    decode-encode (λ page. ok page) pages pages (pos 0) options 2 (omega arith) (λ e. cc)
      (refl, (refl, tt)) (omega arith) (omega arith)

-- A page that is said to be longer than the container.
abbrev cut_short : Bytes
cut_short = b'T' ∷ b'G' ∷ b'D' ∷ b'R' ∷ 1 ∷ 0 ∷ 0 ∷ 0 ∷ 0 ∷ 0 ∷ 0 ∷ 1 ∷ 255 ∷ 0 ∷ 0 ∷ 2 ∷ 7 ∷ []

cut_short_fails : decode 1 cut_short ≡ err (truncated_body 0)
unfolding decode slice
cut_short_fails = refl

-- A header alone, of one page more than there is room for.
abbrev crowded : Bytes
crowded = b'T' ∷ b'G' ∷ b'D' ∷ b'R' ∷ 1 ∷ 0 ∷ 0 ∷ 0 ∷ 0 ∷ 0 ∷ 0 ∷ 9 ∷ []

crowded_fails : decode 8 crowded ≡ err out_of_memory
unfolding decode slice
crowded_fails = refl

decode-ne-panicked_example : decode 1 cut_short ≢ err panicked
decode-ne-panicked_example = decode-ne-panicked 1 cut_short
