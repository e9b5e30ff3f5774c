-- ===== src/Raster.antt =====
-- internal/adapters/printing/encoder/raster/multipng.go: the pages of a raster as PNG files in one
-- container, which the driver of Windows takes apart. `png` stands for `png.Encode`, `room` for the
-- number of pages that the memory has room to list. An `int` has 64 bits, so that no length of a page
-- overflows it.
pub mod RoundTrip
mod Tests
use tera_agent.Base.{
  ℕ, zero, suc, ◌+◌, ◌*◌, ◌/◌, ◌%◌, Bool, true, false, ◌&&◌, List, [], ◌∷◌, ◌++◌, ltb, ◌==◌, String,
  if◌then◌else◌, length,
}
use tera_agent.Failure.{
  Result, ok, err, ◌>>=◌, slice, byte_at, panicked, out_of_memory, wrong_artifact, empty_artifact,
  short_header, bad_magic, unsupported_version, truncated_header, truncated_body,
}
use tera_agent.Printing.{Bytes, Artifact, artifact_kind, raster_artifact, EncodeOptions, Encoder}
use tera_agent.Printing.Device
use tera_agent.Printing.Kind

abbrev pub magic : Bytes
magic = b'T' ∷ b'G' ∷ b'D' ∷ b'R' ∷ []

abbrev pub version : ℕ
version = 1

-- `binary.Write` of a `uint32`, most significant byte first.
abbrev pub put_uint32 : ℕ → Bytes
put_uint32 n = (n / 16777216 % 256) ∷ (n / 65536 % 256) ∷ (n / 256 % 256) ∷ (n % 256) ∷ []

-- `binary.BigEndian.Uint32`, which panics on fewer than four bytes.
abbrev pub uint32 : Bytes → Result ℕ
uint32 (a ∷ b ∷ c ∷ d ∷ rest) = ok (a * 16777216 + b * 65536 + c * 256 + d)
uint32 _ = err panicked

abbrev pub same_bytes : Bytes → Bytes → Bool
same_bytes [] [] = true
same_bytes (a ∷ as') (b ∷ bs) = a == b && same_bytes as' bs
same_bytes _ _ = false

module _ {Image : Type 0} (png : Image → Result Bytes) where
  -- The loop over the pages.
  pub encode_pages : List Image → Result Bytes
  encode_pages [] = ok []
  encode_pages (image ∷ images) = do
    page ← png image
    rest ← encode_pages images
    ok (put_uint32 (length page) ++ (page ++ rest))

  encode_all : List Image → Result Bytes
  unfolding encode_pages
  encode_all [] = err empty_artifact
  encode_all (image ∷ images) = do
    body ← encode_pages (image ∷ images)
    ok (magic ++ (version ∷ 0 ∷ 0 ∷ 0 ∷ (put_uint32 (length (image ∷ images)) ++ body)))

  unfoldable pub encode : Artifact Image → EncodeOptions → Result Bytes
  unfolding encode_all
  encode (raster_artifact pages width) options = encode_all pages
  encode a options = err (wrong_artifact (artifact_kind a))

  unfoldable pub new_multi_png : Encoder Image
  new_multi_png = record { accepts = Kind.raster; produces = Device.gdi_raster; encode = encode }

-- The loop of `DecodeMultiPNG`: `n` pages are left, the next is page `i` at `off`.
pub decode_pages : Bytes → ℕ → ℕ → ℕ → Result (List Bytes)
decode_pages content zero i off = ok []
decode_pages content (suc n) i off =
    if ltb (length content) (off + 4)
    then err (truncated_header i)
    else (slice content off (off + 4) >>= λ header. uint32 header >>= λ len.
        if ltb (length content) (off + 4 + len)
        then err (truncated_body i)
        else (slice content (off + 4) (off + 4 + len) >>= λ page.
            decode_pages content n (i + 1) (off + 4 + len) >>= λ rest. ok (page ∷ rest)))

-- The list of the pages is made with the capacity that the header says, before any page is read.
listing : ℕ → Bytes → ℕ → Result (List Bytes)
unfolding decode_pages
listing room content n =
    let pages = decode_pages content n 0 12 in if ltb room n then err out_of_memory else pages

decode_from : ℕ → Bytes → Result (List Bytes)
unfolding listing
decode_from room content = do header ← slice content 8 12; n ← uint32 header; listing room content n

-- `DecodeMultiPNG`.
unfoldable pub decode : ℕ → Bytes → Result (List Bytes)
unfolding decode_from
decode room content =
    if ltb (length content) 12
    then err short_header
    else (slice content 0 4 >>= λ start.
        if same_bytes start magic
        then (byte_at content 4 >>= λ v.
            if v == version then decode_from room content else err (unsupported_version v))
        else err bad_magic)
