-- ===== src/Raster/RoundTrip.antt =====
-- What is encoded is decoded again, and decoding does not panic.
use tera_agent.Base.{
  ℕ, zero, suc, ◌+◌, ◌-◌, ◌^◌, ◌≤◌, ◌<◌, ◌≡◌, ◌≢◌, refl, sym, ap, ◌∙◌, Bool-cases, inl, inr, List,
  [], ◌∷◌, ◌++◌, ltb, All, length, take, drop, length-append, length-take, length-drop, drop-drop,
  drop-length-append, take-length-append, arith,
}
use tera_agent.Base.Int.{ℤ}
use tera_agent.Failure.{Result, ok, err, slice, slice_ok, byte_at, panicked}
use tera_agent.Printing.{Bytes, EncodeOptions, raster_artifact}
use tera_agent.Raster.{
  magic, version, put_uint32, uint32, encode_pages, encode_all, encode, decode_pages, decode,
}

abbrev pub IsSmall : Bytes → Type 0
IsSmall page = length page < 2 ^ 32

uint32-put_uint32 : (n : ℕ) → n < 2 ^ 32 → uint32 (put_uint32 n) ≡ ok n
uint32-put_uint32 n h = ap ok (omega arith)

-- The pages in the container, behind its header.
framed : List Bytes → Bytes
framed [] = []
framed (page ∷ pages) = put_uint32 (length page) ++ (page ++ framed pages)

drop-before : (xs ys zs : Bytes) (n : ℕ) → drop n xs ≡ ys ++ zs → drop (n + length ys) xs ≡ zs
drop-before xs ys zs n h =
    sym (drop-drop n (length ys) (n + length ys) xs refl)
    ∙ ap (drop (length ys)) h
    ∙ drop-length-append ys zs (length ys) refl

-- A slice of what stands at `n`.
slice-at :
    (xs ys zs : Bytes) (n m : ℕ)
    → drop n xs ≡ ys ++ zs
    → n ≤ length xs
    → m ≡ n + length ys
    → slice xs n m ≡ ok ys
slice-at xs ys zs n m h inside e =
    let total : length xs - n ≡ length ys + length zs =
      sym (length-drop n xs) ∙ ap length h ∙ length-append ys zs in
    slice_ok xs n m (omega arith) (omega arith)
    ∙ ap ok (ap (take (m - n)) h ∙ take-length-append ys zs (m - n) (omega arith))

decode_pages-framed :
    (content : Bytes) (pages : List Bytes) (i off : ℕ)
    → drop off content ≡ framed pages
    → off ≤ length content
    → All IsSmall pages
    → decode_pages content (length pages) i off ≡ ok pages
unfolding decode_pages framed
decode_pages-framed content [] i off h inside small = refl
decode_pages-framed content (page ∷ pages) i off h inside (fits, small) =
    let size = put_uint32 (length page) in
    let total : length content - off ≡ 4 + (length page + length (framed pages)) =
      omega (arith, length-drop off content, ap length h, length-append page (framed pages)) in
    let body : drop (off + 4) content ≡ page ++ framed pages =
      drop-before content size (page ++ framed pages) off h in
    let rest : drop (off + 4 + length page) content ≡ framed pages =
      drop-before content page (framed pages) (off + 4) body in
    let header = slice-at content size (page ++ framed pages) off (off + 4) h inside refl in
    let printed =
      slice-at content page (framed pages) (off + 4) (off + 4 + length page) body (omega arith)
        refl in
    let later =
      decode_pages-framed content pages (i + 1) (off + 4 + length page) rest (omega arith) small in
    ground (arith, header, uint32-put_uint32 (length page) fits, printed, later)

-- The pages are the images, each encoded, in order.
abbrev pub EachEncoded {ℓ} :
    {Image : Type ℓ} → (Image → Result Bytes) → List Image → List Bytes → Type 0
EachEncoded png [] [] = Unit
EachEncoded png (image ∷ images) (page ∷ pages) =
    (png image ≡ ok page) × EachEncoded png images pages
EachEncoded png _ _ = ⊥

length-EachEncoded :
    {Image : Type 0} (png : Image → Result Bytes) (images : List Image) (pages : List Bytes)
    → EachEncoded png images pages
    → length images ≡ length pages
length-EachEncoded png [] [] h = refl
length-EachEncoded png (image ∷ images) (page ∷ pages) (e, h) =
    ap suc (length-EachEncoded png images pages h)
length-EachEncoded png [] (page ∷ pages) h = absurd h
length-EachEncoded png (image ∷ images) [] h = absurd h

encode_pages-framed :
    {Image : Type 0} (png : Image → Result Bytes) (images : List Image) (pages : List Bytes)
    → EachEncoded png images pages
    → encode_pages png images ≡ ok (framed pages)
unfolding encode_pages framed
encode_pages-framed png [] [] h = refl
encode_pages-framed png (image ∷ images) (page ∷ pages) (e, h) =
    rw e (rw (encode_pages-framed png images pages h))
encode_pages-framed png [] (page ∷ pages) h = absurd h
encode_pages-framed png (image ∷ images) [] h = absurd h

abbrev contained : List Bytes → Bytes
contained pages = magic ++ (version ∷ 0 ∷ 0 ∷ 0 ∷ (put_uint32 (length pages) ++ framed pages))

decode-contained :
    (room : ℕ) (pages : List Bytes)
    → length pages ≤ room
    → All IsSmall pages
    → length pages < 2 ^ 32
    → decode room (contained pages) ≡ ok pages
unfolding decode
decode-contained room pages fit small few =
    let content = contained pages in
    let start = slice-at content magic (drop 4 content) 0 4 refl (omega arith) refl in
    let counted =
      slice-at content (put_uint32 (length pages)) (framed pages) 8 12 refl (omega arith) refl in
    let later = decode_pages-framed content pages 0 12 refl (omega arith) small in
    ground (arith, start, counted, uint32-put_uint32 (length pages) few, fit, later)

-- For a nonempty artifact whose images all have a PNG file: the encoder makes a container, and what
-- `DecodeMultiPNG` takes out of it is those files, each once and in order. The files and their number
-- are below 2 ^ 32, and the memory has room to list them.
pub decode-encode :
    {Image : Type 0} (png : Image → Result Bytes) (images : List Image) (pages : List Bytes)
    (width : ℤ) (options : EncodeOptions) (room : ℕ)
    → length pages ≤ room
    → images ≢ []
    → EachEncoded png images pages
    → All IsSmall pages
    → length pages < 2 ^ 32
    → (content : Bytes) × (encode png (raster_artifact images width) options ≡ ok content)
      × (decode room content ≡ ok pages)
unfolding encode encode_all
decode-encode png [] pages width options room fit nonempty h small few = absurd (nonempty refl)
decode-encode png (image ∷ images) pages width options room fit nonempty h small few = (
  contained pages,
  rw (encode_pages-framed png (image ∷ images) pages h) (
      ap (λ n. ok (magic ++ (version ∷ 0 ∷ 0 ∷ 0 ∷ (put_uint32 n ++ framed pages))))
        (length-EachEncoded png (image ∷ images) pages h)),
  decode-contained room pages fit small few,
)

uint32-ok : (xs : Bytes) → length xs ≡ 4 → (n : ℕ) × (uint32 xs ≡ ok n)
uint32-ok (a ∷ b ∷ c ∷ d ∷ rest) h = (_, refl)
uint32-ok [] h = absurd (omega arith)
uint32-ok (a ∷ []) h = absurd (omega arith)
uint32-ok (a ∷ b ∷ []) h = absurd (omega arith)
uint32-ok (a ∷ b ∷ c ∷ []) h = absurd (omega arith)

-- A slice in range, and four bytes in range make a number.
four_at :
    (content : Bytes) (off : ℕ)
    → off + 4 ≤ length content
    → (header : Bytes) × (n : ℕ) × (slice content off (off + 4) ≡ ok header)
      × (uint32 header ≡ ok n)
four_at content off inside =
    let four = take (off + 4 - off) (drop off content) in
    let (n, e) =
      uint32-ok four
        (omega (arith, length-take (off + 4 - off) (drop off content), length-drop off content)) in
    (four, n, slice_ok content off (off + 4) (omega arith) inside, e)

decode_pages-ne-panicked :
    (content : Bytes) (n i off : ℕ) → decode_pages content n i off ≢ err panicked
unfolding decode_pages
decode_pages-ne-panicked content zero i off h = cc
decode_pages-ne-panicked content (suc n) i off h =
    elim (Bool-cases (ltb (length content) (off + 4))) [
      | inl short ↦ cc (rw short at h)
      | inr e ↦
          let (header, len, at_header, number) = four_at content off (ground arith) in
          ground (
            arith,
            e,
            at_header,
            number,
            slice_ok content (off + 4) (off + 4 + len),
            decode_pages-ne-panicked content n (i + 1) (off + 4 + len),
          )
    ]

byte_at-ok : (xs : Bytes) (i : ℕ) → i < length xs → (b : ℕ) × (byte_at xs i ≡ ok b)
byte_at-ok [] i h = absurd (omega arith)
byte_at-ok (x ∷ xs) zero h = (x, refl)
byte_at-ok (x ∷ xs) (suc i) h = byte_at-ok xs i (omega arith)

-- On no input does `DecodeMultiPNG` panic for a slice or an index out of range, whatever the memory
-- has room for.
pub decode-ne-panicked : (room : ℕ) (content : Bytes) → decode room content ≢ err panicked
unfolding decode
decode-ne-panicked room content h = elim (Bool-cases (ltb (length content) 12)) [
  | inl short ↦ cc (rw short at h)
  | inr e ↦
      let (v, at_version) = byte_at-ok content 4 (ground arith) in
      let (header, n, at_header, number) = four_at content 8 (ground arith) in
      ground (
        arith,
        e,
        slice_ok content 0 4,
        at_version,
        at_header,
        number,
        decode_pages-ne-panicked content n 0 12,
      )
]
