-- ===== src/Printing.antt =====
-- internal/domain/printing: formats, artifacts, profiles, jobs and the ports of the print engine.
-- `SourceFormat`, `DeviceFormat` and `ArtifactKind` are string types in the source and may hold any
-- text that the Backend sends, so they are texts here. `Image` stands for `image.Image`, and `W` for
-- the world outside that a driver changes.
pub mod Format
pub mod Device
pub mod Kind
use tera_agent.Base.{
  ℕ, ◌+◌, ◌/◌, Bool, false, Option, none, some, List, [], ◌∷◌, String, str_eq, if◌then◌else◌,
}
use tera_agent.Base.Int.{ℤ}
use tera_agent.Failure.{Result}

abbrev pub Bytes : Type 0
Bytes = List ℕ

abbrev pub SourceFormat : Type 0
SourceFormat = String

abbrev pub DeviceFormat : Type 0
DeviceFormat = String

abbrev pub ArtifactKind : Type 0
ArtifactKind = String

-- `deviceOfSource`: the source formats that are already device-native.
abbrev pub device_of_source : List (SourceFormat × DeviceFormat)
device_of_source =
    (Format.pdf, Device.pdf)
    ∷ (Format.png, Device.png)
    ∷ (Format.escpos, Device.escpos)
    ∷ (Format.zpl, Device.zpl)
    ∷ []

abbrev device_for : SourceFormat → List (SourceFormat × DeviceFormat) → Option DeviceFormat
device_for source [] = none
device_for source ((s, d) ∷ rest) = if str_eq s source then some d else device_for source rest

abbrev is_some_device : Option DeviceFormat → DeviceFormat → Bool
is_some_device none device = false
is_some_device (some d) device = str_eq d device

unfoldable pub source_is_device : SourceFormat → DeviceFormat → Bool
source_is_device source device = is_some_device (device_for source device_of_source) device

pub data Artifact (Image : Type 0) : Type 0 where
  raster_artifact : List Image → ℤ → Artifact Image
  text_artifact : Bytes → Artifact Image
  bytes_artifact : Bytes → DeviceFormat → Artifact Image

abbrev pub artifact_kind : {Image : Type 0} → Artifact Image → ArtifactKind
artifact_kind (raster_artifact pages width) = Kind.raster
artifact_kind (text_artifact body) = Kind.text
artifact_kind (bytes_artifact content format) = Kind.bytes

-- One bit a dot, row-major, `stride` bytes a row, the leftmost dot in the highest bit.
pub record MonoBitmap : Type 0 where
  pub width : ℕ
  pub height : ℕ
  pub bits : Bytes

unfoldable pub stride : MonoBitmap → ℕ
stride m = (m.width + 7) / 8

pub record PrinterProfile : Type 0 where
  pub printer_id : String
  pub native_formats : List DeviceFormat
  pub width_dots : ℤ
  pub dpi : ℤ
  pub supports_cut : Bool
  pub supports_drawer : Bool
  pub meta : List (String × String)

pub record Options : Type 0 where
  pub copies : ℤ
  pub cut : Bool
  pub open_drawer : Bool

pub record PrintJob : Type 0 where
  pub printer_id : String
  pub format : SourceFormat
  pub content : Bytes
  pub options : Options

pub record RenderOptions : Type 0 where
  pub width_dots : ℤ
  pub dpi : ℤ
  pub color : Bool

pub record EncodeOptions : Type 0 where
  pub width_dots : ℤ
  pub cut : Bool
  pub open_drawer : Bool
  pub cut_feed_dots : ℤ
  pub top_margin_dots : ℤ

pub record Renderer (Image : Type 0) : Type 0 where
  pub can_render : SourceFormat → Bool
  pub produces : ArtifactKind
  pub render : Bytes → RenderOptions → Result (Artifact Image)

pub record Encoder (Image : Type 0) : Type 0 where
  pub accepts : ArtifactKind
  pub produces : DeviceFormat
  pub encode : Artifact Image → EncodeOptions → Result Bytes

pub record Driver (W : Type 0) : Type 0 where
  pub accepts : DeviceFormat → Bool
  pub send : String → Bytes → W → Result (Unit {0}) × W

pub record Pipeline (Image W : Type 0) : Type 0 where
  pub renderer : Renderer Image
  pub encoder : Encoder Image
  pub driver : Driver W
