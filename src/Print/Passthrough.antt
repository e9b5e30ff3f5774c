-- ===== src/Print/Passthrough.antt =====
-- internal/app/print/passthrough.go: the stages for a source that is already in the device's format.
use tera_agent.Base.{true}
use tera_agent.Failure.{Result, ok, err, wrong_artifact}
use tera_agent.Printing.{
  Bytes, DeviceFormat, Artifact, bytes_artifact, artifact_kind, EncodeOptions, Renderer, Encoder,
}
use tera_agent.Printing.Kind

module _ {Image : Type 0} where
  encode_bytes : Artifact Image → EncodeOptions → Result Bytes
  encode_bytes (bytes_artifact content format) opts = ok content
  encode_bytes a opts = err (wrong_artifact (artifact_kind a))

module _ (Image : Type 0) where
  unfoldable pub passthrough_renderer : DeviceFormat → Renderer Image
  passthrough_renderer format = record {
    can_render = λ _. true;
    produces = Kind.bytes;
    render = λ content _. ok (bytes_artifact content format);
  }

  unfoldable pub passthrough_encoder : DeviceFormat → Encoder Image
  unfolding encode_bytes
  passthrough_encoder format = record {
    accepts = Kind.bytes;
    produces = format;
    encode = encode_bytes;
  }
