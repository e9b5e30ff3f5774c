-- ===== src/Print/Resolver.antt =====
-- internal/app/print/resolver.go: a pipeline is composed from what the components say they can do.
pub mod Sound
pub mod Complete
use tera_agent.Base.{
  Bool, true, false, Option, none, some, List, [], ◌∷◌, ◌++◌, ◌&&◌, not, String, str_eq,
  if◌then◌else◌,
}
use tera_agent.Failure.{
  Result, ok, err, Reason, no_driver, no_encoder, no_renderer, no_native_formats, no_pipeline,
}
use tera_agent.Printing.{
  SourceFormat, DeviceFormat, ArtifactKind, PrinterProfile, Renderer, Encoder, Driver, Pipeline,
  source_is_device,
}
use tera_agent.Print.Passthrough.{passthrough_renderer, passthrough_encoder}

pub record Resolver (Image W : Type 0) : Type 0 where
  pub renderers : List (Renderer Image)
  pub encoders : List (Encoder Image)
  pub drivers : List (Driver W)

-- What the loop over `r.encoders` ends with: a pair that fits, or whether an encoder was found.
pub data Search (Image : Type 0) : Type 0 where
  fits : Renderer Image → Encoder Image → Search Image
  misses : Bool → Search Image

-- One round of the loop over the native formats: a pipeline, or the reason why there is none.
pub data Round (Image W : Type 0) : Type 0 where
  composed : Pipeline Image W → Round Image W
  failed : Reason → Round Image W

module _ {W : Type 0} where
  -- `driverFor`: the first driver that accepts the format.
  unfoldable pub driver_for : DeviceFormat → List (Driver W) → Option (Driver W)
  driver_for f [] = none
  driver_for f (d ∷ ds) = if d.accepts f then some d else driver_for f ds

module _ {Image : Type 0} where
  -- The loop over `r.renderers`.
  pub renderer_for : SourceFormat → ArtifactKind → List (Renderer Image) → Option (Renderer Image)
  renderer_for format kind [] = none
  renderer_for format kind (r ∷ rs) =
      if r.can_render format && str_eq r.produces kind then some r else renderer_for format kind rs

  pair_with : Encoder Image → Option (Renderer Image) → Search Image → Search Image
  pair_with e none rest = rest
  pair_with e (some r) rest = fits r e

  -- The loop over `r.encoders`, with `encoderFound`.
  pub encoder_loop :
      SourceFormat
      → DeviceFormat
      → List (Renderer Image)
      → List (Encoder Image)
      → Bool
      → Search Image
  unfolding pair_with
  encoder_loop format target rs [] found = misses found
  encoder_loop format target rs (e ∷ es) found =
      let next = encoder_loop format target rs es found in
      let tried =
        pair_with e (renderer_for format e.accepts rs) (encoder_loop format target rs es true) in
      if not (str_eq e.produces target) then next else tried

module _ {Image W : Type 0} where
  compose : SourceFormat → DeviceFormat → Driver W → Search Image → Round Image W
  compose format target d (fits r e) = composed (record { renderer = r; encoder = e; driver = d })
  compose format target d (misses true) = failed (no_renderer target format)
  compose format target d (misses false) = failed (no_encoder target)

  with_driver : Resolver Image W → SourceFormat → DeviceFormat → Option (Driver W) → Round Image W
  unfolding compose
  with_driver r format target none = failed (no_driver target)
  with_driver r format target (some d) =
      if source_is_device format target
      then composed (record {
        renderer = passthrough_renderer Image target;
        encoder = passthrough_encoder Image target;
        driver = d;
      })
      else compose format target d (encoder_loop format target r.renderers r.encoders false)

  unfoldable pub round : Resolver Image W → SourceFormat → DeviceFormat → Round Image W
  unfolding with_driver
  round r format target = with_driver r format target (driver_for target r.drivers)

  conclude :
      SourceFormat
      → String
      → List Reason
      → Round Image W
      → (List Reason → Result (Pipeline Image W))
      → Result (Pipeline Image W)
  conclude format printer reasons (composed p) rest = ok p
  conclude format printer reasons (failed why) rest = rest (reasons ++ why ∷ [])

  -- The loop over `profile.NativeFormats`, with the reasons met so far.
  unfoldable pub resolve_loop :
      Resolver Image W
      → SourceFormat
      → String
      → List DeviceFormat
      → List Reason
      → Result (Pipeline Image W)
  unfolding conclude
  resolve_loop r format printer [] reasons = err (no_pipeline format printer reasons)
  resolve_loop r format printer (target ∷ targets) reasons =
      conclude format printer reasons (round r format target)
        (resolve_loop r format printer targets)

  unfoldable pub resolve :
      Resolver Image W → SourceFormat → PrinterProfile → Result (Pipeline Image W)
  resolve r format profile = elim profile.native_formats [
    | [] ↦ err (no_native_formats profile.printer_id)
    | f ∷ fs ↦ resolve_loop r format profile.printer_id (f ∷ fs) []
  ]
