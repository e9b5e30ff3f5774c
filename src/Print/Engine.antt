-- ===== src/Print/Engine.antt =====
-- internal/app/print/engine.go: a job runs through the stages of its pipeline. The resolver and the
-- profiles are the ports that the engine is built with; logging is left out. The lock around the
-- calibration makes reading it one step.
pub mod Capability
use tera_agent.Base.{Bool, Option, none, some, ◌&&◌, String, str_eq}
use tera_agent.Base.Int.{ℤ, pos}
use tera_agent.Failure.{Result, ok, err, ◌>>=◌}
use tera_agent.Printing.{
  Bytes, SourceFormat, PrinterProfile, PrintJob, RenderOptions, EncodeOptions, Pipeline,
}
use tera_agent.Printing.Device

pub record Engine (Image W : Type 0) : Type 0 where
  pub resolver : SourceFormat → PrinterProfile → Result (Pipeline Image W)
  pub profiles : String → Result PrinterProfile
  pub tuning : Option (String → ℤ × ℤ)

abbrev tuned : Option (String → ℤ × ℤ) → String → ℤ × ℤ
tuned none printer_id = (pos 0, pos 0)
tuned (some tune) printer_id = tune printer_id

module _ {Image W : Type 0} where
  unfoldable pub set_tuning : Engine Image W → (String → ℤ × ℤ) → Engine Image W
  set_tuning e fn = record e { tuning = some fn }

  render_options : PrinterProfile → Pipeline Image W → RenderOptions
  render_options profile pipe = record {
    width_dots = profile.width_dots;
    dpi = profile.dpi;
    color = str_eq pipe.encoder.produces Device.gdi_raster;
  }

  encode_options : Engine Image W → PrintJob → PrinterProfile → EncodeOptions
  encode_options e job profile =
      let (cut_feed_dots, top_margin_dots) = tuned e.tuning job.printer_id in
      record {
        width_dots = profile.width_dots;
        cut = profile.supports_cut && job.options.cut;
        open_drawer = profile.supports_drawer && job.options.open_drawer;
        cut_feed_dots = cut_feed_dots;
        top_margin_dots = top_margin_dots;
      }

  -- The stages before the driver: a pipeline and the bytes for its driver.
  pub prepare : Engine Image W → PrintJob → PrinterProfile → Result (Pipeline Image W × Bytes)
  unfolding render_options encode_options
  prepare e job profile = do
    pipe ← e.resolver job.format profile
    artifact ← pipe.renderer.render job.content (render_options profile pipe)
    content ← pipe.encoder.encode artifact (encode_options e job profile)
    ok (pipe, content)

  send_prepared : String → Result (Pipeline Image W × Bytes) → W → Result (Unit {0}) × W
  send_prepared printer_id (err x) w = (err x, w)
  send_prepared printer_id (ok (pipe, content)) w = pipe.driver.send printer_id content w

  unfoldable pub print_with_profile :
      Engine Image W → PrintJob → PrinterProfile → W → Result (Unit {0}) × W
  unfolding send_prepared
  print_with_profile e job profile w = send_prepared job.printer_id (prepare e job profile) w

  with_profile : Engine Image W → PrintJob → Result PrinterProfile → W → Result (Unit {0}) × W
  with_profile e job (err x) w = (err x, w)
  with_profile e job (ok profile) w = print_with_profile e job profile w

  unfoldable pub print : Engine Image W → PrintJob → W → Result (Unit {0}) × W
  unfolding with_profile
  print e job w = with_profile e job (e.profiles job.printer_id) w
