-- ===== src/Print/Engine/Capability.antt =====
-- What of a job reaches the printer, and when the printer is reached at all.
use tera_agent.Base.{◌≡◌, ◌⊎◌, inl, inr, refl, ap, Bool, true, ◌&&◌, some, List, ◌∷◌, arith}
use tera_agent.Failure.{Error, ok, err, Result-cases}
use tera_agent.Printing.{
  Bytes, DeviceFormat, PrinterProfile, PrintJob, Options, Driver, Pipeline, source_is_device,
}
use tera_agent.Print.Resolver
use tera_agent.Print.Resolver.{Resolver, driver_for}
use tera_agent.Print.Resolver.Sound.{resolve_passthrough}
use tera_agent.Print.Passthrough.{passthrough_renderer, passthrough_encoder}
use tera_agent.Print.Engine.{
  Engine, prepare, send_prepared, print_with_profile, with_profile, print,
}

-- What a printer with this profile can be asked for.
abbrev pub granted : PrinterProfile → Options → Bool × Bool
granted profile o = (profile.supports_cut && o.cut, profile.supports_drawer && o.open_drawer)

module _ {Image W : Type 0} where
  -- Two jobs that differ only in their options, and whose options agree on what the profile supports,
  -- print alike: the same result and the same effect. In particular a cut or a drawer kick that the
  -- profile does not support changes nothing, and neither does the number of copies.
  pub print_with_profile-granted :
      (e : Engine Image W) (job : PrintJob) (o : Options) (profile : PrinterProfile) (w : W)
      → granted profile job.options ≡ granted profile o
      → print_with_profile e job profile w
        ≡ print_with_profile e (record job { options = o }) profile w
  unfolding print_with_profile prepare
  print_with_profile-granted e job o profile w h =
      let cuts : (profile.supports_cut && job.options.cut) ≡ (profile.supports_cut && o.cut) =
        ap (λ (g : Bool × Bool). g.0) h in
      let kicks : (profile.supports_drawer && job.options.open_drawer)
          ≡ (profile.supports_drawer && o.open_drawer) =
        ap (λ (g : Bool × Bool). g.1) h in
      simp (cuts, kicks)

  prepare_pipe :
      (e : Engine Image W) (job : PrintJob) (profile : PrinterProfile) (pipe : Pipeline Image W)
      (content : Bytes)
      → prepare e job profile ≡ ok (pipe, content)
      → e.resolver job.format profile ≡ ok pipe
  unfolding prepare
  prepare_pipe e job profile pipe content h = ground arith

  -- A print either fails before the driver, and then nothing outside has changed, or it is exactly
  -- one `Send` of the driver of the pipeline that the resolver gave for the printer's profile.
  pub print_sends_once :
      (e : Engine Image W) (job : PrintJob) (w : W)
      → ((x : Error) × (print e job w ≡ (err x, w)))
        ⊎ ((profile : PrinterProfile) × (pipe : Pipeline Image W) × (content : Bytes) × (e.profiles
                job.printer_id
              ≡ ok profile)
            × (e.resolver job.format profile ≡ ok pipe)
            × (print e job w ≡ pipe.driver.send job.printer_id content w))
  unfolding print print_with_profile
  print_sends_once e job w = elim (Result-cases (e.profiles job.printer_id)) [
    | inr (x, q) ↦ inl (x, rw (q, with_profile) refl)
    | inl (profile, q) ↦ elim (Result-cases (prepare e job profile)) [
      | inr (x, r) ↦ inl (x, rw (q, with_profile) (rw (r, send_prepared) refl))
      | inl ((pipe, content), r) ↦ inr (
        profile,
        pipe,
        content,
        q,
        prepare_pipe e job profile pipe content r,
        rw (q, with_profile) (rw (r, send_prepared) refl),
      )
    ]
  ]

  -- A document that is already in the first native format of its printer, and that some driver
  -- accepts, is sent unchanged to the first driver that accepts it, whatever the job's options.
  print_passthrough :
      (r : Resolver Image W) (e : Engine Image W) (job : PrintJob) (profile : PrinterProfile)
      (target : DeviceFormat) (rest : List DeviceFormat) (d : Driver W) (w : W)
      → e.resolver ≡ Resolver.resolve r
      → e.profiles job.printer_id ≡ ok profile
      → profile.native_formats ≡ target ∷ rest
      → source_is_device job.format target ≡ true
      → driver_for target r.drivers ≡ some d
      → print e job w ≡ d.send job.printer_id job.content w
  unfolding print print_with_profile prepare passthrough_renderer passthrough_encoder
  print_passthrough r e job profile target rest d w er ep ef es ed =
      rw (ep, with_profile)
        (rw er (rw (resolve_passthrough r job.format profile target rest d ef es ed)))
