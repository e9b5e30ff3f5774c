-- ===== src/Print/Resolver/Complete.antt =====
-- `Resolve` finds the first native format that can be served, and explains a refusal.
use tera_agent.Base.{
  ◌≡◌, ◌≢◌, ◌⊎◌, inl, inr, refl, ap, sym, subst, List, [], ◌∷◌, ◌++◌, All, All-Memᴰ, String,
  append_assoc, append-nil,
}
use tera_agent.Failure.{Error, ok, err, Reason, no_driver, no_encoder, no_renderer, no_pipeline}
use tera_agent.Printing.{SourceFormat, DeviceFormat, PrinterProfile, Pipeline}
use tera_agent.Print.Resolver.{
  Resolver, Round, composed, failed, round, conclude, resolve_loop, resolve,
}
use tera_agent.Print.Resolver.Sound.{Serves, Explains, round_composed, round_failed}

module _ {Image W : Type 0} (r : Resolver Image W) (format : SourceFormat) where
  -- No pipeline of these components serves the format on the device.
  abbrev pub Unserved : DeviceFormat → Type 0
  Unserved target = (p : Pipeline Image W) → ¬ Serves r format target p

  Explains-Unserved :
      (target : DeviceFormat) (why : Reason) → Explains r format target why → Unserved target
  Explains-Unserved target (no_driver t) (_, none_accepts) p s =
      cc (s.driver_accepts, All-Memᴰ _ _ none_accepts s.driver_listed)
  Explains-Unserved target (no_encoder t) (_, device, none_makes) p s = elim s.converts [
    | inl (direct, _, _) ↦ cc
    | inr (_, made) ↦ All-Memᴰ _ _ none_makes made.encoder_listed made.encodes
  ]
  Explains-Unserved target (no_renderer t f) (_, _, device, unpaired) p s = elim s.converts [
    | inl (direct, _, _) ↦ cc
    | inr (_, made) ↦
        All-Memᴰ _ _ (All-Memᴰ _ _ unpaired made.encoder_listed made.encodes) made.renderer_listed
          made.joins
  ]

  -- One reason for each format, in order.
  abbrev pub ExplainsAll : List DeviceFormat → List Reason → Type 0
  ExplainsAll [] [] = Unit
  ExplainsAll (t ∷ ts) (why ∷ whys) = Explains r format t why × ExplainsAll ts whys
  ExplainsAll [] (why ∷ whys) = ⊥
  ExplainsAll (t ∷ ts) [] = ⊥

  -- The first of the formats that the pipeline serves, none before it being served.
  abbrev pub First : List DeviceFormat → Pipeline Image W → Type 0
  First targets p =
      (before : List DeviceFormat) × (target : DeviceFormat) × (after : List DeviceFormat)
      × (targets ≡ before ++ target ∷ after)
      × All Unserved before
      × Serves r format target p

  Refused : String → List DeviceFormat → List Reason → Error → Type 0
  Refused printer targets reasons e =
      (whys : List Reason) × (e ≡ no_pipeline format printer (reasons ++ whys))
      × ExplainsAll targets whys

  Round-cases :
      (o : Round Image W)
      → ((p : Pipeline Image W) × (o ≡ composed p)) ⊎ ((why : Reason) × (o ≡ failed why))
  Round-cases (composed p) = inl (p, refl)
  Round-cases (failed why) = inr (why, refl)

  ok-injective : {p q : Pipeline Image W} → ok p ≡ ok q → p ≡ q
  ok-injective h = cc

  clash : {p : Pipeline Image W} {x : Error} → ok p ≡ err x → ⊥
  clash h = cc

  resolve_loop_ok :
      (printer : String) (targets : List DeviceFormat) (reasons : List Reason)
      (p : Pipeline Image W)
      → resolve_loop r format printer targets reasons ≡ ok p
      → First targets p
  unfolding resolve_loop
  resolve_loop_ok printer [] reasons p h = absurd (cc)
  resolve_loop_ok printer (t ∷ ts) reasons p h = elim (Round-cases (round r format t)) [
    | inl (q, e) ↦ (
      [],
      t,
      ts,
      refl,
      tt,
      subst (Serves r format t) (ok-injective (rw (e, conclude) at h))
          (round_composed r format t q e),
    )
    | inr (why, e) ↦
        let (before, target, after, parts, unserved, serves) =
          resolve_loop_ok printer ts (reasons ++ why ∷ []) p (rw (e, conclude) at h) in
        (
          t ∷ before,
          target,
          after,
          ap (λ l. t ∷ l) parts,
          (Explains-Unserved t why (round_failed r format t why e), unserved),
          serves,
        )
  ]

  resolve_loop_err :
      (printer : String) (targets : List DeviceFormat) (reasons : List Reason) (x : Error)
      → resolve_loop r format printer targets reasons ≡ err x
      → Refused printer targets reasons x
  unfolding resolve_loop Refused
  resolve_loop_err printer [] reasons x h = ([], rw append-nil (cc), tt)
  resolve_loop_err printer (t ∷ ts) reasons x h = elim (Round-cases (round r format t)) [
    | inl (q, e) ↦ absurd (clash (rw (e, conclude) at h))
    | inr (why, e) ↦
        let (whys, q, explains) =
          resolve_loop_err printer ts (reasons ++ why ∷ []) x (rw (e, conclude) at h) in
        (why ∷ whys, rw append_assoc at q, (round_failed r format t why e, explains))
  ]

  Explains-All :
      (targets : List DeviceFormat) (whys : List Reason)
      → ExplainsAll targets whys
      → All Unserved targets
  Explains-All [] [] h = tt
  Explains-All (t ∷ ts) (why ∷ whys) (h, hs) = (Explains-Unserved t why h, Explains-All ts whys hs)
  Explains-All [] (why ∷ whys) h = absurd h
  Explains-All (t ∷ ts) [] h = absurd h

module _ {Image W : Type 0} where
  -- A pipeline that `Resolve` returns serves one of the profile's native formats, and no pipeline of
  -- these components serves any format that the profile lists before that one.
  pub resolve-First :
      (r : Resolver Image W) (format : SourceFormat) (profile : PrinterProfile)
      (p : Pipeline Image W)
      → resolve r format profile ≡ ok p
      → First r format profile.native_formats p
  unfolding resolve
  resolve-First r format profile p h = go profile.native_formats refl
    where
      go : (fs : List DeviceFormat) → profile.native_formats ≡ fs → First r format fs p
      go [] e = absurd (clash r format (sym (rw (e, resolve) at h)))
      go (f ∷ fs) e = resolve_loop_ok r format profile.printer_id (f ∷ fs) [] p (rw e at h)

  -- When `Resolve` refuses a profile that has native formats, its error names the format, the printer
  -- and one true reason for each native format, in their order, and no pipeline of these components
  -- serves any of the formats.
  pub resolve_refusal :
      (r : Resolver Image W) (format : SourceFormat) (profile : PrinterProfile) (x : Error)
      → profile.native_formats ≢ []
      → resolve r format profile ≡ err x
      → (whys : List Reason) × (x ≡ no_pipeline format profile.printer_id whys)
        × ExplainsAll r format profile.native_formats whys
        × All (Unserved r format) profile.native_formats
  unfolding resolve Refused
  resolve_refusal r format profile x some_format h = go profile.native_formats refl
    where
      go :
          (fs : List DeviceFormat)
          → profile.native_formats ≡ fs
          → (whys : List Reason) × (x ≡ no_pipeline format profile.printer_id whys)
            × ExplainsAll r format fs whys
            × All (Unserved r format) fs
      go [] e = absurd (some_format e)
      go (f ∷ fs) e =
          let (whys, q, explains) =
            resolve_loop_err r format profile.printer_id (f ∷ fs) [] x (rw e at h) in
          (whys, q, explains, Explains-All r format (f ∷ fs) whys explains)
