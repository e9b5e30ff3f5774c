-- ===== src/Print/Resolver/Sound.antt =====
-- What a composed pipeline is made of, and why there is none where there is none.
use tera_agent.Base.{
  ◌≡◌, ◌≢◌, ◌⊎◌, inl, inr, refl, sym, subst, Bool, true, false, Bool-cases, Option-cases, none,
  some, List, [], ◌∷◌, All, str_eq, eq_iff, arith,
}
use tera_agent.Failure.{ok, Reason, no_driver, no_encoder, no_renderer}
use tera_agent.Printing.{
  SourceFormat, DeviceFormat, PrinterProfile, Renderer, Encoder, Driver, Pipeline, source_is_device,
}
use tera_agent.Print.Passthrough.{passthrough_renderer, passthrough_encoder}
use tera_agent.Print.Resolver.{
  Resolver, Search, fits, misses, Round, composed, failed, driver_for, renderer_for, encoder_loop,
  compose, with_driver, round, resolve_loop, resolve,
}
use mathlib.Core.List.{Memᴰ}

module _ {W : Type 0} where
  driver_for_found :
      (f : DeviceFormat) (ds : List (Driver W)) (d : Driver W)
      → driver_for f ds ≡ some d
      → Memᴰ d ds × (d.accepts f ≡ true)
  unfolding driver_for
  driver_for_found f [] d h = cc
  driver_for_found f (x ∷ xs) d h = elim (now_or_later) [
    | inl (q, e) ↦ (Memᴰ.head (sym q), subst (λ y. y.accepts f ≡ true) q e)
    | inr later ↦ let (m, e) = driver_for_found f xs d later in (Memᴰ.tail m, e)
  ]
    where
      now_or_later : ((x ≡ d) × (x.accepts f ≡ true)) ⊎ (driver_for f xs ≡ some d)
      now_or_later = ground arith

  driver_for_missing :
      (f : DeviceFormat) (ds : List (Driver W))
      → driver_for f ds ≡ none
      → All (λ d. d.accepts f ≡ false) ds
  unfolding driver_for
  driver_for_missing f [] h = tt
  driver_for_missing f (x ∷ xs) h = ground (arith, driver_for_missing f xs)

-- The renderer turns the format into what the encoder takes.
pub record Joins {Image : Type 0} (format : SourceFormat) (n : Renderer Image) (e : Encoder Image)
    : Type 0 where
  pub renders : n.can_render format ≡ true
  pub meets : n.produces ≡ e.accepts

module _ {Image : Type 0} where
  renderer_for_found :
      (format : SourceFormat) (e : Encoder Image) (ns : List (Renderer Image)) (n : Renderer Image)
      → renderer_for format e.accepts ns ≡ some n
      → Memᴰ n ns × Joins format n e
  unfolding renderer_for
  renderer_for_found format e [] n h = cc
  renderer_for_found format e (x ∷ xs) n h = elim now_or_later [
    | inl (q, r, k) ↦
        (Memᴰ.head (sym q), subst (λ y. Joins format y e) q (record { renders = r; meets = k }))
    | inr later ↦ let (m, j) = renderer_for_found format e xs n later in (Memᴰ.tail m, j)
  ]
    where
      now_or_later :
          ((x ≡ n) × (x.can_render format ≡ true) × (x.produces ≡ e.accepts))
          ⊎ (renderer_for format e.accepts xs ≡ some n)
      now_or_later = ground (arith, eq_iff x.produces e.accepts)

  renderer_for_missing :
      (format : SourceFormat) (e : Encoder Image) (ns : List (Renderer Image))
      → renderer_for format e.accepts ns ≡ none
      → All (λ n. ¬ Joins format n e) ns
  unfolding renderer_for
  renderer_for_missing format e [] h = tt
  renderer_for_missing format e (x ∷ xs) h = (
    λ j. ground (arith, eq_iff x.produces e.accepts, j.renders, j.meets),
    renderer_for_missing format e xs (ground (arith, eq_iff x.produces e.accepts)),
  )

  -- The encoder makes the target format from what one of the renderers makes of the source.
  pub record Makes (format : SourceFormat) (target : DeviceFormat) (ns : List (Renderer Image))
      (es : List (Encoder Image)) (n : Renderer Image) (e : Encoder Image) : Type 0 where
    pub encoder_listed : Memᴰ e es
    pub encodes : e.produces ≡ target
    pub renderer_listed : Memᴰ n ns
    pub joins : Joins format n e

module _ {Image : Type 0} where
  later_Makes :
      {format : SourceFormat} {target : DeviceFormat} {ns : List (Renderer Image)}
      {es : List (Encoder Image)} {n : Renderer Image} {e x : Encoder Image}
      → Makes format target ns es n e
      → Makes format target ns (x ∷ es) n e
  later_Makes m = record {
    encoder_listed = Memᴰ.tail m.encoder_listed;
    encodes = m.encodes;
    renderer_listed = m.renderer_listed;
    joins = m.joins;
  }

  encoder_loop_fits :
      (format : SourceFormat) (target : DeviceFormat) (ns : List (Renderer Image))
      (es : List (Encoder Image)) (found : Bool) (n : Renderer Image) (e : Encoder Image)
      → encoder_loop format target ns es found ≡ fits n e
      → Makes format target ns es n e
  unfolding encoder_loop
  encoder_loop_fits format target ns [] found n e h = cc
  encoder_loop_fits format target ns (x ∷ xs) found n e h = elim split [
    | inl (r, q, k, hr, he) ↦
        let (m, j) = renderer_for_found format x ns r q in
        subst (λ y. Makes format target ns (x ∷ xs) y e) hr
          (subst (λ y. Makes format target ns (x ∷ xs) r y) he
            (record {
              encoder_listed = Memᴰ.head refl;
              encodes = k;
              renderer_listed = m;
              joins = j;
            }))
    | inr (b, later) ↦ later_Makes (encoder_loop_fits format target ns xs b n e later)
  ]
    where
      split :
          ((r : Renderer Image) × (renderer_for format x.accepts ns ≡ some r)
            × (x.produces ≡ target)
            × (r ≡ n)
            × (x ≡ e))
          ⊎ ((b : Bool) × (encoder_loop format target ns xs b ≡ fits n e))
      split = elim (Bool-cases (str_eq x.produces target)) [
        | inr different ↦ inr (found, ground arith)
        | inl same ↦ elim (Option-cases (renderer_for format x.accepts ns)) [
          | inl q ↦ inr (true, ground arith)
          | inr (r, q) ↦ inl (r, q, (eq_iff x.produces target).0 same, ground arith, ground arith)
        ]
      ]

  -- An encoder that makes the target format, and that no renderer joins.
  abbrev pub NoPair : SourceFormat → DeviceFormat → List (Renderer Image) → Encoder Image → Type 0
  NoPair format target ns e = e.produces ≡ target → All (λ n. ¬ Joins format n e) ns

  encoder_loop_misses :
      (format : SourceFormat) (target : DeviceFormat) (ns : List (Renderer Image))
      (es : List (Encoder Image)) (found b : Bool)
      → encoder_loop format target ns es found ≡ misses b
      → All (NoPair format target ns) es
        × (b ≡ false → (found ≡ false) × All (λ e. e.produces ≢ target) es)
  unfolding encoder_loop
  encoder_loop_misses format target ns [] found b h = (tt, (λ e. (cc, tt)))
  encoder_loop_misses format target ns (x ∷ xs) found b h =
      elim (Bool-cases (str_eq x.produces target)) [
        | inr different ↦
            let differs : x.produces ≢ target = λ q. ground (arith, eq_iff x.produces target) in
            let (rest, none_made) =
              encoder_loop_misses format target ns xs found b (ground arith) in
            (((λ q. absurd (differs q)), rest), λ e. ((none_made e).0, (differs, (none_made e).1)))
        | inl same ↦ elim (Option-cases (renderer_for format x.accepts ns)) [
          | inl q ↦
              let (rest, none_made) =
                encoder_loop_misses format target ns xs true b (ground arith) in
              (((λ _. renderer_for_missing format x ns q), rest), λ e. cc ((none_made e).0))
          | inr (r, q) ↦ absurd (ground arith)
        ]
      ]

module _ {Image W : Type 0} where
  composed-injective : {p q : Pipeline Image W} → composed p ≡ composed q → p ≡ q
  composed-injective h = cc

  failed-injective : {x y : Reason} → ◌≡◌ {A = Round Image W} (failed x) (failed y) → x ≡ y
  failed-injective h = cc

  -- How a pipeline serves a format on a device: its driver is listed and accepts the device's
  -- format, and either the source is in that format already and passes through, or a listed encoder
  -- makes the format from what a listed renderer makes of the source.
  pub record Serves (r : Resolver Image W) (format : SourceFormat) (target : DeviceFormat)
      (p : Pipeline Image W) : Type 0 where
    pub driver_listed : Memᴰ p.driver r.drivers
    pub driver_accepts : p.driver.accepts target ≡ true
    pub converts :
        ((source_is_device format target ≡ true)
          × (p.renderer ≡ passthrough_renderer Image target)
          × (p.encoder ≡ passthrough_encoder Image target))
        ⊎ ((source_is_device format target ≡ false)
            × Makes format target r.renderers r.encoders p.renderer p.encoder)

  -- Why no pipeline serves a format on a device.
  abbrev pub Explains : Resolver Image W → SourceFormat → DeviceFormat → Reason → Type 0
  Explains r format target (no_driver t) =
      (t ≡ target) × All (λ d. d.accepts target ≡ false) r.drivers
  Explains r format target (no_encoder t) =
      (t ≡ target)
      × (source_is_device format target ≡ false)
      × All (λ e. e.produces ≢ target) r.encoders
  Explains r format target (no_renderer t s) =
      (t ≡ target)
      × (s ≡ format)
      × (source_is_device format target ≡ false)
      × All (NoPair format target r.renderers) r.encoders

  module _ (r : Resolver Image W) (format : SourceFormat) (target : DeviceFormat) where
    compose-Serves :
        (d : Driver W) (s : Search Image) (p : Pipeline Image W)
        → Memᴰ d r.drivers
        → d.accepts target ≡ true
        → source_is_device format target ≡ false
        → encoder_loop format target r.renderers r.encoders false ≡ s
        → compose format target d s ≡ composed p
        → Serves r format target p
    unfolding compose
    compose-Serves d (fits n e) p listed accepts device found h =
        let made = encoder_loop_fits format target r.renderers r.encoders false n e found in
        subst (Serves r format target) (composed-injective h) (record {
          driver_listed = listed;
          driver_accepts = accepts;
          converts = inr (device, made);
        })
    compose-Serves d (misses true) p listed accepts device found h = absurd (cc)
    compose-Serves d (misses false) p listed accepts device found h = absurd (cc)

    compose-Explains :
        (d : Driver W) (s : Search Image) (why : Reason)
        → source_is_device format target ≡ false
        → encoder_loop format target r.renderers r.encoders false ≡ s
        → compose format target d s ≡ failed why
        → Explains r format target why
    unfolding compose
    compose-Explains d (fits n e) why device found h = absurd (cc)
    compose-Explains d (misses true) why device found h =
        let (unpaired, _) = encoder_loop_misses format target _ _ false true found in
        subst (Explains r format target) (failed-injective h) (refl, refl, device, unpaired)
    compose-Explains d (misses false) why device found h =
        let (_, none_made) = encoder_loop_misses format target _ _ false false found in
        subst (Explains r format target) (failed-injective h) (refl, device, (none_made refl).1)

    pub round_composed :
        (p : Pipeline Image W) → round r format target ≡ composed p → Serves r format target p
    unfolding round
    round_composed p h = elim (Option-cases (driver_for target r.drivers)) [
      | inl e ↦ absurd (ground arith)
      | inr (d, e) ↦
          let (listed, accepts) = driver_for_found target r.drivers d e in
          elim (Bool-cases (source_is_device format target)) [
            | inl device ↦
                subst (Serves r format target)
                  (composed-injective (rw (e, with_driver, device) at h))
                  (record {
                    driver_listed = listed;
                    driver_accepts = accepts;
                    converts = inl (device, refl, refl);
                  })
            | inr device ↦
                compose-Serves d _ p listed accepts device refl (rw (e, with_driver, device) at h)
          ]
    ]

    pub round_failed :
        (why : Reason) → round r format target ≡ failed why → Explains r format target why
    unfolding round
    round_failed why h = elim (Option-cases (driver_for target r.drivers)) [
      | inl e ↦
          subst (Explains r format target) (failed-injective (rw (e, with_driver) at h))
            (refl, driver_for_missing target r.drivers e)
      | inr (d, e) ↦ elim (Bool-cases (source_is_device format target)) [
        | inl device ↦ absurd (ground arith)
        | inr device ↦ compose-Explains d _ why device refl (rw (e, with_driver, device) at h)
      ]
    ]

  -- A source that is in the first native format already is passed through.
  pub resolve_passthrough :
      (r : Resolver Image W) (format : SourceFormat) (profile : PrinterProfile)
      (target : DeviceFormat) (rest : List DeviceFormat) (d : Driver W)
      → profile.native_formats ≡ target ∷ rest
      → source_is_device format target ≡ true
      → driver_for target r.drivers ≡ some d
      → resolve r format profile
        ≡ ok (record {
          renderer = passthrough_renderer Image target;
          encoder = passthrough_encoder Image target;
          driver = d;
        })
  unfolding resolve resolve_loop round
  resolve_passthrough r format profile target rest d ef es ed =
      rw (ef, resolve) (rw (ed, with_driver) (rw es))
