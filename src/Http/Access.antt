-- ===== src/Http/Access.antt =====
-- When a request prints, and with which profile.
use Prim.Native.String.{◌++◌ as str_append}
use tera_agent.Base.{
  str_eq-ne, ◌≡◌, ◌≢◌, ◌⊎◌, inl, inr, refl, ap, ◌∙◌, some, false, ◌&&◌, not, Bool-cases, [], ◌∷◌,
  str_eq, eq_iff, arith,
}
use tera_agent.Failure.{Result, ok, Result-cases}
use tera_agent.Printing.{Bytes, PrinterProfile}
use tera_agent.Maps.{get}
use tera_agent.Profiles.Cache
use tera_agent.Profiles.Cache.{Cache}
use tera_agent.Print.Engine.{print_with_profile}
use tera_agent.Http.Parse.{PrintRequest, parse_request}
use tera_agent.Http.{
  Request, Response, Server, done, refusal, job_of, fallback_profile, is_empty, printed,
  print_request, handle_request, handle_print, print_route,
}

abbrev bad : Response
bad = refusal 400 "bad_request"

module _ {Image Body W : Type 0} (s : Server Image Body W) where
  -- What a request must have: the token, if there is one, the method, and a body that names a printer
  -- and has content.
  pub record Admits (r : Request Body) (req : PrintRequest) : Type 0 where
    pub token : (s.token ≡ "") ⊎ (r.authorization ≡ str_append "Bearer " s.token)
    pub method : r.method ≡ "POST"
    pub parsed : parse_request s.reader r.content_type r.body ≡ ok req
    pub printer : req.printer ≢ ""
    pub content : req.content ≢ []

  -- The engine's print of a request.
  abbrev pub printing : PrintRequest → W → Result (Unit {0}) × W
  printing req w =
      print_with_profile s.engine (job_of req) (s.profile_or req.printer (fallback_profile req)) w

  -- The print and its answer, which is 200 exactly when the print succeeded.
  abbrev pub Prints : PrintRequest → W → Response × W → Type 0
  Prints req w out =
      (out.1 ≡ (printing req w).1)
      × ((((printing req w).0 ≡ ok tt) × (out.0 ≡ done))
          ⊎ (((printing req w).0 ≢ ok tt) × (out.0 ≡ refusal 502 "print_failed")))

  print_request-Prints : (req : PrintRequest) (w : W) → Prints req w (print_request s req w)
  unfolding print_request printed
  print_request-Prints req w = elim (Result-cases (printing req w).0) [
    | inl (u, e) ↦ rw (e, printed) (refl, inl (refl, refl))
    | inr (x, e) ↦ rw (e, printed) (refl, inr ((λ h. cc), refl))
  ]

  no_content : (content : Bytes) → is_empty content ≡ false → content ≢ []
  unfolding is_empty
  no_content [] h e = absurd (cc)
  no_content (b ∷ bytes) h e = cc

  -- A refusal, with a status of the client's errors, that changes nothing.
  abbrev pub Refuses : W → Response × W → Type 0
  Refuses w out =
      (x : Response) × ((x.status ≡ 400) ⊎ (x.status ≡ 401) ⊎ (x.status ≡ 405)) × (out ≡ (x, w))

  authorised :
      (r : Request Body)
      → (not (str_eq s.token "") && not (str_eq r.authorization (str_append "Bearer " s.token)))
        ≡ false
      → (s.token ≡ "") ⊎ (r.authorization ≡ str_append "Bearer " s.token)
  authorised r h = elim (Bool-cases (str_eq s.token "")) [
    | inl e ↦ inl ((eq_iff s.token "").0 e)
    | inr e ↦ inr ((eq_iff r.authorization (str_append "Bearer " s.token)).0 (ground arith))
  ]

  -- A request on `/print` is either refused, with a status of the client's errors, and changes
  -- nothing; or it has all that it must have and is one print of its job by the engine, with the
  -- profile of its printer or else the fallback, answered by 200 exactly when the print succeeded.
  pub print_route-Admits :
      (r : Request Body) (w : W)
      → Refuses w (print_route s r w)
        ⊎ ((req : PrintRequest) × Admits r req × Prints req w (print_route s r w))
  unfolding print_route handle_print handle_request
  print_route-Admits r w =
      elim (Bool-cases
        (not (str_eq s.token "") && not (str_eq r.authorization (str_append "Bearer " s.token)))) [
          | inl e ↦ inl (refusal 401 "unauthorized", inr (inl refl), rw e)
          | inr allowed ↦ elim (Bool-cases (str_eq r.method "POST")) [
            | inr e ↦ inl (refusal 405 "method_not_allowed", inr (inr refl), rw allowed (rw e))
            | inl post ↦ elim (Result-cases (parse_request s.reader r.content_type r.body)) [
              | inr (x, e) ↦ inl (bad, inl refl, rw allowed (rw post (rw (e, handle_request))))
              | inl (req, read) ↦ elim (Bool-cases (str_eq req.printer "")) [
                | inl e ↦
                    inl (bad, inl refl, rw allowed (rw post (rw (read, handle_request) (rw e))))
                | inr named ↦ elim (Bool-cases (is_empty req.content)) [
                  | inl e ↦ inl (
                    bad,
                    inl refl,
                    rw allowed (rw post (rw (read, handle_request) (rw named (rw e)))),
                  )
                  | inr full ↦ inr (
                    req,
                    record {
                      token = authorised r allowed;
                      method = (eq_iff r.method "POST").0 post;
                      parsed = read;
                      printer = str_eq-ne req.printer "" named;
                      content = no_content req.content full;
                    },
                    rw allowed (
                        rw post (
                          rw (read, handle_request)
                            (rw named (rw full (print_request-Prints req w))))),
                  )
                ]
              ]
            ]
          ]
        ]

  -- Where the profiles are those of a cache in which the printer has a profile with formats, the
  -- request is printed with that profile, whatever its paper and its width.
  printing_cached :
      (c : Cache) (p : PrinterProfile) (req : PrintRequest) (w : W)
      → s.profile_or ≡ Cache.profile_or c
      → get req.printer c ≡ some p
      → p.native_formats ≢ []
      → printing req w ≡ print_with_profile s.engine (job_of req) p w
  unfolding Cache.profile_or
  printing_cached c p req w e found formats =
      ap (λ q. print_with_profile s.engine (job_of req) q w)
        (ap (λ f. f req.printer (fallback_profile req)) e
          ∙ kept (record (fallback_profile req) { printer_id = req.printer }))
    where
      kept : (q : PrinterProfile) → Cache.or_fallback (get req.printer c) q ≡ p
      kept q = ground (arith, found, formats)
