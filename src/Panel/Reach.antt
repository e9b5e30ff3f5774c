-- ===== src/Panel/Reach.antt =====
-- Which requests reach the panel.
use Prim.Native.String.{◌++◌ as str_append}
use tera_agent.Base.{
  str_eq-ne, ◌≡◌, ◌≢◌, ◌⊎◌, inl, inr, refl, sym, subst, ap, true, false, Bool-cases, Option, none,
  some, List, [], ◌∷◌, String, str_eq, eq_iff, if◌then◌else◌,
}
use tera_agent.Panel.{
  Names, Request, Response, Hosts, protecting, is_safe_method, contains, is_loopback_host, hosts_of,
  new_guard, allowed_host, scheme, same_origin, is_media, is_json, wrap, forbidden,
}

-- A host on a list is one of its names.
abbrev pub OneOf : Hosts → String → Type 0
OneOf [] host = ⊥
OneOf (h ∷ hosts) host = (host ≡ h) ⊎ OneOf hosts host

contains-OneOf : (hosts : Hosts) (host : String) → contains hosts host ≡ true → OneOf hosts host
unfolding contains
contains-OneOf [] host h = absurd (cc)
contains-OneOf (g ∷ hosts) host h = elim (Bool-cases (str_eq g host)) [
  | inl e ↦ inl (sym ((eq_iff g host).0 e))
  | inr e ↦ inr (contains-OneOf hosts host (rw e at h))
]

some-injective : {a b : Hosts} → some a ≡ some b → a ≡ b
some-injective e = cc

module _ (names : Names) where
  -- The host of a request is a loopback name with the port of the panel's address.
  pub data IsLocal (addr host : String) : Type 0 where
    local :
        (listen port name : String)
        → names.split_host_port addr ≡ some (listen, port)
        → port ≢ ""
        → (name ≡ "localhost")
          ⊎ (name ≡ "127.0.0.1")
          ⊎ ((name ≡ listen) × (is_loopback_host names name ≡ true))
        → (names.lower host ≡ names.join_host_port name port)
          ⊎ (names.lower host ≡ names.lower (names.join_host_port name port))
        → IsLocal addr host

  -- What a request that changes something must have beside.
  pub record IsOwn (r : Request) : Type 0 where
    pub origin :
        names.equal_fold r.origin (str_append (scheme names r) (str_append "://" r.host)) ≡ true
    pub json : names.media_type r.content_type ≡ some "application/json"

  abbrev loopback_host : String → String → Hosts
  loopback_host host port =
      if is_loopback_host names host then names.lower (names.join_host_port host port) ∷ [] else []

  abbrev local_hosts : String → String → Hosts
  local_hosts host port =
      names.join_host_port "localhost" port
      ∷ names.join_host_port "127.0.0.1" port
      ∷ loopback_host host port

  only_loopback :
      (listen port host : String)
      → OneOf (loopback_host listen port) host
      → (is_loopback_host names listen ≡ true)
        × (host ≡ names.lower (names.join_host_port listen port))
  only_loopback listen port host m = elim (Bool-cases (is_loopback_host names listen)) [
    | inl e ↦ (e, only_one (rw e at m))
    | inr e ↦ absurd (rw e at m)
  ]
    where
      only_one :
          OneOf (names.lower (names.join_host_port listen port) ∷ []) host
          → host ≡ names.lower (names.join_host_port listen port)
      only_one (inl e) = e
      only_one (inr h) = absurd h

  local_hosts-IsLocal :
      (addr listen port host : String)
      → names.split_host_port addr ≡ some (listen, port)
      → port ≢ ""
      → OneOf (local_hosts listen port) (names.lower host)
      → IsLocal addr host
  local_hosts-IsLocal addr listen port host split has_port (inl e) =
      local listen port "localhost" split has_port (inl refl) (inl e)
  local_hosts-IsLocal addr listen port host split has_port (inr (inl e)) =
      local listen port "127.0.0.1" split has_port (inr (inl refl)) (inl e)
  local_hosts-IsLocal addr listen port host split has_port (inr (inr m)) =
      let (loopback, e) = only_loopback listen port (names.lower host) m in
      local listen port listen split has_port (inr (inr (refl, loopback))) (inr e)

  new_guard-IsLocal :
      (addr : String) (hosts : Hosts) (r : Request)
      → new_guard names addr ≡ some hosts
      → allowed_host names hosts r ≡ true
      → IsLocal addr r.host
  unfolding new_guard hosts_of
  new_guard-IsLocal addr hosts r made allowed = by_address (names.split_host_port addr) refl made
    where
      by_address :
          (o : Option (String × String))
          → names.split_host_port addr ≡ o
          → hosts_of names o ≡ some hosts
          → IsLocal addr r.host
      by_address none split e = cc
      by_address (some (listen, port)) split e = elim (Bool-cases (str_eq port "")) [
        | inl empty ↦ cc (rw empty at e)
        | inr has_port ↦
            let same : local_hosts listen port ≡ hosts = some-injective (rw has_port at e) in
            local_hosts-IsLocal addr listen port r.host split (str_eq-ne port "" has_port) (
              subst (λ hs. OneOf hs (names.lower r.host)) (sym same)
                (contains-OneOf hosts (names.lower r.host) allowed))
      ]

  is_json-media :
      (r : Request)
      → is_json names r ≡ true
      → names.media_type r.content_type ≡ some "application/json"
  unfolding is_json
  is_json-media r h = by_media (names.media_type r.content_type) h
    where
      by_media : (o : Option String) → is_media names o ≡ true → o ≡ some "application/json"
      by_media none e = cc
      by_media (some m) e = ap some ((eq_iff m "application/json").0 e)

  -- With the guard of the panel's address a request is either forbidden, with 403 or 415 and with
  -- nothing changed, or it comes to the panel, with the protecting headers: then its host is a
  -- loopback name with the panel's port, and unless its method is GET or HEAD its origin is the
  -- panel's own and its body is JSON.
  pub wrap-IsLocal :
      {W : Type 0} (addr : String) (hosts : Hosts)
      (next : List (String × String) → Request → W → Response × W) (r : Request) (w : W)
      → new_guard names addr ≡ some hosts
      → ((x : Response) × ((x.status ≡ 403) ⊎ (x.status ≡ 415))
          × (x.headers ≡ protecting)
          × (wrap names hosts next r w ≡ (x, w)))
        ⊎ ((wrap names hosts next r w ≡ next protecting r w)
            × IsLocal addr r.host
            × (is_safe_method r.method ≡ false → IsOwn r))
  unfolding wrap same_origin
  wrap-IsLocal addr hosts next r w made = elim (Bool-cases (allowed_host names hosts r)) [
    | inr e ↦ inl (forbidden 403 "host no permitido", inl refl, refl, rw e)
    | inl allowed ↦
        let is_local = new_guard-IsLocal addr hosts r made allowed in
        elim (Bool-cases (is_safe_method r.method)) [
          | inl safe ↦ inr (rw allowed (rw safe), is_local, λ e. cc (safe, e))
          | inr unsafe ↦
              elim (Bool-cases (
                names.equal_fold r.origin
                  (str_append (scheme names r) (str_append "://" r.host)))) [
                    | inr e ↦ inl (
                      forbidden 403 "origen no permitido",
                      inl refl,
                      refl,
                      rw allowed (rw unsafe (rw e)),
                    )
                    | inl own ↦ elim (Bool-cases (is_json names r)) [
                      | inr e ↦ inl (
                        forbidden 415 "se requiere Content-Type application/json",
                        inr refl,
                        refl,
                        rw allowed (rw unsafe (rw own (rw e))),
                      )
                      | inl json ↦ inr (
                        rw allowed (rw unsafe (rw own (rw json))),
                        is_local,
                        λ _. record { origin = own; json = is_json-media r json },
                      )
                    ]
                  ]
        ]
  ]
