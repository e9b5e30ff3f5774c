-- ===== src/Panel/Routes/Sound.antt =====
-- What holds of the panel's configuration over any requests.
use tera_agent.Base.{
  true, false, Option, none, some, String, str_eq, eq_iff, List, ◌≡◌, ◌≢◌, refl, sym, subst, ◌⊎◌,
  inl, inr, Bool-cases, All, arith,
}
use tera_agent.Base.Int.{ℤ, pos, ◌≤ℤ◌}
use tera_agent.Config.{Config, ManagedPrinter, kind_thermal, kind_pdf, mode_image}
use tera_agent.Failure.{ok}
use tera_agent.Panel.{Hosts, is_loopback_host}
use tera_agent.Panel.Managed.{max_cut_feed_dots, max_page_margin_mm}
use tera_agent.Panel.Managed.Laws.{
  IsDistinct, upsert_managed-IsDistinct, remove_managed-IsDistinct, upsert_managed-All,
  remove_managed-All, clamp_bounds, margin_room,
}
use tera_agent.Panel.Server.{Deps, Panel, Reply, Call, Managing, Settings, Url}
use tera_agent.Panel.Server.Printers.{managed_of}
use tera_agent.Panel.Server.Connection.{validate_backend_url, check_url, apply_rest, clamped}
use tera_agent.Panel.Server.Edits.{
  IsAccepted, Edit, unchanged, removed, upserted, preferred, tuned, linked, enrolled,
}
use tera_agent.Panel.Routes.{Mux, serve_all}
use tera_agent.Panel.Routes.Steps.{serve_all-keeps}

-- Between 0 and a bound.
abbrev pub Within : ℤ → ℤ → Type 0
Within hi v = (pos 0 ≤ℤ v) × (v ≤ℤ hi)

-- What is saved of a managed printer.
pub record IsManaged (p : ManagedPrinter) : Type 0 where
  pub cut : Within (pos 2000) p.cut_feed_dots
  pub top : pos 0 ≤ℤ p.top_margin_dots
  pub margin : Within max_page_margin_mm p.page_margin_mm
  pub kind : (p.kind ≡ kind_thermal) ⊎ (p.kind ≡ kind_pdf)
  pub mode : (p.page_mode ≡ "") ⊎ (p.page_mode ≡ mode_image)
  pub is_named : p.name ≢ ""

module _ {Image W : Type 0} (d : Deps Image W) where
  -- A URL that hides the token: encrypted, or of this machine.
  pub record IsSecure (url : String) : Type 0 where
    pub parsed : Url
    pub parses : d.parse_url url ≡ some parsed
    pub has_host : parsed.hostname ≢ ""
    pub encrypted :
        (parsed.scheme ≡ "wss")
        ⊎ ((parsed.scheme ≡ "ws") × (is_loopback_host d.names parsed.hostname ≡ true))

  pub record IsSound (c : Config) : Type 0 where
    pub url : (c.backend_url ≡ "") ⊎ IsSecure c.backend_url
    pub distinct : IsDistinct c.printers
    pub managed : All IsManaged c.printers
    pub cut : Within (pos 2000) c.cut_feed_dots
    pub top : Within (pos 2000) c.top_margin_dots
    pub margin : Within max_page_margin_mm c.page_margin_mm

  check_url-IsSecure :
      (raw : String) (o : Option Url)
      → d.parse_url raw ≡ o
      → check_url d.names raw o ≡ ok tt
      → IsSecure raw
  unfolding check_url
  check_url-IsSecure raw none e h = cc
  check_url-IsSecure raw (some u) e h = record {
    parsed = u;
    parses = e;
    has_host = ground (arith, eq_iff u.hostname "");
    encrypted = by (Bool-cases (str_eq u.scheme "wss"));
  }
    where
      by :
          (str_eq u.scheme "wss" ≡ true) ⊎ (str_eq u.scheme "wss" ≡ false)
          → (u.scheme ≡ "wss") ⊎ ((u.scheme ≡ "ws") × (is_loopback_host d.names u.hostname ≡ true))
      by (inl f) = inl ((eq_iff u.scheme "wss").0 f)
      by (inr f) = inr (ground (arith, eq_iff u.scheme "ws", f))

  pub validate_backend_url-IsSecure :
      (raw : String) → validate_backend_url d raw ≡ ok tt → IsSecure raw
  unfolding validate_backend_url
  validate_backend_url-IsSecure raw h = check_url-IsSecure raw (d.parse_url raw) refl h

  managed_of-IsManaged : (body : Managing) → body.name ≢ "" → IsManaged (managed_of body)
  unfolding managed_of
  managed_of-IsManaged body h = record {
    cut = clamp_bounds body.cut_feed_dots (pos 0) max_cut_feed_dots (omega arith);
    top = ground arith;
    margin = clamp_bounds body.page_margin_mm (pos 0) max_page_margin_mm margin_room;
    kind = ground (arith, eq_iff body.kind kind_thermal, eq_iff body.kind kind_pdf);
    mode = elim (Bool-cases (str_eq body.page_mode mode_image)) [
      | inl e ↦ inr (rw e refl)
      | inr e ↦ inl (rw e refl)
    ];
    is_named = h;
  }

  clamped-Within :
      (hi : ℤ) (new : Option ℤ) (old : ℤ)
      → pos 0 ≤ℤ hi
      → Within hi old
      → Within hi (clamped d hi new old)
  unfolding clamped
  clamped-Within hi none old room h = h
  clamped-Within hi (some new) old room h = clamp_bounds new (pos 0) hi room

  apply_rest-IsSound : (body : Settings) (c : Config) → IsSound c → IsSound (apply_rest d body c)
  unfolding apply_rest
  apply_rest-IsSound body c h = record {
    url = h.url;
    distinct = h.distinct;
    managed = h.managed;
    cut = clamped-Within max_cut_feed_dots body.cut_feed_dots c.cut_feed_dots (omega arith) h.cut;
    top =
        clamped-Within max_cut_feed_dots body.top_margin_dots c.top_margin_dots (omega arith) h.top;
    margin =
        clamped-Within max_page_margin_mm body.page_margin_mm c.page_margin_mm margin_room h.margin;
  }

  IsAccepted-IsSecure :
      (old url : String)
      → IsAccepted d old url
      → (old ≡ "") ⊎ IsSecure old
      → (url ≡ "") ⊎ IsSecure url
  IsAccepted-IsSecure old url a h = by a.accepted
    where
      by :
          (url ≡ "") ⊎ (url ≡ old) ⊎ (validate_backend_url d url ≡ ok tt)
          → (url ≡ "") ⊎ IsSecure url
      by (inl e) = inl e
      by (inr (inl e)) = subst (λ (u : String). (u ≡ "") ⊎ IsSecure u) (sym e) h
      by (inr (inr e)) = inr (validate_backend_url-IsSecure url e)

  linked-IsSound :
      (c : Config) (url token : String)
      → IsAccepted d c.backend_url url
      → IsSound c
      → IsSound (record c { backend_url = url; token = token })
  linked-IsSound c url token a h = record {
    url = IsAccepted-IsSecure c.backend_url url a h.url;
    distinct = h.distinct;
    managed = h.managed;
    cut = h.cut;
    top = h.top;
    margin = h.margin;
  }

  Edit-IsSound : (c c' : Config) → Edit d c c' → IsSound c → IsSound c'
  Edit-IsSound c c' (unchanged e) h = subst IsSound (sym e) h
  Edit-IsSound c c' (removed name e) h = subst IsSound (sym e) (record {
    url = h.url;
    distinct = remove_managed-IsDistinct c.printers name h.distinct;
    managed = remove_managed-All IsManaged c.printers name h.managed;
    cut = h.cut;
    top = h.top;
    margin = h.margin;
  })
  Edit-IsSound c c' (upserted body named e) h = subst IsSound (sym e) (record {
    url = h.url;
    distinct = upsert_managed-IsDistinct c.printers (managed_of body) h.distinct;
    managed =
        upsert_managed-All IsManaged c.printers (managed_of body) (managed_of-IsManaged body named)
          h.managed;
    cut = h.cut;
    top = h.top;
    margin = h.margin;
  })
  Edit-IsSound c c' (preferred name e) h = subst IsSound (sym e) (record {
    url = h.url;
    distinct = h.distinct;
    managed = h.managed;
    cut = h.cut;
    top = h.top;
    margin = h.margin;
  })
  Edit-IsSound c c' (tuned body e) h = subst IsSound (sym e) (apply_rest-IsSound body c h)
  Edit-IsSound c c' (linked url token body free a e) h =
      subst IsSound (sym e) (apply_rest-IsSound body _ (linked-IsSound c url token a h))
  Edit-IsSound c c' (enrolled url token free a e) h =
      subst IsSound (sym e) (linked-IsSound c url token a h)

  -- Where the panel starts with a sound configuration, it has one after any requests: its URL is empty
  -- or is encrypted or of this machine, no managed printer stands twice, and each has a name, a known
  -- kind and mode, a cut from 0 to 2000 dots, a page margin from 0 to 50 mm and a top margin that is
  -- not negative; the default cut and the default top margin are from 0 to 2000 dots, the default page
  -- margin from 0 to 50 mm.
  pub serve_all-IsSound :
      (hosts : Hosts) (mux : Mux) (encode : Reply → String) (calls : List Call) (s : Panel W)
      → IsSound s.cfg
      → IsSound (serve_all d hosts mux encode calls s).cfg
  serve_all-IsSound hosts mux encode calls s h =
      serve_all-keeps d hosts mux encode IsSound Edit-IsSound calls s h
