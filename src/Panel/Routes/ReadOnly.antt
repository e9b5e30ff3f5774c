-- ===== src/Panel/Routes/ReadOnly.antt =====
-- What the panel leaves as it is in service mode.
use tera_agent.Base.{true, String, List, ◌≡◌, refl, sym, subst}
use tera_agent.Config.{Config}
use tera_agent.Panel.{Hosts}
use tera_agent.Panel.Server.{Deps, Panel, Reply, Call}
use tera_agent.Panel.Server.Connection.{apply_rest}
use tera_agent.Panel.Server.Edits.{
  Edit, unchanged, removed, upserted, preferred, tuned, linked, enrolled,
}
use tera_agent.Panel.Routes.{Mux, serve_all}
use tera_agent.Panel.Routes.Steps.{serve_all-keeps}

module _ {Image W : Type 0} (d : Deps Image W) where
  -- The connection of a configuration.
  pub record IsConnectionOf (c c' : Config) : Type 0 where
    pub url : c'.backend_url ≡ c.backend_url
    pub token : c'.token ≡ c.token

  Edit-IsConnectionOf :
      d.conn_read_only ≡ true
      → (start c c' : Config) → Edit d c c'
      → IsConnectionOf start c
      → IsConnectionOf start c'
  unfolding apply_rest
  Edit-IsConnectionOf shut start c c' (unchanged e) h = subst (IsConnectionOf start) (sym e) h
  Edit-IsConnectionOf shut start c c' (removed name e) h =
      subst (IsConnectionOf start) (sym e) (record { url = h.url; token = h.token })
  Edit-IsConnectionOf shut start c c' (upserted body named e) h =
      subst (IsConnectionOf start) (sym e) (record { url = h.url; token = h.token })
  Edit-IsConnectionOf shut start c c' (preferred name e) h =
      subst (IsConnectionOf start) (sym e) (record { url = h.url; token = h.token })
  Edit-IsConnectionOf shut start c c' (tuned body e) h =
      subst (IsConnectionOf start) (sym e) (record { url = h.url; token = h.token })
  Edit-IsConnectionOf shut start c c' (linked url token body free a e) h = absurd (cc (shut, free))
  Edit-IsConnectionOf shut start c c' (enrolled url token free a e) h = absurd (cc (shut, free))

  -- In service mode no requests, whatever they are, change the URL of the Backend or the token.
  pub serve_all-IsConnectionOf :
      (hosts : Hosts) (mux : Mux) (encode : Reply → String) (calls : List Call) (s : Panel W)
      → d.conn_read_only ≡ true
      → IsConnectionOf s.cfg (serve_all d hosts mux encode calls s).cfg
  serve_all-IsConnectionOf hosts mux encode calls s shut =
      serve_all-keeps d hosts mux encode (IsConnectionOf s.cfg)
        (λ c c'. Edit-IsConnectionOf shut s.cfg c c') calls s (record { url = refl; token = refl })
