-- ===== src/Panel/Server/Printers.antt =====
-- internal/adapters/ui/server.go: the handlers of the printers.
use tera_agent.Base.{
  Bool, true, false, ◌&&◌, not, Option, none, some, List, [], ◌∷◌, map, String, str_eq,
  if◌then◌else◌,
}
use tera_agent.Base.Int.{pos, ltb_ℤ}
use tera_agent.Config.{Config, ManagedPrinter, page_mode_of, kind_thermal, kind_pdf, mode_image}
use tera_agent.Failure.{Result, ok, err}
use tera_agent.Printing.{PrinterProfile}
use tera_agent.Print.Engine.{print_with_profile}
use tera_agent.Panel.Managed.{
  find_managed, upsert_managed, remove_managed, max_cut_feed_dots, max_page_margin_mm, clamp,
}
use tera_agent.Panel.Local.{local_profile, print_test_page, drawer_job}
use tera_agent.Panel.Server.{
  Deps, Panel, Reply, done_at, printers_shown, refuse, Managing, Printer, PrinterView, Handler,
  persist, answered, first_non_empty,
}

-- What a printer that is not managed is taken for.
abbrev unmanaged : ManagedPrinter
unmanaged = record {
  name = "";
  role = "";
  enabled = true;
  kind = "";
  cut_feed_dots = pos 0;
  top_margin_dots = pos 0;
  page_margin_mm = pos 0;
  page_mode = "";
}

printer_view : Config → Printer → Bool → ManagedPrinter → PrinterView
printer_view cfg p managed mp = record {
  name = p.name;
  status = p.status;
  default = str_eq p.name cfg.default_printer;
  managed = managed;
  enabled = mp.enabled;
  role = mp.role;
  kind = if str_eq mp.kind "" then kind_thermal else mp.kind;
  cut_feed_dots = mp.cut_feed_dots;
  top_margin_dots = mp.top_margin_dots;
  page_margin_mm = mp.page_margin_mm;
  page_mode = page_mode_of cfg p.name;
}

view_by : Config → Printer → Option ManagedPrinter → PrinterView
unfolding printer_view
view_by cfg p none = printer_view cfg p false unmanaged
view_by cfg p (some mp) = printer_view cfg p true mp

unfoldable pub view_of : Config → Printer → PrinterView
unfolding view_by
view_of cfg p = view_by cfg p (find_managed cfg.printers p.name)

unfoldable pub listed : Config → Result (List Printer) → Reply
unfolding view_of
listed cfg (err e) = printers_shown []
listed cfg (ok ps) = printers_shown (map (view_of cfg) ps)

-- What `printersManage` makes of its body.
unfoldable pub managed_of : Managing → ManagedPrinter
managed_of body = record {
  name = body.name;
  role = body.role;
  enabled = body.enabled;
  kind =
      if not (str_eq body.kind kind_thermal) && not (str_eq body.kind kind_pdf)
      then kind_thermal
      else body.kind;
  cut_feed_dots = clamp body.cut_feed_dots (pos 0) max_cut_feed_dots;
  top_margin_dots = if ltb_ℤ body.top_margin_dots (pos 0) then pos 0 else body.top_margin_dots;
  page_margin_mm = clamp body.page_margin_mm (pos 0) max_page_margin_mm;
  page_mode = if str_eq body.page_mode mode_image then mode_image else "";
}

unfoldable pub first_name : Result (List Printer) → String
first_name (err e) = ""
first_name (ok []) = ""
first_name (ok (p ∷ ps)) = p.name

module _ {Image W : Type 0} (d : Deps Image W) where
  -- `DELETE`.
  unfoldable pub delete_printer : String → Panel W → Reply × Panel W
  delete_printer name s =
      if str_eq name ""
      then (refuse "falta el nombre de la impresora", s)
      else answered d (
          persist d (record s {
            cfg = record s.cfg {
              printers = remove_managed s.cfg.printers name;
              default_printer =
                  if str_eq name s.cfg.default_printer then "" else s.cfg.default_printer;
            };
          }))

  unfoldable pub list_printers : Panel W → Reply × Panel W
  unfolding listed
  list_printers s =
      let found = d.discovery s.world in (listed s.cfg found.0, record s { world = found.1 })

  unfoldable pub printers : Handler d
  unfolding delete_printer list_printers
  printers call s =
      if str_eq call.request.method "DELETE"
      then delete_printer call.query_name s
      else list_printers s

  unfoldable pub manage : Managing → Panel W → Reply × Panel W
  unfolding managed_of
  manage body s =
      if str_eq body.name ""
      then (refuse "falta el nombre de la impresora", s)
      else answered d (
          persist d (record s {
            cfg = record s.cfg { printers = upsert_managed s.cfg.printers (managed_of body) };
          }))

  unfoldable pub printers_manage : Handler d
  unfolding manage
  printers_manage call s = manage (d.managing call.body) s

  unfoldable pub set_default : String → Panel W → Reply × Panel W
  set_default name s =
      if str_eq name ""
      then (refuse "falta el nombre de la impresora", s)
      else answered d (persist d (record s { cfg = record s.cfg { default_printer = name } }))

  unfoldable pub printers_default : Handler d
  unfolding set_default
  printers_default call s = set_default (d.named call.body) s

  -- The reply after a print.
  unfoldable pub printed : String → Panel W → Result (Unit {0}) × W → Reply × Panel W
  printed printer s (err e, w) = (refuse (d.message e), record s { world = w })
  printed printer s (ok _, w) = (done_at printer, record s { world = w })

  unfoldable pub profile_for : Panel W → String → PrinterProfile
  unfolding local_profile
  profile_for s printer = local_profile (d.profile_or s.world) s.cfg printer

  unfoldable pub drawer : String → Panel W → Reply × Panel W
  unfolding printed profile_for
  drawer printer s =
      if str_eq printer ""
      then (refuse "no hay impresora disponible", s)
      else if not (profile_for s printer).supports_drawer
      then (refuse "la impresora no tiene cajón (solo impresoras térmicas con cajón)", s)
      else printed printer s (
          print_with_profile (d.engine s.world) (drawer_job printer) (profile_for s printer)
            s.world)

  unfoldable pub printers_drawer : Handler d
  unfolding drawer
  printers_drawer call s = drawer (first_non_empty (d.named call.body) s.cfg.default_printer) s

  unfoldable pub test_on : String → Panel W → Reply × Panel W
  unfolding printed
  test_on printer s =
      if str_eq printer ""
      then (refuse "no hay impresora disponible", s)
      else printed printer s (
          print_test_page d.test_page (d.stamp s.world) (d.engine s.world) (d.profile_or s.world)
            s.cfg printer s.world)

  unfoldable pub test_print : Handler d
  unfolding test_on first_name
  test_print call s =
      let printer = first_non_empty (d.named call.body) s.cfg.default_printer in
      let found = d.discovery s.world in
      if str_eq printer ""
      then test_on (first_name found.0) (record s { world = found.1 })
      else test_on printer s
