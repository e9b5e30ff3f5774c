-- ===== src/Panel/Server.antt =====
-- internal/adapters/ui/server.go: the panel's server. Its own state is the configuration that it holds
-- (`s.d.Cfg`); the rest of what it reads and acts on is in the world `W`, which the engine, the profiles,
-- the agent's state and the clock are read from. A handler is one step. A reply is what is written as
-- JSON; a handler's errors are texts.
pub mod Printers
pub mod Connection
pub mod Push
pub mod Edits
use tera_agent.Base.{ℕ, Bool, Option, none, some, List, String, str_eq, if◌then◌else◌}
use tera_agent.Base.Int.{ℤ}
use tera_agent.Config.{Config}
use tera_agent.Failure.{Error, Result, ok, err}
use tera_agent.Printing.{Bytes, PrinterProfile}
use tera_agent.Print.Engine.{Engine}
use tera_agent.Session.{Identity}
use tera_agent.Panel.{Names, Request}

-- What `url.Parse` reads of a text that is a URL.
pub record Url : Type 0 where
  pub scheme : String
  pub host : String
  pub hostname : String

-- A printer of the discovery.
pub record Printer : Type 0 where
  pub name : String
  pub status : String

-- The bodies of the requests. What is absent in `Settings` is `none`; a body that is no JSON leaves the
-- others as they were.
pub record Managing : Type 0 where
  pub name : String
  pub role : String
  pub enabled : Bool
  pub kind : String
  pub cut_feed_dots : ℤ
  pub top_margin_dots : ℤ
  pub page_margin_mm : ℤ
  pub page_mode : String

pub record Settings : Type 0 where
  pub nombre : Option String
  pub url : Option String
  pub token : Option String
  pub log : Option String
  pub cut_feed_dots : Option ℤ
  pub top_margin_dots : Option ℤ
  pub page_margin_mm : Option ℤ

pub record Registration : Type 0 where
  pub token : String
  pub url : String

-- A request as a handler sees it: `query_name` is the parameter `name` of its URL.
pub record Call : Type 0 where
  pub request : Request
  pub path : String
  pub query_name : String
  pub body : Bytes

pub record StatusView : Type 0 where
  pub registered : Bool
  pub conn_read_only : Bool
  pub state : String
  pub empresa : String
  pub sede : String
  pub equipo : String
  pub agent_id : String
  pub last_sync : String
  pub version : String
  pub os : String
  pub data_dir : String
  pub server_url : String
  pub default_url : String
  pub cut_feed_dots : ℤ
  pub top_margin_dots : ℤ

pub record PrinterView : Type 0 where
  pub name : String
  pub status : String
  pub default : Bool
  pub managed : Bool
  pub enabled : Bool
  pub role : String
  pub kind : String
  pub cut_feed_dots : ℤ
  pub top_margin_dots : ℤ
  pub page_margin_mm : ℤ
  pub page_mode : String

pub record SettingsView : Type 0 where
  pub nombre : String
  pub url : String
  pub token_set : Bool
  pub token_hint : Bytes
  pub log : String
  pub data_dir : String
  pub run_mode : String
  pub conn_read_only : Bool
  pub cut_feed_dots : ℤ
  pub top_margin_dots : ℤ
  pub page_margin_mm : ℤ

pub data Reply : Type 0 where
  failed : ℕ → String → Reply
  done : Reply
  done_at : String → Reply
  noted : String → Bool → Reply
  status_shown : StatusView → Reply
  printers_shown : List PrinterView → Reply
  settings_shown : SettingsView → Reply
  no_history : Reply
  no_logs : Reply
  file : String → Reply
  upgraded : Reply

-- `Deps`, with what Go's libraries do for the handlers: the decoding of JSON, `url.Parse`, `%d`, and the
-- start of a program that opens a folder. `elapsed` is the time since the last synchronisation in
-- nanoseconds, `none` before the first.
pub record Deps (Image W : Type 0) : Type 0 where
  pub names : Names
  pub parse_url : String → Option Url
  pub managing : Bytes → Managing
  pub named : Bytes → String
  pub settings : Bytes → Result Settings
  pub registration : Bytes → Registration
  pub message : Error → String
  pub engine : W → Engine Image W
  pub profile_or : W → String → PrinterProfile → PrinterProfile
  pub discovery : W → Result (List Printer) × W
  pub state : W → String
  pub identity : W → Identity
  pub elapsed : W → Option ℤ
  pub decimal : ℤ → String
  pub stamp : W → String
  pub save_config : Option (Config → W → Result (Unit {0}) × W)
  pub apply_tuning : Option (Config → W → W)
  pub on_registered : Option (W → W)
  pub open_folder : String → W → W
  pub test_page : Bytes
  pub version : String
  pub os : String
  pub data_dir : String
  pub run_mode : String
  pub conn_read_only : Bool

pub record Panel (W : Type 0) : Type 0 where
  pub cfg : Config
  pub world : W

-- `writeErr`.
abbrev pub refuse : String → Reply
refuse msg = failed 502 msg

unfoldable pub first_non_empty : String → String → String
first_non_empty a b = if str_eq a "" then b else a

module _ {Image W : Type 0} (d : Deps Image W) where
  abbrev pub Handler : Type 0
  Handler = Call → Panel W → Reply × Panel W

  -- `SaveConfig` and `ApplyTuning`, where they are set, on the panel's configuration.
  unfoldable pub save_by :
      Option (Config → W → Result (Unit {0}) × W) → Panel W → Result (Unit {0}) × Panel W
  save_by none s = (ok tt, s)
  save_by (some save) s = let r = save s.cfg s.world in (r.0, record s { world = r.1 })

  unfoldable pub tune_by : Option (Config → W → W) → Panel W → Panel W
  tune_by none s = s
  tune_by (some tune) s = record s { world = tune s.cfg s.world }

  unfoldable pub save : Panel W → Result (Unit {0}) × Panel W
  unfolding save_by
  save s = save_by d.save_config s

  unfoldable pub tune : Panel W → Panel W
  unfolding tune_by
  tune s = tune_by d.apply_tuning s

  unfoldable pub persisted : Result (Unit {0}) × Panel W → Result (Unit {0}) × Panel W
  unfolding tune
  persisted (err e, s) = (err e, s)
  persisted (ok _, s) = (ok tt, tune s)

  unfoldable pub persist : Panel W → Result (Unit {0}) × Panel W
  unfolding persisted save
  persist s = persisted (save s)

  -- The reply after `persist`.
  unfoldable pub answered : Result (Unit {0}) × Panel W → Reply × Panel W
  answered (err e, s) = (refuse (d.message e), s)
  answered (ok _, s) = (done, s)
