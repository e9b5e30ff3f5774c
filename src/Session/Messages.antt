-- ===== src/Session/Messages.antt =====
-- internal/domain/comms/messages.go: the messages of the protocol. The field `Type` of a message is
-- its constructor in `Outgoing`; a message that comes in is read by its `type`.
use tera_agent.Base.{ℕ, Bool, List, String}
use tera_agent.Base.Int.{ℤ}
use tera_agent.Printing.{Bytes}

abbrev pub protocol_version : String
protocol_version = "1.0"

abbrev pub type_authenticated : String
type_authenticated = "authenticated"

abbrev pub type_auth_error : String
type_auth_error = "auth_error"

abbrev pub type_profiles_sync : String
type_profiles_sync = "profiles_sync"

abbrev pub type_profile_update : String
type_profile_update = "profile_update"

abbrev pub type_config : String
type_config = "config"

abbrev pub type_job : String
type_job = "job"

pub record Hello : Type 0 where
  pub agent_version : String
  pub protocol_version : String
  pub installation_id : String
  pub machine_id : String

pub record Register : Type 0 where
  pub hostname : String
  pub os : String
  pub os_version : String
  pub agent_version : String
  pub local_ip : String

pub record PrinterDto : Type 0 where
  pub name : String
  pub driver : String
  pub kind : String
  pub role : String
  pub enabled : Bool

pub record Heartbeat : Type 0 where
  pub state : String
  pub uptime_s : ℤ
  pub mem_bytes : ℕ
  pub version : String
  pub pending_jobs : ℤ

pub record ErrorBody : Type 0 where
  pub code : String
  pub message : String

-- The messages of the agent.
pub data Outgoing : Type 0 where
  hello : Hello → Outgoing
  authenticate : String → Outgoing
  register : Register → Outgoing
  capabilities : List String → List PrinterDto → Outgoing
  profiles_ack : ℤ → Outgoing
  heartbeat : Heartbeat → Outgoing
  job_received : String → Outgoing
  job_completed : String → ℤ → Outgoing
  job_failed : String → ErrorBody → Outgoing

pub record Authenticated : Type 0 where
  pub agent_id : String
  pub company_id : String
  pub branch_id : String
  pub company_name : String
  pub branch_name : String
  pub equipo : String

pub record AuthError : Type 0 where
  pub error : ErrorBody
  pub retryable : Bool

pub record ProfileDto : Type 0 where
  pub printer_id : String
  pub native_formats : List String
  pub width_dots : ℤ
  pub dpi : ℤ
  pub supports_cut : Bool
  pub supports_drawer : Bool
  pub meta : List (String × String)

pub record ProfilesSync : Type 0 where
  pub version : ℤ
  pub profiles : List ProfileDto

pub record ProfileUpdate : Type 0 where
  pub version : ℤ
  pub profile : ProfileDto

pub record ConfigMessage : Type 0 where
  pub heartbeat_seconds : ℤ
  pub log_level : String

pub record JobMessage : Type 0 where
  pub id : String
  pub job_type : String
  pub payload : Bytes
