-- ===== src/Api/Models.antt =====
-- internal/api/models.go: the records of the API, and the JSON values that Go decodes into an
-- `interface{}`. An optional pointer field is an `Option`.
use castle_ops_client.Prelude.{ℕ, String, Bool, List, Option}
use castle_ops_client.Prelude.Int.{ℤ}
use castle_ops_client.Cache.Types.{Time, Float64}

mutual
  pub data Value : Type 0 where
    null : Value
    boolean : Bool → Value
    number : Float64 → Value
    text : String → Value
    array : Items → Value
    object : Fields → Value

  pub data Items : Type 0 where
    nil : Items
    cons : Value → Items → Items

  pub data Fields : Type 0 where
    end : Fields
    field : String → Value → Fields → Fields

pub record RegisterRequest : Type 0 where
  pub hostname : String
  pub os : String
  pub os_version : String
  pub architecture : String
  pub agent_version : String

pub record RegisterResponse : Type 0 where
  pub client_id : String
  pub token : String
  pub heartbeat_interval : ℤ
  pub metrics_interval : ℤ

pub record HeartbeatRequest : Type 0 where
  pub status : String
  pub uptime : ℤ
  pub last_metric_time : Time
  pub pending_commands : ℤ
  pub version : String

pub record ConfigUpdate : Type 0 where
  pub heartbeat_interval : Option ℤ
  pub metrics_interval : Option ℤ

-- `type` is a CommandType, a string.
pub record Command : Type 0 where
  pub command_id : String
  pub type : String
  pub payload : Value
  pub priority : ℤ
  pub timeout : ℤ

pub record HeartbeatResponse : Type 0 where
  pub acknowledged : Bool
  pub config_update : Option ConfigUpdate
  pub commands : List Command

pub record MetricSnapshot : Type 0 where
  pub timestamp : Time
  pub cpu_usage_percent : Float64
  pub memory_total : ℕ
  pub memory_used : ℕ
  pub memory_available : ℕ
  pub memory_usage_percent : Float64
  pub disk_total_bytes : ℕ
  pub disk_used_bytes : ℕ
  pub disk_free_bytes : ℕ
  pub disk_usage_percent : Float64
  pub network_bytes_received : ℕ
  pub network_bytes_sent : ℕ

pub record MetricsUploadRequest : Type 0 where
  pub metrics : List MetricSnapshot
  pub count : ℕ

pub record MetricsUploadResponse : Type 0 where
  pub received : ℤ
  pub acknowledged : Bool

pub record CommandResultRequest : Type 0 where
  pub command_id : String
  pub status : String
  pub output : String
  pub error : String
  pub execution_time : ℤ
  pub completed_at : Time

pub record CommandResultResponse : Type 0 where
  pub acknowledged : Bool

-- The field `details` is never read.
pub record ErrorResponse : Type 0 where
  pub error : String
  pub code : String

pub record CommandsResponse : Type 0 where
  pub commands : List Command
  pub count : ℤ

abbrev pub command_status_success : String
command_status_success = "success"

abbrev pub command_status_failed : String
command_status_failed = "failed"

abbrev pub client_status_online : String
client_status_online = "online"

abbrev pub client_status_degraded : String
client_status_degraded = "degraded"

abbrev pub command_install_package : String
command_install_package = "install_package"

abbrev pub command_uninstall_package : String
command_uninstall_package = "uninstall_package"

abbrev pub command_update_package : String
command_update_package = "update_package"
