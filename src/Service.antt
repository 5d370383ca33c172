-- ===== src/Service.antt =====
-- internal/service/service.go: what the platforms' services share. Windows and Handler are the
-- service of Windows, Darwin is that of macOS, and Platform chooses between them.
pub mod Windows
pub mod Handler
pub mod Darwin
pub mod Platform
use castle_ops_client.Prelude.{
  String, Bool, true, false, not, ◌||◌, List, str_eq, if◌then◌else◌, Error, plain, Result, ok, err,
}

pub data Status : Type 0 where
  status_unknown status_not_installed status_stopped : Status
  status_starting status_running status_stopping : Status

-- String
abbrev pub status_text : Status → String
status_text status_unknown = "unknown"
status_text status_not_installed = "not installed"
status_text status_stopped = "stopped"
status_text status_starting = "starting"
status_text status_running = "running"
status_text status_stopping = "stopping"

pub record ServiceConfig : Type 0 where
  pub name : String
  pub display_name : String
  pub description : String
  pub executable : String
  pub arguments : List String
  pub working_directory : String
  pub dependencies : List String
  pub user_service : Bool

unfoldable pub validate_service : ServiceConfig → Result (Unit {0})
validate_service c =
    if str_eq c.name ""
    then err (plain "service name is required")
    else if str_eq c.display_name ""
    then err (plain "service display name is required")
    else if str_eq c.executable ""
    then err (plain "executable path is required")
    else ok tt

abbrev privileges_error : String → Error
privileges_error os =
    if str_eq os "darwin" || str_eq os "linux"
    then plain "this operation requires root privileges, please run with sudo"
    else if str_eq os "windows"
    then plain "this operation requires administrator privileges, please run as administrator"
    else plain "this operation requires elevated privileges"

unfoldable pub require_elevated : String → Bool → Result (Unit {0})
require_elevated os elevated = if not elevated then err (privileges_error os) else ok tt
