-- ===== src/Main/Installing.antt =====
-- cmd/castleops-client/main.go: installService and uninstallService. The process and the paths of the
-- operating system are a parameter.
use castle_ops_client.Prelude.{
  String, Bool, false, Option, none, some, [], ◌∷◌, str_eq, if◌then◌else◌, Error, wrapped, Result,
  ok, err,
}
use castle_ops_client.Service.{ServiceConfig, require_elevated}
use castle_ops_client.Service.Darwin.{Mac}
use castle_ops_client.Service.Windows.{Scm}
use castle_ops_client.Service.Platform.{PlatformService, new_service, install_on, uninstall_on}

-- os, filepath and the process: `local_app_data` is the variable LOCALAPPDATA.
pub record Process : Type 0 where
  pub os : String
  pub elevated : Bool
  pub executable : Result String
  pub eval_symlinks : String → Result String
  pub user_home : Result String
  pub local_app_data : String
  pub join : String → String → String
  pub dir : String → String
  pub is_abs : String → Bool
  pub abs : String → Result String

abbrev mac_config_path : Process → Result String → String
mac_config_path p (err e) = "/Library/Application Support/CastleOps/config.yaml"
mac_config_path p (ok home) = p.join home "Library/Application Support/CastleOps/config.yaml"

abbrev pub get_default_config_path : Process → String
get_default_config_path p =
    if str_eq p.os "darwin"
    then mac_config_path p p.user_home
    else if str_eq p.os "windows"
    then p.join p.local_app_data "CastleOps/config.yaml"
    else "/etc/castleops/config.yaml"

-- The executable with its links resolved.
abbrev resolved : Process → Result String → Result String
resolved p (err e) = err (wrapped "failed to get executable path" e)
resolved p (ok path) = elim (p.eval_symlinks path) [
  | err e ↦ err (wrapped "failed to resolve executable path" e)
  | ok real ↦ ok real
]

abbrev absolute : Process → String → Result String
absolute p path = if p.is_abs path then ok path else elim (p.abs path) [
  | err e ↦ err (wrapped "failed to get absolute config path" e)
  | ok full ↦ ok full
]

abbrev pub installed_config : Process → String → String → ServiceConfig
installed_config p executable config_path = record {
  name = "com.castleops.client";
  display_name = "CastleOps Client";
  description = "CastleOps desktop agent for system monitoring and management";
  executable = executable;
  arguments = "-config" ∷ config_path ∷ "-service" ∷ [];
  working_directory = p.dir executable;
  dependencies = [];
  user_service = false;
}

-- What uninstallService and runAsService give to service.New.
abbrev pub minimal_config : ServiceConfig
minimal_config = record {
  name = "com.castleops.client";
  display_name = "CastleOps Client";
  description = "CastleOps desktop agent";
  executable = "/tmp/dummy";
  arguments = [];
  working_directory = "";
  dependencies = [];
  user_service = false;
}

abbrev failing : {S : Type 0} → Error → S → Option (Result (Unit {0})) × S
failing e s = (some (err e), s)

abbrev pub named :
    {S : Type 0} → String → Option (Result (Unit {0})) × S → Option (Result (Unit {0})) × S
named message (none, s) = (none, s)
named message (some (err e), s) = (some (err (wrapped message e)), s)
named message (some (ok u), s) = (some (ok tt), s)

module _ {S : Type 0} (p : Process) (mac : Mac S) (scm : Scm S) where
  abbrev install_made : Result PlatformService → S → Option (Result (Unit {0})) × S
  unfolding install_on
  install_made (err e) s = failing (wrapped "failed to create service" e) s
  install_made (ok svc) s = named "failed to install service" (install_on mac scm svc s)

  abbrev install_at : String → Result String → S → Option (Result (Unit {0})) × S
  unfolding install_made new_service
  install_at executable (err e) s = failing e s
  install_at executable (ok config_path) s =
      install_made (new_service mac p.os (installed_config p executable config_path)) s

  abbrev install_resolved : String → Result String → S → Option (Result (Unit {0})) × S
  unfolding install_at
  install_resolved config_path (err e) s = failing e s
  install_resolved config_path (ok executable) s =
      install_at executable
        (absolute p (if str_eq config_path "" then get_default_config_path p else config_path)) s

  abbrev install_elevated : String → Result (Unit {0}) → S → Option (Result (Unit {0})) × S
  unfolding install_resolved
  install_elevated config_path (err e) s = failing e s
  install_elevated config_path (ok u) s = install_resolved config_path (resolved p p.executable) s

  -- `config_path` is that of the flag.
  unfoldable pub install_service : String → S → Option (Result (Unit {0})) × S
  unfolding install_elevated require_elevated
  install_service config_path s = install_elevated config_path (require_elevated p.os p.elevated) s

  abbrev uninstall_made : Result PlatformService → S → Option (Result (Unit {0})) × S
  unfolding uninstall_on
  uninstall_made (err e) s = failing (wrapped "failed to create service" e) s
  uninstall_made (ok svc) s = named "failed to uninstall service" (uninstall_on mac scm svc s)

  abbrev uninstall_elevated : Result (Unit {0}) → S → Option (Result (Unit {0})) × S
  unfolding uninstall_made new_service
  uninstall_elevated (err e) s = failing e s
  uninstall_elevated (ok u) s = uninstall_made (new_service mac p.os minimal_config) s

  unfoldable pub uninstall_service : S → Option (Result (Unit {0})) × S
  unfolding uninstall_elevated require_elevated
  uninstall_service s = uninstall_elevated (require_elevated p.os p.elevated) s
