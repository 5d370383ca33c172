-- ===== src/Packages/Executors.antt =====
-- internal/packagemgr/executor.go: the executors that the command handler runs for packages. How a
-- payload is read from its JSON, the clock and Error() are parameters. Logging is left out.
pub mod Reports
use castle_ops_client.Prelude.{
  String, Bool, false, Option, none, some, str_eq, if◌then◌else◌, Error, wrapped, Result, ok, err,
}
use castle_ops_client.Prelude.Assoc.{Assoc}
use castle_ops_client.Prelude.Int.{ℤ}
use castle_ops_client.Api.Models.{
  Value, command_status_success, command_status_failed, command_install_package,
  command_uninstall_package, command_update_package,
}
use castle_ops_client.Api.Commands.{CommandResult, Executor, Handler, register_executor}
use castle_ops_client.Packages.{
  Package, Registry, install_package, uninstall_package, update_package,
}
use Prim.Native.String.{◌++◌ as str_append}

pub record InstallPackagePayload : Type 0 where
  pub package_manager : String
  pub package_name : String
  pub version : String
  pub options : Assoc String

pub record UninstallPackagePayload : Type 0 where
  pub package_manager : String
  pub package_name : String
  pub force : Bool

pub record UpdatePackagePayload : Type 0 where
  pub package_manager : String
  pub package_name : String
  pub version : String

-- encoding/json: a value to its text, and texts to payloads; Error(); and time.Since, in
-- milliseconds, at the end of an execution.
pub record Payloads (W : Type 0) : Type 0 where
  pub marshal : Value → Result String
  pub install_payload : String → Result InstallPackagePayload
  pub uninstall_payload : String → Result UninstallPackagePayload
  pub update_payload : String → Result UpdatePackagePayload
  pub message : Error → String
  pub elapsed : W → ℤ

abbrev unmarshaled : {A : Type 0} → Result A → Result A
unmarshaled (err e) = err (wrapped "failed to unmarshal payload" e)
unmarshaled (ok a) = ok a

abbrev read_text : {A : Type 0} → (String → Result A) → Result String → Result A
read_text read (err e) = err (wrapped "failed to marshal payload" e)
read_text read (ok text) = unmarshaled (read text)

abbrev refused : String → ℤ → CommandResult
refused error time = record {
  status = command_status_failed;
  output = "";
  error = error;
  execution_time = time;
}

abbrev report : String → String → String → String
report before name after = str_append before (str_append " package '" (str_append name after))

module _ {W : Type 0} (json : Payloads W) (os : String) (registry : Registry W) where
  unfoldable pub parse_payload : {A : Type 0} → (String → Result A) → Value → Result A
  parse_payload read payload = read_text read (json.marshal payload)

  -- `verb` is the one of the failure, `done` that of the success.
  abbrev pub result_of :
      String → String → String → Result (Unit {0}) × W → Result (Option CommandResult) × W
  result_of verb done name (err e, w) = (
    ok (
        some (record {
          status = command_status_failed;
          output = report (str_append "Failed to " verb) name (str_append "': " (json.message e));
          error = json.message e;
          execution_time = json.elapsed w;
        })),
    w,
  )
  result_of verb done name (ok u, w) = (
    ok (
        some (record {
          status = command_status_success;
          output = report (str_append "Successfully " done) name "'";
          error = "";
          execution_time = json.elapsed w;
        })),
    w,
  )

  -- The checks that come before the operation.
  abbrev pub unless_refused :
      {A : Type 0}
      → String
      → (A → String)
      → (A → W → Result (Option CommandResult) × W)
      → Result A
      → W
      → Result (Option CommandResult) × W
  unless_refused what name act (err e) w = (
    ok (
        some (
          refused
            (str_append "Invalid "
              (str_append what (str_append " package payload: " (json.message e))))
            (json.elapsed w))),
    w,
  )
  unless_refused what name act (ok payload) w =
      if str_eq (name payload) ""
      then (ok (some (refused "Package name is required" (json.elapsed w))), w)
      else act payload w

  abbrev pub package_of : InstallPackagePayload → Package
  package_of p = record {
    name = p.package_name;
    version = p.version;
    description = "";
    installed = false;
    installed_at = none;
    source = "";
    options = p.options;
  }

  unfoldable pub install_package_executor : Executor W
  unfolding parse_payload install_package
  install_package_executor timeout payload w =
      unless_refused "install" (λ p. p.package_name)
        (λ p w.
          result_of "install" "installed" p.package_name
            (install_package os p.package_manager (some (package_of p)) registry w))
        (parse_payload json.install_payload payload) w

  unfoldable pub uninstall_package_executor : Executor W
  unfolding parse_payload uninstall_package
  uninstall_package_executor timeout payload w =
      unless_refused "uninstall" (λ p. p.package_name)
        (λ p w.
          result_of "uninstall" "uninstalled" p.package_name
            (uninstall_package os p.package_manager p.package_name registry w))
        (parse_payload json.uninstall_payload payload) w

  unfoldable pub update_package_executor : Executor W
  unfolding parse_payload update_package
  update_package_executor timeout payload w =
      unless_refused "update" (λ p. p.package_name)
        (λ p w.
          result_of "update" "updated" p.package_name
            (update_package os p.package_manager p.package_name registry w))
        (parse_payload json.update_payload payload) w

  unfoldable pub register_executors : {S : Type 0} → Handler W S → Handler W S
  unfolding register_executor install_package_executor uninstall_package_executor
      update_package_executor
  register_executors h = register_executor command_update_package update_package_executor (
      register_executor command_uninstall_package uninstall_package_executor
        (register_executor command_install_package install_package_executor h))
