-- ===== src/Packages/Chocolatey.antt =====
-- internal/packagemgr/chocolatey.go: the manager that runs choco. Logging is left out.
pub mod Lawful
use castle_ops_client.Prelude.{
  String, Bool, true, false, not, ◌||◌, Option, none, some, List, [], ◌∷◌, ◌++◌, str_eq,
  if◌then◌else◌, Error, plain, wrapped, Result, ok, err,
}
use castle_ops_client.Prelude.Assoc.{Assoc}
use castle_ops_client.Packages.{Package, PackageManager}
use castle_ops_client.Packages.Texts.{split_lines, has_version}
use castle_ops_client.Packages.Listing.{parse_choco_list, any_names}
use castle_ops_client.Packages.Shell.{
  Shell, Ran, CommandOutput, execute_command, when_installed, wrap_error, custom_options, done_or,
}
use Prim.Native.String.{◌++◌ as str_append}

abbrev pub choco_default : String → String
choco_default executable = if str_eq executable "" then "choco" else executable

abbrev check_message : String
check_message = "failed to check chocolatey installation"

abbrev version_args : String → List String
version_args version =
    if str_eq version "" || str_eq version "latest"
    then []
    else str_append "--version=" version ∷ []

abbrev install_args : List String
install_args =
    "-NoProfile" ∷ "-NonInteractive" ∷ "-Command"
    ∷ "\nSet-ExecutionPolicy Bypass -Scope Process -Force\n[System.Net.ServicePointManager]::SecurityProtocol = [System.Net.ServicePointManager]::SecurityProtocol -bor 3072\ntry {\n    iex ((New-Object System.Net.WebClient).DownloadString('https://community.chocolatey.org/install.ps1'))\n    exit 0\n} catch {\n    Write-Error $_.Exception.Message\n    exit 1\n}\n"
    ∷ []

module _ {S : Type 0} (shell : Shell S) (executable : String) where
  abbrev pub choco_answer : Ran × S → Result Bool × S
  choco_answer (ran, s) = elim ran.failure as (λ _. Result Bool × S) [
    | some e ↦ (ok false, s)
    | none ↦ (ok (has_version ran.combined), s)
  ]

  unfoldable pub choco_is_installed : S → Result Bool × S
  choco_is_installed s =
      if not (str_eq shell.os "windows")
      then (ok false, s)
      else choco_answer (shell.run executable ("--version" ∷ []) s)

  abbrev pub choco_verified : Result Bool × S → Result (Unit {0}) × S
  choco_verified (ok true, s) = (ok tt, s)
  choco_verified (ok false, s) =
      (err (wrap_error none "chocolatey installation verification failed"), s)
  choco_verified (err e, s) =
      (err (wrap_error (some e) "chocolatey installation verification failed"), s)

  unfoldable pub choco_ran : Ran × S → Result (Unit {0}) × S
  unfolding choco_is_installed
  choco_ran (ran, s) = elim ran.failure as (λ _. Result (Unit {0}) × S) [
    | some e ↦ (err (wrapped "chocolatey installation failed" e), s)
    | none ↦ choco_verified (choco_is_installed s)
  ]

  unfoldable pub choco_bootstrap : Result Bool × S → Result (Unit {0}) × S
  unfolding choco_ran
  choco_bootstrap (err e, s) = (err (wrapped "failed to check if chocolatey is installed" e), s)
  choco_bootstrap (ok true, s) = (ok tt, s)
  choco_bootstrap (ok false, s) = choco_ran (shell.run "powershell" install_args s)

  unfoldable pub choco_install : S → Result (Unit {0}) × S
  unfolding choco_is_installed choco_bootstrap
  choco_install s =
      if not (str_eq shell.os "windows")
      then (err (plain "chocolatey is only supported on Windows"), s)
      else choco_bootstrap (choco_is_installed s)

  unfoldable pub choco_install_package :
      (Assoc String → Assoc String) → Package → S → Result (Unit {0}) × S
  unfolding choco_is_installed execute_command
  choco_install_package range pkg s =
      if str_eq pkg.name ""
      then (err (plain "invalid package: name is required"), s)
      else when_installed check_message
          (λ s. done_or "failed to install package" (
            execute_command shell executable
              (("install" ∷ pkg.name ∷ "-y" ∷ "--no-progress" ∷ [])
                ++ (version_args pkg.version ++ custom_options range pkg.options))
              s))
          (choco_is_installed s)

  unfoldable pub choco_uninstall_package : String → S → Result (Unit {0}) × S
  unfolding choco_is_installed execute_command
  choco_uninstall_package name s =
      if str_eq name ""
      then (err (plain "package name is required"), s)
      else when_installed check_message
          (λ s.
            done_or "failed to uninstall package" (
              execute_command shell executable ("uninstall" ∷ name ∷ "-y" ∷ "--no-progress" ∷ [])
                s))
          (choco_is_installed s)

  unfoldable pub choco_update_package : String → S → Result (Unit {0}) × S
  unfolding choco_is_installed execute_command
  choco_update_package name s =
      if str_eq name ""
      then (err (plain "package name is required"), s)
      else when_installed check_message
          (λ s.
            done_or "failed to update package"
              (execute_command shell executable ("upgrade" ∷ name ∷ "-y" ∷ "--no-progress" ∷ []) s))
          (choco_is_installed s)

  abbrev pub choco_listed : CommandOutput × Option Error × S → Result (List Package) × S
  unfolding parse_choco_list
  choco_listed (output, none, s) = (ok (parse_choco_list output.stdout), s)
  choco_listed (output, some e, s) = (err (wrapped "failed to list installed packages" e), s)

  unfoldable pub choco_list_installed : S → Result (List Package) × S
  unfolding choco_is_installed execute_command choco_listed
  choco_list_installed s =
      when_installed check_message
        (λ s.
          choco_listed
            (execute_command shell executable ("list" ∷ "--local-only" ∷ "--no-progress" ∷ []) s))
        (choco_is_installed s)

  abbrev pub choco_named : String → CommandOutput × Option Error × S → Result Bool × S
  choco_named name (output, none, s) = (ok (any_names name (split_lines output.stdout)), s)
  choco_named name (output, some e, s) = (err (wrapped "failed to check package installation" e), s)

  unfoldable pub choco_is_package_installed : String → S → Result Bool × S
  unfolding choco_is_installed execute_command
  choco_is_package_installed name s =
      if str_eq name ""
      then (err (plain "package name is required"), s)
      else when_installed check_message
          (λ s. choco_named name (
            execute_command shell executable
              ("list" ∷ "--local-only" ∷ "--exact" ∷ name ∷ "--no-progress" ∷ []) s))
          (choco_is_installed s)

  unfoldable pub chocolatey : (Assoc String → Assoc String) → PackageManager S
  unfolding choco_is_installed choco_install choco_install_package choco_uninstall_package
      choco_update_package choco_list_installed choco_is_package_installed
  chocolatey range = record {
    name = "chocolatey";
    is_installed = choco_is_installed;
    install = choco_install;
    install_package = choco_install_package range;
    uninstall_package = choco_uninstall_package;
    update_package = choco_update_package;
    list_installed = choco_list_installed;
    is_package_installed = choco_is_package_installed;
  }
