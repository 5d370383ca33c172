-- ===== src/Packages/Homebrew.antt =====
-- internal/packagemgr/homebrew.go: the manager that runs brew. The path of brew, which Install looks
-- for again, is part of the state. Logging is left out, and so is the environment variable that
-- turns off brew's own updates.
pub mod Lawful
use castle_ops_client.Prelude.{
  String, Bool, true, false, not, ◌||◌, ◌&&◌, Option, none, some, List, [], ◌∷◌, str_eq,
  if◌then◌else◌, Error, plain, wrapped, Result, ok, err,
}
use castle_ops_client.Prelude.Assoc.{Assoc}
use castle_ops_client.Prelude.Int.{pos, eqb_ℤ}
use castle_ops_client.Cache.Types.{Time}
use castle_ops_client.Packages.{Package, PackageManager}
use castle_ops_client.Packages.Texts.{contains, has_prefix}
use castle_ops_client.Packages.Listing.{parse_brew_list}
use castle_ops_client.Packages.Shell.{
  Shell, Ran, CommandOutput, execute_command, when_installed, wrap_error, custom_options, done_or,
}

pub record Homebrew (S : Type 0) : Type 0 where
  pub executable : String
  pub machine : S

abbrev check_message : String
check_message = "failed to check homebrew installation"

abbrev pub is_supported : String → Bool
is_supported os = str_eq os "darwin" || str_eq os "linux"

unfoldable pub get_cellar_path : String → String
get_cellar_path executable =
    if has_prefix "/opt/homebrew" executable then "/opt/homebrew/Cellar" else "/usr/local/Cellar"

-- brew says that there is nothing to do.
abbrev pub already_there : CommandOutput → Bool
already_there output =
    contains "already installed" output.stderr || contains "already installed" output.stdout

abbrev pub brew_done :
    {S : Type 0} → String → CommandOutput × Option Error × S → Result (Unit {0}) × S
brew_done message (output, none, s) = (ok tt, s)
brew_done message (output, some e, s) =
    if already_there output then (ok tt, s) else (err (wrapped message e), s)

abbrev pub no_keg : CommandOutput → Bool
no_keg output = eqb_ℤ output.exit_code (pos 1) && contains "No such keg" output.stderr

abbrev pub keg_answer : {S : Type 0} → CommandOutput × Option Error × S → Result Bool × S
keg_answer (output, none, s) = (ok true, s)
keg_answer (output, some e, s) =
    if no_keg output
    then (ok false, s)
    else (err (wrapped "failed to check package installation" e), s)

module _ {S : Type 0} (shell : Shell S) where
  abbrev first_path : List String → S → String
  first_path [] s = "brew"
  first_path (path ∷ paths) s = if shell.exists path s then path else first_path paths s

  unfoldable pub find_brew_executable : S → String
  find_brew_executable s =
      first_path
        ("/opt/homebrew/bin/brew" ∷ "/usr/local/bin/brew" ∷ "/home/linuxbrew/.linuxbrew/bin/brew"
          ∷ [])
        s

  unfoldable pub new_homebrew : String → S → Homebrew S
  unfolding find_brew_executable
  new_homebrew executable s = record {
    executable = if str_eq executable "" then find_brew_executable s else executable;
    machine = s;
  }

  unfoldable pub brew_command : List String → Homebrew S → CommandOutput × Option Error × Homebrew S
  unfolding execute_command
  brew_command args h =
      let (output, e, s) = execute_command shell h.executable args h.machine in
      (output, e, record h { machine = s })

  abbrev pub brew_answer : Homebrew S → Ran × S → Result Bool × Homebrew S
  brew_answer h (ran, s) = elim ran.failure as (λ _. Result Bool × Homebrew S) [
    | some e ↦ (ok false, record h { machine = s })
    | none ↦ (ok (contains "Homebrew" ran.combined), record h { machine = s })
  ]

  unfoldable pub brew_is_installed : Homebrew S → Result Bool × Homebrew S
  brew_is_installed h =
      if not (is_supported shell.os)
      then (ok false, h)
      else brew_answer h (shell.run h.executable ("--version" ∷ []) h.machine)

  abbrev pub brew_verified : Result Bool × Homebrew S → Result (Unit {0}) × Homebrew S
  brew_verified (ok true, h) = (ok tt, h)
  brew_verified (ok false, h) =
      (err (wrap_error none "homebrew installation verification failed"), h)
  brew_verified (err e, h) =
      (err (wrap_error (some e) "homebrew installation verification failed"), h)

  unfoldable pub brew_ran : Homebrew S → Ran × S → Result (Unit {0}) × Homebrew S
  unfolding brew_is_installed find_brew_executable
  brew_ran h (ran, s) = elim ran.failure as (λ _. Result (Unit {0}) × Homebrew S) [
    | some e ↦ (err (wrapped "homebrew installation failed" e), record h { machine = s })
    | none ↦
        brew_verified
          (brew_is_installed (record { executable = find_brew_executable s; machine = s }))
  ]

  abbrev install_args : List String
  install_args =
      "-c"
      ∷ "bash -c \"$(curl -fsSL https://raw.githubusercontent.com/Homebrew/install/HEAD/install.sh)\""
      ∷ []

  unfoldable pub brew_bootstrap : Result Bool × Homebrew S → Result (Unit {0}) × Homebrew S
  unfolding brew_ran
  brew_bootstrap (err e, h) = (err (wrapped "failed to check if homebrew is installed" e), h)
  brew_bootstrap (ok true, h) = (ok tt, h)
  brew_bootstrap (ok false, h) = brew_ran h (shell.run "bash" install_args h.machine)

  unfoldable pub brew_install : Homebrew S → Result (Unit {0}) × Homebrew S
  unfolding brew_is_installed brew_bootstrap
  brew_install h =
      if not (is_supported shell.os)
      then (err (plain "homebrew is only supported on macOS and Linux"), h)
      else brew_bootstrap (brew_is_installed h)

  unfoldable pub brew_install_package :
      (Assoc String → Assoc String) → Package → Homebrew S → Result (Unit {0}) × Homebrew S
  unfolding brew_is_installed brew_command
  brew_install_package range pkg h =
      if str_eq pkg.name ""
      then (err (plain "invalid package: name is required"), h)
      else when_installed check_message
          (λ h.
            brew_done "failed to install package"
              (brew_command ("install" ∷ pkg.name ∷ custom_options range pkg.options) h))
          (brew_is_installed h)

  unfoldable pub brew_uninstall_package : String → Homebrew S → Result (Unit {0}) × Homebrew S
  unfolding brew_is_installed brew_command
  brew_uninstall_package name h =
      if str_eq name ""
      then (err (plain "package name is required"), h)
      else when_installed check_message
          (λ h. done_or "failed to uninstall package" (brew_command ("uninstall" ∷ name ∷ []) h))
          (brew_is_installed h)

  unfoldable pub brew_update_package : String → Homebrew S → Result (Unit {0}) × Homebrew S
  unfolding brew_is_installed brew_command
  brew_update_package name h =
      if str_eq name ""
      then (err (plain "package name is required"), h)
      else when_installed check_message
          (λ h. brew_done "failed to update package" (brew_command ("upgrade" ∷ name ∷ []) h))
          (brew_is_installed h)

  abbrev pub brew_listed :
      CommandOutput × Option Error × Homebrew S → Result (List Package) × Homebrew S
  unfolding parse_brew_list
  brew_listed (output, none, h) = (ok (parse_brew_list output.stdout), h)
  brew_listed (output, some e, h) = (err (wrapped "failed to list installed packages" e), h)

  unfoldable pub brew_list_installed : Homebrew S → Result (List Package) × Homebrew S
  unfolding brew_is_installed brew_command brew_listed
  brew_list_installed h =
      when_installed check_message (λ h. brew_listed (brew_command ("list" ∷ "--versions" ∷ []) h))
        (brew_is_installed h)

  unfoldable pub brew_is_package_installed : String → Homebrew S → Result Bool × Homebrew S
  unfolding brew_is_installed brew_command
  brew_is_package_installed name h =
      if str_eq name ""
      then (err (plain "package name is required"), h)
      else when_installed check_message (λ h. keg_answer (brew_command ("list" ∷ name ∷ []) h))
          (brew_is_installed h)

  abbrev described : String → CommandOutput → List (String × Option Time) → Package
  described name output entries = record {
    name = name;
    version = elim entries as (λ _. String) [ [] ↦ "" | e ∷ es ↦ e.0 ];
    description = if contains name output.stdout then name else "";
    installed = true;
    installed_at = elim entries as (λ _. Option Time) [ [] ↦ none | e ∷ es ↦ e.1 ];
    source = "homebrew";
    options = [];
  }

  abbrev info_answer :
      String → CommandOutput × Option Error × Homebrew S → Result Package × Homebrew S
  unfolding get_cellar_path
  info_answer name (output, some e, h) = (err (wrapped "failed to get package info" e), h)
  info_answer name (output, none, h) =
      (ok (described name output (shell.read_dir (get_cellar_path h.executable) name h.machine)), h)

  abbrev if_present : String → Result Bool × Homebrew S → Result Package × Homebrew S
  unfolding brew_command info_answer
  if_present name (err e, h) = (err e, h)
  if_present name (ok false, h) = (err (plain "package not found"), h)
  if_present name (ok true, h) =
      info_answer name (brew_command ("info" ∷ name ∷ "--json=v2" ∷ []) h)

  unfoldable pub get_package_info : String → Homebrew S → Result Package × Homebrew S
  unfolding brew_is_package_installed if_present
  get_package_info name h =
      if str_eq name ""
      then (err (plain "package name is required"), h)
      else if_present name (brew_is_package_installed name h)

  unfoldable pub homebrew : (Assoc String → Assoc String) → PackageManager (Homebrew S)
  unfolding brew_is_installed brew_install brew_install_package brew_uninstall_package
      brew_update_package brew_list_installed brew_is_package_installed
  homebrew range = record {
    name = "homebrew";
    is_installed = brew_is_installed;
    install = brew_install;
    install_package = brew_install_package range;
    uninstall_package = brew_uninstall_package;
    update_package = brew_update_package;
    list_installed = brew_list_installed;
    is_package_installed = brew_is_package_installed;
  }
