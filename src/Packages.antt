-- ===== src/Packages.antt =====
-- internal/packagemgr: the registry of package managers (registry.go) and the installer
-- (installer.go). A manager is a record of the operations that the interface PackageManager has,
-- each of which moves the machine's state. Logging is left out. Queries has the operations that only
-- ask; Chocolatey and Homebrew are the managers, and Executors the commands that reach them.
pub mod Ensuring
pub mod Installation
pub mod Texts
pub mod Listing
pub mod Shell
pub mod Chocolatey
pub mod Homebrew
pub mod Queries
pub mod Executors
pub mod Laws
pub mod Platforms
use castle_ops_client.Prelude.{
  String, Bool, true, false, ◌||◌, Option, none, some, List, [], ◌∷◌, str_eq, if◌then◌else◌, Error,
  plain, wrapped, Result, ok, err,
}
use castle_ops_client.Prelude.Assoc.{Assoc, lookup, insert, delete}
use castle_ops_client.Cache.Types.{Time}
use Prim.Native.String.{◌++◌ as str_append}

-- `options` is empty for a nil map.
pub record Package : Type 0 where
  pub name : String
  pub version : String
  pub description : String
  pub installed : Bool
  pub installed_at : Option Time
  pub source : String
  pub options : Assoc String

pub record PackageManager (W : Type 0) : Type 0 where
  pub name : String
  pub is_installed : W → Result Bool × W
  pub install : W → Result (Unit {0}) × W
  pub install_package : Package → W → Result (Unit {0}) × W
  pub uninstall_package : String → W → Result (Unit {0}) × W
  pub update_package : String → W → Result (Unit {0}) × W
  pub list_installed : W → Result (List Package) × W
  pub is_package_installed : String → W → Result Bool × W

abbrev pub Registry : Type 0 → Type 0
Registry W = Assoc (PackageManager W)

abbrev quoted : String → String → String → String
quoted before name after =
    str_append before (str_append "'" (str_append name (str_append "'" after)))

-- ErrNotInstalled
abbrev pub not_installed : Error
not_installed = plain "package manager not installed"

abbrev pub is_auto : String → Bool
is_auto name = str_eq name "" || str_eq name "auto"

abbrev pub get_preferred_managers : String → List String
get_preferred_managers os =
    if str_eq os "windows"
    then "chocolatey" ∷ "winget" ∷ "scoop" ∷ []
    else if str_eq os "darwin"
    then "homebrew" ∷ "macports" ∷ []
    else if str_eq os "linux"
    then "homebrew" ∷ "apt" ∷ "yum" ∷ "dnf" ∷ "pacman" ∷ "zypper" ∷ []
    else []

abbrev pub last_failure : Option Error → Error
last_failure none = plain "no package manager could be installed"
last_failure (some e) = wrapped "failed to install any package manager" e

module _ {W : Type 0} where
  unfoldable pub register_manager : PackageManager W → Registry W → Registry W
  register_manager m r = insert m.name m r

  unfoldable pub unregister : String → Registry W → Registry W
  unregister name r = delete name r

  abbrev pub present_or : Error → Option (PackageManager W) → Result (PackageManager W)
  present_or e none = err e
  present_or e (some m) = ok m

  unfoldable pub get_manager : String → Registry W → Result (PackageManager W)
  get_manager name r =
      present_or (plain (quoted "package manager " name " not found in registry")) (lookup name r)

  -- The loop of AutoDetect. A check that fails counts as "not installed".
  unfoldable pub detect : String → List String → Registry W → W → Result (PackageManager W) × W
  detect os [] r w = (err (plain (str_append "no package manager detected for platform: " os)), w)
  detect os (n ∷ ns) r w = elim (lookup n r) [
    | none ↦ detect os ns r w
    | some m ↦
        let (answer, w1) = m.is_installed w in
        elim answer [
          | err e ↦ detect os ns r w1
          | ok installed ↦ elim installed [ true ↦ (ok m, w1) | false ↦ detect os ns r w1 ]
        ]
  ]

  unfoldable pub auto_detect : String → Registry W → W → Result (PackageManager W) × W
  unfolding detect
  auto_detect os r w = detect os (get_preferred_managers os) r w

  unfoldable pub get_or_auto : String → String → Registry W → W → Result (PackageManager W) × W
  unfolding auto_detect get_manager
  get_or_auto os name r w = if is_auto name then auto_detect os r w else (get_manager name r, w)

  abbrev pub verified : String → PackageManager W → Result Bool × W → Result (PackageManager W) × W
  verified name m (err e, w) =
      (err (wrapped (quoted "failed to verify installation of " name "") e), w)
  verified name m (ok true, w) = (ok m, w)
  verified name m (ok false, w) =
      (err (plain (quoted "package manager " name " not detected after installation")), w)

  abbrev pub installed_now :
      String → PackageManager W → Result (Unit {0}) × W → Result (PackageManager W) × W
  installed_now name m (err e, w) =
      (err (wrapped (quoted "failed to install package manager " name "") e), w)
  installed_now name m (ok u, w) = verified name m (m.is_installed w)

  abbrev pub checked_first :
      String → PackageManager W → Result Bool × W → Result (PackageManager W) × W
  checked_first name m (err e, w) =
      (err (wrapped (quoted "failed to check if " name " is installed") e), w)
  checked_first name m (ok true, w) = (ok m, w)
  checked_first name m (ok false, w) = installed_now name m (m.install w)

  -- The loop of ensureAutoDetected over the managers to install; `last` is lastErr.
  unfoldable pub install_first :
      List String → Option Error → Registry W → W → Result (PackageManager W) × W
  install_first [] last r w = (err (last_failure last), w)
  install_first (n ∷ ns) last r w = elim (lookup n r) [
    | none ↦ install_first ns last r w
    | some m ↦
        let (done, w1) = m.install w in
        let (answer, w2) = m.is_installed w1 in
        elim done [
          | err e ↦ install_first ns (some e) r w1
          | ok u ↦ elim answer [
            | err e ↦ install_first ns (some e) r w2
            | ok installed ↦ elim installed [
              | true ↦ (ok m, w2)
              | false ↦ install_first ns (some (plain "not detected after installation")) r w2
            ]
          ]
        ]
  ]

  abbrev pub or_install :
      List String → Registry W → Result (PackageManager W) × W → Result (PackageManager W) × W
  or_install names r (ok m, w) = (ok m, w)
  or_install [] r (err e, w) = (err (plain "no package manager available for this platform"), w)
  or_install (n ∷ ns) r (err e, w) = install_first (n ∷ ns) none r w

  unfoldable pub ensure_auto_detected : String → Registry W → W → Result (PackageManager W) × W
  unfolding auto_detect install_first
  ensure_auto_detected os r w = or_install (get_preferred_managers os) r (auto_detect os r w)

  abbrev pub ensure_named : String → Result (PackageManager W) → W → Result (PackageManager W) × W
  ensure_named name (err e) w = (err (wrapped (quoted "package manager " name " not found") e), w)
  ensure_named name (ok m) w = checked_first name m (m.is_installed w)

  unfoldable pub ensure_package_manager :
      String → String → Registry W → W → Result (PackageManager W) × W
  unfolding ensure_auto_detected get_manager
  ensure_package_manager os name r w =
      if is_auto name then ensure_auto_detected os r w else ensure_named name (get_manager name r) w

  abbrev pub install_with : Package → Result (PackageManager W) × W → Result (Unit {0}) × W
  install_with pkg (err e, w) = (err (wrapped "failed to ensure package manager" e), w)
  install_with pkg (ok m, w) = m.install_package pkg w

  -- `none` is a nil package.
  unfoldable pub install_package :
      String → String → Option Package → Registry W → W → Result (Unit {0}) × W
  unfolding ensure_package_manager
  install_package os name none r w = (err (plain "invalid package: name is required"), w)
  install_package os name (some pkg) r w =
      if str_eq pkg.name ""
      then (err (plain "invalid package: name is required"), w)
      else install_with pkg (ensure_package_manager os name r w)

  abbrev pub act_if :
      (PackageManager W → W → Result (Unit {0}) × W)
      → PackageManager W
      → Result Bool × W
      → Result (Unit {0}) × W
  act_if act m (err e, w) = (err (wrapped "failed to check if manager is installed" e), w)
  act_if act m (ok true, w) = act m w
  act_if act m (ok false, w) = (err not_installed, w)

  abbrev pub act_with :
      (PackageManager W → W → Result (Unit {0}) × W)
      → Result (PackageManager W) × W
      → Result (Unit {0}) × W
  act_with act (err e, w) = (err (wrapped "failed to get package manager" e), w)
  act_with act (ok m, w) = act_if act m (m.is_installed w)

  unfoldable pub uninstall_package :
      String → String → String → Registry W → W → Result (Unit {0}) × W
  unfolding get_or_auto
  uninstall_package os name target r w =
      if str_eq target ""
      then (err (plain "package name is required"), w)
      else act_with (λ m. m.uninstall_package target) (get_or_auto os name r w)

  unfoldable pub update_package : String → String → String → Registry W → W → Result (Unit {0}) × W
  unfolding get_or_auto
  update_package os name target r w =
      if str_eq target ""
      then (err (plain "package name is required"), w)
      else act_with (λ m. m.update_package target) (get_or_auto os name r w)
