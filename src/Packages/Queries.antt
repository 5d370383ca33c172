-- ===== src/Packages/Queries.antt =====
-- internal/packagemgr/registry.go and installer.go: the questions about managers and packages, and
-- the registry of a platform. `range` is the order in which Go visits the registry's map.
use castle_ops_client.Prelude.{
  String, Bool, true, false, ◌||◌, Option, none, some, List, [], ◌∷◌, map, str_eq, if◌then◌else◌,
  Error, plain, wrapped, Result, ok, err,
}
use castle_ops_client.Prelude.Assoc.{Assoc, lookup}
use castle_ops_client.Packages.{
  Package, PackageManager, Registry, get_preferred_managers, register_manager, get_manager,
  auto_detect, get_or_auto, not_installed, ensure_package_manager, verified,
}
use castle_ops_client.Packages.Shell.{Shell}
use castle_ops_client.Packages.Chocolatey.{chocolatey}
use castle_ops_client.Packages.Homebrew.{Homebrew, homebrew}
use Prim.Native.String.{◌++◌ as str_append}

pub record ManagerInfo : Type 0 where
  pub name : String
  pub installed : Bool
  pub version : String
  pub error : String

abbrev holds : {A : Type 0} → Option A → Bool
holds none = false
holds (some a) = true

abbrev pub Ranges : Type 0 → Type 0
Ranges W = Registry W → List (PackageManager W)

abbrev quote : String → String → String
quote before name = str_append before (str_append "'" (str_append name "'"))

module _ {W : Type 0} where
  unfoldable pub list_managers : Ranges W → Registry W → List String
  list_managers range r = map (λ m. m.name) (range r)

  unfoldable pub has_manager : String → Registry W → Bool
  has_manager name r = holds (lookup name r)

  abbrev pub clear_registry : Registry W → Registry W
  clear_registry r = []

  -- The loop of ListInstalled: a check that fails is logged, and the manager is left out.
  unfoldable pub installed_among : List (PackageManager W) → W → List (PackageManager W) × W
  installed_among [] w = ([], w)
  installed_among (m ∷ ms) w =
      let (answer, w1) = m.is_installed w in
      let (rest, w2) = installed_among ms w1 in
      elim answer as (λ _. List (PackageManager W) × W) [
        | err e ↦ (rest, w2)
        | ok installed ↦ (if installed then m ∷ rest else rest, w2)
      ]

  unfoldable pub list_installed_managers :
      Ranges W → Registry W → W → Result (List (PackageManager W)) × W
  unfolding installed_among
  list_installed_managers range r w =
      let (managers, w') = installed_among (range r) w in (ok managers, w')

  abbrev info_of : (Error → String) → PackageManager W → Result Bool → ManagerInfo
  info_of message m (err e) = record {
    name = m.name;
    installed = false;
    version = "";
    error = message e;
  }
  info_of message m (ok installed) = record {
    name = m.name;
    installed = installed;
    version = "";
    error = "";
  }

  -- The loop of GetAllManagerInfo; `message` is Error().
  unfoldable pub infos : (Error → String) → List (PackageManager W) → W → List ManagerInfo × W
  infos message [] w = ([], w)
  infos message (m ∷ ms) w =
      let (answer, w1) = m.is_installed w in
      let (rest, w2) = infos message ms w1 in (info_of message m answer ∷ rest, w2)

  unfoldable pub get_all_manager_info :
      (Error → String) → Ranges W → Registry W → W → List ManagerInfo × W
  unfolding infos
  get_all_manager_info message range r w = infos message (range r) w

  abbrev query_if :
      {A : Type 0}
      → (PackageManager W → W → Result A × W)
      → PackageManager W
      → Result Bool × W
      → Result A × W
  query_if ask m (err e, w) = (err (wrapped "failed to check if manager is installed" e), w)
  query_if ask m (ok true, w) = ask m w
  query_if ask m (ok false, w) = (err not_installed, w)

  abbrev query_with :
      {A : Type 0}
      → (PackageManager W → W → Result A × W)
      → Result (PackageManager W) × W
      → Result A × W
  query_with ask (err e, w) = (err (wrapped "failed to get package manager" e), w)
  query_with ask (ok m, w) = query_if ask m (m.is_installed w)

  abbrev listed_or : Result (List Package) × W → Result (List Package) × W
  listed_or (err e, w) = (err (wrapped "failed to list installed packages" e), w)
  listed_or (ok packages, w) = (ok packages, w)

  unfoldable pub list_installed_packages :
      String → String → Registry W → W → Result (List Package) × W
  unfolding get_or_auto
  list_installed_packages os name r w =
      query_with (λ m w. listed_or (m.list_installed w)) (get_or_auto os name r w)

  unfoldable pub is_package_installed : String → String → String → Registry W → W → Result Bool × W
  unfolding get_or_auto
  is_package_installed os name target r w =
      if str_eq target ""
      then (err (plain "package name is required"), w)
      else query_with (λ m. m.is_package_installed target) (get_or_auto os name r w)

  abbrev installed_default :
      String → PackageManager W → Result (Unit {0}) × W → Result (PackageManager W) × W
  installed_default name m (err e, w) =
      (err (wrapped (quote "failed to install package manager " name) e), w)
  installed_default name m (ok u, w) = verified name m (m.is_installed w)

  abbrev install_preferred : String → Result (PackageManager W) → W → Result (PackageManager W) × W
  install_preferred name (err e) w =
      (err (wrapped (quote "failed to get preferred manager " name) e), w)
  install_preferred name (ok m) w = installed_default name m (m.install w)

  abbrev default_or_install :
      String
      → List String
      → Registry W
      → Result (PackageManager W) × W
      → Result (PackageManager W) × W
  unfolding get_manager
  default_or_install os names r (ok m, w) = (ok m, w)
  default_or_install os [] r (err e, w) =
      (err (plain (str_append "no package manager available for platform: " os)), w)
  default_or_install os (name ∷ names) r (err e, w) = install_preferred name (get_manager name r) w

  -- GetDefaultOrInstall, on the default registry.
  unfoldable pub get_default_or_install : String → Registry W → W → Result (PackageManager W) × W
  unfolding auto_detect default_or_install
  get_default_or_install os r w =
      default_or_install os (get_preferred_managers os) r (auto_detect os r w)

-- Chocolatey does not use the path of brew.
abbrev pub beside_brew : {S A : Type 0} → (S → Result A × S) → Homebrew S → Result A × Homebrew S
beside_brew act h = let (r, s) = act h.machine in (r, record h { machine = s })

abbrev pub lifted : {S : Type 0} → PackageManager S → PackageManager (Homebrew S)
lifted m = record {
  name = m.name;
  is_installed = beside_brew m.is_installed;
  install = beside_brew m.install;
  install_package = λ pkg. beside_brew (m.install_package pkg);
  uninstall_package = λ name. beside_brew (m.uninstall_package name);
  update_package = λ name. beside_brew (m.update_package name);
  list_installed = beside_brew m.list_installed;
  is_package_installed = λ name. beside_brew (m.is_package_installed name);
}

module _ {S : Type 0} (shell : Shell S) (range : Assoc String → Assoc String) where
  unfoldable pub default_registry : Registry (Homebrew S)
  unfolding register_manager chocolatey homebrew
  default_registry =
      if str_eq shell.os "windows"
      then register_manager (lifted (chocolatey shell "choco" range)) []
      else if str_eq shell.os "darwin" || str_eq shell.os "linux"
      then register_manager (homebrew shell range) []
      else []

  unfoldable pub get_default : Homebrew S → Result (PackageManager (Homebrew S)) × Homebrew S
  unfolding default_registry auto_detect
  get_default h = auto_detect shell.os default_registry h

  unfoldable pub get_manager_status :
      (Error → String) → Ranges (Homebrew S) → Homebrew S → List ManagerInfo × Homebrew S
  unfolding default_registry get_all_manager_info
  get_manager_status message visit h = get_all_manager_info message visit default_registry h

  abbrev outcome_only : {A : Type 0} → Result A × Homebrew S → Result (Unit {0}) × Homebrew S
  outcome_only (ok m, h) = (ok tt, h)
  outcome_only (err e, h) = (err e, h)

  unfoldable pub ensure_manager_installed : String → Homebrew S → Result (Unit {0}) × Homebrew S
  unfolding default_registry ensure_package_manager
  ensure_manager_installed name h =
      outcome_only (ensure_package_manager shell.os name default_registry h)
