-- ===== src/Packages/Listing.antt =====
-- parsePackageList of internal/packagemgr/chocolatey.go and homebrew.go, and the search of
-- Chocolatey's IsPackageInstalled: what is read from the output of choco and brew.
pub mod RoundTrip
use castle_ops_client.Prelude.{
  ℕ, String, Bool, true, false, not, ◌||◌, ◌&&◌, Option, none, some, List, [], ◌∷◌, if◌then◌else◌,
}
use castle_ops_client.Packages.{Package}
use castle_ops_client.Packages.Texts.{
  trim_space, contains, split_lines, is_empty, has_prefix_lower, match_name_version, first_field,
  match_name_rest,
}
use Prim.Native.String.{◌++◌ as str_append}

abbrev pub choco_package : String × String → Package
choco_package (name, version) = record {
  name = name;
  version = version;
  description = "";
  installed = true;
  installed_at = none;
  source = "chocolatey";
  options = [];
}

abbrev pub is_summary : String → Bool
is_summary line = contains "packages installed" line

abbrev pub add_package : Option (String × String) → List Package → List Package
add_package none packages = packages
add_package (some parts) packages = choco_package parts ∷ packages

abbrev pub choco_line : String → Option (String × String)
choco_line line = if is_empty line || is_summary line then none else match_name_version line

-- The loop of parsePackageList over the lines.
abbrev pub choco_packages : List String → List Package
choco_packages [] = []
choco_packages (line ∷ lines) = add_package (choco_line (trim_space line)) (choco_packages lines)

unfoldable pub parse_choco_list : String → List Package
parse_choco_list output = choco_packages (split_lines output)

abbrev pub names_package : String → String → Bool
names_package name line =
    if is_empty line || is_summary line then false else has_prefix_lower (str_append name " ") line

-- The loop of IsPackageInstalled over the lines.
abbrev pub any_names : String → List String → Bool
any_names name [] = false
any_names name (line ∷ lines) = names_package name (trim_space line) || any_names name lines

abbrev pub brew_package : String × String → Package
brew_package (name, version) = record {
  name = name;
  version = version;
  description = "";
  installed = true;
  installed_at = none;
  source = "homebrew";
  options = [];
}

abbrev pub add_brew : Option (String × String) → List Package → List Package
add_brew none packages = packages
add_brew (some (name, versions)) packages = brew_package (name, first_field versions) ∷ packages

abbrev pub brew_line : String → Option (String × String)
brew_line line = if is_empty line then none else match_name_rest line

-- The loop of parsePackageList over the lines.
abbrev pub brew_packages : List String → List Package
brew_packages [] = []
brew_packages (line ∷ lines) = add_brew (brew_line (trim_space line)) (brew_packages lines)

unfoldable pub parse_brew_list : String → List Package
parse_brew_list output = brew_packages (split_lines output)
