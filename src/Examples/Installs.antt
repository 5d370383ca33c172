-- ===== src/Examples/Installs.antt =====
-- internal/packagemgr/installer.go
use castle_ops_client.Prelude.{ℕ, suc, ◌≡◌, refl, not, ◌==◌, none, some, false, [], ok, err}
use castle_ops_client.Prelude.Assoc.{lookup, insert}
use castle_ops_client.Packages.{
  Package, PackageManager, Registry, register_manager, install_package, uninstall_package,
  not_installed,
}
use castle_ops_client.Packages.Installation.{Installed, install_package-Installed}

-- A machine without Homebrew is 0; each step that is done counts one up.
abbrev homebrew : PackageManager ℕ
homebrew = record {
  name = "homebrew";
  is_installed = λ w. (ok (not (w == 0)), w);
  install = λ w. (ok tt, suc w);
  install_package = λ pkg w. (ok tt, suc w);
  uninstall_package = λ name w. (ok tt, suc w);
  update_package = λ name w. (ok tt, suc w);
  list_installed = λ w. (ok [], w);
  is_package_installed = λ name w. (ok false, w);
}

abbrev pub registry : Registry ℕ
registry = register_manager homebrew []

abbrev git : Package
git = record {
  name = "git";
  version = "";
  description = "";
  installed = false;
  installed_at = none;
  source = "";
  options = [];
}

install_package-Installed_example :
    Installed registry "linux" "auto" git 0 (install_package "linux" "auto" (some git) registry 0)
install_package-Installed_example = install_package-Installed registry "linux" "auto" git 0

-- Homebrew is installed, and then the package.
installs_both : install_package "linux" "auto" (some git) registry 0 ≡ (ok tt, 2)
unfolding install_package register_manager lookup insert
installs_both = refl

-- A package is not removed by a manager that is missing, and none is installed for it.
removes_nothing : uninstall_package "linux" "homebrew" "git" registry 0 ≡ (err not_installed, 0)
unfolding uninstall_package register_manager lookup insert
removes_nothing = refl
