-- ===== src/Packages/Installation.antt =====
-- What it takes for internal/packagemgr/installer.go to report a package as installed.
use castle_ops_client.Prelude.{
  String, ◌≡◌, refl, true, if_lem, str_eq, some, plain, Result, ok, err,
}
use castle_ops_client.Packages.{
  Package, PackageManager, Registry, ensure_package_manager, install_with, install_package,
}
use castle_ops_client.Packages.Ensuring.{Chosen, Seen, ensure_package_manager-Seen}

module _ {W : Type 0} (r : Registry W) where
  -- How this call came to have the package installed.
  pub record InstalledBy (os name : String) (pkg : Package) (w w' : W) : Type 0 where
    pub manager : PackageManager W
    pub chosen : Chosen os name r manager
    pub before : W
    pub ready : W
    pub ensured : ensure_package_manager os name r w ≡ (ok manager, ready)
    pub checked : manager.is_installed before ≡ (ok true, ready)
    pub installed : manager.install_package pkg ready ≡ (ok tt, w')

  abbrev pub Installed : String → String → Package → W → Result (Unit {0}) × W → Type 0
  Installed os name pkg w (err e, w') = Unit
  Installed os name pkg w (ok u, w') = InstalledBy os name pkg w w'

  module _ (os name : String) (pkg : Package) (w : W) where
    by_manager :
        (m : PackageManager W) (before ready : W) (p : Result (Unit {0}) × W)
        → Chosen os name r m
        → ensure_package_manager os name r w ≡ (ok m, ready)
        → m.is_installed before ≡ (ok true, ready)
        → m.install_package pkg ready ≡ p
        → Installed os name pkg w p
    by_manager m before ready (err e, w') c q h k = tt
    by_manager m before ready (ok u, w') c q h k = record {
      manager = m;
      chosen = c;
      before = before;
      ready = ready;
      ensured = q;
      checked = h;
      installed = k;
    }

    install_with-Installed :
        (p : Result (PackageManager W) × W)
        → ensure_package_manager os name r w ≡ p
        → Seen r (Chosen os name r) p
        → Installed os name pkg w (install_with pkg p)
    install_with-Installed (err e, w1) q h = tt
    install_with-Installed (ok m, w1) q (c, w0, h) =
        by_manager m w0 w1 (m.install_package pkg w1) c q h refl

    -- If InstallPackage succeeds, EnsurePackageManager returned a manager that stands in the registry
    -- under the given name, or, where that is "" or "auto", under one that the platform prefers; the
    -- manager answered as the last thing EnsurePackageManager did that it is installed, and then, as
    -- the last thing that InstallPackage did, that it installed the package.
    pub install_package-Installed : Installed os name pkg w (install_package os name (some pkg) r w)
    unfolding install_package
    install_package-Installed =
        if_lem (Installed os name pkg w) (str_eq pkg.name "")
          (err (plain "invalid package: name is required"), w)
          (install_with pkg (ensure_package_manager os name r w)) tt
          (install_with-Installed (ensure_package_manager os name r w) refl
            (ensure_package_manager-Seen r os name w))
