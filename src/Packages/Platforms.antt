-- ===== src/Packages/Platforms.antt =====
-- The default registry of internal/packagemgr/registry.go has lawful managers on every platform.
use castle_ops_client.Prelude.{String, ap, ◌∙◌, ◌||◌, str_eq, if_lem, Result, ok, err}
use castle_ops_client.Prelude.Assoc.{Assoc, insert}
use castle_ops_client.Packages.{PackageManager, not_installed, register_manager}
use castle_ops_client.Packages.Shell.{Shell}
use castle_ops_client.Packages.Chocolatey.{chocolatey}
use castle_ops_client.Packages.Homebrew.{Homebrew}
use castle_ops_client.Packages.Queries.{lifted, beside_brew, default_registry}
use castle_ops_client.Packages.Chocolatey.Lawful.{chocolatey-Lawful}
use castle_ops_client.Packages.Homebrew.Lawful.{homebrew-Lawful}
use castle_ops_client.Packages.Laws.{Found, Refuses, Lawful, AllLawful}

module _ {S : Type 0} where
  lifted-Found :
      (m : PackageManager S) (x : String) (p : Result (Unit {0}) × S)
      → Found m p
      → Found (lifted m) (p.0, record { executable = x; machine = p.1 })
  lifted-Found m x (ok u, s') (s, e) = (
    record { executable = x; machine = s },
    ap (λ q. (q.0, record { executable = x; machine = q.1 })) e,
  )
  lifted-Found m x (err e, s') h = tt

  lifted-Refuses :
      (act : String → S → Result (Unit {0}) × S) (m : PackageManager S)
      → Refuses act m
      → Refuses (λ name. beside_brew (act name)) (lifted m)
  lifted-Refuses act m r name h h' n e =
      ap (λ q. (q.0, record { executable = h.executable; machine = q.1 }))
        (r name h.machine h'.machine n (ap (λ q. (q.0, q.1.machine)) e))
      ∙ ap (λ x. (err not_installed, record { executable = x; machine = h'.machine }))
          (ap (λ q. q.1.executable) e)

  lifted-Lawful : (m : PackageManager S) → Lawful m → Lawful (lifted m)
  lifted-Lawful m l = record {
    checks = λ h. l.checks h.machine;
    installs = λ h. lifted-Found m h.executable (m.install h.machine) (l.installs h.machine);
    uninstalls = lifted-Refuses m.uninstall_package m l.uninstalls;
    updates = lifted-Refuses m.update_package m l.updates;
  }

  -- On every platform, each manager of the default registry is lawful: its check never fails, its
  -- Install ends well only after a check that found it, and it refuses to remove or to update a
  -- package where the check does not find it.
  pub default_registry-Lawful :
      (shell : Shell S) (range : Assoc String → Assoc String)
      → AllLawful (default_registry shell range)
  unfolding default_registry register_manager insert
  default_registry-Lawful shell range =
      if_lem (AllLawful {W = Homebrew S}) (str_eq shell.os "windows") _ _
        (lifted-Lawful (chocolatey shell "choco" range) (chocolatey-Lawful shell "choco" range), tt)
        (if_lem (AllLawful {W = Homebrew S}) (str_eq shell.os "darwin" || str_eq shell.os "linux") _
          _ (homebrew-Lawful shell range, tt) tt)
