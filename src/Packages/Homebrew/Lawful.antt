-- ===== src/Packages/Homebrew/Lawful.antt =====
-- internal/packagemgr/homebrew.go is a package manager as manager.go asks for it.
use castle_ops_client.Prelude.{
  String, ◌≡◌, refl, ap, Bool, true, false, not, if_lem, none, some, [], ◌∷◌, Result, ok, err,
  plain, wrapped,
}
use castle_ops_client.Prelude.Assoc.{Assoc}
use castle_ops_client.Packages.Texts.{contains}
use castle_ops_client.Packages.Shell.{Shell, Ran, when_installed}
use castle_ops_client.Packages.Homebrew.{
  Homebrew, homebrew, brew_is_installed, brew_install, brew_answer, brew_verified, brew_ran,
  brew_bootstrap, is_supported, find_brew_executable, brew_uninstall_package, brew_update_package,
}
use castle_ops_client.Packages.Laws.{Answers, Lawful, Checked, not_blank}

module _ {S : Type 0} (shell : Shell S) where
  brew_answer-Answers : (h : Homebrew S) (p : Ran × S) → Answers (brew_answer shell h p)
  brew_answer-Answers h (ran, s) =
      elim ran.failure
        as (λ f. Answers (elim f as (λ _. Result Bool × Homebrew S) [
          | some e ↦ (ok false, record h { machine = s })
          | none ↦ (ok (contains "Homebrew" ran.combined), record h { machine = s })
        ])) [ some e ↦ (false, refl) | none ↦ (contains "Homebrew" ran.combined, refl) ]

  brew-Answers : (h : Homebrew S) → Answers (brew_is_installed shell h)
  unfolding brew_is_installed
  brew-Answers h =
      if_lem Answers (not (is_supported shell.os)) (ok false, h)
        (brew_answer shell h (shell.run h.executable ("--version" ∷ []) h.machine)) (false, refl)
        (brew_answer-Answers h (shell.run h.executable ("--version" ∷ []) h.machine))

  brew_verified-Checked :
      (q : Result Bool × Homebrew S) (w : Homebrew S)
      → brew_is_installed shell w ≡ q
      → Checked (brew_is_installed shell) (brew_verified shell q)
  brew_verified-Checked (ok true, h) w e = (w, e)
  brew_verified-Checked (ok false, h) w e = tt
  brew_verified-Checked (err x, h) w e = tt

  brew_ran-Checked :
      (h : Homebrew S) (p : Ran × S) → Checked (brew_is_installed shell) (brew_ran shell h p)
  unfolding brew_ran
  brew_ran-Checked h (ran, s) =
      elim ran.failure
        as (λ f.
          Checked (brew_is_installed shell) (elim f as (λ _. Result (Unit {0}) × Homebrew S) [
            | some e ↦ (err (wrapped "homebrew installation failed" e), record h { machine = s })
            | none ↦ brew_verified shell (
                brew_is_installed shell
                  (record { executable = find_brew_executable shell s; machine = s }))
          ])) [
            | some e ↦ tt
            | none ↦
                let h' : Homebrew S = record {
                  executable = find_brew_executable shell s;
                  machine = s;
                } in
                brew_verified-Checked (brew_is_installed shell h') h' refl
          ]

  brew_bootstrap-Checked :
      (q : Result Bool × Homebrew S) (w : Homebrew S)
      → brew_is_installed shell w ≡ q
      → Checked (brew_is_installed shell) (brew_bootstrap shell q)
  unfolding brew_bootstrap
  brew_bootstrap-Checked (err x, h) w e = tt
  brew_bootstrap-Checked (ok true, h) w e = (w, e)
  brew_bootstrap-Checked (ok false, h) w e = brew_ran-Checked h (shell.run "bash" _ h.machine)

  brew_install-Checked : (h : Homebrew S) → Checked (brew_is_installed shell) (brew_install shell h)
  unfolding brew_install
  brew_install-Checked h =
      if_lem (Checked (brew_is_installed shell)) (not (is_supported shell.os))
        (err (plain "homebrew is only supported on macOS and Linux"), h)
        (brew_bootstrap shell (brew_is_installed shell h)) tt
        (brew_bootstrap-Checked (brew_is_installed shell h) h refl)

  pub homebrew-Lawful : (range : Assoc String → Assoc String) → Lawful (homebrew shell range)
  unfolding homebrew brew_uninstall_package brew_update_package
  homebrew-Lawful range = record {
    checks = brew-Answers;
    installs = brew_install-Checked;
    uninstalls = λ name s s' n h. rw (not_blank name n) (ap (when_installed _ _) h);
    updates = λ name s s' n h. rw (not_blank name n) (ap (when_installed _ _) h);
  }
