-- ===== src/Packages/Chocolatey/Lawful.antt =====
-- internal/packagemgr/chocolatey.go is a package manager as manager.go asks for it.
use castle_ops_client.Prelude.{
  String, ◌≡◌, refl, ap, Bool, true, false, not, str_eq, if_lem, none, some, [], ◌∷◌, Result, ok,
  err, plain, wrapped,
}
use castle_ops_client.Prelude.Assoc.{Assoc}
use castle_ops_client.Packages.Texts.{has_version}
use castle_ops_client.Packages.Shell.{Shell, Ran, when_installed}
use castle_ops_client.Packages.Chocolatey.{
  chocolatey, choco_is_installed, choco_install, choco_answer, choco_verified, choco_ran,
  choco_bootstrap, choco_uninstall_package, choco_update_package,
}
use castle_ops_client.Packages.Laws.{Answers, Lawful, Checked, not_blank}

module _ {S : Type 0} (shell : Shell S) (executable : String) where
  choco_answer-Answers : (p : Ran × S) → Answers (choco_answer shell executable p)
  choco_answer-Answers (ran, s) =
      elim ran.failure
        as (λ f. Answers (elim f as (λ _. Result Bool × S) [
          | some e ↦ (ok false, s)
          | none ↦ (ok (has_version ran.combined), s)
        ])) [ some e ↦ (false, refl) | none ↦ (has_version ran.combined, refl) ]

  choco-Answers : (s : S) → Answers (choco_is_installed shell executable s)
  unfolding choco_is_installed
  choco-Answers s =
      if_lem Answers (not (str_eq shell.os "windows")) (ok false, s)
        (choco_answer shell executable (shell.run executable ("--version" ∷ []) s)) (false, refl)
        (choco_answer-Answers (shell.run executable ("--version" ∷ []) s))

  choco_verified-Checked :
      (q : Result Bool × S) (w : S)
      → choco_is_installed shell executable w ≡ q
      → Checked (choco_is_installed shell executable) (choco_verified shell executable q)
  choco_verified-Checked (ok true, s) w h = (w, h)
  choco_verified-Checked (ok false, s) w h = tt
  choco_verified-Checked (err e, s) w h = tt

  choco_ran-Checked :
      (p : Ran × S) → Checked (choco_is_installed shell executable) (choco_ran shell executable p)
  unfolding choco_ran
  choco_ran-Checked (ran, s) =
      elim ran.failure
        as (λ f.
          Checked (choco_is_installed shell executable) (elim f as (λ _. Result (Unit {0}) × S) [
            | some e ↦ (err (wrapped "chocolatey installation failed" e), s)
            | none ↦ choco_verified shell executable (choco_is_installed shell executable s)
          ])) [
            | some e ↦ tt
            | none ↦ choco_verified-Checked (choco_is_installed shell executable s) s refl
          ]

  choco_bootstrap-Checked :
      (q : Result Bool × S) (w : S)
      → choco_is_installed shell executable w ≡ q
      → Checked (choco_is_installed shell executable) (choco_bootstrap shell executable q)
  unfolding choco_bootstrap
  choco_bootstrap-Checked (err e, s) w h = tt
  choco_bootstrap-Checked (ok true, s) w h = (w, h)
  choco_bootstrap-Checked (ok false, s) w h = choco_ran-Checked (shell.run "powershell" _ s)

  choco_install-Checked :
      (s : S) → Checked (choco_is_installed shell executable) (choco_install shell executable s)
  unfolding choco_install
  choco_install-Checked s =
      if_lem (Checked (choco_is_installed shell executable)) (not (str_eq shell.os "windows"))
        (err (plain "chocolatey is only supported on Windows"), s)
        (choco_bootstrap shell executable (choco_is_installed shell executable s)) tt
        (choco_bootstrap-Checked (choco_is_installed shell executable s) s refl)

  pub chocolatey-Lawful :
      (range : Assoc String → Assoc String) → Lawful (chocolatey shell executable range)
  unfolding chocolatey choco_uninstall_package choco_update_package
  chocolatey-Lawful range = record {
    checks = choco-Answers;
    installs = choco_install-Checked;
    uninstalls = λ name s s' n h. rw (not_blank name n) (ap (when_installed _ _) h);
    updates = λ name s s' n h. rw (not_blank name n) (ap (when_installed _ _) h);
  }
