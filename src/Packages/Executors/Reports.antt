-- ===== src/Packages/Executors/Reports.antt =====
-- What the command handler reports of the package commands of internal/packagemgr/executor.go.
use castle_ops_client.Prelude.{
  String, ◌≡◌, ◌≢◌, refl, sym, subst, ap, Bool, true, false, if_lem, ◌∙◌, str_eq, if◌then◌else◌,
  Option, some, Error, Result, ok, err,
}
use castle_ops_client.Prelude.Int.{ℤ, pos, eqb_ℤ}
use castle_ops_client.Api.Models.{
  Command, command_status_success, command_status_failed, command_install_package,
  command_uninstall_package, command_update_package,
}
use castle_ops_client.Api.Commands.Results.{run_command-register_executor}
use castle_ops_client.Api.Commands.{
  CommandResult, Executor, Handler, Texts, register_executor, run_command, timed, answer_result,
  deadline,
}
use castle_ops_client.Packages.{Registry, install_package, uninstall_package, update_package}
use castle_ops_client.Packages.Laws.{not_blank}
use castle_ops_client.Packages.Executors.{
  Payloads, InstallPackagePayload, UninstallPackagePayload, UpdatePackagePayload, parse_payload,
  package_of, unless_refused, result_of, install_package_executor, uninstall_package_executor,
  update_package_executor, register_executors,
}

-- A result that tells how the installer's operation ended.
abbrev pub Reports : (Error → String) → Result (Unit {0}) → CommandResult → Type 0
Reports message (ok u) c = (c.status ≡ command_status_success) × (c.error ≡ "")
Reports message (err e) c = (c.status ≡ command_status_failed) × (c.error ≡ message e)

picks_first : {A : Type 0} (b : Bool) (x y : A) → b ≡ true → (if b then x else y) ≡ x
picks_first b x y h = rw h refl

picks_second : {A : Type 0} (b : Bool) (x y : A) → b ≡ false → (if b then x else y) ≡ y
picks_second b x y h = rw h refl

timed_status : (late : ℤ) (c : CommandResult) → (timed late c).status ≡ c.status
timed_status late c =
    if_lem (λ x. x.status ≡ c.status) (eqb_ℤ c.execution_time (pos 0))
      (record c { execution_time = late }) c refl refl

timed_error : (late : ℤ) (c : CommandResult) → (timed late c).error ≡ c.error
timed_error late c =
    if_lem (λ x. x.error ≡ c.error) (eqb_ℤ c.execution_time (pos 0))
      (record c { execution_time = late }) c refl refl

timed-Reports :
    (message : Error → String) (late : ℤ) (r : Result (Unit {0})) (c : CommandResult)
    → Reports message r c
    → Reports message r (timed late c)
timed-Reports message late (ok u) c (h, k) = (timed_status late c ∙ h, timed_error late c ∙ k)
timed-Reports message late (err e) c (h, k) = (timed_status late c ∙ h, timed_error late c ∙ k)

module _ {W : Type 0} (json : Payloads W) (os : String) (registry : Registry W) where
  -- A run of a command that did what the operation does, and reports it.
  pub record Does (q : Result (Unit {0}) × W) (x : CommandResult × W) : Type 0 where
    pub reports : Reports json.message q.0 x.0
    pub machine : x.1 ≡ q.1

  result_of-Does :
      (texts : Texts) (elapsed late : ℤ) (verb done name : String) (q : Result (Unit {0}) × W)
      → Does q (
        timed late (answer_result texts elapsed (result_of json os registry verb done name q).0),
        (result_of json os registry verb done name q).1,
      )
  result_of-Does texts elapsed late verb done name (ok u, w) = record {
    reports =
        timed-Reports json.message late (ok u)
          (answer_result texts elapsed (result_of json os registry verb done name (ok u, w)).0)
          (refl, refl);
    machine = refl;
  }
  result_of-Does texts elapsed late verb done name (err e, w) = record {
    reports =
        timed-Reports json.message late (err e)
          (answer_result texts elapsed (result_of json os registry verb done name (err e, w)).0)
          (refl, refl);
    machine = refl;
  }

  unless_refused_done :
      {A : Type 0} (what : String) (name : A → String)
      (act : A → W → Result (Option CommandResult) × W) (r : Result A) (a : A) (w : W)
      → r ≡ ok a
      → name a ≢ ""
      → unless_refused json os registry what name act r w ≡ act a w
  unless_refused_done what name act r a w h n =
      ap (λ r. unless_refused json os registry what name act r w) h
      ∙ picks_second (str_eq (name a) "") _ (act a w) (not_blank (name a) n)

  module _ {S : Type 0} (texts : Texts) (elapsed late : ℤ) (cmd : Command) (h : Handler W S)
      (w : W) where
    abbrev finishes : Result (Option CommandResult) × W → CommandResult × W
    finishes (answer, w') = (timed late (answer_result texts elapsed answer), w')

    abbrev answered : Executor W → CommandResult × W
    answered executor = finishes (executor (deadline cmd) cmd.payload w)

    own :
        (kind : String) (executor : Executor W) (h : Handler W S)
        → str_eq kind cmd.type ≡ true
        → run_command texts elapsed late cmd (register_executor kind executor h) w
          ≡ answered executor
    own kind executor h e =
        run_command-register_executor texts elapsed late kind executor cmd h w
        ∙ picks_first (str_eq kind cmd.type) (answered executor)
            (run_command texts elapsed late cmd h w) e

    other :
        (kind : String) (executor : Executor W) (h : Handler W S)
        → str_eq kind cmd.type ≡ false
        → run_command texts elapsed late cmd (register_executor kind executor h) w
          ≡ run_command texts elapsed late cmd h w
    other kind executor h e =
        run_command-register_executor texts elapsed late kind executor cmd h w
        ∙ picks_second (str_eq kind cmd.type) (answered executor)
            (run_command texts elapsed late cmd h w) e

    runs_install :
        cmd.type ≡ command_install_package
        → run_command texts elapsed late cmd (register_executors json os registry h) w
          ≡ answered (install_package_executor json os registry)
    unfolding register_executors
    runs_install e =
        let installs =
          register_executor command_install_package (install_package_executor json os registry) h in
        let uninstalls =
          register_executor command_uninstall_package (uninstall_package_executor json os registry)
            installs in
        other command_update_package (update_package_executor json os registry) uninstalls
          (ap (str_eq command_update_package) e)
        ∙ (other command_uninstall_package (uninstall_package_executor json os registry) installs
              (ap (str_eq command_uninstall_package) e)
            ∙ own command_install_package (install_package_executor json os registry) h
                (ap (str_eq command_install_package) e))

    runs_uninstall :
        cmd.type ≡ command_uninstall_package
        → run_command texts elapsed late cmd (register_executors json os registry h) w
          ≡ answered (uninstall_package_executor json os registry)
    unfolding register_executors
    runs_uninstall e =
        let installs =
          register_executor command_install_package (install_package_executor json os registry) h in
        let uninstalls =
          register_executor command_uninstall_package (uninstall_package_executor json os registry)
            installs in
        other command_update_package (update_package_executor json os registry) uninstalls
          (ap (str_eq command_update_package) e)
        ∙ own command_uninstall_package (uninstall_package_executor json os registry) installs
            (ap (str_eq command_uninstall_package) e)

    runs_update :
        cmd.type ≡ command_update_package
        → run_command texts elapsed late cmd (register_executors json os registry h) w
          ≡ answered (update_package_executor json os registry)
    unfolding register_executors
    runs_update e =
        let installs =
          register_executor command_install_package (install_package_executor json os registry) h in
        let uninstalls =
          register_executor command_uninstall_package (uninstall_package_executor json os registry)
            installs in
        own command_update_package (update_package_executor json os registry) uninstalls
          (ap (str_eq command_update_package) e)

    -- If an install command's payload is read and names a package, then the handler with the package
    -- executors does to the machine what the installer's InstallPackage does for that package, and
    -- reports success exactly where that succeeds, and else its error.
    pub run_command-install_package :
        (p : InstallPackagePayload)
        → cmd.type ≡ command_install_package
        → parse_payload json os registry json.install_payload cmd.payload ≡ ok p
        → p.package_name ≢ ""
        → Does
            (install_package os p.package_manager (some (package_of json os registry p)) registry w)
            (run_command texts elapsed late cmd (register_executors json os registry h) w)
    unfolding install_package_executor
    run_command-install_package p e k n =
        let q =
          install_package os p.package_manager (some (package_of json os registry p)) registry w in
        subst (Does q)
          (sym (
            runs_install e
            ∙ ap finishes (
                unless_refused_done "install" (λ p. p.package_name) _
                  (parse_payload json os registry json.install_payload cmd.payload) p w k n)))
          (result_of-Does texts elapsed late "install" "installed" p.package_name q)

    -- The same for the removal of a package: whether it is forced has no influence.
    pub run_command-uninstall_package :
        (p : UninstallPackagePayload)
        → cmd.type ≡ command_uninstall_package
        → parse_payload json os registry json.uninstall_payload cmd.payload ≡ ok p
        → p.package_name ≢ ""
        → Does
            (uninstall_package os p.package_manager p.package_name registry w)
            (run_command texts elapsed late cmd (register_executors json os registry h) w)
    unfolding uninstall_package_executor
    run_command-uninstall_package p e k n =
        let q = uninstall_package os p.package_manager p.package_name registry w in
        subst (Does q)
          (sym (
            runs_uninstall e
            ∙ ap finishes (
                unless_refused_done "uninstall" (λ p. p.package_name) _
                  (parse_payload json os registry json.uninstall_payload cmd.payload) p w k n)))
          (result_of-Does texts elapsed late "uninstall" "uninstalled" p.package_name q)

    -- If an update command's payload is read and names a package, then the handler with the package
    -- executors does what the installer's UpdatePackage does for that manager and name, whatever
    -- version the payload asks for, and reports success exactly where that succeeds.
    pub run_command-update_package :
        (p : UpdatePackagePayload)
        → cmd.type ≡ command_update_package
        → parse_payload json os registry json.update_payload cmd.payload ≡ ok p
        → p.package_name ≢ ""
        → Does
            (update_package os p.package_manager p.package_name registry w)
            (run_command texts elapsed late cmd (register_executors json os registry h) w)
    unfolding update_package_executor
    run_command-update_package p e k n =
        let q = update_package os p.package_manager p.package_name registry w in
        subst (Does q)
          (sym (
            runs_update e
            ∙ ap finishes (
                unless_refused_done "update" (λ p. p.package_name) _
                  (parse_payload json os registry json.update_payload cmd.payload) p w k n)))
          (result_of-Does texts elapsed late "update" "updated" p.package_name q)
