-- ===== src/Examples/Payloads.antt =====
-- internal/packagemgr/executor.go: package commands, over the manager of Examples/Installs.
use castle_ops_client.Prelude.{ℕ, refl, ap, str_eq, false, true, some, [], ok, arith}
use castle_ops_client.Prelude.Int.{pos}
use castle_ops_client.Api.Models.{Command}
use castle_ops_client.Api.Commands.{Handler, run_command}
use castle_ops_client.Packages.{install_package}
use castle_ops_client.Packages.Executors.{
  Payloads, InstallPackagePayload, UpdatePackagePayload, package_of, parse_payload,
  register_executors,
}
use castle_ops_client.Packages.Executors.Reports.{Does, run_command-install_package}
use castle_ops_client.Examples.Samples.{texts, sample_client, sample_api_command}
use castle_ops_client.Examples.Installs.{registry}

abbrev git_to_install : InstallPackagePayload
git_to_install = record {
  package_manager = "homebrew";
  package_name = "git";
  version = "";
  options = [];
}

abbrev git_to_update : UpdatePackagePayload
git_to_update = record { package_manager = "homebrew"; package_name = "git"; version = "2.40.0" }

abbrev payloads : Payloads ℕ
payloads = record {
  marshal = λ v. ok "{}";
  install_payload = λ text. ok git_to_install;
  uninstall_payload =
      λ text. ok (record { package_manager = "homebrew"; package_name = "git"; force = true });
  update_payload = λ text. ok git_to_update;
  message = λ e. "failed";
  elapsed = λ w. pos w;
}

abbrev idle : Handler ℕ (Unit {0})
idle = record {
  client = sample_client;
  cache = tt;
  executors = [];
  pool = record {
    capacity = 1;
    waiting = [];
    running = [];
    finished = [];
    dropped = [];
    stopped = false;
  };
}

abbrev update_command : Command
update_command = record sample_api_command { type = "update_package" }

run_command-install_package_example :
    Does payloads "linux" registry
      (install_package "linux" "homebrew"
        (some (package_of payloads "linux" registry git_to_install))
        registry
        0)
      (run_command texts
        (pos 3)
        (pos 4)
        sample_api_command
        (register_executors payloads "linux" registry idle)
        0)
run_command-install_package_example =
    run_command-install_package payloads "linux" registry texts (pos 3) (pos 4) sample_api_command
      idle 0 git_to_install refl (unfold parse_payload in refl)
      (λ e. ground (arith, ap (λ s. str_eq s "") e))
