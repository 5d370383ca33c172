-- ===== src/Examples/Registrations.antt =====
-- internal/agent/registration.go and internal/api/registration.go
use castle_ops_client.Prelude.{refl, none, ok}
use castle_ops_client.Config.{get_client_credentials, new_default}
use castle_ops_client.Api.Client.{get_credentials}
use castle_ops_client.Api.Registration as ApiRegistration
use castle_ops_client.Api.Registration.Agreement.{Agree, ensure_registered-Agree}
use castle_ops_client.Api.Registration.Loss.{Lost, ensure_registered-Lost}
use castle_ops_client.Agent.Registration as AgentRegistration
use castle_ops_client.Agent.Registration.Credentials.{Settled, ensure_registered-Settled}
use castle_ops_client.Examples.Samples.{flaky_net, dead_net, codecs, sample_client}
use castle_ops_client.Examples.Settings.{defaults}
use castle_ops_client.Examples.Heartbeats.{dead_heartbeat}
use castle_ops_client.Examples.Dead.{dead_register}

abbrev machine : AgentRegistration.Host
machine = record { hostname = ok "host"; os = "linux"; architecture = "amd64" }

abbrev new_agent : AgentRegistration.RegistrationService
new_agent = record {
  api_client = record sample_client { client_id = ""; token = "" };
  config = defaults;
}

-- Six attempts reach no server, so the client's own retries are used up once.
ensure_registered-Settled_example :
    Settled flaky_net codecs
      (λ attempt w. (none, w))
      new_agent
      (AgentRegistration.ensure_registered flaky_net codecs
        (λ attempt w. (none, w))
        machine
        new_agent
        6)
ensure_registered-Settled_example =
    ensure_registered-Settled flaky_net codecs (λ attempt w. (none, w)) machine new_agent 6
      (unfold get_credentials get_client_credentials new_default in refl)

abbrev large_machine : ApiRegistration.Host
large_machine = record {
  hostname = ok "host";
  os = "linux";
  architecture = "amd64";
  platform = ok ("debian", "12");
}

-- A service that is registered.
abbrev old_service : ApiRegistration.RegistrationService
old_service = record {
  client = sample_client;
  config = record defaults { client = record { id = "c"; token = "t" } };
}

ensure_registered-Agree_example :
    Agree flaky_net codecs
      (λ attempt w. (none, w))
      (ApiRegistration.ensure_registered flaky_net codecs
        (λ attempt w. (none, w))
        large_machine
        old_service
        6).1
ensure_registered-Agree_example =
    ensure_registered-Agree flaky_net codecs (λ attempt w. (none, w)) large_machine old_service 6
      (unfold get_credentials get_client_credentials in refl)

ensure_registered-Lost_example :
    Lost dead_net codecs
      (λ attempt w. (none, w))
      (ApiRegistration.ensure_registered dead_net codecs
        (λ attempt w. (none, w))
        large_machine
        old_service
        tt)
ensure_registered-Lost_example =
    ensure_registered-Lost dead_net codecs (λ attempt w. (none, w)) dead_heartbeat dead_register
      large_machine old_service tt
      (unfold ApiRegistration.is_registered get_client_credentials in refl)
