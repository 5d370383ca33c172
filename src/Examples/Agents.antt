-- ===== src/Examples/Agents.antt =====
-- internal/agent/agent.go: an agent with stored credentials, and one that was stopped.
use castle_ops_client.Prelude.{ℕ, ◌≡◌, refl, true, false, Option, none, some, [], Result, ok}
use castle_ops_client.Prelude.Assoc.{values}
use castle_ops_client.Cache.Interface.{Cache, memory_cache}
use castle_ops_client.Cache.Memory.{MemoryCache}
use castle_ops_client.Config.{Config, new_default, get_client_credentials}
use castle_ops_client.Api.Http.{CtxError}
use castle_ops_client.Agent.Registration.{Host, ensure_registered}
use castle_ops_client.Agent.Heartbeat as Heartbeat
use castle_ops_client.Agent.Orchestrator.{Orchestrator, with_client, init_metrics, init_heartbeat}
use castle_ops_client.Agent.Orchestrator.Start.{service_of, begin, start_subsystems, start_agent}
use castle_ops_client.Agent.Orchestrator.Stop.{stop_agent}
use castle_ops_client.Agent.Orchestrator.Running.{Started, start_agent-Started}
use castle_ops_client.Agent.Orchestrator.Shutdown.{restarted_panics}
use castle_ops_client.Metrics.System.{new_system, set_metrics_callback}
use castle_ops_client.Metrics.System.Lifecycle.{start_system}
use castle_ops_client.Examples.Samples.{flaky_net, codecs, sample_client}
use castle_ops_client.Examples.Settings.{defaults}
use castle_ops_client.Examples.Collections.{whole_numbers}

abbrev pub stored : Cache
stored = memory_cache values

abbrev known : Config
known = record defaults { client = record { id = "c"; token = "t" } }

abbrev pub no_commands : MemoryCache
no_commands = record {
  commands = [];
  metrics = [];
  retention_days = 7;
  last_cleanup = 0;
  next_id = 1;
}

-- It is not registered yet.
abbrev blank_agent : Orchestrator stored
blank_agent = with_client stored 0 defaults no_commands sample_client

abbrev known_agent : Orchestrator stored
known_agent = record (with_client stored 0 known no_commands sample_client) { registered = true }

abbrev ended_agent : Orchestrator stored
ended_agent = record known_agent { stop_closed = true; stopped_closed = true }

abbrev pub no_wait : ℕ → ℕ → Option CtxError × ℕ
no_wait attempt w = (none, w)

abbrev pub small_machine : Host
small_machine = record { hostname = ok "host"; os = "linux"; architecture = "amd64" }

start_agent-Started_example :
    Started flaky_net codecs stored no_wait blank_agent false
      (ensure_registered flaky_net codecs no_wait small_machine (service_of stored blank_agent) 6)
      (start_agent flaky_net codecs stored no_wait whole_numbers small_machine 5 blank_agent 6).0
start_agent-Started_example =
    start_agent-Started flaky_net codecs stored no_wait whole_numbers small_machine 5 blank_agent 6
      refl (unfold new_default in refl)

abbrev agent_or :
    Orchestrator stored → Option (Result (Unit {0}) × Orchestrator stored) → Orchestrator stored
agent_or a none = a
agent_or a (some (r, a')) = a'

-- The agent that Start leaves.
abbrev run_agent : Orchestrator stored → Orchestrator stored
unfolding start_agent
run_agent a =
    agent_or a (start_agent flaky_net codecs stored no_wait whole_numbers small_machine 5 a 0).0

run_known :
    start_agent flaky_net codecs stored no_wait whole_numbers small_machine 5 known_agent 0
    ≡ (some (ok tt, run_agent known_agent), 0)
unfolding start_agent run_agent begin init_metrics init_heartbeat new_system start_subsystems
    Heartbeat.start start_system new_default set_metrics_callback Heartbeat.new_heartbeat_service
    get_client_credentials
run_known = refl

run_ended :
    start_agent flaky_net codecs stored no_wait whole_numbers small_machine 5 ended_agent 0
    ≡ (some (ok tt, run_agent ended_agent), 0)
unfolding start_agent run_agent begin init_metrics init_heartbeat new_system start_subsystems
    Heartbeat.start start_system new_default set_metrics_callback Heartbeat.new_heartbeat_service
    get_client_credentials
run_ended = refl

restarted_panics_example : stop_agent flaky_net codecs stored 9 5 (run_agent ended_agent) 0 ≡ none
restarted_panics_example =
    restarted_panics flaky_net codecs stored no_wait whole_numbers small_machine 5 9 5 ended_agent
      (run_agent ended_agent) 0 0 0
      (record { running = refl; stop_closed = refl; stopped_closed = refl })
      (unfold new_default in refl) run_ended
