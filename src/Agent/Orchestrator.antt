-- ===== src/Agent/Orchestrator.antt =====
-- internal/agent/agent.go: the agent that makes, starts and stops the parts. The cache that
-- cache.New made is a parameter, and so is the network; logging is left out.
pub mod Start
pub mod Stop
pub mod Running
pub mod Shutdown
use castle_ops_client.Prelude.{
  ℕ, zero, suc, ◌+◌, ◌≤◌, String, Bool, true, false, not, Option, none, some, List, [], ◌∷◌, take,
  str_eq, ◌&&◌, if◌then◌else◌, Error, plain, wrapped, Result, ok, err,
}
use castle_ops_client.Prelude.Int.{pos}
use castle_ops_client.Cache.Types.{Time, Float64, Metrics}
use castle_ops_client.Cache.Interface.{Cache}
use castle_ops_client.Config.{Config, update_client_credentials, get_client_credentials}
use castle_ops_client.Api.Client.{Client, ClientConfig, new_client, set_credentials}
use castle_ops_client.Api.Http.{Net, CtxError}
use castle_ops_client.Api.Methods.{Codecs}
use castle_ops_client.Agent.Heartbeat.{HeartbeatService, new_heartbeat_service}
use castle_ops_client.Agent.Heartbeat as Heartbeat
use castle_ops_client.Agent.Registration.{RegistrationService, Host, ensure_registered, are_present}
use castle_ops_client.Agent.Tasks.{Agent, upload_agent_metrics}
use castle_ops_client.Metrics.Average.{Arithmetic}
use castle_ops_client.Metrics.Buffer.{MetricsConfig}
use castle_ops_client.Metrics.System.{
  System, SystemStats, Callback, new_system, set_metrics_callback, system_stats,
}
use castle_ops_client.Metrics.System.Lifecycle.{
  start_system, stop_system, Outcome, returned, panicked,
}

-- The callback works on the cache and reads the clock.
abbrev pub Storage : Cache → Type 0
Storage cache = Time × cache.State

-- `tasks` has the configuration, the client and the cache, which the parts share. `workers` is what
-- the wait group counts.
pub record Orchestrator (cache : Cache) : Type 0 where
  pub tasks : Agent cache.State
  pub metrics_system : Option (System (Storage cache))
  pub heartbeat_svc : Option HeartbeatService
  pub running : Bool
  pub registered : Bool
  pub start_time : Time
  pub stop_closed : Bool
  pub stopped_closed : Bool
  pub workers : ℕ
  pub cleaned_up : Bool

pub record AgentStats : Type 0 where
  pub running : Bool
  pub registered : Bool
  pub metrics_stats : Option SystemStats

-- The configuration of the metrics system.
abbrev pub metrics_config : Config → MetricsConfig
metrics_config config = record {
  collection_interval = config.metrics.collection_interval;
  moving_average_window = pos 5;
  enable_cpu = true;
  enable_memory = true;
  enable_disk = true;
  enable_network = true;
}

abbrev pub client_config : Config → ClientConfig
client_config config = record { base_url = config.server.url; retry_config = none }

-- The callback of initMetrics.
abbrev pub storing : (cache : Cache) → Callback (Storage cache)
storing cache x (now, s) = let (r, s') = cache.store_metrics now x s in (r, (now, s'))

module _ (cache : Cache) where
  abbrev pub with_client : Time → Config → cache.State → Client → Orchestrator cache
  with_client now config s c = record {
    tasks = record { config = config; api_client = c; cache = s };
    metrics_system = none;
    heartbeat_svc = none;
    running = false;
    registered = false;
    start_time = now;
    stop_closed = false;
    stopped_closed = false;
    workers = 0;
    cleaned_up = false;
  }

  -- The credentials that the configuration has.
  abbrev pub use_credentials : String × String → Orchestrator cache → Orchestrator cache
  use_credentials (id, token) a =
      if are_present (id, token)
      then record a {
        tasks = record (a.tasks) { api_client = set_credentials id token a.tasks.api_client };
        registered = true;
      }
      else a

  unfoldable pub init_api_client : Time → Config → cache.State → Result (Orchestrator cache)
  unfolding new_client set_credentials get_client_credentials
  init_api_client now config s = elim (new_client (client_config config)) [
    | err e ↦ err (wrapped "failed to create API client" e)
    | ok c ↦ ok (use_credentials (get_client_credentials config) (with_client now config s c))
  ]

  unfoldable pub with_cache : Time → Config → Result cache.State → Result (Orchestrator cache)
  unfolding init_api_client
  with_cache now config (err e) =
      err (wrapped "failed to initialize cache" (wrapped "failed to create cache" e))
  with_cache now config (ok s) = elim (init_api_client now config s) [
    | err e ↦ err (wrapped "failed to initialize API client" e)
    | ok a ↦ ok a
  ]

  -- `none` for a nil configuration; the result of cache.New is given.
  unfoldable pub new_agent : Time → Option Config → Result cache.State → Result (Orchestrator cache)
  unfolding with_cache
  new_agent now none s = err (plain "config cannot be nil")
  new_agent now (some config) s = with_cache now config s

  abbrev pub metrics_made :
      Orchestrator cache → Result (System (Storage cache)) → Result (Unit {0}) × Orchestrator cache
  unfolding set_metrics_callback
  metrics_made a (err e) =
      (err (wrapped "failed to create metrics system" e), record a { metrics_system = none })
  metrics_made a (ok s) =
      (ok tt, record a { metrics_system = some (set_metrics_callback (storing cache) s) })

  unfoldable pub init_metrics :
      Arithmetic Float64
      → String
      → Time
      → String
      → Orchestrator cache
      → Result (Unit {0}) × Orchestrator cache
  unfolding new_system
  init_metrics numbers os now id a =
      metrics_made a (new_system numbers os now (some (metrics_config a.tasks.config)) id)

  unfoldable pub init_heartbeat : Orchestrator cache → Orchestrator cache
  unfolding new_heartbeat_service
  init_heartbeat a = record a {
    heartbeat_svc = some (new_heartbeat_service a.tasks.api_client a.tasks.config a.start_time);
  }

  unfoldable pub agent_stats : Orchestrator cache → AgentStats
  agent_stats a = record {
    running = a.running;
    registered = a.registered;
    metrics_stats = elim a.metrics_system [ none ↦ none | some s ↦ some (system_stats s) ];
  }
