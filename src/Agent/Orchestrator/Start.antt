-- ===== src/Agent/Orchestrator/Start.antt =====
-- Start of internal/agent/agent.go.
use castle_ops_client.Prelude.{
  ℕ, ◌+◌, String, true, false, Option, none, some, if◌then◌else◌, Error, plain, wrapped, Result, ok,
  err,
}
use castle_ops_client.Cache.Types.{Time, Float64}
use castle_ops_client.Cache.Interface.{Cache}
use castle_ops_client.Config.{update_client_credentials, get_client_credentials}
use castle_ops_client.Api.Http.{Net, CtxError}
use castle_ops_client.Api.Methods.{Codecs}
use castle_ops_client.Agent.Heartbeat.{HeartbeatService, new_heartbeat_service}
use castle_ops_client.Agent.Heartbeat as Heartbeat
use castle_ops_client.Agent.Registration.{RegistrationService, Host, ensure_registered}
use castle_ops_client.Metrics.Average.{Arithmetic}
use castle_ops_client.Metrics.System.{System}
use castle_ops_client.Metrics.System.Lifecycle.{
  start_system, stop_system, Outcome, returned, panicked,
}
use castle_ops_client.Agent.Orchestrator.{Orchestrator, Storage, init_metrics, init_heartbeat}

module _ (cache : Cache) where
  abbrev pub service_of : Orchestrator cache → RegistrationService
  service_of a = record { api_client = a.tasks.api_client; config = a.tasks.config }

  -- The service works on the agent's client and configuration.
  abbrev pub with_service : RegistrationService → Orchestrator cache → Orchestrator cache
  with_service svc a = record a {
    tasks = record (a.tasks) { api_client = svc.api_client; config = svc.config };
  }

  unfoldable pub registered_as : String × String → Orchestrator cache → Orchestrator cache
  unfolding update_client_credentials
  registered_as (id, token) a = record a {
    tasks = record (a.tasks) { config = update_client_credentials id token a.tasks.config };
    registered = true;
  }

  -- The way out of startSubsystems where the heartbeat service does not start.
  abbrev pub give_up :
      Error
      → Orchestrator cache
      → Outcome (Storage cache)
      → Option (Result (Unit {0}) × Orchestrator cache)
  give_up e a panicked = none
  give_up e a (returned r s) =
      some
        (err (wrapped "failed to start heartbeat service" e), record a { metrics_system = some s })

  abbrev pub heartbeat_started :
      System (Storage cache)
      → Orchestrator cache
      → Heartbeat.Outcome
      → Option (Result (Unit {0}) × Orchestrator cache)
  heartbeat_started s a Heartbeat.panicked = none
  heartbeat_started s a (Heartbeat.returned (err e) h) = give_up e a (stop_system s)
  heartbeat_started s a (Heartbeat.returned (ok u) h) =
      some (ok tt, record a { heartbeat_svc = some h; workers = a.workers + 3 })

  abbrev pub then_heartbeat :
      System (Storage cache)
      → Orchestrator cache
      → Option HeartbeatService
      → Option (Result (Unit {0}) × Orchestrator cache)
  then_heartbeat s a none = none
  then_heartbeat s a (some h) = heartbeat_started s a (Heartbeat.start h)

  abbrev pub metrics_started :
      Orchestrator cache
      → Result (Unit {0}) × System (Storage cache)
      → Option (Result (Unit {0}) × Orchestrator cache)
  metrics_started a (err e, s) =
      some (err (wrapped "failed to start metrics system" e), record a { metrics_system = some s })
  metrics_started a (ok u, s) =
      then_heartbeat s (record a { metrics_system = some s }) a.heartbeat_svc

  abbrev pub start_parts :
      Orchestrator cache
      → Option (System (Storage cache))
      → Option (Result (Unit {0}) × Orchestrator cache)
  start_parts a none = none
  start_parts a (some s) = metrics_started a (start_system s)

  -- `none` where the code panics. The three workers are counted.
  unfoldable pub start_subsystems :
      Orchestrator cache → Option (Result (Unit {0}) × Orchestrator cache)
  unfolding Heartbeat.start start_system stop_system
  start_subsystems a = start_parts a a.metrics_system

  abbrev pub after_start :
      Option (Result (Unit {0}) × Orchestrator cache)
      → Option (Result (Unit {0}) × Orchestrator cache)
  after_start none = none
  after_start (some (err e, a)) =
      some (err (wrapped "failed to start subsystems" e), record a { running = false })
  after_start (some (ok u, a)) = some (ok tt, a)

  abbrev pub after_init :
      Result (Unit {0}) × Orchestrator cache → Option (Result (Unit {0}) × Orchestrator cache)
  unfolding start_subsystems init_heartbeat
  after_init (err e, a) = some (err (wrapped "failed to initialize metrics" e), a)
  after_init (ok u, a) =
      after_start (start_subsystems (record (init_heartbeat cache a) { running = true }))

  -- The part of Start behind the registration.
  unfoldable pub begin :
      Arithmetic Float64
      → String
      → Time
      → Orchestrator cache
      → Option (Result (Unit {0}) × Orchestrator cache)
  unfolding init_metrics start_subsystems init_heartbeat get_client_credentials
  begin numbers os now a =
      after_init (init_metrics cache numbers os now (get_client_credentials a.tasks.config).0 a)

module _ (net : Net) (codecs : Codecs) (cache : Cache)
    (wait : ℕ → net.World → Option CtxError × net.World) where
  unfoldable pub start_agent :
      Arithmetic Float64
      → Host
      → Time
      → Orchestrator cache
      → net.World
      → Option (Result (Unit {0}) × Orchestrator cache) × net.World
  unfolding begin ensure_registered registered_as
  start_agent numbers host now a w =
      let (r, svc, w1) = ensure_registered net codecs wait host (service_of cache a) w in
      if a.running
      then (some (err (plain "agent already running"), a), w)
      else if a.registered
      then (begin cache numbers host.os now a, w)
      else elim r [
        | err e ↦ (some (err (wrapped "registration failed" e), with_service cache svc a), w1)
        | ok creds ↦ (
          begin cache numbers host.os now (registered_as cache creds (with_service cache svc a)),
          w1,
        )
      ]
