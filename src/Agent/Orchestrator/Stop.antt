-- ===== src/Agent/Orchestrator/Stop.antt =====
-- Stop of internal/agent/agent.go, with its shutdown as a row of steps.
use castle_ops_client.Prelude.{
  ℕ, true, false, not, Option, none, some, List, [], ◌∷◌, take, if◌then◌else◌,
}
use castle_ops_client.Cache.Types.{Time}
use castle_ops_client.Cache.Interface.{Cache}
use castle_ops_client.Api.Http.{Net}
use castle_ops_client.Api.Methods.{Codecs}
use castle_ops_client.Agent.Heartbeat.{HeartbeatService, new_heartbeat_service}
use castle_ops_client.Agent.Heartbeat as Heartbeat
use castle_ops_client.Agent.Tasks.{upload_agent_metrics}
use castle_ops_client.Metrics.System.{System}
use castle_ops_client.Metrics.System.Lifecycle.{stop_system, Outcome, returned, panicked}
use castle_ops_client.Agent.Orchestrator.{Orchestrator, Storage}

module _ (cache : Cache) where
  -- The steps of a shutdown that only change the agent.
  abbrev pub heartbeat_stopped :
      Orchestrator cache → Heartbeat.Outcome → Option (Orchestrator cache)
  heartbeat_stopped a Heartbeat.panicked = none
  heartbeat_stopped a (Heartbeat.returned r h) = some (record a { heartbeat_svc = some h })

  abbrev pub stop_heartbeat :
      Orchestrator cache → Option HeartbeatService → Option (Orchestrator cache)
  stop_heartbeat a none = some a
  stop_heartbeat a (some h) = heartbeat_stopped a (Heartbeat.stop h)

  abbrev pub metrics_stopped :
      Orchestrator cache → Outcome (Storage cache) → Option (Orchestrator cache)
  metrics_stopped a panicked = none
  metrics_stopped a (returned r s) = some (record a { metrics_system = some s })

  abbrev pub stop_metrics :
      Orchestrator cache → Option (System (Storage cache)) → Option (Orchestrator cache)
  stop_metrics a none = some a
  stop_metrics a (some s) = metrics_stopped a (stop_system s)

module _ (net : Net) (codecs : Codecs) (cache : Cache) where
  abbrev beside : net.World → Option (Orchestrator cache) → Option (Orchestrator cache × net.World)
  beside w none = none
  beside w (some a) = some (a, w)

  -- What the goroutine of Stop does, step by step.
  abbrev pub shutdown :
      Time → List (Orchestrator cache × net.World → Option (Orchestrator cache × net.World))
  shutdown now =
      (λ p. beside p.1 (stop_heartbeat cache p.0 p.0.heartbeat_svc))
      ∷ (λ p. beside p.1 (stop_metrics cache p.0 p.0.metrics_system))
      ∷ (λ p. some (record (p.0) { workers = 0 }, p.1))
      ∷ (λ p. some (p.0, (upload_agent_metrics net codecs cache now p.0.tasks p.1).1))
      ∷ (λ p. some (record (p.0) { cleaned_up = true }, p.1))
      ∷ []

  abbrev pub run_steps :
      List (Orchestrator cache × net.World → Option (Orchestrator cache × net.World))
      → Orchestrator cache × net.World
      → Option (Orchestrator cache × net.World)
  run_steps [] p = some p
  run_steps (f ∷ fs) p = elim (f p) as (λ _. Option (Orchestrator cache × net.World)) [
    | none ↦ none
    | some q ↦ run_steps fs q
  ]

  abbrev pub closed :
      Option (Orchestrator cache × net.World) → Option (Orchestrator cache × net.World)
  closed none = none
  closed (some (a, w)) =
      if a.stopped_closed
      then none
      else some (record a { running = false; stopped_closed = true }, w)

  -- `steps` is how far the shutdown comes before its time is over; what it does after that is not
  -- followed. Stop returns nil wherever it returns; `none` is a panic.
  unfoldable pub stop_agent :
      Time → ℕ → Orchestrator cache → net.World → Option (Orchestrator cache × net.World)
  unfolding upload_agent_metrics Heartbeat.stop stop_system
  stop_agent now steps a w =
      if not a.running
      then some (a, w)
      else if a.stop_closed
      then none
      else closed (run_steps (take steps (shutdown now)) (record a { stop_closed = true }, w))
