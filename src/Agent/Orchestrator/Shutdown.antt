-- ===== src/Agent/Orchestrator/Shutdown.antt =====
-- What is left after Stop of internal/agent/agent.go.
use castle_ops_client.Prelude.{ℕ, ◌≡◌, ◌∙◌, refl, true, false, Option, none, some, ok}
use castle_ops_client.Prelude.Int.{positive}
use castle_ops_client.Cache.Types.{Time, Float64}
use castle_ops_client.Cache.Interface.{Cache}
use castle_ops_client.Api.Http.{Net, CtxError}
use castle_ops_client.Api.Methods.{Codecs}
use castle_ops_client.Agent.Heartbeat.{HeartbeatService, new_heartbeat_service}
use castle_ops_client.Agent.Heartbeat as Heartbeat
use castle_ops_client.Agent.Heartbeat.Lifecycle as HeartbeatLifecycle
use castle_ops_client.Metrics.Average.{Arithmetic}
use castle_ops_client.Metrics.System.{System}
use castle_ops_client.Metrics.System.Lifecycle.{In, stop_system, finished, end_loops}
use castle_ops_client.Agent.Orchestrator.{Orchestrator, Storage}
use castle_ops_client.Agent.Orchestrator.Stop.{stop_agent}
use castle_ops_client.Agent.Registration.{Host}
use castle_ops_client.Agent.Orchestrator.Start.{start_agent}
use castle_ops_client.Agent.Orchestrator.Running.{Runs, start_agent-Runs}

-- A run of Start and Stop.
module _ (net : Net) (codecs : Codecs) (cache : Cache) where
  -- After a Stop that returned.
  pub record IsStopped (a : Orchestrator cache) : Type 0 where
    pub running : a.running ≡ false
    pub stop_closed : a.stop_closed ≡ true
    pub stopped_closed : a.stopped_closed ≡ true

  -- What the whole shutdown leaves.
  pub record IsShutDown (a : Orchestrator cache) : Type 0 where
    pub stopped : IsStopped a
    pub workers : a.workers ≡ 0
    pub cleaned_up : a.cleaned_up ≡ true
    pub system : System (Storage cache)
    pub heartbeat : HeartbeatService
    pub has_system : a.metrics_system ≡ some system
    pub has_heartbeat : a.heartbeat_svc ≡ some heartbeat
    pub collects : In finished system
    pub beats : HeartbeatLifecycle.In true HeartbeatLifecycle.finished heartbeat

  abbrev pub Returns :
      (Orchestrator cache → Type 0) → Option (Orchestrator cache × net.World) → Type 0
  Returns P none = ⊥
  Returns P (some (a, w)) = P a

  pub stop_agent-IsShutDown :
      (now : Time) (a : Orchestrator cache) (w : net.World)
      → Runs cache a
      → a.stop_closed ≡ false
      → a.stopped_closed ≡ false
      → Returns IsShutDown (stop_agent net codecs cache now 5 a w)
  unfolding stop_agent stop_system Heartbeat.stop end_loops
  stop_agent-IsShutDown now a w r h k =
      let (c1, c2, c3, c4) = r.collects in
      let (b1, b2, b3, b4) = r.beats in
      rw (r.running, h, r.has_heartbeat, b1, b2, b3, r.has_system, c1, c2, c3, c4, k)
        (record {
          stopped = record { running = refl; stop_closed = refl; stopped_closed = refl };
          workers = refl;
          cleaned_up = refl;
          system = _;
          heartbeat = _;
          has_system = refl;
          has_heartbeat = refl;
          collects = (refl, refl, refl, refl);
          beats = (refl, refl, refl, b4);
        })

  -- The second Stop of an agent that was started again.
  stop_again :
      (now : Time) (steps : ℕ) (a : Orchestrator cache) (w : net.World)
      → a.running ≡ true
      → a.stop_closed ≡ true
      → stop_agent net codecs cache now steps a w ≡ none
  unfolding stop_agent
  stop_again now steps a w h k = rw (h, k) refl

  module _ (wait : ℕ → net.World → Option CtxError × net.World) (numbers : Arithmetic Float64)
      (host : Host) where
    -- If Start returns nil for an agent that is not running and was never stopped, with a positive
    -- collection interval, then a Stop whose shutdown comes to its end returns, and it leaves the
    -- heartbeat service, the metrics system and the workers ended and the resources released.
    pub stop_agent-start_agent :
        (now later : Time) (a a' : Orchestrator cache) (w w' : net.World)
        → a.running ≡ false
        → a.stop_closed ≡ false
        → a.stopped_closed ≡ false
        → positive a.tasks.config.metrics.collection_interval ≡ true
        → start_agent net codecs cache wait numbers host now a w ≡ (some (ok tt, a'), w')
        → Returns IsShutDown (stop_agent net codecs cache later 5 a' w')
    stop_agent-start_agent now later a a' w w' h k l v e =
        let (r, m, n) = start_agent-Runs net codecs cache wait numbers host now a a' w w' h v e in
        stop_agent-IsShutDown later a' w' r (m ∙ k) (n ∙ l)

    -- If Start returns nil for an agent that was stopped, with a positive collection interval, then
    -- the next Stop panics, however far its shutdown would come.
    pub restarted_panics :
        (now later : Time) (steps : ℕ) (a a' : Orchestrator cache) (w w' w2 : net.World)
        → IsStopped a
        → positive a.tasks.config.metrics.collection_interval ≡ true
        → start_agent net codecs cache wait numbers host now a w ≡ (some (ok tt, a'), w')
        → stop_agent net codecs cache later steps a' w2 ≡ none
    restarted_panics now later steps a a' w w' w2 s v e =
        let (r, m, n) =
          start_agent-Runs net codecs cache wait numbers host now a a' w w' s.running v e in
        stop_again later steps a' w2 r.running (m ∙ s.stop_closed)
