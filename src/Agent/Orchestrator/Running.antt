-- ===== src/Agent/Orchestrator/Running.antt =====
-- What runs after Start of internal/agent/agent.go.
use castle_ops_client.Prelude.{
  ℕ, String, ◌+◌, ◌≡◌, inl, inr, Bool-cases, sym, ap, ◌∙◌, subst, refl, Bool, true, false, Option,
  none, some, Result, ok, err, wrapped, plain, if◌then◌else◌, arith,
}
use castle_ops_client.Prelude.Int.{positive}
use castle_ops_client.Cache.Types.{Time, Float64}
use castle_ops_client.Cache.Interface.{Cache}
use castle_ops_client.Config.{get_client_credentials}
use castle_ops_client.Api.Http.{Net, CtxError}
use castle_ops_client.Api.Methods.{Codecs}
use castle_ops_client.Agent.Heartbeat.{HeartbeatService, new_heartbeat_service}
use castle_ops_client.Agent.Heartbeat as Heartbeat
use castle_ops_client.Agent.Heartbeat.Lifecycle as HeartbeatLifecycle
use castle_ops_client.Metrics.Average.{Arithmetic}
use castle_ops_client.Metrics.System.{System, fresh_system, set_metrics_callback}
use castle_ops_client.Metrics.System.Lifecycle.{In, active, start_system, new_system-fresh}
use castle_ops_client.Agent.Orchestrator.{
  Orchestrator, Storage, init_metrics, metrics_made, init_heartbeat, storing, metrics_config,
}
use castle_ops_client.Config.{update_client_credentials}
use castle_ops_client.Agent.Registration.{RegistrationService, Host, ensure_registered}
use castle_ops_client.Agent.Registration.Settings.{ensure_registered-KeepsSettings}
use castle_ops_client.Agent.Orchestrator.Start.{
  start_agent, registered_as, with_service, service_of, begin, after_init, start_subsystems,
}

module _ (cache : Cache) where
  -- The agent runs with its three workers, its metrics system and its heartbeat service.
  pub record Runs (a : Orchestrator cache) : Type 0 where
    pub running : a.running ≡ true
    pub system : System (Storage cache)
    pub heartbeat : HeartbeatService
    pub has_system : a.metrics_system ≡ some system
    pub has_heartbeat : a.heartbeat_svc ≡ some heartbeat
    pub collects : In active system
    pub beats : HeartbeatLifecycle.In true HeartbeatLifecycle.active heartbeat
    pub client_id : system.client_id ≡ (get_client_credentials a.tasks.config).0

  -- `valid` says that the heartbeat's interval is positive; if it is not, its loop panics.
  abbrev pub BegunIf :
      Bool → Orchestrator cache → Option (Result (Unit {0}) × Orchestrator cache) → Type 0
  BegunIf false a x = x ≡ none
  BegunIf true a none = ⊥
  BegunIf true a (some (err e, a')) = ⊥
  BegunIf true a (some (ok u, a')) =
      Runs a'
      × (a'.workers ≡ a.workers + 3)
      × (a'.tasks ≡ a.tasks)
      × (a'.stop_closed ≡ a.stop_closed)
      × (a'.stopped_closed ≡ a.stopped_closed)

  abbrev pub Begun : Orchestrator cache → Option (Result (Unit {0}) × Orchestrator cache) → Type 0
  Begun a x = BegunIf (positive a.tasks.config.heartbeat.interval) a x

  -- The metrics system that the agent makes.
  abbrev new_parts : Arithmetic Float64 → String → Time → Orchestrator cache → Orchestrator cache
  unfolding get_client_credentials set_metrics_callback
  new_parts numbers os now a = record a {
    metrics_system = some (
        set_metrics_callback (storing cache) (
          fresh_system numbers os now (metrics_config a.tasks.config)
            (get_client_credentials a.tasks.config).0));
  }

  init_metrics-ok :
      (numbers : Arithmetic Float64) (os : String) (now : Time) (a : Orchestrator cache)
      → positive a.tasks.config.metrics.collection_interval ≡ true
      → init_metrics cache numbers os now (get_client_credentials a.tasks.config).0 a
        ≡ (ok tt, new_parts numbers os now a)
  unfolding init_metrics set_metrics_callback new_parts
  init_metrics-ok numbers os now a h = ap (metrics_made cache a) (
      new_system-fresh numbers os now (metrics_config a.tasks.config)
        (get_client_credentials a.tasks.config).0 h refl)

  begin-Begun :
      (numbers : Arithmetic Float64) (os : String) (now : Time) (a : Orchestrator cache)
      → positive a.tasks.config.metrics.collection_interval ≡ true
      → Begun a (begin cache numbers os now a)
  unfolding begin new_parts get_client_credentials start_subsystems init_heartbeat
      set_metrics_callback start_system new_heartbeat_service Heartbeat.start
  begin-Begun numbers os now a h =
      subst (λ p. Begun a (after_init cache p)) (sym (init_metrics-ok numbers os now a h))
        (elim (Bool-cases (positive a.tasks.config.heartbeat.interval)) [
          | inl e ↦ rw e (
            record {
              running = refl;
              system = _;
              heartbeat = _;
              has_system = refl;
              has_heartbeat = refl;
              collects = (refl, refl, refl, refl);
              beats = (refl, refl, refl, e);
              client_id = refl;
            },
            refl,
            refl,
            refl,
            refl,
          )
          | inr e ↦ rw e refl
        ])

module _ (net : Net) (codecs : Codecs) (cache : Cache)
    (wait : ℕ → net.World → Option CtxError × net.World) where
  -- What Start does, told by what became of the registration.
  abbrev pub Started :
      Orchestrator cache
      → Bool
      → Result (String × String) × RegistrationService × net.World
      → Option (Result (Unit {0}) × Orchestrator cache)
      → Type 0
  Started a true (r, svc, w) x = Begun cache a x
  Started a false (ok creds, svc, w) x =
      Begun cache (registered_as cache creds (with_service cache svc a)) x
  Started a false (err e, svc, w) x =
      x ≡ some (err (wrapped "registration failed" e), with_service cache svc a)

  start_case :
      (numbers : Arithmetic Float64) (os : String) (now : Time) (a : Orchestrator cache) (b : Bool)
      (r : Result (String × String)) (svc : RegistrationService) (w w1 : net.World)
      → svc.config.metrics ≡ a.tasks.config.metrics
      → positive a.tasks.config.metrics.collection_interval ≡ true
      → Started a b
          (r, svc, w1)
          (if b
            then (begin cache numbers os now a, w)
            else elim r as (λ _. Option (Result (Unit {0}) × Orchestrator cache) × net.World) [
              | err e ↦ (some (err (wrapped "registration failed" e), with_service cache svc a), w1)
              | ok creds ↦ (
                begin cache numbers os now (registered_as cache creds (with_service cache svc a)),
                w1,
              )
            ]).0
  unfolding registered_as update_client_credentials
  start_case numbers os now a true r svc w w1 e k = begin-Begun cache numbers os now a k
  start_case numbers os now a false (ok creds) svc w w1 e k =
      begin-Begun cache numbers os now (registered_as cache creds (with_service cache svc a))
        (ap (λ m. positive m.collection_interval) e ∙ k)
  start_case numbers os now a false (err x) svc w w1 e k = refl

  -- For an agent that is not running, with a positive collection interval, Start begins the metrics
  -- system for the stored client, the heartbeat service and three workers at once where the agent is
  -- registered, does the same after the credentials were stored where EnsureRegistered obtains them,
  -- and returns the wrapped error and starts nothing where it fails. With a heartbeat interval that is
  -- not positive it panics in the first two cases.
  pub start_agent-Started :
      (numbers : Arithmetic Float64) (host : Host) (now : Time) (a : Orchestrator cache)
      (w : net.World)
      → a.running ≡ false
      → positive a.tasks.config.metrics.collection_interval ≡ true
      → Started a a.registered
          (ensure_registered net codecs wait host (service_of cache a) w)
          (start_agent net codecs cache wait numbers host now a w).0
  unfolding start_agent
  start_agent-Started numbers host now a w h k =
      let (r, svc, w1) = ensure_registered net codecs wait host (service_of cache a) w in
      subst
        (λ b.
          Started a a.registered (r, svc, w1)
            (if b
              then (some (err (plain "agent already running"), a), w)
              else if a.registered
              then (begin cache numbers host.os now a, w)
              else elim r as (λ _. Option (Result (Unit {0}) × Orchestrator cache) × net.World) [
                | err e ↦
                    (some (err (wrapped "registration failed" e), with_service cache svc a), w1)
                | ok creds ↦ (
                  begin cache numbers host.os now
                      (registered_as cache creds (with_service cache svc a)),
                  w1,
                )
              ]).0)
        (sym h)
        (start_case numbers host.os now a a.registered r svc w w1
          (ensure_registered-KeepsSettings net codecs wait host (service_of cache a) w).0 k)

  Begun-Runs :
      (valid : Bool) (a a' : Orchestrator cache)
      → BegunIf cache valid a (some (ok tt, a'))
      → Runs cache a' × (a'.stop_closed ≡ a.stop_closed) × (a'.stopped_closed ≡ a.stopped_closed)
  Begun-Runs true a a' (r, k, l, m, n) = (r, m, n)
  Begun-Runs false a a' h = absurd (ground (arith, h))

  Started-Runs :
      (a : Orchestrator cache) (b : Bool)
      (p : Result (String × String) × RegistrationService × net.World) (a' : Orchestrator cache)
      → Started a b p (some (ok tt, a'))
      → Runs cache a' × (a'.stop_closed ≡ a.stop_closed) × (a'.stopped_closed ≡ a.stopped_closed)
  unfolding registered_as
  Started-Runs a true p a' h = Begun-Runs (positive a.tasks.config.heartbeat.interval) a a' h
  Started-Runs a false (ok creds, svc, w) a' h =
      Begun-Runs (positive svc.config.heartbeat.interval)
        (registered_as cache creds (with_service cache svc a)) a' h
  Started-Runs a false (err e, svc, w) a' h = absurd (ground arith)

  -- A Start that returned nil, in the words of its result.
  pub start_agent-Runs :
      (numbers : Arithmetic Float64) (host : Host) (now : Time) (a a' : Orchestrator cache)
      (w w' : net.World)
      → a.running ≡ false
      → positive a.tasks.config.metrics.collection_interval ≡ true
      → start_agent net codecs cache wait numbers host now a w ≡ (some (ok tt, a'), w')
      → Runs cache a' × (a'.stop_closed ≡ a.stop_closed) × (a'.stopped_closed ≡ a.stopped_closed)
  start_agent-Runs numbers host now a a' w w' h k e =
      let p = ensure_registered net codecs wait host (service_of cache a) w in
      Started-Runs a a.registered p a'
        (subst (λ x. Started a a.registered p x.0) e (start_agent-Started numbers host now a w h k))
