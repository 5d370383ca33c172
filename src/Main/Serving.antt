-- ===== src/Main/Serving.antt =====
-- The agent in service mode of cmd/castleops-client/main.go: runAgent.
use castle_ops_client.Prelude.{ℕ, ◌≡◌, true, false, Option, Result, ok, err}
use castle_ops_client.Prelude.Int.{positive}
use castle_ops_client.Cache.Types.{Float64}
use castle_ops_client.Cache.Interface.{Cache}
use castle_ops_client.Config.{Config}
use castle_ops_client.Api.Http.{Net, CtxError}
use castle_ops_client.Api.Methods.{Codecs}
use castle_ops_client.Agent.Registration.{Host}
use castle_ops_client.Agent.Orchestrator.{Orchestrator}
use castle_ops_client.Agent.Orchestrator.Shutdown.{IsShutDown}
use castle_ops_client.Metrics.Average.{Arithmetic}
use castle_ops_client.Main.{Served, failed, panicked, blocked, served}

-- The periods that tickers are made with.
pub record Intervals (config : Config) : Type 0 where
  pub collection : positive config.metrics.collection_interval ≡ true
  pub heartbeat : positive config.heartbeat.interval ≡ true

module _ (cache : Cache) where
  -- An agent that was just made.
  record IsFresh (config : Config) (a : Orchestrator cache) : Type 0 where
    running : a.running ≡ false
    stop_closed : a.stop_closed ≡ false
    stopped_closed : a.stopped_closed ≡ false
    config_kept : a.tasks.config ≡ config

  abbrev AreFresh : Config → Result (Orchestrator cache) → Type 0
  AreFresh config (err e) = Unit
  AreFresh config (ok a) = IsFresh config a

module _ (net : Net) (codecs : Codecs) (cache : Cache)
    (wait : ℕ → net.World → Option CtxError × net.World) (numbers : Arithmetic Float64)
    (host : Host) where
  -- Service mode ends with an error before the agent runs, or with the agent shut down.
  abbrev pub Ends : Served cache (net.World) → Type 0
  Ends (failed e) = Unit
  Ends panicked = ⊥
  Ends (blocked a) = ⊥
  Ends (served a w) = IsShutDown net codecs cache a
