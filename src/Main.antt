-- ===== src/Main.antt =====
-- cmd/castleops-client/main.go: what the flags choose, and the agent in service mode. Logging is
-- left out.
pub mod Serving
pub mod Installing
use castle_ops_client.Prelude.{
  ℕ, String, Bool, true, false, ◌||◌, Option, none, some, str_eq, if◌then◌else◌, Error, plain,
  wrapped, Result, ok, err,
}
use castle_ops_client.Cache.Types.{Time, Float64}
use castle_ops_client.Cache.Interface.{Cache}
use castle_ops_client.Config.{Config}
use castle_ops_client.Api.Http.{Net, CtxError}
use castle_ops_client.Api.Methods.{Codecs}
use castle_ops_client.Agent.Registration.{Host}
use castle_ops_client.Agent.Orchestrator.{Orchestrator, new_agent}
use castle_ops_client.Agent.Orchestrator.Start.{start_agent}
use castle_ops_client.Agent.Orchestrator.Stop.{stop_agent}
use castle_ops_client.Metrics.Average.{Arithmetic}

pub record Flags : Type 0 where
  pub config_path : String
  pub version_flag : Bool
  pub install_flag : Bool
  pub uninstall_flag : Bool
  pub service_flag : Bool

-- What main does after the flags and the configuration are read.
pub data Action : Type 0 where
  print_version : Action
  exit_with : Error → Action
  install_service uninstall_service run_as_service run_in_foreground : Config → Action

abbrev pub should_run_as_service : String → Bool → Bool
should_run_as_service os is_windows_service =
    if str_eq os "windows" then is_windows_service else false

abbrev chosen : Flags → Bool → Config → Action
chosen flags is_service config =
    if flags.install_flag
    then install_service config
    else if flags.uninstall_flag
    then uninstall_service config
    else if flags.service_flag || is_service
    then run_as_service config
    else run_in_foreground config

abbrev loaded : Flags → Bool → Result Config → Action
loaded flags is_service (err e) = exit_with e
loaded flags is_service (ok config) = chosen flags is_service config

-- `load` is config.Load, of the path that the flag gives.
unfoldable pub main : String → Bool → (String → Result Config) → Flags → Action
main os is_windows_service load flags =
    if flags.version_flag
    then print_version
    else loaded flags (should_run_as_service os is_windows_service) (load flags.config_path)

-- How the worker of the service ends: with an error; with a panic; not at all, since it waits for a
-- shutdown that never completes; or with the agent that it stopped.
pub data Served (cache : Cache) (W : Type 0) : Type 0 where
  failed : Error → Served cache W
  panicked : Served cache W
  blocked : Orchestrator cache → Served cache W
  served : Orchestrator cache → W → Served cache W

module _ (net : Net) (codecs : Codecs) (cache : Cache)
    (wait : ℕ → net.World → Option CtxError × net.World) (numbers : Arithmetic Float64)
    (host : Host) where
  -- WaitForShutdown waits until the channel is closed.
  abbrev pub wait_for_shutdown : Option (Orchestrator cache × net.World) → Served cache (net.World)
  wait_for_shutdown none = panicked
  wait_for_shutdown (some (a, w)) = if a.stopped_closed then served a w else blocked a

  abbrev pub until_stopped :
      Time
      → ℕ
      → Option (Result (Unit {0}) × Orchestrator cache) × net.World
      → Served cache (net.World)
  unfolding stop_agent
  until_stopped later steps (none, w) = panicked
  until_stopped later steps (some (err e, a), w) = failed (wrapped "failed to start agent" e)
  until_stopped later steps (some (ok u, a), w) =
      wait_for_shutdown (stop_agent net codecs cache later steps a w)

  abbrev pub with_agent :
      Time → Time → ℕ → Result (Orchestrator cache) → net.World → Served cache (net.World)
  unfolding start_agent until_stopped
  with_agent now later steps (err e) w = failed (wrapped "failed to create agent" e)
  with_agent now later steps (ok a) w =
      until_stopped later steps (start_agent net codecs cache wait numbers host now a w)

  -- The agent from its creation to the end of the service; `s` is the cache that cache.New made.
  -- The context is done at the time `later`, and the shutdown comes `steps` far.
  unfoldable pub run_agent :
      Time → Time → ℕ → Config → Result (cache.State) → net.World → Served cache (net.World)
  unfolding new_agent with_agent
  run_agent now later steps config s w =
      with_agent now later steps (new_agent cache now (some config) s) w
