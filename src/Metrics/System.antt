-- ===== src/Metrics/System.antt =====
-- internal/metrics/system.go: the system that runs the collectors. `W` is the state that the
-- callback works on. Logging is left out; so are the mutexes, since each collector locks itself
-- and the buffer, and the values that error texts print.
pub mod Cycles
pub mod Snapshots
pub mod Lifecycle
use castle_ops_client.Prelude.{
  ℕ, String, Bool, true, false, not, Option, none, some, List, [], ◌∷◌, ◌++◌, length, if◌then◌else◌,
  Error, plain, wrapped, Result, ok, err,
}
use castle_ops_client.Prelude.Int.{ℤ, positive}
use castle_ops_client.Cache.Types.{Time, Float64, Metrics}
use castle_ops_client.Metrics.Average.{Arithmetic}
use castle_ops_client.Metrics.Buffer.{
  MetricsConfig, default_metrics_config, MetricsBuffer, new_metrics_buffer, finalize, reset_buffer,
}
use castle_ops_client.Metrics.Collectors.{
  Machine, CpuCollector, MemoryCollector, DiskCollector, NetworkCollector, new_cpu_collector,
  new_memory_collector, new_disk_collector, new_network_collector, sampling_interval, collect_cpu,
  collect_memory, collect_disk, collect_network, reset_cpu, reset_memory, reset_disk, reset_network,
}

-- The collectors by their names.
pub data Collector : Type 0 where
  cpu memory disk network : Collector

abbrev pub Callback : Type 0 → Type 0
Callback W = Metrics → W → Result (Unit {0}) × W

-- The parts that a cycle of collection changes. All collectors have the buffer of the system.
pub record Parts : Type 0 where
  pub buffer : MetricsBuffer
  pub cpu_collector : Option CpuCollector
  pub memory_collector : Option MemoryCollector
  pub disk_collector : Option DiskCollector
  pub network_collector : Option NetworkCollector

pub record System (W : Type 0) : Type 0 where
  pub config : MetricsConfig
  pub collectors : List Collector
  pub client_id : String
  pub parts : Parts
  pub on_metrics_collected : Option (Callback W)
  pub running : Bool
  pub stop_closed : Bool
  pub stopped_closed : Bool
  pub loops : ℕ

pub record SystemStats : Type 0 where
  pub running : Bool
  pub collector_count : ℕ
  pub collection_interval : ℤ
  pub moving_avg_window : ℤ

abbrev config_or_default : Option MetricsConfig → MetricsConfig
config_or_default none = default_metrics_config
config_or_default (some config) = config

abbrev enabled : {A : Type 0} → Bool → A → Option A
enabled true c = some c
enabled false c = none

abbrev listed : Bool → Collector → List Collector
listed true c = c ∷ []
listed false c = []

abbrev pub enabled_collectors : MetricsConfig → List Collector
enabled_collectors config =
    listed config.enable_cpu cpu
    ++ listed config.enable_memory memory
    ++ listed config.enable_disk disk
    ++ listed config.enable_network network

abbrev pub at_least_one : {A : Type 0} → List Collector → A → Result A
at_least_one [] s = err (wrapped "failed to initialize collectors" (plain "no collectors enabled"))
at_least_one (c ∷ cs) s = ok s

abbrev mapped : {A : Type 0} → (A → A) → Option A → Option A
mapped f none = none
mapped f (some c) = some (f c)

-- What a collector hands back goes to its place and into the buffer.
abbrev put_cpu :
    Parts → Result (Unit {0}) × CpuCollector × MetricsBuffer → Result (Unit {0}) × Parts
put_cpu p (r, c, b) = (r, record p { cpu_collector = some c; buffer = b })

abbrev put_memory :
    Parts → Result (Unit {0}) × MemoryCollector × MetricsBuffer → Result (Unit {0}) × Parts
put_memory p (r, c, b) = (r, record p { memory_collector = some c; buffer = b })

abbrev put_disk :
    Parts → Result (Unit {0}) × DiskCollector × MetricsBuffer → Result (Unit {0}) × Parts
put_disk p (r, c, b) = (r, record p { disk_collector = some c; buffer = b })

abbrev put_network :
    Parts → Result (Unit {0}) × NetworkCollector × MetricsBuffer → Result (Unit {0}) × Parts
put_network p (r, c, b) = (r, record p { network_collector = some c; buffer = b })

abbrev pub add_error : Result (Unit {0}) → List Error → List Error
add_error (ok u) errors = errors
add_error (err e) errors = e ∷ errors

module _ {W : Type 0} where
  abbrev pub call_back : Option (Callback W) → Metrics → W → W
  call_back none metrics w = w
  call_back (some f) metrics w = (f metrics w).1

  abbrev restore_buffer : MetricsBuffer → System W → Parts → System W
  restore_buffer b s p = record s { parts = record p { buffer = b } }

  unfoldable pub set_metrics_callback : Callback W → System W → System W
  set_metrics_callback f s = record s { on_metrics_collected = some f }

  abbrev set_config : MetricsConfig → System W → Result (Unit {0}) × System W
  set_config config s =
      if not (positive config.collection_interval)
      then (err (plain "invalid collection interval"), s)
      else (ok tt, record s { config = config })

  -- `none` for a nil configuration.
  unfoldable pub update_config : Option MetricsConfig → System W → Result (Unit {0}) × System W
  update_config none s = (err (plain "config cannot be nil"), s)
  update_config (some config) s = set_config config s

  abbrev pub system_stats : System W → SystemStats
  system_stats s = record {
    running = s.running;
    collector_count = length s.collectors;
    collection_interval = s.config.collection_interval;
    moving_avg_window = s.config.moving_average_window;
  }

module _ (a : Arithmetic Float64) where
  abbrev pub init_parts : String → Time → MetricsConfig → Parts
  init_parts os now config = record {
    buffer = new_metrics_buffer;
    cpu_collector =
        enabled config.enable_cpu (new_cpu_collector a now config.moving_average_window);
    memory_collector =
        enabled config.enable_memory (new_memory_collector a config.moving_average_window);
    disk_collector =
        enabled config.enable_disk (new_disk_collector a os config.moving_average_window "");
    network_collector = enabled config.enable_network new_network_collector;
  }

  abbrev pub fresh_system : {W : Type 0} → String → Time → MetricsConfig → String → System W
  fresh_system os now config client_id = record {
    config = config;
    collectors = enabled_collectors config;
    client_id = client_id;
    parts = init_parts os now config;
    on_metrics_collected = none;
    running = false;
    stop_closed = false;
    stopped_closed = false;
    loops = 0;
  }

  abbrev pub system_of : {W : Type 0} → String → Time → MetricsConfig → String → Result (System W)
  system_of os now config client_id =
      if not (positive config.collection_interval)
      then err (plain "invalid collection interval")
      else at_least_one (enabled_collectors config) (fresh_system os now config client_id)

  -- `none` for a nil configuration.
  unfoldable pub new_system :
      {W : Type 0} → String → Time → Option MetricsConfig → String → Result (System W)
  new_system os now config client_id = system_of os now (config_or_default config) client_id

  abbrev collect_cpu_in : Machine → Parts → Option CpuCollector → Result (Unit {0}) × Parts
  collect_cpu_in m p none = (ok tt, p)
  collect_cpu_in m p (some c) =
      put_cpu p (collect_cpu a m.finished (m.cpu_percent (sampling_interval m c)) c p.buffer)

  abbrev collect_memory_in : Machine → Parts → Option MemoryCollector → Result (Unit {0}) × Parts
  collect_memory_in m p none = (ok tt, p)
  collect_memory_in m p (some c) = put_memory p (collect_memory a m.virtual_memory c p.buffer)

  abbrev collect_disk_in : Machine → Parts → Option DiskCollector → Result (Unit {0}) × Parts
  collect_disk_in m p none = (ok tt, p)
  collect_disk_in m p (some c) = put_disk p (collect_disk a (m.usage c.mount_point) c p.buffer)

  abbrev collect_network_in : Machine → Parts → Option NetworkCollector → Result (Unit {0}) × Parts
  collect_network_in m p none = (ok tt, p)
  collect_network_in m p (some c) = put_network p (collect_network m.io_counters c p.buffer)

  abbrev pub collect : Collector → Machine → Parts → Result (Unit {0}) × Parts
  collect cpu m p = collect_cpu_in m p p.cpu_collector
  collect memory m p = collect_memory_in m p p.memory_collector
  collect disk m p = collect_disk_in m p p.disk_collector
  collect network m p = collect_network_in m p p.network_collector

  -- The collectors in the order in which they get the buffer's lock, and their errors.
  unfoldable pub run_collectors : List Collector → Machine → Parts → List Error × Parts
  run_collectors [] m p = ([], p)
  run_collectors (c ∷ cs) m p =
      let (r, p1) = collect c m p in
      let (errors, p2) = run_collectors cs m p1 in (add_error r errors, p2)

  module _ {W : Type 0} where
    -- The struct of a cycle.
    unfoldable pub snapshot_of : Machine → System W → Metrics
    unfolding run_collectors
    snapshot_of m s =
        (finalize m.finished s.client_id (run_collectors s.collectors m s.parts).1.buffer).metrics

    -- An error of a collector or of the callback is logged.
    unfoldable pub collect_once : Machine → System W → W → System W × W
    unfolding run_collectors snapshot_of
    collect_once m s w =
        let (errors, p) = run_collectors s.collectors m s.parts in
        let w' = call_back s.on_metrics_collected (snapshot_of m s) w in
        (record s { parts = record p { buffer = reset_buffer p.buffer } }, w')

    -- The loop of a goroutine that Start began, over its ticks until it is told to stop.
    unfoldable pub collection_loop : Machine → List Machine → System W → W → System W × W
    unfolding collect_once
    collection_loop m [] s w = collect_once m s w
    collection_loop m (m' ∷ ms) s w =
        let (s', w') = collect_once m s w in collection_loop m' ms s' w'

    abbrev pub collected : Machine → System W → List Error × Parts → Result Metrics × System W
    collected m s ([], p) =
        (ok (finalize m.finished s.client_id p.buffer).metrics, restore_buffer s.parts.buffer s p)
    collected m s (e ∷ es, p) = (err (plain "collection failed"), restore_buffer s.parts.buffer s p)

    -- Into a buffer of its own; the error tells the number of errors and their texts.
    unfoldable pub collect_now : Machine → System W → Result Metrics × System W
    unfolding run_collectors
    collect_now m s =
        collected m s
          (run_collectors s.collectors m (record (s.parts) { buffer = new_metrics_buffer }))

    unfoldable pub reset_collectors : Time → System W → System W
    reset_collectors now s = record s {
      parts = record (s.parts) {
        cpu_collector = mapped (reset_cpu a now) s.parts.cpu_collector;
        memory_collector = mapped (reset_memory a) s.parts.memory_collector;
        disk_collector = mapped (reset_disk a) s.parts.disk_collector;
        network_collector = mapped reset_network s.parts.network_collector;
      };
    }
