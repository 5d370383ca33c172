-- ===== src/Examples/Collections.antt =====
-- internal/metrics/system.go: a machine that can be followed by hand.
use castle_ops_client.Prelude.{◌+◌, ◌-◌, ◌/◌, ◌≡◌, refl, true, none, List, [], ◌∷◌, plain, ok, err}
use castle_ops_client.Prelude.Int.{pos}
use castle_ops_client.Cache.Types.{Float64, Metrics}
use castle_ops_client.Metrics.Average.{Arithmetic}
use castle_ops_client.Metrics.Buffer.{MetricsConfig}
use castle_ops_client.Metrics.Collectors.{Machine, reported}
use castle_ops_client.Metrics.System.{
  System, memory, disk, fresh_system, new_system, set_metrics_callback, run_collectors, snapshot_of,
  collect_once, collection_loop,
}
use castle_ops_client.Metrics.System.Cycles.{Alike, run_collectors-Alike}
use castle_ops_client.Metrics.System.Snapshots.{
  noting, memory_in, TellsEach, collection_loop-TellsEach,
}
use mathlib.Core.List.Permᴰ

-- Floats are read as natural numbers.
abbrev pub whole_numbers : Arithmetic Float64
whole_numbers = record { nothing = 0; add = λ x y. x + y; sub = λ x y. x - y; over = λ x n. x / n }

abbrev pub four_collectors : MetricsConfig
four_collectors = record {
  collection_interval = pos 60_000_000_000;
  moving_average_window = pos 5;
  enable_cpu = true;
  enable_memory = true;
  enable_disk = true;
  enable_network = true;
}

abbrev healthy : Machine
healthy = record {
  now = 10;
  finished = 11;
  remaining = none;
  cpu_percent = λ interval. reported (ok (40 ∷ []));
  virtual_memory = reported (ok (record { total = 8; used = 2; available = 6; used_percent = 25 }));
  usage =
      λ mount_point. reported (ok (record { total = 9; used = 3; free = 6; used_percent = 33 }));
  io_counters = reported (
      ok (
        record {
          name = "eth0";
          bytes_recv = 5;
          bytes_sent = 7;
          packets_recv = 1;
          packets_sent = 1;
          err_in = 0;
          err_out = 0;
          drop_in = 0;
          drop_out = 0;
        }
        ∷ []));
}

-- Its memory and its disk cannot be read.
abbrev failing : Machine
failing = record healthy {
  finished = 21;
  virtual_memory = reported (err (plain "no memory"));
  usage = λ mount_point. reported (err (plain "no disk"));
}

abbrev first_system : System (List Metrics)
first_system = fresh_system whole_numbers "linux" 0 four_collectors "c"

run_collectors-Alike_example :
    Alike whole_numbers
      (run_collectors whole_numbers (memory ∷ disk ∷ []) failing first_system.parts)
      (run_collectors whole_numbers (disk ∷ memory ∷ []) failing first_system.parts)
run_collectors-Alike_example =
    run_collectors-Alike whole_numbers (Permᴰ.swap refl refl) failing first_system.parts

collection_loop-TellsEach_example :
    TellsEach "c"
      (healthy ∷ failing ∷ [])
      (collection_loop whole_numbers healthy
        (failing ∷ [])
        (set_metrics_callback noting first_system)
        []).1
collection_loop-TellsEach_example =
    collection_loop-TellsEach whole_numbers "linux" 0 four_collectors "c" first_system healthy
      (failing ∷ []) (unfold new_system in refl) refl

-- The second cycle does not tell the memory of the first.
no_stale_memory :
    memory_in
      (snapshot_of whole_numbers failing (collect_once whole_numbers healthy first_system []).0)
    ≡ (0, 0, 0)
unfolding collect_once snapshot_of run_collectors
no_stale_memory = refl
