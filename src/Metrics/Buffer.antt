-- ===== src/Metrics/Buffer.antt =====
-- internal/metrics/collector.go: the configuration of the collection and the buffer that the
-- collectors fill. The pool of structs is left out: a struct that it gives is reset.
use castle_ops_client.Prelude.{ℕ, Bool, true, false}
use castle_ops_client.Prelude.Int.{ℤ, pos}
use castle_ops_client.Cache.Types.{Time, Float64, Metrics}
use Prim.Native.String.{String}

-- A `time.Duration` is a number of nanoseconds.
pub record MetricsConfig : Type 0 where
  pub collection_interval : ℤ
  pub moving_average_window : ℤ
  pub enable_cpu : Bool
  pub enable_memory : Bool
  pub enable_disk : Bool
  pub enable_network : Bool

abbrev pub default_metrics_config : MetricsConfig
default_metrics_config = record {
  collection_interval = pos 60000000000;
  moving_average_window = pos 5;
  enable_cpu = true;
  enable_memory = true;
  enable_disk = true;
  enable_network = true;
}

-- A struct from the pool: the zero value.
abbrev pub get_pooled : Metrics
get_pooled = record {
  id = 0;
  timestamp = 0;
  client_id = "";
  cpu_usage_percent = 0;
  memory_total = 0;
  memory_used = 0;
  memory_available = 0;
  memory_usage_percent = 0;
  disk_total_bytes = 0;
  disk_used_bytes = 0;
  disk_free_bytes = 0;
  disk_usage_percent = 0;
  network_bytes_received = 0;
  network_bytes_sent = 0;
  synced = false;
}

pub record MetricsBuffer : Type 0 where
  pub metrics : Metrics

abbrev pub new_metrics_buffer : MetricsBuffer
new_metrics_buffer = record { metrics = get_pooled }

abbrev pub update_cpu : Float64 → MetricsBuffer → MetricsBuffer
update_cpu usage b = record { metrics = record (b.metrics) { cpu_usage_percent = usage } }

abbrev pub update_memory : ℕ → ℕ → ℕ → Float64 → MetricsBuffer → MetricsBuffer
update_memory total used available percent b = record {
  metrics = record (b.metrics) {
    memory_total = total;
    memory_used = used;
    memory_available = available;
    memory_usage_percent = percent;
  };
}

abbrev pub update_disk : ℕ → ℕ → ℕ → Float64 → MetricsBuffer → MetricsBuffer
update_disk total used free percent b = record {
  metrics = record (b.metrics) {
    disk_total_bytes = total;
    disk_used_bytes = used;
    disk_free_bytes = free;
    disk_usage_percent = percent;
  };
}

abbrev pub update_network : ℕ → ℕ → MetricsBuffer → MetricsBuffer
update_network bytes_received bytes_sent b = record {
  metrics = record (b.metrics) {
    network_bytes_received = bytes_received;
    network_bytes_sent = bytes_sent;
  };
}

abbrev pub finalize : Time → String → MetricsBuffer → MetricsBuffer
finalize now id b = record { metrics = record (b.metrics) { timestamp = now; client_id = id } }

abbrev pub reset_buffer : MetricsBuffer → MetricsBuffer
reset_buffer b = new_metrics_buffer
