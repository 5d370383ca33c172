-- ===== src/Cache/Types.antt =====
-- internal/cache/cache.go: the cached records and the status constants.
--
-- A `time.Time` is the number of nanoseconds since Go's zero time, so `time.Time{}` is 0. A
-- `float64` that is only carried along is its 64-bit pattern, so 0.0 is 0.
use castle_ops_client.Prelude.{ℕ, String, Bool}

abbrev pub Time : Type 0
Time = ℕ

abbrev pub Float64 : Type 0
Float64 = ℕ

abbrev pub status_pending : String
status_pending = "pending"

abbrev pub status_complete : String
status_complete = "complete"

abbrev pub status_completed : String
status_completed = "completed"

abbrev pub status_failed : String
status_failed = "failed"

-- `id` is the bit pattern of an int64.
pub record Command : Type 0 where
  pub id : ℕ
  pub command_id : String
  pub type : String
  pub payload : String
  pub status : String
  pub result : String
  pub created_at : Time
  pub completed_at : Time

pub record Metrics : Type 0 where
  pub id : ℕ
  pub timestamp : Time
  pub client_id : String
  pub cpu_usage_percent : Float64
  pub memory_total : ℕ
  pub memory_used : ℕ
  pub memory_available : ℕ
  pub memory_usage_percent : Float64
  pub disk_total_bytes : ℕ
  pub disk_used_bytes : ℕ
  pub disk_free_bytes : ℕ
  pub disk_usage_percent : Float64
  pub network_bytes_received : ℕ
  pub network_bytes_sent : ℕ
  pub synced : Bool
