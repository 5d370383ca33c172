-- ===== src/Cache/Memory.antt =====
-- internal/cache/memory.go: the in-memory cache. The lock is held through each method, so a method
-- is one step; it reads the clock once, as `now`. The map holds the commands themselves: the
-- agent's callers keep no pointer to what they store.
pub mod Commands
pub mod Pending
pub mod Retention
pub mod History
use castle_ops_client.Prelude.{
  ℕ, zero, ◌+◌, ◌-◌, ◌*◌, ◌%◌, ◌^◌, String, Bool, not, ◌&&◌, Option, none, some, List, [], ◌∷◌,
  ◌++◌, ltb, leb, ◌==◌, str_eq, if◌then◌else◌, filter, arith,
}
use castle_ops_client.Prelude.Assoc.{Assoc, lookup, insert}
use castle_ops_client.Prelude.Int.{ℤ, pos_part, positive}
use castle_ops_client.Cache.Types.{Time, Command, Metrics, status_pending, status_complete}
use castle_ops_client.Cache.Sort.{sort_pending}

abbrev pub hour : ℕ
hour = 3_600_000_000_000

abbrev pub day : ℕ
day = 86_400_000_000_000

abbrev pub cleanup_interval : ℕ
cleanup_interval = hour

pub record MemoryConfig : Type 0 where
  pub retention_days : ℤ

-- `next_id` is the bit pattern of an int64.
pub record MemoryCache : Type 0 where
  pub commands : Assoc Command
  pub metrics : List Metrics
  pub retention_days : ℕ
  pub last_cleanup : Time
  pub next_id : ℕ

unfoldable pub new_memory_cache : Time → MemoryConfig → MemoryCache
new_memory_cache now config = record {
  commands = [];
  metrics = [];
  retention_days = if positive config.retention_days then pos_part config.retention_days else 7;
  last_cleanup = now;
  next_id = 0;
}

-- m.nextID++ on the bits of an int64, which turns negative at 2^63
abbrev pub bump : ℕ → ℕ
bump n = (n + 1) % 2 ^ 64

unfoldable pub store_command : Command → MemoryCache → MemoryCache
store_command cmd m =
    if cmd.id == 0
    then record m {
      commands = insert cmd.command_id (record cmd { id = bump m.next_id }) m.commands;
      next_id = bump m.next_id;
    }
    else record m { commands = insert cmd.command_id cmd m.commands }

abbrev pub is_pending : Command → Bool
is_pending cmd = str_eq cmd.status status_pending

-- `range` is the order in which Go visits the map's entries, which is not specified.
unfoldable pub get_pending_commands :
    (range : Assoc Command → List Command) → MemoryCache → List Command
unfolding sort_pending
get_pending_commands range m =
    sort_pending (λ c. c.created_at) (filter is_pending (range m.commands))

abbrev pub completed : Time → Command → Command
completed now cmd = record cmd { status = status_complete; completed_at = now }

unfoldable pub mark_command_complete : Time → String → MemoryCache → MemoryCache
mark_command_complete now command_id m = elim (lookup command_id m.commands) [
  | none ↦ m
  | some cmd ↦ record m { commands = insert command_id (completed now cmd) m.commands }
]

-- !metric.Timestamp.Before(cutoff)
abbrev pub is_retained : Time → Metrics → Bool
is_retained cutoff metric = not (ltb metric.timestamp cutoff)

-- The zone is UTC, so AddDate(0, 0, -n) goes back n times 24 hours. A cutoff before Go's zero time
-- keeps everything, as the cutoff 0 does.
unfoldable pub cleanup_old_metrics : Time → MemoryCache → MemoryCache
cleanup_old_metrics now m = record m {
  metrics = filter (is_retained (now - m.retention_days * day)) m.metrics;
}

unfoldable pub cleanup : Time → MemoryCache → MemoryCache
unfolding cleanup_old_metrics
cleanup now m = record (cleanup_old_metrics now m) { last_cleanup = now }

abbrev append_metrics : Metrics → MemoryCache → MemoryCache
append_metrics metric m =
    if metric.id == 0
    then record m {
      metrics = m.metrics ++ record metric { id = bump m.next_id } ∷ [];
      next_id = bump m.next_id;
    }
    else record m { metrics = m.metrics ++ metric ∷ [] }

abbrev cleanup_if_due : Time → MemoryCache → MemoryCache
cleanup_if_due now m =
    if ltb cleanup_interval (now - m.last_cleanup)
    then record (cleanup_old_metrics now m) { last_cleanup = now }
    else m

unfoldable pub store_metrics : Time → Metrics → MemoryCache → MemoryCache
unfolding cleanup_old_metrics
store_metrics now metric m = cleanup_if_due now (append_metrics metric m)

abbrev pub in_range : Time → Time → Metrics → Bool
in_range start end metric = leb start metric.timestamp && leb metric.timestamp end

unfoldable pub get_metrics : Time → Time → MemoryCache → List Metrics
get_metrics start end m = filter (in_range start end) m.metrics
