-- ===== src/Cache/Interface.antt =====
-- internal/cache/cache.go, the interface Cache: what the queue and the command handler see of a
-- cache. The in-memory cache implements it, and none of its methods fails.
use castle_ops_client.Prelude.{String, List, Result, ok}
use castle_ops_client.Prelude.Assoc.{Assoc}
use castle_ops_client.Cache.Types.{Time, Command, Metrics}
use castle_ops_client.Cache.Memory.{
  MemoryCache, store_command, get_pending_commands, mark_command_complete, store_metrics,
  get_metrics,
}

pub record Cache : Type 1 where
  pub State : Type 0
  pub store_command : Command → State → Result (Unit {0}) × State
  pub get_pending_commands : State → Result (List Command)
  pub mark_command_complete : Time → String → State → Result (Unit {0}) × State
  pub store_metrics : Time → Metrics → State → Result (Unit {0}) × State
  pub get_metrics : Time → Time → State → Result (List Metrics)

abbrev pub memory_cache : (Assoc Command → List Command) → Cache
memory_cache range = record {
  State = MemoryCache;
  store_command = λ cmd m. (ok tt, store_command cmd m);
  get_pending_commands = λ m. ok (get_pending_commands range m);
  mark_command_complete = λ now k m. (ok tt, mark_command_complete now k m);
  store_metrics = λ now x m. (ok tt, store_metrics now x m);
  get_metrics = λ start end m. ok (get_metrics start end m);
}
