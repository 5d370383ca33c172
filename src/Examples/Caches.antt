-- ===== src/Examples/Caches.antt =====
-- internal/cache
use castle_ops_client.Prelude.{ℕ, ◌≡◌, refl, List, [], ◌∷◌, ◌++◌, ◌*◌, Perm, arith, filter}
use castle_ops_client.Prelude.Assoc.{values}
use castle_ops_client.Prelude.Int.{pos}
use castle_ops_client.Cache.Sort.{IsSorted}
use castle_ops_client.Cache.Memory.{
  MemoryCache, new_memory_cache, get_pending_commands, mark_command_complete, store_metrics,
  get_metrics, is_pending, in_range, hour, day,
}
use castle_ops_client.Cache.Memory.Commands.{
  Visits, is_other_pending, get_pending_commands_lem, pending-mark_command_complete,
}
use castle_ops_client.Cache.Memory.Retention.{seen_from, numbered, get_metrics-store_metrics}
use castle_ops_client.Cache.Memory.History.{
  IsValid, Call, stores_command, completes, stores_metrics, cleans, run,
  run-new_memory_cache-IsValid,
}
use castle_ops_client.Examples.Samples.{sample_command, sample_metrics}
use mathlib.Core.List.Perm

abbrev busy : MemoryCache
busy = record {
  commands =
      ("a", sample_command "a" 30 "pending")
      ∷ ("b", sample_command "b" 10 "pending")
      ∷ ("c", sample_command "c" 20 "complete")
      ∷ [];
  metrics = sample_metrics 5 ∷ sample_metrics day ∷ [];
  retention_days = 1;
  last_cleanup = 0;
  next_id = 7;
}

Visits-values : Visits values
Visits-values m = Perm.refl (values m)

pending_order :
    get_pending_commands values busy
    ≡ sample_command "b" 10 "pending" ∷ sample_command "a" 30 "pending" ∷ []
unfolding get_pending_commands
pending_order = refl

get_pending_commands_lem_example :
    IsSorted (λ c. c.created_at) (get_pending_commands values busy)
    × Perm (get_pending_commands values busy) (filter is_pending (values busy.commands))
get_pending_commands_lem_example = get_pending_commands_lem values busy Visits-values

pending-mark_command_complete_example :
    Perm
      (get_pending_commands values (mark_command_complete 40 "b" busy))
      (filter (is_other_pending "b") (values busy.commands))
pending-mark_command_complete_example =
    pending-mark_command_complete values 40 "b" busy Visits-values
      (refl, (refl, (refl, tt)), (refl, (refl, tt), (refl, tt, tt)))

get_metrics-store_metrics_example :
    get_metrics 0 day (store_metrics (2 * hour) (sample_metrics hour) busy)
    ≡ get_metrics (seen_from 0 (2 * hour) busy) day busy
      ++ filter
          (in_range (seen_from 0 (2 * hour) busy) day)
          (numbered (sample_metrics hour) busy ∷ [])
get_metrics-store_metrics_example =
    get_metrics-store_metrics 0 day (2 * hour) (sample_metrics hour) busy

abbrev calls : List (ℕ × Call)
calls =
    (1, stores_command (sample_command "a" 1 "pending"))
    ∷ (2, stores_metrics (sample_metrics 2))
    ∷ (3, completes "a")
    ∷ (4, stores_metrics (sample_metrics 4))
    ∷ (5, cleans)
    ∷ []

run-new_memory_cache-IsValid_example :
    IsValid (run (new_memory_cache 0 (record { retention_days = pos 7 })) calls)
run-new_memory_cache-IsValid_example =
    run-new_memory_cache-IsValid 0 (record { retention_days = pos 7 }) calls
      (refl, (refl, (tt, (refl, (tt, tt))))) (omega arith)
