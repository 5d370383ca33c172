-- ===== src/Cache/Memory/Retention.antt =====
-- The metrics of the in-memory cache: what the retention period keeps, and the numbering.
use castle_ops_client.Prelude.{
  ◌-◌, ◌*◌, ◌≡◌, refl, Bool, List, [], ◌∷◌, ◌++◌, arith, ltb, ◌==◌, if◌then◌else◌, filter,
  filter-append,
}
use Prim.Native.Nat.{max}
use castle_ops_client.Cache.Types.{Time, Metrics}
use castle_ops_client.Cache.Memory.{
  MemoryCache, cleanup, cleanup_old_metrics, get_metrics, store_metrics, is_retained, in_range, day,
  bump, cleanup_interval,
}

-- The first instant that the retention period keeps.
abbrev pub cutoff : Time → MemoryCache → Time
cutoff now m = now - m.retention_days * day

later_start :
    (start end c : Time) (l : List Metrics)
    → filter (in_range start end) (filter (is_retained c) l) ≡ filter (in_range (max start c) end) l
later_start start end c [] = refl
later_start start end c (x ∷ l) = ground (arith, later_start start end c l)

-- After a cleanup a query sees what it saw before, from the cutoff on.
pub get_metrics-cleanup :
    (start end now : Time) (m : MemoryCache)
    → get_metrics start end (cleanup now m) ≡ get_metrics (max start (cutoff now m)) end m
unfolding get_metrics cleanup cleanup_old_metrics
get_metrics-cleanup start end now m = later_start start end (cutoff now m) m.metrics

-- The metric as it is stored.
abbrev pub numbered : Metrics → MemoryCache → Metrics
numbered x m = if x.id == 0 then record x { id = bump m.next_id } else x

abbrev pub due : Time → MemoryCache → Bool
due now m = ltb cleanup_interval (now - m.last_cleanup)

-- Where a query that starts at `start` begins to see metrics after a call at `now`.
abbrev pub seen_from : Time → Time → MemoryCache → Time
seen_from start now m = if due now m then max start (cutoff now m) else start

-- A stored metric is seen behind the older ones, if it lies in the range; the hourly cleanup, when
-- it is due, hides from old and new metrics alike what lies before the cutoff.
pub get_metrics-store_metrics :
    (start end now : Time) (x : Metrics) (m : MemoryCache)
    → get_metrics start end (store_metrics now x m)
      ≡ get_metrics (seen_from start now m) end m
        ++ filter (in_range (seen_from start now m) end) (numbered x m ∷ [])
unfolding get_metrics store_metrics
get_metrics-store_metrics start end now x m = ground (
  arith,
  filter-append (in_range start end) m.metrics (numbered x m ∷ []),
  filter-append (in_range (max start (cutoff now m)) end) m.metrics (numbered x m ∷ []),
  later_start start end (cutoff now m) (m.metrics ++ numbered x m ∷ []),
)
