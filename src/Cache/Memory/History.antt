-- ===== src/Cache/Memory/History.antt =====
-- The invariant of the in-memory cache over any sequence of calls.
use castle_ops_client.Prelude.{
  ℕ, zero, suc, ◌+◌, ◌-◌, ◌*◌, ◌≤◌, ◌<◌, ◌^◌, String, ◌≡◌, Bool, List, [], ◌∷◌, ◌++◌, arith, length,
  if◌then◌else◌, All, filter,
}
use castle_ops_client.Prelude.Int.{ℤ, pos, negsuc, positive, pos_part}
use castle_ops_client.Cache.Types.{Time, Command, Metrics}
use castle_ops_client.Cache.Memory.{
  MemoryCache, MemoryConfig, new_memory_cache, cleanup, cleanup_old_metrics, store_command,
  mark_command_complete, store_metrics, bump, is_retained, day,
}
use castle_ops_client.Cache.Memory.Commands.{IsKeyed, store_command-IsKeyed, mark-IsKeyed}

-- The calls that change the cache.
pub data Call : Type 0 where
  stores_command : Command → Call
  completes : String → Call
  stores_metrics : Metrics → Call
  cleans : Call

pub step : MemoryCache → Time × Call → MemoryCache
step m (now, stores_command cmd) = store_command cmd m
step m (now, completes k) = mark_command_complete now k m
step m (now, stores_metrics x) = store_metrics now x m
step m (now, cleans) = cleanup now m

pub run : MemoryCache → List (Time × Call) → MemoryCache
run m [] = m
run m (c ∷ cs) = run (step m c) cs

-- The numbers of the metrics rise along the list, from above `lo` to `hi` at most.
abbrev pub Rises : ℕ → ℕ → List Metrics → Type 0
Rises lo hi [] = lo ≤ hi
Rises lo hi (x ∷ xs) = (lo < x.id) × Rises x.id hi xs

pub record IsValid (m : MemoryCache) : Type 0 where
  pub keyed : IsKeyed m.commands
  pub rising : Rises 0 m.next_id m.metrics
  pub retained : 0 < m.retention_days
  -- The counter is not negative as an int64, so neither are the numbers up to it.
  pub signed : m.next_id < 2 ^ 63

Rises-append :
    (lo hi : ℕ) (l : List Metrics) (x : Metrics)
    → Rises lo hi l
    → hi < x.id
    → Rises lo x.id (l ++ x ∷ [])
Rises-append lo hi [] x r h = (omega arith, omega arith)
Rises-append lo hi (y ∷ l) x r h = (r.0, Rises-append y.id hi l x r.1 h)

Rises-mono : (lo hi hi' : ℕ) (l : List Metrics) → hi ≤ hi' → Rises lo hi l → Rises lo hi' l
Rises-mono lo hi hi' [] h r = omega arith
Rises-mono lo hi hi' (x ∷ l) h r = (r.0, Rises-mono x.id hi hi' l h r.1)

Rises-lower : (lo lo' hi : ℕ) (l : List Metrics) → lo' ≤ lo → Rises lo hi l → Rises lo' hi l
Rises-lower lo lo' hi [] h r = omega arith
Rises-lower lo lo' hi (x ∷ l) h r = (omega arith, r.1)

Rises-filter :
    (p : Metrics → Bool) (lo hi : ℕ) (l : List Metrics) → Rises lo hi l → Rises lo hi (filter p l)
Rises-filter p lo hi [] r = r
Rises-filter p lo hi (x ∷ l) r = ground (
  arith,
  Rises-filter p x.id hi l r.1,
  λ (t : lo ≤ x.id). Rises-lower x.id lo hi (filter p l) t (Rises-filter p x.id hi l r.1),
)

-- A caller leaves the number of a metric to the cache.
abbrev pub Unnumbered : Time × Call → Type 0
Unnumbered (now, stores_metrics x) = x.id ≡ 0
Unnumbered (now, stores_command c) = c.id ≡ 0
Unnumbered _ = Unit

module _ (m : MemoryCache) (v : IsValid m) (room : m.next_id + 1 < 2 ^ 63) where
  bump_lem : bump m.next_id ≡ m.next_id + 1
  bump_lem = omega arith

  -- A method numbers at most one record, keeps the map keyed and the numbers rising.
  abbrev Advances : MemoryCache → Type 0
  Advances n = IsValid n × (n.next_id ≤ m.next_id + 1)

  store_command-Advances : (c : Command) → Advances (store_command c m)
  unfolding store_command
  store_command-Advances c = (
    record {
      keyed = store_command-IsKeyed c m v.keyed;
      rising = ground (
        arith,
        bump_lem,
        v.rising,
        λ (t : m.next_id ≤ m.next_id + 1).
            Rises-mono 0 m.next_id (m.next_id + 1) m.metrics t v.rising,
      );
      retained = ground (arith, v.retained);
      signed = ground (arith, bump_lem, v.signed, room);
    },
    ground (arith, bump_lem),
  )

  mark-Advances : (now : Time) (k : String) → Advances (mark_command_complete now k m)
  unfolding mark_command_complete
  mark-Advances now k = (
    record {
      keyed = mark-IsKeyed now k m v.keyed;
      rising = ground (arith, v.rising);
      retained = ground (arith, v.retained);
      signed = ground (arith, bump_lem, v.signed, room);
    },
    ground arith,
  )

  cleanup-Advances : (now : Time) → Advances (cleanup now m)
  unfolding cleanup cleanup_old_metrics
  cleanup-Advances now = (
    record {
      keyed = v.keyed;
      rising = Rises-filter _ 0 m.next_id m.metrics v.rising;
      retained = v.retained;
      signed = v.signed;
    },
    omega arith,
  )

  appended :
      (now : Time) (x : Metrics)
      → Rises 0 (bump m.next_id) (m.metrics ++ record x { id = bump m.next_id } ∷ [])
  appended now x =
      Rises-append 0 m.next_id m.metrics (record x { id = bump m.next_id }) v.rising
        (omega (arith, bump_lem))

  store_metrics-Advances : (now : Time) (x : Metrics) → x.id ≡ 0 → Advances (store_metrics now x m)
  unfolding store_metrics
  store_metrics-Advances now x fresh = (
    record {
      keyed = ground (arith, v.keyed);
      rising = ground (
        arith,
        bump_lem,
        appended now x,
        Rises-filter (is_retained (now - m.retention_days * day)) 0 (bump m.next_id)
            (m.metrics ++ record x { id = bump m.next_id } ∷ []) (appended now x),
      );
      retained = ground (arith, v.retained);
      signed = ground (arith, bump_lem, v.signed, room);
    },
    ground (arith, bump_lem),
  )

  step-Advances : (c : Time × Call) → Unnumbered c → Advances (step m c)
  unfolding step
  step-Advances (now, stores_command c) u = store_command-Advances c
  step-Advances (now, completes k) u = mark-Advances now k
  step-Advances (now, stores_metrics x) u = store_metrics-Advances now x u
  step-Advances (now, cleans) u = cleanup-Advances now

run-IsValid :
    (m : MemoryCache) (cs : List (Time × Call))
    → IsValid m
    → All Unnumbered cs
    → m.next_id + length cs < 2 ^ 63
    → IsValid (run m cs)
unfolding run
run-IsValid m [] v u room = v
run-IsValid m (c ∷ cs) v u room =
    let (v', bound) = step-Advances m v (omega arith) c u.0 in
    run-IsValid (step m c) cs v' u.1 (omega arith)

retention_pos : (n : ℤ) → 0 < (if positive n then pos_part n else 7)
retention_pos (pos zero) = omega arith
retention_pos (pos (suc n)) = omega arith
retention_pos (negsuc n) = omega arith

new_memory_cache-IsValid :
    (now : Time) (config : MemoryConfig) → IsValid (new_memory_cache now config)
unfolding new_memory_cache
new_memory_cache-IsValid now config = record {
  keyed = tt;
  rising = omega arith;
  retained = retention_pos config.retention_days;
  signed = omega arith;
}

-- From a new cache, whatever the calls (fewer than 2^63, the numbers left to the cache): each
-- command stands under its own id and once, the metrics' numbers are distinct and rise in the order
-- of their storing, none above the counter, the counter has not turned negative as an int64, and the
-- retention period is positive.
pub run-new_memory_cache-IsValid :
    (now : Time) (config : MemoryConfig) (cs : List (Time × Call))
    → All Unnumbered cs
    → length cs < 2 ^ 63
    → IsValid (run (new_memory_cache now config) cs)
run-new_memory_cache-IsValid now config cs u room =
    run-IsValid (new_memory_cache now config) cs (new_memory_cache-IsValid now config) u
      (unfold new_memory_cache in omega arith)
