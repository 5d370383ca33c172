-- ===== src/Metrics/System/Snapshots.antt =====
-- What the loop of internal/metrics/system.go hands to the callback, cycle after cycle.
use castle_ops_client.Prelude.{
  ℕ, ◌≡◌, refl, sym, ap, subst, ◌∙◌, String, Option, none, some, List, [], ◌∷◌, ◌++◌, Bool, true,
  false, if◌then◌else◌, ok, err, arith,
}
use mathlib.Core.List.{append_assoc}
use castle_ops_client.Cache.Types.{Time, Float64, Metrics}
use castle_ops_client.Metrics.Average.{Arithmetic}
use castle_ops_client.Metrics.Buffer.{MetricsConfig, new_metrics_buffer}
use castle_ops_client.Metrics.Collectors.{
  Machine, Reading, reported, context_done, VirtualMemoryStat,
}
use castle_ops_client.Metrics.System.{
  Collector, cpu, memory, disk, network, System, Parts, collect, run_collectors, snapshot_of,
  collect_once, collection_loop, new_system, set_metrics_callback, Callback, call_back,
}

-- A callback that notes what it is given.
abbrev pub noting : Callback (List Metrics)
noting x seen = (ok tt, seen ++ x ∷ [])

-- The total, used and available memory that a cycle should tell: zeros where the reading failed.
abbrev pub told : Reading VirtualMemoryStat → ℕ × ℕ × ℕ
told (reported (ok v)) = (v.total, v.used, v.available)
told (reported (err e)) = (0, 0, 0)
told (context_done x) = (0, 0, 0)

abbrev pub memory_in : Metrics → ℕ × ℕ × ℕ
memory_in x = (x.memory_total, x.memory_used, x.memory_available)

abbrev pub Tells : String → Machine → Metrics → Type 0
Tells id m x =
    (x.timestamp ≡ m.finished) × (x.client_id ≡ id) × (memory_in x ≡ told m.virtual_memory)

abbrev pub TellsEach : String → List Machine → List Metrics → Type 0
TellsEach id [] [] = Unit
TellsEach id [] (x ∷ xs) = ⊥
TellsEach id (m ∷ ms) [] = ⊥
TellsEach id (m ∷ ms) (x ∷ xs) = Tells id m x × TellsEach id ms xs

-- What a reading leaves of the memory that the buffer had.
abbrev told_or : ℕ × ℕ × ℕ → Reading VirtualMemoryStat → ℕ × ℕ × ℕ
told_or old (reported (ok v)) = (v.total, v.used, v.available)
told_or old (reported (err e)) = old
told_or old (context_done x) = old

abbrev has_memory : List Collector → Bool
has_memory [] = false
has_memory (cpu ∷ cs) = has_memory cs
has_memory (memory ∷ cs) = true
has_memory (disk ∷ cs) = has_memory cs
has_memory (network ∷ cs) = has_memory cs

abbrev is_there : {A : Type 0} → Option A → Bool
is_there none = false
is_there (some c) = true

module _ (a : Arithmetic Float64) where
  abbrev Untouched : Collector → Machine → Parts → Type 0
  Untouched c m p =
      (memory_in (collect a c m p).1.buffer.metrics ≡ memory_in p.buffer.metrics)
      × (is_there (collect a c m p).1.memory_collector ≡ is_there p.memory_collector)

  cpu-Untouched : (m : Machine) (p : Parts) → Untouched cpu m p
  cpu-Untouched m p = ground arith

  disk-Untouched : (m : Machine) (p : Parts) → Untouched disk m p
  disk-Untouched m p = ground arith

  network-Untouched : (m : Machine) (p : Parts) → Untouched network m p
  network-Untouched m p = ground arith

  memory-told :
      (m : Machine) (p : Parts)
      → is_there p.memory_collector ≡ true
      → (memory_in (collect a memory m p).1.buffer.metrics
          ≡ told_or (memory_in p.buffer.metrics) m.virtual_memory)
        × (is_there (collect a memory m p).1.memory_collector ≡ true)
  memory-told m p h = ground arith

  told_twice :
      (old : ℕ × ℕ × ℕ) (r : Reading VirtualMemoryStat) → told_or (told_or old r) r ≡ told_or old r
  told_twice old r = ground arith

  abbrev Answered : List Collector → Machine → ℕ × ℕ × ℕ → Parts → Type 0
  Answered cs m old p =
      (memory_in p.buffer.metrics ≡ (if has_memory cs then told_or old m.virtual_memory else old))
      × (is_there p.memory_collector ≡ true)

  told_once :
      (b : Bool) (old : ℕ × ℕ × ℕ) (r : Reading VirtualMemoryStat)
      → (if b then told_or (told_or old r) r else told_or old r) ≡ told_or old r
  told_once true old r = told_twice old r
  told_once false old r = refl

  run_collectors-memory :
      (cs : List Collector) (m : Machine) (p : Parts)
      → is_there p.memory_collector ≡ true
      → Answered cs m (memory_in p.buffer.metrics) (run_collectors a cs m p).1
  unfolding run_collectors
  run_collectors-memory [] m p h = (refl, h)
  run_collectors-memory (cpu ∷ cs) m p h =
      let (u, v) = cpu-Untouched m p in
      subst (λ old. Answered cs m old (run_collectors a (cpu ∷ cs) m p).1) u
        (run_collectors-memory cs m (collect a cpu m p).1 (v ∙ h))
  run_collectors-memory (memory ∷ cs) m p h =
      let (u, v) = memory-told m p h in
      let (x, y) = run_collectors-memory cs m (collect a memory m p).1 v in
      (
        x
            ∙ (ap (λ old. if has_memory cs then told_or old m.virtual_memory else old) u
                ∙ told_once (has_memory cs) (memory_in p.buffer.metrics) m.virtual_memory),
        y,
      )
  run_collectors-memory (disk ∷ cs) m p h =
      let (u, v) = disk-Untouched m p in
      subst (λ old. Answered cs m old (run_collectors a (disk ∷ cs) m p).1) u
        (run_collectors-memory cs m (collect a disk m p).1 (v ∙ h))
  run_collectors-memory (network ∷ cs) m p h =
      let (u, v) = network-Untouched m p in
      subst (λ old. Answered cs m old (run_collectors a (network ∷ cs) m p).1) u
        (run_collectors-memory cs m (collect a network m p).1 (v ∙ h))

  -- A system between two cycles: its buffer is empty, and it reads the memory.
  abbrev Between : String → System (List Metrics) → Type 0
  Between id s =
      (s.parts.buffer ≡ new_metrics_buffer)
      × (is_there s.parts.memory_collector ≡ true)
      × (has_memory s.collectors ≡ true)
      × (s.client_id ≡ id)
      × (s.on_metrics_collected ≡ some noting)

  told_or-zeros : (r : Reading VirtualMemoryStat) → told_or (0, 0, 0) r ≡ told r
  told_or-zeros r = ground arith

  snapshot_of-Tells :
      (id : String) (m : Machine) (s : System (List Metrics))
      → Between id s
      → Tells id m (snapshot_of a m s)
  unfolding snapshot_of
  snapshot_of-Tells id m s (b, c, h, i, f) =
      let (x, y) = run_collectors-memory s.collectors m s.parts c in
      (
        refl,
        i,
        x
            ∙ (ap
                  (λ t.
                    if t
                    then told_or (memory_in s.parts.buffer.metrics) m.virtual_memory
                    else memory_in s.parts.buffer.metrics)
                  h
                ∙ (ap (λ buffer. told_or (memory_in buffer.metrics) m.virtual_memory) b
                    ∙ told_or-zeros m.virtual_memory)),
      )

  collect_once-Between :
      (id : String) (m : Machine) (s : System (List Metrics)) (seen : List Metrics)
      → Between id s
      → Between id (collect_once a m s seen).0
        × ((collect_once a m s seen).1 ≡ seen ++ snapshot_of a m s ∷ [])
  unfolding collect_once
  collect_once-Between id m s seen (b, c, h, i, f) =
      let (x, y) = run_collectors-memory s.collectors m s.parts c in
      ((refl, y, h, i, f), ap (λ g. call_back g (snapshot_of a m s) seen) f)

  -- What the loop adds to the metrics that were seen before.
  abbrev Adds : String → List Machine → List Metrics → List Metrics → Type 0
  Adds id ms seen seen' = (xs : List Metrics) × (seen' ≡ seen ++ xs) × TellsEach id ms xs

  Adds-cons :
      (id : String) (m : Machine) (ms : List Machine) (x : Metrics) (seen seen' : List Metrics)
      → Tells id m x
      → Adds id ms (seen ++ x ∷ []) seen'
      → Adds id (m ∷ ms) seen seen'
  Adds-cons id m ms x seen seen' t (xs, e, k) = (x ∷ xs, e ∙ append_assoc seen (x ∷ []) xs, (t, k))

  collection_loop-Adds :
      (id : String) (m : Machine) (ms : List Machine) (s : System (List Metrics))
      (seen : List Metrics)
      → Between id s
      → Adds id (m ∷ ms) seen (collection_loop a m ms s seen).1
  unfolding collection_loop
  collection_loop-Adds id m [] s seen h = (
    snapshot_of a m s ∷ [],
    (collect_once-Between id m s seen h).1,
    (snapshot_of-Tells id m s h, tt),
  )
  collection_loop-Adds id m (m' ∷ ms) s seen h =
      let (k, e) = collect_once-Between id m s seen h in
      let (s', seen') = collect_once a m s seen in
      Adds-cons id m (m' ∷ ms) (snapshot_of a m s) seen _ (snapshot_of-Tells id m s h) (
        subst (λ w. Adds id (m' ∷ ms) w (collection_loop a m' ms s' seen').1) e
          (collection_loop-Adds id m' ms s' seen' k))

  new_system-Between :
      (os : String) (now : Time) (config : MetricsConfig) (id : String) (s : System (List Metrics))
      → new_system a os now (some config) id ≡ ok s
      → config.enable_memory ≡ true
      → Between id (set_metrics_callback noting s)
  unfolding new_system set_metrics_callback
  new_system-Between os now config id s e h = ground arith

  -- Every cycle of a new system that collects the memory calls the callback once, with the time of
  -- the cycle and the system's client, and with the memory that was read in the cycle: never with
  -- that of an earlier one, and with zeros where the reading failed.
  pub collection_loop-TellsEach :
      (os : String) (now : Time) (config : MetricsConfig) (id : String) (s : System (List Metrics))
      (m : Machine) (ms : List Machine)
      → new_system a os now (some config) id ≡ ok s
      → config.enable_memory ≡ true
      → TellsEach id (m ∷ ms) (collection_loop a m ms (set_metrics_callback noting s) []).1
  collection_loop-TellsEach os now config id s m ms e h =
      let (xs, k, t) =
        collection_loop-Adds id m ms (set_metrics_callback noting s) []
          (new_system-Between os now config id s e h) in
      subst (TellsEach id (m ∷ ms)) (sym k) t
