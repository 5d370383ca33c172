-- ===== src/Metrics/System/Lifecycle.antt =====
-- Start and Stop of internal/metrics/system.go, and the end of the loop. A goroutine that closes a
-- closed channel panics, and so does Stop.
use castle_ops_client.Prelude.{
  ℕ, zero, suc, ◌+◌, ◌≡◌, ◌⊎◌, inl, inr, refl, true, false, not, Option, none, some, if◌then◌else◌,
  plain, Result, ok, err, arith, String,
}
use castle_ops_client.Prelude.Int.{positive}
use castle_ops_client.Cache.Types.{Time, Float64}
use castle_ops_client.Metrics.Average.{Arithmetic}
use castle_ops_client.Metrics.Buffer.{MetricsConfig}
use castle_ops_client.Metrics.System.{System, new_system, fresh_system}

pub data Outcome (W : Type 0) : Type 0 where
  returned : Result (Unit {0}) → System W → Outcome W
  panicked : Outcome W

-- A system that was never started, one whose loop runs, one whose loop ended with its context, and
-- one that was stopped.
pub data Phase : Type 0 where
  fresh active cut_off finished : Phase

module _ {W : Type 0} where
  -- The loop is counted by the wait group.
  unfoldable pub start_system : System W → Result (Unit {0}) × System W
  start_system s =
      if s.running
      then (err (plain "system already running"), s)
      else (ok tt, record s { running = true; loops = s.loops + 1 })

  abbrev pub closing : System W → Option (System W)
  closing s = if s.stopped_closed then none else some (record s { stopped_closed = true })

  -- The loops that are left end, each with the deferred close of stoppedCh.
  unfoldable pub end_loops : ℕ → System W → Option (System W)
  end_loops zero s = some (record s { loops = 0 })
  end_loops (suc n) s = elim (closing s) as (λ _. Option (System W)) [
    | none ↦ none
    | some s' ↦ end_loops n s'
  ]

  abbrev pub waited : Option (System W) → Outcome W
  waited none = panicked
  waited (some s) = returned (ok tt) (record s { running = false })

  unfoldable pub stop_system : System W → Outcome W
  unfolding end_loops
  stop_system s =
      if not s.running
      then returned (ok tt) s
      else if s.stop_closed
      then panicked
      else waited (end_loops s.loops (record s { stop_closed = true }))

  abbrev pub In : Phase → System W → Type 0
  In fresh s =
      (s.running ≡ false) × (s.loops ≡ 0) × (s.stop_closed ≡ false) × (s.stopped_closed ≡ false)
  In active s =
      (s.running ≡ true) × (s.loops ≡ 1) × (s.stop_closed ≡ false) × (s.stopped_closed ≡ false)
  In cut_off s =
      (s.running ≡ true) × (s.loops ≡ 0) × (s.stop_closed ≡ false) × (s.stopped_closed ≡ true)
  In finished s =
      (s.running ≡ false) × (s.loops ≡ 0) × (s.stop_closed ≡ true) × (s.stopped_closed ≡ true)

  -- The context of a running loop is done.
  unfoldable pub cut : System W → Option (System W)
  unfolding end_loops
  cut s = end_loops s.loops s

  abbrev pub Ends : Phase → Outcome W → Type 0
  Ends p (returned r s) = (r ≡ ok tt) × In p s
  Ends p panicked = ⊥

  pub start_system-In :
      (s : System W) → In fresh s → ((start_system s).0 ≡ ok tt) × In active (start_system s).1
  unfolding start_system
  start_system-In s (r, l, c, d) = rw (r, l, c, d) (refl, (refl, refl, refl, refl))

  pub stop_system-In : (s : System W) → In active s ⊎ In cut_off s → Ends finished (stop_system s)
  unfolding stop_system end_loops
  stop_system-In s (inl (r, l, c, d)) = rw (r, l, c, d) (refl, (refl, refl, refl, refl))
  stop_system-In s (inr (r, l, c, d)) = rw (r, l, c, d) (refl, (refl, refl, refl, refl))

  -- A system that was stopped can be started again, but not stopped: its Stop panics, and so does
  -- its loop when the context ends.
  pub restarted_panics :
      (s : System W)
      → In finished s
      → ((start_system s).0 ≡ ok tt)
        × (stop_system (start_system s).1 ≡ panicked)
        × (cut (start_system s).1 ≡ none)
  unfolding start_system stop_system cut end_loops
  restarted_panics s (r, l, c, d) = rw (r, l, c, d) (refl, refl, refl)

pub new_system-fresh :
    {W : Type 0} (a : Arithmetic Float64) (os : String) (now : Time) (config : MetricsConfig)
    (id : String)
    → positive config.collection_interval ≡ true
    → config.enable_cpu ≡ true
    → new_system a os now (some config) id ≡ ok (fresh_system a {W = W} os now config id)
unfolding new_system
new_system-fresh a os now config id h k = ground arith
