-- ===== src/Service/Windows/Waiting.antt =====
-- The loops of Start and stopService in internal/service/service_windows.go come to an end.
use castle_ops_client.Prelude.{
  ℕ, zero, suc, ◌+◌, ◌*◌, ◌≤◌, ◌<◌, String, ◌≡◌, refl, subst, Bool, true, false, Bool-cases, inl,
  inr, Option, none, some, ltb, if◌then◌else◌, plain, wrapped, Result, ok, err, arith,
}
use castle_ops_client.Cache.Types.{Time}
use castle_ops_client.Service.Windows.{
  ScmState, scm_stopped, scm_running, Scm, is_state, service_timeout, poll_interval, wait_for,
  then_wait, unless_in, start_opened, stop_opened,
}

-- The clock does not go back, and a sleep lasts as long as it says.
pub record IsTicking {S : Type 0} (scm : Scm S) : Type 0 where
  pub query_ticks : (name : String) (s : S) → scm.now s ≤ scm.now (scm.query name s).1
  pub sleep_ticks : (d : ℕ) (s : S) → scm.now s + d ≤ scm.now (scm.sleep d s)

module _ {S : Type 0} (scm : Scm S) where
  -- The last query, where the result is nil.
  pub record Reached (want : ScmState) (name : String) (s' : S) : Type 0 where
    pub asked : S
    pub answer : (scm.query name asked).0 ≡ ok want
    pub last : s' ≡ (scm.query name asked).1

  abbrev pub Answers : ScmState → String → Option (Result (Unit {0})) × S → Type 0
  Answers want name (none, s') = ⊥
  Answers want name (some (err e), s') = Unit
  Answers want name (some (ok u), s') = Reached want name s'

is_state-true : (a b : ScmState) → is_state a b ≡ true → a ≡ b
is_state-true a b h = ground (arith, h)

module _ {S : Type 0} (scm : Scm S) where
  -- One round, once the query has answered and the deadline was looked at.
  round-Answers :
      (want : ScmState) (message name : String) (s : S) (r : Result ScmState) (late : Bool)
      (rest : Option (Result (Unit {0})) × S)
      → (scm.query name s).0 ≡ r
      → (late ≡ false → Answers scm want name rest)
      → Answers scm want name (elim r as (λ _. Option (Result (Unit {0})) × S) [
        | err e ↦ (some (err (wrapped "failed to query service status" e)), (scm.query name s).1)
        | ok state ↦
            if is_state state want
            then (some (ok tt), (scm.query name s).1)
            else if late
            then (some (err (plain message)), (scm.query name s).1)
            else rest
      ])
  round-Answers want message name s (err e) late rest h k = tt
  round-Answers want message name s (ok state) late rest h k =
      elim (Bool-cases (is_state state want)) [
        | inl e ↦ rw e (record {
          asked = s;
          answer = subst (λ x. (scm.query name s).0 ≡ ok x) (is_state-true state want e) h;
          last = refl;
        })
        | inr e ↦ elim (Bool-cases late) [ inl l ↦ rw (e, l) tt | inr l ↦ rw (e, l) (k l) ]
      ]

  wait_for-Answers :
      IsTicking scm
      → (want : ScmState) (message : String) (rounds : ℕ) (timeout : Time) (name : String) (s : S)
      → timeout < scm.now s + rounds * poll_interval
      → Answers scm want name (wait_for scm want message (suc rounds) timeout name s)
  unfolding wait_for
  wait_for-Answers ticks want message zero timeout name s h =
      let s1 = (scm.query name s).1 in
      let q = ticks.query_ticks name s in
      round-Answers want message name s (scm.query name s).0 (ltb timeout (scm.now s1)) _ refl
        (λ l. absurd (ground (arith, h, q, l)))
  wait_for-Answers ticks want message (suc rounds) timeout name s h =
      let s1 = (scm.query name s).1 in
      let s2 = scm.sleep poll_interval s1 in
      let q = ticks.query_ticks name s in
      let p = ticks.sleep_ticks poll_interval s1 in
      round-Answers want message name s (scm.query name s).0 (ltb timeout (scm.now s1)) _ refl
        (λ l. wait_for-Answers ticks want message rounds timeout name s2 (omega (arith, h, q, p)))

  then_wait-Answers :
      IsTicking scm
      → (want : ScmState) (failure message name : String) (p : Result (Unit {0}) × S)
      → Answers scm want name (then_wait scm want failure message name p)
  unfolding then_wait wait_for
  then_wait-Answers ticks want failure message name (err e, s) = tt
  then_wait-Answers ticks want failure message name (ok u, s) =
      wait_for-Answers ticks want message 61 (scm.now s + service_timeout) name s (omega arith)

  unless_in-Answers :
      (want : ScmState) (name : String) (act : S → Option (Result (Unit {0})) × S) (s : S)
      (r : Result ScmState)
      → ((s : S) → Answers scm want name (act s))
      → (scm.query name s).0 ≡ r
      → Answers scm want name (unless_in scm want act (r, (scm.query name s).1))
  unless_in-Answers want name act s (err e) k h = tt
  unless_in-Answers want name act s (ok state) k h = elim (Bool-cases (is_state state want)) [
    | inl e ↦ rw e (record {
      asked = s;
      answer = subst (λ x. (scm.query name s).0 ≡ ok x) (is_state-true state want e) h;
      last = refl;
    })
    | inr e ↦ rw e (k (scm.query name s).1)
  ]

  -- If the clock does not go back and a sleep lasts as long as it says, then Start of a service that
  -- was opened comes to an end within its rounds, and where it returns nil, the last query answered
  -- that the service is running.
  pub start_opened-Answers :
      IsTicking scm
      → (name : String) (s : S) → Answers scm scm_running name (start_opened scm name s)
  unfolding start_opened
  start_opened-Answers ticks name s =
      unless_in-Answers scm_running name _ s (scm.query name s).0
        (λ s.
          then_wait-Answers ticks scm_running "failed to start service" "service start timeout" name
            (scm.start_named name s))
        refl

  -- The same for stopService, and a service that is stopped.
  pub stop_opened-Answers :
      IsTicking scm
      → (name : String) (s : S) → Answers scm scm_stopped name (stop_opened scm name s)
  unfolding stop_opened
  stop_opened-Answers ticks name s =
      unless_in-Answers scm_stopped name _ s (scm.query name s).0
        (λ s.
          then_wait-Answers ticks scm_stopped "failed to stop service" "service stop timeout" name
            (scm.control_stop name s))
        refl
