-- ===== src/Agent/Heartbeat/Lifecycle.antt =====
-- Start and Stop of internal/agent/heartbeat.go against the states that a service goes through.
use castle_ops_client.Prelude.{◌≡◌, refl, Bool, true, false, Option, none, some, List, [], ◌∷◌}
use castle_ops_client.Prelude.Int.{positive}
use castle_ops_client.Api.Client.{Client}
use castle_ops_client.Config.{Config}
use castle_ops_client.Cache.Types.{Time}
use castle_ops_client.Agent.Heartbeat.{
  HeartbeatService, Outcome, returned, panicked, start, stop, new_heartbeat_service,
}

pub data Call : Type 0 where
  calls_start calls_stop : Call

abbrev after : Outcome → Option HeartbeatService
after (returned r s) = some s
after panicked = none

abbrev pub call : Call → HeartbeatService → Option HeartbeatService
call calls_start s = after (start s)
call calls_stop s = after (stop s)

-- `none` after a panic.
abbrev pub run_calls : List Call → HeartbeatService → Option HeartbeatService
run_calls [] s = some s
run_calls (c ∷ cs) s = elim (call c s) as (λ _. Option HeartbeatService) [
  | none ↦ none
  | some s' ↦ run_calls cs s'
]

-- The states of a service: it can be stopped once, and started again after that. It can be started
-- only if its interval is positive, which `valid` says.
pub data Phase : Type 0 where
  fresh active finished restarted : Phase

abbrev pub if_valid : Bool → Phase → Option Phase
if_valid true p = some p
if_valid false p = none

abbrev pub next : Bool → Call → Phase → Option Phase
next valid calls_start fresh = if_valid valid active
next valid calls_start active = some active
next valid calls_start finished = if_valid valid restarted
next valid calls_start restarted = some restarted
next valid calls_stop fresh = some fresh
next valid calls_stop active = some finished
next valid calls_stop finished = some finished
next valid calls_stop restarted = none

abbrev pub run_phases : Bool → List Call → Phase → Option Phase
run_phases valid [] p = some p
run_phases valid (c ∷ cs) p = elim (next valid c p) as (λ _. Option Phase) [
  | none ↦ none
  | some p' ↦ run_phases valid cs p'
]

abbrev is_running : Phase → Bool
is_running fresh = false
is_running active = true
is_running finished = false
is_running restarted = true

abbrev is_closed : Phase → Bool
is_closed fresh = false
is_closed active = false
is_closed finished = true
is_closed restarted = true

abbrev pub In : Bool → Phase → HeartbeatService → Type 0
In valid p s =
    (s.running ≡ is_running p)
    × (s.stop_closed ≡ is_closed p)
    × (s.stopped_closed ≡ is_closed p)
    × (positive s.interval ≡ valid)

abbrev pub Matches : Bool → Option Phase → Option HeartbeatService → Type 0
Matches valid none none = Unit
Matches valid none (some s) = ⊥
Matches valid (some p) none = ⊥
Matches valid (some p) (some s) = In valid p s

call-Matches :
    (valid : Bool) (c : Call) (p : Phase) (s : HeartbeatService)
    → In valid p s
    → Matches valid (next valid c p) (call c s)
unfolding start stop
call-Matches true calls_start fresh s (r, c, d, i) = rw (r, c, d, i) (refl, refl, refl, i)
call-Matches false calls_start fresh s (r, c, d, i) = rw (r, i) tt
call-Matches valid calls_start active s (r, c, d, i) = rw (r, c, d) (refl, refl, refl, i)
call-Matches true calls_start finished s (r, c, d, i) = rw (r, c, d, i) (refl, refl, refl, i)
call-Matches false calls_start finished s (r, c, d, i) = rw (r, i) tt
call-Matches valid calls_start restarted s (r, c, d, i) = rw (r, c, d) (refl, refl, refl, i)
call-Matches valid calls_stop fresh s (r, c, d, i) = rw (r, c, d) (refl, refl, refl, i)
call-Matches valid calls_stop active s (r, c, d, i) = rw (r, c, d) (refl, refl, refl, i)
call-Matches valid calls_stop finished s (r, c, d, i) = rw (r, c, d) (refl, refl, refl, i)
call-Matches valid calls_stop restarted s (r, c, d, i) = rw (r, c) tt

Matches-then :
    (valid : Bool) (cs : List Call) (x : Option Phase) (y : Option HeartbeatService)
    → ((p : Phase) (s : HeartbeatService)
        → In valid p s
        → Matches valid (run_phases valid cs p) (run_calls cs s))
    → Matches valid x y
    → Matches valid
        (elim x as (λ _. Option Phase) [ none ↦ none | some p ↦ run_phases valid cs p ])
        (elim y as (λ _. Option HeartbeatService) [ none ↦ none | some s ↦ run_calls cs s ])
Matches-then valid cs none none h k = tt
Matches-then valid cs none (some s) h k = absurd k
Matches-then valid cs (some p) none h k = absurd k
Matches-then valid cs (some p) (some s) h k = h p s k

run_calls_from :
    (valid : Bool) (cs : List Call) (p : Phase) (s : HeartbeatService)
    → In valid p s
    → Matches valid (run_phases valid cs p) (run_calls cs s)
run_calls_from valid [] p s h = h
run_calls_from valid (c ∷ cs) p s h =
    Matches-then valid cs (next valid c p) (call c s) (run_calls_from valid cs)
      (call-Matches valid c p s h)

-- However Start and Stop follow each other from a new service on, it goes through the states fresh,
-- active, finished and restarted; it panics exactly where a restarted service is stopped, or, if the
-- configured interval is not positive, where the service would be started.
pub run_calls-Matches :
    (cs : List Call) (c : Client) (config : Config) (start_time : Time)
    → Matches
        (positive config.heartbeat.interval)
        (run_phases (positive config.heartbeat.interval) cs fresh)
        (run_calls cs (new_heartbeat_service c config start_time))
unfolding new_heartbeat_service
run_calls-Matches cs c config start_time =
    run_calls_from (positive config.heartbeat.interval) cs fresh
      (new_heartbeat_service c config start_time) (refl, refl, refl, refl)
