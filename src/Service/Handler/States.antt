-- ===== src/Service/Handler/States.antt =====
-- What Execute of internal/service/service_windows.go tells the service manager.
use castle_ops_client.Prelude.{ℕ, ◌≡◌, refl, Bool, true, false, Option, none, some, List, [], ◌∷◌}
use castle_ops_client.Service.Windows.{
  ScmState, scm_stopped, scm_start_pending, scm_stop_pending, scm_running,
}
use castle_ops_client.Service.Handler.{
  ServiceStatus, interrogate, stop, shutdown, other_cmd, Event, request, worker_exited, Execution,
  with_accepts, serve, execute,
}

-- The transitions between the states that a service may report.
pub data Next : ScmState → ScmState → Type 0 where
  begins : Next scm_stopped scm_start_pending
  comes_up : Next scm_start_pending scm_running
  goes_down : Next scm_running scm_stop_pending
  ends : Next scm_stop_pending scm_stopped
  dies : Next scm_running scm_stopped
  stays : {a : ScmState} → Next a a

-- Reports that lead from one state to another.
pub data Leads : ScmState → List ServiceStatus → ScmState → Type 0 where
  here : {a : ScmState} → Leads a [] a
  step :
      {a b c : ScmState} {accepts : Bool} {statuses : List ServiceStatus}
      → Next a b
      → Leads b statuses c
      → Leads a (with_accepts accepts b ∷ statuses) c

-- The service manager repeats the last status that was reported, while the loop runs.
abbrev pub AreCurrent : List Event → Type 0
AreCurrent [] = Unit
AreCurrent (request cmd current ∷ events) =
    (current ≡ with_accepts true scm_running) × AreCurrent events
AreCurrent (worker_exited e ∷ events) = AreCurrent events

-- The state in which a service is left.
abbrev pub left_in : Option ℕ → ScmState
left_in none = scm_running
left_in (some code) = scm_stopped

-- The code of the first event that ends the loop.
abbrev pub code_of : List Event → Option ℕ
code_of [] = none
code_of (request interrogate current ∷ events) = code_of events
code_of (request stop current ∷ events) = some 0
code_of (request shutdown current ∷ events) = some 0
code_of (request (other_cmd n) current ∷ events) = code_of events
code_of (worker_exited e ∷ events) = some 1

abbrev has_ended : Option ℕ → Bool
has_ended none = false
has_ended (some code) = true

pub record Reports (from : ScmState) (events : List Event) (x : Execution) : Type 0 where
  pub path : Leads from x.reported (left_in x.exit_code)
  pub code : x.exit_code ≡ code_of events
  pub cancels : x.cancelled ≡ has_ended x.exit_code

serve-Reports :
    (events : List Event) → AreCurrent events → Reports scm_running events (serve events)
unfolding serve
serve-Reports [] h = record { path = here; code = refl; cancels = refl }
serve-Reports (request interrogate current ∷ events) (e, h) =
    let r = serve-Reports events h in
    rw e (record { path = step stays r.path; code = r.code; cancels = r.cancels })
serve-Reports (request stop current ∷ events) h = record {
  path = step goes_down (step ends here);
  code = refl;
  cancels = refl;
}
serve-Reports (request shutdown current ∷ events) h = record {
  path = step goes_down (step ends here);
  code = refl;
  cancels = refl;
}
serve-Reports (request (other_cmd n) current ∷ events) (e, h) =
    let r = serve-Reports events h in record { path = r.path; code = r.code; cancels = r.cancels }
serve-Reports (worker_exited e ∷ events) h = record {
  path = step dies here;
  code = refl;
  cancels = refl;
}

-- If the service manager repeats the last status with each request, then Execute reports statuses
-- that lead from stopped through the allowed transitions: to running while it runs, and to stopped
-- where it returned; its code is 0 where a stop or a shutdown came first, and 1 where the worker
-- exited before; and it cancels the worker's context exactly where it returned.
pub execute-Reports :
    (events : List Event) → AreCurrent events → Reports scm_stopped events (execute events)
unfolding execute
execute-Reports events h =
    let r = serve-Reports events h in
    record { path = step begins (step comes_up r.path); code = r.code; cancels = r.cancels }
