-- ===== src/Service/Handler.antt =====
-- internal/service/service_windows.go: serviceHandler.Execute, over the requests of the service
-- manager and the end of the worker. Logging and the event log are left out.
pub mod States
use castle_ops_client.Prelude.{ℕ, Bool, true, false, Option, none, some, List, [], ◌∷◌, Error}
use castle_ops_client.Service.Windows.{
  ScmState, scm_stopped, scm_start_pending, scm_stop_pending, scm_running,
}

-- svc.Status: `accepts` is whether Stop and Shutdown are accepted.
pub record ServiceStatus : Type 0 where
  pub state : ScmState
  pub accepts : Bool

-- svc.Cmd
pub data Cmd : Type 0 where
  interrogate stop shutdown : Cmd
  other_cmd : ℕ → Cmd

-- What the select of the loop finds: a request with the current status, or the worker's end.
pub data Event : Type 0 where
  request : Cmd → ServiceStatus → Event
  worker_exited : Option Error → Event

-- The statuses that were reported, and the code with which Execute returned; `none` while it runs.
-- `cancelled` is whether the worker's context was cancelled.
pub record Execution : Type 0 where
  pub reported : List ServiceStatus
  pub cancelled : Bool
  pub exit_code : Option ℕ

abbrev pub with_accepts : Bool → ScmState → ServiceStatus
with_accepts accepts state = record { state = state; accepts = accepts }

abbrev report : ServiceStatus → Execution → Execution
report status x = record x { reported = status ∷ x.reported }

-- The worker is waited for, but for 30 seconds at most.
abbrev stopping : Execution
stopping = record {
  reported = with_accepts false scm_stop_pending ∷ with_accepts false scm_stopped ∷ [];
  cancelled = true;
  exit_code = some 0;
}

-- The loop.
unfoldable pub serve : List Event → Execution
serve [] = record { reported = []; cancelled = false; exit_code = none }
serve (request interrogate current ∷ events) = report current (serve events)
serve (request stop current ∷ events) = stopping
serve (request shutdown current ∷ events) = stopping
serve (request (other_cmd n) current ∷ events) = serve events
serve (worker_exited e ∷ events) = record {
  reported = with_accepts false scm_stopped ∷ [];
  cancelled = true;
  exit_code = some 1;
}

unfoldable pub execute : List Event → Execution
unfolding serve
execute events =
    report (with_accepts false scm_start_pending)
      (report (with_accepts true scm_running) (serve events))
