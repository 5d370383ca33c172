-- ===== src/Service/Windows.antt =====
-- internal/service/service_windows.go: the service of Windows. The service manager, the event log,
-- the paths and the clock are a parameter; a handle stands for the service's name. Disconnecting,
-- closing handles and logging are left out.
pub mod Waiting
use castle_ops_client.Prelude.{
  ℕ, zero, suc, ◌+◌, String, Bool, true, false, Option, none, some, List, ltb, if◌then◌else◌, Error,
  plain, wrapped, Result, ok, err,
}
use castle_ops_client.Cache.Types.{Time}
use castle_ops_client.Service.{
  ServiceConfig, Status, status_unknown, status_not_installed, status_stopped, status_starting,
  status_running, status_stopping,
}
use Prim.Native.String.{◌++◌ as str_append}

-- svc.State
pub data ScmState : Type 0 where
  scm_stopped scm_start_pending scm_stop_pending scm_running scm_other : ScmState

-- mgr.Config, with what Install sets.
pub record ScmConfig : Type 0 where
  pub display_name : String
  pub description : String
  pub start_automatic : Bool
  pub service_start_name : String
  pub dependencies : List String

pub record Scm (S : Type 0) : Type 0 where
  pub connect : S → Result (Unit {0}) × S
  pub open_service : String → S → Result (Unit {0}) × S
  pub create_service : String → String → ScmConfig → List String → S → Result (Unit {0}) × S
  pub set_recovery_actions : String → S → Result (Unit {0}) × S
  pub query : String → S → Result ScmState × S
  pub start_named : String → S → Result (Unit {0}) × S
  pub control_stop : String → S → Result (Unit {0}) × S
  pub delete : String → S → Result (Unit {0}) × S
  pub install_event_log : String → S → S
  pub remove_event_log : String → S → S
  pub is_abs : String → Bool
  pub abs : String → Result String
  pub now : S → Time
  pub sleep : ℕ → S → S

abbrev pub is_state : ScmState → ScmState → Bool
is_state scm_stopped scm_stopped = true
is_state scm_start_pending scm_start_pending = true
is_state scm_stop_pending scm_stop_pending = true
is_state scm_running scm_running = true
is_state scm_other scm_other = true
is_state a b = false

-- In nanoseconds.
abbrev pub service_timeout : ℕ
service_timeout = 30_000_000_000

abbrev pub poll_interval : ℕ
poll_interval = 500_000_000

-- One round more than the sleeps that fit into the timeout, and the one that passes it.
abbrev pub poll_rounds : ℕ
poll_rounds = 62

abbrev pub mapped_status : ScmState → Status
mapped_status scm_stopped = status_stopped
mapped_status scm_start_pending = status_starting
mapped_status scm_stop_pending = status_stopping
mapped_status scm_running = status_running
mapped_status scm_other = status_unknown

abbrev pub scm_config : ServiceConfig → ScmConfig
scm_config c = record {
  display_name = c.display_name;
  description = c.description;
  start_automatic = true;
  service_start_name = "NT AUTHORITY\\LocalService";
  dependencies = c.dependencies;
}

module _ {S : Type 0} (scm : Scm S) where
  -- The loops of Start and stopService; `none` where the rounds are used up.
  unfoldable pub wait_for :
      ScmState → String → ℕ → Time → String → S → Option (Result (Unit {0})) × S
  wait_for want message zero timeout name s = (none, s)
  wait_for want message (suc rounds) timeout name s =
      let (answer, s1) = scm.query name s in
      let rest = wait_for want message rounds timeout name (scm.sleep poll_interval s1) in
      elim answer as (λ _. Option (Result (Unit {0})) × S) [
        | err e ↦ (some (err (wrapped "failed to query service status" e)), s1)
        | ok state ↦
            if is_state state want
            then (some (ok tt), s1)
            else if ltb timeout (scm.now s1)
            then (some (err (plain message)), s1)
            else rest
      ]

  abbrev opened : {A : Type 0} → (Error → S → A × S) → (S → A × S) → Result (Unit {0}) × S → A × S
  opened missing act (err e, s) = missing e s
  opened missing act (ok u, s) = act s

  abbrev connected :
      {A : Type 0}
      → String
      → (Error → S → A × S)
      → (Error → S → A × S)
      → (S → A × S)
      → Result (Unit {0}) × S
      → A × S
  connected name unconnected missing act (err e, s) =
      unconnected (wrapped "failed to connect to service manager" e) s
  connected name unconnected missing act (ok u, s) = opened missing act (scm.open_service name s)

  -- What every operation begins with.
  abbrev pub when_opened :
      {A : Type 0} → String → (Error → S → A × S) → (Error → S → A × S) → (S → A × S) → S → A × S
  when_opened name unconnected missing act s =
      connected name unconnected missing act (scm.connect s)

  abbrev failed : Error → S → Option (Result (Unit {0})) × S
  failed e s = (some (err e), s)

  abbrev not_found : String → Error → S → Option (Result (Unit {0})) × S
  not_found name e s =
      (some (err (plain (str_append "service " (str_append name " not found")))), s)

  abbrev pub then_wait :
      ScmState → String → String → String → Result (Unit {0}) × S → Option (Result (Unit {0})) × S
  unfolding wait_for
  then_wait want failure message name (err e, s) = (some (err (wrapped failure e)), s)
  then_wait want failure message name (ok u, s) =
      wait_for want message poll_rounds (scm.now s + service_timeout) name s

  -- An operation that is done where the service is in the state already.
  abbrev pub unless_in :
      ScmState
      → (S → Option (Result (Unit {0})) × S)
      → Result ScmState × S
      → Option (Result (Unit {0})) × S
  unless_in want act (err e, s) = (some (err (wrapped "failed to query service status" e)), s)
  unless_in want act (ok state, s) = if is_state state want then (some (ok tt), s) else act s

  unfoldable pub start_opened : String → S → Option (Result (Unit {0})) × S
  unfolding wait_for then_wait
  start_opened name s =
      unless_in scm_running
        (λ s.
          then_wait scm_running "failed to start service" "service start timeout" name
            (scm.start_named name s))
        (scm.query name s)

  unfoldable pub stop_opened : String → S → Option (Result (Unit {0})) × S
  unfolding wait_for then_wait
  stop_opened name s =
      unless_in scm_stopped
        (λ s.
          then_wait scm_stopped "failed to stop service" "service stop timeout" name
            (scm.control_stop name s))
        (scm.query name s)

  unfoldable pub start_windows : ServiceConfig → S → Option (Result (Unit {0})) × S
  unfolding start_opened
  start_windows c s = when_opened c.name failed (not_found c.name) (start_opened c.name) s

  unfoldable pub stop_windows : ServiceConfig → S → Option (Result (Unit {0})) × S
  unfolding stop_opened
  stop_windows c s = when_opened c.name failed (not_found c.name) (stop_opened c.name) s

  abbrev pub then_start :
      ServiceConfig → Option (Result (Unit {0})) × S → Option (Result (Unit {0})) × S
  unfolding start_windows
  then_start c (none, s) = (none, s)
  then_start c (some (err e), s) = (some (err e), s)
  then_start c (some (ok u), s) = start_windows c (scm.sleep 1_000_000_000 s)

  unfoldable pub restart_windows : ServiceConfig → S → Option (Result (Unit {0})) × S
  unfolding stop_windows then_start
  restart_windows c s = then_start c (stop_windows c s)

  abbrev queried : Result ScmState × S → (Status × Result (Unit {0})) × S
  queried (err e, s) = ((status_unknown, err (wrapped "failed to query service status" e)), s)
  queried (ok state, s) = ((mapped_status state, ok tt), s)

  unfoldable pub windows_status : ServiceConfig → S → (Status × Result (Unit {0})) × S
  windows_status c s =
      when_opened c.name (λ e s. ((status_unknown, err e), s))
        (λ e s. ((status_not_installed, ok tt), s)) (λ s. queried (scm.query c.name s)) s

  abbrev created : ServiceConfig → Result (Unit {0}) × S → Result (Unit {0}) × S
  created c (err e, s) = (err (wrapped "failed to create service" e), s)
  created c (ok u, s) = (ok tt, scm.install_event_log c.name (scm.set_recovery_actions c.name s).1)

  abbrev create_at : ServiceConfig → Result String → S → Result (Unit {0}) × S
  create_at c (err e) s = (err (wrapped "failed to get absolute path" e), s)
  create_at c (ok path) s = created c (scm.create_service c.name path (scm_config c) c.arguments s)

  -- The errors of the recovery actions and of the event log are logged.
  unfoldable pub install_windows : ServiceConfig → S → Result (Unit {0}) × S
  install_windows c s =
      when_opened c.name (λ e s. (err e, s))
        (λ e s.
          create_at c (if scm.is_abs c.executable then ok c.executable else scm.abs c.executable) s)
        (λ s. (err (plain (str_append "service " (str_append c.name " already exists"))), s)) s

  abbrev deleted : String → Result (Unit {0}) × S → Option (Result (Unit {0})) × S
  deleted name (err e, s) = (some (err (wrapped "failed to delete service" e)), s)
  deleted name (ok u, s) = (some (ok tt), scm.remove_event_log name s)

  -- The error of the stop is dropped.
  abbrev delete_stopped : String → Option (Result (Unit {0})) × S → Option (Result (Unit {0})) × S
  delete_stopped name (none, s) = (none, s)
  delete_stopped name (some r, s) = deleted name (scm.delete name s)

  unfoldable pub uninstall_windows : ServiceConfig → S → Option (Result (Unit {0})) × S
  unfolding stop_opened
  uninstall_windows c s =
      when_opened c.name failed (not_found c.name)
        (λ s. delete_stopped c.name (stop_opened c.name s)) s
