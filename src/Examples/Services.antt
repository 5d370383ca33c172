-- ===== src/Examples/Services.antt =====
-- internal/service and cmd/castleops-client: a service manager whose service needs a second to start,
-- a Mac with one file, and the agent in service mode.
use castle_ops_client.Prelude.{
  ℕ, ◌+◌, ◌≡◌, refl, String, true, false, Option, none, some, List, [], ◌∷◌, leb, if◌then◌else◌, ok,
  arith,
}
use castle_ops_client.Service.Windows.{
  Scm, scm_running, scm_start_pending, scm_stopped, wait_for, start_opened,
}
use castle_ops_client.Service.Windows.Waiting.{IsTicking, Answers, start_opened-Answers}
use castle_ops_client.Service.Handler.{
  Event, request, interrogate, stop, other_cmd, worker_exited, with_accepts, execute, serve,
}
use castle_ops_client.Service.Handler.States.{Reports, execute-Reports}
use castle_ops_client.Service.Darwin.{Mac, Stat, present, missing, DarwinService}

-- The state is the clock; the service runs one second after the clock's zero.
abbrev slow_scm : Scm ℕ
slow_scm = record {
  connect = λ s. (ok tt, s);
  open_service = λ name s. (ok tt, s);
  create_service = λ name path config args s. (ok tt, s);
  set_recovery_actions = λ name s. (ok tt, s);
  query = λ name s. (ok (if leb 1_000_000_000 s then scm_running else scm_start_pending), s);
  start_named = λ name s. (ok tt, s);
  control_stop = λ name s. (ok tt, s);
  delete = λ name s. (ok tt, s);
  install_event_log = λ name s. s;
  remove_event_log = λ name s. s;
  is_abs = λ path. true;
  abs = λ path. ok path;
  now = λ s. s;
  sleep = λ d s. s + d;
}

slow_scm-IsTicking : IsTicking slow_scm
slow_scm-IsTicking = record {
  query_ticks = λ name s. omega arith;
  sleep_ticks = λ d s. omega arith;
}

start_opened-Answers_example :
    Answers slow_scm scm_running "com.castleops.client"
      (start_opened slow_scm "com.castleops.client" 0)
start_opened-Answers_example =
    start_opened-Answers slow_scm slow_scm-IsTicking "com.castleops.client" 0

-- Two sleeps of half a second.
starts_in_a_second : start_opened slow_scm "com.castleops.client" 0 ≡ (some (ok tt), 1_000_000_000)
unfolding start_opened wait_for
starts_in_a_second = refl

abbrev requests : List Event
requests =
    request interrogate (with_accepts true scm_running)
    ∷ request (other_cmd 3) (with_accepts true scm_running)
    ∷ request stop (with_accepts true scm_running)
    ∷ worker_exited none
    ∷ []

execute-Reports_example : Reports scm_stopped requests (execute requests)
execute-Reports_example = execute-Reports requests (refl, (refl, (refl, tt)))

-- A worker that exits by itself ends the service with the code 1.
exits_with_one : (execute (worker_exited none ∷ [])).exit_code ≡ some 1
unfolding execute serve
exits_with_one = refl

-- The state is what the one file holds.
abbrev small_mac : Mac (Option String)
small_mac = record {
  user_home = ok "/Users/u";
  join = λ dir name. name;
  dir = λ path. path;
  stat = λ path s. elim s as (λ _. Stat) [ none ↦ missing | some t ↦ present ];
  mkdir_all = λ path s. (ok tt, s);
  write_file = λ path text s. (ok tt, some text);
  remove = λ path s. (ok tt, none);
  launchctl = λ args s. (record { output = ""; failure = none }, s);
}

abbrev client_service : DarwinService
client_service = record {
  config = record {
    name = "com.castleops.client";
    display_name = "CastleOps Client";
    description = "";
    executable = "/usr/local/bin/castleops-client";
    arguments = "-service" ∷ [];
    working_directory = "/usr/local/bin";
    dependencies = [];
    user_service = false;
  };
  plist_path = "/Library/LaunchDaemons/com.castleops.client.plist";
  plist_dir = "/Library/LaunchDaemons";
  label = "com.castleops.client";
  stdout_path = "/Library/Logs/CastleOps/stdout.log";
  stderr_path = "/Library/Logs/CastleOps/stderr.log";
}
