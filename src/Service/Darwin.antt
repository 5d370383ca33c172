-- ===== src/Service/Darwin.antt =====
-- internal/service/service_darwin.go: the service of macOS over launchd. The files, launchctl and the
-- home directory are a parameter; logging is left out, and so are the outputs of launchctl that error
-- texts print.
pub mod Installing
pub mod Plist
use castle_ops_client.Prelude.{
  String, Bool, true, false, not, ◌||◌, ◌&&◌, Option, none, some, List, [], ◌∷◌, str_eq,
  if◌then◌else◌, Error, plain, wrapped, Result, ok, err,
}
use castle_ops_client.Api.Http.{was_canceled, ctx_err}
use castle_ops_client.Packages.Texts.{contains, split_lines, first_field, is_empty}
use castle_ops_client.Service.{
  ServiceConfig, Status, status_unknown, status_not_installed, status_stopped, status_running,
}
use castle_ops_client.Service.Darwin.Plist.{PlistData, plist}
use Prim.Native.String.{◌++◌ as str_append}

-- os.Stat: the file is there, it is not, or it cannot be told.
pub data Stat : Type 0 where
  present missing : Stat
  stat_failed : Error → Stat

-- The outcome of launchctl: its output and its error.
pub record Launched : Type 0 where
  pub output : String
  pub failure : Option Error

pub record Mac (S : Type 0) : Type 0 where
  pub user_home : Result String
  pub join : String → String → String
  pub dir : String → String
  pub stat : String → S → Stat
  pub mkdir_all : String → S → Result (Unit {0}) × S
  pub write_file : String → String → S → Result (Unit {0}) × S
  pub remove : String → S → Result (Unit {0}) × S
  pub launchctl : List String → S → Launched × S

pub record DarwinService : Type 0 where
  pub config : ServiceConfig
  pub plist_path : String
  pub plist_dir : String
  pub label : String
  pub stdout_path : String
  pub stderr_path : String

abbrev is_present : Stat → Bool
is_present present = true
is_present missing = false
is_present (stat_failed e) = false

abbrev is_missing : Stat → Bool
is_missing present = false
is_missing missing = true
is_missing (stat_failed e) = false

-- The data of the template.
abbrev pub plist_data : DarwinService → PlistData
plist_data svc = record {
  label = svc.label;
  executable = svc.config.executable;
  arguments = svc.config.arguments;
  working_directory = svc.config.working_directory;
  stdout_path = svc.stdout_path;
  stderr_path = svc.stderr_path;
}

-- What the line of the label in launchctl's list says.
abbrev line_status : String → Status
line_status pid = if str_eq pid "-" || str_eq pid "" then status_stopped else status_running

-- The loop over the lines.
abbrev pub listed_status : String → List String → Status
listed_status label [] = status_stopped
listed_status label (line ∷ lines) =
    if contains label line && not (is_empty (first_field line))
    then line_status (first_field line)
    else listed_status label lines

-- Run: what the select finds first, the end of the worker or a signal.
pub data Awaited : Type 0 where
  worker_done : Result (Unit {0}) → Awaited
  signalled : Awaited

module _ {S : Type 0} (mac : Mac S) where
  abbrev log_directory_of : Bool → Result String → String
  log_directory_of true (ok home) = mac.join home "Library/Logs/CastleOps"
  log_directory_of true (err e) = "/Library/Logs/CastleOps"
  log_directory_of false home = "/Library/Logs/CastleOps"

  abbrev pub get_log_directory : Bool → String
  get_log_directory user_service = log_directory_of user_service mac.user_home

  abbrev in_directory : ServiceConfig → String → DarwinService
  in_directory c plist_dir = record {
    config = c;
    plist_path = mac.join plist_dir (str_append c.name ".plist");
    plist_dir = plist_dir;
    label = c.name;
    stdout_path = mac.join (get_log_directory c.user_service) "stdout.log";
    stderr_path = mac.join (get_log_directory c.user_service) "stderr.log";
  }

  abbrev in_home : ServiceConfig → Result String → Result DarwinService
  in_home c (err e) = err (wrapped "failed to get home directory" e)
  in_home c (ok home) = ok (in_directory c (mac.join home "Library/LaunchAgents"))

  unfoldable pub new_darwin_service : ServiceConfig → Result DarwinService
  new_darwin_service c =
      if c.user_service
      then in_home c mac.user_home
      else ok (in_directory c "/Library/LaunchDaemons")

  abbrev pub launched : String → Launched × S → Result (Unit {0}) × S
  launched message (x, s) = elim x.failure as (λ _. Result (Unit {0}) × S) [
    | none ↦ (ok tt, s)
    | some e ↦ (err (wrapped message e), s)
  ]

  abbrev pub load : DarwinService → S → Result (Unit {0}) × S
  load svc s = launched "launchctl load failed" (mac.launchctl ("load" ∷ svc.plist_path ∷ []) s)

  abbrev pub unload : DarwinService → S → Result (Unit {0}) × S
  unload svc s =
      launched "launchctl unload failed" (mac.launchctl ("unload" ∷ svc.plist_path ∷ []) s)

  -- The error of the removal is dropped.
  abbrev pub load_written : DarwinService → Result (Unit {0}) × S → Result (Unit {0}) × S
  load_written svc (ok u, s) = (ok tt, s)
  load_written svc (err e, s) =
      (err (wrapped "failed to load service" e), (mac.remove svc.plist_path s).1)

  abbrev pub written : DarwinService → Result (Unit {0}) × S → Result (Unit {0}) × S
  written svc (err e, s) = (err (wrapped "failed to write plist file" e), s)
  written svc (ok u, s) = load_written svc (load svc s)

  abbrev pub with_logs : DarwinService → Result (Unit {0}) × S → Result (Unit {0}) × S
  with_logs svc (err e, s) = (err (wrapped "failed to create log directory" e), s)
  with_logs svc (ok u, s) = written svc (mac.write_file svc.plist_path (plist (plist_data svc)) s)

  abbrev pub with_plists : DarwinService → Result (Unit {0}) × S → Result (Unit {0}) × S
  with_plists svc (err e, s) = (err (wrapped "failed to create plist directory" e), s)
  with_plists svc (ok u, s) = with_logs svc (mac.mkdir_all (mac.dir svc.stdout_path) s)

  unfoldable pub install_darwin : DarwinService → S → Result (Unit {0}) × S
  install_darwin svc s =
      if is_present (mac.stat svc.plist_path s)
      then (err (plain (str_append "service already installed at " svc.plist_path)), s)
      else with_plists svc (mac.mkdir_all svc.plist_dir s)

  unfoldable pub start_darwin : DarwinService → S → Result (Unit {0}) × S
  start_darwin svc s =
      if is_missing (mac.stat svc.plist_path s)
      then (err (plain "service not installed, run install first"), s)
      else launched "failed to start service" (mac.launchctl ("start" ∷ svc.label ∷ []) s)

  unfoldable pub stop_darwin : DarwinService → S → Result (Unit {0}) × S
  stop_darwin svc s = launched "failed to stop service" (mac.launchctl ("stop" ∷ svc.label ∷ []) s)

  unfoldable pub restart_darwin : DarwinService → S → Result (Unit {0}) × S
  unfolding stop_darwin start_darwin
  restart_darwin svc s = start_darwin svc (stop_darwin svc s).1

  abbrev pub removed : Result (Unit {0}) × S → Result (Unit {0}) × S
  removed (err e, s) = (err (wrapped "failed to remove plist file" e), s)
  removed (ok u, s) = (ok tt, s)

  unfoldable pub uninstall_darwin : DarwinService → S → Result (Unit {0}) × S
  unfolding stop_darwin
  uninstall_darwin svc s =
      if is_missing (mac.stat svc.plist_path s)
      then (err (plain "service not installed"), s)
      else removed (mac.remove svc.plist_path (unload svc (stop_darwin svc s).1).1)

  abbrev pub status_of : String → Launched → Status × Result (Unit {0})
  status_of label x = elim x.failure as (λ _. Status × Result (Unit {0})) [
    | none ↦ (listed_status label (split_lines x.output), ok tt)
    | some e ↦
        if contains "Could not find service" x.output
        then (status_stopped, ok tt)
        else (status_unknown, err (wrapped "failed to get service status" e))
  ]

  unfoldable pub darwin_status : DarwinService → S → (Status × Result (Unit {0})) × S
  darwin_status svc s =
      if is_missing (mac.stat svc.plist_path s)
      then ((status_not_installed, ok tt), s)
      else (let (x, s') = mac.launchctl ("list" ∷ svc.label ∷ []) s in (status_of svc.label x, s'))

-- Run, where `late` is the worker's result if the second select finds it before the context, which
-- is cancelled already.
unfoldable pub run_darwin : Awaited → Option (Result (Unit {0})) → Result (Unit {0})
run_darwin (worker_done r) late = r
run_darwin signalled (some r) = r
run_darwin signalled none = err (ctx_err was_canceled)
