-- ===== src/Service/Darwin/Installing.antt =====
-- Install and Uninstall of internal/service/service_darwin.go over files that keep their promises.
use castle_ops_client.Prelude.{String, ◌≡◌, ◌⊎◌, Option, none, some, List, Error, Result, ok, err}
use castle_ops_client.Service.Darwin.{Mac, missing, DarwinService, plist_data, load}
use castle_ops_client.Service.Darwin.Plist.{plist}

-- What the operating system promises of a file: what it holds, and that launchctl leaves it alone.
pub record KeepsFiles {S : Type 0} (mac : Mac S) : Type 0 where
  pub content : String → S → Option String
  pub missing_empty : (p : String) (s : S) → mac.stat p s ≡ missing → content p s ≡ none
  pub mkdir_keeps : (p d : String) (s : S) → content p (mac.mkdir_all d s).1 ≡ content p s
  pub launchctl_keeps :
      (p : String) (args : List String) (s : S) → content p (mac.launchctl args s).1 ≡ content p s
  pub write_done :
      (p text : String) (s : S)
      → (mac.write_file p text s).0 ≡ ok tt
      → content p (mac.write_file p text s).1 ≡ some text
  pub remove_done :
      (p : String) (s : S) → (mac.remove p s).0 ≡ ok tt → content p (mac.remove p s).1 ≡ none

module _ {S : Type 0} (mac : Mac S) (files : KeepsFiles mac) where
  abbrev holds : DarwinService → S → Option String
  holds svc s = files.content svc.plist_path s

  -- The state in which Install writes the list: after both directories were made.
  abbrev pub prepared : DarwinService → S → S
  prepared svc s = (mac.mkdir_all (mac.dir svc.stdout_path) (mac.mkdir_all svc.plist_dir s).1).1

  abbrev pub write : DarwinService → S → Result (Unit {0}) × S
  write svc ready = mac.write_file svc.plist_path (plist (plist_data svc)) ready

  -- The failure that leaves the file in doubt: of the write in the state `ready`, or of the removal
  -- after launchctl refused the written list.
  pub data Doubt (svc : DarwinService) (ready s' : S) : Type 0 where
    write_failed : (e : Error) → write svc ready ≡ (err e, s') → Doubt svc ready s'
    remove_failed :
        (loading : Error) (refused : S) (e : Error)
        → load mac svc (write svc ready).1 ≡ (err loading, refused)
        → mac.remove svc.plist_path refused ≡ (err e, s')
        → Doubt svc ready s'

  -- The list that was written in the state `ready` is there, and launchctl then loaded it.
  pub record IsLoaded (svc : DarwinService) (ready s' : S) : Type 0 where
    pub list : holds svc s' ≡ some (plist (plist_data svc))
    pub was_written : (write svc ready).0 ≡ ok tt
    pub loaded : load mac svc (write svc ready).1 ≡ (ok tt, s')

  -- The outcome of Install, where `old` is what the file held before.
  abbrev pub Installs : DarwinService → S → Option String → Result (Unit {0}) × S → Type 0
  Installs svc ready old (ok u, s') = IsLoaded svc ready s'
  Installs svc ready old (err e, s') = (holds svc s' ≡ old) ⊎ Doubt svc ready s'
