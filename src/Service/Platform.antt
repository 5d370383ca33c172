-- ===== src/Service/Platform.antt =====
-- internal/service/service.go: New, and the operations of the interface Service that change the
-- machine, on the service that it made.
use castle_ops_client.Prelude.{
  String, Option, some, str_eq, if◌then◌else◌, plain, wrapped, Result, ok, err,
}
use castle_ops_client.Service.{ServiceConfig, validate_service}
use castle_ops_client.Service.Darwin.{
  Mac, DarwinService, new_darwin_service, install_darwin, uninstall_darwin,
}
use castle_ops_client.Service.Windows.{Scm, install_windows, uninstall_windows}
use Prim.Native.String.{◌++◌ as str_append}

-- The values of the interface: Windows keeps the configuration.
pub data PlatformService : Type 0 where
  darwin_service : DarwinService → PlatformService
  windows_service : ServiceConfig → PlatformService

abbrev on_mac : Result DarwinService → Result PlatformService
on_mac (err e) = err e
on_mac (ok svc) = ok (darwin_service svc)

module _ {S : Type 0} (mac : Mac S) where
  abbrev pub platform_service : String → ServiceConfig → Result PlatformService
  unfolding new_darwin_service
  platform_service os c =
      if str_eq os "darwin"
      then on_mac (new_darwin_service mac c)
      else if str_eq os "windows"
      then ok (windows_service c)
      else if str_eq os "linux"
      then err (plain "linux support not yet implemented")
      else err (plain (str_append "unsupported platform: " os))

  abbrev if_valid : String → ServiceConfig → Result (Unit {0}) → Result PlatformService
  unfolding platform_service
  if_valid os c (err e) = err (wrapped "invalid service configuration" e)
  if_valid os c (ok u) = platform_service os c

  unfoldable pub new_service : String → ServiceConfig → Result PlatformService
  unfolding validate_service if_valid
  new_service os c = if_valid os c (validate_service c)

  module _ (scm : Scm S) where
    -- `none` where a loop of Windows runs out of rounds.
    unfoldable pub install_on : PlatformService → S → Option (Result (Unit {0})) × S
    unfolding install_darwin install_windows
    install_on (darwin_service svc) s = let (r, s') = install_darwin mac svc s in (some r, s')
    install_on (windows_service c) s = let (r, s') = install_windows scm c s in (some r, s')

    unfoldable pub uninstall_on : PlatformService → S → Option (Result (Unit {0})) × S
    unfolding uninstall_darwin uninstall_windows
    uninstall_on (darwin_service svc) s = let (r, s') = uninstall_darwin mac svc s in (some r, s')
    uninstall_on (windows_service c) s = uninstall_windows scm c s
