-- ===== src/Api/Registration.antt =====
-- internal/api/registration.go: the client library's registration service. The client and the
-- configuration are its state. Logging is left out.
pub mod Agreement
pub mod Loss
use castle_ops_client.Prelude.{
  ℕ, zero, suc, String, Bool, true, false, not, ◌&&◌, ◌||◌, ◌==◌, Option, none, some, str_eq,
  if◌then◌else◌, Error, plain, wrapped, request_error, api_error, canceled, deadline_exceeded,
  Result, ok, err,
}
use castle_ops_client.Prelude.Int.{pos}
use castle_ops_client.Config.{Config, update_client_credentials, get_client_credentials}
use castle_ops_client.Api.Models.{
  RegisterRequest, RegisterResponse, HeartbeatRequest, HeartbeatResponse, client_status_online,
}
use castle_ops_client.Api.Client.{Client, set_credentials}
use castle_ops_client.Api.Http.{Net, CtxError, ctx_err}
use castle_ops_client.Api.Methods.{Codecs}
use castle_ops_client.Api.Methods
use Prim.Native.String.{◌++◌ as str_append}

pub record RegistrationService : Type 0 where
  pub client : Client
  pub config : Config

-- The machine: os.Hostname, runtime.GOOS, runtime.GOARCH, and the platform and its version from
-- gopsutil.
pub record Host : Type 0 where
  pub hostname : Result String
  pub os : String
  pub architecture : String
  pub platform : Result (String × String)

abbrev or_unknown : Result String → String
or_unknown (ok name) = name
or_unknown (err e) = "unknown"

abbrev get_os_version : Result (String × String) → Result String
get_os_version (ok (platform, version)) = ok (str_append platform (str_append " " version))
get_os_version (err e) = err e

abbrev pub get_agent_version : String
get_agent_version = "1.0.0-dev"

abbrev pub system_information : Host → RegisterRequest
system_information host = record {
  hostname = or_unknown host.hostname;
  os = host.os;
  os_version = or_unknown (get_os_version host.platform);
  architecture = host.architecture;
  agent_version = get_agent_version;
}

unfoldable pub build_registration_request : Host → Result RegisterRequest
build_registration_request host = ok (system_information host)

unfoldable pub is_registered : RegistrationService → Bool
unfolding get_client_credentials
is_registered s =
    let (id, token) = get_client_credentials s.config in not (str_eq id "") && not (str_eq token "")

-- `wait attempt` is the backoff before an attempt; `some` means that the context was done first.
module _ (net : Net) (codecs : Codecs) (wait : ℕ → net.World → Option CtxError × net.World) where
  abbrev pub pause_before : ℕ → net.World → Option CtxError × net.World
  pause_before zero w = (none, w)
  pause_before (suc attempt) w = wait (suc attempt) w

  -- The loop of registerWithRetry over the attempts left; `last` is the last error.
  unfoldable pub register_with_retry :
      ℕ
      → ℕ
      → RegisterRequest
      → Error
      → Client
      → net.World
      → Result RegisterResponse × Client × net.World
  unfolding Methods.register ctx_err
  register_with_retry zero attempt req last c w =
      (err (wrapped "registration failed after 4 attempts" last), c, w)
  register_with_retry (suc left) attempt req last c w =
      let (stop, w1) = pause_before attempt w in
      let (r, c1, w2) = Methods.register net codecs req c w1 in
      elim stop [
        | some x ↦ (err (ctx_err x), c, w1)
        | none ↦ elim r [
          | ok resp ↦ (ok resp, c1, w2)
          | err e ↦ register_with_retry left (suc attempt) req e c1 w2
        ]
      ]

  abbrev pub after_retries :
      Config
      → Result RegisterResponse × Client × net.World
      → Result RegisterResponse × RegistrationService × net.World
  after_retries config (ok resp, c, w) = (
    ok resp,
    record { client = c; config = update_client_credentials resp.client_id resp.token config },
    w,
  )
  after_retries config (err e, c, w) =
      (err (wrapped "registration failed" e), record { client = c; config = config }, w)

  unfoldable pub register :
      Host
      → RegistrationService
      → net.World
      → Result RegisterResponse × RegistrationService × net.World
  unfolding register_with_retry build_registration_request get_client_credentials
      update_client_credentials
  register host s w =
      let id = (get_client_credentials s.config).0 in
      if not (str_eq id "")
      then (err (plain (str_append "client already registered with ID: " id)), s, w)
      else elim (build_registration_request host) [
        | err e ↦ (err (wrapped "failed to build registration request" e), s, w)
        | ok req ↦ after_retries s.config (register_with_retry 4 0 req (plain "nil") s.client w)
      ]

  unfoldable pub reregister :
      Host
      → RegistrationService
      → net.World
      → Result RegisterResponse × RegistrationService × net.World
  unfolding register set_credentials update_client_credentials
  reregister host s w =
      register host
        (record {
          client = set_credentials "" "" s.client;
          config = update_client_credentials "" "" s.config;
        })
        w

  abbrev pub validation : HeartbeatRequest
  validation = record {
    status = client_status_online;
    uptime = pos 0;
    last_metric_time = 0;
    pending_commands = pos 0;
    version = get_agent_version;
  }

  abbrev not_validated : Error → Error
  not_validated e = wrapped "failed to validate credentials" e

  -- err.(*APIError), and then the status code
  abbrev pub validation_error : Error → Error
  validation_error (api_error code message kind) =
      if code == 401 || code == 403
      then plain "credentials invalid or expired"
      else not_validated (api_error code message kind)
  validation_error (plain s) = not_validated (plain s)
  validation_error (wrapped s e) = not_validated (wrapped s e)
  validation_error (request_error op e) = not_validated (request_error op e)
  validation_error canceled = not_validated canceled
  validation_error deadline_exceeded = not_validated deadline_exceeded

  abbrev pub validated : Result HeartbeatResponse → Result (Unit {0})
  validated (ok resp) = ok tt
  validated (err e) = err (validation_error e)

  unfoldable pub validate_credentials :
      RegistrationService → net.World → Result (Unit {0}) × net.World
  unfolding Methods.heartbeat is_registered
  validate_credentials s w =
      let (r, w') = Methods.heartbeat net codecs validation s.client w in
      if is_registered s then (validated r, w') else (err (plain "client not registered"), w)

  abbrev pub ended :
      String
      → Result RegisterResponse × RegistrationService × net.World
      → Result (Unit {0}) × RegistrationService × net.World
  ended message (ok resp, s, w) = (ok tt, s, w)
  ended message (err e, s, w) = (err (wrapped message e), s, w)

  unfoldable pub ensure_registered :
      Host → RegistrationService → net.World → Result (Unit {0}) × RegistrationService × net.World
  unfolding register reregister validate_credentials is_registered
  ensure_registered host s w =
      let (valid, w1) = validate_credentials s w in
      if is_registered s
      then elim valid [
        | ok u ↦ (ok tt, s, w1)
        | err e ↦ ended "re-registration failed" (reregister host s w1)
      ]
      else ended "initial registration failed" (register host s w)
