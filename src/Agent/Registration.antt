-- ===== src/Agent/Registration.antt =====
-- internal/agent/registration.go: the agent's registration service. The client and the
-- configuration are shared with the agent, so they are the state here. Logging is left out.
pub mod Credentials
pub mod Settings
use castle_ops_client.Prelude.{
  ℕ, zero, suc, String, Bool, true, false, not, ◌&&◌, Option, none, some, ltb, str_eq,
  if◌then◌else◌, Error, plain, wrapped, Result, ok, err,
}
use castle_ops_client.Prelude.Int.{pos}
use castle_ops_client.Config.{Config, update_client_credentials, get_client_credentials}
use castle_ops_client.Api.Models.{
  RegisterRequest, RegisterResponse, HeartbeatRequest, HeartbeatResponse, client_status_online,
}
use castle_ops_client.Api.Client.{Client}
use castle_ops_client.Api.Http.{Net, CtxError, ctx_err}
use castle_ops_client.Api.Methods.{Codecs}
use castle_ops_client.Api.Methods
use castle_ops_client.Agent.Heartbeat.{agent_version}

pub record RegistrationService : Type 0 where
  pub api_client : Client
  pub config : Config

-- The machine: os.Hostname, runtime.GOOS and runtime.GOARCH.
pub record Host : Type 0 where
  pub hostname : Result String
  pub os : String
  pub architecture : String

abbrev hostname_or_unknown : Result String → String
hostname_or_unknown (ok name) = name
hostname_or_unknown (err e) = "unknown"

abbrev get_os_version : String → String
get_os_version os =
    if str_eq os "darwin"
    then "macOS"
    else if str_eq os "windows"
    then "Windows"
    else if str_eq os "linux"
    then "Linux"
    else "unknown"

unfoldable pub build_registration_request : Host → Result RegisterRequest
build_registration_request host = ok (record {
  hostname = hostname_or_unknown host.hostname;
  os = host.os;
  os_version = get_os_version host.os;
  architecture = host.architecture;
  agent_version = agent_version;
})

abbrev pub max_registration_retries : ℕ
max_registration_retries = 5

abbrev pub are_present : String × String → Bool
are_present (id, token) = not (str_eq id "") && not (str_eq token "")

unfoldable pub is_registered : RegistrationService → Bool
unfolding get_client_credentials
is_registered s = are_present (get_client_credentials s.config)

-- `wait attempt` is the backoff after an attempt; `some` means that the context was done first.
module _ (net : Net) (codecs : Codecs) (wait : ℕ → net.World → Option CtxError × net.World) where
  abbrev pub pause_after : ℕ → net.World → Option CtxError × net.World
  pause_after attempt w = if ltb attempt max_registration_retries then wait attempt w else (none, w)

  abbrev pub registered_with : RegisterResponse → Client → Config → RegistrationService
  registered_with resp c config = record {
    api_client = c;
    config = update_client_credentials resp.client_id resp.token config;
  }

  -- The loop of Register over the attempts left; `last` is the last error.
  unfoldable pub register_attempts :
      ℕ
      → ℕ
      → RegisterRequest
      → Error
      → RegistrationService
      → net.World
      → Result (String × String) × RegistrationService × net.World
  unfolding Methods.register update_client_credentials ctx_err
  register_attempts zero attempt req last s w =
      (err (wrapped "registration failed after 5 attempts" last), s, w)
  register_attempts (suc left) attempt req last s w =
      let (r, c, w1) = Methods.register net codecs req s.api_client w in
      let (stop, w2) = pause_after attempt w1 in
      elim r [
        | ok resp ↦ (ok (resp.client_id, resp.token), registered_with resp c s.config, w1)
        | err e ↦ elim stop [
          | some x ↦ (err (ctx_err x), record s { api_client = c }, w2)
          | none ↦ register_attempts left (suc attempt) req e (record s { api_client = c }) w2
        ]
      ]

  unfoldable pub register :
      Host
      → RegistrationService
      → net.World
      → Result (String × String) × RegistrationService × net.World
  unfolding register_attempts build_registration_request
  register host s w = elim (build_registration_request host) [
    | err e ↦ (err (wrapped "failed to build registration request" e), s, w)
    | ok req ↦ register_attempts max_registration_retries 1 req (plain "nil") s w
  ]

  abbrev verification : HeartbeatRequest
  verification = record {
    status = client_status_online;
    uptime = pos 0;
    last_metric_time = 0;
    pending_commands = pos 0;
    version = agent_version;
  }

  abbrev is_ok : Result HeartbeatResponse → Bool
  is_ok (ok resp) = true
  is_ok (err e) = false

  unfoldable pub verify_credentials : RegistrationService → net.World → Bool × net.World
  unfolding Methods.heartbeat
  verify_credentials s w =
      let (r, w') = Methods.heartbeat net codecs verification s.api_client w in (is_ok r, w')

  unfoldable pub ensure_registered :
      Host
      → RegistrationService
      → net.World
      → Result (String × String) × RegistrationService × net.World
  unfolding register verify_credentials is_registered get_client_credentials
  ensure_registered host s w =
      let (valid, w1) = verify_credentials s w in
      if is_registered s
      then (if valid then (ok (get_client_credentials s.config), s, w1) else register host s w1)
      else register host s w

  unfoldable pub re_register :
      Host
      → RegistrationService
      → net.World
      → Result (String × String) × RegistrationService × net.World
  unfolding register update_client_credentials
  re_register host s w =
      register host (record s { config = update_client_credentials "" "" s.config }) w
