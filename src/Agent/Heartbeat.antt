-- ===== src/Agent/Heartbeat.antt =====
-- internal/agent/heartbeat.go: the heartbeat service. The ticker's period is a field of its own,
-- and so is whether each channel is closed. Logging is left out; the wait before a retry and the
-- clock are parameters, and the ten seconds' limit of a request belongs to the network.
pub mod Rounds
pub mod Requests
pub mod Interval
pub mod Lifecycle
use castle_ops_client.Prelude.{
  ℕ, zero, suc, ◌+◌, ◌-◌, ◌*◌, ◌%◌, ◌^◌, String, Bool, true, false, not, ◌&&◌, Option, none, some,
  ltb, ◌==◌, if◌then◌else◌, plain, wrapped, Result, ok, err,
}
use castle_ops_client.Prelude.Int.{ℤ, pos, negsuc, positive, eqb_ℤ}
use castle_ops_client.Cache.Types.{Time}
use castle_ops_client.Config.{Config}
use castle_ops_client.Api.Models.{
  HeartbeatRequest, HeartbeatResponse, ConfigUpdate, client_status_online, client_status_degraded,
}
use castle_ops_client.Api.Client.{Client}
use castle_ops_client.Api.Http.{Net, attempt_count}
use castle_ops_client.Api.Methods.{Codecs}
use castle_ops_client.Api.Methods

-- What surrounds the service: `uptime` is int64(time.Since(startTime).Seconds()), and `backoff`
-- waits before a retry: `true` if the time passed, `false` if the service or the context was
-- stopped first.
pub record Timer (net : Net) : Type 0 where
  pub now : net.World → Time
  pub uptime : Time → net.World → ℤ
  pub backoff : ℕ → net.World → Bool × net.World

pub record HeartbeatService : Type 0 where
  pub api_client : Client
  pub start_time : Time
  pub running : Bool
  pub last_heartbeat : Time
  pub consecutive_failures : ℕ
  pub stop_closed : Bool
  pub stopped_closed : Bool
  pub interval : ℤ
  pub ticker : ℤ
  pub max_retries : ℤ

abbrev pub agent_version : String
agent_version = "0.2.0"

unfoldable pub new_heartbeat_service : Client → Config → Time → HeartbeatService
new_heartbeat_service c config start_time = record {
  api_client = c;
  start_time = start_time;
  running = false;
  last_heartbeat = 0;
  consecutive_failures = 0;
  stop_closed = false;
  stopped_closed = false;
  interval = config.heartbeat.interval;
  ticker = pos 0;
  max_retries = config.heartbeat.retry_attempts;
}

-- The int64 with the given bits.
abbrev from_bits : ℕ → ℤ
from_bits b = if ltb b (2 ^ 63) then pos b else negsuc (2 ^ 64 - 1 - b)

-- time.Duration(n) * time.Second, which wraps around in 64 bits.
unfoldable pub seconds : ℤ → ℤ
seconds (pos n) = from_bits (n * 1_000_000_000 % 2 ^ 64)
seconds (negsuc n) = from_bits ((2 ^ 64 - suc n * 1_000_000_000 % 2 ^ 64) % 2 ^ 64)

unfoldable pub determine_client_status : HeartbeatService → String
determine_client_status s =
    if s.consecutive_failures == 0
    then client_status_online
    else if ltb s.consecutive_failures 5
    then client_status_degraded
    else client_status_degraded

abbrev pub with_interval : ℤ → HeartbeatService → HeartbeatService
with_interval n s = if not (eqb_ℤ n s.interval) && positive n then record s { interval = n } else s

abbrev pub update_interval : Option ℤ → HeartbeatService → HeartbeatService
update_interval none s = s
update_interval (some n) s = with_interval (seconds n) s

-- The metrics interval is only logged.
unfoldable pub handle_config_update : ConfigUpdate → HeartbeatService → HeartbeatService
unfolding seconds
handle_config_update update s = update_interval update.heartbeat_interval s

abbrev pub maybe_update : Option ConfigUpdate → HeartbeatService → HeartbeatService
maybe_update none s = s
maybe_update (some update) s = handle_config_update update s

-- The second field tells whether the setting was refused.
unfoldable pub set_interval : ℤ → HeartbeatService → Result (Unit {0}) × HeartbeatService
set_interval n s =
    if positive n
    then (ok tt, record s { interval = n })
    else (err (plain "interval must be positive"), s)

-- What happens to a service while its loop runs.
pub data Event : Type 0 where
  tick send_soon : Event
  new_interval : ℤ → Event

abbrev pub exhausted : HeartbeatService → HeartbeatService
exhausted s = record s { consecutive_failures = (s.consecutive_failures + 1) % 2 ^ 64 }

module _ (net : Net) (codecs : Codecs) (timer : Timer net) where
  abbrev pub heartbeat_request : HeartbeatService → net.World → HeartbeatRequest
  heartbeat_request s w = record {
    status = determine_client_status s;
    uptime = timer.uptime s.start_time w;
    last_metric_time = 0;
    pending_commands = pos 0;
    version = agent_version;
  }

  abbrev pub answered :
      HeartbeatService → Result HeartbeatResponse → Result (Unit {0}) × HeartbeatService
  answered s (ok resp) = (ok tt, maybe_update resp.config_update s)
  answered s (err e) = (err (wrapped "failed to send heartbeat" e), s)

  unfoldable pub send_heartbeat :
      HeartbeatService → net.World → Result (Unit {0}) × HeartbeatService × net.World
  unfolding Methods.heartbeat determine_client_status handle_config_update
  send_heartbeat s w =
      let (r, w') = Methods.heartbeat net codecs (heartbeat_request s w) s.api_client w in
      let (result, s') = answered s r in (result, s', w')

  abbrev pub succeeded : net.World → HeartbeatService → HeartbeatService
  succeeded w s = record s { consecutive_failures = 0; last_heartbeat = timer.now w }

  abbrev pub backoff_before : ℕ → net.World → Bool × net.World
  backoff_before zero w = (true, w)
  backoff_before (suc attempt) w = timer.backoff (suc attempt) w

  -- The loop of sendHeartbeatWithRetry over the attempts left.
  unfoldable pub heartbeat_attempts :
      ℕ → ℕ → HeartbeatService → net.World → HeartbeatService × net.World
  unfolding send_heartbeat
  heartbeat_attempts zero attempt s w = (exhausted s, w)
  heartbeat_attempts (suc left) attempt s w =
      let (go, w1) = backoff_before attempt w in
      elim go [
        | false ↦ (s, w1)
        | true ↦
            let (r, s', w2) = send_heartbeat s w1 in
            elim r [
              | ok u ↦ (succeeded w2 s', w2)
              | err e ↦ heartbeat_attempts left (suc attempt) s' w2
            ]
      ]

  unfoldable pub send_heartbeat_with_retry :
      HeartbeatService → net.World → HeartbeatService × net.World
  unfolding heartbeat_attempts
  send_heartbeat_with_retry s w = heartbeat_attempts (attempt_count s.max_retries) 0 s w

  unfoldable pub send_now :
      HeartbeatService → net.World → Result (Unit {0}) × HeartbeatService × net.World
  unfolding send_heartbeat
  send_now s w =
      if s.running then send_heartbeat s w else (err (plain "heartbeat service not running"), s, w)

  unfoldable pub handle : Event → HeartbeatService → net.World → HeartbeatService × net.World
  unfolding send_heartbeat_with_retry send_now set_interval
  handle tick s w = send_heartbeat_with_retry s w
  handle send_soon s w = let (r, s', w') = send_now s w in (s', w')
  handle (new_interval n) s w = ((set_interval n s).1, w)

-- Closing a closed channel panics, and so does a ticker whose period is not positive.
pub data Outcome : Type 0 where
  returned : Result (Unit {0}) → HeartbeatService → Outcome
  panicked : Outcome

-- heartbeatLoop, which Start begins, makes the ticker first, and the panic there ends the program.
unfoldable pub start : HeartbeatService → Outcome
start s =
    if s.running
    then returned (err (plain "heartbeat service already running")) s
    else if positive s.interval
    then returned (ok tt) (record s { running = true; ticker = s.interval })
    else panicked

abbrev stopped : HeartbeatService → Outcome
stopped s =
    if s.stopped_closed
    then panicked
    else returned (ok tt) (record s { running = false; stopped_closed = true })

-- `stop` waits for the loop in between, or for the context.
unfoldable pub stop : HeartbeatService → Outcome
stop s =
    if not s.running
    then returned (ok tt) s
    else if s.stop_closed
    then panicked
    else stopped (record s { stop_closed = true })
