-- ===== src/Examples/Heartbeats.antt =====
-- internal/agent/heartbeat.go
use castle_ops_client.Prelude.{
  ℕ, zero, suc, ◌+◌, ◌-◌, ◌<◌, ◌≡◌, refl, true, List, [], ◌∷◌, arith, Error, plain, wrapped,
  request_error, ok, err,
}
use castle_ops_client.Prelude.Int.{pos, negsuc, positive}
use castle_ops_client.Api.Models.{HeartbeatRequest, client_status_degraded}
use castle_ops_client.Api.Client.{Client}
use castle_ops_client.Api.Methods.{registered_request}
use castle_ops_client.Api.Methods
use castle_ops_client.Agent.Heartbeat.{
  Timer, HeartbeatService, new_heartbeat_service, send_heartbeat, determine_client_status, Event,
  tick, send_soon, new_interval, seconds, backoff_before,
}
use castle_ops_client.Agent.Heartbeat.Rounds.{rounds, rounds_down}
use castle_ops_client.Agent.Heartbeat.Interval.{run_events, run_events_interval}
use castle_ops_client.Agent.Heartbeat.Lifecycle.{
  calls_start, calls_stop, run_calls, run_phases, fresh, Matches, run_calls-Matches,
}
use castle_ops_client.Config.{new_default}
use castle_ops_client.Examples.Dead.{dead_registered}
use castle_ops_client.Examples.Samples.{dead_net, flaky_net, codecs, sample_client}
use castle_ops_client.Examples.Settings.{defaults}

abbrev dead_timer : Timer dead_net
dead_timer = record { now = λ w. 5; uptime = λ t w. pos 0; backoff = λ attempt w. (true, w) }

abbrev flaky_timer : Timer flaky_net
flaky_timer = record { now = λ w. 5; uptime = λ t w. pos 0; backoff = λ attempt w. (true, w) }

-- A client that does not retry by itself.
abbrev pub hasty_client : Client
hasty_client = record sample_client {
  retry_config = record sample_client.retry_config { max_retries = pos 0 };
}

abbrev pub service : HeartbeatService
service = new_heartbeat_service hasty_client defaults 0

pub dead_heartbeat :
    (req : HeartbeatRequest) (c : Client) (w : Unit {0})
    → (e : Error) × ((Methods.heartbeat dead_net codecs req c w).0 ≡ err e)
unfolding Methods.heartbeat
dead_heartbeat req c w = dead_registered c "POST" "/heartbeat" "{}" codecs.heartbeat_response w

rounds_down_example :
    ((rounds dead_net codecs dead_timer 7 service tt).0.consecutive_failures ≡ 0 + 7)
    × ((rounds dead_net codecs dead_timer 7 service tt).0.last_heartbeat ≡ 0)
    × (0 < 7
        → determine_client_status (rounds dead_net codecs dead_timer 7 service tt).0
          ≡ client_status_degraded)
unfolding new_heartbeat_service
rounds_down_example =
    rounds_down dead_net codecs dead_timer dead_heartbeat (λ attempt w. refl) 7 service tt
      (omega arith)

abbrev refused : Error
refused = wrapped "failed to send heartbeat" (
    wrapped "request failed after retries"
      (request_error "POST /api/v1/clients/c/heartbeat" (plain "connection refused")))

flaky_waits : (i : ℕ) → backoff_before flaky_net codecs flaky_timer i (2 - i) ≡ (true, 2 - i)
flaky_waits zero = refl
flaky_waits (suc i) = refl

flaky_fails :
    (i : ℕ)
    → i < 2
    → send_heartbeat flaky_net codecs flaky_timer service (2 - i)
      ≡ (err refused, service, 2 - suc i)
unfolding send_heartbeat new_heartbeat_service
flaky_fails zero h = refl
flaky_fails (suc zero) h = refl
flaky_fails (suc (suc i)) h = absurd (omega arith)

flaky_answers : send_heartbeat flaky_net codecs flaky_timer service 0 ≡ (ok tt, service, 0)
unfolding send_heartbeat new_heartbeat_service
flaky_answers = refl

abbrev events : List Event
events = tick ∷ new_interval (pos 5) ∷ send_soon ∷ new_interval (negsuc 0) ∷ tick ∷ []

run_events_interval_example :
    (positive (run_events flaky_net codecs flaky_timer events service 2).0.interval ≡ true)
    × ((run_events flaky_net codecs flaky_timer events service 2).0.ticker ≡ service.ticker)
run_events_interval_example =
    run_events_interval flaky_net codecs flaky_timer events service 2
      (unfold new_heartbeat_service new_default in refl)

-- An interval of 18446744074 seconds wraps around to 290448384 nanoseconds.
wrapped_around : seconds (pos 18_446_744_074) ≡ pos 290_448_384
unfolding seconds
wrapped_around = refl

run_calls-Matches_example :
    Matches
      (positive defaults.heartbeat.interval)
      (run_phases
        (positive defaults.heartbeat.interval)
        (calls_start ∷ calls_stop ∷ calls_start ∷ calls_stop ∷ [])
        fresh)
      (run_calls
        (calls_start ∷ calls_stop ∷ calls_start ∷ calls_stop ∷ [])
        (new_heartbeat_service hasty_client defaults 0))
run_calls-Matches_example =
    run_calls-Matches (calls_start ∷ calls_stop ∷ calls_start ∷ calls_stop ∷ []) hasty_client
      defaults 0
