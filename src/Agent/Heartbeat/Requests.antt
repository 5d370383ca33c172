-- ===== src/Agent/Heartbeat/Requests.antt =====
-- How many requests a round of internal/agent/heartbeat.go sends.
use castle_ops_client.Prelude.{
  ℕ, zero, suc, ◌+◌, ◌*◌, ◌≤◌, ◌≡◌, refl, subst, three_ways, arith, some, Result,
}
use native.Mathlib.Nat.{suc-mul}
use castle_ops_client.Api.Models.{HeartbeatResponse}
use castle_ops_client.Api.Http.{Net, attempt_count}
use castle_ops_client.Api.Http.Retry.{counted}
use castle_ops_client.Api.Methods.{Codecs, registered_request}
use castle_ops_client.Api.Methods.Credentials.{registered_request_sends}
use castle_ops_client.Api.Methods
use castle_ops_client.Agent.Heartbeat.{
  Timer, HeartbeatService, send_heartbeat, heartbeat_attempts, send_heartbeat_with_retry,
  handle_config_update, backoff_before, succeeded, answered, heartbeat_request,
}

module _ (net : Net) (codecs : Codecs) (timer : Timer net) where
  abbrev pub counted_timer : Timer (counted net)
  counted_timer = record {
    now = λ w. timer.now w.1;
    uptime = λ t w. timer.uptime t w.1;
    backoff = λ attempt w. (let (go, w') = timer.backoff attempt w.1 in (go, (w.0, w')));
  }

  send_heartbeat_count :
      (s : HeartbeatService) (w : ℕ × net.World)
      → (send_heartbeat (counted net) codecs counted_timer s w).2.0
        ≤ w.0 + attempt_count s.api_client.retry_config.max_retries
  unfolding send_heartbeat registered_request
  send_heartbeat_count s w =
      registered_request_sends net codecs s.api_client "POST" "/heartbeat"
        (some (codecs.encode_heartbeat (heartbeat_request (counted net) codecs counted_timer s w)))
        codecs.heartbeat_response w

  answered_client :
      (s : HeartbeatService) (r : Result HeartbeatResponse)
      → (answered (counted net) codecs counted_timer s r).1.api_client ≡ s.api_client
  unfolding handle_config_update
  answered_client s r = ground arith

  send_heartbeat_client :
      (s : HeartbeatService) (w : ℕ × net.World)
      → (send_heartbeat (counted net) codecs counted_timer s w).1.api_client ≡ s.api_client
  unfolding send_heartbeat
  send_heartbeat_client s w =
      answered_client s
        (Methods.heartbeat (counted net) codecs
          (heartbeat_request (counted net) codecs counted_timer s w) s.api_client w).0

  backoff_count :
      (attempt : ℕ) (w : ℕ × net.World)
      → (backoff_before (counted net) codecs counted_timer attempt w).1.0 ≡ w.0
  backoff_count zero w = refl
  backoff_count (suc attempt) w = refl

  attempts_count :
      (left attempt : ℕ) (s : HeartbeatService) (w : ℕ × net.World)
      → (heartbeat_attempts (counted net) codecs counted_timer left attempt s w).1.0
        ≤ w.0 + left * attempt_count s.api_client.retry_config.max_retries
  unfolding heartbeat_attempts
  attempts_count zero attempt s w = omega arith
  attempts_count (suc left) attempt s w =
      let (go, w1) = backoff_before (counted net) codecs counted_timer attempt w in
      let (r, s2, w2) = send_heartbeat (counted net) codecs counted_timer s w1 in
      let same = send_heartbeat_client s w1 in
      let more =
        subst
          (λ c.
            (heartbeat_attempts (counted net) codecs counted_timer left (suc attempt) s2 w2).1.0
            ≤ w2.0 + left * attempt_count c.retry_config.max_retries)
          same (attempts_count left (suc attempt) s2 w2) in
      let sent = send_heartbeat_count s w1 in
      let unmoved = backoff_count attempt w in
      let product = suc-mul left (attempt_count s.api_client.retry_config.max_retries) in
      three_ways (λ p. p.1.0 ≤ w.0 + suc left * attempt_count s.api_client.retry_config.max_retries)
        go r (s, w1) (succeeded (counted net) codecs counted_timer w2 s2, w2)
        (heartbeat_attempts (counted net) codecs counted_timer left (suc attempt) s2 w2)
        (omega arith) (omega arith) (omega arith)

  -- Whatever the network does, a round of heartbeats sends at most (RetryAttempts + 1) *
  -- (MaxRetries + 1) requests: the service's own retries multiply the client's.
  pub send_heartbeat_with_retry_sends :
      (s : HeartbeatService) (w : ℕ × net.World)
      → (send_heartbeat_with_retry (counted net) codecs counted_timer s w).1.0
        ≤ w.0 + attempt_count s.max_retries * attempt_count s.api_client.retry_config.max_retries
  unfolding send_heartbeat_with_retry
  send_heartbeat_with_retry_sends s w = attempts_count (attempt_count s.max_retries) 0 s w
