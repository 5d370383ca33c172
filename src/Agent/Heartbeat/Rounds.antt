-- ===== src/Agent/Heartbeat/Rounds.antt =====
-- The retry loop of internal/agent/heartbeat.go: how many requests it sends, what it makes of a
-- server that answers and of one that does not.
use castle_ops_client.Prelude.{
  ℕ, zero, suc, ◌+◌, ◌%◌, ◌^◌, ◌≤◌, ◌<◌, ◌≡◌, refl, ◌∙◌, ◌-◌, true, arith, Error, wrapped, Result,
  ok, err,
}
use native.Mathlib.Nat.{zero-add}
use castle_ops_client.Api.Models.{HeartbeatRequest, HeartbeatResponse, client_status_degraded}
use castle_ops_client.Api.Client.{Client}
use castle_ops_client.Api.Http.{Net, attempt_count}
use castle_ops_client.Api.Methods.{Codecs, registered_request}
use castle_ops_client.Api.Methods
use castle_ops_client.Agent.Heartbeat.{
  Timer, HeartbeatService, send_heartbeat, heartbeat_attempts, send_heartbeat_with_retry,
  determine_client_status, backoff_before, exhausted, succeeded, answered, heartbeat_request,
}

module _ (net : Net) (codecs : Codecs) (timer : Timer net) where
  -- One round after the other, on the ticks of the loop.
  unfoldable pub rounds : ℕ → HeartbeatService → net.World → HeartbeatService × net.World
  unfolding send_heartbeat_with_retry
  rounds zero s w = (s, w)
  rounds (suc n) s w =
      let (s', w') = send_heartbeat_with_retry net codecs timer s w in rounds n s' w'

  -- No heartbeat is answered, and no wait is cut short.
  module _
      (down : (req : HeartbeatRequest) (c : Client) (w : net.World)
        → (e : Error) × ((Methods.heartbeat net codecs req c w).0 ≡ err e))
      (waits : (attempt : ℕ) (w : net.World) → (timer.backoff attempt w).0 ≡ true) where
    answered_fails :
        (s : HeartbeatService) (r : Result HeartbeatResponse)
        → ((e : Error) × (r ≡ err e))
        → ((e : Error) × ((answered net codecs timer s r).0 ≡ err e))
          × ((answered net codecs timer s r).1 ≡ s)
    answered_fails s (ok resp) (e, h) = absurd (ground arith)
    answered_fails s (err x) h = ((wrapped "failed to send heartbeat" x, refl), refl)

    send_heartbeat_fails :
        (s : HeartbeatService) (w : net.World)
        → ((e : Error) × ((send_heartbeat net codecs timer s w).0 ≡ err e))
          × ((send_heartbeat net codecs timer s w).1 ≡ s)
    unfolding send_heartbeat
    send_heartbeat_fails s w =
        answered_fails s
          (Methods.heartbeat net codecs (heartbeat_request net codecs timer s w) s.api_client w).0
          (down (heartbeat_request net codecs timer s w) s.api_client w)

    waits_first :
        (attempt : ℕ) (w : net.World) → (backoff_before net codecs timer attempt w).0 ≡ true
    waits_first zero w = refl
    waits_first (suc attempt) w = waits (suc attempt) w

    attempts_fail :
        (left attempt : ℕ) (s : HeartbeatService) (w : net.World)
        → (heartbeat_attempts net codecs timer left attempt s w).0 ≡ exhausted s
    unfolding heartbeat_attempts
    attempts_fail zero attempt s w = refl
    attempts_fail (suc left) attempt s w =
        let (go, w1) = backoff_before net codecs timer attempt w in
        let ((e, fails), same) = send_heartbeat_fails s w1 in
        grind (arith, waits_first, send_heartbeat_fails, attempts_fail left)

    round_fails :
        (s : HeartbeatService) (w : net.World)
        → (send_heartbeat_with_retry net codecs timer s w).0 ≡ exhausted s
    unfolding send_heartbeat_with_retry
    round_fails s w = attempts_fail (attempt_count s.max_retries) 0 s w

    rounds_fail :
        (n : ℕ) (s : HeartbeatService) (w : net.World)
        → s.consecutive_failures < 2 ^ 64
        → ((rounds n s w).0.consecutive_failures ≡ (s.consecutive_failures + n) % 2 ^ 64)
          × ((rounds n s w).0.last_heartbeat ≡ s.last_heartbeat)
    unfolding rounds
    rounds_fail zero s w h = (omega arith, refl)
    rounds_fail (suc n) s w h =
        let w1 = (send_heartbeat_with_retry net codecs timer s w).1 in
        let (counts, same) = rounds_fail n (exhausted s) w1 (omega arith) in
        rw (rounds, round_fails s w) (omega (arith, counts), same)

    degraded :
        (s : HeartbeatService)
        → 0 < s.consecutive_failures
        → determine_client_status s ≡ client_status_degraded
    unfolding determine_client_status
    degraded s h = ground arith

    -- If no heartbeat is answered and no wait is cut short, then n rounds raise the number of
    -- failures by n, short of 2^64, leave the time of the last heartbeat, and where n is positive
    -- the status is "degraded".
    pub rounds_down :
        (n : ℕ) (s : HeartbeatService) (w : net.World)
        → s.consecutive_failures + n < 2 ^ 64
        → ((rounds n s w).0.consecutive_failures ≡ s.consecutive_failures + n)
          × ((rounds n s w).0.last_heartbeat ≡ s.last_heartbeat)
          × (0 < n → determine_client_status (rounds n s w).0 ≡ client_status_degraded)
    rounds_down n s w h =
        let (counts, same) = rounds_fail n s w (omega arith) in
        let exact : (rounds n s w).0.consecutive_failures ≡ s.consecutive_failures + n =
          omega (arith, counts) in
        (exact, same, λ more. degraded (rounds n s w).0 (omega (arith, exact, more)))

-- What a round comes to: the heartbeat that was answered, if one was.
module _ (net : Net) (codecs : Codecs) (timer : Timer net) (s : HeartbeatService) where
  attempts_step :
      (left attempt : ℕ) (w w1 w2 : net.World) (e : Error)
      → backoff_before net codecs timer attempt w ≡ (true, w1)
      → send_heartbeat net codecs timer s w1 ≡ (err e, s, w2)
      → heartbeat_attempts net codecs timer (suc left) attempt s w
        ≡ heartbeat_attempts net codecs timer left (suc attempt) s w2
  unfolding heartbeat_attempts
  attempts_step left attempt w w1 w2 e p q = ground arith

  module _ (bound : ℕ) (world sent : ℕ → net.World) (failure : ℕ → Error)
      (waits : (i : ℕ) → i < bound → backoff_before net codecs timer i (world i) ≡ (true, sent i))
      (fails : (i : ℕ)
        → i < bound
        → send_heartbeat net codecs timer s (sent i) ≡ (err (failure i), s, world (suc i))) where
    attempts_skip :
        (k left : ℕ)
        → k ≤ bound
        → heartbeat_attempts net codecs timer (k + left) 0 s (world 0)
          ≡ heartbeat_attempts net codecs timer left k s (world k)
    attempts_skip zero left h = rw zero-add refl
    attempts_skip (suc k) left h =
        let shift : suc k + left ≡ k + suc left = omega arith in
        rw shift (
          attempts_skip k (suc left) (omega arith)
          ∙ attempts_step left k (world k) (sent k) (world (suc k)) (failure k)
              (waits k (omega arith)) (fails k (omega arith)))

    attempts_success :
        (left : ℕ) (w w1 w2 : net.World) (s' : HeartbeatService)
        → backoff_before net codecs timer bound w ≡ (true, w1)
        → send_heartbeat net codecs timer s w1 ≡ (ok tt, s', w2)
        → heartbeat_attempts net codecs timer (suc left) bound s w
          ≡ (succeeded net codecs timer w2 s', w2)
    unfolding heartbeat_attempts
    attempts_success left w w1 w2 s' p q = ground arith

    -- If the first `bound` heartbeats fail, `bound` is at most RetryAttempts, and the next one is
    -- answered, no wait being cut short, then the round resets the number of failures, notes the
    -- time, and keeps what the answer changed.
    pub send_heartbeat_with_retry_recovers :
        (w1 w2 : net.World) (s' : HeartbeatService)
        → bound < attempt_count s.max_retries
        → backoff_before net codecs timer bound (world bound) ≡ (true, w1)
        → send_heartbeat net codecs timer s w1 ≡ (ok tt, s', w2)
        → send_heartbeat_with_retry net codecs timer s (world 0)
          ≡ (record s' { consecutive_failures = 0; last_heartbeat = timer.now w2 }, w2)
    unfolding send_heartbeat_with_retry
    send_heartbeat_with_retry_recovers w1 w2 s' h p q =
        let left = attempt_count s.max_retries - suc bound in
        let rounds : attempt_count s.max_retries ≡ bound + suc left = omega arith in
        rw rounds (
          attempts_skip bound (suc left) (omega arith)
          ∙ attempts_success left (world bound) w1 w2 s' p q)
