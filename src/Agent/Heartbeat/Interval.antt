-- ===== src/Agent/Heartbeat/Interval.antt =====
-- The interval of internal/agent/heartbeat.go, and the ticker that its loop made from it.
use castle_ops_client.Prelude.{
  ℕ, zero, suc, ◌≡◌, refl, ◌∙◌, three_ways, plain, if◌then◌else◌, Bool-cases, inl, inr, List, [],
  ◌∷◌, none, true, false, arith, some, Result, ok, err,
}
use castle_ops_client.Prelude.Int.{ℤ, positive}
use castle_ops_client.Api.Models.{HeartbeatResponse}
use castle_ops_client.Api.Http.{Net, attempt_count}
use castle_ops_client.Api.Methods.{Codecs, registered_request}
use castle_ops_client.Api.Methods
use castle_ops_client.Agent.Heartbeat.{
  Timer, HeartbeatService, send_heartbeat, heartbeat_attempts, send_heartbeat_with_retry,
  handle_config_update, backoff_before, succeeded, answered, heartbeat_request, Event, tick,
  send_soon, new_interval, handle, with_interval, maybe_update, update_interval, seconds, send_now,
  set_interval,
}

abbrev pub run_events :
    (net : Net)
    → Codecs
    → Timer net
    → List Event
    → HeartbeatService
    → net.World
    → HeartbeatService × net.World
run_events net codecs timer [] s w = (s, w)
run_events net codecs timer (e ∷ es) s w =
    let (s', w') = handle net codecs timer e s w in run_events net codecs timer es s' w'

-- The second service came from the first by requests and settings.
abbrev Keeps : HeartbeatService → HeartbeatService → Type 0
Keeps s s' =
    (positive s.interval ≡ true → positive s'.interval ≡ true)
    × (s'.ticker ≡ s.ticker)
    × (s'.max_retries ≡ s.max_retries)

Keeps-trans : (s1 s2 s3 : HeartbeatService) → Keeps s1 s2 → Keeps s2 s3 → Keeps s1 s3
Keeps-trans s1 s2 s3 (p, t, m) (q, u, n) = (λ h. q (p h), u ∙ t, n ∙ m)

with_interval-Keeps : (n : ℤ) (s : HeartbeatService) → Keeps s (with_interval n s)
with_interval-Keeps n s = (λ h. ground arith, ground arith, ground arith)

module _ (net : Net) (codecs : Codecs) (timer : Timer net) where
  answered-Keeps :
      (s : HeartbeatService) (r : Result HeartbeatResponse)
      → Keeps s (answered net codecs timer s r).1
  unfolding handle_config_update
  answered-Keeps s (err e) = (λ h. h, refl, refl)
  answered-Keeps s (ok resp) = elim resp.config_update as (λ u. Keeps s (maybe_update u s)) [
    | none ↦ (λ h. h, refl, refl)
    | some update ↦ elim update.heartbeat_interval as (λ n. Keeps s (update_interval n s)) [
      | none ↦ (λ h. h, refl, refl)
      | some n ↦ with_interval-Keeps (seconds n) s
    ]
  ]

  send_heartbeat-Keeps :
      (s : HeartbeatService) (w : net.World) → Keeps s (send_heartbeat net codecs timer s w).1
  unfolding send_heartbeat
  send_heartbeat-Keeps s w =
      answered-Keeps s
        (Methods.heartbeat net codecs (heartbeat_request net codecs timer s w) s.api_client w).0

  attempts-Keeps :
      (left attempt : ℕ) (s : HeartbeatService) (w : net.World)
      → Keeps s (heartbeat_attempts net codecs timer left attempt s w).0
  unfolding heartbeat_attempts
  attempts-Keeps zero attempt s w = (λ h. h, refl, refl)
  attempts-Keeps (suc left) attempt s w =
      let (go, w1) = backoff_before net codecs timer attempt w in
      let (r, s2, w2) = send_heartbeat net codecs timer s w1 in
      let (p, t, m) = send_heartbeat-Keeps s w1 in
      three_ways (λ x. Keeps s x.0) go r (s, w1) (succeeded net codecs timer w2 s2, w2)
        (heartbeat_attempts net codecs timer left (suc attempt) s2 w2) (λ h. h, refl, refl)
        (p, t, m)
        (Keeps-trans s s2 (heartbeat_attempts net codecs timer left (suc attempt) s2 w2).0 (p, t, m)
          (attempts-Keeps left (suc attempt) s2 w2))

  handle-Keeps :
      (e : Event) (s : HeartbeatService) (w : net.World) → Keeps s (handle net codecs timer e s w).0
  unfolding handle send_now set_interval send_heartbeat_with_retry
  handle-Keeps tick s w = attempts-Keeps (attempt_count s.max_retries) 0 s w
  handle-Keeps send_soon s w =
      elim s.running
        as (λ b.
          Keeps s
            (if b
              then send_heartbeat net codecs timer s w
              else (err (plain "heartbeat service not running"), s, w)).1) [
                | true ↦ send_heartbeat-Keeps s w
                | false ↦ (λ h. h, refl, refl)
              ]
  handle-Keeps (new_interval n) s w = elim (Bool-cases (positive n)) [
    | inl e ↦ rw (set_interval, e) (λ h. e, refl, refl)
    | inr e ↦ rw (set_interval, e) (λ h. h, refl, refl)
  ]

  -- Whatever the server sends and whatever is set while the loop runs, an interval that is positive
  -- stays so, and the period of the loop's ticker stays the interval that it started with.
  pub run_events_interval :
      (es : List Event) (s : HeartbeatService) (w : net.World)
      → positive s.interval ≡ true
      → (positive (run_events net codecs timer es s w).0.interval ≡ true)
        × ((run_events net codecs timer es s w).0.ticker ≡ s.ticker)
  run_events_interval [] s w h = (h, refl)
  run_events_interval (e ∷ es) s w h =
      let (s', w') = handle net codecs timer e s w in
      let (p, t, m) = handle-Keeps e s w in
      let (q, u) = run_events_interval es s' w' (p h) in (q, u ∙ t)
