-- ===== src/Api/Http/Tally.antt =====
-- The requests and the waits of internal/api/client.go, counted.
use castle_ops_client.Prelude.{
  ℕ, zero, suc, ◌+◌, ◌-◌, String, ◌≡◌, arith, true, Option, none, some, Error, Result, ok, err,
}
use castle_ops_client.Api.Client.{Client, is_retryable}
use castle_ops_client.Api.Http.{Net, Decoder, pause, execute_request}

-- How many requests were sent, and how many waits before a retry were begun.
pub record Tally : Type 0 where
  pub sends : ℕ
  pub waits : ℕ

-- The same net, with a tally.
abbrev pub tallied : Net → Net
tallied net = record {
  World = Tally × net.World;
  new_request = net.new_request;
  send = λ r s. (let (a, w) = net.send r s.1 in (a, (record (s.0) { sends = suc s.0.sends }, w)));
  wait = λ attempt s.
      (let (stop, w) = net.wait attempt s.1 in (stop, (record (s.0) { waits = suc s.0.waits }, w)));
  decode_error = net.decode_error;
}

abbrev pub Tallied : Net → Type 0
Tallied net = Tally × net.World

module _ (net : Net) where
  pub pause_tally :
      (k : ℕ) (s s1 : Tallied net)
      → pause (tallied net) k s ≡ (none, s1)
      → (s1.0.sends ≡ s.0.sends) × (s1.0.waits ≡ s.0.waits + (k - (k - 1)))
  unfolding pause
  pause_tally zero s s1 h = ground arith
  pause_tally (suc k) s s1 h = ground arith

module _ {A : Type 0} (net : Net) (c : Client) (method path : String) (d : Decoder A) where
  -- An attempt that fails with an error to be retried has sent one request.
  pub execute_request_tally :
      (body : Option (Result String)) (s s2 : Tallied net) (e : Error)
      → execute_request (tallied net) c method path body d s ≡ (err e, s2)
      → is_retryable c e ≡ true
      → (s2.0.sends ≡ s.0.sends + 1) × (s2.0.waits ≡ s.0.waits)
  unfolding execute_request is_retryable
  execute_request_tally none s s2 e h r = ground arith
  execute_request_tally (some (ok b)) s s2 e h r = ground arith
  execute_request_tally (some (err x)) s s2 e h r = ground arith
