-- ===== src/Api/Http/Retry.antt =====
-- The retry loop of internal/api/client.go: its errors, its number of sends, and its recovery.
use castle_ops_client.Prelude.{
  ℕ, zero, suc, ◌+◌, ◌≤◌, ◌<◌, String, ◌≡◌, ◌≢◌, refl, subst, ◌∙◌, ◌-◌, true, Option, none, some,
  arith, Error, plain, wrapped, request_error, Result, ok, err,
}
use native.Mathlib.Nat.{zero-add}
use castle_ops_client.Prelude.Int.{pos}
use castle_ops_client.Api.Client.{Client, is_retryable}
use castle_ops_client.Api.Http.{
  Net, Decoder, ctx_err, pause, attempts, attempt_count, do_request, execute_request,
}

module _ {A : Type 0} (net : Net) (c : Client) (run : net.World → Result A × net.World) where
  -- What the loop does after an attempt.
  attempts_step :
      (left attempt : ℕ) (last : Error) (w w1 w2 : net.World) (e : Error)
      → pause net attempt w ≡ (none, w1)
      → run w1 ≡ (err e, w2)
      → is_retryable c e ≡ true
      → attempts net c run (suc left) attempt last w ≡ attempts net c run left (suc attempt) e w2
  unfolding attempts
  attempts_step left attempt last w w1 w2 e p q r = ground arith

  attempts-ne-request_error :
      (left attempt : ℕ) (last : Error) (w : net.World) (op : String) (cause : Error)
      → (attempts net c run left attempt last w).0 ≢ err (request_error op cause)
  unfolding attempts is_retryable ctx_err
  attempts-ne-request_error zero attempt last w op cause h = cc
  attempts-ne-request_error (suc left) attempt last w op cause h =
      grind (arith, attempts-ne-request_error left)

  -- `count` reads a counter off the world that an attempt moves by one at most.
  module _ (count : net.World → ℕ)
      (waits : (attempt : ℕ) (w : net.World) → count (pause net attempt w).1 ≡ count w)
      (sends : (w : net.World) → count (run w).1 ≤ count w + 1) where
    attempts_bound :
        (left attempt : ℕ) (last : Error) (w : net.World)
        → count (attempts net c run left attempt last w).1 ≤ count w + left
    unfolding attempts
    attempts_bound zero attempt last w = omega arith
    attempts_bound (suc left) attempt last w = grind (arith, waits, sends, attempts_bound left)

  -- A row of worlds in which the first `bound` attempts fail with errors that are retried.
  module _ (bound : ℕ) (world sent : ℕ → net.World) (failure : ℕ → Error)
      (waits : (i : ℕ) → i < bound → pause net i (world i) ≡ (none, sent i))
      (fails : (i : ℕ) → i < bound → run (sent i) ≡ (err (failure i), world (suc i)))
      (retried : (i : ℕ) → i < bound → is_retryable c (failure i) ≡ true) where
    abbrev last_failure : ℕ → Error → Error
    last_failure zero last = last
    last_failure (suc k) last = failure k

    attempts_skip :
        (k left : ℕ) (last : Error)
        → k ≤ bound
        → attempts net c run (k + left) 0 last (world 0)
          ≡ attempts net c run left k (last_failure k last) (world k)
    attempts_skip zero left last h = rw zero-add refl
    attempts_skip (suc k) left last h =
        let shift : suc k + left ≡ k + suc left = omega arith in
        rw shift (
          attempts_skip k (suc left) last (omega arith)
          ∙ attempts_step left k (last_failure k last) (world k) (sent k) (world (suc k))
              (failure k) (waits k (omega arith)) (fails k (omega arith)) (retried k (omega arith)))

    attempts_recover :
        (left : ℕ) (last : Error) (stop : net.World) (a : A) (w : net.World)
        → pause net bound (world bound) ≡ (none, stop)
        → run stop ≡ (ok a, w)
        → attempts net c run (bound + suc left) 0 last (world 0) ≡ (ok a, w)
    attempts_recover left last stop a w p q =
        attempts_skip bound (suc left) last (omega arith) ∙ success
      where
        success :
            attempts net c run (suc left) bound (last_failure bound last) (world bound) ≡ (ok a, w)
        success = unfold attempts in ground arith

    attempts_exhausted :
        (last : Error)
        → attempts net c run bound 0 last (world 0)
          ≡ (err (wrapped "request failed after retries" (last_failure bound last)), world bound)
    attempts_exhausted last =
        let none_left : bound + 0 ≡ bound = omega arith in
        subst
          (λ n.
            attempts net c run n 0 last (world 0)
            ≡ (err (wrapped "request failed after retries" (last_failure bound last)), world bound))
          none_left (attempts_skip bound 0 last (omega arith) ∙ unfold attempts in refl)

module _ {A : Type 0} (net : Net) (c : Client) (method path : String)
    (body : Option (Result String)) (d : Decoder A) where
  -- A RequestError never comes out bare.
  pub do_request-ne-request_error :
      (w : net.World) (op : String) (cause : Error)
      → (do_request net c method path body d w).0 ≢ err (request_error op cause)
  unfolding do_request
  do_request-ne-request_error w op cause =
      attempts-ne-request_error net c (execute_request net c method path body d)
        (attempt_count c.retry_config.max_retries) 0 (plain "nil") w op cause

-- The same net, with a counter of the requests that were sent.
abbrev pub counted : Net → Net
counted net = record {
  World = ℕ × net.World;
  new_request = net.new_request;
  send = λ r s. (let (a, w) = net.send r s.1 in (a, (suc s.0, w)));
  wait = λ attempt s. (let (stop, w) = net.wait attempt s.1 in (stop, (s.0, w)));
  decode_error = net.decode_error;
}

module _ {A : Type 0} (net : Net) (c : Client) (method path : String)
    (body : Option (Result String)) (d : Decoder A) where
  pause_count : (attempt : ℕ) (s : ℕ × net.World) → (pause (counted net) attempt s).1.0 ≡ s.0
  unfolding pause
  pause_count zero s = refl
  pause_count (suc attempt) s = refl

  execute_request_count :
      (body : Option (Result String)) (s : ℕ × net.World)
      → (execute_request (counted net) c method path body d s).1.0 ≤ s.0 + 1
  unfolding execute_request
  execute_request_count none s = ground arith
  execute_request_count (some (ok b)) s = ground arith
  execute_request_count (some (err e)) s = ground arith

  -- Whatever the network does, one call sends at most MaxRetries + 1 requests.
  pub do_request_sends :
      (s : ℕ × net.World)
      → (do_request (counted net) c method path body d s).1.0
        ≤ s.0 + attempt_count c.retry_config.max_retries
  unfolding do_request
  do_request_sends s =
      attempts_bound (counted net) c (execute_request (counted net) c method path body d) (λ s. s.0)
        pause_count (execute_request_count body) (attempt_count c.retry_config.max_retries) 0
        (plain "nil") s

  -- If the first `k` attempts fail with errors that are retried, `k` is at most MaxRetries, and the
  -- next attempt succeeds, the context outliving each wait, then the call succeeds with its result.
  pub do_request_recovers :
      (n k : ℕ) (world sent : ℕ → net.World) (failure : ℕ → Error) (a : A) (stop w : net.World)
      → c.retry_config.max_retries ≡ pos n
      → k ≤ n
      → ((i : ℕ) → i < k → pause net i (world i) ≡ (none, sent i))
      → ((i : ℕ)
          → i < k
          → execute_request net c method path body d (sent i) ≡ (err (failure i), world (suc i)))
      → ((i : ℕ) → i < k → is_retryable c (failure i) ≡ true)
      → pause net k (world k) ≡ (none, stop)
      → execute_request net c method path body d stop ≡ (ok a, w)
      → do_request net c method path body d (world 0) ≡ (ok a, w)
  unfolding do_request
  do_request_recovers n k world sent failure a stop w e h waits fails retried p q =
      let rounds : suc n ≡ k + suc (n - k) = omega arith in
      rw (e, rounds)
        (attempts_recover net c (execute_request net c method path body d) k world sent failure
          waits fails retried (n - k) (plain "nil") stop a w p q)

  -- If all MaxRetries + 1 attempts fail with errors that are retried, the call returns the last one,
  -- wrapped, after exactly so many attempts.
  pub do_request_exhausted :
      (n : ℕ) (world sent : ℕ → net.World) (failure : ℕ → Error)
      → c.retry_config.max_retries ≡ pos n
      → ((i : ℕ) → i < suc n → pause net i (world i) ≡ (none, sent i))
      → ((i : ℕ)
          → i < suc n
          → execute_request net c method path body d (sent i) ≡ (err (failure i), world (suc i)))
      → ((i : ℕ) → i < suc n → is_retryable c (failure i) ≡ true)
      → do_request net c method path body d (world 0)
        ≡ (err (wrapped "request failed after retries" (failure n)), world (suc n))
  unfolding do_request
  do_request_exhausted n world sent failure e waits fails retried = rw e (
      attempts_exhausted net c (execute_request net c method path body d) (suc n) world sent failure
        waits fails retried (plain "nil"))
