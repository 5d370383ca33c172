-- ===== src/Examples/Requests.antt =====
-- internal/api/client.go and commands.go
use castle_ops_client.Prelude.{
  ℕ, zero, suc, ◌+◌, ◌-◌, ◌≤◌, ◌<◌, ◌≡◌, ◌≢◌, refl, String, true, none, arith, Error, plain,
  wrapped, request_error, ok, err,
}
use castle_ops_client.Prelude.Int.{pos}
use castle_ops_client.Api.Client.{is_retryable}
use castle_ops_client.Api.Http.{execute_request, pause, do_request, attempt_count}
use castle_ops_client.Api.Http.Retry.{
  counted, do_request_sends, do_request_recovers, do_request_exhausted,
}
use castle_ops_client.Api.Http.Tally.{Tallied, tallied}
use castle_ops_client.Api.Http.Outcome.{Accounted, do_request-Accounted}
use castle_ops_client.Examples.Samples.{flaky_net, dead_net, sample_client, text_decoder}

abbrev no_tally : Tallied dead_net
no_tally = (record { sends = 0; waits = 0 }, tt)

do_request-Accounted_example :
    Accounted dead_net sample_client
      (execute_request (tallied dead_net) sample_client "GET" "/x" none text_decoder)
      3
      no_tally
      (do_request (tallied dead_net) sample_client "GET" "/x" none text_decoder no_tally)
    × ((op : String) (cause : Error)
        → (do_request (tallied dead_net) sample_client "GET" "/x" none text_decoder no_tally).0
          ≢ err (request_error op cause))
do_request-Accounted_example =
    do_request-Accounted dead_net sample_client "GET" "/x" text_decoder none 3 no_tally refl

do_request_sends_example :
    (do_request (counted dead_net) sample_client "GET" "/x" none text_decoder (0, tt)).1.0
    ≤ 0 + attempt_count (pos 3)
do_request_sends_example =
    do_request_sends dead_net sample_client "GET" "/x" none text_decoder (0, tt)

-- Four requests are sent, and the last error comes back wrapped.
dead_run : do_request (counted dead_net) sample_client "GET" "/x" none text_decoder (0, tt) ≡ (
  err (
      wrapped "request failed after retries" (request_error "GET /x" (plain "connection refused"))),
  (4, tt),
)
unfolding do_request
dead_run = refl

abbrev refused : Error
refused = request_error "GET /x" (plain "connection refused")

flaky_wait : (i : ℕ) → pause flaky_net i (2 - i) ≡ (none, 2 - i)
unfolding pause
flaky_wait zero = refl
flaky_wait (suc i) = refl

flaky_fails :
    (i : ℕ)
    → i < 2
    → execute_request flaky_net sample_client "GET" "/x" none text_decoder (2 - i)
      ≡ (err refused, 2 - suc i)
unfolding execute_request
flaky_fails zero h = refl
flaky_fails (suc zero) h = refl
flaky_fails (suc (suc i)) h = absurd (omega arith)

refused_again : is_retryable sample_client refused ≡ true
unfolding is_retryable
refused_again = refl

flaky_answers :
    execute_request flaky_net sample_client "GET" "/x" none text_decoder 0 ≡ (ok "ok", 0)
unfolding execute_request
flaky_answers = refl

do_request_recovers_example :
    do_request flaky_net sample_client "GET" "/x" none text_decoder 2 ≡ (ok "ok", 0)
do_request_recovers_example =
    do_request_recovers flaky_net sample_client "GET" "/x" none text_decoder 3 2 (λ i. 2 - i)
      (λ i. 2 - i) (λ i. refused) "ok" 0 0 refl (omega arith) (λ i h. flaky_wait i) flaky_fails
      (λ i h. refused_again) (flaky_wait 2) flaky_answers

dead_wait : (i : ℕ) → pause dead_net i tt ≡ (none, tt)
unfolding pause
dead_wait zero = refl
dead_wait (suc i) = refl

dead_fails :
    execute_request dead_net sample_client "GET" "/x" none text_decoder tt ≡ (err refused, tt)
unfolding execute_request
dead_fails = refl

do_request_exhausted_example :
    do_request dead_net sample_client "GET" "/x" none text_decoder tt
    ≡ (err (wrapped "request failed after retries" refused), tt)
do_request_exhausted_example =
    do_request_exhausted dead_net sample_client "GET" "/x" none text_decoder 3 (λ i. tt) (λ i. tt)
      (λ i. refused) refl (λ i h. dead_wait i) (λ i h. dead_fails) (λ i h. refused_again)
