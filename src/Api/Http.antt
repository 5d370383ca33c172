-- ===== src/Api/Http.antt =====
-- internal/api/client.go: one request, and the retry loop. What the HTTP library, the clock and the
-- caller's context do is a parameter, `Net`: a state of the world that each send and each wait
-- moves on.
pub mod Retry
pub mod Tally
pub mod Outcome
use castle_ops_client.Prelude.{
  ℕ, zero, suc, ◌+◌, String, Bool, true, false, Option, none, some, ltb, leb, ◌&&◌, str_eq, ◌==◌,
  ◌||◌, if◌then◌else◌, Error, plain, wrapped, request_error, api_error, canceled, deadline_exceeded,
  Result, ok, err,
}
use castle_ops_client.Prelude.Int.{ℤ, pos, negsuc, positive, eqb_ℤ}
use castle_ops_client.Cache.Types.{Float64}
use castle_ops_client.Api.Models.{ErrorResponse}
use castle_ops_client.Api.Client.{Client, RetryConfig, is_retryable}
use Prim.Native.String.{◌++◌ as str_append}

-- `bearer` is the token of the Authorization header; the fixed headers are left out.
pub record Request : Type 0 where
  pub method : String
  pub url : String
  pub body : Option String
  pub bearer : Option String

-- `body` is what io.ReadAll makes of the first 10 MB.
pub record Response : Type 0 where
  pub status_code : ℕ
  pub body : Result String

-- ctx.Err() of a context that is done
pub data CtxError : Type 0 where
  was_canceled deadline_passed : CtxError

unfoldable pub ctx_err : CtxError → Error
ctx_err was_canceled = canceled
ctx_err deadline_passed = deadline_exceeded

-- What lies outside the client. `wait` is the backoff before an attempt: `some` means that the
-- context was done first. `new_request` is the error of http.NewRequestWithContext.
pub record Net : Type 1 where
  pub World : Type 0
  pub new_request : String → String → Option Error
  pub send : Request → World → Result Response × World
  pub wait : ℕ → World → Option CtxError × World
  pub decode_error : String → Result ErrorResponse

-- How a result is read from a body that is not empty; `zero` is the result's zero value.
pub record Decoder (A : Type 0) : Type 0 where
  pub zero : A
  pub decode : String → Result A

abbrev decoded : {A : Type 0} → Result A → Result A
decoded (ok a) = ok a
decoded (err e) = err (wrapped "failed to decode response" e)

abbrev status_error : ℕ → String → Result ErrorResponse → Error
status_error status body (ok r) = api_error status r.error r.code
status_error status body (err e) = api_error status body ""

abbrev read_body : {A : Type 0} → Net → Decoder A → ℕ → Result String → Result A
read_body net d status (err e) = err (wrapped "failed to read response" e)
read_body net d status (ok body) =
    if leb 400 status
    then err (status_error status body (net.decode_error body))
    else if str_eq body ""
    then ok d.zero
    else decoded (d.decode body)

-- What the client makes of the answer to a request.
unfoldable pub read_response : {A : Type 0} → Net → Decoder A → String → Result Response → Result A
read_response net d op (err e) = err (request_error op e)
read_response net d op (ok r) = read_body net d r.status_code r.body

abbrev send_request :
    {A : Type 0} (net : Net)
    → Client
    → String
    → String
    → Option String
    → Decoder A
    → net.World
    → Result A × net.World
send_request net c method path body d w =
    elim (net.new_request method (str_append c.base_url path)) [
      | some e ↦ (err (wrapped "failed to create request" e), w)
      | none ↦
          let (r, w') =
            net.send
              (record {
                method = method;
                url = str_append c.base_url path;
                body = body;
                bearer = if str_eq c.token "" then none else some c.token;
              })
              w in
          (read_response net d (str_append method (str_append " " path)) r, w')
    ]

-- The body is `none` for a nil body, and otherwise its encoding, which can fail.
unfoldable pub execute_request :
    {A : Type 0} (net : Net)
    → Client
    → String
    → String
    → Option (Result String)
    → Decoder A
    → net.World
    → Result A × net.World
unfolding read_response
execute_request net c method path none d w = send_request net c method path none d w
execute_request net c method path (some (ok body)) d w =
    send_request net c method path (some body) d w
execute_request net c method path (some (err e)) d w =
    (err (wrapped "failed to encode request" e), w)

-- The backoff comes before every attempt but the first.
unfoldable pub pause : (net : Net) → ℕ → net.World → Option CtxError × net.World
pause net zero w = (none, w)
pause net (suc attempt) w = net.wait (suc attempt) w

module _ {A : Type 0} (net : Net) (c : Client) (run : net.World → Result A × net.World) where
  -- The loop of doRequest over the attempts left; `last` is the last error.
  unfoldable pub attempts : ℕ → ℕ → Error → net.World → Result A × net.World
  unfolding pause is_retryable ctx_err
  attempts zero attempt last w = (err (wrapped "request failed after retries" last), w)
  attempts (suc left) attempt last w =
      let (stop, w1) = pause net attempt w in
      elim stop [
        | some e ↦ (err (ctx_err e), w1)
        | none ↦
            let (r, w2) = run w1 in
            elim r [
              | ok a ↦ (ok a, w2)
              | err e ↦ elim (is_retryable c e) [
                | true ↦ attempts left (suc attempt) e w2
                | false ↦ (err e, w2)
              ]
            ]
      ]

-- `attempt <= MaxRetries` from 0 on: the number of attempts.
abbrev pub attempt_count : ℤ → ℕ
attempt_count (pos n) = suc n
attempt_count (negsuc n) = 0

-- With no attempt at all the wrapped error is nil.
unfoldable pub do_request :
    {A : Type 0} (net : Net)
    → Client
    → String
    → String
    → Option (Result String)
    → Decoder A
    → net.World
    → Result A × net.World
unfolding execute_request attempts
do_request net c method path body d w =
    attempts net c (execute_request net c method path body d)
      (attempt_count c.retry_config.max_retries) 0 (plain "nil") w
