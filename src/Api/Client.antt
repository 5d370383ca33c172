-- ===== src/Api/Client.antt =====
-- internal/api/client.go: the client's configuration and credentials, and which errors are retried.
-- The HTTP transport, the TLS settings and the buffer pool are not modelled.
use castle_ops_client.Prelude.{
  ℕ, String, Bool, true, false, Option, none, some, ltb, leb, ◌&&◌, str_eq, ◌==◌, ◌||◌,
  if◌then◌else◌, Error, plain, wrapped, request_error, api_error, canceled, deadline_exceeded,
  Result, ok, err,
}
use castle_ops_client.Prelude.Int.{ℤ, pos, positive}
use castle_ops_client.Cache.Types.{Float64}

-- Durations are nanoseconds.
pub record RetryConfig : Type 0 where
  pub max_retries : ℤ
  pub initial_backoff : ℤ
  pub max_backoff : ℤ
  pub backoff_multiplier : Float64
  pub retryable_status_codes : ℕ → Bool

-- x > 0 on the bit pattern of a float64: not zero, no sign bit, and not NaN.
abbrev pub positive_float : Float64 → Bool
positive_float x = ltb 0 x && leb x 0x7ff0_0000_0000_0000

unfoldable pub default_retry_config : RetryConfig
default_retry_config = record {
  max_retries = pos 3;
  initial_backoff = pos 100_000_000;
  max_backoff = pos 30_000_000_000;
  backoff_multiplier = 0x4000_0000_0000_0000;
  retryable_status_codes = λ code.
      code == 408 || code == 429 || code == 500 || code == 502 || code == 503 || code == 504;
}

-- `retryable_status_codes` is `none` for a nil map.
pub record RetryOptions : Type 0 where
  pub max_retries : ℤ
  pub initial_backoff : ℤ
  pub max_backoff : ℤ
  pub backoff_multiplier : Float64
  pub retryable_status_codes : Option (ℕ → Bool)

-- The part of ClientConfig that the model reads.
pub record ClientConfig : Type 0 where
  pub base_url : String
  pub retry_config : Option RetryOptions

pub record Client : Type 0 where
  pub base_url : String
  pub token : String
  pub client_id : String
  pub retry_config : RetryConfig

abbrev or_default : ℤ → ℤ → ℤ
or_default n d = if positive n then n else d

abbrev codes_or : Option (ℕ → Bool) → (ℕ → Bool) → ℕ → Bool
codes_or none d = d
codes_or (some codes) d = codes

-- The given settings that are positive replace the defaults.
unfoldable pub merge_retry : Option RetryOptions → RetryConfig → RetryConfig
merge_retry none d = d
merge_retry (some c) d = record {
  max_retries = or_default c.max_retries d.max_retries;
  initial_backoff = or_default c.initial_backoff d.initial_backoff;
  max_backoff = or_default c.max_backoff d.max_backoff;
  backoff_multiplier =
      if positive_float c.backoff_multiplier then c.backoff_multiplier else d.backoff_multiplier;
  retryable_status_codes = codes_or c.retryable_status_codes d.retryable_status_codes;
}

unfoldable pub new_client : ClientConfig → Result Client
unfolding merge_retry default_retry_config
new_client config =
    if str_eq config.base_url ""
    then err (plain "base URL is required")
    else ok (record {
      base_url = config.base_url;
      token = "";
      client_id = "";
      retry_config = merge_retry config.retry_config default_retry_config;
    })

unfoldable pub set_credentials : String → String → Client → Client
set_credentials client_id token c = record c { client_id = client_id; token = token }

unfoldable pub get_credentials : Client → String × String
get_credentials c = (c.client_id, c.token)

unfoldable pub is_retryable : Client → Error → Bool
is_retryable c (api_error code message kind) = c.retry_config.retryable_status_codes code
is_retryable c (request_error op e) = true
is_retryable c (plain s) = false
is_retryable c (wrapped s e) = false
is_retryable c canceled = false
is_retryable c deadline_exceeded = false

-- APIError.IsRetryable
unfoldable pub api_error_is_retryable : ℕ → Bool
api_error_is_retryable code =
    code == 408 || code == 429 || code == 500 || code == 502 || code == 503 || code == 504
