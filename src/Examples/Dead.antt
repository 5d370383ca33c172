-- ===== src/Examples/Dead.antt =====
-- A network on which no server can be reached answers no request, whoever asks.
use castle_ops_client.Prelude.{
  ℕ, zero, suc, String, ◌≡◌, refl, arith, some, if_lem, str_eq, Error, plain, Result, ok, err,
}
use castle_ops_client.Api.Models.{RegisterRequest, RegisterResponse}
use castle_ops_client.Api.Client.{Client, is_retryable}
use castle_ops_client.Api.Http.{
  Decoder, attempts, do_request, execute_request, attempt_count, pause, read_response,
}
use castle_ops_client.Api.Methods.{
  registered_request, client_path, not_registered, register, after_register,
}
use castle_ops_client.Examples.Samples.{dead_net, codecs}

dead_attempts :
    {A : Type 0} (c : Client) (method path body : String) (d : Decoder A) (left attempt : ℕ)
    (last : Error) (w : Unit {0})
    → (e : Error) × ((attempts dead_net c
          (execute_request dead_net c method path (some (ok body)) d)
          left
          attempt
          last
          w).0
        ≡ err e)
unfolding attempts execute_request pause is_retryable read_response
dead_attempts c method path body d zero attempt last w = (_, refl)
dead_attempts c method path body d (suc left) zero last w =
    dead_attempts c method path body d left 1 _ w
dead_attempts c method path body d (suc left) (suc attempt) last w =
    dead_attempts c method path body d left (suc (suc attempt)) _ w

pub dead_request :
    {A : Type 0} (c : Client) (method path body : String) (d : Decoder A) (w : Unit {0})
    → (e : Error) × ((do_request dead_net c method path (some (ok body)) d w).0 ≡ err e)
unfolding do_request
dead_request c method path body d w =
    dead_attempts c method path body d (attempt_count c.retry_config.max_retries) 0 (plain "nil") w

pub dead_registered :
    {A : Type 0} (c : Client) (method rest body : String) (d : Decoder A) (w : Unit {0})
    → (e : Error) × ((registered_request dead_net codecs c method rest (some (ok body)) d w).0
        ≡ err e)
unfolding registered_request
dead_registered {A} c method rest body d w =
    if_lem (λ (p : Result A × Unit {0}). (e : Error) × (p.0 ≡ err e)) (str_eq c.client_id "")
      (err not_registered, w)
      (do_request dead_net c method (client_path c.client_id rest) (some (ok body)) d w) (_, refl)
      (dead_request c method (client_path c.client_id rest) body d w)

failed_register :
    (c : Client) (r : Result RegisterResponse) (w : Unit {0})
    → ((e : Error) × (r ≡ err e))
    → (e : Error) × ((after_register dead_net codecs c (r, w)).0 ≡ err e)
failed_register c (ok resp) w (e, h) = absurd (ground arith)
failed_register c (err x) w h = (x, refl)

pub dead_register :
    (req : RegisterRequest) (c : Client) (w : Unit {0})
    → (e : Error) × ((register dead_net codecs req c w).0 ≡ err e)
unfolding register
dead_register req c w =
    let (r, w') =
      do_request dead_net c "POST" "/api/v1/clients/register" (some (ok "{}"))
        codecs.register_response w in
    failed_register c r w'
      (dead_request c "POST" "/api/v1/clients/register" "{}" codecs.register_response w)
