-- ===== src/Agent/Registration/Credentials.antt =====
-- What internal/agent/registration.go does with the credentials.
use castle_ops_client.Prelude.{
  ℕ, zero, suc, String, ◌≡◌, refl, if_lem, if◌then◌else◌, plain, Option, none, some, Error, Result,
  ok, err,
}
use castle_ops_client.Config.{get_client_credentials, update_client_credentials}
use castle_ops_client.Api.Models.{RegisterRequest, RegisterResponse}
use castle_ops_client.Api.Client.{Client, get_credentials}
use castle_ops_client.Api.Http.{Net, CtxError, ctx_err}
use castle_ops_client.Api.Methods.{Codecs}
use castle_ops_client.Api.Methods
use castle_ops_client.Api.Methods.Credentials.{Registers, register-Registers}
use castle_ops_client.Agent.Registration.{
  RegistrationService, Host, register_attempts, register, ensure_registered, is_registered,
  verify_credentials, max_registration_retries, pause_after, registered_with,
  build_registration_request,
}

module _ (net : Net) (codecs : Codecs) (wait : ℕ → net.World → Option CtxError × net.World) where
  -- The credentials that were returned stand in the configuration and in the client; an error
  -- changes nothing.
  abbrev pub Settled :
      RegistrationService → Result (String × String) × RegistrationService × net.World → Type 0
  Settled s (ok creds, s', w) =
      (get_client_credentials s'.config ≡ creds) × (get_credentials s'.api_client ≡ creds)
  Settled s (err e, s', w) = s' ≡ s

  attempt-Settled :
      (left attempt : ℕ) (req : RegisterRequest) (s : RegistrationService)
      (r : Result RegisterResponse) (c : Client) (stop : Option CtxError) (w1 w2 : net.World)
      → Registers net codecs s.api_client r c
      → ((e : Error) → Settled s (register_attempts net codecs wait left (suc attempt) req e s w2))
      → Settled s (elim r as (λ _. Result (String × String) × RegistrationService × net.World) [
        | ok resp ↦
            (ok (resp.client_id, resp.token), registered_with net codecs wait resp c s.config, w1)
        | err e ↦ elim stop as (λ _. Result (String × String) × RegistrationService × net.World) [
          | some x ↦ (err (ctx_err x), record s { api_client = c }, w2)
          | none ↦
              register_attempts net codecs wait left
                (suc attempt)
                req
                e
                (record s { api_client = c })
                w2
        ]
      ])
  unfolding get_client_credentials update_client_credentials
  attempt-Settled left attempt req s (ok resp) c stop w1 w2 h k = (refl, h)
  attempt-Settled left attempt req s (err e) c (some x) w1 w2 h k = rw h refl
  attempt-Settled left attempt req s (err e) c none w1 w2 h k = rw h (k e)

  attempts-Settled :
      (left attempt : ℕ) (req : RegisterRequest) (last : Error) (s : RegistrationService)
      (w : net.World)
      → Settled s (register_attempts net codecs wait left attempt req last s w)
  unfolding register_attempts
  attempts-Settled zero attempt req last s w = refl
  attempts-Settled (suc left) attempt req last s w =
      let (r, c, w1) = Methods.register net codecs req s.api_client w in
      let (stop, w2) = pause_after net codecs wait attempt w1 in
      attempt-Settled left attempt req s r c stop w1 w2
        (register-Registers net codecs req s.api_client w)
        (λ e. attempts-Settled left (suc attempt) req e s w2)

  register-Settled :
      (host : Host) (s : RegistrationService) (w : net.World)
      → Settled s (register net codecs wait host s w)
  unfolding register build_registration_request
  register-Settled host s w = attempts-Settled max_registration_retries 1 _ (plain "nil") s w

  -- If the client holds the configuration's credentials, then EnsureRegistered returns credentials
  -- that both hold afterwards, or an error that leaves both as they were.
  pub ensure_registered-Settled :
      (host : Host) (s : RegistrationService) (w : net.World)
      → get_credentials s.api_client ≡ get_client_credentials s.config
      → Settled s (ensure_registered net codecs wait host s w)
  unfolding ensure_registered
  ensure_registered-Settled host s w h =
      let (valid, w1) = verify_credentials net codecs wait s w in
      if_lem (Settled s) (is_registered s)
        (if valid
          then (ok (get_client_credentials s.config), s, w1)
          else register net codecs wait host s w1)
        (register net codecs wait host s w)
        (if_lem (Settled s) valid (ok (get_client_credentials s.config), s, w1)
          (register net codecs wait host s w1) (refl, h) (register-Settled host s w1))
        (register-Settled host s w)
