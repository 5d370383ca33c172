-- ===== src/Agent/Registration/Settings.antt =====
-- What the registration of internal/agent/registration.go leaves of the configuration.
use castle_ops_client.Prelude.{
  ℕ, zero, suc, String, ◌≡◌, refl, ap, ◌∙◌, if_lem, if◌then◌else◌, Option, none, some, Error, plain,
  Result, ok, err,
}
use castle_ops_client.Config.{get_client_credentials, update_client_credentials}
use castle_ops_client.Api.Models.{RegisterRequest, RegisterResponse}
use castle_ops_client.Api.Client.{Client}
use castle_ops_client.Api.Http.{Net, CtxError, ctx_err}
use castle_ops_client.Api.Methods.{Codecs}
use castle_ops_client.Api.Methods
use castle_ops_client.Agent.Registration.{
  RegistrationService, Host, ensure_registered, register, register_attempts, pause_after,
  build_registration_request, registered_with, max_registration_retries, is_registered,
  verify_credentials,
}

module _ (net : Net) (codecs : Codecs) (wait : ℕ → net.World → Option CtxError × net.World) where
  -- The metrics' and the heartbeat's part of the configuration are as before.
  abbrev pub KeepsSettings :
      RegistrationService → Result (String × String) × RegistrationService × net.World → Type 0
  KeepsSettings s (r, s', w) =
      (s'.config.metrics ≡ s.config.metrics) × (s'.config.heartbeat ≡ s.config.heartbeat)

  attempt-KeepsSettings :
      (left attempt : ℕ) (req : RegisterRequest) (s : RegistrationService)
      (r : Result RegisterResponse) (c : Client) (stop : Option CtxError) (w1 w2 : net.World)
      → ((e : Error) (s' : RegistrationService)
          → s'.config ≡ s.config
          → KeepsSettings s (register_attempts net codecs wait left (suc attempt) req e s' w2))
      → KeepsSettings s
          (elim r as (λ _. Result (String × String) × RegistrationService × net.World) [
            | ok resp ↦ (
              ok (resp.client_id, resp.token),
              registered_with net codecs wait resp c s.config,
              w1,
            )
            | err e ↦
                elim stop as (λ _. Result (String × String) × RegistrationService × net.World) [
                  | some x ↦ (err (ctx_err x), record s { api_client = c }, w2)
                  | none ↦
                      register_attempts net codecs wait left
                        (suc attempt)
                        req
                        e
                        (record s { api_client = c })
                        w2
                ]
          ])
  unfolding update_client_credentials
  attempt-KeepsSettings left attempt req s (ok resp) c stop w1 w2 k = (refl, refl)
  attempt-KeepsSettings left attempt req s (err e) c (some x) w1 w2 k = (refl, refl)
  attempt-KeepsSettings left attempt req s (err e) c none w1 w2 k =
      k e (record s { api_client = c }) refl

  attempts-KeepsSettings :
      (left attempt : ℕ) (req : RegisterRequest) (last : Error) (s : RegistrationService)
      (w : net.World)
      → KeepsSettings s (register_attempts net codecs wait left attempt req last s w)
  unfolding register_attempts
  attempts-KeepsSettings zero attempt req last s w = (refl, refl)
  attempts-KeepsSettings (suc left) attempt req last s w =
      let (r, c, w1) = Methods.register net codecs req s.api_client w in
      let (stop, w2) = pause_after net codecs wait attempt w1 in
      attempt-KeepsSettings left attempt req s r c stop w1 w2 (λ e s' h.
        let (m, b) = attempts-KeepsSettings left (suc attempt) req e s' w2 in
        (m ∙ ap (λ c. c.metrics) h, b ∙ ap (λ c. c.heartbeat) h))

  register-KeepsSettings :
      (host : Host) (s : RegistrationService) (w : net.World)
      → KeepsSettings s (register net codecs wait host s w)
  unfolding register build_registration_request
  register-KeepsSettings host s w =
      attempts-KeepsSettings max_registration_retries 1 _ (plain "nil") s w

  pub ensure_registered-KeepsSettings :
      (host : Host) (s : RegistrationService) (w : net.World)
      → KeepsSettings s (ensure_registered net codecs wait host s w)
  unfolding ensure_registered
  ensure_registered-KeepsSettings host s w =
      let (valid, w1) = verify_credentials net codecs wait s w in
      if_lem (KeepsSettings s) (is_registered s)
        (if valid
          then (ok (get_client_credentials s.config), s, w1)
          else register net codecs wait host s w1)
        (register net codecs wait host s w)
        (if_lem (KeepsSettings s) valid (ok (get_client_credentials s.config), s, w1)
          (register net codecs wait host s w1) (refl, refl) (register-KeepsSettings host s w1))
        (register-KeepsSettings host s w)
