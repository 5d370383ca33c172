-- ===== src/Api/Registration/Loss.antt =====
-- What internal/api/registration.go does with the credentials where no server can be reached.
use castle_ops_client.Prelude.{
  arith, ℕ, zero, suc, String, ◌≡◌, refl, true, if-true, Option, none, some, Error, plain, Result,
  ok, err,
}
use castle_ops_client.Config.{get_client_credentials, update_client_credentials}
use castle_ops_client.Api.Models.{
  RegisterRequest, RegisterResponse, HeartbeatRequest, HeartbeatResponse,
}
use castle_ops_client.Api.Client.{Client, get_credentials, set_credentials}
use castle_ops_client.Api.Http.{Net, CtxError, ctx_err}
use castle_ops_client.Api.Methods.{Codecs}
use castle_ops_client.Api.Methods
use castle_ops_client.Api.Methods.Credentials.{Registers, register-Registers}
use castle_ops_client.Api.Registration.{
  RegistrationService, Host, register_with_retry, register, reregister, ensure_registered,
  is_registered, validate_credentials, pause_before, after_retries, build_registration_request,
  ended, system_information, validated, validation, validation_error,
}

module _ (net : Net) (codecs : Codecs) (wait : ℕ → net.World → Option CtxError × net.World) where
  -- A failure that keeps the client.
  abbrev Failed : Client → Result RegisterResponse → Client → Type 0
  Failed c (ok resp) c' = ⊥
  Failed c (err e) c' = c' ≡ c

  -- A failure after which neither the client nor the configuration holds credentials.
  abbrev pub Lost : {A : Type 0} → Result A × RegistrationService × net.World → Type 0
  Lost (ok a, s, w) = ⊥
  Lost (err e, s, w) =
      (get_credentials s.client ≡ ("", "")) × (get_client_credentials s.config ≡ ("", ""))

  -- No server can be reached.
  module _
      (no_heartbeat : (req : HeartbeatRequest) (c : Client) (w : net.World)
        → (e : Error) × ((Methods.heartbeat net codecs req c w).0 ≡ err e))
      (no_registration : (req : RegisterRequest) (c : Client) (w : net.World)
        → (e : Error) × ((Methods.register net codecs req c w).0 ≡ err e)) where
    Failed-once :
        (c : Client) (r : Result RegisterResponse) (c' : Client)
        → ((e : Error) × (r ≡ err e))
        → Registers net codecs c r c'
        → Failed c r c'
    Failed-once c (ok resp) c' (e, h) k = absurd (ground arith)
    Failed-once c (err x) c' h k = k

    attempt-Failed :
        (left attempt : ℕ) (req : RegisterRequest) (c : Client) (r : Result RegisterResponse)
        (c1 : Client) (stop : Option CtxError) (w1 w2 : net.World)
        → Failed c r c1
        → ((e : Error)
            → Failed c
                (register_with_retry net codecs wait left (suc attempt) req e c w2).0
                (register_with_retry net codecs wait left (suc attempt) req e c w2).1)
        → (λ (p : Result RegisterResponse × Client × net.World). Failed c p.0 p.1)
            (elim stop as (λ _. Result RegisterResponse × Client × net.World) [
              | some x ↦ (err (ctx_err x), c, w1)
              | none ↦ elim r as (λ _. Result RegisterResponse × Client × net.World) [
                | ok resp ↦ (ok resp, c1, w2)
                | err e ↦ register_with_retry net codecs wait left (suc attempt) req e c1 w2
              ]
            ])
    attempt-Failed left attempt req c r c1 (some x) w1 w2 h k = refl
    attempt-Failed left attempt req c (ok resp) c1 none w1 w2 h k = absurd h
    attempt-Failed left attempt req c (err e) c1 none w1 w2 h k = rw h (k e)

    retries-Failed :
        (left attempt : ℕ) (req : RegisterRequest) (last : Error) (c : Client) (w : net.World)
        → Failed c
            (register_with_retry net codecs wait left attempt req last c w).0
            (register_with_retry net codecs wait left attempt req last c w).1
    unfolding register_with_retry
    retries-Failed zero attempt req last c w = refl
    retries-Failed (suc left) attempt req last c w =
        let (stop, w1) = pause_before net codecs wait attempt w in
        let (r, c1, w2) = Methods.register net codecs req c w1 in
        attempt-Failed left attempt req c r c1 stop w1 w2
          (Failed-once c r c1 (no_registration req c w1) (register-Registers net codecs req c w1))
          (λ e. retries-Failed left (suc attempt) req e c w2)

    after_retries-Lost :
        (s : RegistrationService) (r : Result RegisterResponse) (c : Client) (w : net.World)
        → Failed s.client r c
        → get_credentials s.client ≡ ("", "")
        → get_client_credentials s.config ≡ ("", "")
        → Lost (after_retries net codecs wait s.config (r, c, w))
    after_retries-Lost s (ok resp) c w h k l = absurd h
    after_retries-Lost s (err e) c w h k l = rw h (k, l)

    reregister-Lost :
        (host : Host) (s : RegistrationService) (w : net.World)
        → Lost (reregister net codecs wait host s w)
    unfolding reregister register set_credentials get_credentials update_client_credentials
        get_client_credentials build_registration_request
    reregister-Lost host s w =
        let bare : RegistrationService = record {
          client = set_credentials "" "" s.client;
          config = update_client_credentials "" "" s.config;
        } in
        let (r, c, w1) =
          register_with_retry net codecs wait 4 0 (system_information host) (plain "nil")
            bare.client w in
        after_retries-Lost bare r c w1
          (retries-Failed 4 0 (system_information host) (plain "nil") bare.client w) refl refl

    ended-Lost :
        (message : String) (p : Result RegisterResponse × RegistrationService × net.World)
        → Lost p
        → Lost (ended net codecs wait message p)
    ended-Lost message (ok resp, s, w) h = h
    ended-Lost message (err e, s, w) h = h

    validated_fails :
        (r : Result HeartbeatResponse)
        → ((e : Error) × (r ≡ err e))
        → (e : Error) × (validated net codecs wait r ≡ err e)
    validated_fails (ok resp) (e, h) = absurd (ground arith)
    validated_fails (err x) h = (validation_error net codecs wait x, refl)

    validate_credentials_fails :
        (s : RegistrationService) (w : net.World)
        → is_registered s ≡ true
        → (e : Error) × ((validate_credentials net codecs wait s w).0 ≡ err e)
    unfolding validate_credentials
    validate_credentials_fails s w h =
        let (r, w') = Methods.heartbeat net codecs (validation net codecs wait) s.client w in
        if-true (λ (p : Result (Unit {0}) × net.World). (e : Error) × (p.0 ≡ err e))
          (is_registered s) (validated net codecs wait r, w')
          (err (plain "client not registered"), w) h
          (validated_fails r (no_heartbeat (validation net codecs wait) s.client w))

    recheck :
        (r : Result (Unit {0})) (x y : Result (Unit {0}) × RegistrationService × net.World)
        → ((e : Error) × (r ≡ err e))
        → Lost y
        → Lost (elim r as (λ _. Result (Unit {0}) × RegistrationService × net.World) [
          | ok u ↦ x
          | err e ↦ y
        ])
    recheck (ok u) x y (e, h) k = absurd (ground arith)
    recheck (err z) x y h k = k

    -- If no server can be reached, then EnsureRegistered fails and takes the credentials of a client
    -- that is registered away from it and from the configuration, however often it has to wait.
    pub ensure_registered-Lost :
        (host : Host) (s : RegistrationService) (w : net.World)
        → is_registered s ≡ true
        → Lost (ensure_registered net codecs wait host s w)
    unfolding ensure_registered
    ensure_registered-Lost host s w h =
        let (r, w1) = validate_credentials net codecs wait s w in
        let again =
          ended net codecs wait "re-registration failed" (reregister net codecs wait host s w1) in
        if-true Lost (is_registered s)
          (elim r as (λ _. Result (Unit {0}) × RegistrationService × net.World) [
            | ok u ↦ (ok tt, s, w1)
            | err e ↦ again
          ])
          (ended net codecs wait "initial registration failed" (register net codecs wait host s w))
          h
          (recheck r (ok tt, s, w1) again (validate_credentials_fails s w h)
            (ended-Lost "re-registration failed" (reregister net codecs wait host s w1)
              (reregister-Lost host s w1)))
