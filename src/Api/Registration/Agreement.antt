-- ===== src/Api/Registration/Agreement.antt =====
-- What internal/api/registration.go does with the credentials.
use castle_ops_client.Prelude.{
  ℕ, zero, suc, String, ◌≡◌, refl, true, if_lem, three_ways, not, str_eq, Option, none, some, Error,
  plain, Result, ok, err,
}
use Prim.Native.String.{◌++◌ as str_append}
use castle_ops_client.Config.{Config, get_client_credentials, update_client_credentials}
use castle_ops_client.Api.Models.{RegisterRequest, RegisterResponse}
use castle_ops_client.Api.Client.{Client, get_credentials, set_credentials}
use castle_ops_client.Api.Http.{Net, CtxError, ctx_err}
use castle_ops_client.Api.Methods.{Codecs}
use castle_ops_client.Api.Methods
use castle_ops_client.Api.Methods.Credentials.{Registers, register-Registers}
use castle_ops_client.Api.Registration.{
  RegistrationService, Host, register_with_retry, register, reregister, ensure_registered,
  is_registered, validate_credentials, pause_before, after_retries, ended, system_information,
}

module _ (net : Net) (codecs : Codecs) (wait : ℕ → net.World → Option CtxError × net.World) where
  attempt-Registers :
      (left attempt : ℕ) (req : RegisterRequest) (c : Client) (r : Result RegisterResponse)
      (c1 : Client) (stop : Option CtxError) (w1 w2 : net.World)
      → Registers net codecs c r c1
      → ((e : Error)
          → Registers net codecs c
              (register_with_retry net codecs wait left (suc attempt) req e c w2).0
              (register_with_retry net codecs wait left (suc attempt) req e c w2).1)
      → (λ (p : Result RegisterResponse × Client × net.World). Registers net codecs c p.0 p.1)
          (elim stop as (λ _. Result RegisterResponse × Client × net.World) [
            | some x ↦ (err (ctx_err x), c, w1)
            | none ↦ elim r as (λ _. Result RegisterResponse × Client × net.World) [
              | ok resp ↦ (ok resp, c1, w2)
              | err e ↦ register_with_retry net codecs wait left (suc attempt) req e c1 w2
            ]
          ])
  attempt-Registers left attempt req c r c1 (some x) w1 w2 h k = refl
  attempt-Registers left attempt req c (ok resp) c1 none w1 w2 h k = h
  attempt-Registers left attempt req c (err e) c1 none w1 w2 h k = rw h (k e)

  retries-Registers :
      (left attempt : ℕ) (req : RegisterRequest) (last : Error) (c : Client) (w : net.World)
      → Registers net codecs c
          (register_with_retry net codecs wait left attempt req last c w).0
          (register_with_retry net codecs wait left attempt req last c w).1
  unfolding register_with_retry
  retries-Registers zero attempt req last c w = refl
  retries-Registers (suc left) attempt req last c w =
      let (stop, w1) = pause_before net codecs wait attempt w in
      let (r, c1, w2) = Methods.register net codecs req c w1 in
      attempt-Registers left attempt req c r c1 stop w1 w2 (register-Registers net codecs req c w1)
        (λ e. retries-Registers left (suc attempt) req e c w2)

  -- The client and the configuration hold the same credentials.
  abbrev pub Agree : RegistrationService → Type 0
  Agree s = get_credentials s.client ≡ get_client_credentials s.config

  after_retries-Agree :
      (config : Config) (c : Client) (r : Result RegisterResponse) (c' : Client) (w : net.World)
      → get_credentials c ≡ get_client_credentials config
      → Registers net codecs c r c'
      → Agree (after_retries net codecs wait config (r, c', w)).1
  unfolding get_client_credentials update_client_credentials
  after_retries-Agree config c (ok resp) c' w h k = k
  after_retries-Agree config c (err e) c' w h k = rw k h

  register-Agree :
      (host : Host) (s : RegistrationService) (w : net.World)
      → Agree s
      → Agree (register net codecs wait host s w).1
  unfolding register
  register-Agree host s w h =
      let id = (get_client_credentials s.config).0 in
      let (r, c, w1) =
        register_with_retry net codecs wait 4 0 (system_information host) (plain "nil") s.client
          w in
      if_lem (λ p. Agree p.1) (not (str_eq id ""))
        (err (plain (str_append "client already registered with ID: " id)), s, w)
        (after_retries net codecs wait s.config (r, c, w1)) h
        (after_retries-Agree s.config s.client r c w1 h
          (retries-Registers 4 0 (system_information host) (plain "nil") s.client w))

  reregister-Agree :
      (host : Host) (s : RegistrationService) (w : net.World)
      → Agree (reregister net codecs wait host s w).1
  unfolding reregister
  reregister-Agree host s w =
      register-Agree host
        (record {
          client = set_credentials "" "" s.client;
          config = update_client_credentials "" "" s.config;
        })
        w
        (unfold set_credentials get_credentials update_client_credentials get_client_credentials in
          refl)

  ended-Agree :
      (message : String) (p : Result RegisterResponse × RegistrationService × net.World)
      → Agree p.1
      → Agree (ended net codecs wait message p).1
  ended-Agree message (ok resp, s, w) h = h
  ended-Agree message (err e, s, w) h = h

  -- If the client and the configuration hold the same credentials, they do after EnsureRegistered as
  -- well, whether it succeeds or not.
  pub ensure_registered-Agree :
      (host : Host) (s : RegistrationService) (w : net.World)
      → Agree s
      → Agree (ensure_registered net codecs wait host s w).1
  unfolding ensure_registered
  ensure_registered-Agree host s w h =
      let (valid, w1) = validate_credentials net codecs wait s w in
      let again =
        ended net codecs wait "re-registration failed" (reregister net codecs wait host s w1) in
      if_lem (λ p. Agree p.1) (is_registered s)
        (elim valid as (λ _. Result (Unit {0}) × RegistrationService × net.World) [
          | ok u ↦ (ok tt, s, w1)
          | err e ↦ again
        ])
        (ended net codecs wait "initial registration failed" (register net codecs wait host s w))
        (three_ways (λ p. Agree p.1) true valid again (ok tt, s, w1) again (reregistered w1) h
          (reregistered w1))
        (ended-Agree "initial registration failed" (register net codecs wait host s w)
          (register-Agree host s w h))
    where
      reregistered :
          (w1 : net.World)
          → Agree
              (ended net codecs wait "re-registration failed"
                (reregister net codecs wait host s w1)).1
      reregistered w1 =
          ended-Agree "re-registration failed" (reregister net codecs wait host s w1)
            (reregister-Agree host s w1)
