-- ===== src/Api/Methods/Credentials.antt =====
-- What the API methods do with the client's credentials, and which errors they can return.
use castle_ops_client.Prelude.{
  ℕ, ◌+◌, ◌≤◌, arith, String, ◌≢◌, Option, str_eq, Error, request_error, Result, ok, err, some, ◌≡◌,
  refl, inl, inr, Bool-cases,
}
use castle_ops_client.Api.Models.{RegisterRequest, RegisterResponse}
use castle_ops_client.Api.Client.{Client, set_credentials, get_credentials}
use castle_ops_client.Api.Http.{Net, Decoder, attempt_count, do_request}
use castle_ops_client.Api.Http.Retry.{counted, do_request-ne-request_error, do_request_sends}
use castle_ops_client.Api.Methods.{
  Codecs, client_path, registered_request, register, after_register,
}

module _ (net : Net) (codecs : Codecs) where
  pub registered_request-ne-request_error :
      {A : Type 0} (c : Client) (method rest : String) (body : Option (Result String))
      (d : Decoder A) (w : net.World) (op : String) (cause : Error)
      → (registered_request net codecs c method rest body d w).0 ≢ err (request_error op cause)
  unfolding registered_request
  registered_request-ne-request_error c method rest body d w op cause =
      elim (Bool-cases (str_eq c.client_id "")) [
        | inl none_yet ↦ rw none_yet (λ e. cc)
        | inr present ↦ rw present (
            do_request-ne-request_error net c method (client_path c.client_id rest) body d w op
              cause)
      ]

  pub registered_request_sends :
      {A : Type 0} (c : Client) (method rest : String) (body : Option (Result String))
      (d : Decoder A) (s : ℕ × net.World)
      → (registered_request (counted net) codecs c method rest body d s).1.0
        ≤ s.0 + attempt_count c.retry_config.max_retries
  unfolding registered_request
  registered_request_sends c method rest body d s = elim (Bool-cases (str_eq c.client_id "")) [
    | inl none_yet ↦ rw none_yet (omega arith)
    | inr present ↦
        rw present (do_request_sends net c method (client_path c.client_id rest) body d s)
  ]

  -- Register sets the credentials that the answer holds, and keeps the client on a failure.
  abbrev pub Registers : Client → Result RegisterResponse → Client → Type 0
  Registers c (ok resp) c' = get_credentials c' ≡ (resp.client_id, resp.token)
  Registers c (err e) c' = c' ≡ c

  after_register-Registers :
      (c : Client) (r : Result RegisterResponse) (w : net.World)
      → Registers c (after_register net codecs c (r, w)).0 (after_register net codecs c (r, w)).1
  unfolding set_credentials get_credentials
  after_register-Registers c (ok resp) w = refl
  after_register-Registers c (err e) w = refl

  pub register-Registers :
      (req : RegisterRequest) (c : Client) (w : net.World)
      → Registers c (register net codecs req c w).0 (register net codecs req c w).1
  unfolding register
  register-Registers req c w =
      let (r, w') =
        do_request net c "POST" "/api/v1/clients/register" (some (codecs.encode_register req))
          codecs.register_response w in
      after_register-Registers c r w'
