-- ===== src/Api/Http/Outcome.antt =====
-- How a request of internal/api/client.go can fail: doRequest over a net that keeps a tally.
use castle_ops_client.Prelude.{
  ℕ, zero, suc, ◌+◌, ◌-◌, ◌≤◌, String, ◌≡◌, ◌≢◌, refl, sym, subst, arith, true, false, inl, inr,
  Bool-cases, Option, none, some, Error, plain, wrapped, request_error, Result, ok, err,
}
use castle_ops_client.Prelude.Int.{pos}
use castle_ops_client.Api.Client.{Client, is_retryable}
use castle_ops_client.Api.Http.{
  Net, Decoder, CtxError, ctx_err, pause, attempts, do_request, execute_request, attempt_count,
}
use castle_ops_client.Api.Http.Tally.{Tallied, tallied, pause_tally, execute_request_tally}
use castle_ops_client.Api.Http.Retry.{do_request-ne-request_error}

module _ {A : Type 0} (net : Net) (c : Client) (run : Tallied net → Result A × Tallied net) (n : ℕ)
    (s0 : Tallied net) where
  -- The loop that began in `s0` comes to its attempt `k`, from 0 on, in the state `s`: each attempt
  -- before, after its wait, failed with an error that is retried.
  pub data Reached : ℕ → Tallied net → Type 0 where
    begun : Reached 0 s0
    retried :
        (k : ℕ) (s s1 s2 : Tallied net) (e : Error)
        → Reached k s
        → pause (tallied net) k s ≡ (none, s1)
        → run s1 ≡ (err e, s2)
        → is_retryable c e ≡ true
        → Reached (suc k) s2

  -- The attempt `k` of this loop gave `r` in the state `s'`.
  pub record Tried (k : ℕ) (r : Result A) (s' : Tallied net) : Type 0 where
    pub within : k ≤ n
    pub before : Tallied net
    pub waited : Tallied net
    pub reached : Reached k before
    pub wait_over : pause (tallied net) k before ≡ (none, waited)
    pub ran : run waited ≡ (r, s')

  -- The failures: the context was done during the wait before an attempt; or an attempt failed with an
  -- error that is not retried; or the attempt n failed with one that is, and then it comes wrapped, with
  -- n + 1 requests sent and n waits begun.
  pub data Failed (s' : Tallied net) : Error → Type 0 where
    interrupted :
        (k : ℕ) (s : Tallied net) (x : CtxError)
        → k ≤ n
        → Reached k s
        → pause (tallied net) k s ≡ (some x, s')
        → Failed s' (ctx_err x)
    refused : (k : ℕ) (e : Error) → Tried k (err e) s' → is_retryable c e ≡ false → Failed s' e
    exhausted :
        (k : ℕ) (cause : Error)
        → k ≡ n
        → Tried k (err cause) s'
        → is_retryable c cause ≡ true
        → s'.0.sends ≡ s0.0.sends + suc n
        → s'.0.waits ≡ s0.0.waits + n
        → Failed s' (wrapped "request failed after retries" cause)

  abbrev pub Accounted : Result A × Tallied net → Type 0
  Accounted (ok a, s') = (k : ℕ) × Tried k (ok a) s'
  Accounted (err e, s') = Failed s' e

  -- How the loop goes on after an attempt that is retried.
  abbrev GoesOn : ℕ → ℕ → Tallied net → Type 0
  GoesOn left k s =
      (e : Error) (s1 s2 : Tallied net)
      → pause (tallied net) k s ≡ (none, s1)
      → run s1 ≡ (err e, s2)
      → is_retryable c e ≡ true
      → Accounted (attempts (tallied net) c run left (suc k) e s2)

  after_run :
      (left k : ℕ) (s s1 : Tallied net) (p : Result A × Tallied net)
      → k ≤ n
      → Reached k s
      → pause (tallied net) k s ≡ (none, s1)
      → run s1 ≡ p
      → GoesOn left k s
      → Accounted (elim p.0 as (λ _. Result A × Tallied net) [
        | ok a ↦ (ok a, p.1)
        | err e ↦ elim (is_retryable c e) as (λ _. Result A × Tallied net) [
          | true ↦ attempts (tallied net) c run left (suc k) e p.1
          | false ↦ (err e, p.1)
        ]
      ])
  after_run left k s s1 (ok a, s2) i r w h go =
      (k, record { within = i; before = s; waited = s1; reached = r; wait_over = w; ran = h })
  after_run left k s s1 (err e, s2) i r w h go = elim (Bool-cases (is_retryable c e)) [
    | inl t ↦ rw t (go e s1 s2 w h t)
    | inr t ↦ rw t (
        refused k e
          (record { within = i; before = s; waited = s1; reached = r; wait_over = w; ran = h }) t)
  ]

  after_pause :
      (left k : ℕ) (s : Tallied net) (p : Option CtxError × Tallied net)
      → k ≤ n
      → Reached k s
      → pause (tallied net) k s ≡ p
      → GoesOn left k s
      → Accounted (elim p.0 as (λ _. Result A × Tallied net) [
        | some e ↦ (err (ctx_err e), p.1)
        | none ↦
            let (r, s2) = run p.1 in
            elim r as (λ _. Result A × Tallied net) [
              | ok a ↦ (ok a, s2)
              | err e ↦ elim (is_retryable c e) as (λ _. Result A × Tallied net) [
                | true ↦ attempts (tallied net) c run left (suc k) e s2
                | false ↦ (err e, s2)
              ]
            ]
      ])
  after_pause left k s (some x, s1) i r w go = interrupted k s x i r w
  after_pause left k s (none, s1) i r w go = after_run left k s s1 (run s1) i r w refl go

  attempt-Accounted :
      (left k : ℕ) (last : Error) (s : Tallied net)
      → k ≤ n
      → Reached k s
      → GoesOn left k s
      → Accounted (attempts (tallied net) c run (suc left) k last s)
  unfolding attempts
  attempt-Accounted left k last s i r go =
      after_pause left k s (pause (tallied net) k s) i r refl go

  module _
      (one : (s s2 : Tallied net) (e : Error)
        → run s ≡ (err e, s2)
        → is_retryable c e ≡ true
        → (s2.0.sends ≡ s.0.sends + 1) × (s2.0.waits ≡ s.0.waits)) where
    Reached-tally :
        (k : ℕ) (s : Tallied net)
        → Reached k s
        → (s.0.sends ≡ s0.0.sends + k) × (s.0.waits ≡ s0.0.waits + (k - 1))
    Reached-tally k s begun = (omega arith, omega arith)
    Reached-tally k s (retried j s1 s2 s3 e r w h t) =
        let (a, b) = Reached-tally j s1 r in
        let (x, y) = pause_tally net j s1 s2 w in
        let (u, v) = one s2 s3 e h t in (omega arith, omega arith)

    attempts-Accounted :
        (left k : ℕ) (last : Error) (s s1 s2 : Tallied net)
        → Reached k s
        → pause (tallied net) k s ≡ (none, s1)
        → run s1 ≡ (err last, s2)
        → is_retryable c last ≡ true
        → k + left ≡ n
        → Accounted (attempts (tallied net) c run left (suc k) last s2)
    unfolding attempts
    attempts-Accounted zero k last s s1 s2 r w h t i =
        let (a, b) = Reached-tally (suc k) s2 (retried k s s1 s2 last r w h t) in
        exhausted k last (omega arith)
          (record {
            within = omega arith;
            before = s;
            waited = s1;
            reached = r;
            wait_over = w;
            ran = h;
          })
          t (omega arith) (omega arith)
    attempts-Accounted (suc left) k last s s1 s2 r w h t i =
        let r2 = retried k s s1 s2 last r w h t in
        attempt-Accounted left (suc k) last s2 (omega arith) r2
          (λ e s3 s4 w2 h2 t2. attempts-Accounted left (suc k) e s2 s3 s4 r2 w2 h2 t2 (omega arith))

module _ {A : Type 0} (net : Net) (c : Client) (method path : String) (d : Decoder A) where
  -- With MaxRetries = n, whatever the network does, every attempt before the last, after its wait,
  -- failed with an error that is retried; and a success is the answer of the last attempt, and a
  -- failure is that of a context that was done during the wait before it, or that of a last attempt
  -- whose error is not retried, or it is the wrapped error of the attempt n, which is one to be
  -- retried, and then exactly n + 1 requests were sent and n waits begun. A RequestError never comes
  -- out bare, so `err.(*RequestError)` never holds of what doRequest returns.
  pub do_request-Accounted :
      (body : Option (Result String)) (n : ℕ) (s : Tallied net)
      → c.retry_config.max_retries ≡ pos n
      → Accounted net c
          (execute_request (tallied net) c method path body d)
          n
          s
          (do_request (tallied net) c method path body d s)
        × ((op : String) (cause : Error)
            → (do_request (tallied net) c method path body d s).0 ≢ err (request_error op cause))
  unfolding do_request
  do_request-Accounted body n s m =
      let run : Tallied net → Result A × Tallied net =
        execute_request (tallied net) c method path body d in
      let loop : Accounted net c run n s (attempts (tallied net) c run (suc n) 0 (plain "nil") s) =
        attempt-Accounted net c run n s n 0 (plain "nil") s (omega arith) begun (λ e s1 s2 w h t.
          attempts-Accounted net c run n s (execute_request_tally net c method path d body) n 0 e s
            s1 s2 begun w h t (omega arith)) in
      (
        subst
            (λ r.
              Accounted net c run n s
                (attempts (tallied net) c run (attempt_count r) 0 (plain "nil") s))
            (sym m) loop,
        do_request-ne-request_error (tallied net) c method path body d s,
      )
