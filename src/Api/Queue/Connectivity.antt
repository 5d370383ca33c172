-- ===== src/Api/Queue/Connectivity.antt =====
-- What the queue learns about the connection. Its methods look for a bare *RequestError, and the
-- client wraps one once its retries are used up.
use castle_ops_client.Prelude.{
  String, ◌≡◌, ◌≢◌, refl, true, false, List, [], ◌∷◌, Error, plain, wrapped, request_error,
  api_error, canceled, deadline_exceeded, Result, ok, err, inl, inr, filter, ◌-◌, ◌∙◌, Result-cases,
  none, some,
}
use castle_ops_client.Cache.Types.{Time, Metrics}
use castle_ops_client.Cache.Interface.{Cache}
use castle_ops_client.Api.Models.{MetricsUploadResponse, CommandsResponse}
use castle_ops_client.Api.Batches.{batches}
use castle_ops_client.Api.Http.{Net}
use castle_ops_client.Api.Methods.{Codecs, upload_metrics, get_commands}
use castle_ops_client.Api.Methods.Credentials.{registered_request-ne-request_error}
use castle_ops_client.Api.Queue.{
  RequestQueue, set_online, after_upload, after_ping, batch_size, week, is_unsynced,
  is_request_error, upload_metrics_batch, upload_batches, upload_pending_metrics, health_check,
  upload_request,
}

-- `e` is no *RequestError, said of the results that hold it.
not_request_error :
    (A : Type 0) (e : Error)
    → ((op : String) (cause : Error) → ◌≢◌ {A = Result A} (err e) (err (request_error op cause)))
    → is_request_error e ≡ false
not_request_error A (request_error op e) h = absurd (h op e refl)
not_request_error A (plain s) h = refl
not_request_error A (wrapped s e) h = refl
not_request_error A (api_error code message kind) h = refl
not_request_error A canceled h = refl
not_request_error A deadline_exceeded h = refl

module _ (net : Net) (codecs : Codecs) {S : Type 0} where
  after_upload_keeps :
      (q : RequestQueue S) (r : Result MetricsUploadResponse)
      → ((op : String) (cause : Error) → r ≢ err (request_error op cause))
      → (after_upload net codecs q r).1 ≡ q
  after_upload_keeps q (ok resp) h = refl
  after_upload_keeps q (err e) h = rw (not_request_error MetricsUploadResponse e h) refl

  after_ping_online :
      (q : RequestQueue S) (r : Result CommandsResponse)
      → ((op : String) (cause : Error) → r ≢ err (request_error op cause))
      → ((after_ping net codecs q r).0 ≡ ok tt)
        × ((after_ping net codecs q r).1 ≡ record q { is_online = true })
  unfolding set_online
  after_ping_online q (ok resp) h = (refl, refl)
  after_ping_online q (err e) h = rw (not_request_error CommandsResponse e h) (refl, refl)

  upload_metrics_batch_keeps :
      (batch : List Metrics) (q : RequestQueue S) (w : net.World)
      → (upload_metrics_batch net codecs batch q w).1 ≡ q
  unfolding upload_metrics_batch
  upload_metrics_batch_keeps batch q w =
      after_upload_keeps q (upload_metrics net codecs (upload_request batch) q.client w).0 (
        registered_request-ne-request_error net codecs q.client "POST" "/metrics"
          (some (codecs.encode_upload (upload_request batch))) codecs.upload_response w)

  upload_batches_keeps :
      (bs : List (List Metrics)) (q : RequestQueue S) (w : net.World)
      → (upload_batches net codecs bs q w).0 ≡ q
  unfolding upload_batches
  upload_batches_keeps [] q w = refl
  upload_batches_keeps (b ∷ bs) q w =
      let (result, q', w') = upload_metrics_batch net codecs b q w in
      upload_batches_keeps bs q' w' ∙ upload_metrics_batch_keeps b q w

  -- The health check succeeds and takes the client to be online, whatever the network does: also
  -- when no server can be reached. Nothing else in the queue changes.
  pub health_check_online :
      (q : RequestQueue S) (w : net.World)
      → ((health_check net codecs q w).0 ≡ ok tt)
        × ((health_check net codecs q w).1 ≡ record q { is_online = true })
  unfolding health_check
  health_check_online q w = after_ping_online q (get_commands net codecs q.client w).0 (
      registered_request-ne-request_error net codecs q.client "GET" "/commands" none
        codecs.commands_response w)

module _ (net : Net) (codecs : Codecs) (cache : Cache) where
  -- An upload of the pending metrics leaves the queue as it was, whatever the network does: it is not
  -- marked offline when the server cannot be reached, and no metric is marked as synced.
  pub upload_pending_metrics_keeps :
      (now : Time) (q : RequestQueue cache.State) (w : net.World)
      → (upload_pending_metrics net codecs cache now q w).0 ≡ q
  unfolding upload_pending_metrics
  upload_pending_metrics_keeps now q w =
      elim (Result-cases (cache.get_metrics (now - week) now q.cache)) [
        | inl (l, e) ↦
            rw (e, upload_pending_metrics)
              (upload_batches_keeps net codecs (batches batch_size (filter is_unsynced l)) q w)
        | inr (e, h) ↦ rw (h, upload_pending_metrics) refl
      ]
