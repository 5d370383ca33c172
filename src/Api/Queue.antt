-- ===== src/Api/Queue.antt =====
-- internal/api/queue.go: the queue that uploads the cached metrics. A method that starts
-- `go q.uploadPendingMetrics()` returns `true` for it, and the upload is a step of its own. Its
-- ticker and its shutdown are not modelled: they only call these methods.
pub mod Connectivity
pub mod Flush
use castle_ops_client.Prelude.{
  ℕ, zero, suc, ◌+◌, ◌-◌, ◌*◌, String, Bool, true, false, not, ◌&&◌, Option, none, some, List, [],
  ◌∷◌, map, length, filter, if◌then◌else◌, Error, plain, wrapped, request_error, api_error,
  canceled, deadline_exceeded, Result, ok, err,
}
use castle_ops_client.Prelude.Int.{ℤ, pos, positive, eqb_ℤ}
use castle_ops_client.Cache.Types.{Time, Metrics}
use castle_ops_client.Cache.Memory.{day}
use castle_ops_client.Cache.Interface.{Cache}
use castle_ops_client.Api.Models.{
  MetricSnapshot, MetricsUploadRequest, MetricsUploadResponse, CommandsResponse,
}
use castle_ops_client.Api.Client.{Client}
use castle_ops_client.Api.Http.{Net}
use castle_ops_client.Api.Methods.{Codecs, upload_metrics, get_commands}
use castle_ops_client.Api.Batches.{batches}

pub record RequestQueue (S : Type 0) : Type 0 where
  pub cache : S
  pub client : Client
  pub is_online : Bool
  pub max_queue_size : ℤ
  pub retry_interval : ℤ

pub record RequestQueueConfig (S : Type 0) : Type 0 where
  pub cache : S
  pub client : Client
  pub max_queue_size : ℤ
  pub retry_interval : ℤ
  pub max_retries : ℤ

-- `max_retries` is defaulted too, and then used by nothing.
unfoldable pub new_request_queue : {S : Type 0} → RequestQueueConfig S → RequestQueue S
new_request_queue config = record {
  cache = config.cache;
  client = config.client;
  is_online = true;
  max_queue_size = if positive config.max_queue_size then config.max_queue_size else pos 1000;
  retry_interval =
      if eqb_ℤ config.retry_interval (pos 0) then pos 30_000_000_000 else config.retry_interval;
}

-- `body` is the encoding of the body, `none` for a nil body. Nothing is stored.
unfoldable pub enqueue :
    {S : Type 0} → Option (Result String) → RequestQueue S → Result (Unit {0}) × RequestQueue S
enqueue none q = (ok tt, q)
enqueue (some (ok text)) q = (ok tt, q)
enqueue (some (err e)) q = (err (wrapped "failed to serialize request body" e), q)

-- The flag: an upload is started.
unfoldable pub set_online : {S : Type 0} → Bool → RequestQueue S → RequestQueue S × Bool
set_online online q = (record q { is_online = online }, not q.is_online && online)

abbrev pub snapshot : Metrics → MetricSnapshot
snapshot m = record {
  timestamp = m.timestamp;
  cpu_usage_percent = m.cpu_usage_percent;
  memory_total = m.memory_total;
  memory_used = m.memory_used;
  memory_available = m.memory_available;
  memory_usage_percent = m.memory_usage_percent;
  disk_total_bytes = m.disk_total_bytes;
  disk_used_bytes = m.disk_used_bytes;
  disk_free_bytes = m.disk_free_bytes;
  disk_usage_percent = m.disk_usage_percent;
  network_bytes_received = m.network_bytes_received;
  network_bytes_sent = m.network_bytes_sent;
}

abbrev pub upload_request : List Metrics → MetricsUploadRequest
upload_request batch = record { metrics = map snapshot batch; count = length (map snapshot batch) }

-- err.(*RequestError)
abbrev pub is_request_error : Error → Bool
is_request_error (request_error op e) = true
is_request_error (plain s) = false
is_request_error (wrapped s e) = false
is_request_error (api_error code message kind) = false
is_request_error canceled = false
is_request_error deadline_exceeded = false

abbrev pub is_unsynced : Metrics → Bool
is_unsynced m = not m.synced

abbrev pub batch_size : ℕ
batch_size = 100

abbrev pub week : ℕ
week = 7 * day

module _ (net : Net) (codecs : Codecs) where
  abbrev after_upload :
      {S : Type 0}
      → RequestQueue S
      → Result MetricsUploadResponse
      → Result (Unit {0}) × RequestQueue S
  after_upload q (ok resp) = (ok tt, q)
  after_upload q (err e) = (err e, if is_request_error e then (set_online false q).0 else q)

  unfoldable pub upload_metrics_batch :
      {S : Type 0}
      → List Metrics
      → RequestQueue S
      → net.World
      → Result (Unit {0}) × RequestQueue S × net.World
  unfolding upload_metrics set_online
  upload_metrics_batch batch q w =
      let (r, w') = upload_metrics net codecs (upload_request batch) q.client w in
      let (result, q') = after_upload q r in (result, q', w')

  -- A batch that fails is logged, and the loop goes on; one that succeeds is not marked as synced.
  unfoldable pub upload_batches :
      {S : Type 0} → List (List Metrics) → RequestQueue S → net.World → RequestQueue S × net.World
  unfolding upload_metrics_batch
  upload_batches [] q w = (q, w)
  upload_batches (b ∷ bs) q w =
      let (result, q', w') = upload_metrics_batch b q w in upload_batches bs q' w'

  abbrev ping_error : Error → Result (Unit {0})
  ping_error e = if is_request_error e then err (plain "health check failed: offline") else ok tt

  -- After a ping: the result, the queue, and whether an upload is started.
  abbrev after_ping :
      {S : Type 0}
      → RequestQueue S
      → Result CommandsResponse
      → Result (Unit {0}) × RequestQueue S × Bool
  after_ping q (ok resp) = (ok tt, (set_online true q).0, (set_online true q).1)
  after_ping q (err e) =
      let online = not (is_request_error e) in
      (ping_error e, (set_online online q).0, (set_online online q).1)

  unfoldable pub health_check :
      {S : Type 0}
      → RequestQueue S
      → net.World
      → Result (Unit {0}) × RequestQueue S × Bool × net.World
  unfolding get_commands set_online
  health_check q w =
      let (r, w') = get_commands net codecs q.client w in
      let (result, q', starts) = after_ping q r in (result, q', starts, w')

module _ (cache : Cache) where
  abbrev after_store :
      (q : RequestQueue cache.State)
      → Result (Unit {0}) × cache.State
      → Result (Unit {0}) × RequestQueue cache.State × Bool
  after_store q (ok u, s) = (ok tt, record q { cache = s }, q.is_online)
  after_store q (err e, s) =
      (err (wrapped "failed to queue metrics" e), record q { cache = s }, false)

  unfoldable pub enqueue_metrics :
      Time
      → Metrics
      → RequestQueue cache.State
      → Result (Unit {0}) × RequestQueue cache.State × Bool
  enqueue_metrics now m q = after_store q (cache.store_metrics now m q.cache)

  unfoldable pub get_queue_size : Time → RequestQueue cache.State → ℕ
  get_queue_size now q = elim (cache.get_metrics (now - week) now q.cache) [
    | ok l ↦ length (filter is_unsynced l)
    | err e ↦ 0
  ]

module _ (net : Net) (codecs : Codecs) (cache : Cache) where
  unfoldable pub upload_pending_metrics :
      Time → RequestQueue cache.State → net.World → RequestQueue cache.State × net.World
  unfolding upload_batches batches
  upload_pending_metrics now q w = elim (cache.get_metrics (now - week) now q.cache) [
    | ok l ↦ upload_batches net codecs (batches batch_size (filter is_unsynced l)) q w
    | err e ↦ (q, w)
  ]

  -- `sent < 0` becomes 0, as it does for `-` on the natural numbers.
  unfoldable pub flush :
      (before during after : Time)
      → RequestQueue cache.State
      → net.World
      → Result ℕ × RequestQueue cache.State × net.World
  unfolding get_queue_size upload_pending_metrics
  flush before during after q w =
      if q.is_online
      then (let (q', w') = upload_pending_metrics during q w in
          (ok (get_queue_size cache before q - get_queue_size cache after q'), q', w'))
      else (err (plain "cannot flush while offline"), q, w)
