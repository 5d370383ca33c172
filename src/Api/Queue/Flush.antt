-- ===== src/Api/Queue/Flush.antt =====
-- What Flush reports, and what an upload sends.
use castle_ops_client.Prelude.{◌-◌, ◌≡◌, ap, ◌∙◌, true, arith, ok}
use castle_ops_client.Cache.Types.{Time}
use castle_ops_client.Cache.Interface.{Cache}
use castle_ops_client.Api.Http.{Net}
use castle_ops_client.Api.Methods.{Codecs}
use castle_ops_client.Api.Queue.{RequestQueue, flush, get_queue_size}
use castle_ops_client.Api.Queue.Connectivity.{upload_pending_metrics_keeps}

module _ (net : Net) (codecs : Codecs) (cache : Cache) where
  -- Flush counts as sent what the passing of time took out of the seven-day window, since an upload
  -- marks nothing as synced: the count does not depend on the network or on what was uploaded.
  pub flush_lem :
      (before during after : Time) (q : RequestQueue cache.State) (w : net.World)
      → q.is_online ≡ true
      → (flush net codecs cache before during after q w).0
        ≡ ok (get_queue_size cache before q - get_queue_size cache after q)
  unfolding flush
  flush_lem before during after q w h =
      ground (arith, upload_pending_metrics_keeps net codecs cache during q w)

  -- Within one clock reading it reports 0 sent requests, however many were uploaded.
  pub flush_nothing :
      (before during : Time) (q : RequestQueue cache.State) (w : net.World)
      → q.is_online ≡ true
      → (flush net codecs cache before during before q w).0 ≡ ok 0
  flush_nothing before during q w h = flush_lem before during before q w h ∙ ap ok (omega arith)
