-- ===== src/Examples/Queues.antt =====
-- internal/api/queue.go
use castle_ops_client.Prelude.{ℕ, ◌-◌, ◌≡◌, ◌*◌, refl, true, List, [], ◌∷◌, arith, All, ok}
use castle_ops_client.Prelude.Assoc.{values}
use castle_ops_client.Prelude.Int.{pos}
use castle_ops_client.Cache.Memory.{MemoryCache, day, get_metrics}
use castle_ops_client.Cache.Interface.{memory_cache}
use castle_ops_client.Api.Batches.{batches, batches_lem, concat, Fits}
use castle_ops_client.Api.Queue.{
  RequestQueue, health_check, upload_pending_metrics, flush, get_queue_size,
}
use castle_ops_client.Api.Queue.Connectivity.{health_check_online, upload_pending_metrics_keeps}
use castle_ops_client.Api.Queue.Flush.{flush_lem}
use castle_ops_client.Api.Priority.{QueuedRequest}
use castle_ops_client.Examples.Samples.{dead_net, flaky_net, codecs, sample_client, sample_metrics}

abbrev full_queue : RequestQueue MemoryCache
full_queue = record {
  cache = record {
    commands = [];
    metrics = sample_metrics day ∷ sample_metrics (2 * day) ∷ [];
    retention_days = 7;
    last_cleanup = 0;
    next_id = 2;
  };
  client = sample_client;
  is_online = true;
  max_queue_size = pos 1000;
  retry_interval = pos 30_000_000_000;
}

-- No server can be reached, and the check reports that all is well.
health_check_online_example :
    ((health_check dead_net codecs full_queue tt).0 ≡ ok tt)
    × ((health_check dead_net codecs full_queue tt).1 ≡ record full_queue { is_online = true })
health_check_online_example = health_check_online dead_net codecs full_queue tt

upload_pending_metrics_keeps_example :
    (upload_pending_metrics dead_net codecs (memory_cache values) (2 * day) full_queue tt).0
    ≡ full_queue
upload_pending_metrics_keeps_example =
    upload_pending_metrics_keeps dead_net codecs (memory_cache values) (2 * day) full_queue tt

flush_lem_example :
    (flush flaky_net codecs (memory_cache values) (2 * day) (2 * day) (2 * day) full_queue 0).0
    ≡ ok (
        get_queue_size (memory_cache values) (2 * day) full_queue
        - get_queue_size (memory_cache values) (2 * day) full_queue)
flush_lem_example =
    flush_lem flaky_net codecs (memory_cache values) (2 * day) (2 * day) (2 * day) full_queue 0 refl

-- Both metrics are unsynced, and stay so after a flush that uploaded them.
two_left : get_queue_size (memory_cache values) (2 * day) full_queue ≡ 2
unfolding get_queue_size get_metrics
two_left = refl

abbrev three : List ℕ
three = 1 ∷ 2 ∷ 3 ∷ []

batches_lem_example : (concat (batches 2 three) ≡ three) × All (Fits 2) (batches 2 three)
batches_lem_example = batches_lem 2 three (omega arith)

abbrev urgent : QueuedRequest
urgent = record {
  id = 1;
  method = "POST";
  path = "/x";
  body = "";
  priority = pos 9;
  created_at = 5;
  attempts = pos 0;
  last_attempt = 0;
  max_retries = pos 5;
}
