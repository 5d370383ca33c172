-- ===== src/Examples/Tasks.antt =====
-- internal/agent/agent.go
use castle_ops_client.Prelude.{◌*◌, refl, [], ◌∷◌, map, filter}
use castle_ops_client.Prelude.Assoc.{values}
use castle_ops_client.Cache.Memory.{MemoryCache, day, get_metrics}
use castle_ops_client.Cache.Interface.{memory_cache}
use castle_ops_client.Config.{validate, new_default}
use castle_ops_client.Config.Validation.{validate-IsValid}
use castle_ops_client.Api.Queue.{snapshot, is_unsynced}
use castle_ops_client.Agent.Tasks.{Agent, upload_agent_metrics}
use castle_ops_client.Agent.Tasks.Uploads.{Ends, upload_agent_metrics-Ends}
use castle_ops_client.Examples.Samples.{flaky_net, codecs, sample_client, sample_metrics}
use castle_ops_client.Examples.Settings.{defaults}

abbrev agent : Agent MemoryCache
agent = record {
  config = defaults;
  api_client = sample_client;
  cache = record {
    commands = [];
    metrics = sample_metrics day ∷ sample_metrics (2 * day) ∷ [];
    retention_days = 7;
    last_cleanup = 0;
    next_id = 2;
  };
}

upload_agent_metrics-Ends_example :
    Ends flaky_net codecs sample_client 2
      (map snapshot (filter is_unsynced (sample_metrics day ∷ sample_metrics (2 * day) ∷ [])))
      (upload_agent_metrics flaky_net codecs (memory_cache values) (2 * day) agent 2)
upload_agent_metrics-Ends_example =
    upload_agent_metrics-Ends flaky_net codecs (memory_cache values) (2 * day) agent 2
      (sample_metrics day ∷ sample_metrics (2 * day) ∷ [])
      ((validate-IsValid defaults).0 (unfold validate new_default in refl))
      (unfold get_metrics in refl)
