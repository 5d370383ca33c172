-- ===== src/Agent/Tasks.antt =====
-- internal/agent/agent.go: what the agent's workers do on their ticks: uploading the metrics and
-- polling for commands. Logging is left out; the time limits belong to the network.
pub mod Polling
pub mod Uploads
use castle_ops_client.Prelude.{
  ◌-◌, List, [], ◌∷◌, map, length, filter, not, Bool, wrapped, Result, ok, err, ◌==◌, if◌then◌else◌,
}
use castle_ops_client.Prelude.Int.{pos, pos_part, eqb_ℤ}
use castle_ops_client.Cache.Types.{Time, Metrics, status_pending}
use castle_ops_client.Cache.Types
use castle_ops_client.Cache.Memory.{day}
use castle_ops_client.Cache.Interface.{Cache}
use castle_ops_client.Config.{Config}
use castle_ops_client.Api.Models.{Command, CommandsResponse, MetricSnapshot}
use castle_ops_client.Api.Client.{Client}
use castle_ops_client.Api.Http.{Net}
use castle_ops_client.Api.Methods.{Codecs, upload_metrics, get_commands}
use castle_ops_client.Api.Queue.{snapshot, is_unsynced}
use castle_ops_client.Api.Batches.{batches}

-- The part of Agent that these tasks read.
pub record Agent (S : Type 0) : Type 0 where
  pub config : Config
  pub api_client : Client
  pub cache : S

-- A command as it goes into the cache: without its payload, its priority and its timeout.
unfoldable pub polled : Time → Command → Types.Command
polled now cmd = record {
  id = 0;
  command_id = cmd.command_id;
  type = cmd.type;
  payload = "";
  status = status_pending;
  result = "";
  created_at = now;
  completed_at = 0;
}

-- A command that cannot be stored is logged, and the loop goes on.
unfoldable pub store_polled : (cache : Cache) → Time → List Command → cache.State → cache.State
unfolding polled
store_polled cache now [] s = s
store_polled cache now (cmd ∷ cmds) s =
    let (r, s') = cache.store_command (polled now cmd) s in store_polled cache now cmds s'

module _ (net : Net) (codecs : Codecs) where
  -- The loop of uploadMetrics: it ends with the first batch that fails.
  unfoldable pub upload_loop :
      List (List MetricSnapshot) → Client → net.World → Result (Unit {0}) × net.World
  unfolding upload_metrics
  upload_loop [] c w = (ok tt, w)
  upload_loop (b ∷ bs) c w =
      let (r, w') = upload_metrics net codecs (record { metrics = b; count = length b }) c w in
      elim r [ ok resp ↦ upload_loop bs c w' | err e ↦ (err e, w') ]

  module _ (cache : Cache) where
    -- For a batch size that is positive, as the validation of the configuration asks; the loop in
    -- the code would not end for 0.
    unfoldable pub upload_agent_metrics :
        Time → Agent cache.State → net.World → Result (Unit {0}) × net.World
    unfolding upload_loop batches
    upload_agent_metrics now a w = elim (cache.get_metrics (now - day) now a.cache) [
      | err e ↦ (err (wrapped "failed to get metrics from cache" e), w)
      | ok l ↦
          upload_loop
            (batches (pos_part a.config.metrics.batch_size) (map snapshot (filter is_unsynced l)))
            a.api_client w
    ]

    abbrev after_poll :
        Time → Agent cache.State → Result CommandsResponse → Result (Unit {0}) × Agent cache.State
    after_poll now a (err e) = (err (wrapped "failed to get commands" e), a)
    after_poll now a (ok resp) =
        if eqb_ℤ resp.count (pos 0)
        then (ok tt, a)
        else (ok tt, record a { cache = store_polled cache now resp.commands a.cache })

    unfoldable pub poll_commands :
        Time → Agent cache.State → net.World → Result (Unit {0}) × Agent cache.State × net.World
    unfolding get_commands store_polled
    poll_commands now a w =
        let (r, w') = get_commands net codecs a.api_client w in
        let (result, a') = after_poll now a r in (result, a', w')
