-- ===== src/Agent/Tasks/Uploads.antt =====
-- uploadMetrics of internal/agent/agent.go: what is sent, and where it stops.
use castle_ops_client.Prelude.{
  ◌<◌, ◌-◌, ◌≡◌, refl, sym, ap, subst, ◌∙◌, List, [], ◌∷◌, ◌++◌, map, filter, length, Result, ok,
  err, arith, true,
}
use mathlib.Core.List.{append_assoc}
use castle_ops_client.Prelude.Int.{ℤ, pos, negsuc, positive, pos_part}
use castle_ops_client.Cache.Types.{Time, Metrics}
use castle_ops_client.Cache.Memory.{day}
use castle_ops_client.Cache.Interface.{Cache}
use castle_ops_client.Config.Validation.{IsValid}
use castle_ops_client.Api.Models.{MetricSnapshot, MetricsUploadResponse}
use castle_ops_client.Api.Client.{Client}
use castle_ops_client.Api.Http.{Net}
use castle_ops_client.Api.Methods.{Codecs, upload_metrics}
use castle_ops_client.Api.Queue.{snapshot, is_unsynced}
use castle_ops_client.Api.Batches.{batches, batches_lem, concat}
use castle_ops_client.Agent.Tasks.{Agent, upload_loop, upload_agent_metrics}

module _ (net : Net) (codecs : Codecs) where
  -- A row of uploads that the server takes one after the other.
  pub data Taken (c : Client) : List MetricSnapshot → net.World → net.World → Type 0 where
    taken_none : {w : net.World} → Taken c [] w w
    taken_batch :
        {w w1 w2 : net.World} (b rest : List MetricSnapshot) (resp : MetricsUploadResponse)
        → upload_metrics net codecs (record { metrics = b; count = length b }) c w ≡ (ok resp, w1)
        → Taken c rest w1 w2
        → Taken c (b ++ rest) w w2

  -- Where an upload ends: with everything taken, or with the error of the first batch that fails,
  -- after all that came before it was taken.
  abbrev pub Ends :
      Client → net.World → List MetricSnapshot → Result (Unit {0}) × net.World → Type 0
  Ends c w all (ok u, w') = Taken c all w w'
  Ends c w all (err e, w') =
      (sent b rest : List MetricSnapshot) × (w1 : net.World) × (all ≡ sent ++ (b ++ rest))
      × Taken c sent w w1
      × (upload_metrics net codecs (record { metrics = b; count = length b }) c w1 ≡ (err e, w'))

  Ends-batch :
      (c : Client) (w w1 : net.World) (b rest : List MetricSnapshot) (resp : MetricsUploadResponse)
      (p : Result (Unit {0}) × net.World)
      → upload_metrics net codecs (record { metrics = b; count = length b }) c w ≡ (ok resp, w1)
      → Ends c w1 rest p
      → Ends c w (b ++ rest) p
  Ends-batch c w w1 b rest resp (ok u, w2) h k = taken_batch b rest resp h k
  Ends-batch c w w1 b rest resp (err e, w2) h (sent, last, more, w3, split, taken, fails) = (
    b ++ sent,
    last,
    more,
    w3,
    ap (λ l. b ++ l) split ∙ sym (append_assoc b sent (last ++ more)),
    taken_batch b sent resp h taken,
    fails,
  )

  upload_loop_step :
      (b : List MetricSnapshot) (bs : List (List MetricSnapshot)) (c : Client) (w w1 : net.World)
      (r : Result MetricsUploadResponse)
      → upload_metrics net codecs (record { metrics = b; count = length b }) c w ≡ (r, w1)
      → Ends c w1 (concat bs) (upload_loop net codecs bs c w1)
      → Ends c w (b ++ concat bs) (elim r as (λ _. Result (Unit {0}) × net.World) [
        | ok resp ↦ upload_loop net codecs bs c w1
        | err e ↦ (err e, w1)
      ])
  upload_loop_step b bs c w w1 (ok resp) h k =
      Ends-batch c w w1 b (concat bs) resp (upload_loop net codecs bs c w1) h k
  upload_loop_step b bs c w w1 (err e) h k = ([], b, concat bs, w, refl, taken_none, h)

  upload_loop-Ends :
      (bs : List (List MetricSnapshot)) (c : Client) (w : net.World)
      → Ends c w (concat bs) (upload_loop net codecs bs c w)
  unfolding upload_loop
  upload_loop-Ends [] c w = taken_none
  upload_loop-Ends (b ∷ bs) c w =
      let (r, w1) = upload_metrics net codecs (record { metrics = b; count = length b }) c w in
      upload_loop_step b bs c w w1 r refl (upload_loop-Ends bs c w1)

  positive_part : (n : ℤ) → positive n ≡ true → 0 < pos_part n
  positive_part (pos n) h = ground arith
  positive_part (negsuc n) h = absurd (ground arith)

  module _ (cache : Cache) where
    -- With a valid configuration and a cache that answers, the agent's upload either succeeds, and
    -- then the server has taken all unsynced metrics of the last day, in order and each once, or
    -- returns the error of the first batch that fails, all metrics before it having been taken.
    pub upload_agent_metrics-Ends :
        (now : Time) (a : Agent cache.State) (w : net.World) (l : List Metrics)
        → IsValid a.config
        → cache.get_metrics (now - day) now a.cache ≡ ok l
        → Ends a.api_client w
            (map snapshot (filter is_unsynced l))
            (upload_agent_metrics net codecs cache now a w)
    unfolding upload_agent_metrics
    upload_agent_metrics-Ends now a w l valid h =
        let size = pos_part a.config.metrics.batch_size in
        let all = map snapshot (filter is_unsynced l) in
        let (whole, fit) =
          batches_lem size all (positive_part a.config.metrics.batch_size valid.batch) in
        rw (upload_agent_metrics, h)
          (subst
            (λ x. Ends a.api_client w x (upload_loop net codecs (batches size all) a.api_client w))
            whole (upload_loop-Ends (batches size all) a.api_client w))
