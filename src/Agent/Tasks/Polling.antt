-- ===== src/Agent/Tasks/Polling.antt =====
-- What becomes of the commands that pollCommands of internal/agent/agent.go puts into the cache.
use castle_ops_client.Prelude.{◌≡◌, refl, List, [], ◌∷◌, ◌++◌, Error, err, arith}
use castle_ops_client.Cache.Types.{Time}
use castle_ops_client.Cache.Types
use castle_ops_client.Api.Models.{Command}
use castle_ops_client.Api.Commands.{Texts, from_cache, restored}
use castle_ops_client.Agent.Tasks.{polled}

-- If the empty text is no JSON, then ProcessPendingCommands passes over every command that was polled:
-- the commands restored are those that are restored without it.
pub restored-polled :
    (texts : Texts) (now : Time) (cmd : Command) (e : Error) (before after : List Types.Command)
    → texts.unmarshal "" ≡ err e
    → restored texts (before ++ polled now cmd ∷ after) ≡ restored texts (before ++ after)
unfolding restored from_cache polled
restored-polled texts now cmd e [] after h = rw (restored, from_cache, h) refl
restored-polled texts now cmd e (c ∷ cs) after h =
    ground (arith, restored-polled texts now cmd e cs after h)
