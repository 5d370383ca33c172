-- ===== src/Api/Pool.antt =====
-- internal/api/commands.go: the goroutines of executeCommand and the worker pool, a channel with
-- `capacity` places. Which goroutine moves next is the scheduler's choice, so the steps are a
-- relation.
pub mod Bounds
use castle_ops_client.Prelude.{
  ℕ, ◌<◌, ◌≡◌, Bool, true, false, List, [], ◌∷◌, ◌++◌, length, if◌then◌else◌,
}
use castle_ops_client.Prelude.Int.{ℤ, positive, pos_part}
use castle_ops_client.Api.Models.{Command}

-- `finished` and `dropped` are what the goroutines that have ended held.
pub record Pool : Type 0 where
  pub capacity : ℕ
  pub waiting : List Command
  pub running : List Command
  pub finished : List Command
  pub dropped : List Command
  pub stopped : Bool

unfoldable pub new_pool : ℤ → Pool
new_pool max_concurrent = record {
  capacity = if positive max_concurrent then pos_part max_concurrent else 5;
  waiting = [];
  running = [];
  finished = [];
  dropped = [];
  stopped = false;
}

-- go h.executeCommand(cmd)
unfoldable pub start_execution : Command → Pool → Pool
start_execution cmd p = record p { waiting = p.waiting ++ cmd ∷ [] }

-- What happens to the goroutines that there are: a waiting one gets a place in the channel; a waiting one sees
-- that the handler was stopped; a running one ends and gives its place back; Stop cancels the context.
pub data Step : Pool → Pool → Type 0 where
  acquire :
      (p q : Pool) (before after : List Command) (cmd : Command)
      → p.waiting ≡ before ++ cmd ∷ after
      → length p.running < p.capacity
      → q ≡ record p { waiting = before ++ after; running = cmd ∷ p.running }
      → Step p q
  drop :
      (p q : Pool) (before after : List Command) (cmd : Command)
      → p.waiting ≡ before ++ cmd ∷ after
      → p.stopped ≡ true
      → q ≡ record p { waiting = before ++ after; dropped = cmd ∷ p.dropped }
      → Step p q
  finish :
      (p q : Pool) (before after : List Command) (cmd : Command)
      → p.running ≡ before ++ cmd ∷ after
      → q ≡ record p { running = before ++ after; finished = cmd ∷ p.finished }
      → Step p q
  stop : (p q : Pool) → q ≡ record p { stopped = true } → Step p q

-- The commands that a run of steps started, the latest first.
pub data Run (p : Pool) : List Command → Pool → Type 0 where
  here : Run p [] p
  started :
      {cmds : List Command} {q r : Pool} (cmd : Command)
      → Run p cmds q
      → r ≡ start_execution cmd q
      → Run p (cmd ∷ cmds) r
  moved : {cmds : List Command} {q r : Pool} → Run p cmds q → Step q r → Run p cmds r
