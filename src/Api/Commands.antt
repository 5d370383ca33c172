-- ===== src/Api/Commands.antt =====
-- internal/api/commands.go: the command handler. Api/Pool has the goroutines
-- that run executeCommand, and the steps that the scheduler takes.
pub mod Results
pub mod Payloads
pub mod Recovery
use castle_ops_client.Prelude.{
  ℕ, zero, suc, ◌+◌, String, Bool, true, false, Option, none, some, List, [], ◌∷◌, ◌++◌,
  if◌then◌else◌, Error, wrapped, Result, ok, err,
}
use castle_ops_client.Prelude.Assoc.{Assoc, lookup, insert}
use castle_ops_client.Prelude.Int.{ℤ, pos, positive, pos_part, eqb_ℤ}
use castle_ops_client.Cache.Types.{Time, status_pending}
use castle_ops_client.Cache.Types
use castle_ops_client.Cache.Interface.{Cache}
use castle_ops_client.Api.Models.{
  Value, Command, CommandResultRequest, command_status_success, command_status_failed,
}
use castle_ops_client.Api.Client.{Client}
use castle_ops_client.Api.Http.{Net}
use castle_ops_client.Api.Pool.{Pool, new_pool, start_execution}
use castle_ops_client.Api.Methods.{Codecs, submit_command_result}
use Prim.Native.String.{◌++◌ as str_append}

pub record CommandResult : Type 0 where
  pub status : String
  pub output : String
  pub error : String
  pub execution_time : ℤ

-- An executor is given its timeout in seconds, if there is one, and the payload. A nil result with a
-- nil error is `ok none`.
abbrev pub Executor : Type 0 → Type 0
Executor W = Option ℤ → Value → W → Result (Option CommandResult) × W

-- encoding/json on payloads, and Error() on errors.
pub record Texts : Type 0 where
  pub marshal : Value → Result String
  pub unmarshal : String → Result Value
  pub message : Error → String

pub record Handler (W S : Type 0) : Type 0 where
  pub client : Client
  pub cache : S
  pub executors : Assoc (Executor W)
  pub pool : Pool

unfoldable pub new_command_handler : {W S : Type 0} → Client → S → ℤ → Handler W S
unfolding new_pool
new_command_handler client cache max_concurrent = record {
  client = client;
  cache = cache;
  executors = [];
  pool = new_pool max_concurrent;
}

unfoldable pub register_executor : {W S : Type 0} → String → Executor W → Handler W S → Handler W S
register_executor kind executor h = record h { executors = insert kind executor h.executors }

-- The cached form of a command, with its payload as `text`.
unfoldable pub to_cache : Time → String → Command → Types.Command
to_cache now text cmd = record {
  id = 0;
  command_id = cmd.command_id;
  type = cmd.type;
  payload = text;
  status = status_pending;
  result = "";
  created_at = now;
  completed_at = 0;
}

-- What ProcessPendingCommands makes of a cached command: the priority and the timeout are 0.
unfoldable pub from_cache : Texts → Types.Command → Result Command
from_cache texts c = elim (texts.unmarshal c.payload) [
  | ok payload ↦ ok (record {
    command_id = c.command_id;
    type = c.type;
    payload = payload;
    priority = pos 0;
    timeout = pos 0;
  })
  | err e ↦ err e
]

abbrev pub deadline : Command → Option ℤ
deadline cmd = if positive cmd.timeout then some cmd.timeout else none

abbrev pub failed_result : String → ℤ → CommandResult
failed_result error elapsed = record {
  status = command_status_failed;
  output = "";
  error = error;
  execution_time = elapsed;
}

abbrev pub empty_success : ℤ → CommandResult
empty_success elapsed = record {
  status = command_status_success;
  output = "";
  error = "";
  execution_time = elapsed;
}

-- The result that an executor's answer stands for.
abbrev pub answer_result : Texts → ℤ → Result (Option CommandResult) → CommandResult
answer_result texts elapsed (ok (some result)) = result
answer_result texts elapsed (ok none) = empty_success elapsed
answer_result texts elapsed (err e) = failed_result (texts.message e) elapsed

abbrev pub no_executor : String → String
no_executor kind = str_append "no executor registered for command type: " kind

abbrev pub timed : ℤ → CommandResult → CommandResult
timed late r = if eqb_ℤ r.execution_time (pos 0) then record r { execution_time = late } else r

-- `elapsed` is time.Since at the end of the execution, `late` the later reading for a result that
-- came without a time.
unfoldable pub run_command :
    {W S : Type 0} → Texts → (elapsed late : ℤ) → Command → Handler W S → W → CommandResult × W
run_command texts elapsed late cmd h w = elim (lookup cmd.type h.executors) [
  | none ↦ (timed late (failed_result (no_executor cmd.type) elapsed), w)
  | some executor ↦
      let (answer, w') = executor (deadline cmd) cmd.payload w in
      (timed late (answer_result texts elapsed answer), w')
]

module _ (net : Net) (codecs : Codecs) where
  -- A failed submission is logged and forgotten.
  unfoldable pub submit_result : Time → String → CommandResult → Client → net.World → net.World
  unfolding submit_command_result
  submit_result now command_id r c w =
      (submit_command_result net codecs command_id
        (record {
          command_id = command_id;
          status = r.status;
          output = r.output;
          error = r.error;
          execution_time = r.execution_time;
          completed_at = now;
        })
        c w).1

module _ (net : Net) (codecs : Codecs) (texts : Texts) (cache : Cache) where
  -- The body of executeCommand once it has its slot: run, submit, mark as complete.
  unfoldable pub execute_command :
      (elapsed late : ℤ) (now : Time)
      → Command
      → Handler net.World cache.State
      → net.World
      → Handler net.World cache.State × net.World
  unfolding run_command submit_result
  execute_command elapsed late now cmd h w =
      let (result, w1) = run_command texts elapsed late cmd h w in
      let w2 = submit_result net codecs now cmd.command_id result h.client w1 in
      let (marked, s) = cache.mark_command_complete now cmd.command_id h.cache in
      (record h { cache = s }, w2)

abbrev first_error : Result (Unit {0}) → Result (Unit {0}) → Result (Unit {0})
first_error (ok u) later = later
first_error (err e) later = err e

-- The commands that ProcessPendingCommands starts; one whose payload is no JSON is skipped.
unfoldable pub restored : Texts → List Types.Command → List Command
unfolding from_cache
restored texts [] = []
restored texts (c ∷ cs) = elim (from_cache texts c) [
  | ok cmd ↦ cmd ∷ restored texts cs
  | err e ↦ restored texts cs
]

-- go h.executeCommand(cmd) for each of them
unfoldable pub start_all : List Command → Pool → Pool
unfolding start_execution
start_all [] p = p
start_all (cmd ∷ cmds) p = start_all cmds (start_execution cmd p)

module _ {W : Type 0} (texts : Texts) (cache : Cache) where
  abbrev after_store :
      Command
      → Handler W cache.State
      → Result (Unit {0}) × cache.State
      → Result (Unit {0}) × Handler W cache.State
  after_store cmd h (ok u, s) = (ok tt, record h { cache = s; pool = start_execution cmd h.pool })
  after_store cmd h (err e, s) = (err e, record h { cache = s })

  unfoldable pub handle_command :
      Time → Command → Handler W cache.State → Result (Unit {0}) × Handler W cache.State
  unfolding to_cache start_execution
  handle_command now cmd h = elim (texts.marshal cmd.payload) [
    | err e ↦ (err (wrapped "failed to serialize command payload" e), h)
    | ok text ↦ after_store cmd h (cache.store_command (to_cache now text cmd) h.cache)
  ]

  unfoldable pub handle_commands :
      Time → List Command → Handler W cache.State → Result (Unit {0}) × Handler W cache.State
  unfolding handle_command
  handle_commands now [] h = (ok tt, h)
  handle_commands now (cmd ∷ cmds) h =
      let (r, h1) = handle_command now cmd h in
      let (rest, h2) = handle_commands now cmds h1 in (first_error r rest, h2)

  unfoldable pub process_pending_commands :
      Handler W cache.State → Result (Unit {0}) × Handler W cache.State
  unfolding restored start_all
  process_pending_commands h = elim (cache.get_pending_commands h.cache) [
    | ok cs ↦ (ok tt, record h { pool = start_all (restored texts cs) h.pool })
    | err e ↦ (err (wrapped "failed to get pending commands" e), h)
  ]
