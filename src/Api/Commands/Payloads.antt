-- ===== src/Api/Commands/Payloads.antt =====
-- internal/api/commands.go: the helpers that make an executor of a function on a payload. They are the
-- same code at six types of payload; how the payload is read from its JSON is a parameter.
use castle_ops_client.Prelude.{
  String, ◌≡◌, refl, ap, ◌∙◌, str_eq, eq_iff, if-true, Option, none, some, List, Error, wrapped,
  Result, ok, err,
}
use castle_ops_client.Prelude.Int.{ℤ, pos}
use castle_ops_client.Prelude.Assoc.{Assoc}
use castle_ops_client.Cache.Types.{Time}
use castle_ops_client.Api.Models.{Value, Command, command_status_success, command_status_failed}
use castle_ops_client.Api.Commands.{
  CommandResult, Executor, Texts, Handler, register_executor, run_command, deadline, answer_result,
  timed,
}
use castle_ops_client.Api.Commands.Results.{run_command-register_executor}

pub record QueryMetricsPayload : Type 0 where
  pub metric_types : List String
  pub start_time : Option Time
  pub end_time : Option Time

pub record UpdateConfigPayload : Type 0 where
  pub heartbeat_interval : Option ℤ
  pub metrics_interval : Option ℤ
  pub log_level : Option String

pub record ExecuteScriptPayload : Type 0 where
  pub script : String
  pub interpreter : String
  pub working_directory : String
  pub environment : Assoc String

-- A function on payloads: its output, beside its error.
abbrev pub PayloadFunction : Type 0 → Type 0 → Type 0
PayloadFunction W P = P → W → (String × Option Error) × W

abbrev unmarshaled : {P : Type 0} → Result P → Result P
unmarshaled (err e) = err (wrapped "failed to unmarshal payload" e)
unmarshaled (ok p) = ok p

abbrev read_text : {P : Type 0} → (String → Result P) → Result String → Result P
read_text read (err e) = err (wrapped "failed to marshal payload" e)
read_text read (ok text) = unmarshaled (read text)

module _ (texts : Texts) where
  -- Re-marshal and unmarshal.
  unfoldable pub parse_command_payload : {P : Type 0} → (String → Result P) → Value → Result P
  parse_command_payload read payload = read_text read (texts.marshal payload)

  abbrev pub output_result : String × Option Error → CommandResult
  output_result (output, none) = record {
    status = command_status_success;
    output = output;
    error = "";
    execution_time = pos 0;
  }
  output_result (output, some e) = record {
    status = command_status_failed;
    output = output;
    error = texts.message e;
    execution_time = pos 0;
  }

module _ {W : Type 0} (texts : Texts) where
  abbrev reported : (String × Option Error) × W → Result (Option CommandResult) × W
  reported (x, w) = (ok (some (output_result texts x)), w)

  abbrev executed :
      {P : Type 0} → PayloadFunction W P → Result P → W → Result (Option CommandResult) × W
  executed run (err e) w = (err e, w)
  executed run (ok p) w = reported (run p w)

  unfoldable pub payload_executor :
      {P : Type 0} → (String → Result P) → PayloadFunction W P → Executor W
  unfolding parse_command_payload
  payload_executor read run timeout payload w =
      executed run (parse_command_payload texts read payload) w

  abbrev pub query_metrics_executor :
      (String → Result QueryMetricsPayload) → PayloadFunction W QueryMetricsPayload → Executor W
  unfolding payload_executor
  query_metrics_executor read run = payload_executor read run

  abbrev pub update_config_executor :
      (String → Result UpdateConfigPayload) → PayloadFunction W UpdateConfigPayload → Executor W
  unfolding payload_executor
  update_config_executor read run = payload_executor read run

  abbrev pub execute_script_executor :
      (String → Result ExecuteScriptPayload) → PayloadFunction W ExecuteScriptPayload → Executor W
  unfolding payload_executor
  execute_script_executor read run = payload_executor read run

  abbrev finishes : ℤ → ℤ → Result (Option CommandResult) × W → CommandResult × W
  finishes elapsed late (answer, w') = (timed late (answer_result texts elapsed answer), w')

  -- What the handler reports where the payload was read: the function's output, whatever became of
  -- it, and its error.
  abbrev pub outcome : ℤ → (String × Option Error) × W → CommandResult × W
  outcome late (x, w) = (timed late (output_result texts x), w)

  module _ {S P : Type 0} (elapsed late : ℤ) (cmd : Command) (h : Handler W S) (w : W) where
    -- If a command's payload is read, then the handler runs the function that was registered last
    -- for the command's type on this payload once, and reports its output and its error.
    pub run_command-payload_executor :
        (read : String → Result P) (run : PayloadFunction W P) (p : P)
        → parse_command_payload texts read cmd.payload ≡ ok p
        → run_command texts elapsed late cmd
            (register_executor cmd.type (payload_executor read run) h)
            w
          ≡ outcome late (run p w)
    unfolding payload_executor
    run_command-payload_executor read run p k =
        run_command-register_executor texts elapsed late cmd.type (payload_executor read run) cmd h
          w
        ∙ (if-true
              (λ x.
                x ≡ finishes elapsed late (payload_executor read run (deadline cmd) cmd.payload w))
              (str_eq cmd.type cmd.type) _ _ ((eq_iff cmd.type cmd.type).1 refl) refl
            ∙ ap (λ r. finishes elapsed late (executed run r w)) k)
