-- ===== src/Api/Commands/Results.antt =====
-- The result that is reported for a command.
use castle_ops_client.Prelude.{
  String, ◌≡◌, ◌≢◌, refl, arith, inl, inr, true, str_eq, if◌then◌else◌, Option-cases, Bool-cases,
}
use castle_ops_client.Prelude.Int.{ℤ, pos, eqb_ℤ}
use castle_ops_client.Prelude.Assoc.{lookup, lookup-insert}
use castle_ops_client.Api.Models.{Command}
use castle_ops_client.Api.Commands.{
  Executor, Texts, Handler, CommandResult, register_executor, run_command, deadline, answer_result,
  timed, no_executor, failed_result,
}

eqb_ℤ_zero : (n : ℤ) → n ≡ pos 0 → eqb_ℤ n (pos 0) ≡ true
eqb_ℤ_zero n h = rw h refl

timed-ne-zero :
    (late : ℤ) (r : CommandResult) → late ≢ pos 0 → (timed late r).execution_time ≢ pos 0
timed-ne-zero late r n = elim (Bool-cases (eqb_ℤ r.execution_time (pos 0))) [
  | inl missing ↦ rw missing n
  | inr given ↦ rw given (λ e. cc (eqb_ℤ_zero r.execution_time e, given))
]

module _ {W S : Type 0} (texts : Texts) (elapsed late : ℤ) where
  -- A command runs with the executor that was registered last for its type, with its own payload and
  -- timeout; another type's registration changes nothing.
  pub run_command-register_executor :
      (kind : String) (executor : Executor W) (cmd : Command) (h : Handler W S) (w : W)
      → run_command texts elapsed late cmd (register_executor kind executor h) w ≡ (
          if str_eq kind cmd.type
          then (let (answer, w') = executor (deadline cmd) cmd.payload w in
              (timed late (answer_result texts elapsed answer), w'))
          else run_command texts elapsed late cmd h w)
  unfolding run_command register_executor
  run_command-register_executor kind executor cmd h w =
      ground (arith, lookup-insert kind cmd.type executor h.executors)

  -- The reported time is 0 only if the clock's last reading is.
  pub run_command_timed :
      (cmd : Command) (h : Handler W S) (w : W)
      → late ≢ pos 0
      → (run_command texts elapsed late cmd h w).0.execution_time ≢ pos 0
  unfolding run_command
  run_command_timed cmd h w n = elim (Option-cases (lookup cmd.type h.executors)) [
    | inl e ↦
        rw (run_command, e) (timed-ne-zero late (failed_result (no_executor cmd.type) elapsed) n)
    | inr (executor, e) ↦
        rw (run_command, e)
          (timed-ne-zero late
            (answer_result texts elapsed (executor (deadline cmd) cmd.payload w).0) n)
  ]
