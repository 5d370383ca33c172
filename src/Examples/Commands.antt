-- ===== src/Examples/Commands.antt =====
-- internal/api/commands.go
use castle_ops_client.Prelude.{
  ◌≤◌, ◌≡◌, refl, ok, false, [], ◌∷◌, ◌++◌, Perm, arith, filter, length,
}
use castle_ops_client.Prelude.Assoc.{values}
use castle_ops_client.Prelude.Int.{pos}
use castle_ops_client.Cache.Memory.{MemoryCache, get_pending_commands}
use castle_ops_client.Cache.Memory.Commands.{is_other_pending}
use castle_ops_client.Cache.Interface.{memory_cache}
use castle_ops_client.Api.Pool.{Pool, start_execution, Run, here, started, moved, acquire}
use castle_ops_client.Api.Pool.Bounds.{commands_of, Run-bounded, Run-perm}
use castle_ops_client.Api.Commands.{Handler, restored, handle_command, execute_command}
use castle_ops_client.Api.Commands.Recovery.{
  without_limits, restored-handle_command, pending-execute_command,
}
use castle_ops_client.Examples.Samples.{
  dead_net, codecs, texts, sample_client, sample_command, sample_api_command,
}
use mathlib.Core.List.Perm

abbrev one_pending : MemoryCache
one_pending = record {
  commands = ("a", sample_command "a" 1 "pending") ∷ [];
  metrics = [];
  retention_days = 7;
  last_cleanup = 0;
  next_id = 1;
}

abbrev idle : Handler (Unit {0}) MemoryCache
idle = record {
  client = sample_client;
  cache = one_pending;
  executors = [];
  pool = record {
    capacity = 1;
    waiting = [];
    running = [];
    finished = [];
    dropped = [];
    stopped = false;
  };
}

restored-handle_command_example :
    ((handle_command texts (memory_cache values) 5 sample_api_command idle).0 ≡ ok tt)
    × Perm
        (restored texts (
          get_pending_commands values
            (handle_command texts (memory_cache values) 5 sample_api_command idle).1.cache))
        (without_limits sample_api_command
          ∷ restored texts (
              filter
                (is_other_pending sample_api_command.command_id)
                (values one_pending.commands)))
restored-handle_command_example =
    restored-handle_command texts values 5 sample_api_command "null" idle
      (λ m. Perm.refl (values m)) (refl, tt, tt) refl refl

pending-execute_command_example :
    Perm
      (get_pending_commands values
        (execute_command dead_net codecs texts
          (memory_cache values)
          (pos 1)
          (pos 1)
          9
          sample_api_command
          idle
          tt).0.cache)
      (filter (is_other_pending "a") (values one_pending.commands))
pending-execute_command_example =
    pending-execute_command dead_net codecs texts values (pos 1) (pos 1) 9 sample_api_command idle
      tt (λ m. Perm.refl (values m)) (refl, tt, tt)

abbrev one_waiting : Pool
one_waiting = record idle.pool { waiting = sample_api_command ∷ [] }

abbrev one_running : Pool
one_running = record idle.pool { running = sample_api_command ∷ [] }

started_and_running : Run idle.pool (sample_api_command ∷ []) one_running
unfolding start_execution
started_and_running =
    moved (started {r = one_waiting} sample_api_command here refl)
      (acquire one_waiting one_running [] [] sample_api_command refl (omega arith) refl)

Run-bounded_example : length one_running.running ≤ 1
Run-bounded_example = Run-bounded (omega arith) started_and_running

Run-perm_example : Perm (commands_of one_running) (sample_api_command ∷ [] ++ commands_of idle.pool)
Run-perm_example = Run-perm started_and_running
