-- ===== src/Cache/Statements.antt =====
-- The schema and the statements of internal/cache/sqlite.go: what they do to the two tables.
use castle_ops_client.Prelude.{
  ℕ, ◌+◌, String, Bool, false, not, ◌&&◌, ◌||◌, Option, none, some, List, [], ◌∷◌, ◌++◌, map,
  filter, length, ltb, leb, str_eq, if◌then◌else◌,
}
use castle_ops_client.Cache.Types.{Time, Metrics, status_completed}

-- A row of the table commands: the columns that may be NULL are options.
pub record CommandRow : Type 0 where
  pub id : ℕ
  pub command_id : String
  pub type : String
  pub payload : String
  pub status : String
  pub result : Option String
  pub created_at : Time
  pub completed_at : Option Time

-- `next` is what AUTOINCREMENT gives next. A row of the table metrics is a Metrics.
pub record Tables : Type 0 where
  pub metrics : List Metrics
  pub next_metrics : ℕ
  pub commands : List CommandRow
  pub next_command : ℕ

abbrev pub empty_tables : Tables
empty_tables = record { metrics = []; next_metrics = 1; commands = []; next_command = 1 }

-- The statements that change a table. An inserted command is given without its NULL columns.
pub data Statement : Type 0 where
  insert_metrics : Metrics → Statement
  insert_command : (command_id type payload status : String) (created_at : Time) → Statement
  mark_complete : (status : String) (now : Time) (command_id : String) → Statement
  delete_metrics delete_commands : Time → Statement
  optimize : Statement

pub record Affected : Type 0 where
  pub last_insert_id : ℕ
  pub rows_affected : ℕ

abbrev pub has_id : String → CommandRow → Bool
has_id id row = str_eq row.command_id id

abbrev pub any_row : (CommandRow → Bool) → List CommandRow → Bool
any_row p [] = false
any_row p (row ∷ rows) = p row || any_row p rows

abbrev is_old_synced : Time → Metrics → Bool
is_old_synced cutoff m = m.synced && ltb m.timestamp cutoff

abbrev completed_before : Time → Option Time → Bool
completed_before cutoff none = false
completed_before cutoff (some t) = ltb t cutoff

abbrev is_old_completed : Time → CommandRow → Bool
is_old_completed cutoff row =
    str_eq row.status status_completed && completed_before cutoff row.completed_at

abbrev pub marked : String → Time → String → CommandRow → CommandRow
marked status now id row =
    if has_id id row then record row { status = status; completed_at = some now } else row

-- An UPDATE or a DELETE: the code reads the last id only after an INSERT, so it is 0 here.
abbrev changed : ℕ → Tables → Option (Affected × Tables)
changed n t = some (record { last_insert_id = 0; rows_affected = n }, t)

-- `none` where a constraint is violated.
unfoldable pub run_statement : Statement → Tables → Option (Affected × Tables)
run_statement (insert_metrics m) t = some (
  record { last_insert_id = t.next_metrics; rows_affected = 1 },
  record t {
    metrics = t.metrics ++ record m { id = t.next_metrics } ∷ [];
    next_metrics = t.next_metrics + 1;
  },
)
run_statement (insert_command command_id type payload status created_at) t =
    if any_row (has_id command_id) t.commands
    then none
    else some (
      record { last_insert_id = t.next_command; rows_affected = 1 },
      record t {
        commands =
            t.commands
            ++ record {
              id = t.next_command;
              command_id = command_id;
              type = type;
              payload = payload;
              status = status;
              result = none;
              created_at = created_at;
              completed_at = none;
            }
              ∷ [];
        next_command = t.next_command + 1;
      },
    )
run_statement (mark_complete status now id) t =
    changed (length (filter (has_id id) t.commands))
      (record t { commands = map (marked status now id) t.commands })
run_statement (delete_metrics cutoff) t =
    changed (length (filter (is_old_synced cutoff) t.metrics))
      (record t { metrics = filter (λ m. not (is_old_synced cutoff m)) t.metrics })
run_statement (delete_commands cutoff) t =
    changed (length (filter (is_old_completed cutoff) t.commands))
      (record t { commands = filter (λ row. not (is_old_completed cutoff row)) t.commands })
run_statement optimize t = changed 0 t

-- The rows of the two SELECTs, before their ORDER BY.
unfoldable pub select_metrics : Time → Time → Tables → List Metrics
select_metrics start end t = filter (λ m. leb start m.timestamp && leb m.timestamp end) t.metrics

abbrev pub is_open : CommandRow → Bool
is_open row = str_eq row.status "pending" || str_eq row.status "in_progress"

unfoldable pub select_pending : Tables → List CommandRow
select_pending t = filter is_open t.commands
