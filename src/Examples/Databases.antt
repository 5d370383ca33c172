-- ===== src/Examples/Databases.antt =====
-- internal/cache/sqlite.go and batch.go, over an engine that holds its tables in memory.
use castle_ops_client.Prelude.{
  ◌≡◌, refl, Option, none, some, [], ◌∷◌, plain, Result, ok, err, arith,
}
use castle_ops_client.Cache.Statements.{
  Tables, Affected, Statement, run_statement, empty_tables, select_pending, select_metrics,
  insert_metrics,
}
use castle_ops_client.Cache.Sqlite.{
  Engine, fetched, SqliteCache, store_command_row, mark_row_complete,
}
use castle_ops_client.Cache.Sqlite.Batches.{
  insert_all, with_statement, in_tx, batch_in_tx, batch_store_sqlite, statements_of,
}
use castle_ops_client.Cache.Sqlite.Faithful.{
  Ran, IsRelational, Whole, database_of, batch_store_sqlite-Whole,
}
use castle_ops_client.Cache.Sqlite.Commands.{
  Refused, store_command_row-Refused, Marks, mark_row_complete-Marks,
}
use castle_ops_client.Examples.Samples.{sample_command, sample_metrics}

abbrev executed : Tables → Option (Affected × Tables) → Result Affected × Tables
executed t none = (err (plain "UNIQUE constraint failed"), t)
executed t (some (a, t')) = (ok a, t')

-- Reads and writes never fail; a transaction is a copy of the tables.
abbrev in_memory : Engine
unfolding run_statement select_pending select_metrics
in_memory = record {
  Db = Tables;
  Tx = Tables;
  exec = λ s t. executed t (run_statement s t);
  query_metrics = λ start end t. fetched (select_metrics start end t);
  query_pending = λ t. fetched (select_pending t);
  begin_tx = λ t. (ok t, t);
  prepare_tx = λ t. ok tt;
  exec_tx = λ s t. executed t (run_statement s t);
  commit = λ tx t. (ok tt, tx);
  rollback = λ tx t. t;
}

executed-Ran :
    (s : Statement) (t : Tables) (o : Option (Affected × Tables))
    → run_statement s t ≡ o
    → Ran s t (executed t o).0 (executed t o).1
executed-Ran s t none h = refl
executed-Ran s t (some (a, t')) h = h

in_memory-IsRelational : IsRelational in_memory
unfolding in_memory
in_memory-IsRelational = record {
  tables = λ t. t;
  tx_tables = λ t. t;
  exec_runs = λ s t. executed-Ran s t (run_statement s t) refl;
  exec_tx_runs = λ s t. executed-Ran s t (run_statement s t) refl;
  begin_keeps = λ t. refl;
  begin_copies = λ t tx h. ground (arith, h);
  commit_publishes = λ tx t h. refl;
  commit_fails = λ tx t e h. absurd (ground (arith, h));
  rollback_keeps = λ tx t. refl;
}

abbrev with_one : Tables
with_one = record {
  metrics = [];
  next_metrics = 1;
  commands =
      record {
        id = 1;
        command_id = "a";
        type = "install_package";
        payload = "null";
        status = "completed";
        result = none;
        created_at = 1;
        completed_at = some 2;
      }
      ∷ [];
  next_command = 2;
}

abbrev empty_cache : SqliteCache in_memory
unfolding in_memory
empty_cache = record { db = empty_tables; db_path = "cache.db"; retention_days = 7 }

abbrev used_cache : SqliteCache in_memory
unfolding in_memory
used_cache = record { db = with_one; db_path = "cache.db"; retention_days = 7 }

batch_store_sqlite-Whole_example :
    Whole in_memory in_memory-IsRelational
      (statements_of insert_metrics (some (sample_metrics 5) ∷ none ∷ []))
      (in_memory-IsRelational.tables empty_cache.db)
      (database_of in_memory in_memory-IsRelational
        (batch_store_sqlite in_memory (some (sample_metrics 5) ∷ none ∷ []) empty_cache))
batch_store_sqlite-Whole_example =
    batch_store_sqlite-Whole in_memory in_memory-IsRelational (some (sample_metrics 5) ∷ none ∷ [])
      empty_cache

-- The nil entry is not counted.
stores_one : (batch_store_sqlite in_memory (some (sample_metrics 5) ∷ none ∷ []) empty_cache).0 ≡ 1
unfolding batch_store_sqlite batch_in_tx in_tx with_statement insert_all run_statement in_memory
    empty_cache
stores_one = refl

-- The identifier of a command that was executed long ago is still taken.
store_command_row-Refused_example :
    Refused in_memory in_memory-IsRelational
      (in_memory-IsRelational.tables used_cache.db)
      (store_command_row in_memory (some (sample_command "a" 3 "pending")) used_cache)
store_command_row-Refused_example =
    store_command_row-Refused in_memory in_memory-IsRelational (sample_command "a" 3 "pending")
      used_cache (unfold in_memory used_cache in_memory-IsRelational in refl)

mark_row_complete-Marks_example :
    Marks in_memory in_memory-IsRelational "a"
      (in_memory-IsRelational.tables used_cache.db)
      (mark_row_complete in_memory 5 "a" used_cache)
mark_row_complete-Marks_example =
    mark_row_complete-Marks in_memory in_memory-IsRelational 5 "a" used_cache
