-- ===== src/Cache/Sqlite/Batches.antt =====
-- internal/cache/batch.go: storing several metrics or commands, in a transaction or one by one. A
-- nil entry is `none`.
use castle_ops_client.Prelude.{
  ℕ, ◌+◌, String, Option, none, some, List, [], ◌∷◌, Error, wrapped, Result, ok, err,
}
use castle_ops_client.Cache.Types.{Time, Command, Metrics}
use castle_ops_client.Cache.Interface.{Cache}
use castle_ops_client.Cache.Statements.{Statement, insert_metrics}
use castle_ops_client.Cache.Sqlite.{Engine, SqliteCache, insertion}

-- The entries that are there, as statements.
abbrev pub statements_of : {A : Type 0} → (A → Statement) → List (Option A) → List Statement
statements_of f [] = []
statements_of f (none ∷ xs) = statements_of f xs
statements_of f (some x ∷ xs) = f x ∷ statements_of f xs

module _ (engine : Engine) where
  -- The loop over the entries, in the transaction; `count` is how many were inserted.
  unfoldable pub insert_all : String → List Statement → ℕ → engine.Tx → ℕ × Option Error × engine.Tx
  insert_all what [] count tx = (count, none, tx)
  insert_all what (s ∷ ss) count tx =
      let (r, tx') = engine.exec_tx s tx in
      let rest = insert_all what ss (count + 1) tx' in
      elim r as (λ _. ℕ × Option Error × engine.Tx) [
        | err e ↦ (count, some (wrapped what e), tx')
        | ok a ↦ rest
      ]

  -- A commit that failed is rolled back too.
  abbrev pub committed :
      ℕ → engine.Tx → Result (Unit {0}) × engine.Db → ℕ × Result (Unit {0}) × engine.Db
  committed count tx (ok u, db) = (count, ok tt, db)
  committed count tx (err e, db) =
      (count, err (wrapped "failed to commit transaction" e), engine.rollback tx db)

  abbrev pub finish : engine.Db → ℕ × Option Error × engine.Tx → ℕ × Result (Unit {0}) × engine.Db
  finish db (count, none, tx) = committed count tx (engine.commit tx db)
  finish db (count, some e, tx) = (count, err e, engine.rollback tx db)

  unfoldable pub with_statement :
      String
      → List Statement
      → engine.Tx
      → engine.Db
      → Result (Unit {0})
      → ℕ × Result (Unit {0}) × engine.Db
  unfolding insert_all
  with_statement what ss tx db (err e) =
      (0, err (wrapped "failed to prepare statement" e), engine.rollback tx db)
  with_statement what ss tx db (ok u) = finish db (insert_all what ss 0 tx)

  unfoldable pub in_tx :
      String → List Statement → Result engine.Tx × engine.Db → ℕ × Result (Unit {0}) × engine.Db
  unfolding with_statement
  in_tx what ss (err e, db) = (0, err (wrapped "failed to begin transaction" e), db)
  in_tx what ss (ok tx, db) = with_statement what ss tx db (engine.prepare_tx tx)

  unfoldable pub batch_in_tx :
      String → List Statement → SqliteCache engine → ℕ × Result (Unit {0}) × SqliteCache engine
  unfolding in_tx
  batch_in_tx what ss c =
      let (count, r, db) = in_tx what ss (engine.begin_tx c.db) in (count, r, record c { db = db })

  abbrev unless_empty :
      {A : Type 0}
      → List A
      → SqliteCache engine
      → ℕ × Result (Unit {0}) × SqliteCache engine
      → ℕ × Result (Unit {0}) × SqliteCache engine
  unless_empty [] c result = (0, ok tt, c)
  unless_empty (x ∷ xs) c result = result

  -- batchStoreSQLite
  unfoldable pub batch_store_sqlite :
      List (Option Metrics) → SqliteCache engine → ℕ × Result (Unit {0}) × SqliteCache engine
  unfolding batch_in_tx
  batch_store_sqlite ms c =
      batch_in_tx "failed to insert metric" (statements_of insert_metrics ms) c

  -- batchStoreCommandsSQLite
  unfoldable pub batch_store_commands_sqlite :
      List (Option Command) → SqliteCache engine → ℕ × Result (Unit {0}) × SqliteCache engine
  unfolding batch_in_tx
  batch_store_commands_sqlite cmds c =
      batch_in_tx "failed to insert command" (statements_of insertion cmds) c

  -- BatchStoreMetrics and BatchStoreCommands on this cache
  unfoldable pub batch_store_metrics :
      List (Option Metrics) → SqliteCache engine → ℕ × Result (Unit {0}) × SqliteCache engine
  unfolding batch_store_sqlite
  batch_store_metrics ms c = unless_empty ms c (batch_store_sqlite ms c)

  unfoldable pub batch_store_commands :
      List (Option Command) → SqliteCache engine → ℕ × Result (Unit {0}) × SqliteCache engine
  unfolding batch_store_commands_sqlite
  batch_store_commands cmds c = unless_empty cmds c (batch_store_commands_sqlite cmds c)

module _ (cache : Cache) where
  -- batchStoreSequential; the clock is read for each entry.
  unfoldable pub batch_store_sequential :
      List (Time × Option Metrics) → ℕ → cache.State → ℕ × Result (Unit {0}) × cache.State
  batch_store_sequential [] count s = (count, ok tt, s)
  batch_store_sequential ((now, none) ∷ ms) count s = batch_store_sequential ms count s
  batch_store_sequential ((now, some m) ∷ ms) count s =
      let (r, s') = cache.store_metrics now m s in
      let rest = batch_store_sequential ms (count + 1) s' in
      elim r as (λ _. ℕ × Result (Unit {0}) × cache.State) [
        | err e ↦ (count, err (wrapped "failed to store metric" e), s')
        | ok u ↦ rest
      ]

  -- batchStoreCommandsSequential
  unfoldable pub batch_store_commands_sequential :
      List (Option Command) → ℕ → cache.State → ℕ × Result (Unit {0}) × cache.State
  batch_store_commands_sequential [] count s = (count, ok tt, s)
  batch_store_commands_sequential (none ∷ cmds) count s =
      batch_store_commands_sequential cmds count s
  batch_store_commands_sequential (some cmd ∷ cmds) count s =
      let (r, s') = cache.store_command cmd s in
      let rest = batch_store_commands_sequential cmds (count + 1) s' in
      elim r as (λ _. ℕ × Result (Unit {0}) × cache.State) [
        | err e ↦ (count, err (wrapped "failed to store command" e), s')
        | ok u ↦ rest
      ]
