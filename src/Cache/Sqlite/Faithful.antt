-- ===== src/Cache/Sqlite/Faithful.antt =====
-- internal/cache/sqlite.go and batch.go over an engine that does what the statements say: what is in
-- the tables after an operation.
use castle_ops_client.Prelude.{
  ℕ, ◌+◌, String, ◌≡◌, refl, sym, ap, subst, ◌∙◌, Option, none, some, List, [], ◌∷◌, length, Error,
  wrapped, Result, ok, err, arith,
}
use castle_ops_client.Cache.Types.{Command, Metrics}
use castle_ops_client.Cache.Statements.{Statement, Tables, Affected, run_statement, insert_metrics}
use castle_ops_client.Cache.Sqlite.{Engine, SqliteCache, insertion}
use castle_ops_client.Cache.Sqlite.Batches.{
  insert_all, committed, finish, with_statement, in_tx, batch_in_tx, batch_store_sqlite,
  batch_store_commands_sqlite, statements_of,
}

-- A statement that failed changed nothing; one that succeeded did what it says.
abbrev pub Ran : Statement → Tables → Result Affected → Tables → Type 0
Ran s t (err e) t' = t' ≡ t
Ran s t (ok a) t' = run_statement s t ≡ some (a, t')

-- What SQLite and its driver promise.
pub record IsRelational (engine : Engine) : Type 0 where
  pub tables : engine.Db → Tables
  pub tx_tables : engine.Tx → Tables
  pub exec_runs :
      (s : Statement) (db : engine.Db)
      → Ran s (tables db) (engine.exec s db).0 (tables (engine.exec s db).1)
  pub exec_tx_runs :
      (s : Statement) (tx : engine.Tx)
      → Ran s (tx_tables tx) (engine.exec_tx s tx).0 (tx_tables (engine.exec_tx s tx).1)
  pub begin_keeps : (db : engine.Db) → tables (engine.begin_tx db).1 ≡ tables db
  pub begin_copies :
      (db : engine.Db) (tx : engine.Tx) → (engine.begin_tx db).0 ≡ ok tx → tx_tables tx ≡ tables db
  pub commit_publishes :
      (tx : engine.Tx) (db : engine.Db)
      → (engine.commit tx db).0 ≡ ok tt
      → tables (engine.commit tx db).1 ≡ tx_tables tx
  pub commit_fails :
      (tx : engine.Tx) (db : engine.Db) (e : Error)
      → (engine.commit tx db).0 ≡ err e
      → tables (engine.commit tx db).1 ≡ tables db
  pub rollback_keeps :
      (tx : engine.Tx) (db : engine.Db) → tables (engine.rollback tx db) ≡ tables db

abbrev next_run : (Tables → Option Tables) → Option (Affected × Tables) → Option Tables
next_run later none = none
next_run later (some (a, t)) = later t

abbrev pub run_all : List Statement → Tables → Option Tables
run_all [] t = some t
run_all (s ∷ ss) t = next_run (run_all ss) (run_statement s t)

module _ (engine : Engine) (laws : IsRelational engine) where
  abbrev Inserted : List Statement → ℕ → Tables → ℕ × Option Error × engine.Tx → Type 0
  Inserted ss count t (n, none, tx) =
      (n ≡ count + length ss) × (run_all ss t ≡ some (laws.tx_tables tx))
  Inserted ss count t (n, some e, tx) = Unit

  -- All or nothing: the count is that of the statements where the batch succeeded.
  abbrev pub Whole : List Statement → Tables → ℕ × Result (Unit {0}) × engine.Db → Type 0
  Whole ss t (n, ok u, db) = (n ≡ length ss) × (run_all ss t ≡ some (laws.tables db))
  Whole ss t (n, err e, db) = laws.tables db ≡ t

  Inserted-cons :
      (s : Statement) (ss : List Statement) (count : ℕ) (t t1 : Tables) (a : Affected)
      (x : ℕ × Option Error × engine.Tx)
      → run_statement s t ≡ some (a, t1)
      → Inserted ss (count + 1) t1 x
      → Inserted (s ∷ ss) count t x
  Inserted-cons s ss count t t1 a (n, none, tx) h (k, l) =
      (omega (arith, k), ap (next_run (run_all ss)) h ∙ l)
  Inserted-cons s ss count t t1 a (n, some e, tx) h k = tt

  insert_step :
      (what : String) (s : Statement) (ss : List Statement) (count : ℕ) (t : Tables)
      (r : Result Affected) (tx' : engine.Tx)
      → Ran s t r (laws.tx_tables tx')
      → Inserted ss (count + 1) (laws.tx_tables tx') (insert_all engine what ss (count + 1) tx')
      → Inserted (s ∷ ss) count t (elim r as (λ _. ℕ × Option Error × engine.Tx) [
        | err e ↦ (count, some (wrapped what e), tx')
        | ok a ↦ insert_all engine what ss (count + 1) tx'
      ])
  insert_step what s ss count t (err e) tx' h k = tt
  insert_step what s ss count t (ok a) tx' h k =
      Inserted-cons s ss count t (laws.tx_tables tx') a (insert_all engine what ss (count + 1) tx')
        h k

  insert_all-Inserted :
      (what : String) (ss : List Statement) (count : ℕ) (tx : engine.Tx)
      → Inserted ss count (laws.tx_tables tx) (insert_all engine what ss count tx)
  unfolding insert_all
  insert_all-Inserted what [] count tx = (omega arith, refl)
  insert_all-Inserted what (s ∷ ss) count tx =
      let (r, tx') = engine.exec_tx s tx in
      insert_step what s ss count (laws.tx_tables tx) r tx' (laws.exec_tx_runs s tx)
        (insert_all-Inserted what ss (count + 1) tx')

  committed-Whole :
      (ss : List Statement) (t : Tables) (n : ℕ) (tx : engine.Tx)
      (q : Result (Unit {0}) × engine.Db)
      → Inserted ss 0 t (n, none, tx)
      → (q.0 ≡ ok tt → laws.tables q.1 ≡ laws.tx_tables tx)
      → ((e : Error) → q.0 ≡ err e → laws.tables q.1 ≡ t)
      → Whole ss t (committed engine n tx q)
  committed-Whole ss t n tx (ok u, db) (k, l) published failed =
      (omega (arith, k), l ∙ ap some (sym (published refl)))
  committed-Whole ss t n tx (err e, db) (k, l) published failed =
      laws.rollback_keeps tx db ∙ failed e refl

  finish-Whole :
      (ss : List Statement) (t : Tables) (db : engine.Db) (x : ℕ × Option Error × engine.Tx)
      → laws.tables db ≡ t
      → Inserted ss 0 t x
      → Whole ss t (finish engine db x)
  finish-Whole ss t db (n, none, tx) h k =
      committed-Whole ss t n tx (engine.commit tx db) k (laws.commit_publishes tx db)
        (λ e f. laws.commit_fails tx db e f ∙ h)
  finish-Whole ss t db (n, some e, tx) h k = laws.rollback_keeps tx db ∙ h

  with_statement-Whole :
      (what : String) (ss : List Statement) (t : Tables) (tx : engine.Tx) (db : engine.Db)
      (r : Result (Unit {0}))
      → laws.tables db ≡ t
      → laws.tx_tables tx ≡ t
      → Whole ss t (with_statement engine what ss tx db r)
  unfolding with_statement
  with_statement-Whole what ss t tx db (err e) h k = laws.rollback_keeps tx db ∙ h
  with_statement-Whole what ss t tx db (ok u) h k =
      finish-Whole ss t db (insert_all engine what ss 0 tx) h (
        subst (λ t. Inserted ss 0 t (insert_all engine what ss 0 tx)) k
          (insert_all-Inserted what ss 0 tx))

  in_tx-Whole :
      (what : String) (ss : List Statement) (t : Tables) (p : Result engine.Tx × engine.Db)
      → laws.tables p.1 ≡ t
      → ((tx : engine.Tx) → p.0 ≡ ok tx → laws.tx_tables tx ≡ t)
      → Whole ss t (in_tx engine what ss p)
  unfolding in_tx
  in_tx-Whole what ss t (err e, db) h k = h
  in_tx-Whole what ss t (ok tx, db) h k =
      with_statement-Whole what ss t tx db (engine.prepare_tx tx) h (k tx refl)

  -- The database of a cache, beside what a batch returned.
  abbrev pub database_of :
      ℕ × Result (Unit {0}) × SqliteCache engine → ℕ × Result (Unit {0}) × engine.Db
  database_of (n, r, c) = (n, r, c.db)

  batch_in_tx-Whole :
      (what : String) (ss : List Statement) (c : SqliteCache engine)
      → Whole ss (laws.tables c.db) (database_of (batch_in_tx engine what ss c))
  unfolding batch_in_tx
  batch_in_tx-Whole what ss c =
      in_tx-Whole what ss (laws.tables c.db) (engine.begin_tx c.db) (laws.begin_keeps c.db)
        (laws.begin_copies c.db)

  -- Over an engine that keeps its promises, a batch of metrics is stored as a whole or not at all: it
  -- either returns the number of the entries that are not nil, all of which are inserted in order,
  -- or it returns an error and the tables are as before.
  pub batch_store_sqlite-Whole :
      (ms : List (Option Metrics)) (c : SqliteCache engine)
      → Whole
          (statements_of insert_metrics ms)
          (laws.tables c.db)
          (database_of (batch_store_sqlite engine ms c))
  unfolding batch_store_sqlite
  batch_store_sqlite-Whole ms c =
      batch_in_tx-Whole "failed to insert metric" (statements_of insert_metrics ms) c

  -- The same for a batch of commands.
  pub batch_store_commands_sqlite-Whole :
      (cmds : List (Option Command)) (c : SqliteCache engine)
      → Whole
          (statements_of insertion cmds)
          (laws.tables c.db)
          (database_of (batch_store_commands_sqlite engine cmds c))
  unfolding batch_store_commands_sqlite
  batch_store_commands_sqlite-Whole cmds c =
      batch_in_tx-Whole "failed to insert command" (statements_of insertion cmds) c
