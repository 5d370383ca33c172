-- ===== src/Cache/Sqlite.antt =====
-- internal/cache/sqlite.go: the cache over SQLite. The engine and the file system are parameters;
-- Cache/Statements says what the statements of the source do. Logging, the connection pool and the
-- goroutine that calls cleanup are left out. A day has 24 hours, as in UTC.
pub mod Batches
pub mod Faithful
pub mod Commands
use castle_ops_client.Prelude.{
  ℕ, ◌-◌, ◌*◌, ◌==◌, String, Bool, true, false, Option, none, some, List, [], ◌∷◌, map, str_eq,
  if◌then◌else◌, Error, plain, wrapped, Result, ok, err,
}
use castle_ops_client.Prelude.Int.{ℤ, pos, positive, pos_part}
use castle_ops_client.Cache.Types.{Time, Command, Metrics, status_pending, status_completed}
use castle_ops_client.Cache.Memory.{day}
use castle_ops_client.Cache.Statements.{
  Statement, insert_metrics, insert_command, mark_complete, delete_metrics, delete_commands,
  optimize, Affected, CommandRow,
}
use Prim.Native.String.{◌++◌ as str_append}

-- What becomes of a SELECT: it fails, a row cannot be scanned, the iteration ends with an error, or
-- all rows are there.
pub data Rows (A : Type 0) : Type 0 where
  query_failed scan_failed iteration_failed : Error → Rows A
  fetched : List A → Rows A

-- The driver: a database `Db` and a transaction `Tx`.
pub record Engine : Type 1 where
  pub Db : Type 0
  pub Tx : Type 0
  pub exec : Statement → Db → Result Affected × Db
  pub query_metrics : Time → Time → Db → Rows Metrics
  pub query_pending : Db → Rows CommandRow
  pub begin_tx : Db → Result Tx × Db
  pub prepare_tx : Tx → Result (Unit {0})
  pub exec_tx : Statement → Tx → Result Affected × Tx
  pub commit : Tx → Db → Result (Unit {0}) × Db
  pub rollback : Tx → Db → Db

-- Opening the database at a path: the directory, sql.Open, the schema, the prepared statements.
pub record Opening (D : Type 0) : Type 0 where
  pub ensure_dir : String → Result (Unit {0})
  pub open_path : String → Result D
  pub init_schema : D → Result (Unit {0})
  pub prepare : D → Result (Unit {0})

pub record SqliteConfig : Type 0 where
  pub path : String
  pub retention_days : ℤ

pub record SqliteCache (engine : Engine) : Type 0 where
  pub db : engine.Db
  pub db_path : String
  pub retention_days : ℕ

abbrev pub retention_or_default : ℤ → ℕ
retention_or_default n = if positive n then pos_part n else 7

abbrev scanned : {A : Type 0} → String → Rows A → Result (List A)
scanned what (query_failed e) = err (wrapped (str_append "failed to query " what) e)
scanned what (scan_failed e) = err (wrapped "failed to scan row" e)
scanned what (iteration_failed e) = err (wrapped "error iterating rows" e)
scanned what (fetched rows) = ok rows

abbrev or_empty : Option String → String
or_empty none = ""
or_empty (some s) = s

abbrev or_zero : Option Time → Time
or_zero none = 0
or_zero (some t) = t

abbrev pub command_of : CommandRow → Command
command_of row = record {
  id = row.id;
  command_id = row.command_id;
  type = row.type;
  payload = row.payload;
  status = row.status;
  result = or_empty row.result;
  created_at = row.created_at;
  completed_at = or_zero row.completed_at;
}

abbrev pub commands_of : Result (List CommandRow) → Result (List Command)
commands_of (err e) = err e
commands_of (ok rows) = ok (map command_of rows)

abbrev pub status_or_pending : String → String
status_or_pending status = if str_eq status "" then status_pending else status

-- The statement with the columns of a command.
abbrev pub insertion : Command → Statement
insertion cmd =
    insert_command cmd.command_id cmd.type cmd.payload (status_or_pending cmd.status) cmd.created_at

module _ (engine : Engine) where
  abbrev with_schema :
      Opening engine.Db
      → SqliteConfig
      → engine.Db
      → Result (Unit {0})
      → Result (Unit {0})
      → Result (SqliteCache engine)
  with_schema o config db (err e) prepared = err (wrapped "failed to initialize schema" e)
  with_schema o config db (ok u) (err e) = err (wrapped "failed to prepare statements" e)
  with_schema o config db (ok u) (ok v) = ok (record {
    db = db;
    db_path = config.path;
    retention_days = retention_or_default config.retention_days;
  })

  abbrev with_db : Opening engine.Db → SqliteConfig → Result engine.Db → Result (SqliteCache engine)
  with_db o config (err e) = err (wrapped "failed to open database" e)
  with_db o config (ok db) = with_schema o config db (o.init_schema db) (o.prepare db)

  abbrev with_dir :
      Opening engine.Db → SqliteConfig → Result (Unit {0}) → Result (SqliteCache engine)
  with_dir o config (err e) = err (wrapped "failed to create cache directory" e)
  with_dir o config (ok u) = with_db o config (o.open_path config.path)

  unfoldable pub new_sqlite_cache : Opening engine.Db → SqliteConfig → Result (SqliteCache engine)
  new_sqlite_cache o config =
      if str_eq config.path ""
      then err (plain "cache path cannot be empty")
      else with_dir o config (o.ensure_dir config.path)

  abbrev with_database : engine.Db → SqliteCache engine → SqliteCache engine
  with_database db c = record c { db = db }

  abbrev metrics_stored :
      Metrics
      → SqliteCache engine
      → Result Affected × engine.Db
      → Result Metrics × SqliteCache engine
  metrics_stored m c (err e, db) = (err (wrapped "failed to insert metrics" e), with_database db c)
  metrics_stored m c (ok r, db) = (ok (record m { id = r.last_insert_id }), with_database db c)

  -- The metrics that are returned have the identifier that the caller's struct gets.
  unfoldable pub store_metrics_row :
      Option Metrics → SqliteCache engine → Result Metrics × SqliteCache engine
  store_metrics_row none c = (err (plain "metrics cannot be nil"), c)
  store_metrics_row (some m) c = metrics_stored m c (engine.exec (insert_metrics m) c.db)

  unfoldable pub get_metrics_rows : Time → Time → SqliteCache engine → Result (List Metrics)
  get_metrics_rows start end c = scanned "metrics" (engine.query_metrics start end c.db)

  abbrev command_stored :
      Command
      → SqliteCache engine
      → Result Affected × engine.Db
      → Result Command × SqliteCache engine
  command_stored cmd c (err e, db) =
      (err (wrapped "failed to insert command" e), with_database db c)
  command_stored cmd c (ok r, db) = (
    ok (record cmd { id = r.last_insert_id; status = status_or_pending cmd.status }),
    with_database db c,
  )

  unfoldable pub store_command_row :
      Option Command → SqliteCache engine → Result Command × SqliteCache engine
  store_command_row none c = (err (plain "command cannot be nil"), c)
  store_command_row (some cmd) c =
      if str_eq cmd.command_id ""
      then (err (plain "command ID cannot be empty"), c)
      else command_stored cmd c (engine.exec (insertion cmd) c.db)

  unfoldable pub get_pending_rows : SqliteCache engine → Result (List Command)
  get_pending_rows c = commands_of (scanned "pending commands" (engine.query_pending c.db))

  abbrev mark_checked :
      String
      → SqliteCache engine
      → Result Affected × engine.Db
      → Result (Unit {0}) × SqliteCache engine
  mark_checked id c (err e, db) =
      (err (wrapped "failed to mark command complete" e), with_database db c)
  mark_checked id c (ok r, db) = (
    if r.rows_affected == 0 then err (plain (str_append "command not found: " id)) else ok tt,
    with_database db c,
  )

  unfoldable pub mark_row_complete :
      Time → String → SqliteCache engine → Result (Unit {0}) × SqliteCache engine
  mark_row_complete now id c =
      if str_eq id ""
      then (err (plain "command ID cannot be empty"), c)
      else mark_checked id c (engine.exec (mark_complete status_completed now id) c.db)

  -- The errors of the three statements are logged.
  unfoldable pub cleanup_rows : Time → SqliteCache engine → SqliteCache engine
  cleanup_rows now c =
      let cutoff = now - c.retention_days * day in
      let (r1, db1) = engine.exec (delete_metrics cutoff) c.db in
      let (r2, db2) = engine.exec (delete_commands cutoff) db1 in
      let (r3, db3) = engine.exec optimize db2 in with_database db3 c
