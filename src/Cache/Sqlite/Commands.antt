-- ===== src/Cache/Sqlite/Commands.antt =====
-- The commands of internal/cache/sqlite.go over an engine that does what the statements say.
use castle_ops_client.Prelude.{
  ℕ, String, ◌≡◌, refl, sym, ap, ◌∙◌, Bool, true, false, if_lem, if-true, if-false, Bool-cases, inl,
  inr, ==_iff, str_eq, if◌then◌else◌, Option, none, some, List, [], ◌∷◌, map, length, filter, ◌==◌,
  Result, ok, err, arith,
}
use castle_ops_client.Cache.Types.{Time, Command, status_completed}
use castle_ops_client.Cache.Statements.{
  Tables, Affected, CommandRow, run_statement, select_pending, is_open, any_row, has_id, marked,
  mark_complete,
}
use castle_ops_client.Cache.Sqlite.{
  Engine, SqliteCache, insertion, store_command_row, mark_row_complete, command_stored,
  mark_checked,
}
use castle_ops_client.Cache.Sqlite.Faithful.{IsRelational, Ran}

abbrev pub other_open : String → CommandRow → Bool
other_open id row = if has_id id row then false else is_open row

-- What is pending after a command was marked: what was, without its rows.
marked_open :
    (now : Time) (id : String) (rows : List CommandRow)
    → filter is_open (map (marked status_completed now id) rows) ≡ filter (other_open id) rows
marked_open now id [] = refl
marked_open now id (row ∷ rows) = elim (Bool-cases (has_id id row)) [
  | inl e ↦ rw (e, marked_open now id rows) refl
  | inr e ↦ rw (e, marked_open now id rows) refl
]

abbrev affected_rows : Option (Affected × Tables) → ℕ
affected_rows none = 0
affected_rows (some p) = p.0.rows_affected

abbrev open_rows : Option (Affected × Tables) → List CommandRow
open_rows none = []
open_rows (some p) = filter is_open p.1.commands

none_open :
    (id : String) (rows : List CommandRow)
    → length (filter (has_id id) rows) ≡ 0
    → filter (other_open id) rows ≡ filter is_open rows
none_open id [] h = refl
none_open id (row ∷ rows) h = ground (arith, none_open id rows)

module _ (engine : Engine) (laws : IsRelational engine) where
  -- An error that leaves the tables alone.
  abbrev pub Refused : {A : Type 0} → Tables → Result A × SqliteCache engine → Type 0
  Refused t (ok a, c) = ⊥
  Refused t (err e, c) = laws.tables c.db ≡ t

  refuse_stored :
      (cmd : Command) (c : SqliteCache engine) (q : Result Affected × engine.Db)
      → any_row (has_id cmd.command_id) (laws.tables c.db).commands ≡ true
      → Ran (insertion cmd) (laws.tables c.db) q.0 (laws.tables q.1)
      → Refused (laws.tables c.db) (command_stored engine cmd c q)
  unfolding run_statement
  refuse_stored cmd c (ok a, db) h k = absurd (ground (arith, h, k))
  refuse_stored cmd c (err e, db) h k = k

  -- Over an engine that keeps SQLite's promises, a command whose identifier is in the table, pending
  -- or not, is refused with an error, and the tables are as before.
  pub store_command_row-Refused :
      (cmd : Command) (c : SqliteCache engine)
      → any_row (has_id cmd.command_id) (laws.tables c.db).commands ≡ true
      → Refused (laws.tables c.db) (store_command_row engine (some cmd) c)
  unfolding store_command_row
  store_command_row-Refused cmd c h =
      if_lem (Refused (laws.tables c.db)) (str_eq cmd.command_id "") _ _ refl (
        refuse_stored cmd c (engine.exec (insertion cmd) c.db) h
          (laws.exec_runs (insertion cmd) c.db))

  abbrev pub Marks : String → Tables → Result (Unit {0}) × SqliteCache engine → Type 0
  Marks id t (ok u, c) = select_pending (laws.tables c.db) ≡ filter (other_open id) t.commands
  Marks id t (err e, c) = select_pending (laws.tables c.db) ≡ select_pending t

  run_marked :
      (now : Time) (id : String) (t t' : Tables) (a : Affected)
      → run_statement (mark_complete status_completed now id) t ≡ some (a, t')
      → (a.rows_affected ≡ length (filter (has_id id) t.commands))
        × (select_pending t' ≡ filter (other_open id) t.commands)
  unfolding run_statement select_pending
  run_marked now id t t' a h =
      (sym (ap affected_rows h), sym (ap open_rows h) ∙ marked_open now id t.commands)

  checked-Marks :
      (id : String) (t : Tables) (c : SqliteCache engine) (db : engine.Db) (a : Affected)
      → a.rows_affected ≡ length (filter (has_id id) t.commands)
      → select_pending (laws.tables db) ≡ filter (other_open id) t.commands
      → Marks id t (mark_checked engine id c (ok a, db))
  unfolding select_pending
  checked-Marks id t c db a h k = elim (Bool-cases (a.rows_affected == 0)) [
    | inl e ↦
        if-true (λ r. Marks id t (r, record c { db = db })) (a.rows_affected == 0) _ _ e
          (k ∙ none_open id t.commands (sym h ∙ (==_iff a.rows_affected 0).0 e))
    | inr e ↦ if-false (λ r. Marks id t (r, record c { db = db })) (a.rows_affected == 0) _ _ e k
  ]

  mark_checked-Marks :
      (now : Time) (id : String) (c : SqliteCache engine) (q : Result Affected × engine.Db)
      → Ran (mark_complete status_completed now id) (laws.tables c.db) q.0 (laws.tables q.1)
      → Marks id (laws.tables c.db) (mark_checked engine id c q)
  mark_checked-Marks now id c (err e, db) h = ap select_pending h
  mark_checked-Marks now id c (ok a, db) h =
      let (n, p) = run_marked now id (laws.tables c.db) (laws.tables db) a h in
      checked-Marks id (laws.tables c.db) c db a n p

  -- Over an engine that keeps SQLite's promises, MarkCommandComplete takes the command off the pending
  -- rows where it succeeds and keeps the other pending rows; where it returns an error, that of an
  -- unknown identifier too, the pending rows are as before.
  pub mark_row_complete-Marks :
      (now : Time) (id : String) (c : SqliteCache engine)
      → Marks id (laws.tables c.db) (mark_row_complete engine now id c)
  unfolding mark_row_complete
  mark_row_complete-Marks now id c = if_lem (Marks id (laws.tables c.db)) (str_eq id "") _ _ refl (
      mark_checked-Marks now id c (engine.exec (mark_complete status_completed now id) c.db)
        (laws.exec_runs (mark_complete status_completed now id) c.db))
