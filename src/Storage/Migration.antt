-- ===== src/Storage/Migration.antt =====
-- internal/storage/migrate.go: the move of the columns of a series out of the tables of results and of
-- rollups. A table is absent, has the old columns, or the current ones; in the old ones `agent_ip` and
-- `labels` may be NULL. The statements of a transaction are one step, as nothing else sees their states.
pub mod Tables
pub mod Lossless
pub mod Repeats
use pingmon.Prelude.{
  ℕ, Bool, true, false, not, ◌&&◌, ◌||◌, List, [], ◌∷◌, ◌++◌, Option, none, some, if◌then◌else◌,
  ◌>>=◌,
}
use pingmon.Prelude.Int.{ℤ}
use pingmon.Prelude.Text.{Text}
use pingmon.Model.{Time}
use pingmon.Storage.Store.{Series, series_eq, SeriesTable, Statuses, upsert_series}

pub record ResultColumns (F : Type 0) : Type 0 where
  pub checked_at : Time
  pub success_count : ℤ
  pub failure_count : ℤ
  pub average_latency_ms : F
  pub success_rate : F
  pub error : Option Text

pub record RollupColumns (F : Type 0) : Type 0 where
  pub bucket_start : Time
  pub interval_seconds : ℕ
  pub sample_count : ℤ
  pub success_count : ℤ
  pub failure_count : ℤ
  pub average_latency_ms : F
  pub success_rate : F
  pub error : Option Text

-- A row of an old table, with the columns `P` that the move leaves alone.
pub record OldRow (P : Type 0) : Type 0 where
  pub id : ℕ
  pub agent : Text
  pub agent_ip : Option Text
  pub target_name : Text
  pub address : Text
  pub port : ℤ
  pub labels : Option Text
  pub columns : P

pub record NewRow (P : Type 0) : Type 0 where
  pub id : ℕ
  pub series_id : ℕ
  pub columns : P

pub data Table (P : Type 0) : Type 0 where
  absent : Table P
  old : List (OldRow P) → Table P
  current : List (NewRow P) → Table P

-- `has_agent_ip` is whether `results` has that column, `has_sequence` whether there is a table
-- `sqlite_sequence`, which SQLite makes for the first AUTOINCREMENT.
pub record Schema (F : Type 0) : Type 0 where
  pub results : Table (ResultColumns F)
  pub rollups : Table (RollupColumns F)
  pub series : Option SeriesTable
  pub statuses : Option Statuses
  pub has_agent_ip : Bool
  pub has_sequence : Bool

-- The calls of the database.
pub data Statement : Type 0 where
  check_agents : Statement
  check_results : Statement
  check_rollups : Statement
  begin : Statement
  check_agent_ip : Statement
  add_agent_ip : Statement
  create_series : Statement
  insert_series : Bool → Statement
  create_new : Bool → Statement
  insert_rows : Bool → Statement
  drop_old : Bool → Statement
  rename_new : Bool → Statement
  create_statuses : Statement
  delete_sequence : Statement
  commit : Statement

pub data Migration : Type 0 where
  failed : Migration
  not_needed : Migration
  migrated : Migration

-- `COALESCE(x, '')`.
abbrev pub coalesce : Option Text → Text
coalesce none = []
coalesce (some s) = s

-- The ids of the series that a row is joined with.
unfoldable pub matches : Series → SeriesTable → List ℕ
matches k [] = []
matches k ((j, id) ∷ table) =
    let rest = matches k table in if series_eq j k then id ∷ rest else rest

module _ {P : Type 0} where
  abbrev pub is_old : Table P → Bool
  is_old absent = false
  is_old (old rows) = true
  is_old (current rows) = false

  -- The columns of a series of an old row.
  unfoldable pub old_series : OldRow P → Series
  old_series row = record {
    agent = row.agent;
    agent_ip = coalesce row.agent_ip;
    target_name = row.target_name;
    address = row.address;
    port = row.port;
    labels = coalesce row.labels;
  }

  -- `INSERT OR IGNORE INTO result_series .. SELECT DISTINCT`.
  unfoldable pub add_series : List (OldRow P) → SeriesTable → SeriesTable
  unfolding old_series
  add_series [] table = table
  add_series (row ∷ rows) table = add_series rows (upsert_series (old_series row) table).0

  abbrev new_rows : OldRow P → List ℕ → List (NewRow P)
  new_rows row [] = []
  new_rows row (id ∷ ids) =
      record { id = row.id; series_id = id; columns = row.columns } ∷ new_rows row ids

  -- `INSERT INTO results_new .. SELECT .. JOIN result_series`.
  unfoldable pub join_rows : SeriesTable → List (OldRow P) → List (NewRow P)
  unfolding matches old_series
  join_rows table [] = []
  join_rows table (row ∷ rows) =
      new_rows row (matches (old_series row) table) ++ join_rows table rows

  -- `ALTER TABLE .. ADD COLUMN agent_ip`.
  unfoldable pub blank_agent_ip : List (OldRow P) → List (OldRow P)
  blank_agent_ip [] = []
  blank_agent_ip (row ∷ rows) = record row { agent_ip = none } ∷ blank_agent_ip rows

abbrev pub table_or_empty : {A : Type 0} → Option (List A) → List A
table_or_empty none = []
table_or_empty (some xs) = xs

abbrev pub has_table : {A : Type 0} → Option A → Bool
has_table none = false
has_table (some a) = true

abbrev pub is_ready : {F : Type 0} → Schema F → Bool
is_ready t = not (is_old t.results) && not (is_old t.rollups) && has_table t.statuses

module _ (fails : Statement → Bool) where
  abbrev any_fails : List Statement → Bool
  any_fails [] = false
  any_fails (s ∷ ss) = fails s || any_fails ss

  -- The statements for one of the two tables.
  unfoldable pub migrate_table :
      {P : Type 0} → Bool → SeriesTable → Table P → Option (SeriesTable × Table P)
  unfolding add_series join_rows
  migrate_table which table absent = some (table, absent)
  migrate_table which table (current rows) = some (table, current rows)
  migrate_table which table (old rows) =
      let table' = add_series rows table in
      if any_fails (
        insert_series which
        ∷ create_new which
        ∷ insert_rows which
        ∷ drop_old which
        ∷ rename_new which
        ∷ [])
      then none
      else some (table', current (join_rows table' rows))

  abbrev exec : Statement → Option (Unit {0})
  exec s = if fails s then none else some tt

  unfoldable pub ensure_agent_ip :
      {F : Type 0} → Bool → Table (ResultColumns F) → Option (Table (ResultColumns F))
  unfolding blank_agent_ip
  ensure_agent_ip has absent = some absent
  ensure_agent_ip has (current rows) = some (current rows)
  ensure_agent_ip has (old rows) =
      if fails check_agent_ip
      then none
      else if has
      then some (old rows)
      else if fails add_agent_ip
      then none
      else some (old (blank_agent_ip rows))

  unfoldable pub ensure_statuses : Option Statuses → Option (Option Statuses)
  ensure_statuses (some statuses) = some (some statuses)
  ensure_statuses none = if fails create_statuses then none else some (some [])

  unfoldable pub clear_sequence : {F : Type 0} → Schema F → Option (Unit {0})
  clear_sequence t =
      if is_old t.results || is_old t.rollups
      then if fails delete_sequence || not t.has_sequence then none else some tt
      else some tt

  -- The transaction.
  unfoldable pub migrate_all : {F : Type 0} → Schema F → Option (Schema F)
  unfolding ensure_agent_ip migrate_table ensure_statuses clear_sequence
  migrate_all t = do
    _ ← exec begin
    results ← ensure_agent_ip t.has_agent_ip t.results
    _ ← exec create_series
    first ← migrate_table false (table_or_empty t.series) results
    second ← migrate_table true first.0 t.rollups
    statuses ← ensure_statuses t.statuses
    _ ← clear_sequence t
    _ ← exec commit
    some (record t {
      results = first.1;
      rollups = second.1;
      series = some second.0;
      statuses = statuses;
    })

  -- Whether the three checks fail.
  abbrev pub checks_fail : Bool
  checks_fail = fails check_agents || fails check_results || fails check_rollups

  unfoldable pub migrate_sqlite_db : {F : Type 0} → Schema F → Migration × Schema F
  unfolding migrate_all
  migrate_sqlite_db t =
      if checks_fail
      then (failed, t)
      else if is_ready t
      then (not_needed, t)
      else elim (migrate_all t) [ none ↦ (failed, t) | some t' ↦ (migrated, t') ]
