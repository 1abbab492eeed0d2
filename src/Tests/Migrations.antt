-- ===== src/Tests/Migrations.antt =====
-- Tests of internal/storage/migrate.go. A float64 is a number here.
use pingmon.Prelude.{ℕ, Bool, true, false, [], ◌∷◌, Option, none, some, ◌≡◌, refl, if◌then◌else◌}
use pingmon.Prelude.Int.{pos}
use pingmon.Prelude.Text.{Text, codes, text_eq}
use pingmon.Prelude.Eq.{lookup, insert}
use pingmon.Model.{second}
use pingmon.Storage.Store.{series_eq, upsert_series, max_id, has_series}
use pingmon.Storage.Migration.{
  ResultColumns, RollupColumns, OldRow, old, Schema, Statement, insert_rows, failed, not_needed,
  migrated, old_series, add_series, matches, join_rows, blank_agent_ip, migrate_table,
  ensure_agent_ip, ensure_statuses, clear_sequence, migrate_all, is_ready, migrate_sqlite_db,
}
use pingmon.Storage.Migration.Lossless.{IsWell, read_table}
use pingmon.Storage.Migration.Repeats.{never, migrate_sqlite_db_again}

abbrev old_row : {P : Type 0} → ℕ → Option Text → P → OldRow P
old_row id labels columns = record {
  id = id;
  agent = codes "a";
  agent_ip = none;
  target_name = codes "web";
  address = codes "example.org";
  port = pos 443;
  labels = labels;
  columns = columns;
}

abbrev result : ResultColumns ℕ
result = record {
  checked_at = second;
  success_count = pos 3;
  failure_count = pos 0;
  average_latency_ms = 12;
  success_rate = 1;
  error = none;
}

abbrev rollup : RollupColumns ℕ
rollup = record {
  bucket_start = 0;
  interval_seconds = 300;
  sample_count = pos 2;
  success_count = pos 6;
  failure_count = pos 0;
  average_latency_ms = 12;
  success_rate = 1;
  error = none;
}

abbrev database : Schema ℕ
database = record {
  results =
      old
        (old_row 4 none result ∷ old_row 7 (some (codes "[]")) result ∷ old_row 9 none result ∷ []);
  rollups = old (old_row 2 none rollup ∷ []);
  series = none;
  statuses = none;
  has_agent_ip = false;
  has_sequence = true;
}

abbrev drops_out : Statement → Bool
drops_out (insert_rows true) = true
drops_out s = false

-- Unfolds what the tests run through.
program : Unit {0}
unfolding text_eq lookup insert series_eq upsert_series max_id has_series old_series add_series
    matches join_rows blank_agent_ip migrate_table ensure_agent_ip ensure_statuses clear_sequence
    migrate_all migrate_sqlite_db
program = tt

runs :
    ((migrate_sqlite_db never database).0 ≡ migrated)
    × (migrate_sqlite_db drops_out database ≡ (failed, database))
    × (read_table false [] database.results ≡ (
        let u = (migrate_sqlite_db never database).1 in
        elim u.series [ none ↦ [] | some series ↦ read_table true series u.results ]))
unfolding program
runs = (refl, refl, refl)

database-IsWell : IsWell database
database-IsWell = record {
  series = record { distinct = tt; unique = tt };
  results = tt;
  rollups = tt;
}

migrate_sqlite_db_again_example :
    ((migrate_sqlite_db never database).0 ≡ (if is_ready database then not_needed else migrated))
    × (migrate_sqlite_db never (migrate_sqlite_db never database).1
        ≡ (not_needed, (migrate_sqlite_db never database).1))
migrate_sqlite_db_again_example = migrate_sqlite_db_again database database-IsWell refl
