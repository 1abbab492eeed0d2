-- ===== src/Storage/Migration/Repeats.antt =====
-- internal/storage/migrate.go: the migration gets done, and once.
use pingmon.Prelude.{
  Bool, true, false, ◌||◌, Option, none, some, if◌then◌else◌, ◌≡◌, inl, inr, refl, Bool-cases,
}
use pingmon.Storage.Store.{SeriesTable, Statuses}
use pingmon.Storage.Migration.{
  ResultColumns, Table, absent, old, current, Schema, Statement, table_or_empty, not_needed,
  migrated, migrate_table, is_old, ensure_agent_ip, ensure_statuses, clear_sequence, migrate_all,
  is_ready, migrate_sqlite_db,
}
use pingmon.Storage.Migration.Lossless.{IsWell, migrate_all-Kept}

-- No statement fails.
abbrev pub never : Statement → Bool
never s = false

migrate_table-some :
    {P : Type 0} (which : Bool) (series : SeriesTable) (t : Table P)
    → (r : SeriesTable × Table P) × (migrate_table never which series t ≡ some r)
unfolding migrate_table
migrate_table-some which series absent = (_, refl)
migrate_table-some which series (current rows) = (_, refl)
migrate_table-some which series (old rows) = (_, refl)

ensure_statuses-some :
    (s : Option Statuses) → (r : Option Statuses) × (ensure_statuses never s ≡ some r)
unfolding ensure_statuses
ensure_statuses-some none = (_, refl)
ensure_statuses-some (some s) = (_, refl)

module _ {F : Type 0} where
  ensure_agent_ip-some :
      (has : Bool) (t : Table (ResultColumns F))
      → (r : Table (ResultColumns F)) × (ensure_agent_ip never has t ≡ some r)
  unfolding ensure_agent_ip
  ensure_agent_ip-some has absent = (_, refl)
  ensure_agent_ip-some has (current rows) = (_, refl)
  ensure_agent_ip-some true (old rows) = (_, refl)
  ensure_agent_ip-some false (old rows) = (_, refl)

  clear_sequence-some : (t : Schema F) → t.has_sequence ≡ true → clear_sequence never t ≡ some tt
  unfolding clear_sequence
  clear_sequence-some t h = elim (Bool-cases (is_old t.results || is_old t.rollups)) [
    | inl some' ↦ rw (some', h) refl
    | inr none' ↦ rw none' refl
  ]

  migrate_all-some :
      (t : Schema F) → t.has_sequence ≡ true → (u : Schema F) × (migrate_all never t ≡ some u)
  unfolding migrate_all
  migrate_all-some t h =
      let r = ensure_agent_ip-some t.has_agent_ip t.results in
      let f = migrate_table-some false (table_or_empty t.series) r.0 in
      let g = migrate_table-some true f.0.0 t.rollups in
      let s = ensure_statuses-some t.statuses in
      rw (r.1, f.1, g.1, s.1, clear_sequence-some t h) (_, refl)

  -- Where no statement fails and there is a table `sqlite_sequence`, the migration is done if there is
  -- something to move, and started again it is not needed and changes nothing.
  pub migrate_sqlite_db_again :
      (t : Schema F)
      → IsWell t
      → t.has_sequence ≡ true
      → ((migrate_sqlite_db never t).0 ≡ (if is_ready t then not_needed else migrated))
        × (migrate_sqlite_db never (migrate_sqlite_db never t).1
            ≡ (not_needed, (migrate_sqlite_db never t).1))
  unfolding migrate_sqlite_db
  migrate_sqlite_db_again t w h = elim (Bool-cases (is_ready t)) [
    | inl ready ↦ rw (migrate_sqlite_db, ready) (refl, rw (migrate_sqlite_db, ready) refl)
    | inr needed ↦
        let made = migrate_all-some t h in
        let kept = migrate_all-Kept never t made.0 w made.1 in
        rw (migrate_sqlite_db, needed, made.1) (refl, rw (migrate_sqlite_db, kept.ready) refl)
  ]
