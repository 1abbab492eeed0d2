-- ===== src/Storage/Rollups.antt =====
-- internal/storage/storage.go, cmd/supervisor/main.go: the two steps of the retention together.
use pingmon.Prelude.{
  ℕ, ◌<◌, ◌≤◌, ◌/◌, true, false, List, [], ◌∷◌, ◌≡◌, ◌≢◌, refl, arith, ◌||◌, ◌==◌, Bool-cases, ◌⊎◌,
  inl, inr,
}
use pingmon.Prelude.Int.{int_laws}
use pingmon.Prelude.Eq.{lookup, insert}
use pingmon.Model.{Time, second}
use pingmon.Storage.Stamps.{stamp_lt}
use pingmon.Storage.Rows.{FloatOps, ResultRow, RollupRow, Samples}
use pingmon.Storage.Retention.{
  GroupKey, group_eq, group_is_eq, Group, truncate, add_row, key_of, group_or, group_rows,
  has_rollup, insert_or_ignore, rollup_rows, rollup_before, keep_results, delete_before,
}
use pingmon.Storage.Conservation.{
  Measure, measure, Free, group_rows-Distinct, Free-insert, sum_rollups-insert_or_ignore,
  sum_groups-group_rows,
}

module _ {F : Type 0} (ops : FloatOps F) (bucket : ℕ → Time → Time) where
  -- No result that is due has its bucket aggregated already.
  abbrev pub NoClash : ℕ → Time → List (RollupRow F) → List (ResultRow F) → Type 0
  NoClash seconds cutoff rollups [] = Unit
  NoClash seconds cutoff rollups (r ∷ rows) =
      ((stamp_lt r.checked_at cutoff ≡ false)
        ⊎ (has_rollup ops bucket seconds (key_of ops bucket seconds r) rollups ≡ false))
      × NoClash seconds cutoff rollups rows

  -- Every result that is due has its bucket aggregated already.
  abbrev pub AllClash : ℕ → Time → List (RollupRow F) → List (ResultRow F) → Type 0
  AllClash seconds cutoff rollups [] = Unit
  AllClash seconds cutoff rollups (r ∷ rows) =
      ((stamp_lt r.checked_at cutoff ≡ false)
        ⊎ (has_rollup ops bucket seconds (key_of ops bucket seconds r) rollups ≡ true))
      × AllClash seconds cutoff rollups rows

  rollup_before_due :
      (cutoff : Time) (interval : ℕ) (s : Samples F)
      → (interval == 0 || truncate cutoff interval == 0) ≡ false
      → (rollup_before ops bucket cutoff interval s).0
        ≡ rollup_rows ops bucket (interval / second) (truncate cutoff interval) s
  unfolding rollup_before
  rollup_before_due cutoff interval s due = rw due refl

  module _ (m : Measure ops bucket) (series : ℕ) where
    group_rows-Free :
        (seconds : ℕ) (cutoff : Time) (rollups : List (RollupRow F)) (rows : List (ResultRow F))
        → NoClash seconds cutoff rollups rows
        → Free ops bucket m series seconds (group_rows ops bucket seconds cutoff rows) rollups
    unfolding group_rows
    group_rows-Free seconds cutoff rollups [] h = tt
    group_rows-Free seconds cutoff rollups (r ∷ rows) h =
        let groups = group_rows ops bucket seconds cutoff rows in
        let k = key_of ops bucket seconds r in
        elim (Bool-cases (stamp_lt r.checked_at cutoff)) [
          | inl old ↦ rw old (
              Free-insert ops bucket m series seconds k
                (add_row ops bucket r (group_or ops bucket (lookup k groups))) groups rollups
                (ground (arith, h.0, old)) (group_rows-Free seconds cutoff rollups rows h.1))
          | inr new ↦ rw new (group_rows-Free seconds cutoff rollups rows h.1)
        ]

    -- Aggregating the results before the truncated cutoff and then deleting them keeps the samples,
    -- the successes and the failures of every series (any measure), if no bucket of a result that is
    -- due has a rollup already. The interval is one second or longer.
    pub measure-delete-rollup :
        (cutoff : Time) (interval : ℕ) (s : Samples F)
        → second ≤ interval
        → truncate cutoff interval ≢ 0
        → NoClash (interval / second) (truncate cutoff interval) s.rollups s.results
        → measure ops bucket m series
            (delete_before ops bucket
              (truncate cutoff interval)
              (rollup_before ops bucket cutoff interval s).0).0
          ≡ measure ops bucket m series s
    measure-delete-rollup cutoff interval s positive late free =
        let c = truncate cutoff interval in
        let seconds = interval / second in
        let groups = group_rows ops bucket seconds c s.results in
        let due : ((interval == 0 || c == 0) ≡ false) = ground arith in
        let some_seconds : ((seconds == 0) ≡ false) = ground arith in
        let added =
          sum_rollups-insert_or_ignore ops bucket m series seconds groups s.rollups
            (group_rows-Distinct ops bucket m series seconds c s.results)
            (group_rows-Free seconds c s.rollups s.results free) in
        let split = sum_groups-group_rows ops bucket m series seconds c s.results in
        rw (rollup_before_due cutoff interval s due)
          (unfold delete_before rollup_rows in rw (some_seconds, added, ← split) (omega int_laws))

  -- Every group has a rollup.
  Taken : ℕ → List (GroupKey × Group F) → List (RollupRow F) → Type 0
  Taken seconds [] rows = Unit
  Taken seconds ((k, g) ∷ groups) rows =
      (has_rollup ops bucket seconds k rows ≡ true) × Taken seconds groups rows

  Taken-insert :
      (seconds : ℕ) (k : GroupKey) (g : Group F) (groups : List (GroupKey × Group F))
      (rows : List (RollupRow F))
      → has_rollup ops bucket seconds k rows ≡ true
      → Taken seconds groups rows
      → Taken seconds (insert k g groups) rows
  unfolding insert Taken
  Taken-insert seconds k g [] rows h f = (h, tt)
  Taken-insert seconds k g ((j, h') ∷ groups) rows h f = elim (Bool-cases (group_eq j k)) [
    | inl same ↦ rw same (h, f.1)
    | inr other ↦ rw other (f.0, Taken-insert seconds k g groups rows h f.1)
  ]

  group_rows-Taken :
      (seconds : ℕ) (cutoff : Time) (rollups : List (RollupRow F)) (rows : List (ResultRow F))
      → AllClash seconds cutoff rollups rows
      → Taken seconds (group_rows ops bucket seconds cutoff rows) rollups
  unfolding group_rows Taken
  group_rows-Taken seconds cutoff rollups [] h = tt
  group_rows-Taken seconds cutoff rollups (r ∷ rows) h =
      let groups = group_rows ops bucket seconds cutoff rows in
      let k = key_of ops bucket seconds r in
      elim (Bool-cases (stamp_lt r.checked_at cutoff)) [
        | inl old ↦ rw old (
            Taken-insert seconds k (add_row ops bucket r (group_or ops bucket (lookup k groups)))
              groups rollups (ground (arith, h.0, old))
              (group_rows-Taken seconds cutoff rollups rows h.1))
        | inr new ↦ rw new (group_rows-Taken seconds cutoff rollups rows h.1)
      ]

  insert_or_ignore-Taken :
      (seconds : ℕ) (groups : List (GroupKey × Group F)) (rows : List (RollupRow F))
      → Taken seconds groups rows
      → insert_or_ignore ops bucket seconds groups rows ≡ rows
  unfolding insert_or_ignore Taken
  insert_or_ignore-Taken seconds [] rows h = refl
  insert_or_ignore-Taken seconds ((k, g) ∷ groups) rows h =
      rw h.0 (insert_or_ignore-Taken seconds groups rows h.1)

  -- Where every result that is due falls into a bucket with a rollup, aggregating and deleting adds
  -- nothing to the rollups and deletes those results: their counts are in neither table.
  pub delete-rollup_clash :
      (cutoff : Time) (interval : ℕ) (s : Samples F)
      → 0 < interval
      → truncate cutoff interval ≢ 0
      → AllClash (interval / second) (truncate cutoff interval) s.rollups s.results
      → (delete_before ops bucket
          (truncate cutoff interval)
          (rollup_before ops bucket cutoff interval s).0).0
        ≡ record s { results = keep_results ops bucket (truncate cutoff interval) s.results }
  delete-rollup_clash cutoff interval s positive late clash =
      let c = truncate cutoff interval in
      let due : ((interval == 0 || c == 0) ≡ false) = ground arith in
      let seconds = interval / second in
      let same =
        insert_or_ignore-Taken seconds (group_rows ops bucket seconds c s.results) s.rollups
          (group_rows-Taken seconds c s.rollups s.results clash) in
      rw (rollup_before_due cutoff interval s due) (
        unfold delete_before rollup_rows in
        elim (Bool-cases (seconds == 0)) [
          | inl zero ↦ rw zero refl
          | inr some_seconds ↦ rw (some_seconds, same) refl
        ])
