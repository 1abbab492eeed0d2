-- ===== src/Storage/Retention.antt =====
-- internal/storage/storage.go: `RollupBefore`, `DeleteBefore`, `DeleteRollupsBefore`, and
-- cmd/supervisor/main.go: `cleanOldData`, which calls them. `bucket seconds t` is what SQLite gives
-- for strftime over `unixepoch(checked_at) / seconds * seconds`.
use pingmon.Prelude.{
  ℕ, ◌+◌, ◌-◌, ◌*◌, ◌/◌, ◌%◌, Bool, true, false, not, ◌&&◌, ◌||◌, List, [], ◌∷◌, Option, none, some,
  ◌≡◌, ◌↔◌, arith, ltb, ◌==◌, if◌then◌else◌, length,
}
use pingmon.Prelude.Int.{ℤ, pos, ◌+ℤ◌, ltb_ℤ, pos_part}
use pingmon.Prelude.Text.{codes, is_empty}
use pingmon.Prelude.Eq.{Eq, lookup, insert}
use pingmon.Model.{Time, second, day}
use pingmon.Config.Defs.{Config}
use pingmon.Storage.Stamps.{stamp_lt}
use pingmon.Storage.Rows.{FloatOps, ResultRow, RollupRow, Samples}

-- The columns of `GROUP BY`.
pub record GroupKey : Type 0 where
  pub series_id : ℕ
  pub bucket_start : Time

unfoldable pub group_eq : GroupKey → GroupKey → Bool
group_eq j k = j.series_id == k.series_id && j.bucket_start == k.bucket_start

pub group_eq_iff : (j k : GroupKey) → (group_eq j k ≡ true) ↔ (j ≡ k)
unfolding group_eq
group_eq_iff j k = ground arith

instance abbrev pub group_is_eq : Eq GroupKey
group_is_eq = record { beq = group_eq; beq_iff = group_eq_iff }

-- The aggregates of a group: COUNT(*), the sums, and the number of problem samples.
pub record Group (F : Type 0) : Type 0 where
  pub count : ℤ
  pub successes : ℤ
  pub failures : ℤ
  pub weighted : F
  pub problems : ℕ

-- `time.Time.Truncate`, which counts from the zero time.
unfoldable pub truncate : Time → ℕ → Time
truncate t d = if d == 0 then t else t - t % d

-- Which of the three statements fail, and so change nothing.
pub record Faults : Type 0 where
  pub rollup_fails : Bool
  pub delete_fails : Bool
  pub delete_rollups_fails : Bool

-- `now.AddDate(0, 0, -days)`, with days of 24 hours.
abbrev pub days_before : Time → ℤ → Time
days_before now days = now - pos_part days * day

module _ {F : Type 0} (ops : FloatOps F) (bucket : ℕ → Time → Time) where
  abbrev pub no_group : Group F
  no_group = record {
    count = pos 0;
    successes = pos 0;
    failures = pos 0;
    weighted = ops.zero;
    problems = 0;
  }

  abbrev is_problem : ResultRow F → Bool
  is_problem r =
      ltb_ℤ (pos 0) r.failure_count || ops.lt r.success_rate ops.one || not (is_empty r.error)

  unfoldable pub add_row : ResultRow F → Group F → Group F
  add_row r g = record {
    count = g.count +ℤ pos 1;
    successes = g.successes +ℤ r.success_count;
    failures = g.failures +ℤ r.failure_count;
    weighted = ops.add g.weighted (ops.mul r.average_latency_ms (ops.of_int r.success_count));
    problems = if is_problem r then g.problems + 1 else g.problems;
  }

  abbrev pub key_of : ℕ → ResultRow F → GroupKey
  key_of seconds r = record { series_id = r.series_id; bucket_start = bucket seconds r.checked_at }

  abbrev pub group_or : Option (Group F) → Group F
  group_or none = no_group
  group_or (some g) = g

  -- `FROM results WHERE checked_at < ? GROUP BY series_id, bucket_start`.
  unfoldable pub group_rows : ℕ → Time → List (ResultRow F) → List (GroupKey × Group F)
  group_rows seconds cutoff [] = []
  group_rows seconds cutoff (r ∷ rows) =
      let groups = group_rows seconds cutoff rows in
      let key = key_of seconds r in
      if stamp_lt r.checked_at cutoff
      then insert key (add_row r (group_or (lookup key groups))) groups
      else groups

  -- The selected row.
  unfoldable pub rollup_row : ℕ → GroupKey → Group F → RollupRow F
  rollup_row seconds key g =
      let total = g.successes +ℤ g.failures in
      record {
        series_id = key.series_id;
        bucket_start = key.bucket_start;
        interval_seconds = seconds;
        sample_count = g.count;
        success_count = g.successes;
        failure_count = g.failures;
        average_latency_ms =
            if ltb_ℤ (pos 0) g.successes
            then ops.div g.weighted (ops.of_int g.successes)
            else ops.zero;
        success_rate =
            if ltb_ℤ (pos 0) total
            then ops.div (ops.of_int g.successes) (ops.of_int total)
            else ops.zero;
        error = if ltb 0 g.problems then codes "rollup contains problem samples" else [];
      }

  -- Whether the unique index has the key.
  unfoldable pub has_rollup : ℕ → GroupKey → List (RollupRow F) → Bool
  has_rollup seconds key [] = false
  has_rollup seconds key (r ∷ rows) =
      (r.series_id == key.series_id
        && r.bucket_start == key.bucket_start
        && r.interval_seconds == seconds)
      || has_rollup seconds key rows

  -- `INSERT OR IGNORE`, group by group.
  unfoldable pub insert_or_ignore :
      ℕ → List (GroupKey × Group F) → List (RollupRow F) → List (RollupRow F)
  insert_or_ignore seconds [] rows = rows
  insert_or_ignore seconds ((key, g) ∷ groups) rows =
      insert_or_ignore seconds groups
        (if has_rollup seconds key rows then rows else rollup_row seconds key g ∷ rows)

  -- The statement of `RollupBefore`, at a cutoff that is truncated already. With 0 seconds the division
  -- in SQL gives NULL as the bucket of each row, and a row that is NULL in that column is ignored.
  unfoldable pub rollup_rows : ℕ → Time → Samples F → Samples F
  rollup_rows seconds cutoff s = record s {
    rollups =
        if seconds == 0
        then s.rollups
        else insert_or_ignore seconds (group_rows seconds cutoff s.results) s.rollups;
  }

  -- The store and the number of rows added. `interval` is in nanoseconds.
  unfoldable pub rollup_before : Time → ℕ → Samples F → Samples F × ℕ
  rollup_before cutoff interval s =
      let cutoff' = truncate cutoff interval in
      if interval == 0 || cutoff' == 0
      then (s, 0)
      else (let s' = rollup_rows (interval / second) cutoff' s in
          (s', length s'.rollups - length s.rollups))

  unfoldable pub keep_results : Time → List (ResultRow F) → List (ResultRow F)
  keep_results cutoff [] = []
  keep_results cutoff (r ∷ rows) =
      let rest = keep_results cutoff rows in if stamp_lt r.checked_at cutoff then rest else r ∷ rest

  unfoldable pub delete_before : Time → Samples F → Samples F × ℕ
  delete_before cutoff s =
      let kept = keep_results cutoff s.results in
      (record s { results = kept }, length s.results - length kept)

  unfoldable pub keep_rollups : Time → List (RollupRow F) → List (RollupRow F)
  keep_rollups cutoff [] = []
  keep_rollups cutoff (r ∷ rows) =
      let rest = keep_rollups cutoff rows in
      if stamp_lt r.bucket_start cutoff then rest else r ∷ rest

  unfoldable pub delete_rollups_before : Time → Samples F → Samples F × ℕ
  delete_rollups_before cutoff s =
      let kept = keep_rollups cutoff s.rollups in
      (record s { rollups = kept }, length s.rollups - length kept)

  -- `cleanOldData`: the store, and whether the cache of results is cleared. The numbers of the
  -- configuration are positive (`load-IsReady`).
  unfoldable pub clean_old_data : Faults → Time → Config → Samples F → Samples F × Bool
  unfolding rollup_before delete_before delete_rollups_before truncate
  clean_old_data faults now cfg s =
      let raw_cutoff = days_before now cfg.raw_retention_days in
      let retention_cutoff = days_before now cfg.retention_days in
      let interval = pos_part cfg.rollup_interval_mins * (60 * second) in
      let (rolled, n) = rollup_before raw_cutoff interval s in
      let (trimmed, m) = delete_before (truncate raw_cutoff interval) rolled in
      let (done, k) = delete_rollups_before retention_cutoff trimmed in
      if faults.rollup_fails
      then (s, false)
      else if faults.delete_fails
      then (rolled, false)
      else if faults.delete_rollups_fails
      then (trimmed, false)
      else (done, ltb 0 n || ltb 0 m || ltb 0 k)
