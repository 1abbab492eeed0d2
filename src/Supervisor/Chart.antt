-- ===== src/Supervisor/Chart.antt =====
-- cmd/supervisor/dashboard_stream.go: the rows of a chart and their aggregation. An instant is a number
-- of nanoseconds since 1970, as UnixNano gives it; sums of counts and instants stay in the range of
-- int64.
pub mod Buckets
pub mod Series
pub mod Aggregate
pub mod Budgets
pub mod Totals
use pingmon.Prelude.{
  ℕ, zero, suc, ◌+◌, ◌-◌, ◌*◌, ◌/◌, Bool, true, false, not, ◌&&◌, ◌||◌, List, [], ◌∷◌, ◌++◌, Option,
  none, some, ltb, leb, ◌==◌, if◌then◌else◌, length, take,
}
use pingmon.Prelude.Int.{ℤ, pos, negsuc, pos_part, ◌+ℤ◌, ◌-ℤ◌, ltb_ℤ, leb_ℤ}
use pingmon.Prelude.Text.{Text, codes, is_empty}
use pingmon.Prelude.Decimal.{itoa}
use pingmon.Prelude.Eq.{text_is_eq, lookup, insert}
use pingmon.Model.{Time, second, Result}
use pingmon.Storage.Rows.{FloatOps}

abbrev pub max_chart_points : ℕ
max_chart_points = 3000

pub record AgentRow (F : Type 0) : Type 0 where
  pub checked_at : ℤ
  pub line : Text
  pub result : Result F
  pub series_key : Text
  pub latency : F

abbrev unix_epoch_nanos : ℕ
unix_epoch_nanos = 62_135_596_800 * second

unfoldable pub unix_nano : Time → ℤ
unix_nano t = pos t -ℤ pos unix_epoch_nanos

-- `time.Unix(0, n)`.
unfoldable pub from_unix_nano : ℤ → Time
from_unix_nano n = pos_part (n +ℤ pos unix_epoch_nanos)

-- The key of a chart's series, with the separator "\x00".
unfoldable pub chart_key : {F : Type 0} → Result F → Text
chart_key result =
    result.agent ++ 0 ∷ result.target_name ++ 0 ∷ result.address ++ 0 ∷ itoa result.port

-- `n / 2` of Go, towards zero.
abbrev pub half : ℤ → ℤ
half (pos n) = pos (n / 2)
half (negsuc n) = pos 0 -ℤ pos (suc n / 2)

abbrev is_zero : ℤ → Bool
is_zero (pos n) = n == 0
is_zero (negsuc n) = false

-- The variables of a bucket; `first` is both the template and the fallback.
pub record Bucket (F : Type 0) : Type 0 where
  pub samples : ℕ
  pub first : Option (AgentRow F)
  pub weighted : F
  pub successes : ℤ
  pub failures : ℤ
  pub problem : Bool
  pub newest : ℤ
  pub oldest : ℤ

-- A series, and the points that it may have.
pub record ChartSeries (F : Type 0) : Type 0 where
  pub rows : List (AgentRow F)
  pub budget : ℕ

module _ {F : Type 0} (ops : FloatOps F) (marshal : Result F → Text) where
  unfoldable pub new_agent_row : Result F → AgentRow F
  new_agent_row result = record {
    checked_at = unix_nano result.checked_at;
    line = marshal result;
    result = result;
    series_key = chart_key result;
    latency = result.average_latency_ms;
  }

  abbrev pub empty_bucket : Bucket F
  empty_bucket = record {
    samples = 0;
    first = none;
    weighted = ops.zero;
    successes = pos 0;
    failures = pos 0;
    problem = false;
    newest = pos 0;
    oldest = pos 0;
  }

  unfoldable pub add_sample : AgentRow F → Bucket F → Bucket F
  add_sample row b = record {
    samples = suc b.samples;
    first = elim b.first [ none ↦ some row | some r ↦ some r ];
    weighted = ops.add b.weighted (ops.mul row.latency (ops.of_int row.result.success_count));
    successes = b.successes +ℤ row.result.success_count;
    failures = b.failures +ℤ row.result.failure_count;
    problem =
        b.problem || ltb_ℤ (pos 0) row.result.failure_count || not (is_empty row.result.error);
    newest = if is_zero b.newest then row.checked_at else b.newest;
    oldest = row.checked_at;
  }

  -- `for startIdx < n && rows[startIdx].checkedAt > bucketEnd`.
  unfoldable pub skip_newer : ℤ → List (AgentRow F) → List (AgentRow F)
  skip_newer end [] = []
  skip_newer end (row ∷ rows) =
      let rest = skip_newer end rows in if ltb_ℤ end row.checked_at then rest else row ∷ rows

  -- The loop over the rows of a bucket: the bucket and the rows after it.
  unfoldable pub take_bucket : ℤ → List (AgentRow F) → Bucket F → Bucket F × List (AgentRow F)
  take_bucket start [] b = (b, [])
  take_bucket start (row ∷ rows) b =
      let rest = take_bucket start rows (add_sample row b) in
      if leb_ℤ start row.checked_at then rest else (b, row ∷ rows)

  unfoldable pub bucket_result : Bucket F → Result F → Result F
  bucket_result b template =
      let total = b.successes +ℤ b.failures in
      record template {
        checked_at = from_unix_nano (b.oldest +ℤ half (b.newest -ℤ b.oldest));
        success_count = b.successes;
        failure_count = b.failures;
        average_latency_ms =
            if ltb_ℤ (pos 0) b.successes
            then ops.div b.weighted (ops.of_int b.successes)
            else ops.zero;
        success_rate =
            if ltb_ℤ (pos 0) total
            then ops.div (ops.of_int b.successes) (ops.of_int total)
            else template.success_rate;
        error = if b.problem then codes "aggregated interval contains failures" else [];
      }

  -- What a bucket appends to the result.
  unfoldable pub bucket_rows : Bucket F → List (AgentRow F)
  bucket_rows b = elim b.first [
    | none ↦ []
    | some row ↦
        if ltb 0 b.samples then new_agent_row (bucket_result b row.result) ∷ [] else row ∷ []
  ]

  abbrev pub is_nil : List (AgentRow F) → Bool
  is_nil [] = true
  is_nil (row ∷ rows) = false

  -- The loop over the buckets that are left.
  unfoldable pub bucket_loop : ℕ → ℤ → ℤ → List (AgentRow F) → List (AgentRow F)
  bucket_loop zero nanos end rows = []
  bucket_loop (suc left) nanos end rows =
      let start = end -ℤ nanos +ℤ pos 1 in
      let (b, rest) = take_bucket start (skip_newer end rows) empty_bucket in
      let later = bucket_loop left nanos (start -ℤ pos 1) rest in
      bucket_rows b ++ (if is_nil rest then [] else later)

  abbrev pub first_at : List (AgentRow F) → ℤ
  first_at [] = pos 0
  first_at (row ∷ rows) = row.checked_at

  abbrev pub last_at : List (AgentRow F) → ℤ
  last_at [] = pos 0
  last_at (row ∷ []) = row.checked_at
  last_at (row ∷ r ∷ rows) = last_at (r ∷ rows)

  abbrev pub span : List (AgentRow F) → ℤ
  span rows = first_at rows -ℤ last_at rows +ℤ pos 1

  -- `bucketNanos`; a target of 0 does not occur, since the source divides by it.
  abbrev pub bucket_nanos : List (AgentRow F) → ℕ → ℕ
  bucket_nanos rows target = (pos_part (span rows) + target - 1) / target

  -- The tests before the loop.
  unfoldable pub is_kept : List (AgentRow F) → ℤ → ℕ → Bool
  is_kept rows since target =
      leb (length rows) target
      || ltb_ℤ (first_at rows -ℤ since) (pos 1)
      || ltb_ℤ (span rows) (pos 1)
      || bucket_nanos rows target == 0

  unfoldable pub aggregate_single_series : List (AgentRow F) → ℤ → ℕ → List (AgentRow F)
  unfolding bucket_loop is_kept
  aggregate_single_series rows since target =
      if is_kept rows since target
      then rows
      else bucket_loop target (pos (bucket_nanos rows target)) (first_at rows) rows
