-- ===== src/Tests/Charts.antt =====
-- Tests of cmd/supervisor/dashboard_stream.go. A float64 is a number of thousandths here.
use pingmon.Prelude.{ℕ, List, ◌++◌, [], ◌∷◌, ◌+◌, ◌*◌, ◌/◌, ◌≤◌, ltb, length, All, ◌≡◌, refl, arith}
use pingmon.Prelude.Int.{pos, pos_part, ◌+ℤ◌, ◌-ℤ◌}
use pingmon.Prelude.Text.{Text, codes, text_eq}
use pingmon.Prelude.Decimal.{itoa}
use pingmon.Prelude.Eq.{lookup, insert}
use pingmon.Model.{Time, second, Result}
use pingmon.Storage.Rows.{FloatOps}
use pingmon.Supervisor.Chart.{
  AgentRow, ChartSeries, unix_nano, from_unix_nano, chart_key, new_agent_row, add_sample,
  skip_newer, take_bucket, bucket_result, bucket_rows, bucket_loop, is_kept,
  aggregate_single_series,
}
use pingmon.Supervisor.Chart.Aggregate.{
  append_row, group_series, no_budgets, reserve, raise, place_row, sort_stable, choose, share_out,
  set_budgets, series_points, aggregate_rows_by_time,
}
use pingmon.Supervisor.Chart.Budgets.{sum_budgets, rows_of, HasPoint, set_budgets-bounds}
use pingmon.Supervisor.Chart.Totals.{aggregate_rows_by_time-totals}
use pingmon.Supervisor.Chart.Totals.Groups.{total_of}

abbrev milli : FloatOps ℕ
milli = record {
  zero = 0;
  one = 1000;
  add = λ a b. a + b;
  mul = λ a b. a * b / 1000;
  div = λ a b. a * 1000 / b;
  of_int = λ n. pos_part n * 1000;
  lt = ltb;
}

abbrev result : Text → Time → Result ℕ
result agent at = record {
  agent = agent;
  agent_ip = [];
  target_name = [];
  address = [];
  port = pos 1;
  labels = [];
  checked_at = at;
  success_count = pos 3;
  failure_count = pos 1;
  average_latency_ms = 12_000;
  success_rate = 750;
  error = [];
}

abbrev line : Result ℕ → Text
line r = r.agent

-- A row at so many seconds after 1970.
abbrev row : Text → ℕ → AgentRow ℕ
row agent at = record {
  checked_at = pos (at * second);
  line = agent;
  result = result agent (62_135_596_800 * second + at * second);
  series_key = agent ++ 0 ∷ 0 ∷ 0 ∷ b'1' ∷ [];
  latency = 12_000;
}

-- Unfolds what the tests run through.
program : Unit {0}
unfolding unix_nano from_unix_nano chart_key new_agent_row add_sample skip_newer take_bucket
    bucket_result bucket_rows bucket_loop is_kept aggregate_single_series append_row group_series
    no_budgets reserve raise place_row sort_stable choose share_out set_budgets series_points
    aggregate_rows_by_time itoa text_eq lookup insert ◌+ℤ◌ ◌-ℤ◌
program = tt

abbrev rows : List (AgentRow ℕ)
rows = row (codes "a") 40 ∷ row (codes "b") 35 ∷ row (codes "a") 30 ∷ row (codes "a") 20 ∷ []

abbrev key : Text
key = (row (codes "a") 0).series_key

runs : length (aggregate_rows_by_time milli line rows (pos 0) 3) ≡ 3
unfolding program
runs = refl

aggregate_rows_by_time-totals_example :
    (length (aggregate_rows_by_time milli line rows (pos 0) 3) ≤ 3)
    × (total_of (λ r. r.success_count) key (aggregate_rows_by_time milli line rows (pos 0) 3)
        ≡ total_of (λ r. r.success_count) key rows)
    × (total_of (λ r. r.failure_count) key (aggregate_rows_by_time milli line rows (pos 0) 3)
        ≡ total_of (λ r. r.failure_count) key rows)
unfolding program
aggregate_rows_by_time-totals_example =
    aggregate_rows_by_time-totals milli line (pos 0) key rows 3 (omega arith)
      (
        (
          (omega arith, (omega arith, (omega arith, tt))),
          ((omega arith, (omega arith, tt)), ((omega arith, tt), (tt, tt))),
        ),
        (omega arith, (omega arith, (omega arith, (omega arith, tt)))),
        (refl, (refl, (refl, (refl, tt)))),
      )
      (omega arith)

abbrev two_series : List (ChartSeries ℕ)
two_series =
    record { rows = row (codes "a") 40 ∷ row (codes "a") 30 ∷ []; budget = 0 }
    ∷ record { rows = row (codes "b") 35 ∷ []; budget = 0 }
    ∷ []

set_budgets-bounds_example :
    (sum_budgets (set_budgets milli line 2 two_series) ≤ 2)
    × All HasPoint (set_budgets milli line 2 two_series)
    × (rows_of (set_budgets milli line 2 two_series) ≡ rows_of two_series)
set_budgets-bounds_example =
    set_budgets-bounds milli line 2 two_series refl (omega arith) (omega arith, (omega arith, tt))
