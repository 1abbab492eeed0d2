-- ===== src/Tests/Stores.antt =====
-- Tests of internal/storage. A float64 is a number of thousandths here, and a bucket counts seconds
-- from the zero time.
use pingmon.Prelude.{ℕ, true, false, [], ◌∷◌, ◌≡◌, inr, refl, arith, ◌+◌, ◌*◌, ◌/◌, ◌<◌, ltb}
use pingmon.Prelude.Int.{ℤ, pos, pos_part, ◌+ℤ◌}
use pingmon.Prelude.Text.{codes}
use pingmon.Prelude.Eq.{lookup, insert}
use pingmon.Model.{Time, second}
use pingmon.Storage.Stamps.{stamp_lt, stamp_lt_fraction}
use pingmon.Storage.Rows.{FloatOps, ResultRow, RollupRow, Samples}
use pingmon.Storage.Retention.{
  group_eq, truncate, add_row, rollup_row, group_rows, has_rollup, insert_or_ignore, rollup_rows,
  rollup_before, keep_results, delete_before,
}
use pingmon.Storage.Conservation.{Measure, measure}
use pingmon.Storage.Rollups.{measure-delete-rollup, delete-rollup_clash}

abbrev milli : FloatOps ℕ
milli = record {
  zero = 0;
  one = 1000;
  add = λ a b. a + b;
  mul = λ a b. a * b / 1000;
  div = λ a b. a * 1000 / b;
  of_int = λ n. pos_part n * 1000;
  lt = ltb;
}

abbrev bucket : ℕ → Time → Time
bucket seconds t = t / (seconds * second) * (seconds * second)

-- Unfolds what the tests run through.
program : Unit {0}
unfolding stamp_lt lookup insert group_eq truncate add_row rollup_row group_rows has_rollup
    insert_or_ignore rollup_rows rollup_before keep_results delete_before ◌+ℤ◌
program = tt

stamps :
    (stamp_lt (5 * second) (5 * second + 1) ≡ false)
    × (stamp_lt (5 * second + 500_000_000) (5 * second + 510_000_000) ≡ false)
    × (stamp_lt (5 * second + 500_000_000) (6 * second) ≡ true)
unfolding program
stamps = (refl, refl, refl)

fraction_sorts_before :
    (stamp_lt (5 * second + 7) (5 * second) ≡ true) × (5 * second < 5 * second + 7)
fraction_sorts_before =
    stamp_lt_fraction (5 * second + 7) (5 * second) (omega arith) (omega arith) (omega arith)

abbrev row : ℕ → Time → ResultRow ℕ
row id at = record {
  id = id;
  series_id = 1;
  checked_at = at;
  success_count = pos 2;
  failure_count = pos 1;
  average_latency_ms = 4000;
  success_rate = 666;
  error = [];
}

abbrev stored : Samples ℕ
stored = record {
  results = row 3 (125 * second) ∷ row 2 (70 * second) ∷ row 1 (61 * second) ∷ [];
  rollups = [];
}

abbrev minute_rollup : Time → ℤ → RollupRow ℕ
minute_rollup at n = record {
  series_id = 1;
  bucket_start = at;
  interval_seconds = 60;
  sample_count = n;
  success_count = pos (2 * pos_part n);
  failure_count = n;
  average_latency_ms = 4000;
  success_rate = 666;
  error = codes "rollup contains problem samples";
}

rolled :
    (rollup_before milli bucket (130 * second) (60 * second) stored).0
    ≡ record stored { rollups = minute_rollup (60 * second) (pos 2) ∷ [] }
unfolding program
rolled = refl

-- An interval under a second aggregates nothing.
rolled_too_fine : rollup_before milli bucket (130 * second) 20 stored ≡ (stored, 0)
unfolding program
rolled_too_fine = refl

-- The successes of a series.
abbrev successes : Measure milli bucket
successes = record {
  of_result = λ r. r.success_count;
  of_rollup = λ r. r.success_count;
  of_group = λ g. g.successes;
  of_none = refl;
  of_row = λ r g. unfold add_row in refl;
  of_aggregate = λ seconds key g. unfold rollup_row in refl;
}

truncate_130 : truncate (130 * second) (60 * second) ≡ 120 * second
unfolding truncate
truncate_130 = refl

measure-delete-rollup_example :
    measure milli bucket successes 1
      (delete_before milli bucket
        (truncate (130 * second) (60 * second))
        (rollup_before milli bucket (130 * second) (60 * second) stored).0).0
    ≡ measure milli bucket successes 1 stored
unfolding program
measure-delete-rollup_example =
    measure-delete-rollup milli bucket successes 1 (130 * second) (60 * second) stored (omega arith)
      (omega arith) (inr refl, (inr refl, (inr refl, tt)))

-- A result half a second after the cutoff is aggregated alone the first day; the rest of its bucket is
-- deleted the next day with no trace.
abbrev late : Samples ℕ
late = record {
  results = row 2 (130 * second) ∷ row 1 (120 * second + 500_000_000) ∷ [];
  rollups = [];
}

abbrev first_day : Samples ℕ
first_day =
    (delete_before milli bucket (120 * second)
      (rollup_before milli bucket (120 * second) (60 * second) late).0).0

first_day_is : first_day ≡ record {
  results = row 2 (130 * second) ∷ [];
  rollups = minute_rollup (120 * second) (pos 1) ∷ [];
}
unfolding program
first_day_is = refl

abbrev kept : Samples ℕ
kept = record {
  results = row 2 (130 * second) ∷ [];
  rollups = minute_rollup (120 * second) (pos 1) ∷ [];
}

delete-rollup_clash_example :
    (delete_before milli bucket
      (truncate (180 * second) (60 * second))
      (rollup_before milli bucket (180 * second) (60 * second) kept).0).0
    ≡ record kept {
      results = keep_results milli bucket (truncate (180 * second) (60 * second)) kept.results;
    }
unfolding program
delete-rollup_clash_example =
    delete-rollup_clash milli bucket (180 * second) (60 * second) kept (omega arith) (omega arith)
      (inr refl, tt)

second_day_loses : keep_results milli bucket (180 * second) kept.results ≡ []
unfolding program
second_day_loses = refl
