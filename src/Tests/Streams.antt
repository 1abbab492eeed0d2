-- ===== src/Tests/Streams.antt =====
-- Tests of internal/storage/stream.go. A float64 is a number of thousandths here.
use pingmon.Prelude.{
  ℕ, List, false, [], ◌∷◌, ◌++◌, ◌+◌, ◌*◌, ltb, length, none, Bool, ◌≡◌, refl, arith,
}
use pingmon.Prelude.Int.{pos}
use pingmon.Prelude.Text.{Text, codes, text_eq}
use pingmon.Prelude.Sorting.{select, place, sort, DistinctIds}
use pingmon.Model.{Time, second, Result}
use pingmon.Storage.Stamps.{suffix, text_lt, stamp_lt}
use pingmon.Storage.Stream.{
  StreamRow, stamp_eq, is_before, in_window, after_cursor, query_page, deliver, stream_window,
  stream_windowed, stream_results_since, stream_rollups_since, stream_results_since_compacted,
}
use pingmon.Storage.Stream.Pages.{window, remaining, stream_window-deliver}
use pingmon.Storage.Stream.Since.{
  stream_results_since-deliver, stream_results_since_compacted-deliver,
}

abbrev row : ℕ → Text → Time → StreamRow ℕ
row id agent at = record {
  id = id;
  result = record {
    agent = agent;
    agent_ip = [];
    target_name = [];
    address = [];
    port = pos 1;
    labels = [];
    checked_at = at;
    success_count = pos 3;
    failure_count = pos 1;
    average_latency_ms = 12_000;
    success_rate = 750;
    error = [];
  };
}

-- Unfolds what the tests run through.
program : Unit {0}
unfolding select place sort suffix text_lt text_eq stamp_lt stamp_eq is_before in_window
    after_cursor query_page deliver stream_window stream_windowed stream_results_since
    stream_rollups_since stream_results_since_compacted
program = tt

-- Refuses the third result.
abbrev two_only : List (Result ℕ) → Result ℕ → Bool
two_only out r = ltb (length out) 2

abbrev hour : ℕ
hour = 3600 * second

abbrev rows : List (StreamRow ℕ)
rows =
    row 1 (codes "a") (2 * hour)
    ∷ row 2 (codes "a") (9 * hour)
    ∷ row 3 (codes "b") (9 * hour)
    ∷ row 4 (codes "a") (9 * hour)
    ∷ row 5 (codes "a") (15 * hour)
    ∷ []

abbrev rows_distinct : DistinctIds (λ r. r.id) rows
rows_distinct = (
  (λ e. omega arith, (λ e. omega arith, (λ e. omega arith, (λ e. omega arith, tt)))),
  (
    (λ e. omega arith, (λ e. omega arith, (λ e. omega arith, tt))),
    ((λ e. omega arith, (λ e. omega arith, tt)), ((λ e. omega arith, tt), (tt, tt))),
  ),
)

-- Two rows of one instant on two pages.
pages : (stream_window two_only 1 6 hour (10 * hour) (codes "a") none rows []).1 ≡ false
unfolding program
pages = refl

window_delivers :
    stream_window two_only 1 6 hour (10 * hour) (codes "a") none rows []
    ≡ deliver two_only [] (remaining hour (10 * hour) (codes "a") rows rows_distinct none)
unfolding program
window_delivers =
    stream_window-deliver hour (10 * hour) (codes "a") rows rows_distinct two_only 0 6 none []
      (omega arith)

stream_results_since-deliver_example :
    stream_results_since two_only hour (16 * hour) (codes "a") rows []
    ≡ deliver two_only [] (window hour (16 * hour) (codes "a") rows rows_distinct)
unfolding program
stream_results_since-deliver_example =
    stream_results_since-deliver two_only hour (16 * hour) (codes "a") rows rows_distinct []
      (omega arith) refl

abbrev rollups : List (StreamRow ℕ)
rollups = row 1 (codes "a") (3 * hour) ∷ row 2 (codes "a") (4 * hour) ∷ []

abbrev rollups_distinct : DistinctIds (λ r. r.id) rollups
rollups_distinct = ((λ e. omega arith, tt), (tt, tt))

stream_results_since_compacted-deliver_example :
    stream_results_since_compacted two_only hour (6 * hour) (16 * hour) (codes "a") rows rollups []
    ≡ deliver two_only [] (
        window (6 * hour) (16 * hour + 1) (codes "a") rows rows_distinct
        ++ window hour (6 * hour) (codes "a") rollups rollups_distinct)
unfolding program
stream_results_since_compacted-deliver_example =
    stream_results_since_compacted-deliver two_only hour (16 * hour) (codes "a") rows rows_distinct
      [] (6 * hour) rollups rollups_distinct (omega arith) (omega arith) refl refl
