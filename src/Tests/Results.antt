-- ===== src/Tests/Results.antt =====
-- Tests of the handler of results of cmd/supervisor/main.go. A float64 is a number of thousandths here.
use pingmon.Prelude.{
  ℕ, true, false, List, [], ◌∷◌, ◌+◌, ◌*◌, ◌/◌, Option, some, ltb, ◌≡◌, refl, arith,
}
use pingmon.Prelude.Int.{pos_part, ◌+ℤ◌, ◌-ℤ◌, ◌*ℤ◌, wrap64}
use pingmon.Prelude.Text.{Text, codes, text_eq, trim_space, has_suffix, trim_suffix, to_lower, atoi}
use pingmon.Prelude.Eq.{lookup, insert, remove}
use pingmon.Prelude.Sorting.{select, sort}
use pingmon.Model.{Time, day, second, Result}
use pingmon.Storage.Rows.{FloatOps}
use pingmon.Storage.Queries.{results_since, server_results_since}
use pingmon.Supervisor.Ranges.{parse_range_duration, range_duration}
use pingmon.Supervisor.Cache.{
  ResultsCache, key_eq, get, set, drop_key, purge, oldest, is_full, evict, is_accepted, make_room,
  new_results_cache,
}
use pingmon.Supervisor.Results.{
  ResultsReply, json, not_allowed, ResultsRequest, Database, answer, clamped_range, handle_results,
}
use pingmon.Supervisor.Results.Replies.{repeats, handle_results_again}

abbrev milli : FloatOps ℕ
milli = record {
  zero = 0;
  one = 1000;
  add = λ a b. a + b;
  mul = λ a b. a * b / 1000;
  div = λ a b. a * 1000 / b;
  of_int = λ n. pos_part n * 1000;
  lt = ltb;
}

-- Unfolds what the tests run through.
program : Unit {0}
unfolding text_eq trim_space has_suffix trim_suffix to_lower atoi wrap64 ◌*ℤ◌ ◌+ℤ◌ ◌-ℤ◌
    parse_range_duration range_duration lookup insert remove key_eq get set drop_key purge oldest
    is_full evict is_accepted make_room new_results_cache select sort results_since
    server_results_since answer clamped_range handle_results
program = tt

abbrev row_text : Result ℕ → Text
row_text r = r.agent

abbrev count_text : List (Result ℕ) → Option Text
count_text [] = some (codes "none")
count_text (r ∷ rs) = some (codes "some")

abbrev database : Database ℕ
database = record {
  results = [];
  rollups = [];
  faults = record { results_fail = false; rollups_fail = false };
}

abbrev broken : Database ℕ
broken = record database { faults = record { results_fail = true; rollups_fail = true } }

abbrev request : ResultsRequest
request = record { is_get = true; selected_range = codes "24h"; agent = []; dashboard = [] }

abbrev empty : ResultsCache
empty = new_results_cache (5 * second) 64

runs :
    ((handle_results milli row_text count_text broken
        (30 * day)
        0
        (record request { is_get = false })
        empty).0
      ≡ not_allowed)
    × ((clamped_range (codes "7d") []) ≡ codes "24h")
    × ((clamped_range (codes "7d") (codes "a")) ≡ codes "7d")
unfolding program
runs = (refl, refl, refl)

-- The database breaks after the first request, and is there again for the third.
abbrev requests : List (Time × Database ℕ × Time)
requests = (30 * day + 3 * second, broken, 0) ∷ (30 * day + 5 * second, database, 0) ∷ []

abbrev first : ResultsReply × ResultsCache
first = handle_results milli row_text count_text database (30 * day) 0 request empty

handle_results_again_example :
    repeats milli row_text count_text request requests first.1 first
    ≡ (json (codes "none"), first.1)
unfolding program
handle_results_again_example =
    handle_results_again milli row_text count_text request database (30 * day) 0 empty
      (codes "none") requests refl refl refl refl (omega arith, (omega arith, tt))
