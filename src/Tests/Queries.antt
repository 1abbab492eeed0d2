-- ===== src/Tests/Queries.antt =====
-- Tests of the queries of internal/storage/storage.go. A float64 is a number of thousandths here.
use mathlib.Core.List.{Perm}
use pingmon.Prelude.{ℕ, true, false, List, [], ◌∷◌, ◌++◌, none, some, ◌≡◌, ◌⊎◌, refl, arith, ◌*◌}
use pingmon.Prelude.Int.{pos}
use pingmon.Prelude.Text.{Text, codes, text_eq}
use pingmon.Prelude.Sorting.{select, place, sort}
use pingmon.Model.{Time, second, Result}
use pingmon.Storage.Stamps.{suffix, text_lt, stamp_lt}
use pingmon.Storage.Queries.{
  QueryFaults, is_newer, is_since, is_between, is_of_agent, results_since, results_since_for_agent,
  rollups_since, rollups_since_for_agent, merge_results_desc, results_since_compacted,
  results_since_compacted_for_agent, server_results_since,
}
use pingmon.Storage.Queries.Merges.{
  NewestFirst, a_query_fails, asked_for, merge_results_desc_lem, server_results_since-cases,
}

abbrev result : Text → Time → Result ℕ
result agent at = record {
  agent = agent;
  agent_ip = [];
  target_name = [];
  address = [];
  port = pos 1;
  labels = [];
  checked_at = at;
  success_count = pos 3;
  failure_count = pos 1;
  average_latency_ms = 12_000;
  success_rate = 750;
  error = [];
}

-- Unfolds what the tests run through.
program : Unit {0}
unfolding select place sort suffix text_lt text_eq stamp_lt is_newer is_since is_between is_of_agent
    results_since results_since_for_agent rollups_since rollups_since_for_agent merge_results_desc
    results_since_compacted results_since_compacted_for_agent server_results_since
program = tt

abbrev results : List (Result ℕ)
results =
    result (codes "a") (50 * second)
    ∷ result (codes "b") (60 * second)
    ∷ result (codes "a") (70 * second)
    ∷ []

abbrev rollups : List (Result ℕ)
rollups = result (codes "a") (20 * second) ∷ result (codes "a") (30 * second) ∷ []

abbrev fine : QueryFaults
fine = record { results_fail = false; rollups_fail = false }

runs :
    (server_results_since fine (25 * second) (40 * second) (codes "a") results rollups
      ≡ some (
          result (codes "a") (70 * second)
          ∷ result (codes "a") (50 * second)
          ∷ result (codes "a") (30 * second)
          ∷ []))
    × (server_results_since
          (record fine { rollups_fail = true })
          (25 * second)
          (40 * second)
          []
          results
          rollups
        ≡ none)
unfolding program
runs = (refl, refl)

server_results_since-cases_example :
    ((a_query_fails fine (25 * second) (40 * second) ≡ true)
      × (server_results_since fine (25 * second) (40 * second) (codes "a") results rollups ≡ none))
    ⊎ ((a_query_fails fine (25 * second) (40 * second) ≡ false)
        × ((out : List (Result ℕ)) × (server_results_since fine
                (25 * second)
                (40 * second)
                (codes "a")
                results
                rollups
              ≡ some out)
            × Perm out (asked_for (25 * second) (40 * second) (codes "a") results rollups)))
server_results_since-cases_example =
    server_results_since-cases fine (25 * second) (40 * second) (codes "a") results rollups

abbrev newest : List (Result ℕ)
newest = result (codes "a") (70 * second) ∷ result (codes "b") (30 * second) ∷ []

abbrev others : List (Result ℕ)
others = result (codes "a") (60 * second) ∷ result (codes "a") (30 * second) ∷ []

merge_keeps_order :
    NewestFirst (merge_results_desc newest others)
    × Perm (merge_results_desc newest others) (newest ++ others)
merge_keeps_order =
    merge_results_desc_lem newest others ((omega arith, tt), (tt, tt)) ((omega arith, tt), (tt, tt))
