-- ===== src/Storage/Queries.antt =====
-- internal/storage/storage.go: the queries that return lists of results, and `resultsSince` of
-- cmd/supervisor/main.go. A row is a row of `results` or of `result_rollups`, joined with its series and
-- scanned; rows of one instant keep the order of the table.
pub mod Merges
use pingmon.Prelude.{
  ℕ, Bool, true, false, not, ◌&&◌, List, [], ◌∷◌, ◌++◌, Option, none, some, ltb, leb, if◌then◌else◌,
  ◌>>=◌,
}
use pingmon.Prelude.Text.{Text, is_empty, text_eq}
use pingmon.Prelude.Sorting.{select, sort}
use pingmon.Model.{Time, Result}
use pingmon.Storage.Stamps.{stamp_lt}

-- Which of the queries fail.
pub record QueryFaults : Type 0 where
  pub results_fail : Bool
  pub rollups_fail : Bool

module _ {F : Type 0} where
  -- `ORDER BY checked_at DESC`.
  unfoldable pub is_newer : Result F → Result F → Bool
  is_newer a b = stamp_lt b.checked_at a.checked_at

  unfoldable pub is_since : Time → Result F → Bool
  is_since since r = not (stamp_lt r.checked_at since)

  unfoldable pub is_between : Time → Time → Result F → Bool
  unfolding is_since
  is_between since before r = is_since since r && stamp_lt r.checked_at before

  unfoldable pub is_of_agent : Text → Result F → Bool
  is_of_agent agent r = text_eq r.agent agent

  unfoldable pub results_since : Bool → Time → List (Result F) → Option (List (Result F))
  unfolding is_newer
  results_since fails since results =
      if fails then none else some (sort is_newer (select (is_since since) results))

  unfoldable pub results_since_for_agent :
      Bool → Time → Text → List (Result F) → Option (List (Result F))
  unfolding is_newer
  results_since_for_agent fails since agent results =
      if fails
      then none
      else some (sort is_newer (select (λ r. is_of_agent agent r && is_since since r) results))

  unfoldable pub rollups_since : Bool → Time → Time → List (Result F) → Option (List (Result F))
  unfolding is_newer
  rollups_since fails since before rollups =
      if fails then none else some (sort is_newer (select (is_between since before) rollups))

  unfoldable pub rollups_since_for_agent :
      Bool → Time → Time → Text → List (Result F) → Option (List (Result F))
  unfolding is_newer
  rollups_since_for_agent fails since before agent rollups =
      if fails
      then none
      else some
          (sort is_newer (select (λ r. is_of_agent agent r && is_between since before r) rollups))

  unfoldable pub merge_results_desc : List (Result F) → List (Result F) → List (Result F)
  merge_results_desc [] b = b
  merge_results_desc (x ∷ a) [] = x ∷ a
  merge_results_desc (x ∷ a) (y ∷ b) = elim (ltb y.checked_at x.checked_at) [
    | true ↦ x ∷ merge_results_desc a (y ∷ b)
    | false ↦ y ∷ merge_results_desc (x ∷ a) b
  ]

  unfoldable pub results_since_compacted :
      QueryFaults → Time → Time → List (Result F) → List (Result F) → Option (List (Result F))
  unfolding results_since rollups_since merge_results_desc
  results_since_compacted faults since raw_cutoff results rollups =
      if leb raw_cutoff since then results_since faults.results_fail since results else do
        old ← rollups_since faults.rollups_fail since raw_cutoff rollups
        raw ← results_since faults.results_fail raw_cutoff results
        some (merge_results_desc raw old)

  unfoldable pub results_since_compacted_for_agent :
      QueryFaults
      → Time
      → Time
      → Text
      → List (Result F)
      → List (Result F)
      → Option (List (Result F))
  unfolding results_since_for_agent rollups_since_for_agent merge_results_desc
  results_since_compacted_for_agent faults since raw_cutoff agent results rollups =
      if leb raw_cutoff since
      then results_since_for_agent faults.results_fail since agent results
      else do
        old ← rollups_since_for_agent faults.rollups_fail since raw_cutoff agent rollups
        raw ← results_since_for_agent faults.results_fail raw_cutoff agent results
        some (merge_results_desc raw old)

  -- `resultsSince` of the server.
  unfoldable pub server_results_since :
      QueryFaults
      → Time
      → Time
      → Text
      → List (Result F)
      → List (Result F)
      → Option (List (Result F))
  unfolding results_since results_since_for_agent results_since_compacted
      results_since_compacted_for_agent
  server_results_since faults since raw_cutoff agent results rollups =
      if ltb since raw_cutoff
      then if not (is_empty agent)
        then results_since_compacted_for_agent faults since raw_cutoff agent results rollups
        else results_since_compacted faults since raw_cutoff results rollups
      else if not (is_empty agent)
      then results_since_for_agent faults.results_fail since agent results
      else results_since faults.results_fail since results
