-- ===== src/Supervisor/Results.antt =====
-- cmd/supervisor/main.go: `handleResults`, `writeDashboardResults` and `streamResultsSince`: what they
-- read from the store, through the cache. `raw_cutoff` is the instant before which only rollups are read.
pub mod Replies
use pingmon.Prelude.{
  ℕ, Bool, true, false, not, ◌&&◌, ◌||◌, ◌*◌, List, [], ◌∷◌, Option, none, some, ltb, if◌then◌else◌,
}
use pingmon.Prelude.Int.{ℤ, pos, pos_part, ◌-ℤ◌, ltb_ℤ}
use pingmon.Prelude.Text.{Text, codes, is_empty, text_eq}
use pingmon.Model.{Time, second, Result}
use pingmon.Storage.Rows.{FloatOps}
use pingmon.Storage.Stream.{StreamRow, stream_results_since, stream_results_since_compacted}
use pingmon.Storage.Queries.{QueryFaults, server_results_since}
use pingmon.Supervisor.Ranges.{range_duration}
use pingmon.Supervisor.Cache.{CacheKey, ResultsCache, get, set}
use pingmon.Supervisor.Chart.{unix_nano}
use pingmon.Supervisor.Chart.Aggregate.{dashboard_results_data}

pub data ResultsReply : Type 0 where
  not_allowed : ResultsReply
  failed : ResultsReply
  json : Text → ResultsReply

-- `selected_range` is what `selectedRange` returns, `agent` the trimmed parameter.
pub record ResultsRequest : Type 0 where
  pub is_get : Bool
  pub selected_range : Text
  pub agent : Text
  pub dashboard : Text

-- The tables, and what fails; a stream fails if a query that it makes does.
pub record Database (F : Type 0) : Type 0 where
  pub results : List (StreamRow F)
  pub rollups : List (StreamRow F)
  pub faults : QueryFaults

abbrev results_in : {F : Type 0} → List (StreamRow F) → List (Result F)
results_in [] = []
results_in (row ∷ rows) = row.result ∷ results_in rows

-- `time.Now().Add(-rangeDuration(selectedRange))`.
abbrev range_start : Time → Text → Time
range_start now selected_range = pos_part (pos now -ℤ range_duration selected_range)

-- The range of a dashboard of all agents is at most a day.
unfoldable pub clamped_range : Text → Text → Text
clamped_range selected_range agent =
    if is_empty agent && ltb_ℤ (pos (24 * 3600 * second)) (range_duration selected_range)
    then codes "24h"
    else selected_range

-- The answer from the cache, or else from `fresh`, which is then stored.
unfoldable pub answer : Time → CacheKey → Option Text → ResultsCache → ResultsReply × ResultsCache
answer now key fresh cache =
    let (hit, cache') = get now key cache in
    elim hit [
      | some bytes ↦ (json bytes, cache')
      | none ↦ elim fresh [
        | none ↦ (failed, cache')
        | some bytes ↦ (json bytes, set now key bytes cache')
      ]
    ]

abbrev pub request_key : ResultsRequest → CacheKey
request_key r =
    if text_eq r.dashboard (codes "1")
    then record {
      selected_range = clamped_range r.selected_range r.agent;
      agent = r.agent;
      dashboard = true;
    }
    else record { selected_range = r.selected_range; agent = r.agent; dashboard = false }

module _ {F : Type 0} (ops : FloatOps F) (row_text : Result F → Text)
    (marshal_results : List (Result F) → Option Text) where
  -- `streamResultsSince`, with a callback that takes every result.
  unfoldable pub server_stream_results_since :
      Database F → Time → Time → Time → Text → List (Result F) × Bool
  server_stream_results_since db now raw_cutoff since agent =
      if ltb since raw_cutoff
      then stream_results_since_compacted (λ out r. true) since raw_cutoff now agent db.results
          db.rollups []
      else stream_results_since (λ out r. true) since now agent db.results []

  unfoldable pub write_dashboard_results :
      Database F → Time → Time → Text → Text → ResultsCache → ResultsReply × ResultsCache
  unfolding server_stream_results_since answer
  write_dashboard_results db now raw_cutoff selected_range agent cache =
      let range' = clamped_range selected_range agent in
      let since = range_start now range' in
      let streamed = server_stream_results_since db now raw_cutoff since agent in
      let fresh =
        if db.faults.results_fail || (ltb since raw_cutoff && db.faults.rollups_fail)
        then none
        else some (dashboard_results_data ops row_text (unix_nano since) streamed.0) in
      answer now (record { selected_range = range'; agent = agent; dashboard = true }) fresh cache

  unfoldable pub handle_results :
      Database F → Time → Time → ResultsRequest → ResultsCache → ResultsReply × ResultsCache
  unfolding write_dashboard_results answer
  handle_results db now raw_cutoff r cache =
      let key : CacheKey = record {
        selected_range = r.selected_range;
        agent = r.agent;
        dashboard = false;
      } in
      let queried =
        server_results_since db.faults (range_start now r.selected_range) raw_cutoff r.agent
          (results_in db.results) (results_in db.rollups) in
      if not r.is_get
      then (not_allowed, cache)
      else if text_eq r.dashboard (codes "1")
      then write_dashboard_results db now raw_cutoff r.selected_range r.agent cache
      else answer now key (elim queried [ none ↦ none | some rs ↦ marshal_results rs ]) cache
