-- ===== src/Storage/Stream.antt =====
-- internal/storage/stream.go: the streams of results in windows and pages. A row is a row of `results`
-- or of `result_rollups`, joined with its series and scanned, with its id; the statements succeed.
-- `accepts delivered row` is whether the callback returns nil for the row, after those delivered
-- before. A result whose instant does not parse does not occur: the store writes all of them.
pub mod Order
pub mod Pages
pub mod Windows
pub mod Since
use pingmon.Prelude.{
  ℕ, zero, suc, ◌+◌, ◌-◌, ◌*◌, ◌/◌, Bool, true, false, not, ◌&&◌, ◌||◌, List, [], ◌∷◌, ◌++◌, Option,
  none, some, ltb, leb, ◌==◌, if◌then◌else◌, length, take,
}
use pingmon.Prelude.Text.{Text, text_eq, is_empty}
use pingmon.Prelude.Sorting.{select, sort}
use pingmon.Model.{Time, second, Result}
use pingmon.Storage.Stamps.{suffix, stamp_lt}

abbrev pub stream_query_window : ℕ
stream_query_window = 6 * 3600 * second

abbrev pub max_results_per_window : ℕ
max_results_per_window = 50000

pub record StreamRow (F : Type 0) : Type 0 where
  pub id : ℕ
  pub result : Result F

-- `=` of the texts of two instants.
unfoldable pub stamp_eq : Time → Time → Bool
unfolding suffix
stamp_eq a b = (a / second) == (b / second) && text_eq (suffix a) (suffix b)

module _ {F : Type 0} where
  -- `ORDER BY checked_at DESC, id DESC`.
  unfoldable pub is_before : StreamRow F → StreamRow F → Bool
  is_before a b =
      stamp_lt b.result.checked_at a.result.checked_at
      || (stamp_eq b.result.checked_at a.result.checked_at && ltb b.id a.id)

  -- `checked_at >= since AND checked_at < before`, and the agent if there is one.
  unfoldable pub in_window : Time → Time → Text → StreamRow F → Bool
  in_window since before agent row =
      not (stamp_lt row.result.checked_at since)
      && stamp_lt row.result.checked_at before
      && (is_empty agent || text_eq row.result.agent agent)

  -- The last row of the page before; the empty cursor is `none`.
  unfoldable pub after_cursor : Option (StreamRow F) → StreamRow F → Bool
  after_cursor none row = true
  after_cursor (some last) row =
      stamp_lt row.result.checked_at last.result.checked_at
      || (stamp_eq row.result.checked_at last.result.checked_at && ltb row.id last.id)

  unfoldable pub query_page :
      Time → Time → Text → Option (StreamRow F) → ℕ → List (StreamRow F) → List (StreamRow F)
  unfolding is_before in_window after_cursor
  query_page since before agent cursor limit rows = take limit (
      sort is_before
        (select (λ row. in_window since before agent row && after_cursor cursor row) rows))

  abbrev pub last_row : Option (StreamRow F) → List (StreamRow F) → Option (StreamRow F)
  last_row cursor [] = cursor
  last_row cursor (row ∷ rows) = last_row (some row) rows

  module _ (accepts : List (Result F) → Result F → Bool) where
    -- `streamResultsWithCursor`: the results delivered, and whether none was refused.
    unfoldable pub deliver : List (Result F) → List (StreamRow F) → List (Result F) × Bool
    deliver out [] = (out, true)
    deliver out (row ∷ rows) =
        let rest = deliver (out ++ row.result ∷ []) rows in
        if accepts out row.result then rest else (out, false)

    -- The loop of `streamResultsWindow` and of `streamRollupsWindow`, on fuel, with pages of `limit`.
    unfoldable pub stream_window :
        ℕ
        → ℕ
        → Time
        → Time
        → Text
        → Option (StreamRow F)
        → List (StreamRow F)
        → List (Result F)
        → List (Result F) × Bool
    stream_window limit zero since before agent cursor rows out = (out, false)
    stream_window limit (suc fuel) since before agent cursor rows out =
        let page = query_page since before agent cursor limit rows in
        let (out', ok) = deliver out page in
        let rest = stream_window limit fuel since before agent (last_row cursor page) rows out' in
        if not ok then (out', false) else if ltb (length page) limit then (out', true) else rest

    -- The loop of `streamResultsWindowed` and of `streamRollupsSince`, on fuel.
    unfoldable pub stream_windowed :
        ℕ → ℕ → Time → Time → Text → List (StreamRow F) → List (Result F) → List (Result F) × Bool
    stream_windowed limit zero since cursor agent rows out = (out, false)
    stream_windowed limit (suc fuel) since cursor agent rows out =
        let earlier = cursor - stream_query_window in
        let start = if ltb earlier since then since else earlier in
        let (out', ok) = stream_window limit (length rows + 1) start cursor agent none rows out in
        let rest = stream_windowed limit fuel since start agent rows out' in
        if leb cursor since then (out, true) else if ok then rest else (out', false)

    -- The number of windows, and one.
    abbrev pub windows_fuel : Time → Time → ℕ
    windows_fuel since before = (before - since) / stream_query_window + 2

    unfoldable pub stream_results_since :
        Time → Time → Text → List (StreamRow F) → List (Result F) → List (Result F) × Bool
    unfolding stream_windowed
    stream_results_since since now agent results out =
        stream_windowed max_results_per_window (windows_fuel since now) since now agent results out

    -- The same loops over the rollups.
    unfoldable pub stream_rollups_since :
        Time → Time → Text → List (StreamRow F) → List (Result F) → List (Result F) × Bool
    unfolding stream_windowed
    stream_rollups_since since before agent rollups out =
        stream_windowed max_results_per_window (windows_fuel since before) since before agent
          rollups out

    unfoldable pub stream_results_since_compacted :
        Time
        → Time
        → Time
        → Text
        → List (StreamRow F)
        → List (StreamRow F)
        → List (Result F)
        → List (Result F) × Bool
    unfolding stream_results_since stream_rollups_since
    stream_results_since_compacted since raw_cutoff now agent results rollups out =
        let (out', ok) = stream_results_since raw_cutoff (now + 1) agent results out in
        if leb raw_cutoff since
        then stream_results_since since now agent results out
        else if ok
        then stream_rollups_since since raw_cutoff agent rollups out'
        else (out', false)
