-- ===== src/Storage/Stream/Since.antt =====
-- internal/storage/stream.go: `StreamResultsSince` and `StreamResultsSinceCompacted`.
use pingmon.Prelude.{◌+◌, ◌-◌, ◌%◌, ◌≤◌, ◌<◌, Bool, false, List, ◌++◌, leb, ◌≡◌, sym, ◌∙◌, arith}
use pingmon.Prelude.Text.{Text}
use pingmon.Prelude.Sorting.{DistinctIds}
use pingmon.Model.{Time, Result}
use pingmon.Storage.Stamps.{stamp_lt}
use pingmon.Storage.Stream.{
  stream_query_window, StreamRow, deliver, stream_results_since, stream_rollups_since,
  stream_results_since_compacted,
}
use pingmon.Storage.Stream.Pages.{window, deliver-append}
use pingmon.Storage.Stream.Windows.{refused, stream_windowed-deliver}

-- The text of the end of the oldest of the windows does not sort before that of its start.
abbrev pub HasOrderedEnd : Time → Time → Type 0
HasOrderedEnd since before = stamp_lt (since + (before - since) % stream_query_window) since ≡ false

module _ {F : Type 0} (accepts : List (Result F) → Result F → Bool) (since now : Time)
    (agent : Text) (results : List (StreamRow F)) (d : DistinctIds (λ r. r.id) results)
    (out : List (Result F)) where
  -- Where `since` is not after `now`, over rows with distinct ids, and where the texts of the ends of
  -- the oldest window are in order, the windows and pages of StreamResultsSince deliver what one
  -- query for the rows of the agent from `since` to `now`, newest first and by falling id at one
  -- instant, gives, up to the first row refused.
  pub stream_results_since-deliver :
      since ≤ now
      → HasOrderedEnd since now
      → stream_results_since accepts since now agent results out
        ≡ deliver accepts out (window since now agent results d)
  unfolding stream_results_since
  stream_results_since-deliver h whole =
      stream_windowed-deliver accepts 49999 since agent results d now out h whole

module _ {F : Type 0} (accepts : List (Result F) → Result F → Bool) (since now : Time)
    (agent : Text) (results : List (StreamRow F)) (d : DistinctIds (λ r. r.id) results)
    (out : List (Result F)) where
  -- Where `since` is before the cutoff, over results and rollups with distinct ids, and where the texts
  -- of the ends of the oldest windows are in order, StreamResultsSinceCompacted delivers the results
  -- of the agent from the cutoff on, then its rollups from `since` to the cutoff, each newest first
  -- and by falling id at one instant, up to the first row refused.
  pub stream_results_since_compacted-deliver :
      (raw_cutoff : Time) (rollups : List (StreamRow F)) (e : DistinctIds (λ r. r.id) rollups)
      → since < raw_cutoff
      → raw_cutoff ≤ now
      → HasOrderedEnd raw_cutoff (now + 1)
      → HasOrderedEnd since raw_cutoff
      → stream_results_since_compacted accepts since raw_cutoff now agent results rollups out
        ≡ deliver accepts out
            (window raw_cutoff (now + 1) agent results d ++ window since raw_cutoff agent rollups e)
  unfolding stream_results_since_compacted stream_rollups_since
  stream_results_since_compacted-deliver raw_cutoff rollups e h k whole whole' =
      let raw = window raw_cutoff (now + 1) agent results d in
      let done = deliver accepts out raw in
      let older : leb raw_cutoff since ≡ false = ground arith in
      let first =
        stream_results_since-deliver accepts raw_cutoff (now + 1) agent results d out (omega arith)
          whole in
      let second =
        stream_windowed-deliver accepts 49999 since agent rollups e raw_cutoff done.0 (omega arith)
          whole' in
      rw (older, first, second)
        (refused done (deliver accepts done.0 (window since raw_cutoff agent rollups e))
          ∙ sym (deliver-append accepts out raw (window since raw_cutoff agent rollups e)))
