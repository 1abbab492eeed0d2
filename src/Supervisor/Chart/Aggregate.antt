-- ===== src/Supervisor/Chart/Aggregate.antt =====
-- cmd/supervisor/dashboard_stream.go: `aggregateRowsByTime`, `marshalRows` and `dashboardResultsData`.
-- A map of series to their place_row in a list is an association list in the order of first mention.
use pingmon.Prelude.{
  ℕ, zero, suc, ◌-◌, ◌*◌, ◌&&◌, ◌||◌, List, [], ◌∷◌, ◌++◌, Option, none, some, ltb, leb, ◌==◌,
  if◌then◌else◌, length, take,
}
use pingmon.Prelude.Int.{ℤ, pos, negsuc, ltb_ℤ}
use pingmon.Prelude.Text.{Text}
use pingmon.Prelude.Eq.{text_is_eq, lookup, insert}
use pingmon.Model.{Result}
use pingmon.Storage.Rows.{FloatOps}
use pingmon.Supervisor.Chart.{
  AgentRow, ChartSeries, max_chart_points, new_agent_row, aggregate_single_series,
}

abbrev pub min : ℕ → ℕ → ℕ
min a b = if ltb a b then a else b

module _ {F : Type 0} where
  abbrev pub or_nil : Option (List (AgentRow F)) → List (AgentRow F)
  or_nil none = []
  or_nil (some rows) = rows

  unfoldable pub append_row :
      AgentRow F → List (Text × List (AgentRow F)) → List (Text × List (AgentRow F))
  append_row row groups =
      insert row.series_key (or_nil (lookup row.series_key groups) ++ row ∷ []) groups

  -- The rows of each series.
  unfoldable pub group_series :
      List (Text × List (AgentRow F)) → List (AgentRow F) → List (Text × List (AgentRow F))
  group_series groups [] = groups
  group_series groups (row ∷ rows) = group_series (append_row row groups) rows

  unfoldable pub no_budgets : List (Text × List (AgentRow F)) → List (ChartSeries F)
  no_budgets [] = []
  no_budgets ((key, rows) ∷ groups) = record { rows = rows; budget = 0 } ∷ no_budgets groups

  -- The first loop over the series, with the points that remain.
  unfoldable pub reserve : ℕ → ℕ → List (ChartSeries F) → List (ChartSeries F) × ℕ
  reserve minimum remaining [] = ([], remaining)
  reserve minimum remaining (s ∷ list) =
      let least = min minimum (length s.rows) in
      let budget = if ltb remaining least then remaining else least in
      let rest = reserve minimum (remaining - budget) list in
      if remaining == 0
      then (s ∷ list, remaining)
      else (record s { budget = budget } ∷ rest.0, rest.1)

  unfoldable pub raise : ℕ → List (ChartSeries F) → List (ChartSeries F)
  raise i [] = []
  raise zero (s ∷ list) = record s { budget = suc s.budget } ∷ list
  raise (suc i) (s ∷ list) = s ∷ raise i list

  -- `sort.SliceStable`, by insertion.
  unfoldable pub place_row : AgentRow F → List (AgentRow F) → List (AgentRow F)
  place_row row [] = row ∷ []
  place_row row (r ∷ rows) =
      if ltb_ℤ row.checked_at r.checked_at then r ∷ place_row row rows else row ∷ r ∷ rows

  unfoldable pub sort_stable : List (AgentRow F) → List (AgentRow F)
  sort_stable [] = []
  sort_stable (row ∷ rows) = place_row row (sort_stable rows)

  -- The rows after the first.
  unfoldable pub more_rows : List (AgentRow F) → Text
  more_rows [] = []
  more_rows (row ∷ rows) = b',' ∷ row.line ++ more_rows rows

  unfoldable pub marshal_rows : List (AgentRow F) → Text
  unfolding more_rows
  marshal_rows [] = b'[' ∷ b']' ∷ []
  marshal_rows (row ∷ rows) = b'[' ∷ row.line ++ more_rows rows ++ b']' ∷ []

module _ {F : Type 0} (ops : FloatOps F) (marshal : Result F → Text) where
  -- The inner loop of the distribution, from the series at `i` on.
  unfoldable pub choose : ℕ → Option ℕ → F → List (ChartSeries F) → Option ℕ
  choose i best best_score [] = best
  choose i best best_score (s ∷ list) =
      let score = ops.div (ops.of_int (pos (length s.rows))) (ops.of_int (pos (suc s.budget))) in
      let wins = ltb s.budget (length s.rows) && ops.lt best_score score in
      choose (suc i) (if wins then some i else best) (if wins then score else best_score) list

  -- The distribution of the points that remain.
  unfoldable pub share_out : ℕ → List (ChartSeries F) → List (ChartSeries F)
  share_out zero list = list
  share_out (suc remaining) list = elim (choose 0 none (ops.of_int (negsuc 0)) list) [
    | none ↦ list
    | some i ↦ share_out remaining (raise i list)
  ]

  unfoldable pub set_budgets : ℕ → List (ChartSeries F) → List (ChartSeries F)
  unfolding share_out reserve
  set_budgets target list =
      let minimum = if leb (length list * 2) target then 2 else 1 in
      let reserved = reserve minimum target list in share_out reserved.1 reserved.0

  unfoldable pub series_points : ℤ → List (ChartSeries F) → List (AgentRow F)
  series_points since [] = []
  series_points since (s ∷ list) =
      (if s.budget == 0 then [] else aggregate_single_series ops marshal s.rows since s.budget)
      ++ series_points since list

  unfoldable pub aggregate_rows_by_time : List (AgentRow F) → ℤ → ℕ → List (AgentRow F)
  aggregate_rows_by_time rows since target =
      let series = no_budgets (group_series [] rows) in
      if leb (length rows) target || target == 0
      then rows
      else take target (sort_stable (series_points since (set_budgets target series)))

  -- The callback of the stream: the rows so far and the next result.
  unfoldable pub collect_result : ℤ → List (AgentRow F) → Result F → List (AgentRow F)
  collect_result since rows result =
      let all = rows ++ new_agent_row ops marshal result ∷ [] in
      if leb (max_chart_points * 2) (length all)
      then aggregate_rows_by_time all since max_chart_points
      else all

  unfoldable pub collect_results : ℤ → List (AgentRow F) → List (Result F) → List (AgentRow F)
  collect_results since rows [] = rows
  collect_results since rows (result ∷ results) =
      collect_results since (collect_result since rows result) results

  -- `results` is what the stream gives, without an error.
  unfoldable pub dashboard_results_data : ℤ → List (Result F) → Text
  unfolding collect_results collect_result
  dashboard_results_data since results =
      marshal_rows
        (aggregate_rows_by_time (collect_results since [] results) since max_chart_points)
