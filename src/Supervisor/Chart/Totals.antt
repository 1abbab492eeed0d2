-- ===== src/Supervisor/Chart/Totals.antt =====
-- cmd/supervisor/dashboard_stream.go: what the bounded chart tells of each series.
pub mod Groups
use mathlib.Core.Path.{subst}
use mathlib.Core.List.{append-nil}
use pingmon.Prelude.{
  ℕ, zero, suc, ◌+◌, ◌*◌, ◌≤◌, ◌<◌, true, false, List, [], ◌∷◌, ◌++◌, ltb, leb, ◌==◌, ◌||◌,
  if◌then◌else◌, length, length-append, take, ◌≡◌, inl, inr, refl, sym, ap, ◌∙◌, arith, All,
  Bool-cases, ==_pos,
}
use pingmon.Prelude.Int.{ℤ, pos, ◌+ℤ◌, ◌≤ℤ◌, ◌<ℤ◌, ltb_ℤ, zero-+ℤ, +ℤ_comm, +ℤ_assoc, +ℤ_left_comm}
use pingmon.Prelude.Text.{Text, text_eq, text_eq_iff}
use pingmon.Model.{Result}
use pingmon.Storage.Rows.{FloatOps}
use pingmon.Supervisor.Chart.{AgentRow, ChartSeries, chart_key, aggregate_single_series}
use pingmon.Supervisor.Chart.Buckets.{Descending, IsRow, total, Count, successes, failures}
use pingmon.Supervisor.Chart.Series.{
  Keeps, aggregate_single_series-Keeps, length-aggregate_single_series,
}
use pingmon.Supervisor.Chart.Aggregate.{
  group_series, no_budgets, place_row, sort_stable, set_budgets, series_points,
  aggregate_rows_by_time,
}
use pingmon.Supervisor.Chart.Budgets.{
  sum_budgets, rows_of, HasPoint, NonEmpty, set_budgets-rows_of, set_budgets-sum_budgets,
  set_budgets-HasPoint,
}
use pingmon.Supervisor.Chart.Totals.Groups.{
  share, total_of, total_of-append, total_of_groups, group_series-total, IsStream, IsOf, IsGroup,
  group_series-IsGroup,
}

take_all : {A : Type 0} (n : ℕ) (xs : List A) → length xs ≤ n → take n xs ≡ xs
take_all zero [] h = refl
take_all zero (x ∷ xs) h = absurd (omega arith)
take_all (suc n) [] h = refl
take_all (suc n) (x ∷ xs) h = ap (◌∷◌ x) (take_all n xs (omega arith))

module _ {F : Type 0} (w : Result F → ℤ) (key : Text) where
  uniform_total :
      (k : Text) (rows : List (AgentRow F))
      → All (λ r. r.series_key ≡ k) rows
      → total_of w key rows ≡ (if text_eq k key then total w rows else pos 0)
  uniform_total k [] h = ground arith
  uniform_total k (r ∷ rows) h = ground (arith, uniform_total k rows h.1, zero-+ℤ (pos 0))

  place_row-total :
      (r : AgentRow F) (rows : List (AgentRow F))
      → (total_of w key (place_row r rows) ≡ share w key r +ℤ total_of w key rows)
        × (length (place_row r rows) ≡ suc (length rows))
  unfolding place_row
  place_row-total r [] = (refl, refl)
  place_row-total r (x ∷ rows) =
      let later = place_row-total r rows in
      elim (Bool-cases (ltb_ℤ r.checked_at x.checked_at)) [
        | inl newer ↦ rw newer (
          ap (λ t. share w key x +ℤ t) later.0
              ∙ +ℤ_left_comm (share w key x) (share w key r) (total_of w key rows),
          ap suc later.1,
        )
        | inr other ↦ rw other (refl, refl)
      ]

  sort_stable-total :
      (rows : List (AgentRow F))
      → (total_of w key (sort_stable rows) ≡ total_of w key rows)
        × (length (sort_stable rows) ≡ length rows)
  unfolding sort_stable
  sort_stable-total [] = (refl, refl)
  sort_stable-total (r ∷ rows) =
      let later = sort_stable-total rows in
      let here = place_row-total r (sort_stable rows) in
      (here.0 ∙ ap (λ t. share w key r +ℤ t) later.0, here.1 ∙ ap suc later.1)

  abbrev total_rows : List (List (AgentRow F)) → ℤ
  total_rows [] = pos 0
  total_rows (rows ∷ more) = total_of w key rows +ℤ total_rows more

  no_budgets-total :
      (groups : List (Text × List (AgentRow F)))
      → total_rows (rows_of (no_budgets groups)) ≡ total_of_groups w key groups
  unfolding no_budgets
  no_budgets-total [] = refl
  no_budgets-total ((k, g) ∷ groups) = ap (λ t. total_of w key g +ℤ t) (no_budgets-total groups)

no_budgets-zero :
    {F : Type 0} (groups : List (Text × List (AgentRow F)))
    → (sum_budgets (no_budgets groups) ≡ 0) × (length (no_budgets groups) ≡ length groups)
unfolding no_budgets
no_budgets-zero [] = (refl, refl)
no_budgets-zero ((k, g) ∷ groups) = ground (arith, no_budgets-zero groups)

module _ {F : Type 0} (ops : FloatOps F) (marshal : Result F → Text) (since : ℤ) where
  -- The rows of one series, newest first.
  abbrev IsSeries : List (AgentRow F) → Type 0
  IsSeries rows = (k : Text) × IsStream since rows × All (λ r. r.series_key ≡ k) rows

  no_budgets-IsSeries :
      (groups : List (Text × List (AgentRow F)))
      → All (IsGroup since []) groups
      → All IsSeries (rows_of (no_budgets groups)) × All NonEmpty (rows_of (no_budgets groups))
  unfolding no_budgets
  no_budgets-IsSeries [] h = (tt, tt)
  no_budgets-IsSeries ((k, g) ∷ groups) h =
      let later = no_budgets-IsSeries groups h.1 in
      (((k, subst (IsStream since) (append-nil g) h.0.0, h.0.1), later.0), (h.0.2, later.1))

  keyed :
      (k : Text) (rows : List (AgentRow F))
      → All IsRow rows
      → All (λ r. r.series_key ≡ k) rows
      → All (λ r. (r.series_key ≡ k) × IsRow r) rows
  keyed k [] h of_key = tt
  keyed k (r ∷ rows) h of_key = ((of_key.0, h.0), keyed k rows h.1 of_key.1)

  unkeyed :
      (k : Text) (rows : List (AgentRow F))
      → All (λ r. (r.series_key ≡ k) × IsRow r) rows
      → All (λ r. r.series_key ≡ k) rows
  unkeyed k [] h = tt
  unkeyed k (r ∷ rows) h = (h.0.0, unkeyed k rows h.1)

  single-total :
      (c : Count ops marshal) (key : Text) (rows : List (AgentRow F)) (budget : ℕ)
      → 0 < budget
      → IsSeries rows
      → (total_of c.of_result key (aggregate_single_series ops marshal rows since budget)
          ≡ total_of c.of_result key rows)
        × (length (aggregate_single_series ops marshal rows since budget) ≤ budget)
  single-total c key rows budget b (k, stream, of_key) =
      let out = aggregate_single_series ops marshal rows since budget in
      let keys = keyed k rows stream.2 of_key in
      let kept = aggregate_single_series-Keeps ops marshal c k rows since budget b stream.0 keys in
      (
        uniform_total c.of_result key k out (unkeyed k out kept.same_key)
            ∙ ap (λ t. if text_eq k key then t else pos 0) kept.same_total
            ∙ sym (uniform_total c.of_result key k rows of_key),
        length-aggregate_single_series ops marshal c k rows since budget b stream.0 keys stream.1,
      )

  series_points-total :
      (c : Count ops marshal) (key : Text) (list : List (ChartSeries F))
      → All HasPoint list
      → All IsSeries (rows_of list)
      → (total_of c.of_result key (series_points ops marshal since list)
          ≡ total_rows c.of_result key (rows_of list))
        × (length (series_points ops marshal since list) ≤ sum_budgets list)
  unfolding series_points
  series_points-total c key [] p h = (refl, omega arith)
  series_points-total c key (s ∷ list) p h =
      let here = single-total c key s.rows s.budget p.0 h.0 in
      let later = series_points-total c key list p.1 h.1 in
      let points = aggregate_single_series ops marshal s.rows since s.budget in
      let more = series_points ops marshal since list in
      rw (==_pos s.budget p.0) (
        total_of-append c.of_result key points more
            ∙ ap (λ t. t +ℤ total_of c.of_result key more) here.0
            ∙ ap (λ t. total_of c.of_result key s.rows +ℤ t) later.0,
        omega (arith, length-append points more, here.1, later.1),
      )

  aggregate-total :
      (c : Count ops marshal) (key : Text) (rows : List (AgentRow F)) (target : ℕ)
      → 0 < target
      → IsStream since rows
      → length (group_series [] rows) ≤ target
      → (total_of c.of_result key (aggregate_rows_by_time ops marshal rows since target)
          ≡ total_of c.of_result key rows)
        × (length (aggregate_rows_by_time ops marshal rows since target) ≤ target)
  unfolding aggregate_rows_by_time
  aggregate-total c key rows target t stream few =
      let w = c.of_result in
      let groups = group_series [] rows in
      let list = no_budgets groups in
      let budgets = set_budgets ops marshal target list in
      let points = series_points ops marshal since budgets in
      let facts = no_budgets-IsSeries groups (group_series-IsGroup since [] rows stream tt) in
      let same = set_budgets-rows_of ops marshal target list in
      let zeros = no_budgets-zero groups in
      let has = set_budgets-HasPoint ops marshal target list (omega (arith, zeros.1)) facts.1 in
      let made = series_points-total c key budgets has (subst (All IsSeries) (sym same) facts.0) in
      let sorted = sort_stable-total w key points in
      let within : length (sort_stable points) ≤ target =
        omega (arith, sorted.1, made.1, set_budgets-sum_budgets ops marshal target list zeros.0) in
      elim (Bool-cases (leb (length rows) target)) [
        | inl small ↦ rw small (refl, ground arith)
        | inr large ↦
            rw (large, ==_pos target t, take_all target (sort_stable points) within)
              (
                sorted.0
                    ∙ made.0
                    ∙ ap (total_rows w key) same
                    ∙ no_budgets-total w key groups
                    ∙ group_series-total w key [] rows
                    ∙ zero-+ℤ (total_of w key rows),
                within,
              )
      ]

  -- Where the rows are those of a stream (newest first, after `since`, each with the key of its result)
  -- and there are no more series than points, the aggregation has at most `target` rows, and for every
  -- key of a series their successes, and their failures, add up to those of the rows.
  pub aggregate_rows_by_time-totals :
      (key : Text) (rows : List (AgentRow F)) (target : ℕ)
      → 0 < target
      → IsStream since rows
      → length (group_series [] rows) ≤ target
      → (length (aggregate_rows_by_time ops marshal rows since target) ≤ target)
        × (total_of
              (λ r. r.success_count)
              key
              (aggregate_rows_by_time ops marshal rows since target)
            ≡ total_of (λ r. r.success_count) key rows)
        × (total_of
              (λ r. r.failure_count)
              key
              (aggregate_rows_by_time ops marshal rows since target)
            ≡ total_of (λ r. r.failure_count) key rows)
  unfolding successes failures
  aggregate_rows_by_time-totals key rows target t stream few =
      let good = aggregate-total (successes ops marshal) key rows target t stream few in
      let bad = aggregate-total (failures ops marshal) key rows target t stream few in
      (good.1, good.0, bad.0)
