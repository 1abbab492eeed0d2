-- ===== src/Supervisor/Chart/Budgets.antt =====
-- cmd/supervisor/dashboard_stream.go: the budgets of the series are within the target, and while there
-- are no more series than points each has one.
use pingmon.Prelude.{
  ℕ, zero, suc, ◌+◌, ◌-◌, ◌*◌, ◌≤◌, ◌<◌, List, [], ◌∷◌, none, ltb, leb, if◌then◌else◌, length, ◌≡◌,
  inl, inr, refl, ap, ◌∙◌, arith, All, Option-cases, suc-mul, ltb_ge, ==_pos,
}
use pingmon.Prelude.Int.{negsuc}
use pingmon.Prelude.Text.{Text}
use pingmon.Model.{Result}
use pingmon.Storage.Rows.{FloatOps}
use pingmon.Supervisor.Chart.{AgentRow, ChartSeries}
use pingmon.Supervisor.Chart.Aggregate.{min, reserve, raise, choose, share_out, set_budgets}

module _ {F : Type 0} where
  abbrev pub sum_budgets : List (ChartSeries F) → ℕ
  sum_budgets [] = 0
  sum_budgets (s ∷ list) = s.budget + sum_budgets list

  abbrev pub rows_of : List (ChartSeries F) → List (List (AgentRow F))
  rows_of [] = []
  rows_of (s ∷ list) = s.rows ∷ rows_of list

  reserve-rows_of :
      (minimum remaining : ℕ) (list : List (ChartSeries F))
      → rows_of (reserve minimum remaining list).0 ≡ rows_of list
  unfolding reserve
  reserve-rows_of minimum remaining [] = refl
  reserve-rows_of minimum remaining (s ∷ list) = ground (
    arith,
    reserve-rows_of minimum
        (remaining
          - (if ltb remaining (min minimum (length s.rows))
              then remaining
              else min minimum (length s.rows)))
        list,
  )

  -- No budget is set before.
  reserve-sum_budgets :
      (minimum remaining : ℕ) (list : List (ChartSeries F))
      → sum_budgets list ≡ 0
      → sum_budgets (reserve minimum remaining list).0 + (reserve minimum remaining list).1
        ≡ remaining
  unfolding reserve
  reserve-sum_budgets minimum remaining [] h = omega arith
  reserve-sum_budgets minimum remaining (s ∷ list) h = ground (
    arith,
    reserve-sum_budgets minimum
        (remaining
          - (if ltb remaining (min minimum (length s.rows))
              then remaining
              else min minimum (length s.rows)))
        list,
  )

  raise-rows_of : (i : ℕ) (list : List (ChartSeries F)) → rows_of (raise i list) ≡ rows_of list
  unfolding raise
  raise-rows_of i [] = refl
  raise-rows_of zero (s ∷ list) = refl
  raise-rows_of (suc i) (s ∷ list) = ap (◌∷◌ s.rows) (raise-rows_of i list)

  raise-sum_budgets :
      (i : ℕ) (list : List (ChartSeries F)) → sum_budgets (raise i list) ≤ suc (sum_budgets list)
  unfolding raise
  raise-sum_budgets i [] = omega arith
  raise-sum_budgets zero (s ∷ list) = omega arith
  raise-sum_budgets (suc i) (s ∷ list) = omega (arith, raise-sum_budgets i list)

  abbrev pub HasPoint : ChartSeries F → Type 0
  HasPoint s = 0 < s.budget

  raise-HasPoint :
      (i : ℕ) (list : List (ChartSeries F)) → All HasPoint list → All HasPoint (raise i list)
  unfolding raise
  raise-HasPoint i [] h = tt
  raise-HasPoint zero (s ∷ list) h = (omega arith, h.1)
  raise-HasPoint (suc i) (s ∷ list) h = (h.0, raise-HasPoint i list h.1)

  abbrev pub NonEmpty : List (AgentRow F) → Type 0
  NonEmpty rows = 0 < length rows

  -- With points for all, every series gets one or two.
  reserve-HasPoint :
      (minimum remaining : ℕ) (list : List (ChartSeries F))
      → 0 < minimum
      → length list * minimum ≤ remaining
      → All NonEmpty (rows_of list)
      → All HasPoint (reserve minimum remaining list).0
  unfolding reserve
  reserve-HasPoint minimum remaining [] m fits h = tt
  reserve-HasPoint minimum remaining (s ∷ list) m fits h =
      let least = min minimum (length s.rows) in
      let least_pos : 0 < least = ground (arith, h.0) in
      let least_le : least ≤ minimum = ground arith in
      let more = suc-mul (length list) minimum in
      let later = reserve-HasPoint minimum (remaining - least) list m (omega arith) h.1 in
      rw (==_pos remaining (omega arith), ltb_ge remaining least (omega arith)) (least_pos, later)

module _ {F : Type 0} (ops : FloatOps F) (marshal : Result F → Text) where
  share_out-rows_of :
      (remaining : ℕ) (list : List (ChartSeries F))
      → rows_of (share_out ops marshal remaining list) ≡ rows_of list
  unfolding share_out
  share_out-rows_of zero list = refl
  share_out-rows_of (suc remaining) list =
      elim (Option-cases (choose ops marshal 0 none (ops.of_int (negsuc 0)) list)) [
        | inl full ↦ rw (full, share_out) refl
        | inr (i, best) ↦
            rw (best, share_out) (share_out-rows_of remaining (raise i list) ∙ raise-rows_of i list)
      ]

  share_out-sum_budgets :
      (remaining : ℕ) (list : List (ChartSeries F))
      → sum_budgets (share_out ops marshal remaining list) ≤ sum_budgets list + remaining
  unfolding share_out
  share_out-sum_budgets zero list = omega arith
  share_out-sum_budgets (suc remaining) list =
      elim (Option-cases (choose ops marshal 0 none (ops.of_int (negsuc 0)) list)) [
        | inl full ↦ rw (full, share_out) (omega arith)
        | inr (i, best) ↦
            rw (best, share_out)
              (omega
                (arith, share_out-sum_budgets remaining (raise i list), raise-sum_budgets i list))
      ]

  share_out-HasPoint :
      (remaining : ℕ) (list : List (ChartSeries F))
      → All HasPoint list
      → All HasPoint (share_out ops marshal remaining list)
  unfolding share_out
  share_out-HasPoint zero list h = h
  share_out-HasPoint (suc remaining) list h =
      elim (Option-cases (choose ops marshal 0 none (ops.of_int (negsuc 0)) list)) [
        | inl full ↦ rw (full, share_out) h
        | inr (i, best) ↦
            rw (best, share_out)
              (share_out-HasPoint remaining (raise i list) (raise-HasPoint i list h))
      ]

  abbrev minimum_of : ℕ → List (ChartSeries F) → ℕ
  minimum_of target list = if leb (length list * 2) target then 2 else 1

  pub set_budgets-rows_of :
      (target : ℕ) (list : List (ChartSeries F))
      → rows_of (set_budgets ops marshal target list) ≡ rows_of list
  unfolding set_budgets
  set_budgets-rows_of target list =
      share_out-rows_of _ _ ∙ reserve-rows_of (minimum_of target list) target list

  pub set_budgets-sum_budgets :
      (target : ℕ) (list : List (ChartSeries F))
      → sum_budgets list ≡ 0
      → sum_budgets (set_budgets ops marshal target list) ≤ target
  unfolding set_budgets
  set_budgets-sum_budgets target list h =
      let reserved = reserve (minimum_of target list) target list in
      omega (
        arith,
        reserve-sum_budgets (minimum_of target list) target list h,
        share_out-sum_budgets reserved.1 reserved.0,
      )

  minimum_fits :
      (target : ℕ) (list : List (ChartSeries F))
      → length list ≤ target
      → length list * minimum_of target list ≤ target
  minimum_fits target list h = ground arith

  pub set_budgets-HasPoint :
      (target : ℕ) (list : List (ChartSeries F))
      → length list ≤ target
      → All NonEmpty (rows_of list)
      → All HasPoint (set_budgets ops marshal target list)
  unfolding set_budgets
  set_budgets-HasPoint target list few h = share_out-HasPoint _ _ (
      reserve-HasPoint (minimum_of target list) target list (ground arith)
        (minimum_fits target list few) h)

  -- Where no series has points yet, none is without rows, and there are no more series than
  -- points, the budgets add up to no more points than there are, every series has one or more,
  -- and the rows of the series stay as they were.
  pub set_budgets-bounds :
      (target : ℕ) (list : List (ChartSeries F))
      → sum_budgets list ≡ 0
      → length list ≤ target
      → All NonEmpty (rows_of list)
      → (sum_budgets (set_budgets ops marshal target list) ≤ target)
        × All HasPoint (set_budgets ops marshal target list)
        × (rows_of (set_budgets ops marshal target list) ≡ rows_of list)
  set_budgets-bounds target list z few h = (
    set_budgets-sum_budgets target list z,
    set_budgets-HasPoint target list few h,
    set_budgets-rows_of target list,
  )
