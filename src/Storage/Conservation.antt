-- ===== src/Storage/Conservation.antt =====
-- internal/storage/storage.go, cmd/supervisor/main.go: what the retention keeps. A measure is a sum
-- over the results and the rollups of a series: of samples, of successes or of failures.
use pingmon.Prelude.{
  ℕ, false, List, [], ◌∷◌, none, ◌≡◌, ap, arith, ◌==◌, if◌then◌else◌, Bool-cases, inl, inr,
}
use pingmon.Prelude.Int.{ℤ, pos, pos_part, neg_part, ◌+ℤ◌, int_laws}
use pingmon.Prelude.Eq.{lookup, insert, Distinct, insert-Distinct}
use pingmon.Model.{Time}
use pingmon.Storage.Stamps.{stamp_lt}
use pingmon.Storage.Rows.{FloatOps, ResultRow, RollupRow, Samples}
use pingmon.Storage.Retention.{
  GroupKey, group_eq, group_eq_iff, group_is_eq, Group, no_group, add_row, key_of, group_or,
  group_rows, rollup_row, has_rollup, insert_or_ignore, keep_results,
}

cancel_here : (a b c d : ℤ) → a +ℤ b ≡ (b +ℤ c) +ℤ d → a ≡ c +ℤ d
cancel_here a b c d h = omega (int_laws, ap pos_part h, ap neg_part h)

cancel_away : (a b : ℤ) → a +ℤ pos 0 ≡ pos 0 +ℤ b → a ≡ pos 0 +ℤ b
cancel_away a b h = omega (int_laws, ap pos_part h, ap neg_part h)

module _ {F : Type 0} (ops : FloatOps F) (bucket : ℕ → Time → Time) where
  -- A count that aggregation adds up.
  pub record Measure : Type 0 where
    pub of_result : ResultRow F → ℤ
    pub of_rollup : RollupRow F → ℤ
    pub of_group : Group F → ℤ
    pub of_none : of_group (no_group ops bucket) ≡ pos 0
    pub of_row :
        (r : ResultRow F) (g : Group F)
        → of_group (add_row ops bucket r g) ≡ of_group g +ℤ of_result r
    pub of_aggregate :
        (seconds : ℕ) (key : GroupKey) (g : Group F)
        → of_rollup (rollup_row ops bucket seconds key g) ≡ of_group g

  module _ (m : Measure) (series : ℕ) where
    abbrev pub sum_results : List (ResultRow F) → ℤ
    sum_results [] = pos 0
    sum_results (r ∷ rows) =
        (if r.series_id == series then m.of_result r else pos 0) +ℤ sum_results rows

    abbrev pub sum_rollups : List (RollupRow F) → ℤ
    sum_rollups [] = pos 0
    sum_rollups (r ∷ rows) =
        (if r.series_id == series then m.of_rollup r else pos 0) +ℤ sum_rollups rows

    abbrev pub sum_groups : List (GroupKey × Group F) → ℤ
    sum_groups [] = pos 0
    sum_groups ((k, g) ∷ groups) =
        (if k.series_id == series then m.of_group g else pos 0) +ℤ sum_groups groups

    abbrev pub measure : Samples F → ℤ
    measure s = sum_results s.results +ℤ sum_rollups s.rollups

    abbrev share : ℕ → ℤ → ℤ
    share s n = if s == series then n else pos 0

    -- A stored group takes the place of the one that was there.
    sum_groups-replace :
        (k : GroupKey) (h : Group F) (groups : List (GroupKey × Group F))
        → sum_groups (insert k h groups)
            +ℤ share k.series_id (m.of_group (group_or ops bucket (lookup k groups)))
          ≡ share k.series_id (m.of_group h) +ℤ sum_groups groups
    unfolding insert lookup
    sum_groups-replace k h [] = elim (Bool-cases (k.series_id == series)) [
      | inl here ↦ rw (here, m.of_none) (omega int_laws)
      | inr away ↦ rw away (omega int_laws)
    ]
    sum_groups-replace k h ((j, g) ∷ groups) = elim (Bool-cases (group_eq j k)) [
      | inl same ↦ elim (Bool-cases (k.series_id == series)) [
        | inl here ↦ rw (same, (group_eq_iff j k).0 same, here) (omega int_laws)
        | inr away ↦ rw (same, (group_eq_iff j k).0 same, away) (omega int_laws)
      ]
      | inr other ↦ rw other (
          omega (
            int_laws,
            ap pos_part (sum_groups-replace k h groups),
            ap neg_part (sum_groups-replace k h groups),
          ))
    ]

    sum_groups-insert :
        (k : GroupKey) (r : ResultRow F) (groups : List (GroupKey × Group F))
        → sum_groups
            (insert k (add_row ops bucket r (group_or ops bucket (lookup k groups))) groups)
          ≡ share k.series_id (m.of_result r) +ℤ sum_groups groups
    sum_groups-insert k r groups =
        let old = group_or ops bucket (lookup k groups) in
        let stored = sum_groups-replace k (add_row ops bucket r old) groups in
        elim (Bool-cases (k.series_id == series)) [
          | inl here ↦ rw here (cancel_here _ _ _ _ (rw (here, m.of_row) at stored))
          | inr away ↦ rw away (cancel_away _ _ (rw away at stored))
        ]

    -- The groups add up to the rows that they are made of; the other rows stay.
    pub sum_groups-group_rows :
        (seconds : ℕ) (cutoff : Time) (rows : List (ResultRow F))
        → sum_groups (group_rows ops bucket seconds cutoff rows)
            +ℤ sum_results (keep_results ops bucket cutoff rows)
          ≡ sum_results rows
    unfolding group_rows keep_results
    sum_groups-group_rows seconds cutoff [] = omega int_laws
    sum_groups-group_rows seconds cutoff (r ∷ rows) =
        elim (Bool-cases (stamp_lt r.checked_at cutoff)) [
          | inl old ↦
              rw
                (
                  old,
                  sum_groups-insert (key_of ops bucket seconds r) r
                      (group_rows ops bucket seconds cutoff rows),
                  ← sum_groups-group_rows seconds cutoff rows,
                )
                (omega int_laws)
          | inr new ↦ rw (new, ← sum_groups-group_rows seconds cutoff rows) (omega int_laws)
        ]

    pub group_rows-Distinct :
        (seconds : ℕ) (cutoff : Time) (rows : List (ResultRow F))
        → Distinct (group_rows ops bucket seconds cutoff rows)
    unfolding group_rows
    group_rows-Distinct seconds cutoff [] = tt
    group_rows-Distinct seconds cutoff (r ∷ rows) =
        let groups = group_rows ops bucket seconds cutoff rows in
        let k = key_of ops bucket seconds r in
        let d = group_rows-Distinct seconds cutoff rows in
        elim (Bool-cases (stamp_lt r.checked_at cutoff)) [
          | inl old ↦ rw old (
              insert-Distinct k (add_row ops bucket r (group_or ops bucket (lookup k groups)))
                groups d)
          | inr new ↦ rw new d
        ]

    -- No group has a rollup yet.
    abbrev pub Free : ℕ → List (GroupKey × Group F) → List (RollupRow F) → Type 0
    Free seconds [] rows = Unit
    Free seconds ((k, g) ∷ groups) rows =
        (has_rollup ops bucket seconds k rows ≡ false) × Free seconds groups rows

    pub Free-insert :
        (seconds : ℕ) (k : GroupKey) (g : Group F) (groups : List (GroupKey × Group F))
        (rows : List (RollupRow F))
        → has_rollup ops bucket seconds k rows ≡ false
        → Free seconds groups rows
        → Free seconds (insert k g groups) rows
    unfolding insert
    Free-insert seconds k g [] rows h f = (h, tt)
    Free-insert seconds k g ((j, h') ∷ groups) rows h f = elim (Bool-cases (group_eq j k)) [
      | inl same ↦ rw same (h, f.1)
      | inr other ↦ rw other (f.0, Free-insert seconds k g groups rows h f.1)
    ]

    Free-cons :
        (seconds : ℕ) (k : GroupKey) (g : Group F) (groups : List (GroupKey × Group F))
        (rows : List (RollupRow F))
        → lookup k groups ≡ none
        → Free seconds groups rows
        → Free seconds groups (rollup_row ops bucket seconds k g ∷ rows)
    unfolding lookup has_rollup rollup_row
    Free-cons seconds k g [] rows h f = tt
    Free-cons seconds k g ((j, g') ∷ groups) rows h f = (
      unfold group_eq in ground (arith, f.0, group_eq_iff j k),
      Free-cons seconds k g groups rows (ground arith) f.1,
    )

    pub sum_rollups-insert_or_ignore :
        (seconds : ℕ) (groups : List (GroupKey × Group F)) (rows : List (RollupRow F))
        → Distinct groups
        → Free seconds groups rows
        → sum_rollups (insert_or_ignore ops bucket seconds groups rows)
          ≡ sum_groups groups +ℤ sum_rollups rows
    unfolding insert_or_ignore
    sum_rollups-insert_or_ignore seconds [] rows d f = omega int_laws
    sum_rollups-insert_or_ignore seconds ((k, g) ∷ groups) rows d f =
        let row = rollup_row ops bucket seconds k g in
        rw
          (
            f.0,
            sum_rollups-insert_or_ignore seconds groups (row ∷ rows) d.1
                (Free-cons seconds k g groups rows d.0 f.1),
          )
          (unfold rollup_row in rw m.of_aggregate (omega int_laws))
