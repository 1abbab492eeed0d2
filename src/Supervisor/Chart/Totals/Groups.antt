-- ===== src/Supervisor/Chart/Totals/Groups.antt =====
-- cmd/supervisor/dashboard_stream.go: the grouping of the rows by series.
use mathlib.Core.Path.{subst}
use mathlib.Core.List.{append_assoc}
use pingmon.Prelude.{
  ◌<◌, List, [], ◌∷◌, ◌++◌, if◌then◌else◌, length, length-append, ◌≡◌, inl, inr, refl, sym, ap, ◌∙◌,
  arith, All, All-append, Bool-cases,
}
use pingmon.Prelude.Int.{ℤ, pos, ◌+ℤ◌, ◌≤ℤ◌, ◌<ℤ◌, int_laws, zero-+ℤ, +ℤ_assoc}
use pingmon.Prelude.Text.{Text, text_eq, text_eq_iff}
use pingmon.Prelude.Eq.{text_is_eq, lookup, insert}
use pingmon.Model.{Result}
use pingmon.Supervisor.Chart.{AgentRow}
use pingmon.Supervisor.Chart.Buckets.{Descending, IsRow}
use pingmon.Supervisor.Chart.Aggregate.{append_row, group_series}

abbrev pub Groups : Type 0 → Type 0
Groups F = List (Text × List (AgentRow F))

append_row_step :
    {F : Type 0} (r : AgentRow F) (k : Text) (g : List (AgentRow F)) (groups : Groups F)
    → append_row r ((k, g) ∷ groups) ≡ (
        if text_eq k r.series_key
        then (r.series_key, g ++ r ∷ []) ∷ groups
        else (k, g) ∷ append_row r groups)
unfolding append_row insert lookup
append_row_step r k g groups = ground arith

module _ {F : Type 0} (w : Result F → ℤ) (key : Text) where
  abbrev pub share : AgentRow F → ℤ
  share r = if text_eq r.series_key key then w r.result else pos 0

  -- A count over the rows of one series.
  abbrev pub total_of : List (AgentRow F) → ℤ
  total_of [] = pos 0
  total_of (r ∷ rows) = share r +ℤ total_of rows

  pub total_of-append :
      (rows more : List (AgentRow F)) → total_of (rows ++ more) ≡ total_of rows +ℤ total_of more
  total_of-append [] more = sym (zero-+ℤ (total_of more))
  total_of-append (r ∷ rows) more =
      ap (λ t. share r +ℤ t) (total_of-append rows more)
      ∙ sym (+ℤ_assoc (share r) (total_of rows) (total_of more))

  abbrev pub total_of_groups : Groups F → ℤ
  total_of_groups [] = pos 0
  total_of_groups ((k, g) ∷ groups) = total_of g +ℤ total_of_groups groups

  append_row-total :
      (r : AgentRow F) (groups : Groups F)
      → total_of_groups (append_row r groups) ≡ total_of_groups groups +ℤ share r
  append_row-total r [] = unfold append_row insert lookup in omega int_laws
  append_row-total r ((k, g) ∷ groups) = elim (Bool-cases (text_eq k r.series_key)) [
    | inl same ↦
        let moved : total_of g +ℤ (share r +ℤ pos 0) +ℤ total_of_groups groups
            ≡ total_of g +ℤ total_of_groups groups +ℤ share r =
          omega int_laws in
        rw (append_row_step r k g groups, same)
          (ap (λ t. t +ℤ total_of_groups groups) (total_of-append g (r ∷ [])) ∙ moved)
    | inr other ↦
        rw (append_row_step r k g groups, other)
          (ap (λ t. total_of g +ℤ t) (append_row-total r groups)
            ∙ sym (+ℤ_assoc (total_of g) (total_of_groups groups) (share r)))
  ]

  pub group_series-total :
      (groups : Groups F) (rows : List (AgentRow F))
      → total_of_groups (group_series groups rows) ≡ total_of_groups groups +ℤ total_of rows
  unfolding group_series
  group_series-total groups [] = omega int_laws
  group_series-total groups (r ∷ rows) =
      group_series-total (append_row r groups) rows
      ∙ ap (λ t. t +ℤ total_of rows) (append_row-total r groups)
      ∙ +ℤ_assoc (total_of_groups groups) (share r) (total_of rows)

module _ {F : Type 0} (since : ℤ) where
  -- Newest first, after `since`, with the keys of their results.
  abbrev pub IsStream : List (AgentRow F) → Type 0
  IsStream rows = Descending rows × All (λ r. since <ℤ r.checked_at) rows × All IsRow rows

  abbrev pub IsOf : Text → AgentRow F → Type 0
  IsOf key r = r.series_key ≡ key

  -- A group, with the rows that are still to come after it.
  abbrev pub IsGroup : List (AgentRow F) → Text × List (AgentRow F) → Type 0
  IsGroup rest (key, g) = IsStream (g ++ rest) × All (IsOf key) g × (0 < length g)

  drop_middle :
      (P : AgentRow F → Type 0) (g : List (AgentRow F)) (r : AgentRow F) (rest : List (AgentRow F))
      → All P (g ++ r ∷ rest)
      → All P (g ++ rest)
  drop_middle P [] r rest h = h.1
  drop_middle P (x ∷ g) r rest h = (h.0, drop_middle P g r rest h.1)

  drop_middle-Descending :
      (g : List (AgentRow F)) (r : AgentRow F) (rest : List (AgentRow F))
      → Descending (g ++ r ∷ rest)
      → Descending (g ++ rest)
  drop_middle-Descending [] r rest d = d.1
  drop_middle-Descending (x ∷ g) r rest d = (
    drop_middle (λ y. y.checked_at ≤ℤ x.checked_at) g r rest d.0,
    drop_middle-Descending g r rest d.1,
  )

  drop_middle-IsGroup :
      (r : AgentRow F) (rest : List (AgentRow F)) (groups : Groups F)
      → All (IsGroup (r ∷ rest)) groups
      → All (IsGroup rest) groups
  drop_middle-IsGroup r rest [] h = tt
  drop_middle-IsGroup r rest ((k, g) ∷ groups) ((s, of_key, some_rows), h) = (
    (
      (
        drop_middle-Descending g r rest s.0,
        drop_middle (λ x. since <ℤ x.checked_at) g r rest s.1,
        drop_middle IsRow g r rest s.2,
      ),
      of_key,
      some_rows,
    ),
    drop_middle-IsGroup r rest groups h,
  )

  append_row-IsGroup :
      (r : AgentRow F) (rest : List (AgentRow F)) (groups : Groups F)
      → IsStream (r ∷ rest)
      → All (IsGroup (r ∷ rest)) groups
      → All (IsGroup rest) (append_row r groups)
  append_row-IsGroup r rest [] s h =
      unfold append_row insert lookup in ((s, (refl, tt), omega arith), tt)
  append_row-IsGroup r rest ((k, g) ∷ groups) s h = elim (Bool-cases (text_eq k r.series_key)) [
    | inl same ↦
        let key : k ≡ r.series_key = (text_eq_iff k r.series_key).0 same in
        let joined : (g ++ r ∷ []) ++ rest ≡ g ++ r ∷ rest = append_assoc g (r ∷ []) rest in
        rw (append_row_step r k g groups, same)
          (
            (
              rw joined h.0.0,
              All-append (IsOf r.series_key) g (r ∷ []) (subst (λ k. All (IsOf k) g) key h.0.1)
                  (refl, tt),
              omega (arith, length-append g (r ∷ [])),
            ),
            drop_middle-IsGroup r rest groups h.1,
          )
    | inr other ↦
        rw (append_row_step r k g groups, other)
          (
            (drop_middle-IsGroup r rest ((k, g) ∷ []) (h.0, tt)).0,
            append_row-IsGroup r rest groups s h.1,
          )
  ]

  -- The groups of a stream are streams, each of one key.
  pub group_series-IsGroup :
      (groups : Groups F) (rows : List (AgentRow F))
      → IsStream rows
      → All (IsGroup rows) groups
      → All (IsGroup []) (group_series groups rows)
  unfolding group_series
  group_series-IsGroup groups [] s h = h
  group_series-IsGroup groups (r ∷ rows) s h =
      group_series-IsGroup (append_row r groups) rows (s.0.1, s.1.1, s.2.1)
        (append_row-IsGroup r rows groups s h)
