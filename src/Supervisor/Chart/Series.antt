-- ===== src/Supervisor/Chart/Series.antt =====
-- cmd/supervisor/dashboard_stream.go: what the aggregation of one series keeps.
use native.Mathlib.Nat.{div-add-mod, mod-lt}
use pingmon.Prelude.{
  ℕ, zero, suc, ◌+◌, ◌-◌, ◌*◌, ◌/◌, ◌≤◌, ◌<◌, true, false, List, [], ◌∷◌, ◌++◌, length,
  length-append, ◌≡◌, inl, inr, refl, sym, ap, ◌∙◌, arith, All, All-append, Bool-cases, suc-mul,
}
use pingmon.Prelude.Int.{ℤ, pos, pos_part, ◌+ℤ◌, ◌-ℤ◌, ◌≤ℤ◌, ◌<ℤ◌, ltb_ℤ, int_laws, zero-+ℤ}
use pingmon.Prelude.Text.{Text}
use pingmon.Model.{Result}
use pingmon.Storage.Rows.{FloatOps}
use pingmon.Supervisor.Chart.{
  AgentRow, chart_key, empty_bucket, skip_newer, take_bucket, bucket_rows, bucket_loop, first_at,
  last_at, aggregate_single_series, is_nil, is_kept, span, bucket_nanos,
}
use pingmon.Supervisor.Chart.Buckets.{
  Descending, IsRow, total, total-append, Count, take_bucket-All, take_bucket-Descending,
  take_bucket-total, take_bucket-IsFilled, bucket_rows_lem,
}

lt-false : (a b : ℤ) → b ≤ℤ a → ltb_ℤ a b ≡ false
lt-false a b h = ground arith

factor_pos : (k n : ℕ) (low high : ℤ) → high <ℤ low +ℤ pos (k * n) → low ≤ℤ high → 0 < n
factor_pos k zero low high h l = absurd (omega int_laws)
factor_pos k (suc n) low high h l = omega arith

module _ {F : Type 0} (ops : FloatOps F) (marshal : Result F → Text) where
  skip_newer_none :
      (end : ℤ) (rows : List (AgentRow F))
      → All (λ r. r.checked_at ≤ℤ end) rows
      → skip_newer ops marshal end rows ≡ rows
  unfolding skip_newer
  skip_newer_none end [] h = refl
  skip_newer_none end (r ∷ rows) h = ground (arith, skip_newer_none end rows h.1)

  -- What an aggregation of the rows of a series keeps.
  pub record Keeps (c : Count ops marshal) (key : Text) (rows out : List (AgentRow F))
      : Type 0 where
    pub same_total : total c.of_result out ≡ total c.of_result rows
    pub same_key : All (λ r. (r.series_key ≡ key) × IsRow r) out

  -- One bucket, and what is kept of the rest.
  bucket-Keeps :
      (c : Count ops marshal) (key : Text) (start : ℤ) (rows more : List (AgentRow F)) (n : ℕ)
      → All (λ r. chart_key r.result ≡ key) rows
      → Keeps c key (take_bucket ops marshal start rows (empty_bucket ops marshal)).1 more
      → length more ≤ n
      → Keeps c key rows (
          bucket_rows ops marshal (take_bucket ops marshal start rows (empty_bucket ops marshal)).0
          ++ more)
        × (length (
              bucket_rows ops marshal
                (take_bucket ops marshal start rows (empty_bucket ops marshal)).0
              ++ more)
            ≤ suc n)
  bucket-Keeps c key start rows more n k later short =
      let taken = take_bucket ops marshal start rows (empty_bucket ops marshal) in
      let points = bucket_rows ops marshal taken.0 in
      let lem = bucket_rows_lem ops marshal c key taken.0 (
        take_bucket-IsFilled ops marshal c key start rows (empty_bucket ops marshal) k
          (inl (refl, c.of_empty))) in
      (
        record {
          same_total =
              total-append c.of_result points more
              ∙ ap (λ t. t +ℤ total c.of_result more) lem.0
              ∙ ap (λ t. c.of_bucket taken.0 +ℤ t) later.same_total
              ∙ take_bucket-total ops marshal c start rows (empty_bucket ops marshal)
              ∙ ap (λ t. t +ℤ total c.of_result rows) c.of_empty
              ∙ zero-+ℤ (total c.of_result rows);
          same_key =
              All-append (λ r. (r.series_key ≡ key) × IsRow r) points more lem.1 later.same_key;
        },
        omega (arith, length-append points more, lem.2),
      )

  Keeps-nil :
      (c : Count ops marshal) (key : Text) (rest : List (AgentRow F))
      → is_nil ops marshal rest ≡ true
      → Keeps c key rest []
  Keeps-nil c key [] h = record { same_total = refl; same_key = tt }
  Keeps-nil c key (r ∷ rest) h = absurd (ground arith)

  -- The buckets reach down to `low`.
  bucket_loop-Keeps :
      (c : Count ops marshal) (key : Text) (left nanos : ℕ) (low end : ℤ) (rows : List (AgentRow F))
      → end <ℤ low +ℤ pos (left * nanos)
      → Descending rows
      → All (λ r. r.checked_at ≤ℤ end) rows
      → All (λ r. low ≤ℤ r.checked_at) rows
      → All (λ r. chart_key r.result ≡ key) rows
      → Keeps c key rows (bucket_loop ops marshal left (pos nanos) end rows)
        × (length (bucket_loop ops marshal left (pos nanos) end rows) ≤ left)
  unfolding bucket_loop
  bucket_loop-Keeps c key zero nanos low end [] fits d top bottom k =
      (record { same_total = refl; same_key = tt }, omega arith)
  bucket_loop-Keeps c key zero nanos low end (r ∷ rows) fits d top bottom k =
      absurd (omega int_laws)
  bucket_loop-Keeps c key (suc left) nanos low end rows fits d top bottom k =
      let start = end -ℤ pos nanos +ℤ pos 1 in
      let empty = empty_bucket ops marshal in
      let rest = (take_bucket ops marshal start rows empty).1 in
      let lower = take_bucket-Descending ops marshal start rows empty d in
      let reach : start -ℤ pos 1 <ℤ low +ℤ pos (left * nanos) =
        omega (int_laws, suc-mul left nanos) in
      let later =
        bucket_loop-Keeps c key left nanos low (start -ℤ pos 1) rest reach lower.0 lower.1
          (take_bucket-All ops marshal (λ r. low ≤ℤ r.checked_at) start rows empty bottom)
          (take_bucket-All ops marshal (λ r. chart_key r.result ≡ key) start rows empty k) in
      rw (skip_newer_none end rows top) (elim (Bool-cases (is_nil ops marshal rest)) [
        | inl last ↦
            rw last
              (bucket-Keeps c key start rows [] left k (Keeps-nil c key rest last) (omega arith))
        | inr more ↦ rw more (bucket-Keeps c key start rows _ left k later.0 later.1)
      ])

  last_at-le :
      (rows : List (AgentRow F))
      → Descending rows
      → All (λ r. last_at ops marshal rows ≤ℤ r.checked_at) rows
  last_at-le [] d = tt
  last_at-le (r ∷ []) d = (omega arith, tt)
  last_at-le (r ∷ r' ∷ rows) d =
      let below = last_at-le (r' ∷ rows) d.1 in (omega (arith, below.0, d.0.0), below)

  le-first_at :
      (rows : List (AgentRow F))
      → Descending rows
      → All (λ r. r.checked_at ≤ℤ first_at ops marshal rows) rows
  le-first_at [] d = tt
  le-first_at (r ∷ rows) d = (omega arith, d.0)

  -- Rounding the width of a bucket up makes the buckets reach over the span.
  width_reaches : (span target : ℕ) → 0 < target → span ≤ target * ((span + target - 1) / target)
  width_reaches span target h =
      omega (arith, div-add-mod (span + target - 1) target, mod-lt (span + target - 1) h)

  Keeps-same :
      (c : Count ops marshal) (key : Text) (rows : List (AgentRow F))
      → All (λ r. (r.series_key ≡ key) × IsRow r) rows
      → Keeps c key rows rows
  Keeps-same c key rows k = record { same_total = refl; same_key = k }

  chart_keys :
      (key : Text) (rows : List (AgentRow F))
      → All (λ r. (r.series_key ≡ key) × IsRow r) rows
      → All (λ r. chart_key r.result ≡ key) rows
  chart_keys key [] k = tt
  chart_keys key (r ∷ rows) k = (sym k.0.1 ∙ k.0.0, chart_keys key rows k.1)

  buckets_reach :
      (rows : List (AgentRow F)) (target : ℕ)
      → 0 < target
      → first_at ops marshal rows
        <ℤ last_at ops marshal rows +ℤ pos (target * bucket_nanos ops marshal rows target)
  buckets_reach rows target h =
      omega (int_laws, width_reaches (pos_part (span ops marshal rows)) target h)

  -- The aggregation of one series.
  pub aggregate_single_series-Keeps :
      (c : Count ops marshal) (key : Text) (rows : List (AgentRow F)) (since : ℤ) (target : ℕ)
      → 0 < target
      → Descending rows
      → All (λ r. (r.series_key ≡ key) × IsRow r) rows
      → Keeps c key rows (aggregate_single_series ops marshal rows since target)
  unfolding aggregate_single_series
  aggregate_single_series-Keeps c key rows since target h d k =
      elim (Bool-cases (is_kept ops marshal rows since target)) [
        | inl kept ↦ rw kept (Keeps-same c key rows k)
        | inr loops ↦
            rw loops
              (bucket_loop-Keeps c key target (bucket_nanos ops marshal rows target)
                (last_at ops marshal rows) (first_at ops marshal rows) rows
                (buckets_reach rows target h) d (le-first_at rows d) (last_at-le rows d)
                (chart_keys key rows k)).0
      ]

  -- Only the first of the tests can hold for a descending list that starts after `since`.
  is_kept-length :
      (r : AgentRow F) (rows : List (AgentRow F)) (since : ℤ) (target : ℕ)
      → 0 < target
      → Descending (r ∷ rows)
      → since <ℤ r.checked_at
      → is_kept ops marshal (r ∷ rows) since target ≡ true
      → length (r ∷ rows) ≤ target
  unfolding is_kept
  is_kept-length r rows since target h d later kept =
      let all = r ∷ rows in
      let low : last_at ops marshal all ≤ℤ r.checked_at = (last_at-le all d).0 in
      let reach = buckets_reach all target h in
      let newer : ltb_ℤ (r.checked_at -ℤ since) (pos 1) ≡ false =
        lt-false (r.checked_at -ℤ since) (pos 1) (omega int_laws) in
      let wide : ltb_ℤ (span ops marshal all) (pos 1) ≡ false =
        lt-false (span ops marshal all) (pos 1) (omega int_laws) in
      let nanos : 0 < bucket_nanos ops marshal all target =
        factor_pos target (bucket_nanos ops marshal all target) (last_at ops marshal all)
          r.checked_at reach low in
      ground (arith, newer, wide, nanos)

  -- With its newest row after `since` it has at most the points of its budget.
  pub length-aggregate_single_series :
      (c : Count ops marshal) (key : Text) (rows : List (AgentRow F)) (since : ℤ) (target : ℕ)
      → 0 < target
      → Descending rows
      → All (λ r. (r.series_key ≡ key) × IsRow r) rows
      → All (λ r. since <ℤ r.checked_at) rows
      → length (aggregate_single_series ops marshal rows since target) ≤ target
  unfolding aggregate_single_series
  length-aggregate_single_series c key [] since target h d k later = unfold is_kept in ground arith
  length-aggregate_single_series c key (r ∷ rows) since target h d k later =
      let all = r ∷ rows in
      elim (Bool-cases (is_kept ops marshal all since target)) [
        | inl kept ↦ rw kept (is_kept-length r rows since target h d later.0 kept)
        | inr loops ↦
            rw loops
              (bucket_loop-Keeps c key target (bucket_nanos ops marshal all target)
                (last_at ops marshal all) r.checked_at all (buckets_reach all target h) d
                (le-first_at all d) (last_at-le all d) (chart_keys key all k)).1
      ]
