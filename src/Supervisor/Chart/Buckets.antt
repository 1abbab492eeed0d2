-- ===== src/Supervisor/Chart/Buckets.antt =====
-- cmd/supervisor/dashboard_stream.go: the buckets of one series take up every row once.
use pingmon.Prelude.{
  ◌≤◌, ◌<◌, List, [], ◌∷◌, ◌++◌, none, some, length, ◌≡◌, ◌⊎◌, inl, inr, refl, sym, ap, ◌∙◌, arith,
  All, Bool-cases,
}
use pingmon.Prelude.Int.{
  ℤ, pos, ◌+ℤ◌, ◌-ℤ◌, ◌≤ℤ◌, ◌<ℤ◌, leb_ℤ, int_laws, zero-+ℤ, +ℤ_comm, +ℤ_assoc,
}
use pingmon.Prelude.Text.{Text}
use pingmon.Model.{Result}
use pingmon.Storage.Rows.{FloatOps}
use pingmon.Supervisor.Chart.{
  AgentRow, chart_key, Bucket, new_agent_row, empty_bucket, add_sample, take_bucket, bucket_result,
  bucket_rows,
}

module _ {F : Type 0} where
  -- Newest first.
  abbrev pub Descending : List (AgentRow F) → Type 0
  Descending [] = Unit
  Descending (r ∷ rows) = All (λ x. x.checked_at ≤ℤ r.checked_at) rows × Descending rows

  -- The key of a row is that of its result.
  abbrev pub IsRow : AgentRow F → Type 0
  IsRow r = r.series_key ≡ chart_key r.result

  abbrev pub total : (Result F → ℤ) → List (AgentRow F) → ℤ
  total of_result [] = pos 0
  total of_result (r ∷ rows) = of_result r.result +ℤ total of_result rows

  pub total-append :
      (w : Result F → ℤ) (rows more : List (AgentRow F))
      → total w (rows ++ more) ≡ total w rows +ℤ total w more
  total-append w [] more = sym (zero-+ℤ (total w more))
  total-append w (r ∷ rows) more =
      ap (λ t. w r.result +ℤ t) (total-append w rows more)
      ∙ sym (+ℤ_assoc (w r.result) (total w rows) (total w more))

module _ {F : Type 0} (ops : FloatOps F) (marshal : Result F → Text) where
  -- A count that a bucket keeps: the successes, or the failures.
  pub record Count : Type 0 where
    pub of_result : Result F → ℤ
    pub of_bucket : Bucket F → ℤ
    pub of_empty : of_bucket (empty_bucket ops marshal) ≡ pos 0
    pub of_sample :
        (r : AgentRow F) (b : Bucket F)
        → of_bucket (add_sample ops marshal r b) ≡ of_bucket b +ℤ of_result r.result
    pub of_point :
        (b : Bucket F) (t : Result F) → of_result (bucket_result ops marshal b t) ≡ of_bucket b

  unfoldable pub successes : Count
  unfolding add_sample bucket_result
  successes = record {
    of_result = λ r. r.success_count;
    of_bucket = λ b. b.successes;
    of_empty = refl;
    of_sample = λ r b. refl;
    of_point = λ b t. refl;
  }

  unfoldable pub failures : Count
  unfolding add_sample bucket_result
  failures = record {
    of_result = λ r. r.failure_count;
    of_bucket = λ b. b.failures;
    of_empty = refl;
    of_sample = λ r b. refl;
    of_point = λ b t. refl;
  }

  -- The rest of a bucket: nothing of it is in the bucket, and it is a last part of the rows.
  pub take_bucket-All :
      (P : AgentRow F → Type 0) (start : ℤ) (rows : List (AgentRow F)) (b : Bucket F)
      → All P rows
      → All P (take_bucket ops marshal start rows b).1
  unfolding take_bucket
  take_bucket-All P start [] b h = tt
  take_bucket-All P start (r ∷ rows) b h = elim (Bool-cases (leb_ℤ start r.checked_at)) [
    | inl inside ↦ rw inside (take_bucket-All P start rows (add_sample ops marshal r b) h.1)
    | inr older ↦ rw older h
  ]

  All-weaken :
      (P Q : AgentRow F → Type 0) (rows : List (AgentRow F))
      → ((r : AgentRow F) → P r → Q r)
      → All P rows
      → All Q rows
  All-weaken P Q [] f h = tt
  All-weaken P Q (r ∷ rows) f h = (f r h.0, All-weaken P Q rows f h.1)

  pub take_bucket-Descending :
      (start : ℤ) (rows : List (AgentRow F)) (b : Bucket F)
      → Descending rows
      → Descending (take_bucket ops marshal start rows b).1
        × All (λ x. x.checked_at ≤ℤ start -ℤ pos 1) (take_bucket ops marshal start rows b).1
  unfolding take_bucket
  take_bucket-Descending start [] b d = (tt, tt)
  take_bucket-Descending start (r ∷ rows) b d = elim (Bool-cases (leb_ℤ start r.checked_at)) [
    | inl inside ↦ rw inside (take_bucket-Descending start rows (add_sample ops marshal r b) d.1)
    | inr older ↦
        let below : r.checked_at <ℤ start = ground arith in
        rw older (
          d,
          (
            omega int_laws,
            All-weaken (λ x. x.checked_at ≤ℤ r.checked_at) (λ x. x.checked_at ≤ℤ start -ℤ pos 1)
                rows (λ x h. omega int_laws) d.0,
          ),
        )
  ]

  pub take_bucket-total :
      (c : Count) (start : ℤ) (rows : List (AgentRow F)) (b : Bucket F)
      → c.of_bucket (take_bucket ops marshal start rows b).0
          +ℤ total c.of_result (take_bucket ops marshal start rows b).1
        ≡ c.of_bucket b +ℤ total c.of_result rows
  unfolding take_bucket
  take_bucket-total c start [] b = refl
  take_bucket-total c start (r ∷ rows) b = elim (Bool-cases (leb_ℤ start r.checked_at)) [
    | inl inside ↦ rw inside (
        take_bucket-total c start rows (add_sample ops marshal r b)
        ∙ ap (λ t. t +ℤ total c.of_result rows) (c.of_sample r b)
        ∙ +ℤ_assoc (c.of_bucket b) (c.of_result r.result) (total c.of_result rows))
    | inr older ↦ rw older refl
  ]

  -- A bucket is empty, or has a first row, which is of the series.
  abbrev pub IsFilled : Count → Text → Bucket F → Type 0
  IsFilled c key b =
      ((b.first ≡ none) × (c.of_bucket b ≡ pos 0))
      ⊎ ((r : AgentRow F) × (b.first ≡ some r) × (0 < b.samples) × (chart_key r.result ≡ key))

  add_sample-IsFilled :
      (c : Count) (key : Text) (r : AgentRow F) (b : Bucket F)
      → chart_key r.result ≡ key
      → IsFilled c key b
      → IsFilled c key (add_sample ops marshal r b)
  unfolding add_sample
  add_sample-IsFilled c key r b k (inl (fresh, zero_count)) = inr (r, ground arith, omega arith, k)
  add_sample-IsFilled c key r b k (inr (r', first, some_samples, k')) =
      inr (r', ground arith, omega arith, k')

  pub take_bucket-IsFilled :
      (c : Count) (key : Text) (start : ℤ) (rows : List (AgentRow F)) (b : Bucket F)
      → All (λ r. chart_key r.result ≡ key) rows
      → IsFilled c key b
      → IsFilled c key (take_bucket ops marshal start rows b).0
  unfolding take_bucket
  take_bucket-IsFilled c key start [] b k f = f
  take_bucket-IsFilled c key start (r ∷ rows) b k f = elim (Bool-cases (leb_ℤ start r.checked_at)) [
    | inl inside ↦ rw inside (
        take_bucket-IsFilled c key start rows (add_sample ops marshal r b) k.1
          (add_sample-IsFilled c key r b k.0 f))
    | inr older ↦ rw older f
  ]

  -- A bucket becomes at most one row, with its counts, of the same series.
  pub bucket_rows_lem :
      (c : Count) (key : Text) (b : Bucket F)
      → IsFilled c key b
      → (total c.of_result (bucket_rows ops marshal b) ≡ c.of_bucket b)
        × All (λ r. (r.series_key ≡ key) × IsRow r) (bucket_rows ops marshal b)
        × (length (bucket_rows ops marshal b) ≤ 1)
  unfolding bucket_rows new_agent_row bucket_result chart_key
  bucket_rows_lem c key b (inl (fresh, zero_count)) =
      let nothing : bucket_rows ops marshal b ≡ [] = ground arith in
      rw nothing (sym zero_count, tt, omega arith)
  bucket_rows_lem c key b (inr (r, first, some_samples, k)) =
      let point = new_agent_row ops marshal (bucket_result ops marshal b r.result) in
      let one : bucket_rows ops marshal b ≡ point ∷ [] = ground arith in
      rw one (
        +ℤ_comm (c.of_result (bucket_result ops marshal b r.result)) (pos 0)
            ∙ zero-+ℤ (c.of_result (bucket_result ops marshal b r.result))
            ∙ c.of_point b r.result,
        ((k, refl), tt),
        omega arith,
      )
