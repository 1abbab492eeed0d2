-- ===== src/Storage/Store/Filing.antt =====
-- internal/storage/storage.go: whether a row of `results` is of the series that its result names.
use pingmon.Prelude.Decimal.{itoa}
use pingmon.Prelude.{
  ℕ, suc, Bool, true, false, ◌==◌, ◌&&◌, ◌||◌, List, [], ◌∷◌, ◌++◌, none, some, ◌≡◌, ◌⊎◌, ap, arith,
  Bool-cases, Option-cases, inl, inr,
}
use pingmon.Prelude.Int.{ℤ}
use pingmon.Prelude.Text.{Text, text_eq, text_eq_iff}
use pingmon.Prelude.Eq.{text_is_eq, lookup, insert}
use pingmon.Model.{Time, Result}
use pingmon.Storage.Rows.{ResultRow}
use pingmon.Storage.Store.{
  Series, series_eq, series_eq_iff, series_is_eq, SeriesTable, Store, series_key, max_id,
  upsert_series,
}

-- What the rows of a series tell of a result, by its columns.
abbrev pub result_key : {F : Type 0} → (List Text → Text) → Result F → Text
result_key marshal r =
    r.agent
    ++ 0 ∷ r.agent_ip
    ++ 0 ∷ r.target_name
    ++ 0 ∷ r.address
    ++ 0 ∷ itoa r.port
    ++ 0 ∷ marshal r.labels

-- Whether a series of the table has the key and the id.
abbrev pub has_key : Text → ℕ → SeriesTable → Bool
has_key key id [] = false
has_key key id ((k, j) ∷ table) = (j == id && text_eq (series_key k) key) || has_key key id table

pub lookup-has_key :
    (k : Series) (id : ℕ) (table : SeriesTable)
    → lookup k table ≡ some id
    → has_key (series_key k) id table ≡ true
unfolding lookup
lookup-has_key k id [] e = absurd (ground arith)
lookup-has_key k id ((j, i) ∷ table) e = elim (Bool-cases (series_eq j k)) [
  | inl same ↦
      let is : series_key j ≡ series_key k = ap series_key ((series_eq_iff j k).0 same) in
      ground (arith, text_eq_iff (series_key j) (series_key k))
  | inr other ↦ ground (arith, lookup-has_key k id table)
]

insert-has_key :
    (k : Series) (new id : ℕ) (key : Text) (table : SeriesTable)
    → lookup k table ≡ none
    → has_key key id table ≡ true
    → has_key key id (insert k new table) ≡ true
unfolding lookup insert
insert-has_key k new id key [] m h = absurd (ground arith)
insert-has_key k new id key ((j, i) ∷ table) m h = ground (arith, insert-has_key k new id key table)

-- A later table has every series of an earlier one.
abbrev pub Keeps : SeriesTable → SeriesTable → Type 0
Keeps table table' =
    (key : Text) (id : ℕ) → has_key key id table ≡ true → has_key key id table' ≡ true

pub upsert_series-Keeps : (k : Series) (table : SeriesTable) → Keeps table (upsert_series k table).0
unfolding upsert_series
upsert_series-Keeps k table key id h = elim (Option-cases (lookup k table)) [
  | inr (j, found) ↦ rw (found, upsert_series) h
  | inl missing ↦
      rw (missing, upsert_series) (insert-has_key k (suc (max_id table)) id key table missing h)
]

-- What a row of `results` tells of the measurement.
pub record Content (F : Type 0) : Type 0 where
  pub checked_at : Time
  pub success_count : ℤ
  pub failure_count : ℤ
  pub average_latency_ms : F
  pub success_rate : F
  pub error : Text

module _ {F : Type 0} where
  abbrev pub content_of_row : ResultRow F → Content F
  content_of_row r = record {
    checked_at = r.checked_at;
    success_count = r.success_count;
    failure_count = r.failure_count;
    average_latency_ms = r.average_latency_ms;
    success_rate = r.success_rate;
    error = r.error;
  }

  abbrev pub content_of_result : Result F → Content F
  content_of_result r = record {
    checked_at = r.checked_at;
    success_count = r.success_count;
    failure_count = r.failure_count;
    average_latency_ms = r.average_latency_ms;
    success_rate = r.success_rate;
    error = r.error;
  }

  -- The id is that of a series with the key; or the cache had that id for the key before, and the
  -- tables no such series, as `save_results_stale` shows that it may.
  abbrev pub IsFiled : Store F → SeriesTable → Text → ℕ → Type 0
  IsFiled s table key id =
      (has_key key id table ≡ true)
      ⊎ ((lookup key s.series_cache ≡ some id) × (has_key key id s.tables.series ≡ false))

  -- A row for each of the results, in their order: with its measurement, and of its series.
  abbrev pub AreRowsOf :
      (List Text → Text) → Store F → SeriesTable → List (Result F) → List (ResultRow F) → Type 0
  AreRowsOf marshal s table [] [] = Unit
  AreRowsOf marshal s table [] (row ∷ rows) = ⊥
  AreRowsOf marshal s table (r ∷ results) [] = ⊥
  AreRowsOf marshal s table (r ∷ results) (row ∷ rows) =
      (content_of_row row ≡ content_of_result r)
      × IsFiled s table (result_key marshal r) row.series_id
      × AreRowsOf marshal s table results rows

  pub IsFiled-Keeps :
      (s : Store F) (table table' : SeriesTable) (key : Text) (id : ℕ)
      → Keeps table table'
      → IsFiled s table key id
      → IsFiled s table' key id
  IsFiled-Keeps s table table' key id keeps (inl has) = inl (keeps key id has)
  IsFiled-Keeps s table table' key id keeps (inr stale) = inr stale

  -- Every entry of the cache is filed.
  abbrev pub IsCached : Store F → Store F → Type 0
  IsCached s s' =
      (key : Text) (id : ℕ)
      → lookup key s'.series_cache ≡ some id
      → IsFiled s s'.tables.series key id

  pub IsCached-refl : (s : Store F) → IsCached s s
  IsCached-refl s key id e = elim (Bool-cases (has_key key id s.tables.series)) [
    | inl has ↦ inl has
    | inr stale ↦ inr (e, stale)
  ]

  pub AreRowsOf-Keeps :
      (marshal : List Text → Text) (start : Store F) (table table' : SeriesTable)
      (results : List (Result F)) (rows : List (ResultRow F))
      → Keeps table table'
      → AreRowsOf marshal start table results rows
      → AreRowsOf marshal start table' results rows
  AreRowsOf-Keeps marshal start table table' [] [] keeps are = tt
  AreRowsOf-Keeps marshal start table table' [] (row ∷ rows) keeps are = elim are [ ]
  AreRowsOf-Keeps marshal start table table' (r ∷ results) [] keeps are = elim are [ ]
  AreRowsOf-Keeps marshal start table table' (r ∷ results) (row ∷ rows) keeps are = (
    are.0,
    IsFiled-Keeps start table table' (result_key marshal r) row.series_id keeps are.1,
    AreRowsOf-Keeps marshal start table table' results rows keeps are.2,
  )

  pub AreRowsOf-append :
      (marshal : List Text → Text) (start : Store F) (table : SeriesTable) (r : Result F)
      (results : List (Result F)) (first rows : List (ResultRow F))
      → AreRowsOf marshal start table (r ∷ []) first
      → AreRowsOf marshal start table results rows
      → AreRowsOf marshal start table (r ∷ results) (first ++ rows)
  AreRowsOf-append marshal start table r results [] rows are later = elim are [ ]
  AreRowsOf-append marshal start table r results (row ∷ []) rows are later = (are.0, are.1, later)
  AreRowsOf-append marshal start table r results (row ∷ row' ∷ first) rows are later =
      elim are.2 [ ]
