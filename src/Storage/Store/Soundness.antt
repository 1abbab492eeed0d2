-- ===== src/Storage/Store/Soundness.antt =====
-- internal/storage/storage.go: that the series of a row and of the cache exist.
use mathlib.Core.Path.{subst}
use pingmon.Prelude.{
  ℕ, suc, Bool, true, false, not, ◌||◌, List, [], ◌∷◌, none, some, ◌≡◌, refl, arith, All,
  All-append, Bool-cases, Option-cases, inl, inr,
}
use pingmon.Prelude.Text.{Text, text_eq, text_eq_iff, is_empty, trim_space}
use pingmon.Prelude.Eq.{text_is_eq, lookup, insert, lookup-insert}
use pingmon.Model.{Time, Result}
use pingmon.Storage.Rows.{ResultRow}
use pingmon.Storage.Store.{
  Series, series_eq_iff, series_is_eq, SeriesTable, Store, series_key, max_id, upsert_series,
  has_series, SaveFaults, series_id, result_row, insert_result, series_of, save_result, save_each,
}
use pingmon.Storage.Store.Operations.{
  in_series, delete_series, delete_results, save_results, delete_agent,
}

-- What a later table still has.
pub record Grows (table table' : SeriesTable) : Type 0 where
  pub lookups : (k : Series) (id : ℕ) → lookup k table ≡ some id → lookup k table' ≡ some id
  pub ids : (id : ℕ) → has_series id table ≡ true → has_series id table' ≡ true

pub lookup-has_series :
    (k : Series) (id : ℕ) (table : SeriesTable)
    → lookup k table ≡ some id
    → has_series id table ≡ true
unfolding lookup has_series
lookup-has_series k id [] h = absurd (ground arith)
lookup-has_series k id ((j, i) ∷ rows) h = ground (arith, lookup-has_series k id rows)

insert-has_series :
    (k : Series) (new id : ℕ) (table : SeriesTable)
    → lookup k table ≡ none
    → has_series id table ≡ true
    → has_series id (insert k new table) ≡ true
unfolding lookup insert has_series
insert-has_series k new id [] m h = absurd (ground arith)
insert-has_series k new id ((j, i) ∷ rows) m h = ground (arith, insert-has_series k new id rows)

pub upsert_series-Grows :
    (k : Series) (table : SeriesTable)
    → Grows table (upsert_series k table).0
      × (lookup k (upsert_series k table).0 ≡ some (upsert_series k table).1)
unfolding upsert_series
upsert_series-Grows k table = elim (Option-cases (lookup k table)) [
  | inr (id, found) ↦
      rw (found, upsert_series) (record { lookups = λ j i h. h; ids = λ i h. h }, found)
  | inl missing ↦
      rw (missing, upsert_series)
        (
          record {
            lookups = λ j i h.
                ground (arith, lookup-insert k j (suc (max_id table)) table, series_eq_iff k j);
            ids = λ i h. insert-has_series k (suc (max_id table)) i table missing h;
          },
          ground (arith, lookup-insert k k (suc (max_id table)) table, series_eq_iff k k),
        )
]

-- A series of the table has the key and the id.
pub record Names (table : SeriesTable) (entry : Text × ℕ) : Type 0 where
  pub series : Series
  pub key_is : series_key series ≡ entry.0
  pub id_is : lookup series table ≡ some entry.1

abbrev pub HasSeries : {F : Type 0} → SeriesTable → ResultRow F → Type 0
HasSeries table r = has_series r.series_id table ≡ true

-- Every entry of the cache is a series with the same key, and every result is of a series.
pub record IsSound {F : Type 0} (s : Store F) : Type 0 where
  pub cached : All (Names s.tables.series) s.series_cache
  pub stored : All (HasSeries s.tables.series) s.tables.results

All-map :
    {A : Type 0} (P Q : A → Type 0) (xs : List A) → ((x : A) → P x → Q x) → All P xs → All Q xs
All-map P Q [] f h = tt
All-map P Q (x ∷ xs) f h = (f x h.0, All-map P Q xs f h.1)

All-insert :
    {V : Type 0} (P : Text × V → Type 0) (k : Text) (v : V) (m : List (Text × V))
    → P (k, v)
    → All P m
    → All P (insert k v m)
unfolding insert
All-insert P k v [] p h = (p, tt)
All-insert P k v ((j, w) ∷ m) p h = elim (Bool-cases (text_eq j k)) [
  | inl same ↦ rw same (p, h.1)
  | inr other ↦ rw other (h.0, All-insert P k v m p h.1)
]

All-lookup :
    {V : Type 0} (P : Text × V → Type 0) (k : Text) (v : V) (m : List (Text × V))
    → lookup k m ≡ some v
    → All P m
    → P (k, v)
unfolding lookup
All-lookup P k v [] e h = absurd (ground arith)
All-lookup P k v ((j, w) ∷ m) e h = elim (Bool-cases (text_eq j k)) [
  | inl same ↦ subst P (ground (arith, text_eq_iff j k)) h.0
  | inr other ↦ All-lookup P k v m (ground arith) h.1
]

Names-Grows :
    (table table' : SeriesTable) (entry : Text × ℕ)
    → Grows table table'
    → Names table entry
    → Names table' entry
Names-Grows table table' entry g n = record {
  series = n.series;
  key_is = n.key_is;
  id_is = g.lookups n.series entry.1 n.id_is;
}

delete_series-has :
    (agent : Text) (id : ℕ) (table : SeriesTable)
    → has_series id table ≡ true
    → in_series agent table id ≡ false
    → has_series id (delete_series agent table) ≡ true
unfolding has_series in_series delete_series
delete_series-has agent id [] h k = h
delete_series-has agent id ((j, i) ∷ rows) h k = ground (arith, delete_series-has agent id rows)

module _ {F : Type 0} where
  series_id-IsSound :
      (fails : Bool) (k : Series) (s : Store F) → IsSound s → IsSound (series_id fails k s).0
  unfolding series_id
  series_id-IsSound fails k s h =
      let table = s.tables.series in
      let up = upsert_series-Grows k table in
      let table' = (upsert_series k table).0 in
      let id = (upsert_series k table).1 in
      elim (Option-cases (lookup (series_key k) s.series_cache)) [
        | inr (i, found) ↦ rw (found, series_id) h
        | inl missing ↦
            rw (missing, series_id)
              (elim (Bool-cases fails) [
                | inl failed ↦ rw failed h
                | inr fine ↦ rw fine (record {
                  cached =
                      All-insert (Names table') (series_key k) id s.series_cache
                        (record { series = k; key_is = refl; id_is = up.1 })
                        (All-map (Names table) (Names table') s.series_cache
                          (λ e n. Names-Grows table table' e up.0 n) h.cached);
                  stored =
                      All-map (HasSeries table) (HasSeries table') s.tables.results
                        (λ r n. up.0.ids r.series_id n) h.stored;
                })
              ])
      ]

  insert_result-IsSound :
      (fails : Bool) (id : ℕ) (result : Result F) (s : Store F)
      → IsSound s
      → IsSound (record s { tables = (insert_result fails id result s.tables).0 })
  unfolding insert_result result_row
  insert_result-IsSound fails id result s h =
      elim (Bool-cases (fails || not (has_series id s.tables.series))) [
        | inl refused ↦ rw refused h
        | inr taken ↦ rw taken (record {
          cached = h.cached;
          stored =
              All-append (HasSeries s.tables.series) s.tables.results _ h.stored (ground arith, tt);
        })
      ]

  save_result-IsSound :
      (marshal : List Text → Text) (series_fails insert_fails : Bool) (result : Result F)
      (s : Store F)
      → IsSound s
      → IsSound (save_result marshal series_fails insert_fails result s).0
  unfolding save_result
  save_result-IsSound marshal series_fails insert_fails result s h =
      let k = series_of marshal result in
      let h' = series_id-IsSound series_fails k s h in
      elim (Option-cases (series_id series_fails k s).1) [
        | inl missing ↦ rw (missing, save_result) h'
        | inr (id, found) ↦
            rw (found, save_result)
              (insert_result-IsSound insert_fails id result (series_id series_fails k s).0 h')
      ]

  save_each-IsSound :
      (marshal : List Text → Text) (faults : SaveFaults) (i : ℕ) (results : List (Result F))
      (s : Store F)
      → IsSound s
      → IsSound (save_each marshal faults i results s).0
  unfolding save_each
  save_each-IsSound marshal faults i [] s h = h
  save_each-IsSound marshal faults i (result ∷ results) s h =
      let step = save_result marshal (faults.series_fails i) (faults.insert_fails i) result s in
      let h' =
        save_result-IsSound marshal (faults.series_fails i) (faults.insert_fails i) result s h in
      elim (Bool-cases step.1) [
        | inl ok ↦ rw ok (save_each-IsSound marshal faults (suc i) results step.0 h')
        | inr failed ↦ rw failed h'
      ]

  -- A save that returns its results leaves every entry of the cache naming a series with its key, and
  -- every result naming a series that exists, if that held before.
  pub save_results-IsSound :
      (marshal : List Text → Text) (faults : SaveFaults) (results saved : List (Result F))
      (seen : Time) (s : Store F)
      → IsSound s
      → (save_results marshal faults results seen s).1 ≡ some saved
      → IsSound (save_results marshal faults results seen s).0
  unfolding save_results
  save_results-IsSound marshal faults [] saved seen s h done = h
  save_results-IsSound marshal faults (result ∷ results) saved seen s h done =
      let each = save_each-IsSound marshal faults 0 (result ∷ results) s h in ground (arith, each)

  delete_results-All :
      (agent : Text) (table : SeriesTable) (rows : List (ResultRow F))
      → All (HasSeries table) rows
      → All (HasSeries (delete_series agent table)) (delete_results agent table rows)
  unfolding delete_results
  delete_results-All agent table [] h = tt
  delete_results-All agent table (r ∷ rows) h =
      elim (Bool-cases (in_series agent table r.series_id)) [
        | inl gone ↦ rw gone (delete_results-All agent table rows h.1)
        | inr here ↦ rw here (
          delete_series-has agent r.series_id table h.0 here,
          delete_results-All agent table rows h.1,
        )
      ]

  -- Deleting an agent, whether it fails or not, keeps every entry of the cache naming a series with
  -- its key, and every result naming a series that exists.
  pub delete_agent-IsSound :
      (fails : Bool) (name : Text) (s : Store F) → IsSound s → IsSound (delete_agent fails name s).0
  unfolding delete_agent
  delete_agent-IsSound fails name s h = elim (Bool-cases (is_empty (trim_space name))) [
    | inl empty ↦ rw (empty, delete_agent) h
    | inr named ↦
        rw (named, delete_agent)
          (elim (Bool-cases fails) [
            | inl failed ↦ rw failed h
            | inr fine ↦ rw fine (record {
              cached = tt;
              stored =
                  delete_results-All (trim_space name) s.tables.series s.tables.results h.stored;
            })
          ])
  ]
