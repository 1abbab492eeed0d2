-- ===== src/Storage/Store/Additions.antt =====
-- internal/storage/storage.go: what the loop of `SaveResults` adds to the tables and to the cache of
-- series, up to any of its results.
use mathlib.Core.Option.{some-injective}
use mathlib.Core.Path.{subst}
use mathlib.Core.List.{append-nil, append_assoc}
use pingmon.Storage.Store.Soundness.{upsert_series-Grows}
use pingmon.Prelude.{
  ℕ, suc, Bool, true, false, not, ◌||◌, if◌then◌else◌, List, [], ◌∷◌, ◌++◌, none, some, ◌≡◌, refl,
  sym, ap, ◌∙◌, arith, Bool-cases, Option-cases, inl, inr,
}
use pingmon.Prelude.Text.{Text, text_eq, text_eq_iff}
use pingmon.Prelude.Eq.{text_is_eq, lookup, insert, lookup-insert}
use pingmon.Model.{Result}
use pingmon.Storage.Rows.{ResultRow}
use pingmon.Storage.Store.{
  Series, series_is_eq, Tables, Store, series_key, upsert_series, has_series, SaveFaults,
  max_result_id, series_id, result_row, insert_result, series_of, save_result, save_each,
}
use pingmon.Storage.Store.Filing.{
  result_key, has_key, lookup-has_key, Keeps, upsert_series-Keeps, IsFiled, AreRowsOf,
  IsFiled-Keeps, IsCached, AreRowsOf-Keeps, AreRowsOf-append,
}

module _ {F : Type 0} where
  -- What a part of the loop adds.
  pub record Adds (marshal : List Text → Text) (start before after : Store F)
      (results : List (Result F)) : Type 0 where
    pub rows : List (ResultRow F)
    pub added : after.tables.results ≡ before.tables.results ++ rows
    pub are_rows : AreRowsOf marshal start after.tables.series results rows
    pub cached : IsCached start after
    pub keeps : Keeps before.tables.series after.tables.series
    pub rollups_same : after.tables.rollups ≡ before.tables.rollups
    pub statuses_same : after.tables.statuses ≡ before.tables.statuses

  record Files (start before after : Store F) (k : Series) (id : ℕ) : Type 0 where
    filed : IsFiled start after.tables.series (series_key k) id
    cached : IsCached start after
    keeps : Keeps before.tables.series after.tables.series
    results_same : after.tables.results ≡ before.tables.results
    rollups_same : after.tables.rollups ≡ before.tables.rollups
    statuses_same : after.tables.statuses ≡ before.tables.statuses

  series_id_cached :
      (fails : Bool) (k : Series) (s : Store F) (id : ℕ)
      → lookup (series_key k) s.series_cache ≡ some id
      → series_id fails k s ≡ (s, some id)
  unfolding series_id
  series_id_cached fails k s id found = rw (series_id, found) refl

  abbrev with_series : Series → Store F → Store F
  with_series k s =
      let (table, id) = upsert_series k s.tables.series in
      record {
        tables = record s.tables { series = table };
        series_cache = insert (series_key k) id s.series_cache;
      }

  series_id_new :
      (fails : Bool) (k : Series) (s : Store F)
      → lookup (series_key k) s.series_cache ≡ none
      → series_id fails k s
        ≡ (if fails then (s, none) else (with_series k s, some (upsert_series k s.tables.series).1))
  unfolding series_id
  series_id_new fails k s missing = rw (series_id, missing) refl

  with_series-IsCached :
      (start : Store F) (k : Series) (s : Store F)
      → IsCached start s
      → has_key
          (series_key k)
          (upsert_series k s.tables.series).1
          (upsert_series k s.tables.series).0
        ≡ true
      → IsCached start (with_series k s)
  with_series-IsCached start k s c has key id held =
      let table = s.tables.series in
      let up = upsert_series k table in
      let looked = lookup-insert (series_key k) key up.1 s.series_cache in
      elim (Bool-cases (text_eq (series_key k) key)) [
        | inl same ↦
            let is_key : series_key k ≡ key = (text_eq_iff (series_key k) key).0 same in
            let is_id : up.1 ≡ id = some-injective up.1 id (
              sym (looked ∙ ap (λ b. if b then some up.1 else lookup key s.series_cache) same)
              ∙ held) in
            inl (
              ap (λ x. has_key x id up.0) (sym is_key)
              ∙ ap (λ j. has_key (series_key k) j up.0) (sym is_id)
              ∙ has)
        | inr other ↦ IsFiled-Keeps start table up.0 key id (upsert_series-Keeps k table) (
            c key id (
              sym (looked ∙ ap (λ b. if b then some up.1 else lookup key s.series_cache) other)
              ∙ held))
      ]

  new_series-Files :
      (start : Store F) (fails : Bool) (k : Series) (s : Store F) (id : ℕ)
      → IsCached start s
      → (series_id fails k s).1 ≡ some id
      → lookup (series_key k) s.series_cache ≡ none
      → Files start s (series_id fails k s).0 k id
  new_series-Files start true k s id c e missing =
      let is : none ≡ some id = sym (ap (λ x. x.1) (series_id_new true k s missing)) ∙ e in
      absurd (ground arith)
  new_series-Files start false k s id c e missing =
      let table = s.tables.series in
      let up = upsert_series k table in
      let is = series_id_new false k s missing in
      let same : up.1 ≡ id = some-injective up.1 id (sym (ap (λ x. x.1) is) ∙ e) in
      let has : has_key (series_key k) up.1 up.0 ≡ true =
        lookup-has_key k up.1 up.0 (upsert_series-Grows k table).1 in
      rw is (record {
        filed = inl (ap (λ j. has_key (series_key k) j up.0) (sym same) ∙ has);
        cached = with_series-IsCached start k s c has;
        keeps = upsert_series-Keeps k table;
        results_same = refl;
        rollups_same = refl;
        statuses_same = refl;
      })

  series_id-Files :
      (start : Store F) (fails : Bool) (k : Series) (s : Store F) (id : ℕ)
      → IsCached start s
      → (series_id fails k s).1 ≡ some id
      → Files start s (series_id fails k s).0 k id
  series_id-Files start fails k s id c e =
      elim (Option-cases (lookup (series_key k) s.series_cache)) [
        | inr (i, found) ↦
            let is = series_id_cached fails k s i found in
            let same : i ≡ id = some-injective i id (sym (ap (λ x. x.1) is) ∙ e) in
            rw is (record {
              filed = c (series_key k) id (found ∙ ap some same);
              cached = c;
              keeps = λ key j h. h;
              results_same = refl;
              rollups_same = refl;
              statuses_same = refl;
            })
        | inl missing ↦ new_series-Files start fails k s id c e missing
      ]

  result_key-series_key :
      (marshal : List Text → Text) (r : Result F)
      → series_key (series_of marshal r) ≡ result_key marshal r
  unfolding series_key
  result_key-series_key marshal r = refl

  insert_result-added :
      (fails : Bool) (id : ℕ) (result : Result F) (t : Tables F)
      → (insert_result fails id result t).1 ≡ true
      → (insert_result fails id result t).0 ≡ record t {
        results = t.results ++ result_row (suc (max_result_id t.results)) id result ∷ [];
      }
  unfolding insert_result
  insert_result-added fails id result t ok =
      elim (Bool-cases (fails || not (has_series id t.series))) [
        | inl refused ↦ absurd (ground arith)
        | inr taken ↦ rw taken refl
      ]

  save_result-Adds :
      (marshal : List Text → Text) (start : Store F) (series_fails insert_fails : Bool)
      (result : Result F) (s : Store F)
      → IsCached start s
      → (save_result marshal series_fails insert_fails result s).1 ≡ true
      → Adds marshal start s
          (save_result marshal series_fails insert_fails result s).0
          (result ∷ [])
  unfolding save_result result_row
  save_result-Adds marshal start series_fails insert_fails result s c ok =
      let k = series_of marshal result in
      let s' = (series_id series_fails k s).0 in
      elim (Option-cases (series_id series_fails k s).1) [
        | inl missing ↦ absurd (ground arith)
        | inr (id, found) ↦
            let f = series_id-Files start series_fails k s id c found in
            let row = result_row (suc (max_result_id s'.tables.results)) id result in
            let taken : (insert_result insert_fails id result s'.tables).1 ≡ true = ground arith in
            let filed : IsFiled start s'.tables.series (result_key marshal result) id =
              subst (λ key. IsFiled start s'.tables.series key id)
                (result_key-series_key marshal result) f.filed in
            rw (found, save_result, insert_result-added insert_fails id result s'.tables taken)
              (record {
                rows = row ∷ [];
                added = ap (λ rows. rows ++ row ∷ []) f.results_same;
                are_rows = (refl, filed, tt);
                cached = f.cached;
                keeps = f.keeps;
                rollups_same = f.rollups_same;
                statuses_same = f.statuses_same;
              })
      ]

  pub save_each-Adds :
      (marshal : List Text → Text) (start : Store F) (faults : SaveFaults) (i : ℕ)
      (results : List (Result F)) (s : Store F)
      → IsCached start s
      → (save_each marshal faults i results s).1 ≡ true
      → Adds marshal start s (save_each marshal faults i results s).0 results
  unfolding save_each
  save_each-Adds marshal start faults i [] s c ok = record {
    rows = [];
    added = sym (append-nil s.tables.results);
    are_rows = tt;
    cached = c;
    keeps = λ key id h. h;
    rollups_same = refl;
    statuses_same = refl;
  }
  save_each-Adds marshal start faults i (result ∷ results) s c ok =
      let series_fails = faults.series_fails i in
      let insert_fails = faults.insert_fails i in
      let step = save_result marshal series_fails insert_fails result s in
      elim (Bool-cases step.1) [
        | inr failed ↦ absurd (ground arith)
        | inl fine ↦
            let first = save_result-Adds marshal start series_fails insert_fails result s c fine in
            let later =
              save_each-Adds marshal start faults (suc i) results step.0 first.cached
                (ground arith) in
            let after = (save_each marshal faults (suc i) results step.0).0.tables.series in
            rw fine (record {
              rows = first.rows ++ later.rows;
              added =
                  later.added
                  ∙ ap (λ rows. rows ++ later.rows) first.added
                  ∙ append_assoc s.tables.results first.rows later.rows;
              are_rows =
                  AreRowsOf-append marshal start after result results first.rows later.rows
                    (AreRowsOf-Keeps marshal start step.0.tables.series after (result ∷ [])
                      first.rows later.keeps first.are_rows)
                    later.are_rows;
              cached = later.cached;
              keeps = λ key id h. later.keeps key id (first.keeps key id h);
              rollups_same = later.rollups_same ∙ first.rollups_same;
              statuses_same = later.statuses_same ∙ first.statuses_same;
            })
      ]
