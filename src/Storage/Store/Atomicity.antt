-- ===== src/Storage/Store/Atomicity.antt =====
-- internal/storage/storage.go: what `SaveResults` leaves in the tables and in the cache of series, with
-- and without an error.
use mathlib.Core.List.{append-nil}
use mathlib.Core.Path.{subst}
use pingmon.Prelude.{
  ℕ, suc, ◌≤◌, true, false, List, [], ◌∷◌, ◌++◌, none, some, ◌≡◌, ◌≢◌, ◌⊎◌, refl, sym, arith,
  Bool-cases, inl, inr,
}
use pingmon.Prelude.Text.{Text, text_eq_iff}
use pingmon.Prelude.Eq.{text_is_eq, lookup, insert, lookup-insert}
use pingmon.Model.{Time, Result}
use pingmon.Storage.Rows.{ResultRow}
use pingmon.Storage.Store.{
  Series, series_is_eq, SeriesTable, Store, series_key, max_id, upsert_series, SaveFaults,
  series_id, insert_result, series_of, save_result, save_each,
}
use pingmon.Storage.Store.Operations.{heartbeats, save_statuses, save_results}
use pingmon.Storage.Store.Filing.{has_key, AreRowsOf, Keeps, IsCached-refl}
use pingmon.Storage.Store.Additions.{save_each-Adds}
use pingmon.Storage.Store.Statuses.{IsNoted, save_statuses-IsNoted}

kept_cases :
    (key : Text) (id : ℕ) (table table' : SeriesTable)
    → Keeps table table'
    → (has_key key id table ≡ false) ⊎ (has_key key id table' ≡ true)
kept_cases key id table table' keeps = elim (Bool-cases (has_key key id table)) [
  | inl has ↦ inr (keeps key id has)
  | inr other ↦ inl other
]

module _ {F : Type 0} where
  -- A row is added for each of the results, in their order: with its measurement, and of its series.
  -- The series are kept, no rollup is added, and the statuses of the agents of the results are
  -- refreshed, and no other one.
  pub record Saved (marshal : List Text → Text) (results : List (Result F)) (seen : Time)
      (agent key : Text) (id : ℕ) (s s' : Store F) : Type 0 where
    pub rows : List (ResultRow F)
    pub added : s'.tables.results ≡ s.tables.results ++ rows
    pub are_rows : AreRowsOf marshal s s'.tables.series results rows
    pub kept : (has_key key id s.tables.series ≡ false) ⊎ (has_key key id s'.tables.series ≡ true)
    pub rollups_same : s'.tables.rollups ≡ s.tables.rollups
    pub noted :
        IsNoted results agent seen
          (lookup agent s.tables.statuses)
          (lookup agent s'.tables.statuses)

  -- The last branch of the save.
  save_results_done :
      (marshal : List Text → Text) (faults : SaveFaults) (result : Result F)
      (results : List (Result F)) (seen : Time) (s : Store F)
      → faults.begin_fails ≡ false
      → (save_each marshal faults 0 (result ∷ results) s).1 ≡ true
      → (save_statuses faults seen
          (heartbeats [] (result ∷ results))
          (save_each marshal faults 0 (result ∷ results) s).0.tables.statuses).1
        ≡ true
      → faults.commit_fails ≡ false
      → save_results marshal faults (result ∷ results) seen s ≡ (
        record (save_each marshal faults 0 (result ∷ results) s).0 {
          tables = record (save_each marshal faults 0 (result ∷ results) s).0.tables {
            statuses =
                (save_statuses faults seen
                  (heartbeats [] (result ∷ results))
                  (save_each marshal faults 0 (result ∷ results) s).0.tables.statuses).0;
          };
        },
        some (result ∷ results),
      )
  unfolding save_results
  save_results_done marshal faults result results seen s begun fine written committed = ground arith

  -- A save either returns an error and leaves the tables as they were, or returns the results that it
  -- was given, and:
  -- for each of them in their order a row is added to `results`, with its time, counts, latency, rate
  -- and error, and with the id of a series whose agent, address, target, labels and port joined by NUL
  -- are those of the result; or else with an id that the cache had for them before, while the tables
  -- had no such series with it (`save_results_stale` shows such a cache);
  -- for every key and id, a series with them is still there;
  -- no rollup is added;
  -- and the status of every agent is as before if no result is of it, by its name without the spaces
  -- around it, and is otherwise last seen at the instant given, with the address of one of its results
  -- and with the name and the first instant of the status before it.
  pub save_results-cases :
      (marshal : List Text → Text) (faults : SaveFaults) (results : List (Result F)) (seen : Time)
      (agent key : Text) (id : ℕ) (s : Store F)
      → (((save_results marshal faults results seen s).1 ≡ none)
          × ((save_results marshal faults results seen s).0.tables ≡ s.tables))
        ⊎ (((save_results marshal faults results seen s).1 ≡ some results)
            × Saved marshal results seen agent key id s
                (save_results marshal faults results seen s).0)
  unfolding save_results
  save_results-cases marshal faults [] seen agent key id s = inr (
    refl,
    record {
      rows = [];
      added = sym (append-nil s.tables.results);
      are_rows = tt;
      kept = kept_cases key id s.tables.series s.tables.series (λ key id h. h);
      rollups_same = refl;
      noted = inl (refl, tt);
    },
  )
  save_results-cases marshal faults (result ∷ results) seen agent key id s =
      let all = result ∷ results in
      let each = save_each marshal faults 0 all s in
      let noting = save_statuses faults seen (heartbeats [] all) each.0.tables.statuses in
      elim (Bool-cases faults.begin_fails) [
        | inl refused ↦ inl (ground arith)
        | inr begun ↦ elim (Bool-cases each.1) [
          | inr failed ↦ inl (ground arith)
          | inl fine ↦ elim (Bool-cases noting.1) [
            | inr failed ↦ inl (ground arith)
            | inl written ↦ elim (Bool-cases faults.commit_fails) [
              | inl lost ↦ inl (ground arith)
              | inr committed ↦
                  let a = save_each-Adds marshal s faults 0 all s (IsCached-refl s) fine in
                  rw
                    (save_results_done marshal faults result results seen s begun fine written
                      committed)
                    (inr (
                      refl,
                      record {
                        rows = a.rows;
                        added = a.added;
                        are_rows = a.are_rows;
                        kept = kept_cases key id s.tables.series each.0.tables.series a.keeps;
                        rollups_same = a.rollups_same;
                        noted =
                            subst
                              (λ x. IsNoted all agent seen (lookup agent x) (lookup agent noting.0))
                              a.statuses_same
                              (save_statuses-IsNoted faults seen all each.0.tables.statuses agent
                                written);
                      },
                    ))
            ]
          ]
        ]
      ]

max_id-lookup :
    (k : Series) (id : ℕ) (table : SeriesTable) → lookup k table ≡ some id → id ≤ max_id table
unfolding lookup max_id
max_id-lookup k id [] h = absurd (ground arith)
max_id-lookup k id ((j, i) ∷ rows) h = ground (arith, max_id-lookup k id rows)

save_result_stale :
    {F : Type 0} (marshal : List Text → Text) (result : Result F) (s : Store F)
    → lookup (series_key (series_of marshal result)) s.series_cache ≡ none
    → lookup (series_of marshal result) s.tables.series ≡ none
    → ((save_result marshal false true result s).1 ≡ false)
      × ((save_result marshal false true result s).0.series_cache
          ≡ insert
              (series_key (series_of marshal result))
              (suc (max_id s.tables.series))
              s.series_cache)
unfolding save_result series_id upsert_series insert_result
save_result_stale marshal result s c t = ground (arith, c, t)

-- Where the transaction begins, the series of the first result is in neither the cache nor the tables
-- and is added, and the insert of the row fails: the tables stay as they were, but the cache has an id
-- for that series which no series has.
pub save_results_stale :
    {F : Type 0} (marshal : List Text → Text) (faults : SaveFaults) (result : Result F)
    (results : List (Result F)) (seen : Time) (s : Store F)
    → lookup (series_key (series_of marshal result)) s.series_cache ≡ none
    → lookup (series_of marshal result) s.tables.series ≡ none
    → faults.begin_fails ≡ false
    → faults.series_fails 0 ≡ false
    → faults.insert_fails 0 ≡ true
    → ((save_results marshal faults (result ∷ results) seen s).0.tables ≡ s.tables)
      × (lookup
            (series_key (series_of marshal result))
            (save_results marshal faults (result ∷ results) seen s).0.series_cache
          ≡ some (suc (max_id s.tables.series)))
      × ((k : Series) → lookup k s.tables.series ≢ some (suc (max_id s.tables.series)))
unfolding save_results save_each
save_results_stale marshal faults result results seen s c t b f g =
    let key = series_key (series_of marshal result) in
    let new = suc (max_id s.tables.series) in
    let step = save_result_stale marshal result s c t in
    rw (b, f, g, step.0, step.1)
      (
        refl,
        ground (arith, lookup-insert key key new s.series_cache, text_eq_iff key key),
        λ k found. absurd (omega (arith, max_id-lookup k new s.tables.series found)),
      )
