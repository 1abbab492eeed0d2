-- ===== src/Supervisor/Report/Outcomes.antt =====
-- cmd/supervisor/main.go: what `handleReport` leaves of the server, for every reply.
use pingmon.Prelude.{
  ℕ, ◌≤◌, Bool, true, false, List, [], ◌∷◌, Option, none, some, ◌≡◌, ◌⊎◌, inl, inr, refl, ap, ◌∙◌,
  arith, ltb, ◌==◌, length, All, Bool-cases, Option-cases,
}
use pingmon.Prelude.Text.{Text}
use pingmon.Model.{Time, Result}
use pingmon.Config.Defs.{Config}
use pingmon.Storage.Store.{SaveFaults}
use pingmon.Storage.Store.Atomicity.{Saved, save_results-cases}
use pingmon.Supervisor.Cache.{clear}
use pingmon.Supervisor.Connectivity.{update_agent_connectivity}
use pingmon.Supervisor.Report.{
  max_report_batch_size, Reply, server_error, saved, ReportState, Codecs, decode_report_payload,
  validate_report_result, normalize_report, is_out_of_range, accept_each, commit_report,
  handle_report,
}

-- A reply that is no success.
abbrev pub is_refusal : Reply → Bool
is_refusal (saved n) = false
is_refusal _ = true

module _ {F : Type 0} (codecs : Codecs F) where
  -- The result passes both tests of the loop.
  abbrev pub IsTaken : Time → Config → Result F → Type 0
  IsTaken now cfg result =
      (validate_report_result codecs result ≡ none)
      × (is_out_of_range codecs now cfg result.checked_at ≡ false)

  abbrev pub normalize_each : Time → Text → List (Result F) → List (Result F)
  normalize_each now agent_ip [] = []
  normalize_each now agent_ip (r ∷ results) =
      normalize_report codecs now agent_ip r ∷ normalize_each now agent_ip results

  accept_each_lem :
      (now : Time) (cfg : Config) (agent_ip : Text) (results accepted : List (Result F))
      → accept_each codecs now cfg agent_ip results ≡ some accepted
      → (accepted ≡ normalize_each now agent_ip results) × All (IsTaken now cfg) results
  unfolding accept_each
  accept_each_lem now cfg agent_ip [] accepted h = (ground arith, tt)
  accept_each_lem now cfg agent_ip (r ∷ results) accepted h =
      elim (Option-cases (accept_each codecs now cfg agent_ip results)) [
        | inl missing ↦ absurd (ground arith)
        | inr (rest, found) ↦
            let later = accept_each_lem now cfg agent_ip results rest found in
            (ground (arith, later.0), ((ground arith, ground arith), later.1))
      ]

  -- Nothing that the server shows has changed; of the store, only the cache of series may have.
  pub record Unchanged (s s' : ReportState F) : Type 0 where
    pub tables_same : s'.store.tables ≡ s.store.tables
    pub cache_same : s'.cache ≡ s.cache
    pub connectivity_same : s'.connectivity ≡ s.connectivity
    pub broadcasts_same : s'.broadcasts ≡ s.broadcasts

  -- The whole report was taken.
  pub record Taken (cfg : Config) (now : Time) (raw agent_ip : Text) (n : ℕ) (agent key : Text)
      (id : ℕ) (s s' : ReportState F) : Type 0 where
    pub results : List (Result F)
    pub decoded : decode_report_payload codecs raw ≡ some results
    pub size_is : n ≡ length results
    pub size_ge : 1 ≤ n
    pub size_le : n ≤ max_report_batch_size
    pub taken : All (IsTaken now cfg) results
    pub stored :
        Saved codecs.marshal_labels
          (normalize_each now agent_ip results)
          now
          agent
          key
          id
          s.store
          s'.store
    pub cache_is : s'.cache ≡ clear s.cache
    pub connectivity_is :
        s'.connectivity
        ≡ update_agent_connectivity cfg.failure_threshold
            (normalize_each now agent_ip results)
            now
            s.connectivity
    pub broadcasts_is : s'.broadcasts ≡ normalize_each now agent_ip results ∷ s.broadcasts

  Unchanged-refl : (s : ReportState F) → Unchanged s s
  Unchanged-refl s = record {
    tables_same = refl;
    cache_same = refl;
    connectivity_same = refl;
    broadcasts_same = refl;
  }

  commit_report-cases :
      (faults : SaveFaults) (cfg : Config) (now : Time) (n : ℕ) (accepted : List (Result F))
      (agent key : Text) (id : ℕ) (s : ReportState F)
      → (((commit_report codecs faults cfg now n accepted s).1 ≡ server_error)
          × Unchanged s (commit_report codecs faults cfg now n accepted s).0)
        ⊎ (((commit_report codecs faults cfg now n accepted s).1 ≡ saved n)
            × Saved codecs.marshal_labels accepted now agent key id s.store
                (commit_report codecs faults cfg now n accepted s).0.store
            × ((commit_report codecs faults cfg now n accepted s).0.cache ≡ clear s.cache)
            × ((commit_report codecs faults cfg now n accepted s).0.connectivity
                ≡ update_agent_connectivity cfg.failure_threshold accepted now s.connectivity)
            × ((commit_report codecs faults cfg now n accepted s).0.broadcasts
                ≡ accepted ∷ s.broadcasts))
  unfolding commit_report
  commit_report-cases faults cfg now n accepted agent key id s =
      elim (save_results-cases codecs.marshal_labels faults accepted now agent key id s.store) [
        | inl (failed, same) ↦
            rw (failed, commit_report)
              (inl (
                refl,
                record {
                  tables_same = same;
                  cache_same = refl;
                  connectivity_same = refl;
                  broadcasts_same = refl;
                },
              ))
        | inr (fine, stored) ↦ rw (fine, commit_report) (inr (refl, stored, refl, refl, refl))
      ]

  handle_decoded-cases :
      (faults : SaveFaults) (cfg : Config) (now : Time) (raw agent_ip : Text) (agent key : Text)
      (id : ℕ) (s : ReportState F) (results : List (Result F))
      → decode_report_payload codecs raw ≡ some results
      → ((is_refusal (handle_report codecs faults cfg now true (some raw) agent_ip s).1 ≡ true)
          × Unchanged s (handle_report codecs faults cfg now true (some raw) agent_ip s).0)
        ⊎ ((n : ℕ) × ((handle_report codecs faults cfg now true (some raw) agent_ip s).1 ≡ saved n)
            × Taken cfg now raw agent_ip n agent key id s
                (handle_report codecs faults cfg now true (some raw) agent_ip s).0)
  unfolding handle_report
  handle_decoded-cases faults cfg now raw agent_ip agent key id s results decoded =
      rw (decoded, handle_report)
        (elim (Bool-cases (length results == 0)) [
          | inl empty ↦ rw empty (inl (refl, Unchanged-refl s))
          | inr some_results ↦
              rw some_results (elim (Bool-cases (ltb max_report_batch_size (length results))) [
                | inl large ↦ rw large (inl (refl, Unchanged-refl s))
                | inr fits ↦
                    rw fits (elim (Option-cases (accept_each codecs now cfg agent_ip results)) [
                      | inl refused ↦ rw refused (inl (refl, Unchanged-refl s))
                      | inr (accepted, all) ↦
                          let lem = accept_each_lem now cfg agent_ip results accepted all in
                          let normal = normalize_each now agent_ip results in
                          let all' : accept_each codecs now cfg agent_ip results ≡ some normal =
                            all ∙ ap some lem.0 in
                          rw all'
                            (elim (commit_report-cases faults cfg now (length results) normal agent
                              key id s) [
                                | inl (failed, same) ↦ inl (rw failed refl, same)
                                | inr (fine, added, cleared, noted, sent) ↦ inr (
                                  length results,
                                  fine,
                                  record {
                                    results = results;
                                    decoded = decoded;
                                    size_is = refl;
                                    size_ge = ground arith;
                                    size_le = ground arith;
                                    taken = lem.1;
                                    stored = added;
                                    cache_is = cleared;
                                    connectivity_is = noted;
                                    broadcasts_is = sent;
                                  },
                                )
                              ])
                    ])
              ])
        ])

  -- Every report ends in one of two ways. Either the reply is no success, and the tables, the cache of
  -- results, the connectivity and the broadcasts are as before; or it was posted with a payload that
  -- decodes to 1 to 1000 results, all of them valid and with a time in range, and the reply has their
  -- number. Then, of the results normalised:
  -- for each in their order a row is added to `results`, with its time, counts, latency, rate and error,
  -- and with the id of a series whose agent, address, target, labels and port joined by NUL are those of
  -- the result; or else with an id that the store's cache had for them before, while the tables had no
  -- such series with it;
  -- for every key and id, a series with them is still there, and no rollup is added;
  -- the status of every agent is as before if no result is of it, by its name without the spaces around
  -- it, and is otherwise last seen now, with the address of one of its results and with the name and the
  -- first instant of the status before it;
  -- the cache of results is cleared, and the results are counted in the connectivity and broadcast.
  pub handle_report-cases :
      (faults : SaveFaults) (cfg : Config) (now : Time) (posted : Bool) (body : Option Text)
      (agent_ip agent key : Text) (id : ℕ) (s : ReportState F)
      → ((is_refusal (handle_report codecs faults cfg now posted body agent_ip s).1 ≡ true)
          × Unchanged s (handle_report codecs faults cfg now posted body agent_ip s).0)
        ⊎ ((n : ℕ) × (raw : Text) × (posted ≡ true)
            × (body ≡ some raw)
            × ((handle_report codecs faults cfg now posted body agent_ip s).1 ≡ saved n)
            × Taken cfg now raw agent_ip n agent key id s
                (handle_report codecs faults cfg now posted body agent_ip s).0)
  unfolding handle_report
  handle_report-cases faults cfg now false body agent_ip agent key id s =
      inl (refl, Unchanged-refl s)
  handle_report-cases faults cfg now true none agent_ip agent key id s =
      inl (refl, Unchanged-refl s)
  handle_report-cases faults cfg now true (some raw) agent_ip agent key id s =
      elim (Option-cases (decode_report_payload codecs raw)) [
        | inl bad ↦ rw (bad, handle_report) (inl (refl, Unchanged-refl s))
        | inr (results, decoded) ↦
            elim (handle_decoded-cases faults cfg now raw agent_ip agent key id s results decoded) [
              | inl refused ↦ inl refused
              | inr (n, fine, taken) ↦ inr (n, raw, refl, refl, fine, taken)
            ]
      ]
