-- ===== src/Tests/Reports.antt =====
-- Tests of the saving of results, in internal/storage, and of the reports that lead to it, in
-- cmd/supervisor. A float64 is a number of thousandths here.
use pingmon.Prelude.{
  ℕ, true, false, List, [], ◌∷◌, none, some, ◌≡◌, ◌≢◌, ◌⊎◌, refl, ◌+◌, ◌*◌, ◌/◌, ltb, suc,
}
use pingmon.Prelude.Int.{pos, pos_part, ◌+ℤ◌, wrap64}
use pingmon.Prelude.Text.{Text, codes, text_eq, trim_space, byte_len}
use pingmon.Prelude.Eq.{lookup, insert, text_is_eq}
use pingmon.Prelude.Decimal.{itoa}
use pingmon.Model.{Time, second, day, Result}
use pingmon.Config.Defs.{default_config}
use pingmon.Storage.Rows.{FloatOps, ResultRow}
use pingmon.Storage.Store.{
  Series, series_eq, series_is_eq, Store, series_key, max_id, upsert_series, has_series, SaveFaults,
  series_id, result_row, insert_result, series_of, save_result, save_each,
}
use pingmon.Storage.Store.Operations.{
  heartbeats, upsert_status, save_statuses, in_series, delete_series, delete_results, save_results,
  delete_agent,
}
use pingmon.Storage.Store.Soundness.{IsSound, save_results-IsSound, delete_agent-IsSound}
use pingmon.Storage.Store.Atomicity.{Saved, save_results-cases, save_results_stale}
use pingmon.Supervisor.Cache.{new_results_cache, clear}
use pingmon.Supervisor.Connectivity.{update_agent_connectivity}
use pingmon.Supervisor.Report.{
  has_long_label, saved, ReportState, Codecs, decode_report_payload, check_texts, check_numbers,
  validate_report_result, normalize_report, is_out_of_range, accept_each, commit_report,
  handle_report,
}
use pingmon.Supervisor.Report.Checks.{HasTexts, HasRanges, validate_report_result_lem}
use pingmon.Supervisor.Report.Outcomes.{is_refusal, Unchanged, Taken, handle_report-cases}

abbrev milli : FloatOps ℕ
milli = record {
  zero = 0;
  one = 1000;
  add = λ a b. a + b;
  mul = λ a b. a * b / 1000;
  div = λ a b. a * 1000 / b;
  of_int = λ n. pos_part n * 1000;
  lt = ltb;
}

abbrev result : Text → Time → Result ℕ
result agent at = record {
  agent = agent;
  agent_ip = [];
  target_name = codes "web";
  address = codes "example.org";
  port = pos 443;
  labels = [];
  checked_at = at;
  success_count = pos 3;
  failure_count = pos 1;
  average_latency_ms = 12_000;
  success_rate = 0;
  error = [];
}

-- Every payload is one report of the agent "a".
abbrev codecs : Codecs ℕ
codecs = record {
  ops = milli;
  is_nan = λ a. false;
  is_inf = λ a. false;
  unmarshal_results = λ raw. none;
  unmarshal_result = λ raw. some (result (codes "a") 0);
  marshal_labels = λ labels. codes "[]";
}

abbrev marshal : List Text → Text
marshal labels = codes "[]"

abbrev empty : Store ℕ
empty = record {
  tables = record { series = []; results = []; rollups = []; statuses = [] };
  series_cache = [];
}

abbrev no_faults : SaveFaults
no_faults = record {
  begin_fails = false;
  series_fails = λ i. false;
  insert_fails = λ i. false;
  status_fails = λ agent. false;
  commit_fails = false;
}

-- Every insert into `results` fails.
abbrev disk_full : SaveFaults
disk_full = record no_faults { insert_fails = λ i. true }

-- Unfolds what the tests run through.
program : Unit {0}
unfolding text_eq trim_space byte_len itoa wrap64 ◌+ℤ◌ lookup insert series_eq series_key max_id
    upsert_series has_series series_id result_row insert_result save_result save_each heartbeats
    upsert_status save_statuses in_series delete_series delete_results save_results delete_agent
    clear new_results_cache has_long_label decode_report_payload check_texts check_numbers
    validate_report_result normalize_report is_out_of_range accept_each commit_report handle_report
    update_agent_connectivity default_config
program = tt

abbrev batch : List (Result ℕ)
batch = result (codes "a") (5 * second) ∷ result (codes "b") (6 * second) ∷ []

save_two : (save_results marshal no_faults batch (7 * second) empty).1 ≡ some batch
unfolding program
save_two = refl

save_two_ids :
    (save_results marshal no_faults batch (7 * second) empty).0.series_cache
    ≡ (series_key (series_of marshal (result (codes "a") 0)), 1)
      ∷ (series_key (series_of marshal (result (codes "b") 0)), 2)
      ∷ []
unfolding program
save_two_ids = refl

empty-IsSound : IsSound empty
empty-IsSound = record { cached = tt; stored = tt }

save_results-IsSound_example : IsSound (save_results marshal no_faults batch (7 * second) empty).0
save_results-IsSound_example =
    save_results-IsSound marshal no_faults batch batch (7 * second) empty empty-IsSound save_two

delete_agent-IsSound_example :
    IsSound
      (delete_agent false
        (codes " a ")
        (save_results marshal no_faults batch (7 * second) empty).0).0
delete_agent-IsSound_example =
    delete_agent-IsSound false (codes " a ")
      (save_results marshal no_faults batch (7 * second) empty).0 save_results-IsSound_example

save_results-cases_example :
    (((save_results marshal no_faults batch (7 * second) empty).1 ≡ none)
      × ((save_results marshal no_faults batch (7 * second) empty).0.tables ≡ empty.tables))
    ⊎ (((save_results marshal no_faults batch (7 * second) empty).1 ≡ some batch)
        × Saved marshal batch
            (7 * second)
            (codes "a")
            (series_key (series_of marshal (result (codes "a") 0)))
            1
            empty
            (save_results marshal no_faults batch (7 * second) empty).0)
save_results-cases_example =
    save_results-cases marshal no_faults batch (7 * second) (codes "a")
      (series_key (series_of marshal (result (codes "a") 0))) 1 empty

save_results_stale_example :
    ((save_results marshal disk_full batch (7 * second) empty).0.tables ≡ empty.tables)
    × (lookup
          (series_key (series_of marshal (result (codes "a") (5 * second))))
          (save_results marshal disk_full batch (7 * second) empty).0.series_cache
        ≡ some (suc (max_id empty.tables.series)))
    × ((k : Series) → lookup k empty.tables.series ≢ some (suc (max_id empty.tables.series)))
unfolding program
save_results_stale_example =
    save_results_stale marshal disk_full (result (codes "a") (5 * second))
      (result (codes "b") (6 * second) ∷ []) (7 * second) empty refl refl refl refl refl

-- After that failure the id goes to the next series that is added, and results of "a" are stored as
-- results of "b".
abbrev confused : Store ℕ
confused =
    (save_results marshal no_faults
      (result (codes "b") (8 * second) ∷ result (codes "a") (9 * second) ∷ []) (9 * second)
      (save_results marshal disk_full batch (7 * second) empty).0).0

confused_series : confused.tables.series ≡ (series_of marshal (result (codes "b") 0), 1) ∷ []
unfolding program
confused_series = refl

abbrev series_ids : List (ResultRow ℕ) → List ℕ
series_ids [] = []
series_ids (r ∷ rows) = r.series_id ∷ series_ids rows

confused_results : series_ids confused.tables.results ≡ 1 ∷ 1 ∷ []
unfolding program
confused_results = refl

accepts : validate_report_result codecs (result (codes "a") 0) ≡ none
unfolding program
accepts = refl

validate_report_result_lem_example :
    HasTexts (result (codes "a") 0) × HasRanges (result (codes "a") 0)
validate_report_result_lem_example =
    validate_report_result_lem codecs (result (codes "a") 0) accepts

abbrev server : ReportState ℕ
server = record {
  store = empty;
  cache = new_results_cache 10 10;
  connectivity = [];
  broadcasts = [];
}

reply :
    (handle_report codecs no_faults default_config
      (100 * day)
      true
      (some (codes "{}"))
      (codes "10.0.0.1")
      server).1
    ≡ saved 1
unfolding program
reply = refl

handle_report-cases_example :
    ((is_refusal
          (handle_report codecs no_faults default_config
            (100 * day)
            true
            (some (codes "{}"))
            (codes "10.0.0.1")
            server).1
        ≡ true)
      × Unchanged codecs server
          (handle_report codecs no_faults default_config
            (100 * day)
            true
            (some (codes "{}"))
            (codes "10.0.0.1")
            server).0)
    ⊎ ((n : ℕ) × (raw : Text) × (true ≡ true)
        × (some (codes "{}") ≡ some raw)
        × ((handle_report codecs no_faults default_config
              (100 * day)
              true
              (some (codes "{}"))
              (codes "10.0.0.1")
              server).1
            ≡ saved n)
        × Taken codecs default_config
            (100 * day)
            raw
            (codes "10.0.0.1")
            n
            (codes "a")
            (codes "key")
            1
            server
            (handle_report codecs no_faults default_config
              (100 * day)
              true
              (some (codes "{}"))
              (codes "10.0.0.1")
              server).0)
handle_report-cases_example =
    handle_report-cases codecs no_faults default_config (100 * day) true (some (codes "{}"))
      (codes "10.0.0.1") (codes "a") (codes "key") 1 server
