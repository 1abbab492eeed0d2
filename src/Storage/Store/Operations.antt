-- ===== src/Storage/Store/Operations.antt =====
-- internal/storage/storage.go: `SaveResults`, `SaveAgentHeartbeat` and `DeleteAgent`. A transaction that
-- does not commit leaves the tables as they were, but not `seriesCache`. Go ranges over `heartbeats` in
-- any order, which is the order of first mention here.
use pingmon.Prelude.{
  ℕ, Bool, true, false, not, ◌&&◌, ◌||◌, List, [], ◌∷◌, Option, none, some, ◌==◌, if◌then◌else◌,
}
use pingmon.Prelude.Text.{Text, text_eq, is_empty, trim_space}
use pingmon.Prelude.Eq.{text_is_eq, lookup, insert, remove}
use pingmon.Prelude.Sorting.{sort}
use pingmon.Model.{Time, Result, AgentStatus}
use pingmon.Storage.Stamps.{stamp_lt}
use pingmon.Storage.Rows.{ResultRow, RollupRow}
use pingmon.Storage.Store.{SeriesTable, Statuses, Store, SaveFaults, save_each}

unfoldable pub heartbeats : {F : Type 0} → List (Text × Text) → List (Result F) → List (Text × Text)
heartbeats m [] = m
heartbeats m (result ∷ results) = heartbeats (insert result.agent result.agent_ip m) results

-- `INSERT INTO agent_statuses .. ON CONFLICT(agent) DO UPDATE`.
unfoldable pub upsert_status : Text → Text → Time → Statuses → Statuses
upsert_status agent agent_ip seen statuses = elim (lookup agent statuses) [
  | none ↦
      insert agent
        (record { agent = agent; agent_ip = agent_ip; first_seen_at = seen; last_seen_at = seen })
        statuses
  | some status ↦ insert agent (record status { agent_ip = agent_ip; last_seen_at = seen }) statuses
]

-- The second loop of `SaveResults`, up to the first failure.
unfoldable pub save_statuses : SaveFaults → Time → List (Text × Text) → Statuses → Statuses × Bool
save_statuses faults seen [] statuses = (statuses, true)
save_statuses faults seen ((name, agent_ip) ∷ beats) statuses =
    let agent = trim_space name in
    let skipped = save_statuses faults seen beats statuses in
    let rest = save_statuses faults seen beats (upsert_status agent agent_ip seen statuses) in
    if is_empty agent
    then skipped
    else if faults.status_fails agent
    then (statuses, false)
    else rest

abbrev pub all_statuses : Statuses → List AgentStatus
all_statuses [] = []
all_statuses ((agent, status) ∷ statuses) = status ∷ all_statuses statuses

-- `ORDER BY last_seen_at DESC`, by text.
abbrev pub is_seen_later : AgentStatus → AgentStatus → Bool
is_seen_later a b = stamp_lt b.last_seen_at a.last_seen_at

-- `none` is an error.
unfoldable pub list_agent_statuses : Bool → Statuses → Option (List AgentStatus)
list_agent_statuses fails statuses =
    if fails then none else some (sort is_seen_later (all_statuses statuses))

-- Whether the row is of a series of the agent.
unfoldable pub in_series : Text → SeriesTable → ℕ → Bool
in_series agent [] id = false
in_series agent ((k, j) ∷ rows) id = (j == id && text_eq k.agent agent) || in_series agent rows id

unfoldable pub delete_series : Text → SeriesTable → SeriesTable
delete_series agent [] = []
delete_series agent ((k, j) ∷ rows) =
    let rest = delete_series agent rows in if text_eq k.agent agent then rest else (k, j) ∷ rest

module _ {F : Type 0} where
  unfoldable pub delete_results : Text → SeriesTable → List (ResultRow F) → List (ResultRow F)
  delete_results agent series [] = []
  delete_results agent series (r ∷ rows) =
      let rest = delete_results agent series rows in
      if in_series agent series r.series_id then rest else r ∷ rest

  unfoldable pub delete_rollups : Text → SeriesTable → List (RollupRow F) → List (RollupRow F)
  delete_rollups agent series [] = []
  delete_rollups agent series (r ∷ rows) =
      let rest = delete_rollups agent series rows in
      if in_series agent series r.series_id then rest else r ∷ rest

  -- The store and the results that were saved, or `none` for an error.
  unfoldable pub save_results :
      (List Text → Text)
      → SaveFaults
      → List (Result F)
      → Time
      → Store F
      → Store F × Option (List (Result F))
  save_results marshal faults [] seen s = (s, some [])
  save_results marshal faults (result ∷ results) seen s =
      let all = result ∷ results in
      let (s', ok) = save_each marshal faults 0 all s in
      let (statuses, noted) = save_statuses faults seen (heartbeats [] all) s'.tables.statuses in
      if faults.begin_fails
      then (s, none)
      else if not ok || not noted || faults.commit_fails
      then (record s' { tables = s.tables }, none)
      else (record s' { tables = record s'.tables { statuses = statuses } }, some all)

  -- Whether it returns nil.
  unfoldable pub save_agent_heartbeat : Bool → Text → Text → Time → Store F → Store F × Bool
  save_agent_heartbeat fails name agent_ip seen s =
      let agent = trim_space name in
      if is_empty agent then (s, true) else if fails then (s, false) else (
        record s {
          tables = record s.tables {
            statuses = upsert_status agent agent_ip seen s.tables.statuses;
          };
        },
        true,
      )

  -- `fails` is whether any of the calls of the database does.
  unfoldable pub delete_agent : Bool → Text → Store F → Store F × Bool
  delete_agent fails name s =
      let agent = trim_space name in
      let t = s.tables in
      if is_empty agent then (s, true) else if fails then (s, false) else (
        record {
          tables = record {
            series = delete_series agent t.series;
            results = delete_results agent t.series t.results;
            rollups = delete_rollups agent t.series t.rollups;
            statuses = remove agent t.statuses;
          };
          series_cache = [];
        },
        true,
      )
