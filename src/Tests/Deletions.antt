-- ===== src/Tests/Deletions.antt =====
-- Tests of the handlers of cmd/supervisor for the agents.
use pingmon.Prelude.{ℕ, ◌*◌, false, [], ◌∷◌, ◌≡◌, ◌⊎◌, refl}
use pingmon.Prelude.Int.{pos, ◌-ℤ◌, ◌*ℤ◌, wrap64}
use pingmon.Prelude.Text.{Text, codes, text_eq, is_empty, trim_space}
use pingmon.Prelude.Eq.{text_is_eq, lookup, remove}
use pingmon.Model.{second, AgentStatus}
use pingmon.Config.Defs.{default_config}
use pingmon.Storage.Store.{Series, series_eq, series_is_eq}
use pingmon.Storage.Store.Operations.{delete_series, delete_results, delete_rollups, delete_agent}
use pingmon.Supervisor.Ranges.{agent_offline_after_seconds}
use pingmon.Supervisor.Cache.{new_results_cache}
use pingmon.Supervisor.Connectivity.{failing, AgentConnectivity, no_connectivity, connectivity_for}
use pingmon.Supervisor.Report.{ReportState}
use pingmon.Supervisor.Agents.{
  online, offline, degraded, is_offline, agent_view, agent_missing, delete_failed, deleted,
  handle_delete_agent, Forgets, handle_delete_agent-cases,
}

abbrev status : Text → AgentStatus
status agent = record {
  agent = agent;
  agent_ip = [];
  first_seen_at = 0;
  last_seen_at = 100 * second;
}

abbrev series : Text → Series
series agent = record {
  agent = agent;
  agent_ip = [];
  target_name = codes "web";
  address = codes "example.org";
  port = pos 443;
  labels = codes "[]";
}

abbrev failed : AgentConnectivity
failed = record no_connectivity { status = failing }

-- Reports under " a" have a series of that name and a status of the name "a".
abbrev server : ReportState ℕ
server = record {
  store = record {
    tables = record {
      series = (series (codes " a"), 1) ∷ (series (codes "a"), 2) ∷ [];
      results = [];
      rollups = [];
      statuses = (codes "a", status (codes "a")) ∷ [];
    };
    series_cache = [];
  };
  cache = new_results_cache 10 10;
  connectivity = (codes "a", failed) ∷ [];
  broadcasts = [];
}

-- Unfolds what the tests run through.
program : Unit {0}
unfolding text_eq trim_space lookup remove wrap64 ◌-ℤ◌ ◌*ℤ◌ series_eq delete_series delete_results
    delete_rollups delete_agent agent_offline_after_seconds connectivity_for is_offline agent_view
    handle_delete_agent default_config
program = tt

views :
    ((agent_view default_config (110 * second) [] (status (codes "a"))).state ≡ online)
    × ((agent_view default_config (110 * second) server.connectivity (status (codes "a"))).state
        ≡ degraded)
    × ((agent_view default_config (900 * second) server.connectivity (status (codes "a"))).state
        ≡ offline)
unfolding program
views = (refl, refl, refl)

deletes : (handle_delete_agent false (codes " a ") server).1 ≡ deleted (codes "a")
unfolding program
deletes = refl

-- The series of " a" cannot be deleted.
keeps :
    (handle_delete_agent false (codes " a") server).0.store.tables.series
    ≡ (series (codes " a"), 1) ∷ []
unfolding program
keeps = refl

handle_delete_agent-cases_example :
    (((handle_delete_agent false (codes " a") server).1 ≡ agent_missing)
      × ((handle_delete_agent false (codes " a") server).0 ≡ server))
    ⊎ (((handle_delete_agent false (codes " a") server).1 ≡ delete_failed)
        × ((handle_delete_agent false (codes " a") server).0 ≡ server))
    ⊎ (((handle_delete_agent false (codes " a") server).1 ≡ deleted (trim_space (codes " a")))
        × (is_empty (trim_space (codes " a")) ≡ false)
        × Forgets
            (trim_space (codes " a"))
            (codes "b")
            (series (codes " a"))
            server
            (handle_delete_agent false (codes " a") server).0)
handle_delete_agent-cases_example =
    handle_delete_agent-cases false (codes " a") (codes "b") (series (codes " a")) server
