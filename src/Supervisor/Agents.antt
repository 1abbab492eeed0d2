-- ===== src/Supervisor/Agents.antt =====
-- cmd/supervisor/main.go: `handleAgents` and `handleDeleteAgent`. The refresh message that a deletion
-- broadcasts goes with the reply `deleted`.
pub mod Views
pub mod Listing
use pingmon.Prelude.{
  Bool, false, List, [], ◌∷◌, Option, none, some, if◌then◌else◌, ◌≡◌, ◌⊎◌, inl, inr, refl, arith,
  Bool-cases,
}
use pingmon.Prelude.Int.{ℤ, pos, ◌-ℤ◌, ◌*ℤ◌, ltb_ℤ, wrap64}
use pingmon.Prelude.Trim.{trim_space-trim_space}
use pingmon.Prelude.Text.{Text, text_eq, is_empty, trim_space}
use pingmon.Prelude.Eq.{text_is_eq, lookup, remove, lookup-remove}
use pingmon.Model.{Time, second, AgentStatus}
use pingmon.Config.Defs.{Config}
use pingmon.Storage.Store.{Series, series_eq_iff, series_is_eq, SeriesTable}
use pingmon.Storage.Store.Operations.{list_agent_statuses, delete_series, delete_agent}
use pingmon.Supervisor.Ranges.{agent_offline_after_seconds}
use pingmon.Supervisor.Cache.{clear}
use pingmon.Supervisor.Connectivity.{
  unset, checking, healthy, failing, AgentConnectivity, no_connectivity, Connectivity,
  connectivity_for,
}
use pingmon.Supervisor.Report.{ReportState}

pub data AgentViewState : Type 0 where
  online offline degraded : AgentViewState

-- `connectivity` is `unset` where the source writes "unknown".
pub record AgentStatusView : Type 0 where
  pub status : AgentStatus
  pub offline_after_seconds : ℤ
  pub state : AgentViewState
  pub connectivity : AgentConnectivity

-- Whether `now.Sub(last)` is more than the seconds, as a duration.
unfoldable pub is_offline : Time → ℤ → Time → Bool
is_offline now after last = ltb_ℤ (wrap64 (after *ℤ pos second)) (pos now -ℤ pos last)

unfoldable pub agent_view : Config → Time → Connectivity → AgentStatus → AgentStatusView
agent_view cfg now connectivity status =
    let after = agent_offline_after_seconds cfg in
    let known = connectivity_for status.agent connectivity in
    record {
      status = status;
      offline_after_seconds = after;
      state = if is_offline now after status.last_seen_at then offline else elim known.status [
        | unset ↦ online
        | checking ↦ online
        | healthy ↦ online
        | failing ↦ degraded
      ];
      connectivity = known;
    }

-- `statuses` is what the store lists.
unfoldable pub agent_views : Config → Time → Connectivity → List AgentStatus → List AgentStatusView
agent_views cfg now connectivity [] = []
agent_views cfg now connectivity (status ∷ statuses) =
    agent_view cfg now connectivity status ∷ agent_views cfg now connectivity statuses

pub data DeleteReply : Type 0 where
  agent_missing delete_failed : DeleteReply
  deleted : Text → DeleteReply

module _ {F : Type 0} where
  -- `fails` is whether the store does.
  unfoldable pub handle_delete_agent : Bool → Text → ReportState F → ReportState F × DeleteReply
  handle_delete_agent fails name s =
      let agent = trim_space name in
      let (store, ok) = delete_agent fails agent s.store in
      if is_empty agent
      then (s, agent_missing)
      else if ok
      then (
        record s {
          store = store;
          cache = clear s.cache;
          connectivity = remove agent s.connectivity;
        },
        deleted agent,
      )
      else (record s { store = store }, delete_failed)

pub data AgentsMethod : Type 0 where
  agents_get agents_delete agents_other : AgentsMethod

pub data AgentsReply : Type 0 where
  agents_not_allowed agents_failed : AgentsReply
  agents_listed : List AgentStatusView → AgentsReply
  agents_deletion : DeleteReply → AgentsReply

-- The views of what the store lists.
abbrev pub reply_with : Config → Time → Connectivity → Option (List AgentStatus) → AgentsReply
reply_with cfg now connectivity none = agents_failed
reply_with cfg now connectivity (some statuses) =
    agents_listed (agent_views cfg now connectivity statuses)

module _ {F : Type 0} where
  -- `name` is the value of "agent" in the query.
  unfoldable pub handle_agents :
      AgentsMethod → Bool → Config → Time → Text → ReportState F → ReportState F × AgentsReply
  unfolding agent_views handle_delete_agent
  handle_agents agents_get fails cfg now name s =
      (s, reply_with cfg now s.connectivity (list_agent_statuses fails s.store.tables.statuses))
  handle_agents agents_delete fails cfg now name s =
      let (s', reply) = handle_delete_agent fails name s in (s', agents_deletion reply)
  handle_agents agents_other fails cfg now name s = (s, agents_not_allowed)

lookup-delete_series :
    (k : Series) (agent : Text) (table : SeriesTable)
    → lookup k (delete_series agent table)
      ≡ (if text_eq k.agent agent then none else lookup k table)
unfolding lookup delete_series
lookup-delete_series k agent [] = ground arith
lookup-delete_series k agent ((j, i) ∷ rows) =
    ground (arith, lookup-delete_series k agent rows, series_eq_iff j k)

module _ {F : Type 0} where
  -- What is left after an agent is deleted: no series and no status of it, no connectivity, and an
  -- empty cache; the series, the statuses and the connectivity of the others stay.
  pub record Forgets (agent : Text) (other : Text) (k : Series) (s s' : ReportState F)
      : Type 0 where
    pub series_is :
        lookup k s'.store.tables.series
        ≡ (if text_eq k.agent agent then none else lookup k s.store.tables.series)
    pub status_is :
        lookup other s'.store.tables.statuses
        ≡ (if text_eq agent other then none else lookup other s.store.tables.statuses)
    pub connectivity_is :
        connectivity_for other s'.connectivity
        ≡ (if text_eq agent other then no_connectivity else connectivity_for other s.connectivity)
    pub cache_is : s'.cache ≡ clear s.cache

  -- A request to delete an agent, whose name counts without the spaces around it, either is answered
  -- by an error and changes nothing, or by that name, which is not empty: then no series, no status and
  -- no connectivity of it is left, those of every other name are as before, and the cache is empty.
  pub handle_delete_agent-cases :
      (fails : Bool) (name other : Text) (k : Series) (s : ReportState F)
      → (((handle_delete_agent fails name s).1 ≡ agent_missing)
          × ((handle_delete_agent fails name s).0 ≡ s))
        ⊎ (((handle_delete_agent fails name s).1 ≡ delete_failed)
            × ((handle_delete_agent fails name s).0 ≡ s))
        ⊎ (((handle_delete_agent fails name s).1 ≡ deleted (trim_space name))
            × (is_empty (trim_space name) ≡ false)
            × Forgets (trim_space name) other k s (handle_delete_agent fails name s).0)
  unfolding handle_delete_agent delete_agent connectivity_for
  handle_delete_agent-cases fails name other k s =
      let agent = trim_space name in
      let once = trim_space-trim_space name in
      elim (Bool-cases (is_empty agent)) [
        | inl empty ↦ inl (ground arith, ground arith)
        | inr named ↦ elim (Bool-cases fails) [
          | inl failed ↦ inr (inl (ground arith, ground arith))
          | inr fine ↦
              rw (once, fine, named)
                (inr (
                  inr (
                    refl,
                    refl,
                    record {
                      series_is = lookup-delete_series k agent s.store.tables.series;
                      status_is = lookup-remove agent other s.store.tables.statuses;
                      connectivity_is = ground (arith, lookup-remove agent other s.connectivity);
                      cache_is = refl;
                    },
                  )))
        ]
      ]
