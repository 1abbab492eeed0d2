-- ===== src/Supervisor/Agents/Listing.antt =====
-- cmd/supervisor/main.go: an agent that asked for its tasks is listed by `handleAgents`.
use mathlib.Core.Path.{subst}
use pingmon.Prelude.{
  Bool, false, List, Option, some, if◌then◌else◌, ◌≡◌, inl, inr, refl, ap, ◌∙◌, sym, arith,
}
use pingmon.Prelude.Int.{pos, ◌-ℤ◌, ◌*ℤ◌, ◌≤ℤ◌, wrap64}
use pingmon.Prelude.Text.{Text, text_eq_iff, is_empty}
use pingmon.Prelude.Eq.{text_is_eq, lookup}
use pingmon.Prelude.Sorting.{sort}
use pingmon.Model.{Time, second, Task, AgentStatus}
use pingmon.Config.Defs.{Config}
use pingmon.Storage.Store.Operations.{all_statuses, is_seen_later, list_agent_statuses}
use pingmon.Supervisor.Ranges.{agent_offline_after_seconds}
use pingmon.Supervisor.Report.{ReportState}
use pingmon.Supervisor.Tasks.{
  TasksRequest, tasks_sent, agent_identity_from_request, seen_ip, serve_tasks,
}
use pingmon.Supervisor.Tasks.Heartbeats.{Beats, serve_tasks-cases}
use pingmon.Supervisor.Agents.{
  AgentStatusView, agent_view, agent_views, agents_get, agents_listed, handle_agents,
}
use pingmon.Supervisor.Agents.Views.{
  IsUp, agent_views-Any, all_statuses-lookup, sort-Any, view_is, first_name_of,
}
use pingmon.Prelude.{Any, Any-map}

module _ {F : Type 0} where
  handle_agents-lists :
      (cfg : Config) (now : Time) (name agent : Text) (status : AgentStatus) (s : ReportState F)
      → lookup agent s.store.tables.statuses ≡ some status
      → (pos now -ℤ pos status.last_seen_at)
        ≤ℤ wrap64 (agent_offline_after_seconds cfg *ℤ pos second)
      → (views : List AgentStatusView) × (handle_agents agents_get false cfg now name s
          ≡ (s, agents_listed views))
        × Any (λ view. (view.status ≡ status) × IsUp view.state) views
  unfolding handle_agents list_agent_statuses
  handle_agents-lists cfg now name agent status s kept recent =
      let statuses = sort is_seen_later (all_statuses s.store.tables.statuses) in
      let listed =
        sort-Any (λ listed. listed ≡ status) is_seen_later (all_statuses s.store.tables.statuses)
          (all_statuses-lookup agent status s.store.tables.statuses kept) in
      (
        agent_views cfg now s.connectivity statuses,
        refl,
        Any-map (λ view. view ≡ agent_view cfg now s.connectivity status)
            (λ view. (view.status ≡ status) × IsUp view.state)
            (λ view is. view_is cfg now s.connectivity status view recent is)
            (agent_views cfg now s.connectivity statuses)
            (agent_views-Any cfg now s.connectivity status statuses listed),
      )

  shown :
      (split_host_port : Text → Option Text) (fails : Bool) (cfg cfg' : Config) (now now' : Time)
      → (r : TasksRequest) (name : Text) (s : ReportState F)
      → let agent = (agent_identity_from_request r).0 in
        let s' = record s { store = (serve_tasks split_host_port fails cfg now r s.store).0 } in
        ((status : AgentStatus)
          → lookup agent s.store.tables.statuses ≡ some status
          → status.agent ≡ agent)
        → (pos now' -ℤ pos now) ≤ℤ wrap64 (agent_offline_after_seconds cfg' *ℤ pos second)
        → Beats agent (seen_ip split_host_port r) now agent s.store s'.store
        → (views : List AgentStatusView) × (handle_agents agents_get false cfg' now' name s'
            ≡ (s', agents_listed views))
          × Any
              (λ view.
                (view.status.agent ≡ agent)
                × (view.status.agent_ip ≡ seen_ip split_host_port r)
                × (view.status.last_seen_at ≡ now)
                × IsUp view.state)
              views
  shown split_host_port fails cfg cfg' now now' r name s keyed recent beats =
      let agent = (agent_identity_from_request r).0 in
      let s' = record s { store = (serve_tasks split_host_port fails cfg now r s.store).0 } in
      let (named, ip, last, _) = beats.seen in
      let kept : lookup agent s'.store.tables.statuses ≡ some beats.status =
        beats.status_is
        ∙ ap (λ b. if b then some beats.status else lookup agent s.store.tables.statuses)
            ((text_eq_iff agent agent).1 refl) in
      let (views, listed, some_is) = handle_agents-lists cfg' now' name agent beats.status s' kept (
        subst
          (λ seen.
            (pos now' -ℤ pos seen) ≤ℤ wrap64 (agent_offline_after_seconds cfg' *ℤ pos second))
          (sym last) recent) in
      (
        views,
        listed,
        Any-map (λ view. (view.status ≡ beats.status) × IsUp view.state)
            (λ view.
              (view.status.agent ≡ agent)
              × (view.status.agent_ip ≡ seen_ip split_host_port r)
              × (view.status.last_seen_at ≡ now)
              × IsUp view.state)
            (λ view is. (
              ap (λ status. status.agent) is.0
                  ∙ named
                  ∙ first_name_of agent (lookup agent s.store.tables.statuses) keyed,
              ap (λ status. status.agent_ip) is.0 ∙ ip,
              ap (λ status. status.last_seen_at) is.0 ∙ last,
              is.1,
            ))
            views some_is,
      )

  -- After an agent that gives its name was sent its tasks, a request for the list of agents, if the
  -- database does not fail, is answered by a list with that name, the address that was saved and the
  -- instant of its request, where the store keeps the status of each agent under its name. The agent is
  -- shown online or degraded, and not offline, until the seconds after which it counts as offline have
  -- passed.
  pub serve_tasks-handle_agents :
      (split_host_port : Text → Option Text) (fails : Bool) (cfg cfg' : Config) (now now' : Time)
      → (r : TasksRequest) (name : Text) (tasks : List Task) (s : ReportState F)
      → let agent = (agent_identity_from_request r).0 in
        let served = serve_tasks split_host_port fails cfg now r s.store in
        let s' = record s { store = served.0 } in
        served.1 ≡ tasks_sent tasks
        → is_empty agent ≡ false
        → ((status : AgentStatus)
            → lookup agent s.store.tables.statuses ≡ some status
            → status.agent ≡ agent)
        → (pos now' -ℤ pos now) ≤ℤ wrap64 (agent_offline_after_seconds cfg' *ℤ pos second)
        → (views : List AgentStatusView) × (handle_agents agents_get false cfg' now' name s'
            ≡ (s', agents_listed views))
          × Any
              (λ view.
                (view.status.agent ≡ agent)
                × (view.status.agent_ip ≡ seen_ip split_host_port r)
                × (view.status.last_seen_at ≡ now)
                × IsUp view.state)
              views
  serve_tasks-handle_agents split_host_port fails cfg cfg' now now' r name tasks s sent named keyed
        recent =
      let agent = (agent_identity_from_request r).0 in
      elim (serve_tasks-cases split_host_port fails cfg now r agent s.store) [
        | inl (inl (refused, _)) ↦ absurd (ground arith)
        | inl (inr (inl (refused, _))) ↦ absurd (ground arith)
        | inl (inr (inr (refused, _))) ↦ absurd (ground arith)
        | inr (_, _, inl (unnamed, _)) ↦ absurd (ground arith)
        | inr (_, _, inr (_, beats)) ↦
            shown split_host_port fails cfg cfg' now now' r name s keyed recent beats
      ]
