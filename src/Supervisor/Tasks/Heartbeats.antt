-- ===== src/Supervisor/Tasks/Heartbeats.antt =====
-- cmd/supervisor/main.go: what a request for tasks is answered, and what it leaves in the store.
use pingmon.Prelude.{
  Bool, true, false, ◌||◌, Option, none, some, if◌then◌else◌, ◌≡◌, ◌⊎◌, inl, inr, refl, arith,
  Bool-cases,
}
use pingmon.Prelude.Text.{Text, text_eq, is_empty, trim_space}
use pingmon.Prelude.Eq.{text_is_eq, lookup}
use pingmon.Prelude.Trim.{trim_space-trim_space}
use pingmon.Model.{Time, AgentStatus}
use pingmon.Config.Defs.{Config}
use pingmon.Storage.Store.{Store}
use pingmon.Storage.Store.Operations.{save_agent_heartbeat}
use pingmon.Supervisor.Session.{require_agent_auth}
use pingmon.Supervisor.Tasks.{
  TasksRequest, unauthorized, not_get, heartbeat_failed, tasks_sent, unless_set, unless_set_either,
  agent_identity_from_request, all_tasks, seen_ip, handle_tasks, serve_tasks,
}
use pingmon.Storage.Store.Statuses.{IsSeen, upsert_status-cases}

unless_set-trimmed : (x y : Text) → trim_space x ≡ x → trim_space (unless_set x y) ≡ unless_set x y
unless_set-trimmed x y trimmed = elim (Bool-cases (is_empty x)) [
  | inl empty ↦ rw empty (trim_space-trim_space y)
  | inr given ↦ rw given trimmed
]

unless_set_either-trimmed :
    (agent agent_ip : Text) (payload : Option (Text × Text))
    → trim_space agent ≡ agent
    → trim_space (unless_set_either agent agent_ip payload).0
      ≡ (unless_set_either agent agent_ip payload).0
unless_set_either-trimmed agent agent_ip none trimmed = trimmed
unless_set_either-trimmed agent agent_ip (some payload) trimmed =
    unless_set-trimmed agent payload.0 trimmed

pub agent_identity_from_request-trimmed :
    (r : TasksRequest)
    → trim_space (agent_identity_from_request r).0 ≡ (agent_identity_from_request r).0
unfolding agent_identity_from_request
agent_identity_from_request-trimmed r =
    let agent = unless_set (trim_space r.query_agent) r.header_agent in
    let agent_ip = unless_set (trim_space r.query_agent_ip) r.header_agent_ip in
    let trimmed : trim_space agent ≡ agent =
      unless_set-trimmed (trim_space r.query_agent) r.header_agent
        (trim_space-trim_space r.query_agent) in
    elim (Bool-cases (is_empty agent || is_empty agent_ip)) [
      | inl missing ↦ rw missing (unless_set_either-trimmed agent agent_ip r.payload trimmed)
      | inr given ↦ rw given trimmed
    ]

module _ {F : Type 0} where
  -- What a heartbeat leaves of the store.
  pub record Beats (agent agent_ip : Text) (now : Time) (other : Text) (s s' : Store F)
      : Type 0 where
    pub status : AgentStatus
    pub seen : IsSeen agent agent_ip now (lookup agent s.tables.statuses) status
    pub status_is :
        lookup other s'.tables.statuses
        ≡ (if text_eq agent other then some status else lookup other s.tables.statuses)
    pub rest_is : s' ≡ record s { tables = record s.tables { statuses = s'.tables.statuses } }

  -- A request for tasks is answered by an error and changes nothing, where it has not the token, is no
  -- GET, or its heartbeat cannot be saved. Else it is answered by the tasks of the configuration; it
  -- changes nothing if it names no agent, and else only the status of that agent, which then has the
  -- address, is last seen now and is first seen when it was.
  pub serve_tasks-cases :
      (split_host_port : Text → Option Text) (fails : Bool) (cfg : Config) (now : Time)
      (r : TasksRequest)
      → (other : Text) (s : Store F)
      → let agent = (agent_identity_from_request r).0 in
        (((serve_tasks split_host_port fails cfg now r s ≡ (s, unauthorized))
            × (require_agent_auth cfg r.authorization ≡ false))
          ⊎ (((serve_tasks split_host_port fails cfg now r s ≡ (s, not_get)) × (r.is_get ≡ false))
              ⊎ ((serve_tasks split_host_port fails cfg now r s ≡ (s, heartbeat_failed))
                  × (fails ≡ true))))
        ⊎ (((serve_tasks split_host_port fails cfg now r s).1 ≡ tasks_sent (all_tasks cfg))
            × (require_agent_auth cfg r.authorization ≡ true)
            × (((is_empty agent ≡ true) × ((serve_tasks split_host_port fails cfg now r s).0 ≡ s))
                ⊎ ((is_empty agent ≡ false)
                    × Beats agent
                        (seen_ip split_host_port r)
                        now
                        other
                        s
                        (serve_tasks split_host_port fails cfg now r s).0)))
  unfolding serve_tasks handle_tasks save_agent_heartbeat
  serve_tasks-cases split_host_port fails cfg now r other s =
      let agent = (agent_identity_from_request r).0 in
      let trimmed = agent_identity_from_request-trimmed r in
      elim (Bool-cases (require_agent_auth cfg r.authorization)) [
        | inr refused ↦ inl (inl (ground arith, refused))
        | inl authorized ↦ elim (Bool-cases r.is_get) [
          | inr posted ↦ inl (inr (inl (ground arith, posted)))
          | inl asked ↦ elim (Bool-cases (is_empty agent)) [
            | inl unnamed ↦ inr (ground arith, authorized, inl (unnamed, ground arith))
            | inr named ↦ elim (Bool-cases fails) [
              | inl failed ↦ inl (inr (inr (ground arith, failed)))
              | inr fine ↦
                  let (status, seen, status_is) =
                    upsert_status-cases agent (seen_ip split_host_port r) other now
                      s.tables.statuses in
                  rw (authorized, asked, trimmed, named, fine)
                    (inr (
                      refl,
                      refl,
                      inr (
                        refl,
                        record {
                          status = status;
                          seen = seen;
                          status_is = status_is;
                          rest_is = refl;
                        },
                      ),
                    ))
            ]
          ]
        ]
      ]
