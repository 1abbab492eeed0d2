-- ===== src/Supervisor/Tasks.antt =====
-- cmd/supervisor/main.go: `agentIdentityFromRequest`, `remoteIP` and `handleTasks`, and `handleReady`.
-- net.SplitHostPort, and what encoding/json finds in a body, are arguments; the heartbeat that a request
-- saves and the configuration that it reads are the server's.
pub mod Heartbeats
use pingmon.Prelude.{
  Bool, true, false, not, ◌&&◌, ◌||◌, List, [], ◌∷◌, Option, none, some, if◌then◌else◌, map,
}
use pingmon.Prelude.Text.{Text, is_empty, trim_space}
use pingmon.Model.{Time, PingTarget, Task}
use pingmon.Config.Defs.{Config}
use pingmon.Storage.Store.{Store}
use pingmon.Storage.Store.Operations.{save_agent_heartbeat}
use pingmon.Supervisor.Session.{require_agent_auth}

-- The parts of a request that are read; a value that is not set is empty. `payload` is what the body
-- holds, if it can be decoded: the agent and its address.
pub record TasksRequest : Type 0 where
  pub is_get : Bool
  pub authorization : Text
  pub query_agent : Text
  pub query_agent_ip : Text
  pub header_agent : Text
  pub header_agent_ip : Text
  pub payload : Option (Text × Text)
  pub remote_addr : Text

pub data TasksReply : Type 0 where
  unauthorized not_get heartbeat_failed : TasksReply
  tasks_sent : List Task → TasksReply

-- `if x == "" { x = strings.TrimSpace(y) }`.
abbrev pub unless_set : Text → Text → Text
unless_set x y = if is_empty x then trim_space y else x

-- The agent and its address, with those of a payload for the ones that are not set.
abbrev pub unless_set_either : Text → Text → Option (Text × Text) → Text × Text
unless_set_either agent agent_ip none = (agent, agent_ip)
unless_set_either agent agent_ip (some payload) =
    (unless_set agent payload.0, unless_set agent_ip payload.1)

unfoldable pub agent_identity_from_request : TasksRequest → Text × Text
agent_identity_from_request r =
    let agent = unless_set (trim_space r.query_agent) r.header_agent in
    let agent_ip = unless_set (trim_space r.query_agent_ip) r.header_agent_ip in
    if is_empty agent || is_empty agent_ip
    then unless_set_either agent agent_ip r.payload
    else (agent, agent_ip)

unfoldable pub remote_ip : (Text → Option Text) → Text → Text
remote_ip split_host_port remote_addr = elim (split_host_port remote_addr) [
  | none ↦ remote_addr
  | some host ↦ host
]

-- The loop over the targets.
unfoldable pub all_tasks : Config → List Task
all_tasks cfg = map (λ target. record { target = target; params = cfg.params }) cfg.targets

-- `PingContext` of the store fails or not; `none` is a store that has none.
pub data ReadyReply : Type 0 where
  ready ready_not_get storage_unavailable : ReadyReply

unfoldable pub handle_ready : Bool → Option Bool → ReadyReply
handle_ready false pings = ready_not_get
handle_ready true none = ready
handle_ready true (some answers) = if answers then ready else storage_unavailable

module _ (split_host_port : Text → Option Text) where
  -- The address that is saved with an agent.
  unfoldable pub seen_ip : TasksRequest → Text
  unfolding agent_identity_from_request remote_ip
  seen_ip r =
      let agent_ip = (agent_identity_from_request r).1 in
      if is_empty agent_ip then remote_ip split_host_port r.remote_addr else agent_ip

module _ {F : Type 0} (split_host_port : Text → Option Text) where
  -- `fails` is whether the database does.
  unfoldable pub handle_tasks : Bool → Config → Time → TasksRequest → Store F → Store F × TasksReply
  unfolding agent_identity_from_request seen_ip all_tasks
  handle_tasks fails cfg now r s =
      let agent = (agent_identity_from_request r).0 in
      let (beat, ok) = save_agent_heartbeat fails agent (seen_ip split_host_port r) now s in
      if not r.is_get
      then (s, not_get)
      else if is_empty agent
      then (s, tasks_sent (all_tasks cfg))
      else if ok
      then (beat, tasks_sent (all_tasks cfg))
      else (beat, heartbeat_failed)

  -- `requireAgentAuth(handleTasks)`.
  unfoldable pub serve_tasks : Bool → Config → Time → TasksRequest → Store F → Store F × TasksReply
  unfolding handle_tasks require_agent_auth
  serve_tasks fails cfg now r s =
      if require_agent_auth cfg r.authorization
      then handle_tasks fails cfg now r s
      else (s, unauthorized)
