-- ===== src/Exchange.antt =====
-- cmd/agent/main.go with cmd/supervisor/main.go: an agent that fetches its tasks from a supervisor.
-- net/url, encoding/json, net.SplitHostPort and the network are parameters; the request is for
-- /api/tasks, which the supervisor's mux gives to `requireAgentAuth(handleTasks)`.
pub mod Tokens
pub mod Sending
pub mod Fetching
use pingmon.Prelude.{Bool, true, false, List, [], ◌∷◌, Option, none, some}
use pingmon.Prelude.Text.{Text, codes}
use pingmon.Model.{Time, Task, Result}
use pingmon.Config.Defs.{Config}
use pingmon.Storage.Store.{Store}
use pingmon.Supervisor.Tasks.{
  TasksRequest, TasksReply, unauthorized, not_get, heartbeat_failed, tasks_sent, serve_tasks,
}
use pingmon.Agent.Requests.{Request, Response, HttpClient}

-- What the network does with a request: it is lost, or its reply is, or neither.
pub data Fate : Type 0 where
  request_lost reply_lost answered : Fate

-- `with_query` sets values in the query of a URL, in turn, and `query_get` is the value of a key in it; `error_text` what a handler writes with an
-- error status.
pub record Wire (F : Type 0) : Type 0 where
  pub parse_url : Text → Option (Text × Text)
  pub with_query : Text → List (Text × Text) → Option Text
  pub query_get : Text → Text → Text
  pub new_request : Text → Bool
  pub fate : Request → Fate
  pub encode_tasks : List Task → Text
  pub decode_tasks : Text → Option (List Task)
  pub marshal_results : List (Result F) → Option Text
  pub error_text : Text
  pub remote_addr : Text
  pub split_host_port : Text → Option Text

module _ {F : Type 0} (wire : Wire F) where
  -- The agent sets no header but the token, and a GET has no body.
  unfoldable pub read_request : Request → TasksRequest
  read_request request = record {
    is_get = request.is_get;
    authorization = request.authorization;
    query_agent = wire.query_get request.url (codes "agent");
    query_agent_ip = wire.query_get request.url (codes "agent_ip");
    header_agent = [];
    header_agent_ip = [];
    payload = none;
    remote_addr = wire.remote_addr;
  }

  unfoldable pub write_reply : TasksReply → Response
  write_reply unauthorized = record { status = 401; body = wire.error_text }
  write_reply not_get = record { status = 405; body = wire.error_text }
  write_reply heartbeat_failed = record { status = 500; body = wire.error_text }
  write_reply (tasks_sent tasks) = record { status = 200; body = wire.encode_tasks tasks }

  abbrev pub arrived : Fate → Option Response × Store F → Store F → Option Response × Store F
  arrived request_lost reply s = (none, s)
  arrived reply_lost reply s = (none, reply.1)
  arrived answered reply s = reply

  -- A request that the supervisor answers: `fails` is whether its database does, `now` its clock.
  unfoldable pub send_to_supervisor :
      Bool → Config → Time → Request → Store F → Option Response × Store F
  unfolding read_request write_reply serve_tasks
  send_to_supervisor fails cfg now request s =
      let (s', reply) = serve_tasks wire.split_host_port fails cfg now (read_request request) s in
      arrived (wire.fate request) (some (write_reply reply), s') s

  -- The client of an agent whose supervisor this is.
  abbrev pub supervisor_client : Bool → Config → Time → HttpClient F (Store F)
  supervisor_client fails cfg now = record {
    parse_url = wire.parse_url;
    with_query = wire.with_query;
    new_request = wire.new_request;
    send = send_to_supervisor fails cfg now;
    decode_tasks = wire.decode_tasks;
    marshal_results = wire.marshal_results;
  }
