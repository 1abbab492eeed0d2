-- ===== src/Exchange/Sending.antt =====
-- cmd/agent/main.go with cmd/supervisor/main.go: the request for tasks of an agent as the supervisor
-- reads it, and what becomes of it.
use pingmon.Prelude.{
  Bool, true, false, ◌||◌, List, [], ◌∷◌, ◌++◌, none, some, if◌then◌else◌, ◌≡◌, ◌⊎◌, inl, inr, refl,
  ap, arith, Bool-cases,
}
use pingmon.Prelude.Text.{Text, codes, text_eq, is_empty, trim_left, trim_right, trim, trim_space}
use pingmon.Prelude.Eq.{text_is_eq}
use pingmon.Model.{Time}
use pingmon.Config.Defs.{Config}
use pingmon.Storage.Store.{Store}
use pingmon.Supervisor.Tasks.{
  unless_set, agent_identity_from_request, remote_ip, seen_ip, serve_tasks,
}
use pingmon.Agent.Requests.{Request, set_bearer_token, query_values, decode_response, fetch_tasks}
use pingmon.Exchange.{
  request_lost, reply_lost, answered, Wire, read_request, write_reply, send_to_supervisor,
  supervisor_client,
}

-- The value of a key that had the value `old`, after `Set` of each of the values in turn.
abbrev pub value_after : Text → Text → List (Text × Text) → Text
value_after old key [] = old
value_after old key ((name, value) ∷ values) =
    value_after (if text_eq name key then value else old) key values

pub value_after_agent :
    (agent agent_ip : Text) → value_after [] (codes "agent") (query_values agent agent_ip) ≡ agent
unfolding text_eq
value_after_agent [] [] = refl
value_after_agent [] (d ∷ agent_ip) = refl
value_after_agent (c ∷ agent) [] = refl
value_after_agent (c ∷ agent) (d ∷ agent_ip) = refl

pub value_after_agent_ip :
    (agent agent_ip : Text)
    → value_after [] (codes "agent_ip") (query_values agent agent_ip) ≡ agent_ip
unfolding text_eq
value_after_agent_ip [] [] = refl
value_after_agent_ip [] (d ∷ agent_ip) = refl
value_after_agent_ip (c ∷ agent) [] = refl
value_after_agent_ip (c ∷ agent) (d ∷ agent_ip) = refl

trim_space_nil : trim_space [] ≡ []
unfolding trim_space trim trim_left trim_right
trim_space_nil = refl

unless_set_nil : (x : Text) → unless_set x [] ≡ x
unless_set_nil [] = trim_space_nil
unless_set_nil (c ∷ x) = refl

-- The same token on both sides, or none on the supervisor's.
abbrev pub tokens_match : Config → Text → Bool
tokens_match cfg token =
    is_empty (trim_space cfg.agent_token) || text_eq (trim_space token) (trim_space cfg.agent_token)

module _ {F : Type 0} (wire : Wire F) where
  -- The address that the supervisor keeps: the agent's own, or that of the connection.
  abbrev pub kept_ip : Text → Text
  kept_ip agent_ip =
      if is_empty (trim_space agent_ip)
      then remote_ip wire.split_host_port wire.remote_addr
      else trim_space agent_ip

  abbrev pub tasks_request : Text → Text → Request
  tasks_request url token = record {
    is_get = true;
    url = url;
    authorization = set_bearer_token token;
    body = [];
  }

  pub identity_sent :
      (url agent agent_ip token : Text)
      → wire.query_get url (codes "agent") ≡ agent
      → wire.query_get url (codes "agent_ip") ≡ agent_ip
      → agent_identity_from_request (read_request wire (tasks_request url token))
        ≡ (trim_space agent, trim_space agent_ip)
  unfolding agent_identity_from_request read_request
  identity_sent url agent agent_ip token is_agent is_ip =
      rw (is_agent, is_ip, unless_set_nil (trim_space agent), unless_set_nil (trim_space agent_ip))
        (ground arith)

  pub seen_sent :
      (url agent agent_ip token : Text)
      → wire.query_get url (codes "agent") ≡ agent
      → wire.query_get url (codes "agent_ip") ≡ agent_ip
      → seen_ip wire.split_host_port (read_request wire (tasks_request url token))
        ≡ kept_ip agent_ip
  unfolding seen_ip read_request
  seen_sent url agent agent_ip token is_agent is_ip =
      ap
        (λ identity.
          if is_empty identity.1
          then remote_ip wire.split_host_port wire.remote_addr
          else identity.1)
        (identity_sent url agent agent_ip token is_agent is_ip)

  module _ (fails : Bool) (cfg : Config) (now : Time) where
    pub fetch_tasks_answered :
        (supervisor agent agent_ip token url : Text) (s : Store F)
        → wire.with_query (supervisor ++ codes "/api/tasks") (query_values agent agent_ip)
          ≡ some url
        → wire.new_request url ≡ true
        → wire.fate (tasks_request url token) ≡ answered
        → let served =
            serve_tasks wire.split_host_port fails cfg now
              (read_request wire (tasks_request url token))
              s in
          fetch_tasks (supervisor_client wire fails cfg now) supervisor agent agent_ip token s ≡ (
            decode_response
                (supervisor_client wire fails cfg now)
                (some (write_reply wire served.1)),
            served.0,
          )
    unfolding fetch_tasks send_to_supervisor
    fetch_tasks_answered supervisor agent agent_ip token url s is_url makes arrives =
        rw (fetch_tasks, is_url, makes, arrives) refl

    pub fetch_tasks_unmade :
        (supervisor agent agent_ip token : Text) (s : Store F)
        → wire.with_query (supervisor ++ codes "/api/tasks") (query_values agent agent_ip) ≡ none
        → (fetch_tasks (supervisor_client wire fails cfg now) supervisor agent agent_ip token s).0
          ≡ none
    unfolding fetch_tasks
    fetch_tasks_unmade supervisor agent agent_ip token s bad = rw (fetch_tasks, bad) refl

    pub fetch_tasks_refused :
        (supervisor agent agent_ip token url : Text) (s : Store F)
        → wire.with_query (supervisor ++ codes "/api/tasks") (query_values agent agent_ip)
          ≡ some url
        → wire.new_request url ≡ false
        → (fetch_tasks (supervisor_client wire fails cfg now) supervisor agent agent_ip token s).0
          ≡ none
    unfolding fetch_tasks
    fetch_tasks_refused supervisor agent agent_ip token url s is_url refused =
        rw (fetch_tasks, is_url, refused) refl

    pub fetch_tasks_lost :
        (supervisor agent agent_ip token url : Text) (s : Store F)
        → wire.with_query (supervisor ++ codes "/api/tasks") (query_values agent agent_ip)
          ≡ some url
        → (wire.fate (tasks_request url token) ≡ request_lost)
          ⊎ (wire.fate (tasks_request url token) ≡ reply_lost)
        → (fetch_tasks (supervisor_client wire fails cfg now) supervisor agent agent_ip token s).0
          ≡ none
    unfolding fetch_tasks send_to_supervisor
    fetch_tasks_lost supervisor agent agent_ip token url s is_url (inl lost) =
        elim (Bool-cases (wire.new_request url)) [
          | inl makes ↦ rw (fetch_tasks, is_url, makes, lost) refl
          | inr refused ↦ fetch_tasks_refused supervisor agent agent_ip token url s is_url refused
        ]
    fetch_tasks_lost supervisor agent agent_ip token url s is_url (inr lost) =
        elim (Bool-cases (wire.new_request url)) [
          | inl makes ↦ rw (fetch_tasks, is_url, makes, lost) refl
          | inr refused ↦ fetch_tasks_refused supervisor agent agent_ip token url s is_url refused
        ]
