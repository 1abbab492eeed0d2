-- ===== src/Agent/Requests.antt =====
-- cmd/agent/main.go: `setBearerToken`, `normalizeBaseURL`, `fetchTasks`, `uploadResults` and
-- `collectCycle`. net/url, encoding/json and the HTTP client are parameters; the client acts on a state
-- `S`, which is whatever answers the requests.
use pingmon.Prelude.{
  ℕ, Bool, true, false, not, ◌&&◌, List, [], ◌∷◌, ◌++◌, Option, none, some, ltb, leb, ◌==◌,
  if◌then◌else◌,
}
use pingmon.Prelude.Int.{ℤ}
use pingmon.Prelude.Text.{Text, codes, is_empty, has_prefix, trim_space, trim_right}
use pingmon.Model.{Time, Task, Result}
use pingmon.Config.Defs.{AgentConfig}
use pingmon.Agent.Queue.{next_poll_interval}
use pingmon.Agent.Address.{Answer, AgentIpCache, fetch_agent_ip}

-- `authorization` is empty where the header is not set.
pub record Request : Type 0 where
  pub is_get : Bool
  pub url : Text
  pub authorization : Text
  pub body : Text

pub record Response : Type 0 where
  pub status : ℕ
  pub body : Text

-- What the functions use of other packages. `with_query` parses a URL and adds the values to its query,
-- and `new_request` is whether a request can be made for a URL; `parse_url` gives the host and the text
-- of a URL. `send` gives the response unless there is an error; its body is what can be read of it.
pub record HttpClient (F S : Type 0) : Type 0 where
  pub parse_url : Text → Option (Text × Text)
  pub with_query : Text → List (Text × Text) → Option Text
  pub new_request : Text → Bool
  pub send : Request → S → Option Response × S
  pub decode_tasks : Text → Option (List Task)
  pub marshal_results : List (Result F) → Option Text

-- The header that is set; none with a blank token.
unfoldable pub set_bearer_token : Text → Text
set_bearer_token raw =
    let token = trim_space raw in if is_empty token then [] else codes "Bearer " ++ token

-- `query.Set(key, value)` if the value is set.
abbrev pub set_if_given : Text → Text → List (Text × Text)
set_if_given key value = if is_empty value then [] else (key, value) ∷ []

abbrev pub query_values : Text → Text → List (Text × Text)
query_values agent agent_ip =
    set_if_given (codes "agent") agent ++ set_if_given (codes "agent_ip") agent_ip

module _ {F S : Type 0} (http : HttpClient F S) where
  -- `none` is an error.
  unfoldable pub normalize_base_url : Text → Option Text
  normalize_base_url given =
      let raw =
        if not (has_prefix given (codes "http://")) && not (has_prefix given (codes "https://"))
        then codes "http://" ++ given
        else given in
      elim (http.parse_url raw) [
        | none ↦ none
        | some (host, text) ↦
            if is_empty host then none else some (trim_right (λ c. c == b'/') text)
      ]

  abbrev pub decode_response : Option Response → Option (List Task)
  decode_response none = none
  decode_response (some response) =
      let tasks = http.decode_tasks response.body in if response.status == 200 then tasks else none

  unfoldable pub fetch_tasks : Text → Text → Text → Text → S → Option (List Task) × S
  unfolding set_bearer_token
  fetch_tasks supervisor agent agent_ip token s =
      elim (http.with_query (supervisor ++ codes "/api/tasks") (query_values agent agent_ip)) [
        | none ↦ (none, s)
        | some url ↦
            let (response, s') =
              http.send
                (record {
                  is_get = true;
                  url = url;
                  authorization = set_bearer_token token;
                  body = [];
                })
                s in
            if http.new_request url then (decode_response response, s') else (none, s)
      ]

  abbrev pub is_accepted_response : Option Response → Bool
  is_accepted_response none = false
  is_accepted_response (some response) = leb 200 response.status && ltb response.status 300

  -- Whether it returns nil.
  unfoldable pub upload_results : Text → List (Result F) → Text → S → Bool × S
  unfolding set_bearer_token
  upload_results supervisor results token s = elim (http.marshal_results results) [
    | none ↦ (false, s)
    | some body ↦
        let url = supervisor ++ codes "/api/report" in
        let (response, s') =
          http.send
            (record {
              is_get = false;
              url = url;
              authorization = set_bearer_token token;
              body = body;
            })
            s in
        if http.new_request url then (is_accepted_response response, s') else (false, s)
  ]

  -- `probe_tasks` is what `probeTasks` returns for the tasks and the address of the agent.
  unfoldable pub collect_cycle :
      (Text → Option Answer)
      → (Text → Bool)
      → (List Task → Text → List (Result F))
      → Text
      → AgentConfig
      → Time
      → AgentIpCache
      → S
      → Option (ℤ × List (Result F)) × AgentIpCache × S
  unfolding fetch_agent_ip fetch_tasks next_poll_interval
  collect_cycle get parse_ip probe_tasks supervisor cfg now c s =
      let (agent_ip, c') = fetch_agent_ip get parse_ip cfg now c in
      let (fetched, s') = fetch_tasks supervisor cfg.agent_name agent_ip cfg.agent_token s in
      elim fetched [
        | none ↦ (none, c', s')
        | some tasks ↦ (
          some (next_poll_interval tasks cfg.poll_interval_seconds, probe_tasks tasks agent_ip),
          c',
          s',
        )
      ]
