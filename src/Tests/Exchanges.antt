-- ===== src/Tests/Exchanges.antt =====
-- Tests of cmd/agent/main.go and cmd/supervisor/main.go, where an agent asks for its tasks.
use mathlib.Core.List.{append-nil, append_assoc}
use mathlib.Core.Option.{some-injective}
use pingmon.Prelude.{
  Bool, ℕ, ◌+◌, ◌-◌, ◌*◌, ◌==◌, true, false, not, ◌||◌, List, [], ◌∷◌, ◌++◌, Option, none, some,
  if◌then◌else◌, All, ◌≡◌, ◌⊎◌, refl, sym, ap, ◌∙◌, arith,
}
use pingmon.Prelude.Int.{pos, ◌-ℤ◌, ◌*ℤ◌, ◌≤ℤ◌, wrap64}
use pingmon.Prelude.Text.{
  Text, codes, text_eq, is_empty, is_space, trim_left, trim_right, trim, trim_space, has_prefix,
  strip, trim_prefix,
}
use pingmon.Prelude.Eq.{lookup, insert, text_is_eq}
use pingmon.Model.{AgentStatus, second, PingTarget, Task}
use pingmon.Config.Defs.{Config, AgentConfig, default_config, default_agent_config}
use pingmon.Storage.Store.{Store}
use pingmon.Storage.Store.Operations.{upsert_status, save_agent_heartbeat}
use pingmon.Supervisor.Session.{require_agent_auth}
use pingmon.Supervisor.Ranges.{agent_offline_after_seconds}
use pingmon.Supervisor.Cache.{new_results_cache}
use pingmon.Supervisor.Report.{ReportState}
use pingmon.Supervisor.Agents.{AgentStatusView, agents_get, agents_listed, handle_agents}
use pingmon.Supervisor.Agents.Views.{IsUp}
use pingmon.Prelude.{Any}
use pingmon.Supervisor.Agents.Listing.{serve_tasks-handle_agents}
use pingmon.Supervisor.Tasks.{
  TasksRequest, unauthorized, not_get, heartbeat_failed, tasks_sent, agent_identity_from_request,
  remote_ip, all_tasks, seen_ip, handle_tasks, serve_tasks,
}
use pingmon.Supervisor.Tasks.Heartbeats.{Beats, serve_tasks-cases}
use pingmon.Agent.Address.{Answer, joined, fetch_public_ip, refresh_agent_ip, fetch_agent_ip}
use pingmon.Agent.Address.Lookups.{IsAddress}
use pingmon.Agent.Address.Known.{Calls, run_fetches, FindsNone, IsKnown, run_fetches-IsKnown}
use pingmon.Agent.Requests.{set_bearer_token, fetch_tasks}
use pingmon.Exchange.{
  answered, Wire, read_request, write_reply, send_to_supervisor, supervisor_client,
}
use pingmon.Exchange.Tokens.{require_agent_auth-set_bearer_token}
use pingmon.Exchange.Sending.{value_after}
use pingmon.Exchange.Fetching.{FailsWith, Succeeds, fetch_tasks-cases}

-- Unfolds what the tests run through.
program : Unit {0}
unfolding text_eq is_space trim_left trim_right trim trim_space has_prefix strip trim_prefix lookup
    insert upsert_status save_agent_heartbeat require_agent_auth agent_identity_from_request
    remote_ip all_tasks seen_ip handle_tasks serve_tasks joined fetch_public_ip refresh_agent_ip
    fetch_agent_ip run_fetches set_bearer_token fetch_tasks read_request write_reply
    send_to_supervisor default_config default_agent_config
program = tt

abbrev host_of : Text → Option Text
host_of text = if is_empty text then none else some (codes "192.0.2.1")

abbrev target_named : Text → PingTarget
target_named name = record {
  name = name;
  address = codes "example.org";
  port = pos 443;
  labels = [];
}

abbrev supervisor_config : Config
supervisor_config = record default_config {
  agent_token = codes " secret";
  targets = target_named (codes "web") ∷ [];
}

abbrev empty_store : Store ℕ
empty_store = record {
  tables = record { series = []; results = []; rollups = []; statuses = [] };
  series_cache = [];
}

abbrev named_request : TasksRequest
named_request = record {
  is_get = true;
  authorization = codes "Bearer secret";
  query_agent = codes " a ";
  query_agent_ip = [];
  header_agent = [];
  header_agent_ip = [];
  payload = some (codes "b", codes "203.0.113.9 ");
  remote_addr = codes "192.0.2.1:4711";
}

-- The name is that of the query, the address that of the body.
identity : agent_identity_from_request named_request ≡ (codes "a", codes "203.0.113.9")
unfolding program
identity = refl

refused :
    serve_tasks host_of false supervisor_config 5
      (record named_request { authorization = codes "Bearer secre" })
      empty_store
    ≡ (empty_store, unauthorized)
unfolding program
refused = refl

serve_tasks-cases_example :
    let served = serve_tasks host_of false supervisor_config 5 named_request empty_store in
    let agent = (agent_identity_from_request named_request).0 in
    (((served ≡ (empty_store, unauthorized))
        × (require_agent_auth supervisor_config named_request.authorization ≡ false))
      ⊎ (((served ≡ (empty_store, not_get)) × (named_request.is_get ≡ false))
          ⊎ ((served ≡ (empty_store, heartbeat_failed)) × (false ≡ true))))
    ⊎ ((served.1 ≡ tasks_sent (all_tasks supervisor_config))
        × (require_agent_auth supervisor_config named_request.authorization ≡ true)
        × (((is_empty agent ≡ true) × (served.0 ≡ empty_store))
            ⊎ ((is_empty agent ≡ false)
                × Beats agent (seen_ip host_of named_request) 5 (codes "a") empty_store served.0)))
serve_tasks-cases_example =
    serve_tasks-cases host_of false supervisor_config 5 named_request (codes "a") empty_store

token_is_read : require_agent_auth supervisor_config (set_bearer_token (codes "secret\n")) ≡ (
    is_empty (trim_space (codes " secret"))
    || text_eq (trim_space (codes "secret\n")) (trim_space (codes " secret")))
unfolding default_config
token_is_read = require_agent_auth-set_bearer_token supervisor_config (codes "secret\n")

abbrev is_digits : Text → Bool
is_digits text = not (is_empty text)

abbrev agent_config : AgentConfig
agent_config = record (default_agent_config (codes "a")) {
  public_ipv4_url = codes "http://four";
  public_ipv6_url = codes "http://six";
}

abbrev answers : Text → Option Answer
answers url =
    if text_eq url (codes "http://four")
    then some (record { status = 200; body = some (codes "203.0.113.9\n") })
    else none

abbrev nothing_answers : Text → Option Answer
nothing_answers url = none

-- Found at once, from the cache, and kept when the endpoints fail.
abbrev three_calls : Calls
three_calls = (2000 * second, nothing_answers) ∷ (7 * second, answers) ∷ (0, answers) ∷ []

address_stays : (run_fetches is_digits agent_config three_calls).0 ≡ codes "203.0.113.9"
unfolding program
address_stays = refl

run_fetches-IsKnown_example :
    let value = (run_fetches is_digits agent_config three_calls).0 in
    ((value ≡ []) × All (FindsNone is_digits agent_config) three_calls)
    ⊎ ((is_empty value ≡ false)
        × IsAddress is_digits agent_config value
        × IsKnown is_digits agent_config value three_calls)
run_fetches-IsKnown_example = run_fetches-IsKnown is_digits agent_config three_calls

-- A URL has its query in front: for each value the name, a 1, the value, a 2, with every code point
-- of the two raised by 3.
abbrev raised : Text → Text → Text
raised [] rest = rest
raised (c ∷ text) rest = (c + 3) ∷ raised text rest

abbrev simple_query : Text → List (Text × Text) → Option Text
simple_query base [] = some base
simple_query base ((name, value) ∷ values) =
    simple_query (raised name (1 ∷ raised value (2 ∷ base))) values

-- Reads the name of a value, and with a name its value; the texts read so far are `acc`.
scan : Text → Option Text → Text → Text → Text
scan key name acc [] = []
scan key none acc (c ∷ url) =
    let value = scan key (some acc) [] url in
    let rest = scan key none (acc ++ (c - 3) ∷ []) url in if c == 1 then value else rest
scan key (some name) acc (c ∷ url) =
    let next = scan key none [] url in
    let rest = scan key (some name) (acc ++ (c - 3) ∷ []) url in
    if c == 2 then (if text_eq name key then acc else next) else rest

abbrev simple_get : Text → Text → Text
simple_get url key = scan key none [] url

scan-raised :
    (key : Text) (name : Option Text) (acc text rest : Text)
    → scan key name acc (raised text rest) ≡ scan key name (acc ++ text) rest
unfolding scan
scan-raised key name acc [] rest = ap (λ read. scan key name read rest) (sym (append-nil acc))
scan-raised key none acc (c ∷ text) rest =
    let same : c + 3 - 3 ≡ c = omega arith in
    let other : ((c + 3) == 1) ≡ false = ground arith in
    rw (other, same)
      (scan-raised key none (acc ++ c ∷ []) text rest
        ∙ ap (λ read. scan key none read rest) (append_assoc acc (c ∷ []) text))
scan-raised key (some name) acc (c ∷ text) rest =
    let same : c + 3 - 3 ≡ c = omega arith in
    let other : ((c + 3) == 2) ≡ false = ground arith in
    rw (other, same)
      (scan-raised key (some name) (acc ++ c ∷ []) text rest
        ∙ ap (λ read. scan key (some name) read rest) (append_assoc acc (c ∷ []) text))

scan-pair :
    (key name value base : Text)
    → simple_get (raised name (1 ∷ raised value (2 ∷ base))) key
      ≡ (if text_eq name key then value else simple_get base key)
scan-pair key name value base =
    scan-raised key none [] name (1 ∷ raised value (2 ∷ base))
    ∙ unfold scan in scan-raised key (some name) [] value (2 ∷ base)

simple_get-simple_query :
    (base url key : Text) (values : List (Text × Text))
    → simple_query base values ≡ some url
    → simple_get url key ≡ value_after (simple_get base key) key values
simple_get-simple_query base url key [] e =
    ap (λ text. simple_get text key) (sym (some-injective base url e))
simple_get-simple_query base url key ((name, value) ∷ values) e =
    simple_get-simple_query (raised name (1 ∷ raised value (2 ∷ base))) url key values e
    ∙ ap (λ old. value_after old key values) (scan-pair key name value base)

no_query : (key : Text) → simple_get (codes "http://host/api/tasks") key ≡ []
unfolding scan
no_query key = refl

abbrev first_name : List Task → Text
first_name [] = []
first_name (task ∷ tasks) = task.target.name

abbrev wire : Wire ℕ
wire = record {
  parse_url = λ raw. some (raw, raw);
  with_query = simple_query;
  query_get = simple_get;
  new_request = λ url. not (is_empty url);
  fate = λ request. answered;
  encode_tasks = first_name;
  decode_tasks =
      λ text. some (record { target = target_named text; params = supervisor_config.params } ∷ []);
  marshal_results = λ results. none;
  error_text = codes "error";
  remote_addr = codes "192.0.2.1:4711";
  split_host_port = host_of;
}

abbrev fetched : Option (List Task) × Store ℕ
fetched =
    fetch_tasks (supervisor_client wire false supervisor_config 5) (codes "http://host")
      (codes "a ") (codes "::1") (codes "secret") empty_store

fetches : fetched.0 ≡ some (all_tasks supervisor_config)
unfolding program scan
fetches = refl

decodes :
    wire.decode_tasks (wire.encode_tasks (all_tasks supervisor_config))
    ≡ some (all_tasks supervisor_config)
unfolding all_tasks default_config
decodes = refl

fetch_tasks-cases_example :
    ((fetched.0 ≡ none)
      × FailsWith wire false supervisor_config
          (codes "http://host/api/tasks")
          (codes "a ")
          (codes "::1")
          (codes "secret"))
    ⊎ Succeeds wire false supervisor_config 5
        (codes "a ")
        (codes "::1")
        (codes "secret")
        (codes "a")
        empty_store
        fetched
fetch_tasks-cases_example =
    fetch_tasks-cases wire false supervisor_config 5 (codes "http://host") (codes "a ")
      (codes "::1") (codes "secret") (codes "a") empty_store simple_get-simple_query no_query
      decodes

abbrev server : ReportState ℕ
server = record {
  store = empty_store;
  cache = new_results_cache 10 10;
  connectivity = [];
  broadcasts = [];
}

abbrev server_after : ReportState ℕ
server_after = record server {
  store = (serve_tasks host_of false supervisor_config 5 named_request empty_store).0;
}

-- A minute later, where an agent is offline after 90 seconds.
in_time :
    (pos (60 * second) -ℤ pos 5)
    ≤ℤ wrap64 (agent_offline_after_seconds supervisor_config *ℤ pos second)
unfolding agent_offline_after_seconds wrap64 ◌-ℤ◌ ◌*ℤ◌ default_config
in_time = omega arith

first_heard :
    (status : AgentStatus)
    → lookup (agent_identity_from_request named_request).0 empty_store.tables.statuses ≡ some status
    → status.agent ≡ (agent_identity_from_request named_request).0
unfolding lookup
first_heard status e = absurd (ground arith)

was_sent :
    (serve_tasks host_of false supervisor_config 5 named_request empty_store).1
    ≡ tasks_sent (all_tasks supervisor_config)
unfolding program
was_sent = refl

has_name : is_empty (agent_identity_from_request named_request).0 ≡ false
unfolding program
has_name = refl

serve_tasks-handle_agents_example :
    (views : List AgentStatusView) × (handle_agents agents_get false supervisor_config
        (60 * second)
        []
        server_after
      ≡ (server_after, agents_listed views))
    × Any
        (λ view.
          (view.status.agent ≡ (agent_identity_from_request named_request).0)
          × (view.status.agent_ip ≡ seen_ip host_of named_request)
          × (view.status.last_seen_at ≡ 5)
          × IsUp view.state)
        views
serve_tasks-handle_agents_example =
    serve_tasks-handle_agents host_of false supervisor_config supervisor_config 5 (60 * second)
      named_request [] (all_tasks supervisor_config) server was_sent has_name first_heard in_time
