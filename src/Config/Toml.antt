-- ===== src/Config/Toml.antt =====
-- internal/config/config.go: `parseSupervisorTOML`, `parseAgentTOML` and the setters.
-- `currentTarget` points at the last element of `cfg.Targets`: it is an index here.
use pingmon.Prelude.{
  ℕ, suc, ◌||◌, List, [], ◌∷◌, ◌++◌, Option, none, some, ◌==◌, leb, if◌then◌else◌, length,
  get_elem?, set_elem,
}
use pingmon.Prelude.Int.{pos}
use pingmon.Prelude.Text.{Text, codes, is_empty, text_eq, byte_len, trim_space, has_prefix, cut}
use pingmon.Model.{PingTarget, PingParams}
use pingmon.Config.Defs.{Config, AgentConfig}
use pingmon.Config.Values.{
  Reason, invalid_toml, unknown_config_key, unknown_params_key, unknown_target_key,
  orphan_target_key, token_too_long, Outcome, ok, err, ◌>>=◌, strip_comment, parse_string,
  parse_string_array, parse_bool, parse_int,
}

unfoldable pub set_config_value : Config → Text → Text → Outcome Config
set_config_value cfg key value =
    if text_eq key (codes "listen")
    then ok (record cfg { listen = parse_string value })
    else if text_eq key (codes "sqlite_path")
    then ok (record cfg { sqlite_path = parse_string value })
    else if text_eq key (codes "dashboard_user")
    then ok (record cfg { dashboard_user = parse_string value })
    else if text_eq key (codes "dashboard_password")
    then ok (record cfg { dashboard_password = parse_string value })
    else if text_eq key (codes "agent_token")
    then ok (record cfg { agent_token = parse_string value })
    else if text_eq key (codes "dashboard_ranges")
    then ok (record cfg { dashboard_ranges = parse_string_array value })
    else if text_eq key (codes "default_range")
    then ok (record cfg { default_range = parse_string value })
    else if text_eq key (codes "retention_days")
    then parse_int key value >>= (λ n. ok (record cfg { retention_days = n }))
    else if text_eq key (codes "raw_retention_days")
    then parse_int key value >>= (λ n. ok (record cfg { raw_retention_days = n }))
    else if text_eq key (codes "rollup_interval_minutes")
    then parse_int key value >>= (λ n. ok (record cfg { rollup_interval_mins = n }))
    else if text_eq key (codes "failure_threshold")
    then parse_int key value >>= (λ n. ok (record cfg { failure_threshold = n }))
    else if text_eq key (codes "task_interval_seconds")
    then parse_int key value >>= (λ n. ok (record cfg { task_interval_seconds = n }))
    else err (unknown_config_key key)

unfoldable pub set_params_value : PingParams → Text → Text → Outcome PingParams
set_params_value p key value =
    if text_eq key (codes "count")
    then parse_int key value >>= (λ n. ok (record p { count = n }))
    else if text_eq key (codes "interval_millis")
    then parse_int key value >>= (λ n. ok (record p { interval_millis = n }))
    else if text_eq key (codes "timeout_millis")
    then parse_int key value >>= (λ n. ok (record p { timeout_millis = n }))
    else if text_eq key (codes "enable_ipv6")
    then ok (record p { enable_ipv6 = parse_bool value })
    else if text_eq key (codes "schedule_seconds")
    then parse_int key value >>= (λ n. ok (record p { schedule_seconds = n }))
    else err (unknown_params_key key)

unfoldable pub set_target_value : PingTarget → Text → Text → Outcome PingTarget
set_target_value t key value =
    if text_eq key (codes "name")
    then ok (record t { name = parse_string value })
    else if text_eq key (codes "address")
    then ok (record t { address = parse_string value })
    else if text_eq key (codes "port")
    then parse_int key value >>= (λ n. ok (record t { port = n }))
    else if text_eq key (codes "labels")
    then ok (record t { labels = parse_string_array value })
    else err (unknown_target_key key)

pub data Section : Type 0 where
  top params targets : Section

-- The variables of the loop of `parseSupervisorTOML`.
pub record Parser : Type 0 where
  pub section : Section
  pub current_target : Option ℕ
  pub cfg : Config

abbrev pub blank_target : PingTarget
blank_target = record { name = []; address = []; port = pos 0; labels = [] }

-- `&cfg.Targets[i]` read and written back.
set_target_at : Parser → Text → Text → Option ℕ → Outcome Parser
set_target_at p key value none = err orphan_target_key
set_target_at p key value (some i) = elim (get_elem? p.cfg.targets i) [
  | none ↦ err orphan_target_key
  | some t ↦
      set_target_value t key value
      >>= (λ t'. ok (record p { cfg = record (p.cfg) { targets = set_elem p.cfg.targets i t' } }))
]

-- The switch on the section, for a trimmed key and value.
unfoldable pub set_value : Section → Parser → Text → Text → Outcome Parser
unfolding set_target_at
set_value params p key value =
    set_params_value p.cfg.params key value
    >>= (λ q. ok (record p { cfg = record (p.cfg) { params = q } }))
set_value targets p key value = set_target_at p key value p.current_target
set_value top p key value =
    set_config_value p.cfg key value >>= (λ cfg. ok (record p { cfg = cfg }))

-- One round of the loop, on a line with its comment stripped.
unfoldable pub step_line : Parser → Text → Outcome Parser
step_line p line =
    if is_empty line
    then ok p
    else if text_eq line (codes "[params]")
    then ok (record p { section = params; current_target = none })
    else if text_eq line (codes "[[targets]]")
    then ok (record {
      section = targets;
      current_target = some (length p.cfg.targets);
      cfg = record (p.cfg) { targets = p.cfg.targets ++ blank_target ∷ [] };
    })
    else elim (cut b'=' line) [
      | none ↦ err (invalid_toml line)
      | some (key, value) ↦ set_value p.section p (trim_space key) (trim_space value)
    ]

-- An error of a line carries its number; the scanner's own error does not.
pub data Parsed (A : Type 0) : Type 0 where
  done : A → Parsed A
  at_line : ℕ → Reason → Parsed A
  scan_error : Reason → Parsed A

-- bufio.Scanner gives up at a line that does not fit its 64 KiB buffer.
abbrev pub scan_limit : ℕ
scan_limit = 65536

-- The loop: `number` lines have been read. `step` is one round, on a stripped line.
module _ {P : Type 0} (step : P → Text → Outcome P) where
  unfoldable pub run_lines : ℕ → P → List Text → Parsed P
  run_lines number p [] = done p
  run_lines number p (line ∷ lines) =
      if leb scan_limit (byte_len line)
      then scan_error token_too_long
      else elim (step p (strip_comment line)) [
        | ok q ↦ run_lines (suc number) q lines
        | err r ↦ at_line (suc number) r
      ]

-- bufio.ScanLines: the lines between newlines, with no last line after a final newline. A final
-- carriage return of a line is left on it here: `strip_comment` trims it off.
unfoldable pub scan_lines : Text → List Text
scan_lines [] = []
scan_lines (c ∷ s) =
    let rest = scan_lines s in
    if c == b'\n' then [] ∷ rest else elim rest [ [] ↦ (c ∷ []) ∷ [] | l ∷ ls ↦ (c ∷ l) ∷ ls ]

unfoldable pub parse_supervisor_toml : Text → Config → Parsed Config
unfolding run_lines scan_lines step_line
parse_supervisor_toml input cfg =
    elim (run_lines step_line 0 (record { section = top; current_target = none; cfg = cfg })
      (scan_lines input)) [
        | done p ↦ done p.cfg
        | at_line n r ↦ at_line n r
        | scan_error r ↦ scan_error r
      ]

set_agent_value : AgentConfig → Text → Text → Outcome AgentConfig
set_agent_value cfg key value =
    if text_eq key (codes "supervisor_url")
    then ok (record cfg { supervisor_url = parse_string value })
    else if text_eq key (codes "agent_name")
    then ok (record cfg { agent_name = parse_string value })
    else if text_eq key (codes "poll_interval_seconds")
    then parse_int key value >>= (λ n. ok (record cfg { poll_interval_seconds = n }))
    else if text_eq key (codes "probe_concurrency")
    then parse_int key value >>= (λ n. ok (record cfg { probe_concurrency = n }))
    else if text_eq key (codes "agent_token")
    then ok (record cfg { agent_token = parse_string value })
    else if text_eq key (codes "max_pending_results")
    then parse_int key value >>= (λ n. ok (record cfg { max_pending_results = n }))
    else if text_eq key (codes "public_ipv4_url")
    then ok (record cfg { public_ipv4_url = parse_string value })
    else if text_eq key (codes "public_ipv6_url")
    then ok (record cfg { public_ipv6_url = parse_string value })
    else ok cfg

unfoldable pub step_agent_line : AgentConfig → Text → Outcome AgentConfig
unfolding set_agent_value
step_agent_line cfg line =
    if is_empty line || has_prefix line (codes "[") then ok cfg else elim (cut b'=' line) [
      | none ↦ err (invalid_toml line)
      | some (key, value) ↦ set_agent_value cfg (trim_space key) (trim_space value)
    ]

unfoldable pub parse_agent_toml : Text → AgentConfig → Parsed AgentConfig
unfolding run_lines scan_lines step_agent_line
parse_agent_toml input cfg = run_lines step_agent_line 0 cfg (scan_lines input)
