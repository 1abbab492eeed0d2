-- ===== src/Config/Defs.antt =====
-- internal/config/config.go: `Config`, `AgentConfig`, their defaults and `applyDefaults`.
use pingmon.Prelude.{true, List, [], ◌∷◌, if◌then◌else◌, ◌&&◌}
use pingmon.Prelude.Int.{ℤ, pos, leb_ℤ, ltb_ℤ}
use pingmon.Prelude.Text.{Text, codes, is_empty}
use pingmon.Model.{PingTarget, PingParams}

pub record Config : Type 0 where
  pub listen : Text
  pub sqlite_path : Text
  pub dashboard_user : Text
  pub dashboard_password : Text
  pub agent_token : Text
  pub dashboard_ranges : List Text
  pub default_range : Text
  pub retention_days : ℤ
  pub raw_retention_days : ℤ
  pub rollup_interval_mins : ℤ
  pub failure_threshold : ℤ
  pub task_interval_seconds : ℤ
  pub params : PingParams
  pub targets : List PingTarget

pub record AgentConfig : Type 0 where
  pub supervisor_url : Text
  pub agent_name : Text
  pub poll_interval_seconds : ℤ
  pub probe_concurrency : ℤ
  pub agent_token : Text
  pub max_pending_results : ℤ
  pub public_ipv4_url : Text
  pub public_ipv6_url : Text

abbrev default_params : PingParams
default_params = record {
  count = pos 3;
  interval_millis = pos 1000;
  timeout_millis = pos 2000;
  enable_ipv6 = true;
  schedule_seconds = pos 30;
}

unfoldable pub default_config : Config
default_config = record {
  listen = codes ":8080";
  sqlite_path = codes "data/pingmon.db";
  dashboard_user = codes "admin";
  dashboard_password = codes "admin";
  agent_token = [];
  dashboard_ranges =
      codes "5m"
      ∷ codes "15m"
      ∷ codes "30m"
      ∷ codes "12h"
      ∷ codes "24h"
      ∷ codes "3d"
      ∷ codes "7d"
      ∷ codes "14d"
      ∷ codes "30d"
      ∷ codes "60d"
      ∷ codes "180d"
      ∷ codes "365d"
      ∷ [];
  default_range = codes "24h";
  retention_days = pos 365;
  raw_retention_days = pos 30;
  rollup_interval_mins = pos 60;
  failure_threshold = pos 3;
  task_interval_seconds = pos 30;
  params = default_params;
  targets = [];
}

-- `hostname` is what os.Hostname returns, empty where it fails.
unfoldable pub default_agent_config : Text → AgentConfig
default_agent_config hostname = record {
  supervisor_url = codes "http://127.0.0.1:8080";
  agent_name = if is_empty hostname then codes "agent" else hostname;
  poll_interval_seconds = pos 30;
  probe_concurrency = pos 20;
  agent_token = [];
  max_pending_results = pos 1000;
  public_ipv4_url = codes "https://api-ipv4.ip.sb/ip";
  public_ipv6_url = codes "https://api-ipv6.ip.sb/ip";
}

-- `if x == "" { x = d }`, and `if n <= 0 { n = d }`.
abbrev pub text_or : Text → Text → Text
text_or s d = if is_empty s then d else s

abbrev pub positive_or : ℤ → ℤ → ℤ
positive_or n d = if leb_ℤ n (pos 0) then d else n

abbrev ranges_or : List Text → List Text → List Text
ranges_or [] d = d
ranges_or (r ∷ rs) d = r ∷ rs

abbrev at_most : ℤ → ℤ → ℤ
at_most limit n = if ltb_ℤ limit n then limit else n

params_defaults : PingParams → ℤ → PingParams
params_defaults p task_interval = record p {
  count = positive_or p.count default_params.count;
  interval_millis = positive_or p.interval_millis default_params.interval_millis;
  timeout_millis = positive_or p.timeout_millis default_params.timeout_millis;
  schedule_seconds = positive_or p.schedule_seconds task_interval;
}

unfoldable pub apply_defaults : Config → Config
unfolding default_config params_defaults
apply_defaults cfg =
    let def = default_config in
    let retention = positive_or cfg.retention_days def.retention_days in
    let raw = positive_or cfg.raw_retention_days def.raw_retention_days in
    let task_interval = positive_or cfg.task_interval_seconds def.task_interval_seconds in
    record cfg {
      listen = text_or cfg.listen def.listen;
      sqlite_path = text_or cfg.sqlite_path def.sqlite_path;
      dashboard_user = text_or cfg.dashboard_user def.dashboard_user;
      dashboard_password = text_or cfg.dashboard_password def.dashboard_password;
      dashboard_ranges = ranges_or cfg.dashboard_ranges def.dashboard_ranges;
      default_range = text_or cfg.default_range def.default_range;
      retention_days = retention;
      raw_retention_days = at_most retention raw;
      rollup_interval_mins = positive_or cfg.rollup_interval_mins def.rollup_interval_mins;
      failure_threshold = positive_or cfg.failure_threshold def.failure_threshold;
      task_interval_seconds = task_interval;
      params = params_defaults cfg.params task_interval;
    }

-- The checks at the end of `LoadAgent`.
unfoldable pub agent_defaults : Text → AgentConfig → AgentConfig
unfolding default_agent_config
agent_defaults hostname cfg =
    let def = default_agent_config hostname in
    let no_urls = is_empty cfg.public_ipv4_url && is_empty cfg.public_ipv6_url in
    record cfg {
      poll_interval_seconds = positive_or cfg.poll_interval_seconds (pos 30);
      probe_concurrency = positive_or cfg.probe_concurrency (pos 20);
      max_pending_results = positive_or cfg.max_pending_results (pos 1000);
      agent_name = text_or cfg.agent_name def.agent_name;
      supervisor_url = text_or cfg.supervisor_url def.supervisor_url;
      public_ipv4_url = if no_urls then def.public_ipv4_url else cfg.public_ipv4_url;
      public_ipv6_url = if no_urls then def.public_ipv6_url else cfg.public_ipv6_url;
    }
