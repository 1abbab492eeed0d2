-- ===== src/Config/Defaults.antt =====
-- internal/config/config.go: what `applyDefaults` establishes.
use pingmon.Prelude.{
  [], ◌≡◌, ◌≢◌, refl, false, arith, Option, Bool-cases, inl, inr, ◌⊎◌, Option-cases,
}
use mathlib.Core.Path.{subst}
use pingmon.Prelude.Int.{pos, ◌≤ℤ◌, ◌<ℤ◌}
use pingmon.Prelude.Text.{Text, is_empty}
use pingmon.Config.Defs.{Config, default_config, apply_defaults}
use pingmon.Config.Load.{Loaded, loaded, failed, map_loaded, decode, detect_format, load}
use pingmon.Config.Toml.{parse_supervisor_toml}

-- A configuration with which the supervisor can run.
pub record IsReady (c : Config) : Type 0 where
  pub listen_set : is_empty c.listen ≡ false
  pub path_set : is_empty c.sqlite_path ≡ false
  pub user_set : is_empty c.dashboard_user ≡ false
  pub password_set : is_empty c.dashboard_password ≡ false
  pub ranges_set : c.dashboard_ranges ≢ []
  pub range_set : is_empty c.default_range ≡ false
  pub raw_pos : pos 0 <ℤ c.raw_retention_days
  pub raw_le : c.raw_retention_days ≤ℤ c.retention_days
  pub rollup_pos : pos 0 <ℤ c.rollup_interval_mins
  pub threshold_pos : pos 0 <ℤ c.failure_threshold
  pub interval_pos : pos 0 <ℤ c.task_interval_seconds
  pub count_pos : pos 0 <ℤ c.params.count
  pub gap_pos : pos 0 <ℤ c.params.interval_millis
  pub timeout_pos : pos 0 <ℤ c.params.timeout_millis
  pub schedule_pos : pos 0 <ℤ c.params.schedule_seconds

-- Whatever was read, `apply_defaults` leaves a ready configuration: every text that the supervisor
-- needs is there, every number is positive, and raw results are kept no longer than aggregates.
pub apply_defaults-IsReady : (c : Config) → IsReady (apply_defaults c)
unfolding apply_defaults
apply_defaults-IsReady c = record {
  listen_set = ground arith;
  path_set = ground arith;
  user_set = ground arith;
  password_set = ground arith;
  ranges_set = ground arith;
  range_set = ground arith;
  raw_pos = ground arith;
  raw_le = ground arith;
  rollup_pos = ground arith;
  threshold_pos = ground arith;
  interval_pos = ground arith;
  count_pos = ground arith;
  gap_pos = ground arith;
  timeout_pos = ground arith;
  schedule_pos = ground arith;
}

-- `apply_defaults` changes nothing in a configuration that is ready.
pub apply_defaults_ready : (c : Config) → IsReady c → apply_defaults c ≡ c
unfolding apply_defaults
apply_defaults_ready c h = ground arith

default_config-IsReady : IsReady default_config
unfolding default_config
default_config-IsReady = record {
  listen_set = refl;
  path_set = refl;
  user_set = refl;
  password_set = refl;
  ranges_set = λ e. cc;
  range_set = refl;
  raw_pos = omega arith;
  raw_le = omega arith;
  rollup_pos = omega arith;
  threshold_pos = omega arith;
  interval_pos = omega arith;
  count_pos = omega arith;
  gap_pos = omega arith;
  timeout_pos = omega arith;
  schedule_pos = omega arith;
}

map_loaded-IsReady :
    (l : Loaded Config) (c : Config) → map_loaded apply_defaults l ≡ loaded c → IsReady c
map_loaded-IsReady (loaded d) c h = subst IsReady (loaded-injective h) (apply_defaults-IsReady d)
  where
    loaded-injective : loaded (apply_defaults d) ≡ loaded c → apply_defaults d ≡ c
    loaded-injective e = cc
map_loaded-IsReady (failed e) c h = absurd (ground arith)

load-cases :
    (read : Text → Option Text) (json : Text → Config → Option Config) (path format : Text)
    (c : Config)
    → load read json path format ≡ loaded c
    → (default_config ≡ c) ⊎ ((l : Loaded Config) × (map_loaded apply_defaults l ≡ loaded c))
load-cases read json path format c h = elim (Bool-cases (is_empty path)) [
  | inl e ↦ inl (unfold load in ground arith)
  | inr e ↦ elim (Option-cases (read path)) [
    | inl missing ↦ absurd (unfold load in ground arith)
    | inr (b, found) ↦ inr (
      decode json parse_supervisor_toml (detect_format path format) b default_config,
      unfold load in ground arith,
    )
  ]
]

-- Every configuration that `load` returns is ready, whatever the path, the format, the file and the
-- JSON decoder: the texts it needs are set, its numbers are positive, and raw results are kept no
-- longer than aggregates.
pub load-IsReady :
    (read : Text → Option Text) (json : Text → Config → Option Config) (path format : Text)
    (c : Config)
    → load read json path format ≡ loaded c
    → IsReady c
load-IsReady read json path format c h = elim (load-cases read json path format c h) [
  | inl e ↦ subst IsReady e default_config-IsReady
  | inr (l, e) ↦ map_loaded-IsReady l c e
]
