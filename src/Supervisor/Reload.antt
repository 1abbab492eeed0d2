-- ===== src/Supervisor/Reload.antt =====
-- cmd/supervisor/main.go: `validateSupervisorConfig`, `watchConfig` and `applyReloadedConfig`.
-- reflect.DeepEqual is equality here: a nil and an empty slice, which it tells apart, are one list.
pub mod Watch
use mathlib.Core.Logic.{ite}
use native.Mathlib.Decide.{ℕ_discrete}
use pingmon.Prelude.{
  ℕ, suc, Bool, true, false, not, ◌&&◌, ◌||◌, List, [], ◌∷◌, Option, none, some, ◌==◌,
  if◌then◌else◌,
}
use pingmon.Prelude.Int.{ℤ, pos, ltb_ℤ}
use pingmon.Prelude.Text.{Text, text_eq, is_empty, trim_space}
use pingmon.Model.{PingTarget, PingParams, Time}
use pingmon.Config.Defs.{Config}
use pingmon.Config.Load.{Loaded, loaded, failed}
use pingmon.Supervisor.Ranges.{parse_range_duration}
use pingmon.Supervisor.Cache.{ResultsCache, clear}

pub data ConfigFault : Type 0 where
  target_unnamed : ℕ → ConfigFault
  target_port : Text → ConfigFault
  dashboard_range : Text → ConfigFault
  default_range : Text → ConfigFault

unfoldable pub check_target : ℕ → PingTarget → Option ConfigFault
check_target i target =
    if is_empty (trim_space target.name) || is_empty (trim_space target.address)
    then some (target_unnamed (suc i))
    else if ltb_ℤ target.port (pos 1) || ltb_ℤ (pos 65535) target.port
    then some (target_port target.name)
    else none

unfoldable pub check_targets : ℕ → List PingTarget → Option ConfigFault
check_targets i [] = none
check_targets i (target ∷ targets) =
    let rest = check_targets (suc i) targets in
    elim (check_target i target) [ some fault ↦ some fault | none ↦ rest ]

abbrev is_range : Text → Bool
is_range value = elim (parse_range_duration value) [ none ↦ false | some d ↦ true ]

unfoldable pub check_ranges : List Text → Option ConfigFault
check_ranges [] = none
check_ranges (value ∷ values) =
    let rest = check_ranges values in if is_range value then rest else some (dashboard_range value)

-- `none` is the source's nil error.
unfoldable pub validate_supervisor_config : Config → Option ConfigFault
unfolding check_targets check_target check_ranges
validate_supervisor_config cfg = elim (check_targets 0 cfg.targets) [
  | some fault ↦ some fault
  | none ↦ elim (check_ranges cfg.dashboard_ranges) [
    | some fault ↦ some fault
    | none ↦ if is_range cfg.default_range then none else some (default_range cfg.default_range)
  ]
]

-- What a reload touches of the server: its configuration, the cache of results, and the number of
-- refresh messages broadcast.
pub record Reloadable : Type 0 where
  pub cfg : Config
  pub cache : ResultsCache
  pub refreshes : ℕ

-- The loaded configuration with what cannot change while the server runs.
abbrev pub keep_fixed : Config → Config → Config
keep_fixed current cfg = record cfg {
  listen = current.listen;
  sqlite_path = current.sqlite_path;
  dashboard_user = current.dashboard_user;
  dashboard_password = current.dashboard_password;
}

unfoldable pub needs_restart : Config → Config → Bool
needs_restart current cfg =
    not (text_eq cfg.listen current.listen)
    || not (text_eq cfg.sqlite_path current.sqlite_path)
    || not (text_eq cfg.dashboard_user current.dashboard_user)
    || not (text_eq cfg.dashboard_password current.dashboard_password)

PingTarget-discrete : Discrete PingTarget
PingTarget-discrete = hlevel ℕ_discrete

pub Config-discrete : Discrete Config
Config-discrete = hlevel ℕ_discrete

-- From the test for equality on.
unfoldable pub install : Config → Reloadable → Reloadable × Bool
install cfg s =
    ite (Config-discrete s.cfg cfg) (s, false)
      (record s { cfg = cfg; cache = clear s.cache; refreshes = suc s.refreshes }, true)

unfoldable pub apply_reloaded_config : Config → Reloadable → Reloadable × Bool
apply_reloaded_config cfg s =
    install (if needs_restart s.cfg cfg then keep_fixed s.cfg cfg else cfg) s

-- What os.Stat tells of the file: its modification time and its size.
abbrev pub Stat : Type 0
Stat = Time × ℕ

pub record Watcher : Type 0 where
  pub server : Reloadable
  pub last : Stat

-- The server after a load: one that fails or is not valid is rejected.
unfoldable pub take_loaded : Loaded Config → Reloadable → Reloadable
take_loaded (failed e) s = s
take_loaded (loaded cfg) s = elim (validate_supervisor_config cfg) [
  | some fault ↦ s
  | none ↦ (apply_reloaded_config cfg s).0
]

-- One tick of the loop: `info` is `none` where os.Stat fails, `load` is what loading gives then.
unfoldable pub watch_tick : Option Stat → Loaded Config → Watcher → Watcher
watch_tick none load w = w
watch_tick (some (mod_time, size)) load w =
    if mod_time == w.last.0 && size == w.last.1
    then w
    else record w { last = (mod_time, size); server = take_loaded load w.server }
