-- ===== src/Supervisor/Reload/Watch.antt =====
-- cmd/supervisor/main.go: what the server's configuration can become while it runs.
use mathlib.Core.Logic.{if_pos, if_neg}
use pingmon.Prelude.{
  suc, true, false, ◌&&◌, List, [], ◌∷◌, Option, none, some, ◌==◌, ◌≡◌, ◌≢◌, ◌⊎◌, inl, inr, refl,
  ap, arith, Bool-cases, Option-cases,
}
use pingmon.Prelude.Text.{text_eq_iff}
use pingmon.Config.Defs.{Config}
use pingmon.Config.Load.{Loaded, loaded, failed}
use pingmon.Supervisor.Cache.{clear}
use pingmon.Supervisor.Reload.{
  validate_supervisor_config, Reloadable, keep_fixed, needs_restart, Config-discrete, install,
  apply_reloaded_config, Stat, Watcher, take_loaded, watch_tick,
}

keep_fixed_same :
    (current cfg : Config) → needs_restart current cfg ≡ false → cfg ≡ keep_fixed current cfg
unfolding needs_restart
keep_fixed_same current cfg h = ground (
  arith,
  text_eq_iff cfg.listen current.listen,
  text_eq_iff cfg.sqlite_path current.sqlite_path,
  text_eq_iff cfg.dashboard_user current.dashboard_user,
  text_eq_iff cfg.dashboard_password current.dashboard_password,
)

-- The server after a change to a configuration.
abbrev pub changed : Config → Reloadable → Reloadable
changed cfg s = record s { cfg = cfg; cache = clear s.cache; refreshes = suc s.refreshes }

install-cases :
    (cfg : Config) (s : Reloadable)
    → ((install cfg s ≡ (s, false)) × (s.cfg ≡ cfg))
      ⊎ ((install cfg s ≡ (changed cfg s, true)) × (s.cfg ≢ cfg))
unfolding install
install-cases cfg s = elim (Config-discrete s.cfg cfg) [
  | yes same ↦ inl (rw (if_pos _ same) refl, same)
  | no differs ↦ inr (rw (if_neg _ differs) refl, differs)
]

apply_reloaded_config_fixed :
    (cfg : Config) (s : Reloadable) → apply_reloaded_config cfg s ≡ install (keep_fixed s.cfg cfg) s
unfolding apply_reloaded_config
apply_reloaded_config_fixed cfg s = elim (Bool-cases (needs_restart s.cfg cfg)) [
  | inl fixed ↦ rw fixed refl
  | inr free ↦ rw free (ap (λ c. install c s) (keep_fixed_same s.cfg cfg free))
]

-- A reload takes over all but the listening address, the database path and the dashboard credentials,
-- which stay. If that makes no difference the server is left as it is; if it does, the cache of
-- results is cleared and a refresh is broadcast.
pub apply_reloaded_config-cases :
    (cfg : Config) (s : Reloadable)
    → let merged = keep_fixed s.cfg cfg in
      ((apply_reloaded_config cfg s ≡ (s, false)) × (s.cfg ≡ merged))
      ⊎ ((apply_reloaded_config cfg s ≡ (changed merged s, true)) × (s.cfg ≢ merged))
apply_reloaded_config-cases cfg s =
    rw (apply_reloaded_config_fixed cfg s) (install-cases (keep_fixed s.cfg cfg) s)

-- A configuration that the server may run with, beside the one that it was started with.
pub record IsSound (start cfg : Config) : Type 0 where
  pub checked : validate_supervisor_config cfg ≡ none
  pub listen_same : cfg.listen ≡ start.listen
  pub path_same : cfg.sqlite_path ≡ start.sqlite_path
  pub user_same : cfg.dashboard_user ≡ start.dashboard_user
  pub password_same : cfg.dashboard_password ≡ start.dashboard_password

keep_fixed-IsSound :
    (start current cfg : Config)
    → IsSound start current
    → validate_supervisor_config cfg ≡ none
    → IsSound start (keep_fixed current cfg)
unfolding validate_supervisor_config
keep_fixed-IsSound start current cfg h v = record {
  checked = v;
  listen_same = h.listen_same;
  path_same = h.path_same;
  user_same = h.user_same;
  password_same = h.password_same;
}

take_loaded-IsSound :
    (start : Config) (load : Loaded Config) (s : Reloadable)
    → IsSound start s.cfg
    → IsSound start (take_loaded load s).cfg
unfolding take_loaded
take_loaded-IsSound start (failed e) s h = h
take_loaded-IsSound start (loaded cfg) s h = elim (Option-cases (validate_supervisor_config cfg)) [
  | inr (fault, e) ↦ rw (e, take_loaded) h
  | inl valid ↦
      let sound = keep_fixed-IsSound start s.cfg cfg h valid in
      rw (valid, take_loaded)
        (elim (apply_reloaded_config-cases cfg s) [
          | inl (e, same) ↦ rw e h
          | inr (e, differs) ↦ rw e sound
        ])
]

watch_tick-IsSound :
    (start : Config) (info : Option Stat) (load : Loaded Config) (w : Watcher)
    → IsSound start w.server.cfg
    → IsSound start (watch_tick info load w).server.cfg
unfolding watch_tick
watch_tick-IsSound start none load w h = h
watch_tick-IsSound start (some (t, n)) load w h =
    elim (Bool-cases (t == w.last.0 && n == w.last.1)) [
      | inl same ↦ rw same h
      | inr new ↦ rw new (take_loaded-IsSound start load w.server h)
    ]

abbrev pub run_ticks : List (Option Stat × Loaded Config) → Watcher → Watcher
run_ticks [] w = w
run_ticks ((info, load) ∷ ticks) w = run_ticks ticks (watch_tick info load w)

-- Whatever the file holds at each tick, and whether it can be read: the server always runs with a
-- configuration that passed validation, and its listening address, its database path and its
-- dashboard credentials are those that it was started with.
pub run_ticks-IsSound :
    (start : Config) (ticks : List (Option Stat × Loaded Config)) (w : Watcher)
    → IsSound start w.server.cfg
    → IsSound start (run_ticks ticks w).server.cfg
run_ticks-IsSound start [] w h = h
run_ticks-IsSound start ((info, load) ∷ ticks) w h =
    run_ticks-IsSound start ticks (watch_tick info load w) (watch_tick-IsSound start info load w h)
