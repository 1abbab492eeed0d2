-- ===== src/Tests/Supervisors.antt =====
-- Tests of cmd/supervisor.
use pingmon.Prelude.{
  ℕ, true, false, List, [], ◌∷◌, Option, none, some, ◌≡◌, ◌≢◌, ◌⊎◌, refl, arith, ◌+◌, ◌*◌, ◌≤◌,
  if◌then◌else◌, ◌==◌,
}
use pingmon.Prelude.Int.{ℤ, pos, negsuc, ◌*ℤ◌, wrap64}
use pingmon.Prelude.Text.{Text, codes, text_eq, trim_space, has_suffix, trim_suffix, to_lower, atoi}
use pingmon.Prelude.Eq.{lookup, insert, remove}
use pingmon.Model.{Time, Result}
use pingmon.Config.Defs.{Config, default_config}
use pingmon.Config.Load.{Loaded, loaded, failed, unreadable}
use pingmon.Supervisor.Ranges.{minute, hour, parse_range_duration, range_duration, selected_range}
use pingmon.Supervisor.Connectivity.{
  tally, note_rounds, note_round, note_failure, note_success, effective_threshold,
  update_agent_connectivity, connectivity_for,
}
use pingmon.Supervisor.Connectivity.Lookup.{round_of, connectivity_for-update}
use pingmon.Supervisor.Connectivity.Streaks.{
  Reports, run_reports, streak, heard, Shows, run_reports-status,
}
use pingmon.Supervisor.Cache.{
  CacheKey, ResultsCache, key_eq, get, set, drop_key, purge, oldest, is_full, evict, is_accepted,
  make_room, new_results_cache,
}
use pingmon.Supervisor.Cache.Bounds.{IsValid}
use pingmon.Supervisor.Cache.Reads.{
  CacheCall, get_call, set_call, run_calls, latest, run_calls-IsValid, get-run_calls, get-set,
}
use pingmon.Supervisor.Reload.{
  validate_supervisor_config, Reloadable, keep_fixed, apply_reloaded_config, Stat, Watcher,
}
use pingmon.Supervisor.Reload.Watch.{
  changed, IsSound, run_ticks, apply_reloaded_config-cases, run_ticks-IsSound,
}

-- Unfolds what the tests run through.
program : Unit {0}
unfolding text_eq trim_space has_suffix trim_suffix to_lower atoi wrap64 ◌*ℤ◌ parse_range_duration
    range_duration selected_range lookup insert remove tally note_rounds note_round note_failure
    note_success effective_threshold update_agent_connectivity connectivity_for key_eq get set
    drop_key purge oldest is_full evict is_accepted make_room new_results_cache
    validate_supervisor_config default_config
program = tt

ranges :
    (parse_range_duration (codes " 90M ") ≡ some (pos (90 * minute)))
    × (parse_range_duration (codes "2mo") ≡ some (pos (60 * 24 * hour)))
    × (parse_range_duration (codes "0h") ≡ none)
    × (parse_range_duration (codes "h") ≡ none)
unfolding program
ranges = (refl, refl, refl, refl)

-- A number of hours too large for int64 nanoseconds is taken, and is negative.
range_wraps : parse_range_duration (codes "3000000h") ≡ some (negsuc 7646744073709551615)
unfolding program
range_wraps = refl

abbrev sample : Text → ℤ → ℤ → Result ℕ
sample agent good bad = record {
  agent = agent;
  agent_ip = [];
  target_name = codes "t";
  address = codes "h";
  port = pos 53;
  labels = [];
  checked_at = 0;
  success_count = good;
  failure_count = bad;
  average_latency_ms = 0;
  success_rate = 0;
  error = [];
}

abbrev reports : Reports ℕ
reports =
    (10, sample (codes "a") (pos 0) (pos 3) ∷ sample (codes "b") (pos 3) (pos 0) ∷ [])
    ∷ (20, sample (codes "a") (pos 0) (pos 3) ∷ [])
    ∷ (30, sample (codes "b") (pos 0) (pos 3) ∷ sample (codes "b") (pos 1) (pos 2) ∷ [])
    ∷ []

streaks : (streak (codes "a") 0 reports ≡ 2) × (streak (codes "b") 0 reports ≡ 0)
unfolding program
streaks = (refl, refl)

run_reports-status_example :
    Shows
      (pos 2)
      (heard (codes "a") false reports)
      (streak (codes "a") 0 reports)
      (connectivity_for (codes "a") (run_reports (pos 2) reports []))
run_reports-status_example = run_reports-status (pos 2) (codes "a") reports

abbrev batch : List (Result ℕ)
batch = sample (codes "a") (pos 0) (pos 3) ∷ sample (codes "b") (pos 3) (pos 0) ∷ []

connectivity_for-update_example :
    connectivity_for (codes "a") (update_agent_connectivity (pos 0) batch 10 []) ≡ (
      if (round_of (codes "a") batch).total == 0
      then connectivity_for (codes "a") []
      else note_round
          (effective_threshold (pos 0))
          10
          (round_of (codes "a") batch)
          (connectivity_for (codes "a") []))
connectivity_for-update_example = connectivity_for-update (pos 0) batch 10 [] (codes "a")

abbrev day_key : CacheKey
day_key = record { selected_range = codes "24h"; agent = []; dashboard = false }

abbrev week_key : CacheKey
week_key = record { selected_range = codes "7d"; agent = codes "a"; dashboard = true }

abbrev calls : List CacheCall
calls =
    set_call 10 day_key (1 ∷ 2 ∷ [])
    ∷ set_call 11 week_key (3 ∷ [])
    ∷ get_call 12 day_key
    ∷ set_call 12 day_key (4 ∷ [])
    ∷ []

run_calls-IsValid_example : IsValid (run_calls calls (new_results_cache 2 64))
run_calls-IsValid_example = run_calls-IsValid 2 64 calls

get_last : (get 13 day_key (run_calls calls (new_results_cache 2 64))).0 ≡ some (4 ∷ [])
unfolding program
get_last = refl

get-run_calls_example :
    (t : Time) × (latest (new_results_cache 2 64) day_key none calls ≡ some (t, 4 ∷ []))
    × (13 ≤ t + 2)
get-run_calls_example = get-run_calls 2 64 calls 13 day_key (4 ∷ []) get_last

abbrev two_calls : ResultsCache
two_calls = run_calls calls (new_results_cache 2 64)

stored_value_returned :
    ((get 15 week_key (set 13 week_key (5 ∷ []) two_calls)).0 ≡ some (5 ∷ []))
    × (((get 15 day_key (set 13 week_key (5 ∷ []) two_calls)).0 ≡ none)
        ⊎ ((get 15 day_key (set 13 week_key (5 ∷ []) two_calls)).0 ≡ (get 15 day_key two_calls).0))
unfolding program
stored_value_returned =
    get-set 13 15 week_key day_key (5 ∷ []) two_calls run_calls-IsValid_example refl (omega arith)
      (λ e. cc)

abbrev server : Reloadable
server = record { cfg = default_config; cache = new_results_cache 2 64; refreshes = 0 }

abbrev reloaded : Config
reloaded = record default_config { listen = codes ":9"; failure_threshold = pos 5 }

abbrev bad : Config
bad = record default_config { default_range = codes "soon" }

default_valid : validate_supervisor_config default_config ≡ none
unfolding program
default_valid = refl

reload_changes :
    ((apply_reloaded_config reloaded server ≡ (server, false))
      × (server.cfg ≡ keep_fixed server.cfg reloaded))
    ⊎ ((apply_reloaded_config reloaded server
          ≡ (changed (keep_fixed server.cfg reloaded) server, true))
        × (server.cfg ≢ keep_fixed server.cfg reloaded))
reload_changes = apply_reloaded_config-cases reloaded server

abbrev ticks : List (Option Stat × Loaded Config)
ticks =
    (some (1, 10), loaded reloaded) ∷ (none, failed unreadable) ∷ (some (2, 10), loaded bad) ∷ []

abbrev watcher : Watcher
watcher = record { server = server; last = (0, 10) }

run_ticks-IsSound_example : IsSound default_config (run_ticks ticks watcher).server.cfg
run_ticks-IsSound_example = run_ticks-IsSound default_config ticks watcher (record {
  checked = default_valid;
  listen_same = refl;
  path_same = refl;
  user_same = refl;
  password_same = refl;
})
