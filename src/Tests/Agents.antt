-- ===== src/Tests/Agents.antt =====
-- Tests of cmd/agent/main.go.
use pingmon.Prelude.{
  ℕ, Bool, true, false, List, [], ◌∷◌, ◌++◌, none, some, ◌≡◌, refl, arith, ◌+◌, ◌-◌, ◌/◌, ◌≤◌, ◌<◌,
  length, All,
}
use pingmon.Prelude.Int.{pos, wrap64, ◌*ℤ◌, ◌+ℤ◌, ◌-ℤ◌}
use pingmon.Prelude.Text.{codes}
use pingmon.Config.Defs.{AgentConfig, default_agent_config}
use pingmon.Agent.Backoff.{
  jitter_seconds, backoff_factor, retry_seconds, backoff, retry_seconds_bounds,
}
use pingmon.Agent.Queue.{
  append_pending_results, batch_size, upload_pending_results, AgentState, run_cycle,
}
use pingmon.Agent.Delivery.{
  append_pending_results_lem, concat, IsBatch, Delivers, upload_pending_results-Delivers,
}
use pingmon.Agent.Cycles.{Cycle, all_gathered, run_cycles, length-run_cycles, run_cycles-in_order}

-- Unfolds what the tests run through.
program : Unit {0}
unfolding wrap64 ◌*ℤ◌ ◌+ℤ◌ ◌-ℤ◌ jitter_seconds backoff_factor retry_seconds append_pending_results
    batch_size upload_pending_results run_cycle default_agent_config
program = tt

waits :
    (retry_seconds (pos 30) (pos 1) 0 ≡ pos 24)
    × (retry_seconds (pos 30) (pos 9) 120 ≡ pos 360)
    × (retry_seconds (pos 0) (pos 0) 5 ≡ pos 30)
unfolding program
waits = (refl, refl, refl)

-- A base near the limit of int64 wraps, and the agent waits one second.
wait_wraps : retry_seconds (pos 4611686018427387904) (pos 2) 0 ≡ pos 1
unfolding program
wait_wraps = refl

retry_seconds_bounds_example :
    (r : ℕ) × (retry_seconds (pos 30) (pos 3) 77 ≡ pos r)
    × (backoff 30 3 ≤ r + backoff 30 3 / 5)
    × (r ≤ backoff 30 3 + backoff 30 3 / 5)
    × (0 < r)
retry_seconds_bounds_example = retry_seconds_bounds 30 2 77 (omega arith) (omega arith)

queue_drops_oldest :
    (dropped : List ℕ) × ((1 ∷ 2 ∷ []) ++ (3 ∷ 4 ∷ [])
      ≡ dropped ++ append_pending_results (1 ∷ 2 ∷ []) (3 ∷ 4 ∷ []) (pos 3))
    × (length dropped ≡ length {A = ℕ} ((1 ∷ 2 ∷ []) ++ (3 ∷ 4 ∷ [])) - 3)
    × (length {A = ℕ} (append_pending_results (1 ∷ 2 ∷ []) (3 ∷ 4 ∷ []) (pos 3)) ≤ 3)
queue_drops_oldest = append_pending_results_lem (1 ∷ 2 ∷ []) (3 ∷ 4 ∷ []) 3 (omega arith)

-- A supervisor that takes one batch.
abbrev takes_one : List (List ℕ) → List ℕ → Bool
takes_one [] batch = true
takes_one (b ∷ bs) batch = false

upload_pending_results-Delivers_example :
    Delivers takes_one [] (7 ∷ 8 ∷ []) (upload_pending_results takes_one 3 [] (7 ∷ 8 ∷ []))
upload_pending_results-Delivers_example =
    upload_pending_results-Delivers takes_one 3 [] (7 ∷ 8 ∷ []) (omega arith) tt

abbrev cfg : AgentConfig
cfg = record {
  supervisor_url = [];
  agent_name = codes "a";
  poll_interval_seconds = pos 30;
  probe_concurrency = pos 20;
  agent_token = [];
  max_pending_results = pos 10;
  public_ipv4_url = [];
  public_ipv6_url = [];
}

abbrev cycles : List (Cycle ℕ)
cycles = (0, some (pos 30, 1 ∷ 2 ∷ [])) ∷ (1, none) ∷ (2, some (pos 30, 3 ∷ [])) ∷ []

abbrev idle : AgentState ℕ
idle = record { pending = []; delivered = []; consecutive_failures = pos 0 }

run_cycles_is :
    run_cycles takes_one cfg cycles idle
    ≡ record { pending = 3 ∷ []; delivered = (1 ∷ 2 ∷ []) ∷ []; consecutive_failures = pos 2 }
unfolding program
run_cycles_is = refl

queue_stays_bounded :
    (length (run_cycles takes_one cfg cycles idle).pending ≤ 10)
    × All IsBatch (run_cycles takes_one cfg cycles idle).delivered
queue_stays_bounded =
    length-run_cycles takes_one cfg 10 cycles idle refl (omega arith) (omega arith) tt

run_cycles-in_order_example :
    concat (run_cycles takes_one cfg cycles idle).delivered
      ++ (run_cycles takes_one cfg cycles idle).pending
    ≡ concat idle.delivered ++ (idle.pending ++ all_gathered cycles)
run_cycles-in_order_example =
    run_cycles-in_order takes_one cfg 10 cycles idle refl (omega arith) (omega arith) tt
