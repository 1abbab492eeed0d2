-- ===== src/Tests/Goroutines.antt =====
-- cmd/agent/main.go: runs of `probeTasks`.
use mathlib.Core.List.{Perm}
use pingmon.Prelude.{
  ℕ, suc, true, List, [], ◌∷◌, ◌++◌, map, length, ◌+◌, ◌*◌, ◌≤◌, ◌≡◌, ◌⊎◌, inl, refl,
}
use pingmon.Prelude.Int.{pos}
use pingmon.Agent.Workers.{
  ended, Probing, start_probing, receive, check_context, finish_probe, end_worker, worker_count,
}
use pingmon.Agent.Workers.Steps.{
  WorkerStep, moves, takes, checks, finishes, closes, completes, cancels, ProbeRun, here, next,
}
use pingmon.Agent.Workers.Batch.{probe_tasks-results_closed}
use pingmon.Agent.Workers.Progress.{probe_tasks_ends}

abbrev two_targets : List ℕ
two_targets = 7 ∷ 8 ∷ []

abbrev started : Probing ℕ ℕ
started = start_probing (pos 1) two_targets

-- The first target is probed, then the context ends, and the second is dropped.
abbrev stopped_early : Probing ℕ ℕ
stopped_early = record {
  waiting = [];
  workers = ended ∷ [];
  results = 8 ∷ [];
  cancelled = true;
  jobs_closed = true;
  results_closed = true;
}

abbrev stopped_early_run : ProbeRun suc started 8 stopped_early
unfolding start_probing worker_count receive check_context finish_probe end_worker
stopped_early_run =
    next
      (next
        (next
          (next
            (next
              (next
                (next (next here (moves (takes _ 0 7 (8 ∷ []) refl refl refl)))
                  (moves (checks _ 0 7 refl)))
                (moves (finishes _ 0 7 refl)))
              (moves (takes _ 0 8 [] refl refl refl)))
            (cancels _ refl))
          (moves (checks _ 0 8 refl)))
        (moves (closes _ refl (inl refl))))
      (moves (completes _ refl refl (refl, tt)))

probe_tasks-results_closed_example :
    (probed : List ℕ) × (unprobed : List ℕ) × (stopped_early.results ≡ map suc probed)
    × Perm (probed ++ unprobed) two_targets
    × ((stopped_early.cancelled ≡ true) ⊎ (unprobed ≡ []))
probe_tasks-results_closed_example =
    probe_tasks-results_closed suc (pos 1) two_targets 8 stopped_early stopped_early_run refl

probe_tasks_ends_example :
    (8 ≤ 5 * length two_targets + 3)
    × ((stopped_early.results_closed ≡ true) ⊎ ((t : Probing ℕ ℕ) × WorkerStep suc stopped_early t))
probe_tasks_ends_example =
    probe_tasks_ends suc (pos 1) two_targets 8 stopped_early stopped_early_run
