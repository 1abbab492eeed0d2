-- ===== src/Agent/Workers/Steps.antt =====
-- cmd/agent/main.go: the steps of `probeTasks`.
use pingmon.Prelude.{ℕ, suc, true, false, List, [], ◌∷◌, some, get_elem?, All, ◌≡◌, ◌⊎◌}
use pingmon.Agent.Workers.{
  Worker, idle, received, probing, ended, Probing, receive, check_context, finish_probe, end_worker,
  close_jobs, close_results, cancel,
}

abbrev pub HasEnded : {T : Type 0} → Worker T → Type 0
HasEnded w = w ≡ ended

module _ {T R : Type 0} (report : T → R) where
  -- The dispatcher closes `jobs` after the last task, or when the context has ended; `results` is
  -- closed when all workers have ended.
  pub data WorkerStep : Probing T R → Probing T R → Type 0 where
    takes :
        (s : Probing T R) (i : ℕ) (task : T) (rest : List T)
        → get_elem? s.workers i ≡ some idle
        → s.waiting ≡ task ∷ rest
        → s.jobs_closed ≡ false
        → WorkerStep s (receive i task rest s)
    checks :
        (s : Probing T R) (i : ℕ) (task : T)
        → get_elem? s.workers i ≡ some (received task)
        → WorkerStep s (check_context i task s)
    finishes :
        (s : Probing T R) (i : ℕ) (task : T)
        → get_elem? s.workers i ≡ some (probing task)
        → WorkerStep s (finish_probe report i task s)
    ends :
        (s : Probing T R) (i : ℕ)
        → get_elem? s.workers i ≡ some idle
        → s.jobs_closed ≡ true
        → WorkerStep s (end_worker i s)
    closes :
        (s : Probing T R)
        → s.jobs_closed ≡ false
        → (s.waiting ≡ []) ⊎ (s.cancelled ≡ true)
        → WorkerStep s (close_jobs s)
    completes :
        (s : Probing T R)
        → s.jobs_closed ≡ true
        → s.results_closed ≡ false
        → All HasEnded s.workers
        → WorkerStep s (close_results s)

  -- The goroutines' steps, and the end of the context, which may come or not.
  pub data ProbeStep : Probing T R → Probing T R → Type 0 where
    moves : {s t : Probing T R} → WorkerStep s t → ProbeStep s t
    cancels : (s : Probing T R) → s.cancelled ≡ false → ProbeStep s (cancel s)

  -- A run of so many steps.
  pub data ProbeRun (s : Probing T R) : ℕ → Probing T R → Type 0 where
    here : ProbeRun s 0 s
    next : {n : ℕ} {t u : Probing T R} → ProbeRun s n t → ProbeStep t u → ProbeRun s (suc n) u
