-- ===== src/Agent/Workers/Progress.antt =====
-- cmd/agent/main.go: that `probeTasks` returns.
use mathlib.Core.List.Perm
use mathlib.Core.Option.{some-injective}
use mathlib.Core.Path.{subst}
use pingmon.Prelude.{
  ℕ, zero, suc, ◌+◌, ◌*◌, ◌≤◌, Bool, true, false, List, [], ◌∷◌, ◌++◌, some, get_elem?, set_elem,
  length, length-append, length-set_elem, List-cases, All, ◌≡◌, ◌⊎◌, inl, inr, refl, ap, ◌∙◌, sym,
  Bool-cases, arith, if◌then◌else◌,
}
use pingmon.Prelude.Int.{ℤ, pos, negsuc}
use pingmon.Agent.Workers.{
  Worker, idle, received, probing, ended, Probing, worker_count, idle_workers, start_probing,
  receive, check_context, finish_probe, end_worker,
}
use pingmon.Agent.Workers.Steps.{
  HasEnded, ProbeStep, WorkerStep, moves, takes, checks, finishes, ends, closes, completes, cancels,
  ProbeRun, here, next,
}
use pingmon.Agent.Workers.Tasks.{owned, IsActive}
use pingmon.Agent.Workers.Batch.{IsAccounted, start_probing-IsAccounted, ProbeRun-IsAccounted}

module _ {T : Type 0} where
  abbrev weight : Worker T → ℕ
  weight idle = 1
  weight (received task) = 4
  weight (probing task) = 3
  weight ended = 0

  abbrev weights : List (Worker T) → ℕ
  weights [] = 0
  weights (w ∷ ws) = weight w + weights ws

  weights-set_elem :
      (ws : List (Worker T)) (i : ℕ) (w v : Worker T)
      → get_elem? ws i ≡ some w
      → weights (set_elem ws i v) + weight w ≡ weights ws + weight v
  weights-set_elem [] i w v at_i = absurd (ground arith)
  weights-set_elem (x ∷ ws) zero w v at_i =
      let same : weight x ≡ weight w = ap weight (some-injective x w at_i) in omega (arith, same)
  weights-set_elem (x ∷ ws) (suc i) w v at_i = omega (arith, weights-set_elem ws i w v at_i)

  -- A worker that can make a step, if not all have ended.
  ready_worker :
      (ws : List (Worker T))
      → ((i : ℕ) × (get_elem? ws i ≡ some idle))
        ⊎ (((i : ℕ) × (task : T) × (get_elem? ws i ≡ some (received task)))
            ⊎ (((i : ℕ) × (task : T) × (get_elem? ws i ≡ some (probing task))) ⊎ All HasEnded ws))
  ready_worker [] = inr (inr (inr tt))
  ready_worker (idle ∷ ws) = inl (0, refl)
  ready_worker (received task ∷ ws) = inr (inl (0, task, refl))
  ready_worker (probing task ∷ ws) = inr (inr (inl (0, task, refl)))
  ready_worker (ended ∷ ws) = elim (ready_worker ws) [
    | inl (i, at_i) ↦ inl (suc i, at_i)
    | inr (inl (i, task, at_i)) ↦ inr (inl (suc i, task, at_i))
    | inr (inr (inl (i, task, at_i))) ↦ inr (inr (inl (suc i, task, at_i)))
    | inr (inr (inr all_ended)) ↦ inr (inr (inr (refl, all_ended)))
  ]

  ended_active : (ws : List (Worker T)) → All HasEnded ws → All IsActive ws → length ws ≡ 0
  ended_active [] all_ended active = refl
  ended_active (w ∷ ws) all_ended active = absurd (subst IsActive all_ended.0 active.0)

length-idle_workers : (T : Type 0) (n : ℕ) → length (idle_workers {T = T} n) ≡ n
length-idle_workers T zero = refl
length-idle_workers T (suc n) = ap suc (length-idle_workers T n)

weights-idle_workers : (T : Type 0) (n : ℕ) → weights (idle_workers {T = T} n) ≡ n
weights-idle_workers T zero = refl
weights-idle_workers T (suc n) = omega (arith, weights-idle_workers T n)

worker_count_bound : (concurrency : ℤ) (n : ℕ) → worker_count concurrency n ≤ n
unfolding worker_count
worker_count_bound (pos k) n = ground arith
worker_count_bound (negsuc k) n = ground arith

worker_count_none : (concurrency : ℤ) (n : ℕ) → worker_count concurrency n ≡ 0 → n ≡ 0
unfolding worker_count
worker_count_none (pos k) n none_made = ground arith
worker_count_none (negsuc k) n none_made = ground arith

abbrev left : Bool → ℕ
left done = if done then 0 else 1

module _ {T R : Type 0} (report : T → R) where
  abbrev measure : Probing T R → ℕ
  measure s =
      4 * length s.waiting
      + weights s.workers
      + left s.cancelled
      + left s.jobs_closed
      + left s.results_closed

  ProbeStep-measure : {s t : Probing T R} → ProbeStep report s t → suc (measure t) ≤ measure s
  unfolding receive check_context finish_probe end_worker
  ProbeStep-measure (moves (takes s i task rest at_i at_head opened)) =
      let lighter = weights-set_elem s.workers i idle (received task) at_i in
      let shorter : length s.waiting ≡ suc (length rest) = ap length at_head in
      omega (arith, lighter, shorter)
  ProbeStep-measure (moves (checks s i task at_i)) = elim (Bool-cases s.cancelled) [
    | inl cancelled ↦
        rw cancelled (omega (arith, weights-set_elem s.workers i (received task) ended at_i))
    | inr going ↦
        rw going (omega (arith, weights-set_elem s.workers i (received task) (probing task) at_i))
  ]
  ProbeStep-measure (moves (finishes s i task at_i)) =
      omega (arith, weights-set_elem s.workers i (probing task) idle at_i)
  ProbeStep-measure (moves (ends s i at_i closed)) =
      omega (arith, weights-set_elem s.workers i idle ended at_i)
  ProbeStep-measure (moves (closes s opened done)) = rw opened (omega arith)
  ProbeStep-measure (moves (completes s closed running all_ended)) = rw running (omega arith)
  ProbeStep-measure (cancels s going) = rw going (omega arith)

  ProbeRun-measure :
      {s : Probing T R} {n : ℕ} {t : Probing T R}
      → ProbeRun report s n t
      → n + measure t ≤ measure s
  ProbeRun-measure here = omega arith
  ProbeRun-measure (next run step) = omega (arith, ProbeRun-measure run, ProbeStep-measure step)

  ProbeStep-workers :
      {s t : Probing T R} → ProbeStep report s t → length t.workers ≡ length s.workers
  unfolding receive check_context finish_probe end_worker
  ProbeStep-workers (moves (takes s i task rest at_i at_head opened)) =
      length-set_elem s.workers i (received task)
  ProbeStep-workers (moves (checks s i task at_i)) =
      length-set_elem s.workers i (if s.cancelled then ended else probing task)
  ProbeStep-workers (moves (finishes s i task at_i)) = length-set_elem s.workers i idle
  ProbeStep-workers (moves (ends s i at_i closed)) = length-set_elem s.workers i ended
  ProbeStep-workers (moves (closes s opened done)) = refl
  ProbeStep-workers (moves (completes s closed running all_ended)) = refl
  ProbeStep-workers (cancels s going) = refl

  ProbeRun-workers :
      {s : Probing T R} {n : ℕ} {t : Probing T R}
      → ProbeRun report s n t
      → length t.workers ≡ length s.workers
  ProbeRun-workers here = refl
  ProbeRun-workers (next run step) = ProbeStep-workers step ∙ ProbeRun-workers run

  no_tasks :
      (tasks : List T) (s : Probing T R)
      → IsAccounted report tasks s
      → length tasks ≡ 0
      → s.waiting ≡ []
  no_tasks [] s a none_made =
      let held = owned s.workers ++ (a.dropped ++ s.waiting) in
      let nothing : length (a.probed ++ held) ≡ 0 = ap length (Perm.eq-nil a.complete) in
      let parts = length-append a.probed held in
      let inner = length-append (owned s.workers) (a.dropped ++ s.waiting) in
      let innermost = length-append a.dropped s.waiting in
      elim (List-cases s.waiting) [
        | inl e ↦ e
        | inr (task, rest, e) ↦
            let some_waiting : length s.waiting ≡ suc (length rest) = ap length e in
            absurd (omega arith)
      ]
  no_tasks (task ∷ tasks) s a none_made = absurd (omega arith)

  goes_on :
      (concurrency : ℤ) (tasks : List T) (s : Probing T R)
      → IsAccounted report tasks s
      → length s.workers ≡ worker_count concurrency (length tasks)
      → s.results_closed ≡ false
      → (t : Probing T R) × WorkerStep report s t
  goes_on concurrency tasks s a as_many running = elim (ready_worker s.workers) [
    | inl (i, at_i) ↦ elim (Bool-cases s.jobs_closed) [
      | inl closed ↦ (_, ends s i at_i closed)
      | inr opened ↦ elim (List-cases s.waiting) [
        | inl none_waiting ↦ (_, closes s opened (inl none_waiting))
        | inr (task, rest, at_head) ↦ (_, takes s i task rest at_i at_head opened)
      ]
    ]
    | inr (inl (i, task, at_i)) ↦ (_, checks s i task at_i)
    | inr (inr (inl (i, task, at_i))) ↦ (_, finishes s i task at_i)
    | inr (inr (inr all_ended)) ↦ elim (Bool-cases s.jobs_closed) [
      | inl closed ↦ (_, completes s closed running all_ended)
      | inr opened ↦ elim a.active [
        | inl active ↦ (
          _,
          closes s opened (
              inl (
                no_tasks tasks s a (
                  worker_count_none concurrency (length tasks)
                    (sym as_many ∙ ended_active s.workers all_ended active)))),
        )
        | inr (inl closed) ↦ absurd (ground arith)
        | inr (inr cancelled) ↦ (_, closes s opened (inr cancelled))
      ]
    ]
  ]

  -- From the start of `probeTasks`, whatever happens in whichever order: there are at most five steps
  -- for each task and three more, the end of the context included, and as long as `results` is not
  -- closed, one of the goroutines can make a step, with no help of the context. So `results` is closed
  -- after so many steps at the latest, and the receiving loop ends.
  pub probe_tasks_ends :
      (concurrency : ℤ) (tasks : List T) (n : ℕ) (s : Probing T R)
      → ProbeRun report (start_probing concurrency tasks) n s
      → (n ≤ 5 * length tasks + 3)
        × ((s.results_closed ≡ true) ⊎ ((t : Probing T R) × WorkerStep report s t))
  unfolding start_probing
  probe_tasks_ends concurrency tasks n s run =
      let count = worker_count concurrency (length tasks) in
      (
        omega (
          arith,
          ProbeRun-measure run,
          weights-idle_workers T count,
          worker_count_bound concurrency (length tasks),
        ),
        elim (Bool-cases s.results_closed) [
          | inl closed ↦ inl closed
          | inr running ↦ inr (
              goes_on concurrency tasks s
                (ProbeRun-IsAccounted report tasks
                  (start_probing-IsAccounted report concurrency tasks) run)
                (ProbeRun-workers run ∙ length-idle_workers T count) running)
        ],
      )
