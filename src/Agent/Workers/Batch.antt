-- ===== src/Agent/Workers/Batch.antt =====
-- cmd/agent/main.go: what `probeTasks` returns, however its goroutines interleave.
use mathlib.Core.List.{Perm}
use mathlib.Core.List.Perm
use mathlib.Core.Logic.{⊎_swap}
use mathlib.Core.Path.{subst}
use pingmon.Prelude.{
  ℕ, true, false, List, [], ◌∷◌, ◌++◌, some, get_elem?, length, map, All, ◌≡◌, ◌⊎◌, inl, inr, refl,
  ap, sym, Bool-cases, arith,
}
use pingmon.Prelude.Int.{ℤ}
use pingmon.Agent.Workers.{
  Worker, idle, received, probing, ended, Probing, worker_count, start_probing, receive,
  check_context, finish_probe, end_worker,
}
use pingmon.Agent.Workers.Steps.{
  HasEnded, ProbeStep, moves, takes, checks, finishes, ends, closes, completes, cancels, ProbeRun,
  here, next,
}
use pingmon.Agent.Workers.Tasks.{
  places, places_received, places_dropped, places_probed, IsActive, owned-set_elem_same,
  owned-idle_workers, owned_of_ended, get_elem?-All, set_elem-All, idle_workers-IsActive,
}

map-append_one :
    {T R : Type 0} (f : T → R) (xs : List T) (x : T) → map f (xs ++ x ∷ []) ≡ map f xs ++ f x ∷ []
map-append_one f [] x = refl
map-append_one f (y ∷ xs) x = ap (◌∷◌ (f y)) (map-append_one f xs x)

module _ {T R : Type 0} (report : T → R) where
  pub record IsAccounted (tasks : List T) (s : Probing T R) : Type 0 where
    pub probed : List T
    pub dropped : List T
    pub reported : s.results ≡ map report probed
    pub complete : Perm (places probed s.workers dropped s.waiting) tasks
    pub kept : (s.cancelled ≡ true) ⊎ (dropped ≡ [])
    pub sent : (s.jobs_closed ≡ false) ⊎ ((s.cancelled ≡ true) ⊎ (s.waiting ≡ []))
    pub finished : (s.results_closed ≡ false) ⊎ ((s.jobs_closed ≡ true) × All HasEnded s.workers)
    pub active : All IsActive s.workers ⊎ ((s.jobs_closed ≡ true) ⊎ (s.cancelled ≡ true))

  -- While a worker runs, `results` is open.
  unfinished :
      (s : Probing T R) (i : ℕ) (w : Worker T)
      → (s.results_closed ≡ false) ⊎ ((s.jobs_closed ≡ true) × All HasEnded s.workers)
      → get_elem? s.workers i ≡ some w
      → (w ≡ ended → ⊥)
      → s.results_closed ≡ false
  unfinished s i w (inl opened) at_i running = opened
  unfinished s i w (inr closed) at_i running =
      absurd (running (get_elem?-All HasEnded s.workers i w closed.1 at_i))

  pub start_probing-IsAccounted :
      (concurrency : ℤ) (tasks : List T) → IsAccounted tasks (start_probing concurrency tasks)
  unfolding start_probing
  start_probing-IsAccounted concurrency tasks = record {
    probed = [];
    dropped = [];
    reported = refl;
    complete = rw (owned-idle_workers {T = T} (worker_count concurrency (length tasks))) Perm.rfl;
    kept = inr refl;
    sent = inl refl;
    finished = inl refl;
    active = inl (idle_workers-IsActive T (worker_count concurrency (length tasks)));
  }

  ProbeStep-IsAccounted :
      (tasks : List T) {s t : Probing T R}
      → IsAccounted tasks s
      → ProbeStep report s t
      → IsAccounted tasks t
  unfolding receive check_context finish_probe end_worker
  ProbeStep-IsAccounted tasks a (moves (takes s i task rest at_i at_head opened)) = record {
    probed = a.probed;
    dropped = a.dropped;
    reported = a.reported;
    complete = Perm.trans (places_received a.probed s.workers a.dropped rest i task at_i) (
        subst (λ waiting. Perm (places a.probed s.workers a.dropped waiting) tasks) at_head
          a.complete);
    kept = a.kept;
    sent = inl opened;
    finished = inl (unfinished s i idle a.finished at_i (λ e. ground arith));
    active = elim a.active [
      | inl active ↦ inl (set_elem-All IsActive s.workers i active tt)
      | inr stopped ↦ inr stopped
    ];
  }
  ProbeStep-IsAccounted tasks a (moves (checks s i task at_i)) = elim (Bool-cases s.cancelled) [
    | inl cancelled ↦ record {
      probed = a.probed;
      dropped = task ∷ a.dropped;
      reported = a.reported;
      complete = rw cancelled (
          Perm.trans (places_dropped a.probed s.workers a.dropped s.waiting i task at_i)
            a.complete);
      kept = inl cancelled;
      sent = a.sent;
      finished = inl (unfinished s i (received task) a.finished at_i (λ e. ground arith));
      active = inr (inr cancelled);
    }
    | inr going ↦ record {
      probed = a.probed;
      dropped = a.dropped;
      reported = a.reported;
      complete =
          rw (going, owned-set_elem_same s.workers i (received task) (probing task) at_i refl)
            a.complete;
      kept = a.kept;
      sent = a.sent;
      finished = inl (unfinished s i (received task) a.finished at_i (λ e. ground arith));
      active = elim a.active [
        | inl active ↦ inl (rw going (set_elem-All IsActive s.workers i active tt))
        | inr stopped ↦ inr stopped
      ];
    }
  ]
  ProbeStep-IsAccounted tasks a (moves (finishes s i task at_i)) = record {
    probed = a.probed ++ task ∷ [];
    dropped = a.dropped;
    reported = rw a.reported (sym (map-append_one report a.probed task));
    complete =
        Perm.trans (places_probed a.probed s.workers a.dropped s.waiting i task at_i) a.complete;
    kept = a.kept;
    sent = a.sent;
    finished = inl (unfinished s i (probing task) a.finished at_i (λ e. ground arith));
    active = elim a.active [
      | inl active ↦ inl (set_elem-All IsActive s.workers i active tt)
      | inr stopped ↦ inr stopped
    ];
  }
  ProbeStep-IsAccounted tasks a (moves (ends s i at_i closed)) = record {
    probed = a.probed;
    dropped = a.dropped;
    reported = a.reported;
    complete = rw (owned-set_elem_same s.workers i idle ended at_i refl) a.complete;
    kept = a.kept;
    sent = a.sent;
    finished = inl (unfinished s i idle a.finished at_i (λ e. ground arith));
    active = inr (inl closed);
  }
  ProbeStep-IsAccounted tasks a (moves (closes s opened done)) = record {
    probed = a.probed;
    dropped = a.dropped;
    reported = a.reported;
    complete = a.complete;
    kept = a.kept;
    sent = inr (⊎_swap done);
    finished = elim a.finished [
      | inl running ↦ inl running
      | inr finished ↦ inr (refl, finished.1)
    ];
    active = inr (inl refl);
  }
  ProbeStep-IsAccounted tasks a (moves (completes s closed running all_ended)) = record {
    probed = a.probed;
    dropped = a.dropped;
    reported = a.reported;
    complete = a.complete;
    kept = a.kept;
    sent = a.sent;
    finished = inr (closed, all_ended);
    active = a.active;
  }
  ProbeStep-IsAccounted tasks a (cancels s going) = record {
    probed = a.probed;
    dropped = a.dropped;
    reported = a.reported;
    complete = a.complete;
    kept = inl refl;
    sent = inr (inl refl);
    finished = a.finished;
    active = inr (inr refl);
  }

  pub ProbeRun-IsAccounted :
      (tasks : List T) {s : Probing T R} {n : ℕ} {t : Probing T R}
      → IsAccounted tasks s
      → ProbeRun report s n t
      → IsAccounted tasks t
  ProbeRun-IsAccounted tasks a here = a
  ProbeRun-IsAccounted tasks a (next run step) =
      ProbeStep-IsAccounted tasks (ProbeRun-IsAccounted tasks a run) step

  none_left :
      {tasks : List T} (s : Probing T R) (a : IsAccounted tasks s)
      → s.jobs_closed ≡ true
      → (s.cancelled ≡ true) ⊎ (a.dropped ++ s.waiting ≡ [])
  none_left s a closed = elim a.kept [
    | inl cancelled ↦ inl cancelled
    | inr none_dropped ↦ elim a.sent [
      | inl opened ↦ absurd (ground arith)
      | inr (inl cancelled) ↦ inl cancelled
      | inr (inr none_waiting) ↦ inr (rw (none_dropped, none_waiting) refl)
    ]
  ]

  -- From the start of `probeTasks`, whatever its workers, its dispatcher and the end of the context
  -- do in whichever order: once `results` is closed, it holds one result for each of the tasks that
  -- were probed; these and the tasks that were not are together the tasks, each as often; and a task
  -- is not probed only if the context has ended.
  pub probe_tasks-results_closed :
      (concurrency : ℤ) (tasks : List T) (n : ℕ) (s : Probing T R)
      → ProbeRun report (start_probing concurrency tasks) n s
      → s.results_closed ≡ true
      → (probed : List T) × (unprobed : List T) × (s.results ≡ map report probed)
        × Perm (probed ++ unprobed) tasks
        × ((s.cancelled ≡ true) ⊎ (unprobed ≡ []))
  probe_tasks-results_closed concurrency tasks n s run closed =
      let a : IsAccounted tasks s =
        ProbeRun-IsAccounted tasks (start_probing-IsAccounted concurrency tasks) run in
      elim a.finished [
        | inl running ↦ absurd (ground arith)
        | inr finished ↦ (
          a.probed,
          a.dropped ++ s.waiting,
          a.reported,
          subst (λ held. Perm (a.probed ++ (held ++ (a.dropped ++ s.waiting))) tasks)
              (owned_of_ended s.workers finished.1) a.complete,
          none_left s a finished.0,
        )
      ]
