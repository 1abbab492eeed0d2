-- ===== src/Agent/Workers.antt =====
-- cmd/agent/main.go: `probeTasks`, its workers, its dispatcher and the end of the context as steps that
-- interleave. A result is any type `R`, and `report` what the probe of a task gives, with the address
-- of the agent. The receiving loop only takes what is in `results`, which has room for all.
pub mod Steps
mod Tasks
pub mod Batch
pub mod Progress
use pingmon.Prelude.{
  ℕ, zero, suc, ◌+◌, ◌*◌, Bool, true, false, List, [], ◌∷◌, ◌++◌, ltb, ◌==◌, if◌then◌else◌, length,
  set_elem,
}
use pingmon.Prelude.Int.{ℤ, pos, pos_part, leb_ℤ, ltb_ℤ}

-- Where a worker stands in its loop.
pub data Worker (T : Type 0) : Type 0 where
  idle : Worker T
  received : T → Worker T
  probing : T → Worker T
  ended : Worker T

-- `waiting` is what the dispatcher has still to send.
pub record Probing (T R : Type 0) : Type 0 where
  pub waiting : List T
  pub workers : List (Worker T)
  pub results : List R
  pub cancelled : Bool
  pub jobs_closed : Bool
  pub results_closed : Bool

-- The number of workers for so many tasks; 0 only if there is no task.
unfoldable pub worker_count : ℤ → ℕ → ℕ
worker_count concurrency tasks =
    let wanted = if leb_ℤ concurrency (pos 0) then pos 20 else concurrency in
    if ltb_ℤ (pos tasks) wanted then tasks else pos_part wanted

abbrev pub idle_workers : {T : Type 0} → ℕ → List (Worker T)
idle_workers zero = []
idle_workers (suc n) = idle ∷ idle_workers n

module _ {T R : Type 0} where
  unfoldable pub start_probing : ℤ → List T → Probing T R
  unfolding worker_count
  start_probing concurrency tasks = record {
    waiting = tasks;
    workers = idle_workers (worker_count concurrency (length tasks));
    results = [];
    cancelled = false;
    jobs_closed = false;
    results_closed = false;
  }

  -- A worker takes the next task.
  unfoldable pub receive : ℕ → T → List T → Probing T R → Probing T R
  receive i task rest s = record s {
    waiting = rest;
    workers = set_elem s.workers i (received task);
  }

  -- `if ctx.Err() != nil`.
  unfoldable pub check_context : ℕ → T → Probing T R → Probing T R
  check_context i task s = record s {
    workers = set_elem s.workers i (if s.cancelled then ended else probing task);
  }

  unfoldable pub finish_probe : (T → R) → ℕ → T → Probing T R → Probing T R
  finish_probe report i task s = record s {
    workers = set_elem s.workers i idle;
    results = s.results ++ report task ∷ [];
  }

  unfoldable pub end_worker : ℕ → Probing T R → Probing T R
  end_worker i s = record s { workers = set_elem s.workers i ended }

  abbrev pub close_jobs : Probing T R → Probing T R
  close_jobs s = record s { jobs_closed = true }

  abbrev pub close_results : Probing T R → Probing T R
  close_results s = record s { results_closed = true }

  abbrev pub cancel : Probing T R → Probing T R
  cancel s = record s { cancelled = true }
