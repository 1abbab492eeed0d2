-- ===== src/Agent/Queue.antt =====
-- cmd/agent/main.go: `appendPendingResults`, `uploadPendingResults`, `nextPollInterval` and the loop of
-- `main`. A result is any type `R` here.
use pingmon.Prelude.{
  ℕ, zero, suc, ◌+◌, ◌-◌, Bool, true, false, ◌&&◌, List, [], ◌∷◌, ◌++◌, Option, none, some, ltb,
  if◌then◌else◌, length, take, drop,
}
use pingmon.Prelude.Int.{ℤ, pos, pos_part, ◌+ℤ◌, leb_ℤ, ltb_ℤ}
use pingmon.Model.{Task}
use pingmon.Config.Defs.{AgentConfig}
use pingmon.Agent.Backoff.{retry_seconds}

abbrev pub upload_batch_size : ℕ
upload_batch_size = 200

-- `next_poll_interval`: the first positive schedule of a task.
first_schedule : ℤ → List Task → ℤ
first_schedule fallback [] = fallback
first_schedule fallback (task ∷ tasks) =
    let rest = first_schedule fallback tasks in
    if ltb_ℤ (pos 0) task.params.schedule_seconds then task.params.schedule_seconds else rest

unfoldable pub next_poll_interval : List Task → ℤ → ℤ
unfolding first_schedule
next_poll_interval tasks fallback =
    first_schedule (if leb_ℤ fallback (pos 0) then pos 30 else fallback) tasks

-- `consecutiveFailures++`.
abbrev next_failures : ℤ → ℤ
next_failures n = n +ℤ pos 1

-- What an upload leaves: the results still pending, the batches delivered so far, and whether all
-- went well.
pub record Upload (R : Type 0) : Type 0 where
  pub pending : List R
  pub delivered : List (List R)
  pub success : Bool

-- The variables of the loop of `main`.
pub record AgentState (R : Type 0) : Type 0 where
  pub pending : List R
  pub delivered : List (List R)
  pub consecutive_failures : ℤ

module _ {R : Type 0} where
  unfoldable pub append_pending_results : List R → List R → ℤ → List R
  append_pending_results pending batch maximum =
      let all = pending ++ batch in
      if ltb_ℤ (pos 0) maximum && ltb (pos_part maximum) (length all)
      then drop (length all - pos_part maximum) all
      else all

  unfoldable pub batch_size : List R → ℕ
  batch_size pending =
      if ltb (length pending) upload_batch_size then length pending else upload_batch_size

  -- The loop of `uploadPendingResults`, on fuel. `accepts delivered batch` is whether `uploadResults`
  -- returns nil for the batch, after those delivered before.
  unfoldable pub upload_pending_results :
      (List (List R) → List R → Bool) → ℕ → List (List R) → List R → Upload R
  upload_pending_results accepts zero delivered pending = record {
    pending = pending;
    delivered = delivered;
    success = false;
  }
  upload_pending_results accepts (suc fuel) delivered [] = record {
    pending = [];
    delivered = delivered;
    success = true;
  }
  upload_pending_results accepts (suc fuel) delivered (r ∷ rs) =
      let pending = r ∷ rs in
      let n = batch_size pending in
      let batch = take n pending in
      let rest = upload_pending_results accepts fuel (delivered ++ batch ∷ []) (drop n pending) in
      if accepts delivered batch
      then rest
      else record { pending = pending; delivered = delivered; success = false }

  -- One round of the loop: `cycle` is what `collectCycle` returns, the seconds to sleep and the batch,
  -- or `none` for its error; `nanos` is the clock that `retrySeconds` reads. The result has the
  -- seconds to sleep.
  unfoldable pub run_cycle :
      (List (List R) → List R → Bool)
      → AgentConfig
      → ℕ
      → Option (ℤ × List R)
      → AgentState R
      → AgentState R × ℤ
  run_cycle accepts cfg nanos none s =
      let failures = next_failures s.consecutive_failures in
      (
        record s { consecutive_failures = failures },
        retry_seconds cfg.poll_interval_seconds failures nanos,
      )
  run_cycle accepts cfg nanos (some (sleep, batch)) s =
      let pending = append_pending_results s.pending batch cfg.max_pending_results in
      let up = upload_pending_results accepts (length pending + 1) s.delivered pending in
      let failures = next_failures s.consecutive_failures in
      let s' : AgentState R = record {
        pending = up.pending;
        delivered = up.delivered;
        consecutive_failures = if up.success then pos 0 else failures;
      } in
      (s', if up.success then sleep else retry_seconds cfg.poll_interval_seconds failures nanos)
