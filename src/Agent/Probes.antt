-- ===== src/Agent/Probes.antt =====
-- cmd/agent/main.go: `tcpPing`. What a dial and the context do is an argument.
pub mod Counts
use pingmon.Prelude.{
  ℕ, zero, suc, ◌+◌, ◌≤◌, ◌/◌, Bool, true, false, List, [], ◌∷◌, Option, none, some, ◌==◌, ltb,
  if◌then◌else◌, ◌≡◌, ◌⊎◌, inl, inr, refl, arith, Bool-cases, Option-cases,
}
use pingmon.Prelude.Int.{ℤ, pos, pos_part, neg_part, ◌+ℤ◌, ltb_ℤ, int_laws}
use pingmon.Prelude.Text.{Text}
use pingmon.Config.Defs.{positive_or}
use pingmon.Model.{Time, Task, Result}
use pingmon.Storage.Rows.{FloatOps}

-- A connection with its latency in nanoseconds, or the text of an error.
pub data Attempt : Type 0 where
  connected : ℕ → Attempt
  failed : Text → Attempt

-- The dials in their order, and what the context reports if it ends in the wait after one.
pub record Network : Type 0 where
  pub dial : ℕ → Attempt
  pub cancelled : ℕ → Option Text

abbrev blank_result : {F : Type 0} → F → Text → Task → Time → Result F
blank_result zero_ms agent task now = record {
  agent = agent;
  agent_ip = [];
  target_name = task.target.name;
  address = task.target.address;
  port = task.target.port;
  labels = task.target.labels;
  checked_at = now;
  success_count = pos 0;
  failure_count = pos 0;
  average_latency_ms = zero_ms;
  success_rate = zero_ms;
  error = [];
}

module _ {F : Type 0} where
  -- The result, and the sum of the latencies.
  unfoldable pub count_attempt : Attempt → Result F × ℕ → Result F × ℕ
  count_attempt (connected nanos) (r, sum) =
      (record r { success_count = r.success_count +ℤ pos 1 }, sum + nanos)
  count_attempt (failed error) (r, sum) =
      (record r { failure_count = r.failure_count +ℤ pos 1; error = error }, sum)

  -- The loop from the attempt `i` on, and whether the context ended it.
  unfoldable pub ping_loop : Network → ℕ → ℕ → Result F × ℕ → (Result F × ℕ) × Bool
  unfolding count_attempt
  ping_loop net zero i s = (s, false)
  ping_loop net (suc left) i s =
      let s' = count_attempt (net.dial i) s in
      let rest = ping_loop net left (suc i) s' in
      if left == 0 then (s', false) else elim (net.cancelled i) [
        | some error ↦ ((record (s'.0) { error = error }, s'.1), true)
        | none ↦ rest
      ]

  -- The average and the rate.
  unfoldable pub finish_ping : FloatOps F → Result F × ℕ → Result F
  finish_ping ops (r, sum) =
      let total = r.success_count +ℤ r.failure_count in
      record r {
        average_latency_ms =
            if ltb_ℤ (pos 0) r.success_count
            then ops.div (ops.div (ops.of_int (pos (sum / 1000))) (ops.of_int (pos 1000)))
                (ops.of_int r.success_count)
            else r.average_latency_ms;
        success_rate =
            if ltb_ℤ (pos 0) total
            then ops.div (ops.of_int r.success_count) (ops.of_int total)
            else r.success_rate;
      }

  unfoldable pub tcp_ping : FloatOps F → Network → Text → Task → Time → Result F
  unfolding ping_loop finish_ping
  tcp_ping ops net agent task now =
      let count = pos_part (positive_or task.params.count (pos 3)) in
      let (s, ended) = ping_loop net count 0 (blank_result ops.zero agent task now, 0) in
      if ended then s.0 else finish_ping ops s
