-- ===== src/Agent/Probes/Counts.antt =====
-- cmd/agent/main.go: what the counts of `tcpPing` are.
use pingmon.Prelude.{
  ℕ, zero, suc, ◌+◌, ◌≤◌, some, ◌==◌, ◌≡◌, ◌⊎◌, inl, inr, refl, ap, ==_iff, ◌∙◌, arith, Bool-cases,
  Option-cases,
}
use pingmon.Prelude.Int.{ℤ, pos, pos_part, ◌+ℤ◌, int_laws, zero-+ℤ}
use pingmon.Prelude.Text.{Text}
use pingmon.Config.Defs.{positive_or}
use pingmon.Model.{Time, Task, Result}
use pingmon.Storage.Rows.{FloatOps}
use pingmon.Agent.Probes.{
  Attempt, connected, failed, Network, blank_result, count_attempt, ping_loop, finish_ping,
  tcp_ping,
}

abbrev connects : Attempt → ℕ
connects (connected nanos) = 1
connects (failed error) = 0

abbrev fails : Attempt → ℕ
fails (connected nanos) = 0
fails (failed error) = 1

-- How many of the `k` dials from `i` on connect, and how many fail.
abbrev pub connections : Network → ℕ → ℕ → ℕ
connections net i zero = 0
connections net i (suc k) = connects (net.dial i) + connections net (suc i) k

abbrev pub failures_of : Network → ℕ → ℕ → ℕ
failures_of net i zero = 0
failures_of net i (suc k) = fails (net.dial i) + failures_of net (suc i) k

-- All attempts were made, or the context ended after an attempt and its error is the result's.
abbrev pub IsComplete : {F : Type 0} → Network → ℕ → ℕ → ℕ → Result F → Type 0
IsComplete net i left k r =
    (k ≡ left)
    ⊎ ((j : ℕ) × (error : Text) × (j + 1 ≡ i + k)
        × (net.cancelled j ≡ some error)
        × (r.error ≡ error))

abbrev pub attempts : Task → ℕ
attempts task = pos_part (positive_or task.params.count (pos 3))

plus_sum : (a : ℤ) (m n : ℕ) → a +ℤ pos m +ℤ pos n ≡ a +ℤ pos (m + n)
plus_sum a m n = omega int_laws

module _ {F : Type 0} (net : Network) where
  count_attempt-counts :
      (a : Attempt) (s : Result F × ℕ)
      → ((count_attempt a s).0.success_count ≡ s.0.success_count +ℤ pos (connects a))
        × ((count_attempt a s).0.failure_count ≡ s.0.failure_count +ℤ pos (fails a))
  unfolding count_attempt
  count_attempt-counts (connected nanos) (r, sum) = (refl, omega int_laws)
  count_attempt-counts (failed error) (r, sum) = (omega int_laws, refl)

  record Counted (i left : ℕ) (s out : Result F × ℕ) : Type 0 where
    made : ℕ
    few : made ≤ left
    successes : out.0.success_count ≡ s.0.success_count +ℤ pos (connections net i made)
    failures : out.0.failure_count ≡ s.0.failure_count +ℤ pos (failures_of net i made)
    complete : IsComplete net i left made out.0

  ping_loop-Counted : (left i : ℕ) (s : Result F × ℕ) → Counted i left s (ping_loop net left i s).0
  unfolding ping_loop
  ping_loop-Counted zero i s = record {
    made = 0;
    few = omega arith;
    successes = omega int_laws;
    failures = omega int_laws;
    complete = inl refl;
  }
  ping_loop-Counted (suc left) i s =
      let s' = count_attempt (net.dial i) s in
      let here = count_attempt-counts (net.dial i) s in
      let rest = ping_loop-Counted left (suc i) s' in
      elim (Bool-cases (left == 0)) [
        | inl last ↦ rw last (record {
          made = 1;
          few = omega arith;
          successes = here.0 ∙ ap (λ n. s.0.success_count +ℤ pos n) (omega arith);
          failures = here.1 ∙ ap (λ n. s.0.failure_count +ℤ pos n) (omega arith);
          complete = inl (omega (arith, (==_iff left 0).0 last));
        })
        | inr more ↦ elim (Option-cases (net.cancelled i)) [
          | inl none' ↦
              rw (more, none')
                (record {
                  made = suc rest.made;
                  few = omega (arith, rest.few);
                  successes =
                      rest.successes
                      ∙ ap (λ n. n +ℤ pos (connections net (suc i) rest.made)) here.0
                      ∙ plus_sum s.0.success_count (connects (net.dial i))
                          (connections net (suc i) rest.made);
                  failures =
                      rest.failures
                      ∙ ap (λ n. n +ℤ pos (failures_of net (suc i) rest.made)) here.1
                      ∙ plus_sum s.0.failure_count (fails (net.dial i))
                          (failures_of net (suc i) rest.made);
                  complete = elim rest.complete [
                    | inl all ↦ inl (ap suc all)
                    | inr (j, error, at, e, same) ↦ inr (j, error, omega (arith, at), e, same)
                  ];
                })
          | inr (error, e) ↦
              rw (more, e)
                (record {
                  made = 1;
                  few = omega arith;
                  successes = here.0 ∙ ap (λ n. s.0.success_count +ℤ pos n) (omega arith);
                  failures = here.1 ∙ ap (λ n. s.0.failure_count +ℤ pos n) (omega arith);
                  complete = inr (i, error, omega arith, e, refl);
                })
        ]
      ]

  -- For some number of attempts, at most the count of the task (3 if that is not positive), the successes
  -- of a ping are those of its first attempts that connect and the failures those that fail. All
  -- attempts were made, or the context ended after the last of them and the result has its error.
  pub tcp_ping_lem :
      (ops : FloatOps F) (agent : Text) (task : Task) (now : Time)
      → (made : ℕ) × (made ≤ attempts task)
        × ((tcp_ping ops net agent task now).success_count ≡ pos (connections net 0 made))
        × ((tcp_ping ops net agent task now).failure_count ≡ pos (failures_of net 0 made))
        × IsComplete net 0 (attempts task) made (tcp_ping ops net agent task now)
  unfolding tcp_ping finish_ping
  tcp_ping_lem ops agent task now =
      let start : Result F × ℕ = (blank_result ops.zero agent task now, 0) in
      let c = ping_loop-Counted (attempts task) 0 start in
      elim (Bool-cases (ping_loop net (attempts task) 0 start).1) [
        | inl ended ↦ rw ended (
          c.made,
          c.few,
          c.successes ∙ zero-+ℤ (pos (connections net 0 c.made)),
          c.failures ∙ zero-+ℤ (pos (failures_of net 0 c.made)),
          c.complete,
        )
        | inr full ↦ rw full (
          c.made,
          c.few,
          c.successes ∙ zero-+ℤ (pos (connections net 0 c.made)),
          c.failures ∙ zero-+ℤ (pos (failures_of net 0 c.made)),
          c.complete,
        )
      ]
