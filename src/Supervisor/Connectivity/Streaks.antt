-- ===== src/Supervisor/Connectivity/Streaks.antt =====
-- cmd/supervisor/main.go: the state of an agent against all the rounds that it has reported.
use pingmon.Prelude.{
  ℕ, ◌+◌, Bool, true, false, List, [], ◌∷◌, ◌≡◌, refl, arith, if◌then◌else◌, ◌==◌, Bool-cases, inl,
  inr,
}
use pingmon.Prelude.Int.{ℤ, pos, leb_ℤ}
use pingmon.Prelude.Text.{Text}
use pingmon.Prelude.Eq.{lookup}
use pingmon.Model.{Time, Result}
use pingmon.Supervisor.Connectivity.{
  Status, unset, checking, healthy, failing, AgentConnectivity, Connectivity, Round, round_failed,
  note_failure, note_success, note_round, effective_threshold, update_agent_connectivity,
  connectivity_for,
}
use pingmon.Supervisor.Connectivity.Lookup.{round_of, connectivity_for-update}

-- The reports of the server, each with its time.
abbrev pub Reports : Type 0 → Type 0
Reports F = List (Time × List (Result F))

abbrev pub run_reports : {F : Type 0} → ℤ → Reports F → Connectivity → Connectivity
run_reports threshold [] c = c
run_reports threshold ((now, results) ∷ reports) c =
    run_reports threshold reports (update_agent_connectivity threshold results now c)

-- The failed rounds of an agent since its last round that did not fail, `n` before the first report.
abbrev pub streak : {F : Type 0} → Text → ℕ → Reports F → ℕ
streak agent n [] = n
streak agent n ((now, results) ∷ reports) =
    let r = round_of agent results in
    streak agent (if r.total == 0 then n else if round_failed r then n + 1 else 0) reports

-- Whether the agent has a result in a report, or had one before.
abbrev pub heard : {F : Type 0} → Text → Bool → Reports F → Bool
heard agent b [] = b
heard agent b ((now, results) ∷ reports) =
    heard agent (if (round_of agent results).total == 0 then b else true) reports

-- What a streak of `n` failed rounds means, for an agent that was heard of or not.
abbrev pub status_for : ℤ → Bool → ℕ → Status
status_for threshold false n = unset
status_for threshold true n =
    if n == 0
    then healthy
    else if leb_ℤ (effective_threshold threshold) (pos n)
    then failing
    else checking

pub record Shows (threshold : ℤ) (b : Bool) (n : ℕ) (s : AgentConnectivity) : Type 0 where
  pub failures_are : s.consecutive_failures ≡ n
  pub status_is : s.status ≡ status_for threshold b n

note_round-Shows :
    (threshold : ℤ) (now : Time) (r : Round) (b : Bool) (n : ℕ) (s : AgentConnectivity)
    → Shows threshold b n s
    → Shows threshold true
        (if round_failed r then n + 1 else 0)
        (note_round (effective_threshold threshold) now r s)
unfolding note_round note_failure note_success
note_round-Shows threshold now r b n s h = elim (Bool-cases (round_failed r)) [
  | inl failed ↦ record {
    failures_are = ground (arith, h.failures_are);
    status_is = ground (arith, h.failures_are, h.status_is);
  }
  | inr fine ↦ record { failures_are = ground arith; status_is = ground arith }
]

run_reports-Shows :
    {F : Type 0} (threshold : ℤ) (agent : Text) (b : Bool) (n : ℕ) (reports : Reports F)
    (c : Connectivity)
    → Shows threshold b n (connectivity_for agent c)
    → Shows threshold
        (heard agent b reports)
        (streak agent n reports)
        (connectivity_for agent (run_reports threshold reports c))
run_reports-Shows threshold agent b n [] c h = h
run_reports-Shows threshold agent b n ((now, results) ∷ reports) c h =
    let r = round_of agent results in
    let step = connectivity_for-update threshold results now c agent in
    elim (Bool-cases (r.total == 0)) [
      | inl absent ↦ rw absent (
          run_reports-Shows threshold agent b n reports
            (update_agent_connectivity threshold results now c) (rw (step, absent) h))
      | inr there ↦ rw there (
          run_reports-Shows threshold agent true (if round_failed r then n + 1 else 0) reports
            (update_agent_connectivity threshold results now c)
            (rw (step, there) (note_round-Shows threshold now r b n (connectivity_for agent c) h)))
    ]

-- After any sequence of reports to a fresh server, for every agent: the failures counted are the
-- failed rounds since its last other round, and the status is unset before its first round, healthy
-- with no such failure, failing from the threshold on (at least one), and checking below it.
pub run_reports-status :
    {F : Type 0} (threshold : ℤ) (agent : Text) (reports : Reports F)
    → Shows threshold
        (heard agent false reports)
        (streak agent 0 reports)
        (connectivity_for agent (run_reports threshold reports []))
unfolding connectivity_for lookup
run_reports-status threshold agent reports =
    run_reports-Shows threshold agent false 0 reports []
      (record { failures_are = refl; status_is = refl })
