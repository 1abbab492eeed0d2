-- ===== src/Supervisor/Connectivity.antt =====
-- cmd/supervisor/main.go: `agentConnectivity`, `updateAgentConnectivity`, `connectivityFor`.
-- The map of a server is an association list; a missing agent reads as the zero value. Go ranges
-- over `rounds` in any order, which is the order of first mention here: every agent occurs once in
-- it, so that the order does not show.
pub mod Lookup
pub mod Streaks
use pingmon.Prelude.{
  ℕ, ◌+◌, ◌*◌, Bool, true, false, List, [], ◌∷◌, Option, none, some, ltb, leb, ◌==◌, if◌then◌else◌,
}
use pingmon.Prelude.Int.{ℤ, pos, ltb_ℤ, leb_ℤ}
use pingmon.Prelude.Text.{Text}
use pingmon.Prelude.Eq.{text_is_eq, lookup, insert}
use pingmon.Model.{Time, Result}

-- The field `Status`: "", "checking", "ok" and "failed".
pub data Status : Type 0 where
  unset checking healthy failing : Status

pub record AgentConnectivity : Type 0 where
  pub status : Status
  pub consecutive_failures : ℕ
  pub first_failed_at : Time
  pub last_changed_at : Time

abbrev pub no_connectivity : AgentConnectivity
no_connectivity = record {
  status = unset;
  consecutive_failures = 0;
  first_failed_at = 0;
  last_changed_at = 0;
}

abbrev pub Connectivity : Type 0
Connectivity = List (Text × AgentConnectivity)

pub record Round : Type 0 where
  pub total : ℕ
  pub failed : ℕ

abbrev pub no_round : Round
no_round = record { total = 0; failed = 0 }

abbrev pub or_zero : {A : Type 0} → A → Option A → A
or_zero z none = z
or_zero z (some a) = a

abbrev is_zero : ℤ → Bool
is_zero (pos n) = n == 0
is_zero _ = false

abbrev pub count_result : {F : Type 0} → Result F → Round → Round
count_result result r = record {
  total = r.total + 1;
  failed = if is_zero result.success_count then r.failed + 1 else r.failed;
}

-- The first loop.
unfoldable pub tally : {F : Type 0} → List (Text × Round) → List (Result F) → List (Text × Round)
tally rounds [] = rounds
tally rounds (result ∷ results) =
    tally
      (insert result.agent (count_result result (or_zero no_round (lookup result.agent rounds)))
        rounds)
      results

abbrev is_failing : Status → Bool
is_failing failing = true
is_failing _ = false

abbrev is_checking : Status → Bool
is_checking checking = true
is_checking _ = false

abbrev is_healthy : Status → Bool
is_healthy healthy = true
is_healthy _ = false

-- `threshold < 1` counts as 1.
unfoldable pub effective_threshold : ℤ → ℤ
effective_threshold threshold = if ltb_ℤ threshold (pos 1) then pos 1 else threshold

-- The `if failed` of the second loop; `threshold` is the effective one.
unfoldable pub note_failure : ℤ → Time → AgentConnectivity → AgentConnectivity
note_failure threshold now state =
    let failures = state.consecutive_failures + 1 in
    let first = if state.first_failed_at == 0 then now else state.first_failed_at in
    let counted = record state { consecutive_failures = failures; first_failed_at = first } in
    if leb_ℤ threshold (pos failures)
    then (if is_failing state.status
        then counted
        else record counted { status = failing; last_changed_at = now })
    else (if is_checking state.status
        then counted
        else record counted { status = checking; last_changed_at = now })

-- Its `else`.
unfoldable pub note_success : Time → AgentConnectivity → AgentConnectivity
note_success now state = record {
  status = healthy;
  consecutive_failures = 0;
  first_failed_at = 0;
  last_changed_at = if is_healthy state.status then state.last_changed_at else now;
}

-- More than half of the results of the round have no success.
unfoldable pub round_failed : Round → Bool
round_failed r = ltb r.total (r.failed * 2)

unfoldable pub note_round : ℤ → Time → Round → AgentConnectivity → AgentConnectivity
unfolding round_failed
note_round threshold now r state =
    if round_failed r then note_failure threshold now state else note_success now state

-- The second loop.
unfoldable pub note_rounds : ℤ → Time → List (Text × Round) → Connectivity → Connectivity
note_rounds threshold now [] connectivity = connectivity
note_rounds threshold now ((agent, r) ∷ rounds) connectivity = note_rounds threshold now rounds (
    insert agent (note_round threshold now r (or_zero no_connectivity (lookup agent connectivity)))
      connectivity)

-- `threshold` is the configured one.
unfoldable pub update_agent_connectivity :
    {F : Type 0} → ℤ → List (Result F) → Time → Connectivity → Connectivity
unfolding tally note_rounds effective_threshold
update_agent_connectivity threshold results now connectivity =
    note_rounds (effective_threshold threshold) now (tally [] results) connectivity

unfoldable pub connectivity_for : Text → Connectivity → AgentConnectivity
connectivity_for agent connectivity = or_zero no_connectivity (lookup agent connectivity)
