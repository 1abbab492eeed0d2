-- ===== src/Supervisor/Connectivity/Lookup.antt =====
-- cmd/supervisor/main.go: what `updateAgentConnectivity` leaves for each agent.
use pingmon.Prelude.{
  ◌+◌, ◌<◌, List, [], ◌∷◌, none, some, ◌≡◌, refl, arith, if◌then◌else◌, ◌==◌, Option-cases, inl,
  inr,
}
use pingmon.Prelude.Int.{ℤ}
use pingmon.Prelude.Text.{Text, text_eq, text_eq_iff}
use pingmon.Prelude.Eq.{text_is_eq, lookup, insert, lookup-insert, Distinct, insert-Distinct}
use pingmon.Model.{Time, Result}
use pingmon.Supervisor.Connectivity.{
  no_connectivity, Connectivity, Round, no_round, or_zero, count_result, tally, note_round,
  note_rounds, effective_threshold, update_agent_connectivity, connectivity_for,
}

-- The results of an agent, and those among them with no success, counted with no map.
abbrev pub round_of : {F : Type 0} → Text → List (Result F) → Round
round_of agent [] = no_round
round_of agent (result ∷ results) =
    let rest = round_of agent results in
    if text_eq result.agent agent then count_result result rest else rest

abbrev add_rounds : Round → Round → Round
add_rounds r s = record { total = r.total + s.total; failed = r.failed + s.failed }

tally-lookup :
    {F : Type 0} (agent : Text) (rounds : List (Text × Round)) (results : List (Result F))
    → or_zero no_round (lookup agent (tally rounds results))
      ≡ add_rounds (or_zero no_round (lookup agent rounds)) (round_of agent results)
unfolding tally
tally-lookup agent rounds [] = ground arith
tally-lookup agent rounds (result ∷ results) =
    let old = or_zero no_round (lookup result.agent rounds) in
    let rounds' = insert result.agent (count_result result old) rounds in
    ground (
      arith,
      tally-lookup agent rounds' results,
      lookup-insert result.agent agent (count_result result old) rounds,
      text_eq_iff result.agent agent,
    )

tally-Distinct :
    {F : Type 0} (rounds : List (Text × Round)) (results : List (Result F))
    → Distinct rounds
    → Distinct (tally rounds results)
unfolding tally
tally-Distinct rounds [] d = d
tally-Distinct rounds (result ∷ results) d =
    let r = count_result result (or_zero no_round (lookup result.agent rounds)) in
    tally-Distinct (insert result.agent r rounds) results (insert-Distinct result.agent r rounds d)

-- Every round that is stored has counted a result.
Counted : Text → List (Text × Round) → Type 0
Counted agent rounds = (r : Round) → lookup agent rounds ≡ some r → 0 < r.total

tally-Counted :
    {F : Type 0} (agent : Text) (rounds : List (Text × Round)) (results : List (Result F))
    → Counted agent rounds
    → Counted agent (tally rounds results)
unfolding tally Counted
tally-Counted agent rounds [] h = h
tally-Counted agent rounds (result ∷ results) h =
    let old = or_zero no_round (lookup result.agent rounds) in
    tally-Counted agent (insert result.agent (count_result result old) rounds) results (λ r e.
      ground (arith, h r, lookup-insert result.agent agent (count_result result old) rounds))

note_rounds-lookup :
    (threshold : ℤ) (now : Time) (agent : Text) (rounds : List (Text × Round)) (c : Connectivity)
    → Distinct rounds
    → connectivity_for agent (note_rounds threshold now rounds c) ≡ elim (lookup agent rounds) [
      | none ↦ connectivity_for agent c
      | some r ↦ note_round threshold now r (connectivity_for agent c)
    ]
unfolding note_rounds connectivity_for lookup
note_rounds-lookup threshold now agent [] c d = refl
note_rounds-lookup threshold now agent ((a, r) ∷ rounds) c d =
    let s = note_round threshold now r (or_zero no_connectivity (lookup a c)) in
    ground (
      arith,
      note_rounds-lookup threshold now agent rounds (insert a s c) d.1,
      lookup-insert a agent s c,
      text_eq_iff a agent,
    )

-- For every agent, one report is one round: an agent that the results do not mention keeps its state,
-- and any other takes a step on the number of its results and of those without a success, with a
-- threshold below one read as one. Neither the order of the results nor the other agents matter.
pub connectivity_for-update :
    {F : Type 0} (threshold : ℤ) (results : List (Result F)) (now : Time) (c : Connectivity)
    (agent : Text)
    → connectivity_for agent (update_agent_connectivity threshold results now c) ≡ (
        if (round_of agent results).total == 0
        then connectivity_for agent c
        else note_round
            (effective_threshold threshold)
            now
            (round_of agent results)
            (connectivity_for agent c))
unfolding update_agent_connectivity lookup Counted
connectivity_for-update threshold results now c agent =
    let rounds = tally [] results in
    let found =
      note_rounds-lookup (effective_threshold threshold) now agent rounds c
        (tally-Distinct [] results tt) in
    let counted = tally-lookup agent [] results in
    elim (Option-cases (lookup agent rounds)) [
      | inl missing ↦ ground (arith, found, counted)
      | inr (r, there) ↦
          ground (arith, found, counted, tally-Counted agent [] results (λ r e. cc) r there)
    ]
