-- ===== src/Storage/Store/Statuses.antt =====
-- internal/storage/storage.go: the statuses of agents after a heartbeat, and after `SaveResults`.
use mathlib.Core.Path.{subst}
use pingmon.Prelude.{
  Bool, true, false, List, [], ◌∷◌, Option, none, some, if◌then◌else◌, ◌≡◌, ◌⊎◌, inl, inr, refl, ap,
  ◌∙◌, sym, arith, Bool-cases, All, Any,
}
use pingmon.Prelude.Text.{Text, text_eq, text_eq_iff, is_empty, trim_space}
use pingmon.Prelude.Eq.{text_is_eq, insert, lookup, lookup-insert}
use pingmon.Model.{Time, Result, AgentStatus}
use pingmon.Storage.Store.{Statuses, SaveFaults}
use pingmon.Storage.Store.Operations.{heartbeats, upsert_status, save_statuses}

abbrev pub first_seen : Time → Option AgentStatus → Time
first_seen now none = now
first_seen now (some status) = status.first_seen_at

abbrev pub first_name : Text → Option AgentStatus → Text
first_name agent none = agent
first_name agent (some status) = status.agent

-- A status with the address and the instant, and with the name and the first instant of the one before
-- it.
abbrev pub IsSeen : Text → Text → Time → Option AgentStatus → AgentStatus → Type 0
IsSeen agent agent_ip now before status =
    (status.agent ≡ first_name agent before)
    × (status.agent_ip ≡ agent_ip)
    × (status.last_seen_at ≡ now)
    × (status.first_seen_at ≡ first_seen now before)

pub upsert_status-cases :
    (agent agent_ip other : Text) (now : Time) (statuses : Statuses)
    → (status : AgentStatus) × IsSeen agent agent_ip now (lookup agent statuses) status
      × (lookup other (upsert_status agent agent_ip now statuses)
          ≡ (if text_eq agent other then some status else lookup other statuses))
unfolding upsert_status
upsert_status-cases agent agent_ip other now statuses =
    elim (lookup agent statuses)
      as (λ known.
        (status : AgentStatus) × IsSeen agent agent_ip now known status
        × (lookup other (elim known [
          | none ↦
              insert agent
                (record {
                  agent = agent;
                  agent_ip = agent_ip;
                  first_seen_at = now;
                  last_seen_at = now;
                })
                statuses
          | some old ↦
              insert agent (record old { agent_ip = agent_ip; last_seen_at = now }) statuses
        ])
            ≡ (if text_eq agent other then some status else lookup other statuses))) [
              | none ↦ (_, (refl, refl, refl, refl), lookup-insert agent other _ statuses)
              | some old ↦ (_, (refl, refl, refl, refl), lookup-insert agent other _ statuses)
            ]

-- A name that does not stand for the agent: without the spaces around it, it is empty or another.
abbrev pub IsOther : Text → Text → Type 0
IsOther agent name = (is_empty (trim_space name) ≡ true) ⊎ (text_eq (trim_space name) agent ≡ false)

abbrev IsOtherBeat : Text → Text × Text → Type 0
IsOtherBeat agent beat = IsOther agent beat.0

abbrev IsBeatOf : Text → AgentStatus → Text × Text → Type 0
IsBeatOf agent status beat =
    (trim_space beat.0 ≡ agent) × (is_empty agent ≡ false) × (beat.1 ≡ status.agent_ip)

-- The status of an agent, last seen now, with the name and the first instant of the one before it.
abbrev pub IsRefreshed : Text → Time → Option AgentStatus → AgentStatus → Type 0
IsRefreshed agent now before status =
    (status.agent ≡ first_name agent before)
    × (status.last_seen_at ≡ now)
    × (status.first_seen_at ≡ first_seen now before)

IsNotedBy : List (Text × Text) → Text → Time → Option AgentStatus → Option AgentStatus → Type 0
IsNotedBy beats agent now before after =
    ((after ≡ before) × All (IsOtherBeat agent) beats)
    ⊎ ((status : AgentStatus) × (after ≡ some status)
        × IsRefreshed agent now before status
        × Any (IsBeatOf agent status) beats)

noted_later :
    (name agent_ip agent : Text) (now : Time) (beats : List (Text × Text))
    (before after : Option AgentStatus)
    → IsOther agent name
    → IsNotedBy beats agent now before after
    → IsNotedBy ((name, agent_ip) ∷ beats) agent now before after
unfolding IsNotedBy
noted_later name agent_ip agent now beats before after is_other (inl (e, others)) =
    inl (e, (is_other, others))
noted_later name agent_ip agent now beats before after is_other (inr (status, e, is, some_beat)) =
    inr (status, e, is, inr some_beat)

-- A heartbeat of the agent itself, and then the others.
noted_now :
    (name agent_ip agent : Text) (now : Time) (beats : List (Text × Text))
    (before after : Option AgentStatus) (status : AgentStatus)
    → trim_space name ≡ agent
    → is_empty agent ≡ false
    → IsSeen agent agent_ip now before status
    → IsNotedBy beats agent now (some status) after
    → IsNotedBy ((name, agent_ip) ∷ beats) agent now before after
unfolding IsNotedBy
noted_now name agent_ip agent now beats before after status is given seen (inl (e, others)) =
    inr (status, e, (seen.0, seen.2, seen.3), inl (is, given, sym seen.1))
noted_now name agent_ip agent now beats before after status is given seen
      (inr (last, e, r, some_beat)) =
    inr (last, e, (r.0 ∙ seen.0, r.1, r.2 ∙ seen.3), inr some_beat)

save_statuses-noted :
    (faults : SaveFaults) (now : Time) (beats : List (Text × Text)) (statuses : Statuses)
    (agent : Text)
    → (save_statuses faults now beats statuses).1 ≡ true
    → IsNotedBy beats agent now
        (lookup agent statuses)
        (lookup agent (save_statuses faults now beats statuses).0)
unfolding save_statuses
save_statuses-noted faults now [] statuses agent ok = unfold IsNotedBy in inl (refl, tt)
save_statuses-noted faults now ((name, agent_ip) ∷ beats) statuses agent ok =
    let trimmed = trim_space name in
    elim (Bool-cases (is_empty trimmed)) [
      | inl blank ↦ rw blank (
          noted_later name agent_ip agent now beats (lookup agent statuses) _ (inl blank)
            (save_statuses-noted faults now beats statuses agent (ground arith)))
      | inr named ↦ elim (Bool-cases (faults.status_fails trimmed)) [
        | inl failed ↦ absurd (ground arith)
        | inr fine ↦
            let (status, seen, looked) = upsert_status-cases trimmed agent_ip agent now statuses in
            let later =
              save_statuses-noted faults now beats (upsert_status trimmed agent_ip now statuses)
                agent (ground arith) in
            let after =
              lookup agent
                (save_statuses faults now beats (upsert_status trimmed agent_ip now statuses)).0 in
            let chosen : Bool → Option AgentStatus =
              λ b. if b then some status else lookup agent statuses in
            rw (named, fine)
              (elim (Bool-cases (text_eq trimmed agent)) [
                | inl same ↦
                    let is : trimmed ≡ agent = (text_eq_iff trimmed agent).0 same in
                    noted_now name agent_ip agent now beats (lookup agent statuses) after status is
                      (sym (ap is_empty is) ∙ named)
                      (subst (λ x. IsSeen x agent_ip now (lookup x statuses) status) is seen)
                      (subst (λ before. IsNotedBy beats agent now before after)
                        (looked ∙ ap chosen same) later)
                | inr other ↦
                    noted_later name agent_ip agent now beats (lookup agent statuses) after
                      (inr other)
                      (subst (λ before. IsNotedBy beats agent now before after)
                        (looked ∙ ap chosen other) later)
              ])
      ]
    ]

insert-All :
    (Q : Text → Type 0) (k v : Text) (m : List (Text × Text))
    → All (λ beat. Q beat.0) (insert k v m)
    → Q k × All (λ beat. Q beat.0) m
unfolding insert
insert-All Q k v [] holds = (holds.0, tt)
insert-All Q k v ((j, w) ∷ m) holds = elim (Bool-cases (text_eq j k)) [
  | inl same ↦
      let is : k ≡ j = sym ((text_eq_iff j k).0 same) in
      let found : Q k × All (λ beat. Q beat.0) m =
        subst (λ b. All (λ beat. Q beat.0) (if b then (k, v) ∷ m else (j, w) ∷ insert k v m)) same
          holds in
      (found.0, (subst Q is found.0, found.1))
  | inr other ↦
      let found : Q j × All (λ beat. Q beat.0) (insert k v m) =
        subst (λ b. All (λ beat. Q beat.0) (if b then (k, v) ∷ m else (j, w) ∷ insert k v m)) other
          holds in
      let rest = insert-All Q k v m found.1 in (rest.0, (found.0, rest.1))
]

insert-Any :
    (P : Text × Text → Type 0) (k v : Text) (m : List (Text × Text))
    → Any P (insert k v m)
    → P (k, v) ⊎ Any P m
unfolding insert
insert-Any P k v [] (inl at_k) = inl at_k
insert-Any P k v [] (inr none_left) = elim none_left [ ]
insert-Any P k v ((j, w) ∷ m) some_holds = elim (Bool-cases (text_eq j k)) [
  | inl same ↦
      let found : P (k, v) ⊎ Any P m =
        subst (λ b. Any P (if b then (k, v) ∷ m else (j, w) ∷ insert k v m)) same some_holds in
      elim found [ inl at_k ↦ inl at_k | inr rest ↦ inr (inr rest) ]
  | inr other ↦
      let found : P (j, w) ⊎ Any P (insert k v m) =
        subst (λ b. Any P (if b then (k, v) ∷ m else (j, w) ∷ insert k v m)) other some_holds in
      elim found [
        | inl at_j ↦ inr (inl at_j)
        | inr rest ↦ elim (insert-Any P k v m rest) [
          | inl at_k ↦ inl at_k
          | inr later ↦ inr (inr later)
        ]
      ]
]

module _ {F : Type 0} where
  heartbeats-All :
      (Q : Text → Type 0) (m : List (Text × Text)) (results : List (Result F))
      → All (λ beat. Q beat.0) (heartbeats m results)
      → All (λ beat. Q beat.0) m × All (λ r. Q r.agent) results
  unfolding heartbeats
  heartbeats-All Q m [] holds = (holds, tt)
  heartbeats-All Q m (r ∷ results) holds =
      let later = heartbeats-All Q (insert r.agent r.agent_ip m) results holds in
      let first = insert-All Q r.agent r.agent_ip m later.0 in (first.1, (first.0, later.1))

  heartbeats-Any :
      (P : Text × Text → Type 0) (m : List (Text × Text)) (results : List (Result F))
      → Any P (heartbeats m results)
      → Any P m ⊎ Any (λ r. P (r.agent, r.agent_ip)) results
  unfolding heartbeats
  heartbeats-Any P m [] some_holds = inl some_holds
  heartbeats-Any P m (r ∷ results) some_holds =
      elim (heartbeats-Any P (insert r.agent r.agent_ip m) results some_holds) [
        | inr later ↦ inr (inr later)
        | inl before ↦ elim (insert-Any P r.agent r.agent_ip m before) [
          | inl at_r ↦ inr (inl at_r)
          | inr rest ↦ inl rest
        ]
      ]

  -- No result is of the agent and its status is as before; or some are, and its status is refreshed,
  -- with the address of one of them.
  abbrev pub IsNoted :
      List (Result F) → Text → Time → Option AgentStatus → Option AgentStatus → Type 0
  IsNoted results agent now before after =
      ((after ≡ before) × All (λ r. IsOther agent r.agent) results)
      ⊎ ((status : AgentStatus) × (after ≡ some status)
          × IsRefreshed agent now before status
          × Any
              (λ r.
                (trim_space r.agent ≡ agent)
                × (is_empty agent ≡ false)
                × (r.agent_ip ≡ status.agent_ip))
              results)

  pub save_statuses-IsNoted :
      (faults : SaveFaults) (now : Time) (results : List (Result F)) (statuses : Statuses)
      (agent : Text)
      → (save_statuses faults now (heartbeats [] results) statuses).1 ≡ true
      → IsNoted results agent now
          (lookup agent statuses)
          (lookup agent (save_statuses faults now (heartbeats [] results) statuses).0)
  unfolding IsNotedBy
  save_statuses-IsNoted faults now results statuses agent ok =
      elim (save_statuses-noted faults now (heartbeats [] results) statuses agent ok) [
        | inl (e, others) ↦ inl (e, (heartbeats-All (IsOther agent) [] results others).1)
        | inr (status, e, refreshed, some_beat) ↦
            elim (heartbeats-Any (IsBeatOf agent status) [] results some_beat) [
              | inl none_before ↦ elim none_before [ ]
              | inr of_result ↦ inr (status, e, refreshed, of_result)
            ]
      ]
