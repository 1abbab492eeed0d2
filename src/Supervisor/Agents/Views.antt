-- ===== src/Supervisor/Agents/Views.antt =====
-- cmd/supervisor/main.go: the agents that `handleAgents` lists, and their state.
use mathlib.Core.Path.{subst}
use pingmon.Prelude.{Any}
use pingmon.Prelude.{
  Bool, false, List, [], ◌∷◌, Option, none, some, ◌≡◌, ◌⊎◌, inl, inr, refl, ap, sym, arith,
  Bool-cases,
}
use pingmon.Prelude.Int.{pos, ◌-ℤ◌, ◌*ℤ◌, ◌≤ℤ◌, wrap64}
use pingmon.Prelude.Text.{Text, text_eq}
use pingmon.Prelude.Eq.{text_is_eq, lookup}
use pingmon.Prelude.Sorting.{place, sort}
use pingmon.Model.{Time, second, AgentStatus}
use pingmon.Config.Defs.{Config}
use pingmon.Storage.Store.{Statuses}
use pingmon.Storage.Store.Operations.{all_statuses}
use pingmon.Supervisor.Ranges.{agent_offline_after_seconds}
use pingmon.Supervisor.Connectivity.{
  Status, unset, checking, healthy, failing, Connectivity, connectivity_for,
}
use pingmon.Storage.Store.Statuses.{first_name}
use pingmon.Supervisor.Agents.{
  AgentViewState, online, degraded, AgentStatusView, is_offline, agent_view, agent_views,
}

place-Any :
    {A : Type 0} (P : A → Type 0) (before : A → A → Bool) (x : A) (ys : List A)
    → Any P (x ∷ ys)
    → Any P (place before x ys)
unfolding place
place-Any P before x [] some_holds = some_holds
place-Any P before x (y ∷ ys) some_holds = elim (Bool-cases (before y x)) [
  | inr here ↦ rw here some_holds
  | inl later ↦ rw later (elim some_holds [
    | inl at_x ↦ inr (place-Any P before x ys (inl at_x))
    | inr (inl at_y) ↦ inl at_y
    | inr (inr rest) ↦ inr (place-Any P before x ys (inr rest))
  ])
]

pub sort-Any :
    {A : Type 0} (P : A → Type 0) (before : A → A → Bool) (xs : List A)
    → Any P xs
    → Any P (sort before xs)
unfolding sort
sort-Any P before [] some_holds = elim some_holds [ ]
sort-Any P before (x ∷ xs) (inl at_x) = place-Any P before x (sort before xs) (inl at_x)
sort-Any P before (x ∷ xs) (inr rest) =
    place-Any P before x (sort before xs) (inr (sort-Any P before xs rest))

pub all_statuses-lookup :
    (agent : Text) (status : AgentStatus) (statuses : Statuses)
    → lookup agent statuses ≡ some status
    → Any (λ listed. listed ≡ status) (all_statuses statuses)
unfolding lookup
all_statuses-lookup agent status [] e = absurd (ground arith)
all_statuses-lookup agent status ((name, first) ∷ statuses) e =
    elim (Bool-cases (text_eq name agent)) [
      | inl same ↦ inl (ground arith)
      | inr other ↦ inr (all_statuses-lookup agent status statuses (ground arith))
    ]

pub agent_views-Any :
    (cfg : Config) (now : Time) (connectivity : Connectivity) (status : AgentStatus)
    (statuses : List AgentStatus)
    → Any (λ listed. listed ≡ status) statuses
    → Any
        (λ view. view ≡ agent_view cfg now connectivity status)
        (agent_views cfg now connectivity statuses)
unfolding agent_views
agent_views-Any cfg now connectivity status [] some_is = elim some_is [ ]
agent_views-Any cfg now connectivity status (first ∷ statuses) (inl is) =
    inl (ap (agent_view cfg now connectivity) is)
agent_views-Any cfg now connectivity status (first ∷ statuses) (inr rest) =
    inr (agent_views-Any cfg now connectivity status statuses rest)

-- Online, or degraded.
abbrev pub IsUp : AgentViewState → Type 0
IsUp state = (state ≡ online) ⊎ (state ≡ degraded)

not_offline :
    (status : Status)
    → IsUp
        (elim status [ unset ↦ online | checking ↦ online | healthy ↦ online | failing ↦ degraded ])
not_offline unset = inl refl
not_offline checking = inl refl
not_offline healthy = inl refl
not_offline failing = inr refl

agent_view-IsUp :
    (cfg : Config) (now : Time) (connectivity : Connectivity) (status : AgentStatus)
    → (pos now -ℤ pos status.last_seen_at) ≤ℤ wrap64 (agent_offline_after_seconds cfg *ℤ pos second)
    → IsUp (agent_view cfg now connectivity status).state
unfolding agent_view is_offline
agent_view-IsUp cfg now connectivity status recent =
    let up : is_offline now (agent_offline_after_seconds cfg) status.last_seen_at ≡ false =
      ground arith in
    rw up (not_offline (connectivity_for status.agent connectivity).status)

pub view_is :
    (cfg : Config) (now : Time) (connectivity : Connectivity) (status : AgentStatus)
    (view : AgentStatusView)
    → (pos now -ℤ pos status.last_seen_at) ≤ℤ wrap64 (agent_offline_after_seconds cfg *ℤ pos second)
    → view ≡ agent_view cfg now connectivity status
    → (view.status ≡ status) × IsUp view.state
unfolding agent_view
view_is cfg now connectivity status view recent is = (
  ap (λ v. v.status) is,
  subst IsUp (sym (ap (λ v. v.state) is)) (agent_view-IsUp cfg now connectivity status recent),
)

pub first_name_of :
    (agent : Text) (before : Option AgentStatus)
    → ((status : AgentStatus) → before ≡ some status → status.agent ≡ agent)
    → first_name agent before ≡ agent
first_name_of agent none keyed = refl
first_name_of agent (some status) keyed = keyed status refl
