-- ===== src/Agent/Workers/Tasks.antt =====
-- cmd/agent/main.go: the tasks that the workers of `probeTasks` hold, as the workers change.
use mathlib.Core.List.{Perm, perm_middle, perm_append_singleton}
use mathlib.Core.List.Perm
use mathlib.Core.Option.{some-injective}
use mathlib.Core.Path.{subst}
use pingmon.Prelude.{
  ℕ, zero, suc, List, [], ◌∷◌, ◌++◌, some, get_elem?, set_elem, All, ◌≡◌, refl, ap, ◌∙◌, sym, arith,
}
use pingmon.Agent.Workers.{Worker, idle, received, probing, ended, idle_workers}
use pingmon.Agent.Workers.Steps.{HasEnded}

module _ {T : Type 0} where
  abbrev pub task_of : Worker T → List T
  task_of idle = []
  task_of (received task) = task ∷ []
  task_of (probing task) = task ∷ []
  task_of ended = []

  abbrev pub owned : List (Worker T) → List T
  owned [] = []
  owned (w ∷ ws) = task_of w ++ owned ws

  abbrev pub IsActive : Worker T → Type 0
  IsActive idle = Unit
  IsActive (received task) = Unit
  IsActive (probing task) = Unit
  IsActive ended = ⊥

  -- A worker that gets a task.
  pub owned-set_elem_gained :
      (ws : List (Worker T)) (i : ℕ) (w v : Worker T) (task : T)
      → get_elem? ws i ≡ some w
      → task_of w ≡ []
      → task_of v ≡ task ∷ []
      → Perm (owned (set_elem ws i v)) (task ∷ owned ws)
  owned-set_elem_gained [] i w v task at_i none_before one_after = absurd (ground arith)
  owned-set_elem_gained (x ∷ ws) zero w v task at_i none_before one_after =
      rw (one_after, ap task_of (some-injective x w at_i) ∙ none_before) Perm.rfl
  owned-set_elem_gained (x ∷ ws) (suc i) w v task at_i none_before one_after =
      Perm.trans
        (Perm.append_left (task_of x)
          (owned-set_elem_gained ws i w v task at_i none_before one_after))
        (perm_middle (task_of x) (owned ws))

  -- A worker that gives its task away.
  pub owned-set_elem_lost :
      (ws : List (Worker T)) (i : ℕ) (w v : Worker T) (task : T)
      → get_elem? ws i ≡ some w
      → task_of w ≡ task ∷ []
      → task_of v ≡ []
      → Perm (task ∷ owned (set_elem ws i v)) (owned ws)
  owned-set_elem_lost [] i w v task at_i one_before none_after = absurd (ground arith)
  owned-set_elem_lost (x ∷ ws) zero w v task at_i one_before none_after =
      rw (none_after, ap task_of (some-injective x w at_i) ∙ one_before) Perm.rfl
  owned-set_elem_lost (x ∷ ws) (suc i) w v task at_i one_before none_after =
      Perm.trans (Perm.symm (perm_middle (task_of x) (owned (set_elem ws i v)))) (
        Perm.append_left (task_of x) (owned-set_elem_lost ws i w v task at_i one_before none_after))

  pub owned-set_elem_same :
      (ws : List (Worker T)) (i : ℕ) (w v : Worker T)
      → get_elem? ws i ≡ some w
      → task_of w ≡ task_of v
      → owned (set_elem ws i v) ≡ owned ws
  owned-set_elem_same [] i w v at_i same = absurd (ground arith)
  owned-set_elem_same (x ∷ ws) zero w v at_i same =
      ap (λ held. held ++ owned ws) (sym (ap task_of (some-injective x w at_i) ∙ same))
  owned-set_elem_same (x ∷ ws) (suc i) w v at_i same =
      ap (◌++◌ (task_of x)) (owned-set_elem_same ws i w v at_i same)

  pub owned-idle_workers : (n : ℕ) → owned (idle_workers n) ≡ []
  owned-idle_workers zero = refl
  owned-idle_workers (suc n) = owned-idle_workers n

  pub owned_of_ended : (ws : List (Worker T)) → All HasEnded ws → owned ws ≡ []
  owned_of_ended [] all_ended = refl
  owned_of_ended (w ∷ ws) all_ended = rw (all_ended.0) (owned_of_ended ws all_ended.1)

  pub get_elem?-All :
      (P : Worker T → Type 0) (ws : List (Worker T)) (i : ℕ) (w : Worker T)
      → All P ws
      → get_elem? ws i ≡ some w
      → P w
  get_elem?-All P [] i w holds at_i = absurd (ground arith)
  get_elem?-All P (x ∷ ws) zero w holds at_i = subst P (some-injective x w at_i) holds.0
  get_elem?-All P (x ∷ ws) (suc i) w holds at_i = get_elem?-All P ws i w holds.1 at_i

  pub set_elem-All :
      (P : Worker T → Type 0) (ws : List (Worker T)) (i : ℕ) {v : Worker T}
      → All P ws
      → P v
      → All P (set_elem ws i v)
  set_elem-All P [] i holds at_v = tt
  set_elem-All P (x ∷ ws) zero holds at_v = (at_v, holds.1)
  set_elem-All P (x ∷ ws) (suc i) holds at_v = (holds.0, set_elem-All P ws i holds.1 at_v)

  -- Where all tasks are.
  abbrev pub places : List T → List (Worker T) → List T → List T → List T
  places probed workers dropped waiting = probed ++ (owned workers ++ (dropped ++ waiting))

  pub places_received :
      (probed : List T) (ws : List (Worker T)) (dropped rest : List T) (i : ℕ) (task : T)
      → get_elem? ws i ≡ some idle
      → Perm
          (places probed (set_elem ws i (received task)) dropped rest)
          (places probed ws dropped (task ∷ rest))
  places_received probed ws dropped rest i task at_i = Perm.append_left probed (
      Perm.trans
        (Perm.append_right (dropped ++ rest)
          (owned-set_elem_gained ws i idle (received task) task at_i refl refl))
        (Perm.trans (Perm.symm (perm_middle (owned ws) (dropped ++ rest)))
          (Perm.append_left (owned ws) (Perm.symm (perm_middle dropped rest)))))

  pub places_dropped :
      (probed : List T) (ws : List (Worker T)) (dropped waiting : List T) (i : ℕ) (task : T)
      → get_elem? ws i ≡ some (received task)
      → Perm
          (places probed (set_elem ws i ended) (task ∷ dropped) waiting)
          (places probed ws dropped waiting)
  places_dropped probed ws dropped waiting i task at_i = Perm.append_left probed (
      Perm.trans (perm_middle (owned (set_elem ws i ended)) (dropped ++ waiting)) (
        Perm.append_right (dropped ++ waiting)
          (owned-set_elem_lost ws i (received task) ended task at_i refl refl)))

  pub places_probed :
      (probed : List T) (ws : List (Worker T)) (dropped waiting : List T) (i : ℕ) (task : T)
      → get_elem? ws i ≡ some (probing task)
      → Perm
          (places (probed ++ task ∷ []) (set_elem ws i idle) dropped waiting)
          (places probed ws dropped waiting)
  places_probed probed ws dropped waiting i task at_i =
      let after : List T = owned (set_elem ws i idle) ++ (dropped ++ waiting) in
      Perm.trans (Perm.append_right after (perm_append_singleton task probed)) (
        Perm.trans (Perm.symm (perm_middle probed after)) (
          Perm.append_left probed (
            Perm.append_right (dropped ++ waiting)
              (owned-set_elem_lost ws i (probing task) idle task at_i refl refl))))

pub idle_workers-IsActive : (T : Type 0) (n : ℕ) → All IsActive (idle_workers {T = T} n)
idle_workers-IsActive T zero = tt
idle_workers-IsActive T (suc n) = (tt, idle_workers-IsActive T n)
