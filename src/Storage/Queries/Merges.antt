-- ===== src/Storage/Queries/Merges.antt =====
-- internal/storage/storage.go: what the merged queries return, and in which order.
use mathlib.Core.List.{Perm, perm_middle, append-nil}
use mathlib.Core.List.Perm
use pingmon.Prelude.{
  ℕ, ◌≤◌, Bool, true, false, ◌&&◌, List, [], ◌∷◌, ◌++◌, Option, none, some, ltb, leb, if◌then◌else◌,
  ◌>>=◌, All, ◌≡◌, ◌||◌, ◌⊎◌, inl, inr, refl, arith, tests, Bool-cases,
}
use pingmon.Prelude.Text.{Text, is_empty}
use pingmon.Prelude.Sorting.{select, place, sort}
use pingmon.Model.{Time, Result}
use pingmon.Storage.Queries.{
  QueryFaults, is_newer, is_since, is_between, results_since, rollups_since, merge_results_desc,
  results_since_compacted, results_since_compacted_for_agent, results_since_for_agent,
  rollups_since_for_agent, server_results_since, is_of_agent,
}

place-Perm :
    {A : Type 0} (before : A → A → Bool) (x : A) (ys : List A) → Perm (place before x ys) (x ∷ ys)
unfolding place
place-Perm before x [] = Perm.rfl
place-Perm before x (y ∷ ys) = elim (Bool-cases (before y x)) [
  | inl later ↦ rw later (Perm.trans (Perm.cons y (place-Perm before x ys)) (Perm.swap x y ys))
  | inr here ↦ rw here Perm.rfl
]

sort-Perm : {A : Type 0} (before : A → A → Bool) (xs : List A) → Perm (sort before xs) xs
unfolding sort
sort-Perm before [] = Perm.rfl
sort-Perm before (x ∷ xs) =
    Perm.trans (place-Perm before x (sort before xs)) (Perm.cons x (sort-Perm before xs))

-- Whether a query that the server makes fails.
abbrev pub a_query_fails : QueryFaults → Time → Time → Bool
a_query_fails faults since raw_cutoff =
    (ltb since raw_cutoff && faults.rollups_fail) || faults.results_fail

module _ {F : Type 0} where
  -- By the instants.
  abbrev pub NewestFirst : List (Result F) → Type 0
  NewestFirst [] = Unit
  NewestFirst (x ∷ xs) = All (λ y. y.checked_at ≤ x.checked_at) xs × NewestFirst xs

  merge_results_desc-Perm : (a b : List (Result F)) → Perm (merge_results_desc a b) (a ++ b)
  unfolding merge_results_desc
  merge_results_desc-Perm [] b = Perm.rfl
  merge_results_desc-Perm (x ∷ a) [] = rw (append-nil a) Perm.rfl
  merge_results_desc-Perm (x ∷ a) (y ∷ b) = elim (Bool-cases (ltb y.checked_at x.checked_at)) [
    | inl newer ↦ rw (merge_results_desc, newer) (Perm.cons x (merge_results_desc-Perm a (y ∷ b)))
    | inr older ↦
        rw (merge_results_desc, older)
          (Perm.trans (Perm.cons y (merge_results_desc-Perm (x ∷ a) b))
            (Perm.symm (perm_middle (x ∷ a) b)))
  ]

  merge_results_desc-All :
      (P : Result F → Type 0) (a b : List (Result F))
      → All P a
      → All P b
      → All P (merge_results_desc a b)
  unfolding merge_results_desc
  merge_results_desc-All P [] b h k = k
  merge_results_desc-All P (x ∷ a) [] h k = h
  merge_results_desc-All P (x ∷ a) (y ∷ b) h k = elim (Bool-cases (ltb y.checked_at x.checked_at)) [
    | inl newer ↦ rw (merge_results_desc, newer) (h.0, merge_results_desc-All P a (y ∷ b) h.1 k)
    | inr older ↦ rw (merge_results_desc, older) (k.0, merge_results_desc-All P (x ∷ a) b h k.1)
  ]

  All_le :
      (m n : ℕ) (xs : List (Result F))
      → m ≤ n
      → All (λ y. y.checked_at ≤ m) xs
      → All (λ y. y.checked_at ≤ n) xs
  All_le m n [] h k = tt
  All_le m n (x ∷ xs) h k = (omega (arith, k.0), All_le m n xs h k.1)

  merge_results_desc-NewestFirst :
      (a b : List (Result F)) → NewestFirst a → NewestFirst b → NewestFirst (merge_results_desc a b)
  unfolding merge_results_desc
  merge_results_desc-NewestFirst [] b h k = k
  merge_results_desc-NewestFirst (x ∷ a) [] h k = h
  merge_results_desc-NewestFirst (x ∷ a) (y ∷ b) h k =
      elim (Bool-cases (ltb y.checked_at x.checked_at)) [
        | inl newer ↦
            let under : y.checked_at ≤ x.checked_at = omega (tests) in
            rw (merge_results_desc, newer)
              (
                merge_results_desc-All (λ r. r.checked_at ≤ x.checked_at) a (y ∷ b) h.0
                    (under, All_le y.checked_at x.checked_at b under k.0),
                merge_results_desc-NewestFirst a (y ∷ b) h.1 k,
              )
        | inr older ↦
            let under : x.checked_at ≤ y.checked_at = ground arith in
            rw (merge_results_desc, older)
              (
                merge_results_desc-All (λ r. r.checked_at ≤ y.checked_at) (x ∷ a) b
                    (under, All_le x.checked_at y.checked_at a under h.0) k.0,
                merge_results_desc-NewestFirst (x ∷ a) b h k.1,
              )
      ]

  -- The merge of two lists that are newest first is newest first and has the results of both.
  pub merge_results_desc_lem :
      (a b : List (Result F))
      → NewestFirst a
      → NewestFirst b
      → NewestFirst (merge_results_desc a b) × Perm (merge_results_desc a b) (a ++ b)
  merge_results_desc_lem a b h k =
      (merge_results_desc-NewestFirst a b h k, merge_results_desc-Perm a b)

  -- What is asked for, in any order.
  abbrev Answers : Option (List (Result F)) → Bool → List (Result F) → Type 0
  Answers answer fails asked =
      ((fails ≡ true) × (answer ≡ none))
      ⊎ ((fails ≡ false) × ((out : List (Result F)) × (answer ≡ some out) × Perm out asked))

  one_query-Answers :
      (fails : Bool) (asked : List (Result F))
      → Answers (if fails then none else some (sort is_newer asked)) fails asked
  one_query-Answers true asked = inl (refl, refl)
  one_query-Answers false asked = inr (refl, (sort is_newer asked, refl, sort-Perm is_newer asked))

  two_queries-Answers :
      (fails old_fails : Bool) (asked old : List (Result F))
      → Answers
          ((if old_fails then none else some (sort is_newer old)) >>= λ older.
            (if fails then none else some (sort is_newer asked)) >>= λ raw.
            some (merge_results_desc raw older))
          (old_fails || fails)
          (asked ++ old)
  two_queries-Answers true true asked old = inl (refl, refl)
  two_queries-Answers true false asked old = inl (refl, refl)
  two_queries-Answers false true asked old = inl (refl, refl)
  two_queries-Answers false false asked old = inr (
    refl,
    (
      merge_results_desc (sort is_newer asked) (sort is_newer old),
      refl,
      Perm.trans (merge_results_desc-Perm (sort is_newer asked) (sort is_newer old))
          (Perm.append (sort-Perm is_newer asked) (sort-Perm is_newer old)),
    ),
  )

  -- No agent stands for all of them.
  abbrev pub is_wanted : Text → Result F → Bool
  is_wanted agent r = is_empty agent || is_of_agent agent r

  abbrev pub asked_for : Time → Time → Text → List (Result F) → List (Result F) → List (Result F)
  asked_for since raw_cutoff agent results rollups =
      if ltb since raw_cutoff
      then select (λ r. is_wanted agent r && is_since raw_cutoff r) results
        ++ select (λ r. is_wanted agent r && is_between since raw_cutoff r) rollups
      else select (λ r. is_wanted agent r && is_since since r) results

  -- The server's query for the results of an agent, or of all, fails if and only if a query of the
  -- store that it makes fails. Else it returns, each once, the results since `since` where that is
  -- not before the cutoff, and otherwise the results since the cutoff and the rollups from `since` to it.
  pub server_results_since-cases :
      (faults : QueryFaults) (since raw_cutoff : Time) (agent : Text)
      (results rollups : List (Result F))
      → ((a_query_fails faults since raw_cutoff ≡ true)
          × (server_results_since faults since raw_cutoff agent results rollups ≡ none))
        ⊎ ((a_query_fails faults since raw_cutoff ≡ false)
            × ((out : List (Result F)) × (server_results_since faults since raw_cutoff agent results
                    rollups
                  ≡ some out)
                × Perm out (asked_for since raw_cutoff agent results rollups)))
  unfolding server_results_since results_since_compacted results_since_compacted_for_agent
      results_since results_since_for_agent rollups_since rollups_since_for_agent
  server_results_since-cases faults since raw_cutoff agent results rollups =
      elim (Bool-cases (ltb since raw_cutoff)) [
        | inl old ↦
            let after : leb raw_cutoff since ≡ false = ground arith in
            elim (Bool-cases (is_empty agent)) [
              | inl all ↦
                  rw (old, after, all)
                    (two_queries-Answers faults.results_fail faults.rollups_fail
                      (select (is_since raw_cutoff) results)
                      (select (is_between since raw_cutoff) rollups))
              | inr one ↦
                  rw (old, after, one)
                    (two_queries-Answers faults.results_fail faults.rollups_fail
                      (select (λ r. is_of_agent agent r && is_since raw_cutoff r) results)
                      (select (λ r. is_of_agent agent r && is_between since raw_cutoff r) rollups))
            ]
        | inr recent ↦ elim (Bool-cases (is_empty agent)) [
          | inl all ↦
              rw (recent, all)
                (one_query-Answers faults.results_fail (select (is_since since) results))
          | inr one ↦
              rw (recent, one)
                (one_query-Answers faults.results_fail
                  (select (λ r. is_of_agent agent r && is_since since r) results))
        ]
      ]
