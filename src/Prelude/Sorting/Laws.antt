-- ===== src/Prelude/Sorting/Laws.antt =====
-- WHERE and ORDER BY commute, and an ordered list is cut by an element or by two conditions.
use mathlib.Core.Path.{◌≡◌, refl, sym, ap, ◌∙◌}
use mathlib.Core.Logic.{◌≢◌, inl, inr}
use mathlib.Core.Bool.{Bool, true, false, ◌||◌}
use mathlib.Core.List.{List, [], ◌∷◌, ◌++◌}
use Prim.Native.Nat.{ℕ, zero, suc}
use native.Mathlib.Omega.{arith}
use pingmon.Prelude.Tests.{Bool-cases}
use pingmon.Prelude.Lists.{take, drop, All}
use pingmon.Prelude.Sorting.{
  select, select-All, select_none, select_all, place, sort, IsSorted, place-All, sort-All, IsOrder,
  DistinctIds,
}

module _ {A : Type 0} (id : A → ℕ) (before : A → A → Bool) (o : IsOrder id before) where
  All-before :
      (x y : A) (ys : List A)
      → before x y ≡ true
      → All (λ z. before y z ≡ true) ys
      → All (λ z. before x z ≡ true) ys
  All-before x y [] b h = tt
  All-before x y (z ∷ ys) b h = (o.trans x y z b h.0, All-before x y ys b h.1)

  place-IsSorted :
      (x : A) (ys : List A)
      → All (λ y. id x ≢ id y) ys
      → IsSorted before ys
      → IsSorted before (place before x ys)
  unfolding place
  place-IsSorted x [] d s = (tt, tt)
  place-IsSorted x (y ∷ ys) d s = elim (Bool-cases (before y x)) [
    | inl later ↦
        rw later
          (place-All before (λ z. before y z ≡ true) x ys later s.0, place-IsSorted x ys d.1 s.1)
    | inr here ↦
        let first = o.total x y d.0 here in rw here ((first, All-before x y ys first s.0), s)
  ]

  pub sort-IsSorted : (xs : List A) → DistinctIds id xs → IsSorted before (sort before xs)
  unfolding sort
  sort-IsSorted [] d = tt
  sort-IsSorted (x ∷ xs) d =
      place-IsSorted x (sort before xs) (sort-All before (λ y. id x ≢ id y) xs d.0)
        (sort-IsSorted xs d.1)

  place_first :
      (x : A) (ys : List A) → All (λ y. before y x ≡ false) ys → place before x ys ≡ x ∷ ys
  unfolding place
  place_first x [] h = refl
  place_first x (y ∷ ys) h = rw h.0 refl

  select-place_out :
      (p : A → Bool) (x : A) (ys : List A)
      → p x ≡ false
      → select p (place before x ys) ≡ select p ys
  unfolding place select
  select-place_out p x [] h = ground arith
  select-place_out p x (y ∷ ys) h = ground (arith, select-place_out p x ys h)

  -- What comes after an element that does not come before `x` does not either.
  none_before :
      (x y : A) (ys : List A)
      → before y x ≡ false
      → All (λ z. before y z ≡ true) ys
      → All (λ z. before z x ≡ false) ys
  none_before x y [] n h = tt
  none_before x y (z ∷ zs) n h = elim (Bool-cases (before z x)) [
    | inl first ↦ absurd (ground (arith, o.trans y z x h.0 first))
    | inr fine ↦ (fine, none_before x y zs n h.1)
  ]

  select-place :
      (p : A → Bool) (x : A) (ys : List A)
      → p x ≡ true
      → IsSorted before ys
      → select p (place before x ys) ≡ place before x (select p ys)
  unfolding place select
  select-place p x [] h s = ground arith
  select-place p x (y ∷ ys) h s = elim (Bool-cases (before y x)) [
    | inl later ↦ ground (arith, select-place p x ys h s.1)
    | inr here ↦
        let others = select-All (λ z. before z x ≡ false) p ys (none_before x y ys here s.0) in
        ground (arith, place_first x (select p ys) others)
  ]

  -- WHERE and ORDER BY commute.
  pub sort-select :
      (p : A → Bool) (xs : List A)
      → DistinctIds id xs
      → sort before (select p xs) ≡ select p (sort before xs)
  unfolding sort select
  sort-select p [] d = refl
  sort-select p (x ∷ xs) d = elim (Bool-cases (p x)) [
    | inl yes' ↦ rw yes' (
        ap (place before x) (sort-select p xs d.1)
        ∙ sym (select-place p x (sort before xs) yes' (sort-IsSorted xs d.1)))
    | inr no' ↦ rw no' (sort-select p xs d.1 ∙ sym (select-place_out p x (sort before xs) no'))
  ]

  pub select-IsSorted :
      (p : A → Bool) (xs : List A) → IsSorted before xs → IsSorted before (select p xs)
  unfolding select
  select-IsSorted p [] s = tt
  select-IsSorted p (x ∷ xs) s = elim (Bool-cases (p x)) [
    | inl yes' ↦ rw yes' (select-All (λ y. before x y ≡ true) p xs s.0, select-IsSorted p xs s.1)
    | inr no' ↦ rw no' (select-IsSorted p xs s.1)
  ]

  not_before_self : (x : A) → before x x ≡ false
  not_before_self x = elim (Bool-cases (before x x)) [
    | inl loop ↦ absurd (ground (arith, o.asym x x loop))
    | inr fine ↦ fine
  ]

  -- The last of a list, or `x` of an empty one.
  abbrev pub last_or : A → List A → A
  last_or x [] = x
  last_or x (y ∷ ys) = last_or y ys

  pub last_or-All : (P : A → Type 0) (x : A) (ys : List A) → P x → All P ys → P (last_or x ys)
  last_or-All P x [] p h = p
  last_or-All P x (y ∷ ys) p h = last_or-All P y ys h.0 h.1

  pub take-All : (P : A → Type 0) (n : ℕ) (xs : List A) → All P xs → All P (take n xs)
  take-All P zero xs h = tt
  take-All P (suc n) [] h = tt
  take-All P (suc n) (x ∷ xs) h = (h.0, take-All P n xs h.1)

  -- What comes after the last of the first page is the rest.
  pub select-last :
      (n : ℕ) (x : A) (xs : List A)
      → IsSorted before (x ∷ xs)
      → select (before (last_or x (take n xs))) (x ∷ xs) ≡ drop n xs
  unfolding select
  select-last zero x xs s = rw (not_before_self x) (select_all (before x) xs s.0)
  select-last (suc n) x [] s = rw (not_before_self x) refl
  select-last (suc n) x (y ∷ ys) s =
      let last = last_or y (take n ys) in
      let first : before x last ≡ true =
        last_or-All (λ z. before x z ≡ true) y (take n ys) s.0.0
          (take-All (λ z. before x z ≡ true) n ys s.0.1) in
      rw (o.asym x last first) (select-last n y ys s.1)

  none_of :
      (u v : A → Bool) (x : A) (xs : List A)
      → ((x y : A) → u x ≡ true → v y ≡ true → before x y ≡ true)
      → v x ≡ true
      → All (λ y. before x y ≡ true) xs
      → All (λ y. u y ≡ false) xs
  none_of u v x [] f l h = tt
  none_of u v x (y ∷ ys) f l h = elim (Bool-cases (u y)) [
    | inl upper ↦ absurd (ground (arith, f y x upper l, o.asym x y h.0))
    | inr fine ↦ (fine, none_of u v x ys f l h.1)
  ]

  -- Two parts of which the first comes before the second.
  pub select-parts :
      (u v : A → Bool) (xs : List A)
      → ((x y : A) → u x ≡ true → v y ≡ true → before x y ≡ true)
      → IsSorted before xs
      → select (λ x. u x || v x) xs ≡ select u xs ++ select v xs
  unfolding select
  select-parts u v [] f s = refl
  select-parts u v (x ∷ xs) f s =
      let ih = select-parts u v xs f s.1 in
      elim (Bool-cases (u x)) [
        | inl upper ↦ elim (Bool-cases (v x)) [
          | inl both ↦ absurd (ground (arith, f x x upper both, not_before_self x))
          | inr fine ↦ rw (upper, fine) (ap (◌∷◌ x) ih)
        ]
        | inr under ↦ elim (Bool-cases (v x)) [
          | inr neither ↦ rw (under, neither) ih
          | inl lower ↦
              let nothing : select u xs ≡ [] = select_none u xs (none_of u v x xs f lower s.0) in
              rw (under, lower) (ground (arith, ih, nothing))
        ]
      ]
