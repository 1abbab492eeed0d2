-- ===== src/Storage/Stream/Order.antt =====
-- internal/storage/stream.go: the texts of instants are in a strict total order, and so are rows.
use pingmon.Prelude.{
  ℕ, ◌/◌, Bool, true, false, ◌&&◌, ◌||◌, [], ◌∷◌, ◌≡◌, ◌≢◌, ◌↔◌, inl, inr, refl, sym, ◌∙◌, arith,
  ltb, ◌==◌, Bool-cases, none, some,
}
use pingmon.Prelude.Text.{Text, text_eq_iff}
use pingmon.Prelude.Sorting.{IsOrder}
use pingmon.Model.{Time, second}
use pingmon.Storage.Stamps.{suffix, text_lt, stamp_lt}
use pingmon.Storage.Stream.{StreamRow, stamp_eq, is_before, after_cursor}

text_lt-asym : (s t : Text) → text_lt s t ≡ true → text_lt t s ≡ false
unfolding text_lt
text_lt-asym [] [] h = ground arith
text_lt-asym [] (d ∷ t) h = refl
text_lt-asym (c ∷ s) [] h = ground arith
text_lt-asym (c ∷ s) (d ∷ t) h = ground (arith, text_lt-asym s t)

text_lt_trans : (s t u : Text) → text_lt s t ≡ true → text_lt t u ≡ true → text_lt s u ≡ true
unfolding text_lt
text_lt_trans [] [] u h k = absurd (ground arith)
text_lt_trans s (d ∷ t) [] h k = absurd (ground arith)
text_lt_trans [] (d ∷ t) (e ∷ u) h k = refl
text_lt_trans (c ∷ s) [] u h k = absurd (ground arith)
text_lt_trans (c ∷ s) (d ∷ t) (e ∷ u) h k = ground (arith, text_lt_trans s t u)

text_lt-total : (s t : Text) → text_lt s t ≡ false → text_lt t s ≡ false → s ≡ t
unfolding text_lt
text_lt-total [] [] h k = refl
text_lt-total [] (d ∷ t) h k = absurd (ground arith)
text_lt-total (c ∷ s) [] h k = absurd (ground arith)
text_lt-total (c ∷ s) (d ∷ t) h k = ground (arith, text_lt-total s t)

pub stamp_lt-asym : (a b : Time) → stamp_lt a b ≡ true → stamp_lt b a ≡ false
unfolding stamp_lt
stamp_lt-asym a b h = ground (arith, text_lt-asym (suffix a) (suffix b))

abbrev pair_lt : ℕ → Text → ℕ → Text → Bool
pair_lt m s n t = ltb m n || (m == n && text_lt s t)

pair_lt_trans :
    (m n k : ℕ) (s t u : Text)
    → pair_lt m s n t ≡ true
    → pair_lt n t k u ≡ true
    → pair_lt m s k u ≡ true
pair_lt_trans m n k s t u h i = ground (arith, text_lt_trans s t u)

pub stamp_lt_trans :
    (a b c : Time) → stamp_lt a b ≡ true → stamp_lt b c ≡ true → stamp_lt a c ≡ true
unfolding stamp_lt
stamp_lt_trans a b c h k =
    pair_lt_trans (a / second) (b / second) (c / second) (suffix a) (suffix b) (suffix c) h k

pub stamp_eq_iff :
    (a b : Time) → (stamp_eq a b ≡ true) ↔ ((a / second ≡ b / second) × (suffix a ≡ suffix b))
unfolding stamp_eq
stamp_eq_iff a b = ground (arith, text_eq_iff (suffix a) (suffix b))

stamp_eq-lt :
    (a b c : Time)
    → stamp_eq a b ≡ true
    → (stamp_lt a c ≡ stamp_lt b c) × (stamp_lt c a ≡ stamp_lt c b)
unfolding stamp_lt
stamp_eq-lt a b c h = let same = (stamp_eq_iff a b).0 h in ground (arith, same)

pub stamp_lt-total :
    (a b : Time) → stamp_lt a b ≡ false → stamp_lt b a ≡ false → stamp_eq a b ≡ true
unfolding stamp_lt
stamp_lt-total a b h k = ground (arith, stamp_eq_iff a b, text_lt-total (suffix a) (suffix b))

stamp_eq_sym : (a b : Time) → stamp_eq a b ≡ stamp_eq b a
stamp_eq_sym a b = ground (arith, stamp_eq_iff a b, stamp_eq_iff b a)

stamp_eq_trans : (a b c : Time) → stamp_eq a b ≡ true → stamp_eq b c ≡ true → stamp_eq a c ≡ true
stamp_eq_trans a b c h k =
    let x = (stamp_eq_iff a b).0 h in
    let y = (stamp_eq_iff b c).0 k in (stamp_eq_iff a c).1 (x.0 ∙ y.0, x.1 ∙ y.1)

pub stamp_lt_self : (a : Time) → stamp_lt a a ≡ false
stamp_lt_self a = elim (Bool-cases (stamp_lt a a)) [
  | inl loop ↦ absurd (ground (arith, stamp_lt-asym a a loop))
  | inr fine ↦ fine
]

-- What is under a bound is under what is not.
pub stamp_lt-below :
    (a b c : Time) → stamp_lt a b ≡ true → stamp_lt c b ≡ false → stamp_lt a c ≡ true
stamp_lt-below a b c h k = elim (Bool-cases (stamp_lt a c)) [
  | inl fine ↦ fine
  | inr other ↦ elim (Bool-cases (stamp_lt c a)) [
    | inl under ↦ absurd (ground (arith, stamp_lt_trans c a b under h))
    | inr level ↦ absurd (ground (arith, (stamp_eq-lt c a b (stamp_lt-total c a level other)).0))
  ]
]

stamp_eq-not_lt :
    (a b : Time) → stamp_eq a b ≡ true → (stamp_lt a b ≡ false) × (stamp_lt b a ≡ false)
stamp_eq-not_lt a b h =
    let moved = stamp_eq-lt a b b h in (moved.0 ∙ stamp_lt_self b, moved.1 ∙ stamp_lt_self b)

-- `checked_at < ? OR (checked_at = ? AND id < ?)`.
abbrev older : Time → ℕ → Time → ℕ → Bool
older t i u j = stamp_lt t u || (stamp_eq t u && ltb i j)

older-asym : (t : Time) (i : ℕ) (u : Time) (j : ℕ) → older t i u j ≡ true → older u j t i ≡ false
older-asym t i u j h = ground (arith, stamp_lt-asym t u, stamp_eq-not_lt t u, stamp_eq_sym t u)

older_trans :
    (t : Time) (i : ℕ) (u : Time) (j : ℕ) (v : Time) (k : ℕ)
    → older t i u j ≡ true
    → older u j v k ≡ true
    → older t i v k ≡ true
older_trans t i u j v k h l = elim (Bool-cases (stamp_lt t u)) [
  | inl earlier ↦ elim (Bool-cases (stamp_lt u v)) [
    | inl more ↦ ground (arith, stamp_lt_trans t u v earlier more)
    | inr same ↦ ground (arith, stamp_eq-lt u v t)
  ]
  | inr level ↦ elim (Bool-cases (stamp_lt u v)) [
    | inl more ↦ ground (arith, stamp_eq-lt t u v)
    | inr same ↦ ground (arith, stamp_eq_trans t u v)
  ]
]

older-total :
    (t : Time) (i : ℕ) (u : Time) (j : ℕ) → i ≢ j → older u j t i ≡ false → older t i u j ≡ true
older-total t i u j d h = ground (arith, stamp_lt-total t u, stamp_eq_sym t u)

module _ {F : Type 0} where
  pub is_before-IsOrder : IsOrder {A = StreamRow F} (λ r. r.id) is_before
  unfolding is_before
  is_before-IsOrder = record {
    asym = λ x y h. older-asym y.result.checked_at y.id x.result.checked_at x.id h;
    trans = λ x y z h k.
        older_trans z.result.checked_at z.id y.result.checked_at y.id x.result.checked_at x.id k h;
    total =
        λ x y d h. older-total y.result.checked_at y.id x.result.checked_at x.id (λ e. d (sym e)) h;
  }

  -- The cursor is the order.
  pub after_cursor-is_before :
      (last row : StreamRow F) → after_cursor (some last) row ≡ is_before last row
  unfolding is_before after_cursor
  after_cursor-is_before last row = refl

  pub after_cursor-none : (row : StreamRow F) → after_cursor none row ≡ true
  unfolding after_cursor
  after_cursor-none row = refl
