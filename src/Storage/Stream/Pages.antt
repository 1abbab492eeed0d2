-- ===== src/Storage/Stream/Pages.antt =====
-- internal/storage/stream.go: the pages of a window are the rows of one ordered query.
use mathlib.Core.Path.{subst}
use pingmon.Prelude.{
  ℕ, zero, suc, ◌≤◌, ◌<◌, Bool, true, false, not, ◌&&◌, List, [], ◌∷◌, ◌++◌, Option, none, some,
  ltb, if◌then◌else◌, length, take, drop, take-append-drop, take_all, List-cases, length-take_of_le,
  tests, lt→ltb, length-drop, ◌≡◌, ◌≢◌, inl, inr, refl, sym, ap, ◌∙◌, arith, All, Bool-cases,
  ltb_ge,
}
use pingmon.Prelude.Text.{Text}
use pingmon.Prelude.Sorting.{
  select, select-ext, select_kept, select-All, select-select, sort, IsSorted, DistinctIds,
}
use pingmon.Prelude.Sorting.Laws.{
  sort-IsSorted, sort-select, select-IsSorted, last_or, last_or-All, take-All, select-last,
}
use pingmon.Model.{Time, Result}
use pingmon.Storage.Stream.{
  StreamRow, is_before, in_window, after_cursor, query_page, last_row, deliver, stream_window,
}
use pingmon.Storage.Stream.Order.{is_before-IsOrder, after_cursor-is_before, after_cursor-none}

pub DistinctIds-select :
    {A : Type 0} (id : A → ℕ) (p : A → Bool) (xs : List A)
    → DistinctIds id xs
    → DistinctIds id (select p xs)
unfolding select
DistinctIds-select id p [] d = tt
DistinctIds-select id p (x ∷ xs) d = elim (Bool-cases (p x)) [
  | inl kept ↦ rw kept (select-All (λ y. id x ≢ id y) p xs d.0, DistinctIds-select id p xs d.1)
  | inr gone ↦ rw gone (DistinctIds-select id p xs d.1)
]

module _ {F : Type 0} (accepts : List (Result F) → Result F → Bool) where
  pub deliver-append :
      (out : List (Result F)) (xs ys : List (StreamRow F))
      → deliver accepts out (xs ++ ys) ≡ (
          if (deliver accepts out xs).1
          then deliver accepts (deliver accepts out xs).0 ys
          else deliver accepts out xs)
  unfolding deliver
  deliver-append out [] ys = refl
  deliver-append out (x ∷ xs) ys = ground (arith, deliver-append (out ++ x.result ∷ []) xs ys)

module _ {F : Type 0} (since before : Time) (agent : Text) (rows : List (StreamRow F))
    (d : DistinctIds (λ r. r.id) rows) where
  -- The rows of the window, in their order.
  abbrev pub window : List (StreamRow F)
  window = sort is_before (select (in_window since before agent) rows)

  abbrev pub remaining : Option (StreamRow F) → List (StreamRow F)
  remaining cursor = select (after_cursor cursor) window

  window-IsSorted : IsSorted is_before window
  window-IsSorted =
      sort-IsSorted (λ r. r.id) is_before is_before-IsOrder
        (select (in_window since before agent) rows)
        (DistinctIds-select (λ r. r.id) (in_window since before agent) rows d)

  query_page-take :
      (cursor : Option (StreamRow F)) (limit : ℕ)
      → query_page since before agent cursor limit rows ≡ take limit (remaining cursor)
  unfolding query_page
  query_page-take cursor limit =
      ap (λ xs. take limit (sort is_before xs))
        (sym (select-select (after_cursor cursor) (in_window since before agent) rows))
      ∙ ap (take limit) (
          sort-select (λ r. r.id) is_before is_before-IsOrder (after_cursor cursor)
            (select (in_window since before agent) rows)
            (DistinctIds-select (λ r. r.id) (in_window since before agent) rows d))

  after_cursor_trans :
      (cursor : Option (StreamRow F)) (l r : StreamRow F)
      → after_cursor cursor l ≡ true
      → (after_cursor cursor r && is_before l r) ≡ is_before l r
  after_cursor_trans none l r h = rw (after_cursor-none r) refl
  after_cursor_trans (some c) l r h =
      let later : is_before c l ≡ true = sym (after_cursor-is_before c l) ∙ h in
      elim (Bool-cases (is_before l r)) [
        | inl further ↦
            rw (after_cursor-is_before c r, is_before-IsOrder.trans c l r later further, further)
              refl
        | inr other ↦ ground (arith, other)
      ]

  last_row-last_or :
      (x : StreamRow F) (xs : List (StreamRow F))
      → last_row (some x) xs ≡ some (last_or (λ r. r.id) is_before is_before-IsOrder x xs)
  last_row-last_or x [] = refl
  last_row-last_or x (y ∷ ys) = last_row-last_or y ys

  -- The rows left after a full page.
  remaining-last_or :
      (cursor : Option (StreamRow F)) (n : ℕ) (x : StreamRow F) (xs : List (StreamRow F))
      → remaining cursor ≡ x ∷ xs
      → remaining (some (last_or (λ r. r.id) is_before is_before-IsOrder x (take n xs))) ≡ drop n xs
  remaining-last_or cursor n x xs e =
      let last = last_or (λ r. r.id) is_before is_before-IsOrder x (take n xs) in
      let kept : All (λ r. after_cursor cursor r ≡ true) (x ∷ xs) =
        subst (λ ys. All (λ r. after_cursor cursor r ≡ true) ys) e
          (select_kept (after_cursor cursor) window) in
      let after : after_cursor cursor last ≡ true =
        last_or-All (λ r. r.id) is_before is_before-IsOrder (λ r. after_cursor cursor r ≡ true) x
          (take n xs) kept.0
          (take-All (λ r. r.id) is_before is_before-IsOrder (λ r. after_cursor cursor r ≡ true) n xs
            kept.1) in
      let sorted : IsSorted is_before (x ∷ xs) = subst (IsSorted is_before) e (
        select-IsSorted (λ r. r.id) is_before is_before-IsOrder (after_cursor cursor) window
          window-IsSorted) in
      select-ext (after_cursor (some last)) (λ r. after_cursor cursor r && is_before last r) window
        (λ r. after_cursor-is_before last r ∙ sym (after_cursor_trans cursor last r after))
      ∙ sym (select-select (is_before last) (after_cursor cursor) window)
      ∙ ap (select (is_before last)) e
      ∙ select-last (λ r. r.id) is_before is_before-IsOrder n x xs sorted

  -- After a page.
  abbrev next_page : List (Result F) × Bool → List (Result F) × Bool → Bool → List (Result F) × Bool
  next_page r rest short = if not r.1 then (r.0, false) else if short then (r.0, true) else rest

  next_page_short :
      (r rest : List (Result F) × Bool) (short : Bool) → short ≡ true → next_page r rest short ≡ r
  next_page_short (out, true) rest short e = rw e refl
  next_page_short (out, false) rest short e = refl

  next_page_full :
      (r rest : List (Result F) × Bool) (short : Bool)
      → short ≡ false
      → next_page r rest short ≡ (if r.1 then rest else r)
  next_page_full (out, true) rest short e = rw e refl
  next_page_full (out, false) rest short e = refl

  module _ (accepts : List (Result F) → Result F → Bool) (limit fuel : ℕ)
      (cursor : Option (StreamRow F)) (out : List (Result F)) (page : List (StreamRow F))
      (e : query_page since before agent cursor limit rows ≡ page) where
    abbrev delivered : List (Result F) × Bool
    delivered = deliver accepts out page

    abbrev rest_of_window : List (Result F) × Bool
    rest_of_window =
        stream_window accepts limit fuel since before agent (last_row cursor page) rows delivered.0

    stream_window-suc :
        stream_window accepts limit (suc fuel) since before agent cursor rows out
        ≡ next_page delivered rest_of_window (ltb (length page) limit)
    unfolding stream_window
    stream_window-suc = rw e refl

    stream_window_short :
        length page < limit
        → stream_window accepts limit (suc fuel) since before agent cursor rows out ≡ delivered
    stream_window_short h =
        stream_window-suc
        ∙ next_page_short delivered rest_of_window (ltb (length page) limit)
            (lt→ltb (length page) limit h)

    stream_window_full :
        limit ≤ length page
        → stream_window accepts limit (suc fuel) since before agent cursor rows out
          ≡ (if delivered.1 then rest_of_window else delivered)
    stream_window_full h =
        stream_window-suc
        ∙ next_page_full delivered rest_of_window (ltb (length page) limit)
            (ltb_ge (length page) limit h)

  page_is :
      (cursor : Option (StreamRow F)) (limit : ℕ) (left : List (StreamRow F))
      → remaining cursor ≡ left
      → query_page since before agent cursor limit rows ≡ take limit left
  page_is cursor limit left e = query_page-take cursor limit ∙ ap (take limit) e

  -- With a limit of one or more and more fuel than rows are left after the cursor, over rows with
  -- distinct ids, the pages of a window deliver the rows of the window after the cursor, once
  -- each and in the order of the query, up to the first row refused.
  pub stream_window-deliver :
      (accepts : List (Result F) → Result F → Bool) (n fuel : ℕ) (cursor : Option (StreamRow F))
      (out : List (Result F))
      → length (remaining cursor) < fuel
      → stream_window accepts (suc n) fuel since before agent cursor rows out
        ≡ deliver accepts out (remaining cursor)
  stream_window-deliver accepts n zero cursor out h = absurd (omega arith)
  stream_window-deliver accepts n (suc fuel) cursor out h = elim (List-cases (remaining cursor)) [
    | inl e ↦
        stream_window_short accepts (suc n) fuel cursor out [] (page_is cursor (suc n) [] e)
          (omega arith)
        ∙ ap (deliver accepts out) (sym e)
    | inr (x, xs, e) ↦ elim (Bool-cases (ltb (length xs) n)) [
      | inl short ↦
          stream_window_short accepts (suc n) fuel cursor out (x ∷ xs)
            (page_is cursor (suc n) (x ∷ xs) e ∙ take_all (suc n) (x ∷ xs) (omega (tests)))
            (omega (tests))
          ∙ ap (deliver accepts out) (sym e)
      | inr full ↦
          let page = x ∷ take n xs in
          let last = last_or (λ r. r.id) is_before is_before-IsOrder x (take n xs) in
          let enough : n ≤ length xs = ground arith in
          let left = remaining-last_or cursor n x xs e in
          let fewer : length (remaining (some last)) < fuel =
            omega (arith, ap length left, ap length e, length-drop n xs) in
          let rest =
            stream_window-deliver accepts n fuel (some last) (deliver accepts out page).0 fewer in
          stream_window_full accepts (suc n) fuel cursor out page
            (page_is cursor (suc n) (x ∷ xs) e) (omega (arith, length-take_of_le n xs enough))
          ∙ rw (last_row-last_or x (take n xs), rest, left)
              (sym (deliver-append accepts out page (drop n xs)))
          ∙ ap (deliver accepts out) (ap (◌∷◌ x) (take-append-drop n xs) ∙ sym e)
    ]
  ]
