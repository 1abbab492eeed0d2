-- ===== src/Storage/Stream/Windows.antt =====
-- internal/storage/stream.go: the windows between two instants are one ordered query.
use pingmon.Prelude.{
  ℕ, zero, suc, ◌+◌, ◌-◌, ◌*◌, ◌/◌, ◌%◌, ◌≤◌, ◌<◌, Bool, true, false, ◌||◌, List, [], ◌∷◌, ◌++◌,
  none, ltb, leb, if◌then◌else◌, length, ◌≡◌, inl, inr, refl, sym, ap, ◌∙◌, arith, tests,
  Bool-cases, All,
}
use pingmon.Prelude.Text.{Text}
use pingmon.Prelude.Sorting.{
  select, select-ext, select_all, select_none, length-select, sort, length-sort, DistinctIds,
}
use pingmon.Prelude.Sorting.Laws.{sort-select, sort-IsSorted, select-parts}
use pingmon.Model.{Time, second, Result}
use pingmon.Storage.Stamps.{stamp_lt}
use pingmon.Storage.Stream.{
  stream_query_window, StreamRow, is_before, in_window, after_cursor, deliver, stream_window,
  stream_windowed, windows_fuel,
}
use pingmon.Storage.Stream.Order.{is_before-IsOrder, stamp_lt-below, after_cursor-none}
use pingmon.Storage.Stream.Pages.{window, remaining, stream_window-deliver, deliver-append}

All_every : {F : Type 0} (xs : List (StreamRow F)) → All (λ r. after_cursor none r ≡ true) xs
All_every [] = tt
All_every (x ∷ xs) = (after_cursor-none x, All_every xs)

module _ {F : Type 0} (agent : Text) (rows : List (StreamRow F))
    (d : DistinctIds (λ r. r.id) rows) where
  in_window-split :
      (since start before : Time) (r : StreamRow F)
      → stamp_lt start since ≡ false
      → stamp_lt before start ≡ false
      → in_window since before agent r
        ≡ (in_window start before agent r || in_window since start agent r)
  unfolding in_window
  in_window-split since start before r h k = ground (
    arith,
    stamp_lt-below r.result.checked_at start before,
    stamp_lt-below r.result.checked_at since start,
  )

  in_window-is_before :
      (since start before : Time) (x y : StreamRow F)
      → in_window start before agent x ≡ true
      → in_window since start agent y ≡ true
      → is_before x y ≡ true
  unfolding in_window is_before
  in_window-is_before since start before x y h k =
      ground (arith, stamp_lt-below y.result.checked_at start x.result.checked_at)

  in_window_none : (at : Time) (r : StreamRow F) → in_window at at agent r ≡ false
  unfolding in_window
  in_window_none at r = ground (arith, Bool-cases (stamp_lt r.result.checked_at at))

  All_in_none :
      (at : Time) (xs : List (StreamRow F)) → All (λ r. in_window at at agent r ≡ false) xs
  All_in_none at [] = tt
  All_in_none at (r ∷ xs) = (in_window_none at r, All_in_none at xs)

  -- All rows, in their order.
  abbrev ordered : List (StreamRow F)
  ordered = sort is_before rows

  window-ordered :
      (since before : Time)
      → window since before agent rows d ≡ select (in_window since before agent) ordered
  window-ordered since before =
      sort-select (λ r. r.id) is_before is_before-IsOrder (in_window since before agent) rows d

  window-append :
      (since start before : Time)
      → stamp_lt start since ≡ false
      → stamp_lt before start ≡ false
      → window since before agent rows d
        ≡ window start before agent rows d ++ window since start agent rows d
  window-append since start before h k =
      rw (window-ordered since before, window-ordered start before, window-ordered since start)
        (select-ext (in_window since before agent)
            (λ r. in_window start before agent r || in_window since start agent r) ordered
            (λ r. in_window-split since start before r h k)
          ∙ select-parts (λ r. r.id) is_before is_before-IsOrder (in_window start before agent)
              (in_window since start agent) ordered (in_window-is_before since start before)
              (sort-IsSorted (λ r. r.id) is_before is_before-IsOrder rows d))

  window_self : (at : Time) → window at at agent rows d ≡ []
  unfolding in_window
  window_self at =
      window-ordered at at ∙ select_none (in_window at at agent) ordered (All_in_none at ordered)

  remaining-none :
      (since before : Time)
      → remaining since before agent rows d none ≡ window since before agent rows d
  remaining-none since before =
      select_all (after_cursor none) (window since before agent rows d)
        (All_every (window since before agent rows d))

  length-window : (since before : Time) → length (window since before agent rows d) ≤ length rows
  length-window since before =
      let a = length-sort is_before (select (in_window since before agent) rows) in
      let b = length-select (in_window since before agent) rows in omega (arith, a, b)

  -- The pages of a window, with the fuel the loop gives.
  stream_window_enough :
      (accepts : List (Result F) → Result F → Bool) (n : ℕ) (since before : Time)
      (out : List (Result F))
      → stream_window accepts (suc n) (length rows + 1) since before agent none rows out
        ≡ deliver accepts out (window since before agent rows d)
  stream_window_enough accepts n since before out =
      stream_window-deliver since before agent rows d accepts n (length rows + 1) none out
        (omega (arith, length-window since before, ap length (remaining-none since before)))
      ∙ ap (deliver accepts out) (remaining-none since before)

second_later : (a b : Time) → b + second ≤ a → stamp_lt a b ≡ false
unfolding stamp_lt
second_later a b h = ground arith

full_window :
    (start cursor since : Time)
    → cursor ≡ start + stream_query_window
    → since ≤ start
    → (if ltb (cursor - stream_query_window) since then since else cursor - stream_query_window)
      ≡ start
full_window start cursor since e h = ground arith

window_start :
    (k r : ℕ) (since start : Time)
    → start ≡ since + (k * stream_query_window + r)
    → stamp_lt (since + r) since ≡ false
    → stamp_lt start since ≡ false
window_start zero r since start e whole =
    let same : start ≡ since + r = omega arith in rw same whole
window_start (suc k) r since start e whole = second_later start since (omega arith)

pub refused :
    {F : Type 0} (r rest : List (Result F) × Bool)
    → (if r.1 then rest else (r.0, false)) ≡ (if r.1 then rest else r)
refused (out, true) rest = refl
refused (out, false) rest = refl

none_left : {F : Type 0} (r : List (Result F) × Bool) → (if r.1 then (r.0, true) else r) ≡ r
none_left (out, true) = refl
none_left (out, false) = refl

module _ {F : Type 0} (accepts : List (Result F) → Result F → Bool) (n : ℕ) (since : Time)
    (agent : Text) (rows : List (StreamRow F)) (d : DistinctIds (λ r. r.id) rows) where
  stream_windowed-suc :
      (fuel : ℕ) (cursor start : Time) (out : List (Result F))
      → since < cursor
      → (if ltb (cursor - stream_query_window) since then since else cursor - stream_query_window)
        ≡ start
      → stream_windowed accepts (suc n) (suc fuel) since cursor agent rows out ≡ (
          if (deliver accepts out (window start cursor agent rows d)).1
          then stream_windowed accepts
              (suc n)
              fuel
              since
              start
              agent
              rows
              (deliver accepts out (window start cursor agent rows d)).0
          else deliver accepts out (window start cursor agent rows d))
  unfolding stream_windowed
  stream_windowed-suc fuel cursor start out h e =
      let past : leb cursor since ≡ false = ground arith in
      let done = deliver accepts out (window start cursor agent rows d) in
      rw (past, e, stream_window_enough agent rows d accepts n start cursor out)
        (refused done (stream_windowed accepts (suc n) fuel since start agent rows done.0))

  stream_windowed_zero :
      (fuel : ℕ) (out : List (Result F))
      → stream_windowed accepts (suc n) (suc fuel) since since agent rows out ≡ (out, true)
  unfolding stream_windowed
  stream_windowed_zero fuel out = let past : leb since since ≡ true = ground arith in rw past refl

  deliver_nothing :
      (out : List (Result F)) → deliver accepts out (window since since agent rows d) ≡ (out, true)
  unfolding deliver
  deliver_nothing out = rw (window_self agent rows d since) refl

  -- The last window, of less than the usual length.
  stream_windowed_last :
      (cursor : Time) (fuel : ℕ) (out : List (Result F))
      → since < cursor
      → cursor < since + stream_query_window
      → stream_windowed accepts (suc n) (suc (suc fuel)) since cursor agent rows out
        ≡ deliver accepts out (window since cursor agent rows d)
  stream_windowed_last cursor fuel out lo hi =
      let done = deliver accepts out (window since cursor agent rows d) in
      stream_windowed-suc (suc fuel) cursor since out lo (ground arith)
      ∙ rw (stream_windowed_zero fuel done.0) (none_left done)

  -- The windows before it.
  stream_windowed_more :
      (k r fuel : ℕ) (cursor : Time) (out : List (Result F))
      → cursor ≡ since + (k * stream_query_window + r)
      → stamp_lt (since + r) since ≡ false
      → r < stream_query_window
      → suc k < fuel
      → stream_windowed accepts (suc n) fuel since cursor agent rows out
        ≡ deliver accepts out (window since cursor agent rows d)
  stream_windowed_more k r zero cursor out e whole hi f = absurd (omega arith)
  stream_windowed_more k r (suc zero) cursor out e whole hi f = absurd (omega arith)
  stream_windowed_more zero r (suc (suc fuel)) cursor out e whole hi f =
      elim (Bool-cases (ltb since cursor)) [
        | inl later ↦ stream_windowed_last cursor fuel out (omega (tests)) (omega arith)
        | inr over ↦
            let done : cursor ≤ since = ground arith in
            let same : cursor ≡ since = omega arith in
            rw same (stream_windowed_zero (suc fuel) out ∙ sym (deliver_nothing out))
      ]
  stream_windowed_more (suc k) r (suc fuel) cursor out e whole hi f =
      let start = since + (k * stream_query_window + r) in
      let ahead : cursor ≡ start + stream_query_window = omega arith in
      let upper = window start cursor agent rows d in
      let rest =
        stream_windowed_more k r fuel start (deliver accepts out upper).0 refl whole hi
          (omega arith) in
      stream_windowed-suc fuel cursor start out (omega arith)
        (full_window start cursor since ahead (omega arith))
      ∙ rw rest (sym (deliver-append accepts out upper (window since start agent rows d)))
      ∙ ap (deliver accepts out) (
          sym (
            window-append agent rows d since start cursor (window_start k r since start refl whole)
              (second_later cursor start (omega arith))))

  -- The windows from an instant to a later one deliver the rows between them, newest first, as
  -- one query would, until the callback refuses one. The texts of the instants between which the
  -- oldest window lies are in order, and no id occurs twice.
  pub stream_windowed-deliver :
      (cursor : Time) (out : List (Result F))
      → since ≤ cursor
      → stamp_lt (since + (cursor - since) % stream_query_window) since ≡ false
      → stream_windowed accepts
          (suc n)
          (windows_fuel accepts since cursor)
          since
          cursor
          agent
          rows
          out
        ≡ deliver accepts out (window since cursor agent rows d)
  stream_windowed-deliver cursor out h whole =
      let k = (cursor - since) / stream_query_window in
      let r = (cursor - since) % stream_query_window in
      stream_windowed_more k r (k + 2) cursor out (omega arith) whole (omega arith) (omega arith)
