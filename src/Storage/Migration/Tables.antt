-- ===== src/Storage/Migration/Tables.antt =====
-- internal/storage/migrate.go: joins with the table of series, by its columns and by its id.
use mathlib.Core.List.{append-nil}
use pingmon.Prelude.{
  ℕ, suc, ◌≤◌, true, false, ◌||◌, List, [], ◌∷◌, ◌++◌, none, some, ◌==◌, if◌then◌else◌, ◌≡◌, inl,
  inr, refl, sym, ap, ◌∙◌, arith, All, Bool-cases, Option-cases,
}
use pingmon.Prelude.Eq.{lookup, insert, Distinct, insert-Distinct}
use pingmon.Storage.Store.{
  Series, series_eq, series_eq_iff, series_is_eq, SeriesTable, max_id, upsert_series, has_series,
}
use pingmon.Storage.Store.Soundness.{Grows, upsert_series-Grows, lookup-has_series}
use pingmon.Storage.Migration.{OldRow, old_series, add_series, matches}

-- `JOIN result_series rs ON rs.id = series_id`.
abbrev pub series_with : ℕ → SeriesTable → List Series
series_with id [] = []
series_with id ((k, j) ∷ table) = if j == id then k ∷ series_with id table else series_with id table

abbrev pub UniqueIds : SeriesTable → Type 0
UniqueIds [] = Unit
UniqueIds ((k, id) ∷ table) = (has_series id table ≡ false) × UniqueIds table

-- The columns of a series are unique, and so are the ids.
pub record IsTable (table : SeriesTable) : Type 0 where
  pub distinct : Distinct table
  pub unique : UniqueIds table

matches-none : (k : Series) (table : SeriesTable) → lookup k table ≡ none → matches k table ≡ []
unfolding matches lookup
matches-none k [] e = refl
matches-none k ((j, id) ∷ table) e = ground (arith, matches-none k table)

pub matches-lookup :
    (k : Series) (id : ℕ) (table : SeriesTable)
    → Distinct table
    → lookup k table ≡ some id
    → matches k table ≡ id ∷ []
unfolding matches lookup
matches-lookup k id [] d e = absurd (ground arith)
matches-lookup k id ((j, i) ∷ table) d e = elim (Bool-cases (series_eq j k)) [
  | inl same ↦
      let is : j ≡ k = (series_eq_iff j k).0 same in
      let alone : lookup k table ≡ none = ap (λ x. lookup x table) (sym is) ∙ d.0 in
      ground (arith, matches-none k table alone)
  | inr other ↦ ground (arith, matches-lookup k id table d.1)
]

series_with_none :
    (id : ℕ) (table : SeriesTable) → has_series id table ≡ false → series_with id table ≡ []
unfolding has_series
series_with_none id [] e = refl
series_with_none id ((k, j) ∷ table) e = ground (arith, series_with_none id table)

pub series_with-lookup :
    (k : Series) (id : ℕ) (table : SeriesTable)
    → UniqueIds table
    → lookup k table ≡ some id
    → series_with id table ≡ k ∷ []
unfolding lookup
series_with-lookup k id [] u e = absurd (ground arith)
series_with-lookup k id ((j, i) ∷ table) u e = elim (Bool-cases (series_eq j k)) [
  | inl same ↦
      let is : j ≡ k = (series_eq_iff j k).0 same in
      let at : i ≡ id = ground arith in
      let alone : series_with id table ≡ [] =
        ap (λ x. series_with x table) (sym at) ∙ series_with_none i table u.0 in
      ground (arith, is, alone)
  | inr other ↦
      let later : lookup k table ≡ some id = ground arith in
      let there : has_series id table ≡ true = lookup-has_series k id table later in
      let rest = series_with-lookup k id table u.1 later in
      elim (Bool-cases (i == id)) [
        | inl clash ↦
            let at : i ≡ id = ground arith in
            absurd (ground (arith, ap (λ x. has_series x table) at, u.0, there))
        | inr fine ↦ rw fine rest
      ]
]

has_series-le : (id : ℕ) (table : SeriesTable) → has_series id table ≡ true → id ≤ max_id table
unfolding has_series max_id
has_series-le id [] e = absurd (ground arith)
has_series-le id ((k, j) ∷ table) e = ground (arith, has_series-le id table)

-- A series that is new comes last, with an id that is new.
insert-series_with :
    (k : Series) (new id : ℕ) (table : SeriesTable)
    → lookup k table ≡ none
    → series_with id (insert k new table)
      ≡ series_with id table ++ (if new == id then k ∷ [] else [])
unfolding lookup insert
insert-series_with k new id [] m = ground arith
insert-series_with k new id ((j, i) ∷ table) m = ground (arith, insert-series_with k new id table)

insert-has_series :
    (k : Series) (new id : ℕ) (table : SeriesTable)
    → lookup k table ≡ none
    → has_series id (insert k new table) ≡ (has_series id table || new == id)
unfolding lookup insert has_series
insert-has_series k new id [] m = ground arith
insert-has_series k new id ((j, i) ∷ table) m = ground (arith, insert-has_series k new id table)

insert-UniqueIds :
    (k : Series) (new : ℕ) (table : SeriesTable)
    → lookup k table ≡ none
    → has_series new table ≡ false
    → UniqueIds table
    → UniqueIds (insert k new table)
unfolding lookup insert has_series
insert-UniqueIds k new [] m h u = (refl, tt)
insert-UniqueIds k new ((j, i) ∷ table) m h u = elim (Bool-cases (series_eq j k)) [
  | inl same ↦ absurd (ground arith)
  | inr other ↦
      let later : lookup k table ≡ none = ground arith in
      rw (insert, other)
        (
          ground (arith, insert-has_series k new i table later, u.0),
          insert-UniqueIds k new table later (ground arith) u.1,
        )
]

max_id-fresh : (table : SeriesTable) → has_series (suc (max_id table)) table ≡ false
max_id-fresh table = elim (Bool-cases (has_series (suc (max_id table)) table)) [
  | inl there ↦ absurd (omega (arith, has_series-le (suc (max_id table)) table there))
  | inr fine ↦ fine
]

-- What an insert of a series keeps.
pub record Extends (table table' : SeriesTable) : Type 0 where
  pub sound : IsTable table'
  pub grows : Grows table table'
  pub reads : (id : ℕ) → has_series id table ≡ true → series_with id table' ≡ series_with id table

upsert_series-IsTable :
    (k : Series) (table : SeriesTable) → IsTable table → IsTable (upsert_series k table).0
unfolding upsert_series
upsert_series-IsTable k table t = elim (Option-cases (lookup k table)) [
  | inr (id, found) ↦ rw (upsert_series, found) t
  | inl missing ↦
      rw (upsert_series, missing)
        (record {
          distinct = insert-Distinct k (suc (max_id table)) table t.distinct;
          unique =
              insert-UniqueIds k (suc (max_id table)) table missing (max_id-fresh table) t.unique;
        })
]

upsert_series-series_with :
    (k : Series) (table : SeriesTable) (id : ℕ)
    → has_series id table ≡ true
    → series_with id (upsert_series k table).0 ≡ series_with id table
unfolding upsert_series
upsert_series-series_with k table id h = elim (Option-cases (lookup k table)) [
  | inr (i, found) ↦ rw (upsert_series, found) refl
  | inl missing ↦
      let other : (suc (max_id table) == id) ≡ false = ground (arith, has_series-le id table h) in
      rw (upsert_series, missing)
        (insert-series_with k (suc (max_id table)) id table missing
          ∙ rw other (append-nil (series_with id table)))
]

pub Extends-trans : {a b c : SeriesTable} → Extends a b → Extends b c → Extends a c
Extends-trans f g = record {
  sound = g.sound;
  grows = record {
    lookups = λ k id h. g.grows.lookups k id (f.grows.lookups k id h);
    ids = λ id h. g.grows.ids id (f.grows.ids id h);
  };
  reads = λ id h. g.reads id (f.grows.ids id h) ∙ f.reads id h;
}

pub Extends-refl : {a : SeriesTable} → IsTable a → Extends a a
Extends-refl t = record {
  sound = t;
  grows = record { lookups = λ k id h. h; ids = λ id h. h };
  reads = λ id h. refl;
}

upsert_series-Extends :
    (k : Series) (table : SeriesTable) → IsTable table → Extends table (upsert_series k table).0
upsert_series-Extends k table t = record {
  sound = upsert_series-IsTable k table t;
  grows = (upsert_series-Grows k table).0;
  reads = upsert_series-series_with k table;
}

-- The table has the series of every row.
abbrev pub HasAll : {P : Type 0} → SeriesTable → List (OldRow P) → Type 0
HasAll table rows = All (λ row. (id : ℕ) × (lookup (old_series row) table ≡ some id)) rows

pub add_series-Extends :
    {P : Type 0} (rows : List (OldRow P)) (table : SeriesTable)
    → IsTable table
    → Extends table (add_series rows table) × HasAll (add_series rows table) rows
unfolding add_series
add_series-Extends [] table t = (Extends-refl t, tt)
add_series-Extends (row ∷ rows) table t =
    let k = old_series row in
    let first = upsert_series-Extends k table t in
    let rest = add_series-Extends rows (upsert_series k table).0 first.sound in
    let id = (upsert_series k table).1 in
    (
      Extends-trans first rest.0,
      ((id, rest.0.grows.lookups k id (upsert_series-Grows k table).1), rest.1),
    )
