-- ===== src/Storage/Migration/Lossless.antt =====
-- internal/storage/migrate.go: the migration loses nothing, and is all or nothing.
use mathlib.Core.Path.{subst}
use mathlib.Core.Option.{some-injective}
use pingmon.Prelude.{
  ℕ, Bool, true, false, not, ◌&&◌, List, [], ◌∷◌, ◌++◌, Option, none, some, if◌then◌else◌, ◌>>=◌,
  ◌≡◌, refl, ap, ◌∙◌, arith, All,
}
use pingmon.Storage.Store.{Series, series_is_eq, SeriesTable, Statuses, has_series}
use pingmon.Storage.Store.Soundness.{lookup-has_series}
use pingmon.Storage.Migration.{
  ResultColumns, RollupColumns, OldRow, NewRow, Table, absent, old, current, Schema, Statement,
  is_old, old_series, add_series, join_rows, blank_agent_ip, migrate_table, table_or_empty,
  has_table, exec, begin, create_series, commit, ensure_agent_ip, ensure_statuses, clear_sequence,
  migrate_all, is_ready,
}
use pingmon.Storage.Migration.Tables.{
  series_with, IsTable, matches-lookup, series_with-lookup, Extends, Extends-refl, HasAll,
  add_series-Extends,
}

-- A row as the program reads it: its id, the columns of its series, and the others.
abbrev pub Reading : Type 0 → Type 0
Reading P = ℕ × Series × P

if_none-some :
    {A : Type 0} (b : Bool) (x y : A)
    → (if b then none else some x) ≡ some y
    → (b ≡ false) × (x ≡ y)
if_none-some true x y e = absurd (ground arith)
if_none-some false x y e = (refl, some-injective x y e)

if_none-some_twice :
    {A : Type 0} (a b : Bool) (x y : A)
    → (if a then none else if b then none else some x) ≡ some y
    → x ≡ y
if_none-some_twice true b x y e = absurd (ground arith)
if_none-some_twice false b x y e = (if_none-some b x y e).1

module _ {P : Type 0} where
  abbrev read_row : NewRow P → List Series → List (Reading P)
  read_row row [] = []
  read_row row (k ∷ ks) = (row.id, k, row.columns) ∷ read_row row ks

  abbrev read_rows : SeriesTable → List (NewRow P) → List (Reading P)
  read_rows series [] = []
  read_rows series (row ∷ rows) =
      read_row row (series_with row.series_id series) ++ read_rows series rows

  -- `has` is whether there is a column `agent_ip`.
  abbrev read_old : Bool → List (OldRow P) → List (Reading P)
  read_old has [] = []
  read_old has (row ∷ rows) =
      (row.id, old_series (if has then row else record row { agent_ip = none }), row.columns)
      ∷ read_old has rows

  abbrev pub read_table : Bool → SeriesTable → Table P → List (Reading P)
  read_table has series absent = []
  read_table has series (old rows) = read_old has rows
  read_table has series (current rows) = read_rows series rows

  abbrev HasSeries : SeriesTable → NewRow P → Type 0
  HasSeries series row = has_series row.series_id series ≡ true

  -- Every current row names a series, as the foreign key demands.
  abbrev pub NamesSeries : SeriesTable → Table P → Type 0
  NamesSeries series absent = Unit
  NamesSeries series (old rows) = Unit
  NamesSeries series (current rows) = All (HasSeries series) rows

  read_old-blank :
      (rows : List (OldRow P)) → read_old true (blank_agent_ip rows) ≡ read_old false rows
  unfolding blank_agent_ip
  read_old-blank [] = refl
  read_old-blank (row ∷ rows) =
      ap (◌∷◌ (row.id, old_series (record row { agent_ip = none }), row.columns))
        (read_old-blank rows)

  read_rows-join_rows :
      (series : SeriesTable) (rows : List (OldRow P))
      → IsTable series
      → HasAll series rows
      → (read_rows series (join_rows series rows) ≡ read_old true rows)
        × All (HasSeries series) (join_rows series rows)
  unfolding join_rows
  read_rows-join_rows series [] t h = (refl, tt)
  read_rows-join_rows series (row ∷ rows) t h =
      let k = old_series row in
      let id = h.0.0 in
      let rest = read_rows-join_rows series rows t h.1 in
      rw
        (matches-lookup k id series t.distinct h.0.1, series_with-lookup k id series t.unique h.0.1)
        (ap (◌∷◌ (row.id, k, row.columns)) rest.0, (lookup-has_series k id series h.0.1, rest.1))

  read_rows-Extends :
      (a b : SeriesTable) (rows : List (NewRow P))
      → Extends a b
      → All (HasSeries a) rows
      → (read_rows b rows ≡ read_rows a rows) × All (HasSeries b) rows
  read_rows-Extends a b [] x h = (refl, tt)
  read_rows-Extends a b (row ∷ rows) x h =
      let rest = read_rows-Extends a b rows x h.1 in
      rw (x.reads row.series_id h.0) (
        ap (λ xs. read_row row (series_with row.series_id a) ++ xs) rest.0,
        (x.grows.ids row.series_id h.0, rest.1),
      )

  -- What the move of a table keeps.
  record Moved (a b : SeriesTable) (t u : Table P) : Type 0 where
    extends : Extends a b
    reading : read_table true b u ≡ read_table true a t
    names : NamesSeries b u
    done : is_old u ≡ false

  migrate_table-Moved :
      (fails : Statement → Bool) (which : Bool) (a : SeriesTable) (t : Table P)
      (r : SeriesTable × Table P)
      → IsTable a
      → NamesSeries a t
      → migrate_table fails which a t ≡ some r
      → Moved a r.0 t r.1
  unfolding migrate_table
  migrate_table-Moved fails which a absent r s n e =
      subst (λ x. Moved a x.0 absent x.1) (some-injective (a, absent) r e)
        (record { extends = Extends-refl s; reading = refl; names = tt; done = refl })
  migrate_table-Moved fails which a (current rows) r s n e =
      subst (λ x. Moved a x.0 (current rows) x.1) (some-injective (a, current rows) r e)
        (record { extends = Extends-refl s; reading = refl; names = n; done = refl })
  migrate_table-Moved fails which a (old rows) r s n e =
      let b = add_series rows a in
      let grown = add_series-Extends rows a s in
      let joined = read_rows-join_rows b rows grown.0.sound grown.1 in
      subst (λ x. Moved a x.0 (old rows) x.1) (if_none-some _ (b, current (join_rows b rows)) r e).1
        (record { extends = grown.0; reading = joined.0; names = joined.1; done = refl })

  Extends-NamesSeries :
      (a b : SeriesTable) (t : Table P)
      → Extends a b
      → NamesSeries a t
      → (read_table true b t ≡ read_table true a t) × NamesSeries b t
  Extends-NamesSeries a b absent x n = (refl, tt)
  Extends-NamesSeries a b (old rows) x n = (refl, tt)
  Extends-NamesSeries a b (current rows) x n = read_rows-Extends a b rows x n

>>=-some :
    {A B : Type 0} (m : Option A) (f : A → Option B) (b : B)
    → (m >>= f) ≡ some b
    → (a : A) × (m ≡ some a) × (f a ≡ some b)
>>=-some none f b e = absurd (ground arith)
>>=-some (some a) f b e = (a, refl, e)

ensure_statuses-same :
    (fails : Statement → Bool) (s r : Option Statuses)
    → ensure_statuses fails s ≡ some r
    → (table_or_empty r ≡ table_or_empty s) × (has_table r ≡ true)
unfolding ensure_statuses
ensure_statuses-same fails (some s) r e =
    subst (λ x. (table_or_empty x ≡ s) × (has_table x ≡ true)) (some-injective (some s) r e)
      (refl, refl)
ensure_statuses-same fails none r e =
    subst (λ x. (table_or_empty x ≡ []) × (has_table x ≡ true)) (if_none-some _ (some []) r e).1
      (refl, refl)

module _ {F : Type 0} where
  -- The tables are as SQLite keeps them.
  pub record IsWell (t : Schema F) : Type 0 where
    pub series : IsTable (table_or_empty t.series)
    pub results : NamesSeries (table_or_empty t.series) t.results
    pub rollups : NamesSeries (table_or_empty t.series) t.rollups

  abbrev Same : Bool → SeriesTable → Table (ResultColumns F) → Table (ResultColumns F) → Type 0
  Same has series t r =
      (read_table true series r ≡ read_table has series t)
      × NamesSeries series r
      × (is_old r ≡ is_old t)

  ensure_agent_ip-reading :
      (fails : Statement → Bool) (has : Bool) (series : SeriesTable) (t r : Table (ResultColumns F))
      → NamesSeries series t
      → ensure_agent_ip fails has t ≡ some r
      → Same has series t r
  unfolding ensure_agent_ip
  ensure_agent_ip-reading fails has series absent r n e =
      subst (Same has series absent) (some-injective absent r e) (refl, n, refl)
  ensure_agent_ip-reading fails has series (current rows) r n e =
      subst (Same has series (current rows)) (some-injective (current rows) r e) (refl, n, refl)
  ensure_agent_ip-reading fails true series (old rows) r n e =
      subst (Same true series (old rows)) (if_none-some _ (old rows) r e).1 (refl, n, refl)
  ensure_agent_ip-reading fails false series (old rows) r n e =
      subst (Same false series (old rows)) (if_none-some_twice _ _ (old (blank_agent_ip rows)) r e)
        (read_old-blank rows, tt, refl)

  -- What the migration keeps: every row with its id, the columns of its series and its own.
  pub record Kept (t u : Schema F) : Type 0 where
    pub results :
        read_table true (table_or_empty u.series) u.results
        ≡ read_table t.has_agent_ip (table_or_empty t.series) t.results
    pub rollups :
        read_table true (table_or_empty u.series) u.rollups
        ≡ read_table true (table_or_empty t.series) t.rollups
    pub statuses : table_or_empty u.statuses ≡ table_or_empty t.statuses
    pub ready : is_ready u ≡ true
    pub well : IsWell u

  ready_of :
      (results : Table (ResultColumns F)) (rollups : Table (RollupColumns F))
      (statuses : Option Statuses)
      → is_old results ≡ false
      → is_old rollups ≡ false
      → has_table statuses ≡ true
      → (not (is_old results) && not (is_old rollups) && has_table statuses) ≡ true
  ready_of results rollups statuses a b c = rw (a, b, c) refl

  pub migrate_all-Kept :
      (fails : Statement → Bool) (t u : Schema F)
      → IsWell t
      → migrate_all fails t ≡ some u
      → Kept t u
  unfolding migrate_all
  migrate_all-Kept fails t u w e =
      let (_, _, e1) = >>=-some (exec fails begin) _ u e in
      let (results, r, e2) = >>=-some (ensure_agent_ip fails t.has_agent_ip t.results) _ u e1 in
      let (_, _, e3) = >>=-some (exec fails create_series) _ u e2 in
      let (first, f, e4) =
        >>=-some (migrate_table fails false (table_or_empty t.series) results) _ u e3 in
      let (second, g, e5) = >>=-some (migrate_table fails true first.0 t.rollups) _ u e4 in
      let (statuses, s, e6) = >>=-some (ensure_statuses fails t.statuses) _ u e5 in
      let (_, _, e7) = >>=-some (clear_sequence fails t) _ u e6 in
      let (_, _, e8) = >>=-some (exec fails commit) _ u e7 in
      let series = table_or_empty t.series in
      let k = ensure_agent_ip-reading fails t.has_agent_ip series t.results results w.results r in
      let m = migrate_table-Moved fails false series results first w.series k.1 f in
      let rollups = Extends-NamesSeries series first.0 t.rollups m.extends w.rollups in
      let n = migrate_table-Moved fails true first.0 t.rollups second m.extends.sound rollups.1 g in
      let later = Extends-NamesSeries first.0 second.0 first.1 n.extends m.names in
      let known = ensure_statuses-same fails t.statuses statuses s in
      subst (Kept t)
        (some-injective
          (record t {
            results = first.1;
            rollups = second.1;
            series = some second.0;
            statuses = statuses;
          })
          u e8)
        (record {
          results = later.0 ∙ m.reading ∙ k.0;
          rollups = n.reading ∙ rollups.0;
          statuses = known.0;
          ready = ready_of first.1 second.1 statuses m.done n.done known.1;
          well = record { series = n.extends.sound; results = later.1; rollups = n.names };
        })
