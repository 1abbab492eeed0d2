-- ===== src/Storage/Store.antt =====
-- internal/storage/storage.go: the tables, the cache of series, `seriesID`, `SaveResult` and the loop of
-- `SaveResults`. `marshal` is what encoding/json gives for labels. A new row takes the largest id in
-- use plus one, as SQLite does for an INTEGER PRIMARY KEY, and a row of `results` must name a series,
-- since foreign keys are on.
pub mod Operations
pub mod Soundness
pub mod Filing
pub mod Additions
pub mod Statuses
pub mod Atomicity
use pingmon.Prelude.{
  ℕ, suc, ◌+◌, Bool, true, false, not, ◌&&◌, ◌||◌, List, [], ◌∷◌, ◌++◌, Option, none, some, ltb,
  ◌==◌, if◌then◌else◌, ◌≡◌, ◌↔◌, arith,
}
use pingmon.Prelude.Int.{ℤ, pos, negsuc}
use pingmon.Prelude.Text.{Text, text_eq, text_eq_iff, is_empty, trim_space}
use pingmon.Prelude.Eq.{Eq, text_is_eq, lookup, insert}
use pingmon.Prelude.Decimal.{itoa}
use pingmon.Model.{Time, Result, AgentStatus}
use pingmon.Storage.Rows.{ResultRow, RollupRow}

-- A row of `result_series` without its id; all columns are unique together.
pub record Series : Type 0 where
  pub agent : Text
  pub agent_ip : Text
  pub target_name : Text
  pub address : Text
  pub port : ℤ
  pub labels : Text

abbrev int_eq : ℤ → ℤ → Bool
int_eq (pos m) (pos n) = m == n
int_eq (pos m) (negsuc n) = false
int_eq (negsuc m) (pos n) = false
int_eq (negsuc m) (negsuc n) = m == n

unfoldable pub series_eq : Series → Series → Bool
series_eq a b =
    text_eq a.agent b.agent
    && text_eq a.agent_ip b.agent_ip
    && text_eq a.target_name b.target_name
    && text_eq a.address b.address
    && int_eq a.port b.port
    && text_eq a.labels b.labels

pub series_eq_iff : (a b : Series) → (series_eq a b ≡ true) ↔ (a ≡ b)
unfolding series_eq
series_eq_iff a b = ground (
  arith,
  text_eq_iff a.agent b.agent,
  text_eq_iff a.agent_ip b.agent_ip,
  text_eq_iff a.target_name b.target_name,
  text_eq_iff a.address b.address,
  text_eq_iff a.labels b.labels,
)

instance abbrev pub series_is_eq : Eq Series
series_is_eq = record { beq = series_eq; beq_iff = series_eq_iff }

abbrev pub SeriesTable : Type 0
SeriesTable = List (Series × ℕ)

abbrev pub Statuses : Type 0
Statuses = List (Text × AgentStatus)

pub record Tables (F : Type 0) : Type 0 where
  pub series : SeriesTable
  pub results : List (ResultRow F)
  pub rollups : List (RollupRow F)
  pub statuses : Statuses

-- The database and `seriesCache`.
pub record Store (F : Type 0) : Type 0 where
  pub tables : Tables F
  pub series_cache : List (Text × ℕ)

-- The separator "\x00".
unfoldable pub series_key : Series → Text
series_key k =
    k.agent
    ++ 0 ∷ k.agent_ip
    ++ 0 ∷ k.target_name
    ++ 0 ∷ k.address
    ++ 0 ∷ itoa k.port
    ++ 0 ∷ k.labels

unfoldable pub max_id : SeriesTable → ℕ
max_id [] = 0
max_id ((k, id) ∷ rows) = let rest = max_id rows in if ltb rest id then id else rest

abbrev pub max_result_id : {F : Type 0} → List (ResultRow F) → ℕ
max_result_id [] = 0
max_result_id (r ∷ rows) = let rest = max_result_id rows in if ltb rest r.id then r.id else rest

-- `INSERT INTO result_series .. ON CONFLICT .. RETURNING id`.
unfoldable pub upsert_series : Series → SeriesTable → SeriesTable × ℕ
upsert_series k table = elim (lookup k table) [
  | some id ↦ (table, id)
  | none ↦ (insert k (suc (max_id table)) table, suc (max_id table))
]

unfoldable pub has_series : ℕ → SeriesTable → Bool
has_series id [] = false
has_series id ((k, j) ∷ rows) = j == id || has_series id rows

-- Which calls of the database fail; the loop counts its results from 0.
pub record SaveFaults : Type 0 where
  pub begin_fails : Bool
  pub series_fails : ℕ → Bool
  pub insert_fails : ℕ → Bool
  pub status_fails : Text → Bool
  pub commit_fails : Bool

module _ {F : Type 0} where
  -- `fails` is whether the statement does.
  unfoldable pub series_id : Bool → Series → Store F → Store F × Option ℕ
  series_id fails k s = elim (lookup (series_key k) s.series_cache) [
    | some id ↦ (s, some id)
    | none ↦
        let (table, id) = upsert_series k s.tables.series in
        if fails then (s, none) else (
          record {
            tables = record s.tables { series = table };
            series_cache = insert (series_key k) id s.series_cache;
          },
          some id,
        )
  ]

  unfoldable pub result_row : ℕ → ℕ → Result F → ResultRow F
  result_row id series result = record {
    id = id;
    series_id = series;
    checked_at = result.checked_at;
    success_count = result.success_count;
    failure_count = result.failure_count;
    average_latency_ms = result.average_latency_ms;
    success_rate = result.success_rate;
    error = result.error;
  }

  -- The insert into `results`, which a series that does not exist refuses.
  unfoldable pub insert_result : Bool → ℕ → Result F → Tables F → Tables F × Bool
  insert_result fails series result t =
      if fails || not (has_series series t.series) then (t, false) else (
        record t {
          results = t.results ++ result_row (suc (max_result_id t.results)) series result ∷ [];
        },
        true,
      )

  abbrev pub series_of : (List Text → Text) → Result F → Series
  series_of marshal result = record {
    agent = result.agent;
    agent_ip = result.agent_ip;
    target_name = result.target_name;
    address = result.address;
    port = result.port;
    labels = marshal result.labels;
  }

  -- `SaveResult`, which is also the body of the loop of `SaveResults`.
  unfoldable pub save_result :
      (List Text → Text) → Bool → Bool → Result F → Store F → Store F × Bool
  save_result marshal series_fails insert_fails result s =
      let (s', found) = series_id series_fails (series_of marshal result) s in
      elim found [
        | none ↦ (s', false)
        | some id ↦
            let (t, ok) = insert_result insert_fails id result s'.tables in
            (record s' { tables = t }, ok)
      ]

  -- The loop, up to the first failure.
  unfoldable pub save_each :
      (List Text → Text) → SaveFaults → ℕ → List (Result F) → Store F → Store F × Bool
  save_each marshal faults i [] s = (s, true)
  save_each marshal faults i (result ∷ results) s =
      let (s', ok) = save_result marshal (faults.series_fails i) (faults.insert_fails i) result s in
      let rest = save_each marshal faults (suc i) results s' in if ok then rest else (s', false)
