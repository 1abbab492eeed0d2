-- ===== src/Storage/Rows.antt =====
-- internal/storage/storage.go: the tables of results and rollups, and float64 as the type `F` with
-- the operations that the statements use.
use pingmon.Prelude.{ℕ, Bool, List}
use pingmon.Prelude.Int.{ℤ}
use pingmon.Prelude.Text.{Text}
use pingmon.Model.{Time}

pub record FloatOps (F : Type 0) : Type 0 where
  pub zero : F
  pub one : F
  pub add : F → F → F
  pub mul : F → F → F
  pub div : F → F → F
  pub of_int : ℤ → F
  pub lt : F → F → Bool

-- A row of `results`.
pub record ResultRow (F : Type 0) : Type 0 where
  pub id : ℕ
  pub series_id : ℕ
  pub checked_at : Time
  pub success_count : ℤ
  pub failure_count : ℤ
  pub average_latency_ms : F
  pub success_rate : F
  pub error : Text

-- A row of `result_rollups`; `bucket_start` is an instant with no fraction.
pub record RollupRow (F : Type 0) : Type 0 where
  pub series_id : ℕ
  pub bucket_start : Time
  pub interval_seconds : ℕ
  pub sample_count : ℤ
  pub success_count : ℤ
  pub failure_count : ℤ
  pub average_latency_ms : F
  pub success_rate : F
  pub error : Text

pub record Samples (F : Type 0) : Type 0 where
  pub results : List (ResultRow F)
  pub rollups : List (RollupRow F)
