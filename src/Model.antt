-- ===== src/Model.antt =====
-- internal/model/model.go: the data that agent, supervisor and storage exchange.
-- An instant is the number of nanoseconds since Go's zero time, so that `IsZero` is a test with 0.
-- Latencies and rates are float64 in the source, and a type parameter `F` here.
use pingmon.Prelude.{ℕ, ◌*◌, List, Bool}
use pingmon.Prelude.Int.{ℤ}
use pingmon.Prelude.Text.{Text}

abbrev pub Time : Type 0
Time = ℕ

abbrev pub second : ℕ
second = 1_000_000_000

abbrev pub day : ℕ
day = 24 * 3600 * second

pub record PingTarget : Type 0 where
  pub name : Text
  pub address : Text
  pub port : ℤ
  pub labels : List Text

pub record PingParams : Type 0 where
  pub count : ℤ
  pub interval_millis : ℤ
  pub timeout_millis : ℤ
  pub enable_ipv6 : Bool
  pub schedule_seconds : ℤ

pub record Task : Type 0 where
  pub target : PingTarget
  pub params : PingParams

pub record Result (F : Type 0) : Type 0 where
  pub agent : Text
  pub agent_ip : Text
  pub target_name : Text
  pub address : Text
  pub port : ℤ
  pub labels : List Text
  pub checked_at : Time
  pub success_count : ℤ
  pub failure_count : ℤ
  pub average_latency_ms : F
  pub success_rate : F
  pub error : Text

pub record AgentStatus : Type 0 where
  pub agent : Text
  pub agent_ip : Text
  pub first_seen_at : Time
  pub last_seen_at : Time
