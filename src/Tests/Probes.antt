-- ===== src/Tests/Probes.antt =====
-- Tests of `tcpPing` of cmd/agent/main.go. A float64 is a number of thousandths here.
use pingmon.Prelude.{ℕ, zero, suc, ◌≤◌, false, [], ◌+◌, ◌*◌, ◌/◌, none, some, ltb, ◌≡◌, refl}
use pingmon.Prelude.Int.{pos, pos_part, ◌+ℤ◌}
use pingmon.Prelude.Text.{codes}
use pingmon.Model.{second, Task}
use pingmon.Storage.Rows.{FloatOps}
use pingmon.Agent.Probes.{
  Attempt, connected, failed, Network, count_attempt, ping_loop, finish_ping, tcp_ping,
}
use pingmon.Agent.Probes.Counts.{connections, failures_of, attempts, IsComplete, tcp_ping_lem}

abbrev milli : FloatOps ℕ
milli = record {
  zero = 0;
  one = 1000;
  add = λ a b. a + b;
  mul = λ a b. a * b / 1000;
  div = λ a b. a * 1000 / b;
  of_int = λ n. pos_part n * 1000;
  lt = ltb;
}

-- Unfolds what the tests run through.
program : Unit {0}
unfolding count_attempt ping_loop finish_ping tcp_ping ◌+ℤ◌
program = tt

abbrev task : Task
task = record {
  target = record {
    name = codes "web";
    address = codes "example.org";
    port = pos 443;
    labels = [];
  };
  params = record {
    count = pos 0;
    interval_millis = pos 1;
    timeout_millis = pos 1;
    enable_ipv6 = false;
    schedule_seconds = pos 0;
  };
}

abbrev dials : ℕ → Attempt
dials zero = connected 4_000_000
dials (suc zero) = failed (codes "refused")
dials (suc (suc i)) = connected 2_000_000

abbrev steady : Network
steady = record { dial = dials; cancelled = λ i. none }

abbrev stopped : Network
stopped = record { dial = dials; cancelled = λ i. some (codes "context canceled") }

runs :
    ((tcp_ping milli steady [] task second).average_latency_ms ≡ 3_000)
    × ((tcp_ping milli steady [] task second).success_rate ≡ 666)
    × ((tcp_ping milli steady [] task second).error ≡ codes "refused")
    × ((tcp_ping milli stopped [] task second).success_count ≡ pos 1)
    × ((tcp_ping milli stopped [] task second).error ≡ codes "context canceled")
unfolding program
runs = (refl, refl, refl, refl, refl)

tcp_ping_lem_example :
    (made : ℕ) × (made ≤ attempts task)
    × ((tcp_ping milli stopped [] task second).success_count ≡ pos (connections stopped 0 made))
    × ((tcp_ping milli stopped [] task second).failure_count ≡ pos (failures_of stopped 0 made))
    × IsComplete stopped 0 (attempts task) made (tcp_ping milli stopped [] task second)
tcp_ping_lem_example = tcp_ping_lem stopped milli [] task second
