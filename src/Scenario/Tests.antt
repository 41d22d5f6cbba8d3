-- ===== src/Scenario/Tests.antt =====
-- A baseline scenario with one measured series, and the theorems of the scenario on it.
use rudp_bench.Common.{ℕ, ◌≡◌, refl, ◌↔◌, true, List, [], ◌∷◌, none, some, pos, All}
use rudp_bench.Control.Tests.{numbers}
use rudp_bench.Metrics.Types.{
  MergedMetrics, TrafficAggregate, room_relay, loss_tolerant, no_histogram,
}
use rudp_bench.Metrics.Histogram.Bounds.{v2_layout}
use rudp_bench.Metrics.Tests.{counts, raw, filled}
use rudp_bench.Scenario.Spec.{
  TrafficClassSpec, TrafficSpec, ScenarioSpec, TrafficCase, scenario_cases, scenario_metric_cases,
  has_complete_primary_slos, environment_baseline,
}
use rudp_bench.Scenario.Spec.Complete.{CaseComplete, has_complete_primary_slos_iff}
use rudp_bench.Scenario.Judge.{evaluate_scenario_metrics}
use rudp_bench.Scenario.Judge.Met.{CaseMet, evaluate_scenario_metrics_iff}

abbrev pub sent : TrafficClassSpec ℕ
sent = record {
  rate_hz = 20;
  payload_bytes = pos 64;
  deadline_ns = 0;
  staleness_p99_ns = 5000;
  min_delivery_ratio = 1;
  min_deadline_hit_ratio = 0;
  min_eventual_delivery_ratio = 0;
}

abbrev pub probe : TrafficSpec ℕ
probe = record {
  traffic_id = 1;
  loss_tolerant = sent;
  must_deliver = record sent { rate_hz = 0; staleness_p99_ns = 0; min_delivery_ratio = 0 };
}

abbrev pub scenario : ScenarioSpec ℕ
scenario = record {
  name = "probe";
  kind = environment_baseline;
  client_input = some probe;
  server_state = none;
  room_publish = none;
}

abbrev cases : List (TrafficCase ℕ)
cases = record { name = "baseline"; direction = room_relay; spec = some probe } ∷ []

abbrev measured : TrafficAggregate ℕ
measured = record {
  key = record { traffic_id = 1; direction = room_relay; class = loss_tolerant };
  deadline_ns = 0;
  counts = record counts { never_received_flows = 0 };
  expected_receives = 12;
  delivery_ratio = 1;
  attempted_ratio = 1;
  deadline_hit_ratio = 1;
  latency_sched = filled;
  latency_send = filled;
  update_gap = filled;
  staleness = record filled { p99_ns = 4000 };
}

abbrev metrics : MergedMetrics ℕ
metrics = record {
  version = pos 2;
  total_conns = pos 3;
  histogram = v2_layout;
  classes = [];
  staleness = no_histogram;
  update_gap = no_histogram;
  raw = raw;
  traffic = measured ∷ [];
  traffic_by_key = [];
}

evaluate_scenario_metrics_iff_example :
    ((evaluate_scenario_metrics numbers (some metrics) scenario).ok ≡ true)
    ↔ All (CaseMet numbers metrics) cases
unfolding scenario_cases
evaluate_scenario_metrics_iff_example =
    evaluate_scenario_metrics_iff numbers metrics scenario cases refl

has_complete_primary_slos_iff_example :
    (has_complete_primary_slos numbers scenario ≡ true)
    ↔ All (CaseComplete numbers) (scenario_metric_cases scenario)
has_complete_primary_slos_iff_example = has_complete_primary_slos_iff numbers scenario
