-- ===== src/Scenario/ContractTests.antt =====
-- A baseline run of one client with three connections whose metrics keep the contract.
use rudp_bench.Common.{
  ℕ, length, ◌≤◌, ◌≡◌, refl, true, [], ◌∷◌, none, some, pos, arith, find, replicate, All, eqb_ℤ,
}
use rudp_bench.Control.Tests.{numbers}
use rudp_bench.Metrics.Types.{MetricsFile, MergedMetrics, Checked, ok, same_key}
use rudp_bench.Metrics.Counts.{
  validate_class_counts, add_class_counts, first_difference, first_class_count_mismatch,
}
use rudp_bench.Metrics.Histogram.{
  sum_bins, validate_v2_histogram, add_bins, sum_parts, compare_bins, compare_sums,
  validate_histogram_sum,
}
use rudp_bench.Metrics.Consistency.{
  count_sum, parts_of, check_counts, check_class, check_violations, class_or_zero,
  validate_v2_aggregate_consistency,
}
use rudp_bench.Metrics.Validate.{
  check_class_counts, check_class_histograms, check_v2, seen_key, check_traffic_histograms,
  check_traffic, validate_metrics_file,
}
use rudp_bench.Metrics.Merge.{bind}
use rudp_bench.Metrics.Finalize.{find_candidate, traffic_metric, parse_metrics_artifact}
use rudp_bench.Metrics.FileTests.{v2_file, v2_merged}
use rudp_bench.Scenario.Spec.{ScenarioSpec, scenario_metric_cases, environment_baseline}
use rudp_bench.Scenario.Tests.{probe, scenario}
use rudp_bench.Scenario.Contract.{
  server_role, scenario_process_sends_traffic, scenario_process_requires_traffic,
  expected_latest_flows, file_traffic_metric, enabled_traffic_classes, check_process_metric,
  check_process_class, check_process_classes, check_process_cases,
  validate_scenario_process_metrics,
}
use rudp_bench.Scenario.Contract.Merged.{
  check_merged_metric, check_merged_classes, check_merged_cases, check_artifact,
  check_client_artifacts, validate_scenario_metrics_data,
}
use rudp_bench.Scenario.Contract.Ranges.{expected_slot_range, expected_staleness_sample_range}
use rudp_bench.Scenario.Contract.Ranges.Exact.{all_sent, expected_slot_range_holds}
use rudp_bench.Scenario.Contract.Merged.Kept.{MergedCaseKept}
use rudp_bench.Scenario.Contract.Accepted.{
  ArtifactKept, ClientsKept, validate_scenario_metrics_data_keeps,
}

abbrev pub judged : ScenarioSpec ℕ
judged = record scenario {
  client_input =
      some (record probe { must_deliver = record probe.must_deliver { deadline_ns = 500 } });
}

abbrev pub as_it_is : MetricsFile → Checked MetricsFile
as_it_is file = ok file

kept :
    validate_scenario_metrics_data numbers as_it_is v2_file
      (v2_file ∷ [])
      (pos 3 ∷ [])
      (pos 3)
      (pos 160000000)
      60000000
      judged
      (some v2_merged)
    ≡ none
unfolding validate_scenario_metrics_data check_client_artifacts check_artifact check_merged_cases
    check_merged_classes check_merged_metric parse_metrics_artifact
    validate_scenario_process_metrics check_process_cases check_process_classes check_process_class
    check_process_metric enabled_traffic_classes file_traffic_metric expected_latest_flows
    scenario_process_sends_traffic scenario_process_requires_traffic expected_slot_range
    expected_staleness_sample_range scenario_metric_cases traffic_metric find_candidate
    validate_metrics_file check_class_counts find validate_class_counts check_v2
    check_class_histograms validate_v2_histogram sum_bins check_traffic seen_key same_key
    check_traffic_histograms validate_v2_aggregate_consistency check_class check_counts count_sum
    parts_of first_class_count_mismatch first_difference add_class_counts validate_histogram_sum
    sum_parts compare_sums compare_bins add_bins check_violations class_or_zero bind
kept = refl

validate_scenario_metrics_data_keeps_example :
    (length (v2_file ∷ []) ≡ length (pos 3 ∷ []))
    × ArtifactKept numbers as_it_is true server_role (pos 3) (pos 3) (pos 160000000) judged v2_file
    × ClientsKept numbers as_it_is (v2_file ∷ []) (pos 3 ∷ []) (pos 3) (pos 160000000) judged
    × (m : MergedMetrics ℕ) × (some v2_merged ≡ some m)
    × (eqb_ℤ m.version (pos 2) ≡ true)
    × All
        (MergedCaseKept numbers (pos 3) (pos 160000000) 60000000 environment_baseline m)
        (scenario_metric_cases judged)
validate_scenario_metrics_data_keeps_example =
    validate_scenario_metrics_data_keeps numbers as_it_is v2_file (v2_file ∷ []) (pos 3 ∷ [])
      (pos 3) (pos 160000000) 60000000 judged (some v2_merged) kept

expected_slot_range_holds_example :
    (9 ≤ all_sent 50000000 160000000 (0 ∷ 30000000 ∷ 7 ∷ []))
    × (all_sent 50000000 160000000 (0 ∷ 30000000 ∷ 7 ∷ []) ≤ 12)
    × (all_sent 50000000 160000000 (replicate 3 0) ≡ 12)
unfolding expected_slot_range
expected_slot_range_holds_example =
    expected_slot_range_holds numbers 20 160000000 (0 ∷ 30000000 ∷ 7 ∷ []) (omega arith) refl
      (omega arith)
