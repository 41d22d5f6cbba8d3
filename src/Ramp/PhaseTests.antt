-- ===== src/Ramp/PhaseTests.antt =====
-- One phase of a ramp that passes, from its two snapshots to its point.
use rudp_bench.Common.{
  ℕ, ◌≡◌, refl, true, false, List, [], ◌∷◌, Option, some, pos, arith, find, ltb, leb, put,
}
use rudp_bench.Control.Tests.{numbers}
use rudp_bench.Metrics.Types.{
  loss_tolerant, must_deliver, no_counts, ClassCounts, MetricsFile, MergedMetrics, Checked,
  same_key,
}
use rudp_bench.Metrics.Types as MetricsTypes
use rudp_bench.Metrics.Finalize.{merge_metrics_data}
use rudp_bench.Metrics.Tests.{counts, filled, empty}
use rudp_bench.Metrics.FileTests.{traffic, v2_file}
use rudp_bench.Scenario.Spec.{ScenarioSpec}
use rudp_bench.Scenario.Tests.{sent, probe, scenario}
use rudp_bench.Scenario.ContractTests.{as_it_is}
use rudp_bench.Ramp.Levels.{active_conns}
use rudp_bench.Ramp.Score.{RampPoint, Phase, point, failed}
use rudp_bench.Ramp.Phase.{
  DirEntry, snapshot, RampRun, PhaseError, found, locate_ramp_snapshot, evaluate_ramp_phase,
}
use rudp_bench.Ramp.Phase.Passed.{PhasePassed, merged_artifacts, evaluate_ramp_phase-passes}
use rudp_bench.Metrics.Consistency.{
  check_class, check_counts, check_merged_class, check_traffic_classes, check_violations,
  class_or_zero, count_sum, parts_of, validate_merged_metrics_consistency,
  validate_v2_aggregate_consistency,
}
use rudp_bench.Metrics.Counts.{
  add_class_counts, first_class_count_mismatch, first_difference, ratio_or_one,
  validate_class_counts,
}
use rudp_bench.Metrics.Finalize.{
  check_receives, finalize, finalize_class, finalize_classes, finalize_keys, finalize_traffic,
  find_candidate, insert_key, key_before, merge_next, merge_rest, parse_metrics_artifact, sort_keys,
  traffic_metric,
}
use rudp_bench.Metrics.Histogram.{
  add_bins, add_histogram, compare_bins, compare_sums, double_times, finalize_histogram, find_rank,
  histogram_bin_upper_ns, histogram_percentile, rank_of, start_bins, sum_bins, sum_parts,
  validate_histogram_sum, validate_v2_histogram,
}
use rudp_bench.Metrics.Merge.{
  add, add_all_traffic, add_class, add_classes, add_optional, add_raw, add_traffic, aggregate_of,
  bind, new_merged_metrics, start_traffic,
}
use rudp_bench.Metrics.Counts.{expected_receives}
use rudp_bench.Metrics.Validate.{
  check_class_counts, check_class_histograms, check_traffic, check_traffic_histograms, check_v2,
  seen_key, validate_metrics_file,
}
use rudp_bench.Ramp.Phase.{judge_phase, merge_phase, only_snapshot, phase_of, snapshots_of}
use rudp_bench.Ramp.Traffic.{
  add_breaks, assess_cases, assess_class, assess_classes, assess_latest, assess_ramp_traffic,
}
use rudp_bench.Scenario.Contract.{enabled_traffic_classes, expected_latest_flows}
use rudp_bench.Scenario.Contract.Ranges.{expected_slot_range, expected_staleness_sample_range}
use rudp_bench.Scenario.Judge.{
  causes_of, evaluate_cases, evaluate_class, evaluate_scenario_metrics, evaluate_traffic,
  found_causes, staleness_causes,
}
use rudp_bench.Scenario.Spec.{
  has_complete_primary_slos, missing_in, missing_primary_slos, scenario_cases,
  scenario_metric_cases,
}
use rudp_bench.Ramp.Tests.{ramp, level}

-- A client file whose flows are all received, and a scenario that asks for the series only.
abbrev received : ClassCounts
received = record counts { observed_flows = 3; never_received_flows = 0 }

abbrev client_file : MetricsFile
client_file = record v2_file {
  classes =
      (
        loss_tolerant,
        record {
          counts = received;
          latency_sched = filled;
          latency_send = filled;
          update_gap = filled;
        },
      )
      ∷ (
        must_deliver,
        record {
          counts = no_counts;
          latency_sched = empty;
          latency_send = empty;
          update_gap = empty;
        },
      )
      ∷ [];
  traffic = record traffic { counts = received } ∷ [];
}

abbrev lenient : ScenarioSpec ℕ
lenient = record scenario {
  client_input = some (record probe {
    loss_tolerant = record sent { staleness_p99_ns = 0; min_delivery_ratio = 0 };
    must_deliver = record probe.must_deliver { deadline_ns = 500 };
  });
}

abbrev run : RampRun ℕ
run = record {
  ramp = ramp;
  scenario = lenient;
  total_conns = pos 10;
  attempted_threshold = 0;
  staleness_period_ns = 60000000;
}

positive_order : (x : ℕ) → ltb 0 x ≡ true → leb x 0 ≡ false
positive_order x h = ground arith

abbrev dir : ℕ → Option (List (DirEntry MetricsFile))
dir i = some (snapshot 3 client_file ∷ [])

abbrev first : Phase ℕ PhaseError
first = evaluate_ramp_phase numbers as_it_is run dir dir 0

abbrev point_of : Phase ℕ PhaseError → RampPoint ℕ
point_of (point p) = p
point_of (failed e) = level 9

first_point : evaluate_ramp_phase numbers as_it_is run dir dir 0 ≡ point (point_of first)
unfolding evaluate_ramp_phase active_conns judge_phase merge_phase phase_of locate_ramp_snapshot
    snapshots_of only_snapshot validate_merged_metrics_consistency check_traffic_classes
    check_merged_class assess_ramp_traffic assess_cases assess_classes assess_class assess_latest
    add_breaks evaluate_scenario_metrics evaluate_cases evaluate_class evaluate_traffic found_causes
    staleness_causes causes_of scenario_cases start_traffic add_traffic finalize_traffic
    ratio_or_one finalize_histogram histogram_percentile find_rank rank_of histogram_bin_upper_ns
    double_times key_before insert_key missing_primary_slos has_complete_primary_slos missing_in
    validate_metrics_file check_class_counts find put validate_class_counts check_v2 check_traffic
    merge_metrics_data merge_rest merge_next parse_metrics_artifact bind add add_classes add_class
    aggregate_of class_or_zero add_class_counts add_histogram start_bins add_bins add_optional
    add_all_traffic add_raw new_merged_metrics finalize finalize_classes finalize_class
    check_receives expected_receives finalize_keys sort_keys enabled_traffic_classes
    expected_latest_flows expected_slot_range expected_staleness_sample_range scenario_metric_cases
    traffic_metric find_candidate check_class_histograms validate_v2_histogram sum_bins seen_key
    same_key check_traffic_histograms validate_v2_aggregate_consistency check_class check_counts
    count_sum parts_of first_class_count_mismatch first_difference validate_histogram_sum sum_parts
    compare_sums compare_bins check_violations
first_point = refl

first_passes : (point_of first).evaluation.ok ≡ true
unfolding evaluate_ramp_phase active_conns judge_phase merge_phase phase_of locate_ramp_snapshot
    snapshots_of only_snapshot validate_merged_metrics_consistency check_traffic_classes
    check_merged_class assess_ramp_traffic assess_cases assess_classes assess_class assess_latest
    add_breaks evaluate_scenario_metrics evaluate_cases evaluate_class evaluate_traffic found_causes
    staleness_causes causes_of scenario_cases start_traffic add_traffic finalize_traffic
    ratio_or_one finalize_histogram histogram_percentile find_rank rank_of histogram_bin_upper_ns
    double_times key_before insert_key missing_primary_slos has_complete_primary_slos missing_in
    validate_metrics_file check_class_counts find put validate_class_counts check_v2 check_traffic
    merge_metrics_data merge_rest merge_next parse_metrics_artifact bind add add_classes add_class
    aggregate_of class_or_zero add_class_counts add_histogram start_bins add_bins add_optional
    add_all_traffic add_raw new_merged_metrics finalize finalize_classes finalize_class
    check_receives expected_receives finalize_keys sort_keys enabled_traffic_classes
    expected_latest_flows expected_slot_range expected_staleness_sample_range scenario_metric_cases
    traffic_metric find_candidate check_class_histograms validate_v2_histogram sum_bins seen_key
    same_key check_traffic_histograms validate_v2_aggregate_consistency check_class check_counts
    count_sum parts_of first_class_count_mismatch first_difference validate_histogram_sum sum_parts
    compare_sums compare_bins check_violations
first_passes = refl

evaluate_ramp_phase-passes_example :
    (server : MetricsFile) × (client : MetricsFile) × (merged : MergedMetrics ℕ)
    × (locate_ramp_snapshot (dir 0) (active_conns ramp 0 (pos 10)) ≡ found server)
    × (locate_ramp_snapshot (dir 0) (active_conns ramp 0 (pos 10)) ≡ found client)
    × (merge_metrics_data numbers as_it_is
          (merged_artifacts numbers positive_order as_it_is run server client)
          (pos (active_conns ramp 0 (pos 10)))
        ≡ MetricsTypes.ok merged)
    × PhasePassed numbers positive_order as_it_is run 0
        (active_conns ramp 0 (pos 10))
        (point_of first)
        merged
evaluate_ramp_phase-passes_example =
    evaluate_ramp_phase-passes numbers positive_order as_it_is run dir dir 0 first_point
      first_passes
