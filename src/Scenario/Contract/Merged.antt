-- ===== src/Scenario/Contract/Merged.antt =====
-- orchestrator/run/scenario_metrics.go: `ValidateScenarioMetricsData`, over the decoding of an
-- artifact.
pub mod Kept
use rudp_bench.Common.{
  ℕ, Bool, true, false, not, ◌||◌, String, Option, none, some, List, [], ◌∷◌, ◌==◌, ltb, ℤ, pos,
  eqb_ℤ, str_eq, if◌then◌else◌, length, Float64,
}
use rudp_bench.Metrics.Types.{
  loss_tolerant, TrafficAggregate, MetricsFile, MergedMetrics, Checked, ok, failed,
}
use rudp_bench.Metrics.Finalize.{traffic_metric, parse_metrics_artifact}
use rudp_bench.Scenario.Spec.{
  TrafficClassSpec, TrafficSpec, ScenarioSpec, TrafficCase, scenario_metric_cases,
}
use rudp_bench.Scenario.Contract.Ranges.{
  Ranged, range, refused, panic, expected_staleness_sample_range,
}
use rudp_bench.Scenario.Contract.{
  ContractError, partitions_differ, artifact, merged_not_2, series_missing, no_slots,
  deadline_differs, samples_outside, server_role, client_role, merged_role, expected_latest_flows,
  then_check, refuse_if, enabled_traffic_classes, check_flows, validate_scenario_process_metrics,
}

-- An error of the range and a number outside it are one message here.
abbrev pub check_samples : Ranged → ℕ → Option ContractError
check_samples (range least most) n = refuse_if (ltb n least || ltb most n) (samples_outside n) none
check_samples (refused e) n = some (samples_outside n)
check_samples panic n = some (samples_outside n)

module _ (f : Float64) where
  open f use {Real}

  module _ (total_conns duration : ℤ) (period : ℕ) (kind : String) where
    -- The merged series of a class.
    unfoldable pub check_merged_metric :
        TrafficCase Real
        → TrafficSpec Real
        → String
        → Option (TrafficAggregate Real)
        → Option ContractError
    check_merged_metric c spec class none = some (series_missing c.name class)
    check_merged_metric c spec class (some metric) =
        let flows = expected_latest_flows kind merged_role c.direction total_conns total_conns in
        refuse_if (metric.counts.slots == 0) (no_slots c.name class) (
          refuse_if (not (metric.deadline_ns == spec.must_deliver.deadline_ns))
            (deadline_differs c.name class metric.deadline_ns spec.must_deliver.deadline_ns)
            (if str_eq class loss_tolerant
              then check_flows metric.counts.expected_flows flows (
                  check_samples (expected_staleness_sample_range duration period flows)
                    metric.staleness.count)
              else none))

    unfoldable pub check_merged_classes :
        MergedMetrics Real
        → TrafficCase Real
        → TrafficSpec Real
        → List (String × TrafficClassSpec Real)
        → Option ContractError
    unfolding check_merged_metric
    check_merged_classes merged c spec [] = none
    check_merged_classes merged c spec ((class, class_spec) ∷ classes) =
        then_check
          (check_merged_metric c spec class (
            traffic_metric f merged
              (record { traffic_id = spec.traffic_id; direction = c.direction; class = class })))
          (check_merged_classes merged c spec classes)

    unfoldable pub check_merged_cases :
        MergedMetrics Real → List (TrafficCase Real) → Option ContractError
    unfolding check_merged_classes enabled_traffic_classes
    check_merged_cases merged [] = none
    check_merged_cases merged (c ∷ cases) = elim c.spec [
      | none ↦ check_merged_cases merged cases
      | some spec ↦
          then_check (check_merged_classes merged c spec (enabled_traffic_classes f spec))
            (check_merged_cases merged cases)
    ]

    unfoldable pub check_merged :
        Option (MergedMetrics Real) → List (TrafficCase Real) → Option ContractError
    unfolding check_merged_cases
    check_merged none cases = some (merged_not_2 (pos 0))
    check_merged (some merged) cases =
        if not (eqb_ℤ merged.version (pos 2))
        then some (merged_not_2 merged.version)
        else check_merged_cases merged cases

  module _ {Artifact : Type 0} (decode : Artifact → Checked MetricsFile) where
    -- One artifact: decoded, validated and checked.
    unfoldable pub check_artifact :
        Artifact → Bool → String → ℤ → ℤ → ℤ → ScenarioSpec Real → Option ContractError
    unfolding validate_scenario_process_metrics
    check_artifact a allow_empty role local_conns total_conns duration scenario =
        elim (parse_metrics_artifact f decode a allow_empty) [
          | failed e ↦ some (artifact e)
          | ok file ↦
              validate_scenario_process_metrics f file role local_conns total_conns duration
                scenario
        ]

    -- The loop over the clients; the lists have one length.
    unfoldable pub check_client_artifacts :
        List Artifact → List ℤ → ℤ → ℤ → ScenarioSpec Real → Option ContractError
    unfolding check_artifact
    check_client_artifacts [] conns total_conns duration scenario = none
    check_client_artifacts (a ∷ artifacts) [] total_conns duration scenario = none
    check_client_artifacts (a ∷ artifacts) (n ∷ conns) total_conns duration scenario =
        then_check (check_artifact a false client_role n total_conns duration scenario)
          (check_client_artifacts artifacts conns total_conns duration scenario)

    unfoldable pub validate_scenario_metrics_data :
        Artifact
        → List Artifact
        → List ℤ
        → ℤ
        → ℤ
        → ℕ
        → ScenarioSpec Real
        → Option (MergedMetrics Real)
        → Option ContractError
    unfolding check_client_artifacts check_artifact check_merged
    validate_scenario_metrics_data server clients conns total_conns duration period scenario
          merged =
        refuse_if (not (length clients == length conns))
          (partitions_differ (length clients) (length conns))
          (then_check
            (check_artifact server true server_role total_conns total_conns duration scenario)
            (then_check (check_client_artifacts clients conns total_conns duration scenario) (
              check_merged total_conns duration period scenario.kind merged
                (scenario_metric_cases scenario))))
