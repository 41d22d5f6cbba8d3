-- ===== src/Scenario/Contract.antt =====
-- orchestrator/run/scenario_metrics.go: the contract of the process files and of the merged metrics
-- with the scenario. Go ranges over the enabled classes of a traffic in no fixed order: the model
-- takes the loss-tolerant class first, so where both break the contract Go may name the other.
pub mod Ranges
pub mod Merged
pub mod Kept
pub mod Accepted
use rudp_bench.Common.{
  ℕ, ◌≡◌, Bool, true, not, ◌||◌, ◌&&◌, String, Option, none, some, List, [], ◌∷◌, ◌++◌, ◌==◌, ltb,
  ℤ, pos, eqb_ℤ, to_bits64, ◌*i64◌, str_eq, if◌then◌else◌, length, Float64,
}
use rudp_bench.Metrics.Types.{
  loss_tolerant, must_deliver, room_relay, client_to_server, server_to_client, TrafficKey,
  TrafficMetric, TrafficAggregate, MetricsFile, MergedMetrics, MetricsError, Checked, ok, failed,
  same_key,
}
use rudp_bench.Metrics.Finalize.{traffic_metric, parse_metrics_artifact}
use rudp_bench.Scenario.Spec.{
  TrafficClassSpec, TrafficSpec, ScenarioSpec, TrafficCase, scenario_metric_cases, is_positive,
  environment_baseline, authoritative_state, room_relay_kind,
}
use rudp_bench.Scenario.Contract.Ranges.{
  Ranged, range, refused, panic, RangeError, expected_staleness_sample_range, expected_slot_range,
}

-- Why the contract is broken, with the series where there is one.
pub data ContractError : Type 0 where
  partitions_differ : ℕ → ℕ → ContractError
  artifact : MetricsError → ContractError
  version_not_2 : ℤ → ContractError
  merged_not_2 : ℤ → ContractError
  series_missing no_slots : String → String → ContractError
  deadline_differs : String → String → ℕ → ℕ → ContractError
  no_slot_range : RangeError → ContractError
  slots_outside samples_outside : ℕ → ContractError
  flows_differ : ℕ → ℤ → ContractError
  divides_by_zero : ContractError

abbrev pub server_role : String
server_role = "server"

abbrev pub client_role : String
client_role = "client"

abbrev pub merged_role : String
merged_role = "merged"

unfoldable pub scenario_process_sends_traffic : String → String → String → Bool
scenario_process_sends_traffic role direction kind =
    if not (str_eq kind authoritative_state)
    then str_eq role client_role
    else str_eq role client_role && str_eq direction client_to_server
      || str_eq role server_role && str_eq direction server_to_client

unfoldable pub scenario_process_requires_traffic : String → String → String → String → Bool
scenario_process_requires_traffic role direction class kind =
    if not (str_eq kind authoritative_state)
    then str_eq role client_role
    else scenario_process_sends_traffic role direction kind || str_eq class loss_tolerant

-- The kinds that are none of the three give 0, as the ends of the cases do.
unfoldable pub expected_latest_flows : String → String → String → ℤ → ℤ → ℤ
expected_latest_flows kind role direction local_conns total_conns =
    if str_eq kind environment_baseline
    then if str_eq role client_role || str_eq role merged_role then local_conns else pos 0
    else if str_eq kind room_relay_kind
    then if str_eq role client_role || str_eq role merged_role
      then local_conns *i64 total_conns
      else pos 0
    else if str_eq kind authoritative_state
    then if str_eq role server_role && str_eq direction client_to_server
      then total_conns
      else if str_eq role client_role && str_eq direction server_to_client
      then local_conns
      else if str_eq role merged_role
      then total_conns
      else pos 0
    else pos 0

unfoldable pub file_traffic_metric : List TrafficMetric → TrafficKey → Option TrafficMetric
file_traffic_metric [] key = none
file_traffic_metric (t ∷ traffic) key =
    if same_key t.key key then some t else file_traffic_metric traffic key

-- The first error of two checks.
abbrev pub then_check : Option ContractError → Option ContractError → Option ContractError
then_check (some e) rest = some e
then_check none rest = rest

abbrev pub refuse_if : Bool → ContractError → Option ContractError → Option ContractError
refuse_if b e rest = if b then some e else rest

abbrev pub check_range : Ranged → ℕ → Option ContractError
check_range (range least most) n = refuse_if (ltb n least || ltb most n) (slots_outside n) none
check_range (refused e) n = some (no_slot_range e)
check_range panic n = some divides_by_zero

abbrev pub check_flows : ℕ → ℤ → Option ContractError → Option ContractError
check_flows got expected rest =
    refuse_if (not (got == to_bits64 expected)) (flows_differ got expected) rest

abbrev pub streams : String → ℤ → ℤ → ℤ
streams role local_conns total_conns = if str_eq role server_role then total_conns else local_conns

module _ (f : Float64) where
  open f use {Real}

  unfoldable pub enabled_traffic_classes : TrafficSpec Real → List (String × TrafficClassSpec Real)
  enabled_traffic_classes spec =
      (if is_positive f spec.loss_tolerant.rate_hz
        then (loss_tolerant, spec.loss_tolerant) ∷ []
        else [])
      ++ (if is_positive f spec.must_deliver.rate_hz
          then (must_deliver, spec.must_deliver) ∷ []
          else [])

  module _ (role : String) (local_conns total_conns duration : ℤ) (kind : String) where
    -- A series that the process holds: `class_spec` is that of the class.
    unfoldable pub check_process_metric :
        TrafficCase Real
        → TrafficSpec Real
        → String
        → TrafficClassSpec Real
        → Option TrafficMetric
        → Option ContractError
    check_process_metric c spec class class_spec none = some (series_missing c.name class)
    check_process_metric c spec class class_spec (some metric) =
        refuse_if (not (metric.deadline_ns == spec.must_deliver.deadline_ns))
          (deadline_differs c.name class metric.deadline_ns spec.must_deliver.deadline_ns)
          (then_check
            (if scenario_process_sends_traffic role c.direction kind
              then check_range
                  (expected_slot_range f class_spec.rate_hz duration
                    (streams role local_conns total_conns))
                  metric.counts.slots
              else none)
            (if not (str_eq class loss_tolerant)
              then none
              else check_flows metric.counts.expected_flows
                  (expected_latest_flows kind role c.direction local_conns total_conns) none))

    unfoldable pub check_process_class :
        MetricsFile
        → TrafficCase Real
        → TrafficSpec Real
        → String
        → TrafficClassSpec Real
        → Option ContractError
    unfolding check_process_metric
    check_process_class file c spec class class_spec =
        if not (scenario_process_sends_traffic role c.direction kind)
          && not (scenario_process_requires_traffic role c.direction class kind)
        then none
        else check_process_metric c spec class class_spec (
            file_traffic_metric file.traffic
              (record { traffic_id = spec.traffic_id; direction = c.direction; class = class }))

    unfoldable pub check_process_classes :
        MetricsFile
        → TrafficCase Real
        → TrafficSpec Real
        → List (String × TrafficClassSpec Real)
        → Option ContractError
    check_process_classes file c spec [] = none
    check_process_classes file c spec ((class, class_spec) ∷ classes) =
        then_check (check_process_class file c spec class class_spec)
          (check_process_classes file c spec classes)

    unfoldable pub check_process_cases :
        MetricsFile → List (TrafficCase Real) → Option ContractError
    unfolding check_process_classes enabled_traffic_classes
    check_process_cases file [] = none
    check_process_cases file (c ∷ cases) = elim c.spec [
      | none ↦ check_process_cases file cases
      | some spec ↦
          then_check (check_process_classes file c spec (enabled_traffic_classes spec))
            (check_process_cases file cases)
    ]

  unfoldable pub validate_scenario_process_metrics :
      MetricsFile → String → ℤ → ℤ → ℤ → ScenarioSpec Real → Option ContractError
  unfolding check_process_cases
  validate_scenario_process_metrics file role local_conns total_conns duration scenario =
      if not (eqb_ℤ file.version (pos 2))
      then some (version_not_2 file.version)
      else if str_eq role server_role && not (str_eq scenario.kind authoritative_state)
      then none
      else check_process_cases role local_conns total_conns duration scenario.kind file
          (scenario_metric_cases scenario)
