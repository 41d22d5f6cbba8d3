-- ===== src/Metrics/Consistency.antt =====
-- orchestrator/run/metrics.go: the agreement of the classes with their traffic, in a process file
-- (`validateV2AggregateConsistency`) and in merged metrics (`ValidateMergedMetricsConsistency`).
-- A Go map with a value for each class, filled by a loop over the traffic, is a function of the
-- class: what the loop leaves under that key.
pub mod Laws
use rudp_bench.Common.{
  ℕ, ◌-◌, Bool, not, ◌&&◌, ◌||◌, String, Option, none, some, List, [], ◌∷◌, map, ltb, ◌==◌, eqb_ℤ,
  pos, str_eq, if◌then◌else◌, find, add_u64, sub_u64,
}
use rudp_bench.Metrics.Types.{
  ClassCounts, RawCounts, Histogram, ClassMetric, TrafficMetric, MetricsFile, ClassAggregate,
  TrafficAggregate, MergedMetrics, MetricsError, class_missing, class_unknown, class_count_differs,
  violations_exceed, loss_tolerant, must_deliver, no_counts, no_histogram,
}
use rudp_bench.Metrics.Counts.{add_class_counts, first_class_count_mismatch}
use rudp_bench.Metrics.Histogram.{validate_histogram_sum}

-- The first error of two checks in a row.
abbrev pub first_error : Option MetricsError → Option MetricsError → Option MetricsError
first_error none rest = rest
first_error (some e) rest = some e

-- What both checks read of a traffic.
pub record TrafficPart : Type 0 where
  pub class : String
  pub counts : ClassCounts
  pub latency_sched : Histogram
  pub latency_send : Histogram
  pub update_gap : Histogram
  pub staleness : Histogram

-- `countSums[class]` after the loop.
unfoldable pub count_sum : String → ClassCounts → List TrafficPart → ClassCounts
count_sum class sum [] = sum
count_sum class sum (t ∷ parts) =
    count_sum class (if str_eq t.class class then add_class_counts sum t.counts else sum) parts

-- `latencySched[class]` and the like after the loop.
unfoldable pub parts_of : (TrafficPart → Histogram) → String → List TrafficPart → List Histogram
parts_of field class [] = []
parts_of field class (t ∷ parts) =
    if str_eq t.class class
    then field t ∷ parts_of field class parts
    else parts_of field class parts

unfoldable pub check_counts : ClassCounts → ClassCounts → Option MetricsError
check_counts got want = elim (first_class_count_mismatch got want) [
  | none ↦ none
  | some (name, g, w) ↦ some (class_count_differs name g w)
]

-- The body of the loop over the classes.
unfoldable pub check_class :
    String
    → ClassCounts
    → Histogram
    → Histogram
    → Histogram
    → List TrafficPart
    → Option MetricsError
unfolding count_sum parts_of check_counts
check_class class counts latency_sched latency_send update_gap parts =
    first_error (check_counts counts (count_sum class no_counts parts)) (
      first_error
        (validate_histogram_sum latency_sched (parts_of (λ t. t.latency_sched) class parts))
        (first_error
          (validate_histogram_sum latency_send (parts_of (λ t. t.latency_send) class parts))
          (validate_histogram_sum update_gap (parts_of (λ t. t.update_gap) class parts))))

-- The measured receives that break the order of their timestamps, against all receives.
unfoldable pub check_violations : RawCounts → ℕ → ℕ → Option MetricsError
check_violations raw loss must =
    let violations = raw.timestamp_order_violations in
    if ltb raw.recv_measured violations
    then some (violations_exceed violations raw.recv_measured)
    else if ltb loss violations && ltb must (sub_u64 violations loss)
    then some (violations_exceed violations (add_u64 loss must))
    else none

abbrev pub part_of_metric : TrafficMetric → TrafficPart
part_of_metric t = record {
  class = t.key.class;
  counts = t.counts;
  latency_sched = t.latency_sched;
  latency_send = t.latency_send;
  update_gap = t.update_gap;
  staleness = t.staleness;
}

-- `file.Classes[class]`, with Go's zero value for an absent class.
unfoldable pub class_or_zero : String → List (String × ClassMetric) → ClassMetric
class_or_zero class classes = elim (find str_eq class classes) [
  | none ↦ record {
    counts = no_counts;
    latency_sched = no_histogram;
    latency_send = no_histogram;
    update_gap = no_histogram;
  }
  | some metric ↦ metric
]

abbrev pub check_file_class : String → MetricsFile → Option MetricsError
check_file_class class file =
    let aggregate = class_or_zero class file.classes in
    check_class class aggregate.counts aggregate.latency_sched aggregate.latency_send
      aggregate.update_gap (map part_of_metric file.traffic)

unfoldable pub validate_v2_aggregate_consistency : MetricsFile → Option MetricsError
unfolding check_class class_or_zero
validate_v2_aggregate_consistency file =
    let parts = map part_of_metric file.traffic in
    first_error (check_file_class loss_tolerant file) (
      first_error (check_file_class must_deliver file) (
        first_error
          (validate_histogram_sum file.staleness (parts_of (λ t. t.staleness) loss_tolerant parts))
          (check_violations file.raw (count_sum loss_tolerant no_counts parts).delivered_unique
            (count_sum must_deliver no_counts parts).delivered_unique)))

module _ {Real : Type 0} where
  abbrev pub part_of_aggregate : TrafficAggregate Real → TrafficPart
  part_of_aggregate t = record {
    class = t.key.class;
    counts = t.counts;
    latency_sched = t.latency_sched;
    latency_send = t.latency_send;
    update_gap = t.update_gap;
    staleness = t.staleness;
  }

  -- The error of the first traffic whose class is unknown.
  unfoldable pub check_traffic_classes : List (TrafficAggregate Real) → Option MetricsError
  check_traffic_classes [] = none
  check_traffic_classes (t ∷ traffic) =
      if not (str_eq t.key.class loss_tolerant) && not (str_eq t.key.class must_deliver)
      then some (class_unknown t.key.class)
      else check_traffic_classes traffic

  unfoldable pub check_merged_class : String → MergedMetrics Real → Option MetricsError
  unfolding check_class
  check_merged_class class metrics = elim (find str_eq class metrics.classes) [
    | none ↦ some (class_missing class)
    | some aggregate ↦
        check_class class aggregate.counts aggregate.latency_sched aggregate.latency_send
          aggregate.update_gap (map part_of_aggregate metrics.traffic)
  ]

  -- Only version 2 is checked.
  unfoldable pub validate_merged_metrics_consistency : MergedMetrics Real → Option MetricsError
  unfolding check_merged_class check_traffic_classes
  validate_merged_metrics_consistency metrics =
      if not (eqb_ℤ metrics.version (pos 2))
      then none
      else first_error (check_traffic_classes metrics.traffic) (
          first_error (check_merged_class loss_tolerant metrics) (
            first_error (check_merged_class must_deliver metrics) (
              first_error
                (validate_histogram_sum metrics.staleness (
                  parts_of (λ t. t.staleness) loss_tolerant
                    (map part_of_aggregate metrics.traffic)))
                (if not (metrics.raw.timestamp_order_violations == 0)
                  then some (violations_exceed metrics.raw.timestamp_order_violations 0)
                  else none))))
