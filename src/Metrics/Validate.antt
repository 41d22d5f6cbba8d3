-- ===== src/Metrics/Validate.antt =====
-- orchestrator/run/metrics.go: `validateMetricsFile`. Go ranges over a map of three or four
-- histograms in any order, so only which of several errors is found first depends on it; here it
-- is the written order. The loop over the classes of a file takes them in the list's order.
pub mod Accepted
use rudp_bench.Common.{
  ℕ, Bool, not, ◌&&◌, ◌||◌, String, Option, none, some, List, [], ◌∷◌, length, ◌==◌, eqb_ℤ, pos,
  str_eq, if◌then◌else◌, find,
}
use rudp_bench.Metrics.Types.{
  HistogramLayout, Histogram, ClassMetric, TrafficMetric, TrafficKey, MetricsFile, MetricsError,
  version_unknown, layout_incomplete, layout_not_v2, class_missing, traffic_missing,
  direction_unknown, class_unknown, traffic_duplicate, loss_tolerant, must_deliver, room_relay,
  client_to_server, server_to_client, metric_class_names, same_key,
}
use rudp_bench.Metrics.Counts.{validate_class_counts}
use rudp_bench.Metrics.Histogram.{validate_v2_histogram, is_nil}
use rudp_bench.Metrics.Consistency.{first_error, validate_v2_aggregate_consistency}

abbrev pub incomplete : HistogramLayout → Bool
incomplete layout =
    str_eq layout.scheme "" || layout.subbins == 0 || layout.min_ns == 0 || layout.max_ns == 0

abbrev pub is_v2 : HistogramLayout → Bool
is_v2 layout =
    str_eq layout.scheme "log2x16"
    && layout.subbins == 16
    && layout.min_ns == 1000
    && layout.max_ns == 100000000000

-- Both classes are there and their counts are well formed.
unfoldable pub check_class_counts : List String → List (String × ClassMetric) → Option MetricsError
check_class_counts [] classes = none
check_class_counts (name ∷ names) classes = elim (find str_eq name classes) [
  | none ↦ some (class_missing name)
  | some metric ↦
      first_error (validate_class_counts metric.counts) (check_class_counts names classes)
]

-- The histograms of every class of the file.
unfoldable pub check_class_histograms :
    HistogramLayout → List (String × ClassMetric) → Option MetricsError
check_class_histograms layout [] = none
check_class_histograms layout ((name, metric) ∷ classes) =
    first_error (validate_v2_histogram metric.latency_sched layout) (
      first_error (validate_v2_histogram metric.latency_send layout) (
        first_error (validate_v2_histogram metric.update_gap layout)
          (check_class_histograms layout classes)))

-- What only version 2 asks, before the traffic. The update gap of the whole file is optional.
unfoldable pub check_v2 : MetricsFile → Option MetricsError
unfolding check_class_histograms
check_v2 file =
    if not (is_v2 file.histogram)
    then some layout_not_v2
    else first_error (check_class_histograms file.histogram file.classes) (
        first_error (validate_v2_histogram file.staleness file.histogram) (
          if is_nil file.update_gap.bins
          then none
          else validate_v2_histogram file.update_gap file.histogram))

abbrev pub known_direction : String → Bool
known_direction d = str_eq d room_relay || str_eq d client_to_server || str_eq d server_to_client

abbrev pub known_class : String → Bool
known_class c = str_eq c loss_tolerant || str_eq c must_deliver

-- `seenTraffic[key]`.
unfoldable pub seen_key : TrafficKey → List TrafficKey → Bool
unfolding same_key
seen_key key [] = Bool.false
seen_key key (k ∷ seen) = same_key k key || seen_key key seen

unfoldable pub check_traffic_histograms : TrafficMetric → HistogramLayout → Option MetricsError
check_traffic_histograms t layout = first_error (validate_v2_histogram t.latency_sched layout) (
    first_error (validate_v2_histogram t.latency_send layout) (
      first_error (validate_v2_histogram t.update_gap layout)
        (validate_v2_histogram t.staleness layout)))

-- The loop over the traffic, with the keys that it has seen.
unfoldable pub check_traffic :
    HistogramLayout → List TrafficKey → List TrafficMetric → Option MetricsError
unfolding seen_key check_traffic_histograms
check_traffic layout seen [] = none
check_traffic layout seen (t ∷ traffic) =
    let rest = check_traffic layout (t.key ∷ seen) traffic in
    if not (known_direction t.key.direction)
    then some (direction_unknown t.key.direction)
    else if not (known_class t.key.class)
    then some (class_unknown t.key.class)
    else if seen_key t.key seen
    then some (traffic_duplicate t.key)
    else first_error (validate_class_counts t.counts)
        (first_error (check_traffic_histograms t layout) rest)

unfoldable pub validate_metrics_file : MetricsFile → Bool → Option MetricsError
unfolding check_class_counts check_v2 check_traffic
validate_metrics_file file allow_empty_traffic =
    let two = eqb_ℤ file.version (pos 2) in
    if not (eqb_ℤ file.version (pos 1)) && not two
    then some (version_unknown file.version)
    else if incomplete file.histogram
    then some layout_incomplete
    else first_error (check_class_counts metric_class_names file.classes) (
        if two && length file.traffic == 0 && not allow_empty_traffic
        then some traffic_missing
        else first_error (if two then check_v2 file else none) (
            first_error (check_traffic file.histogram [] file.traffic)
              (if two then validate_v2_aggregate_consistency file else none)))
