-- ===== src/Metrics/FileTests.antt =====
-- Two process files, of version 1 and of version 2, and the theorems of validation and merge on
-- them.
use mathlib.Core.List.{Permᴰ}
use rudp_bench.Common.{
  ℕ, ◌≡◌, refl, inr, false, List, [], ◌∷◌, none, some, pos, find, put, str_eq, All, map,
}
use rudp_bench.Control.Tests.{numbers}
use rudp_bench.Metrics.Types.{
  Histogram, ClassCounts, ClassMetric, TrafficMetric, MetricsFile, ClassAggregate, MergedMetrics,
  Checked, ok, failed, loss_tolerant, must_deliver, room_relay, no_counts, no_histogram, same_key,
}
use rudp_bench.Metrics.Counts.{
  validate_class_counts, add_class_counts, first_difference, first_class_count_mismatch,
  expected_receives,
}
use rudp_bench.Metrics.Histogram.{
  sum_bins, validate_v2_histogram, add_bins, start_bins, add_histogram, sum_parts, compare_bins,
  compare_sums, validate_histogram_sum,
}
use rudp_bench.Metrics.Histogram.Bounds.{v2_layout}
use rudp_bench.Metrics.Consistency.{
  count_sum, parts_of, check_counts, check_class, check_violations, class_or_zero,
  validate_v2_aggregate_consistency, check_traffic_classes, check_merged_class,
  validate_merged_metrics_consistency, part_of_aggregate,
}
use rudp_bench.Metrics.Consistency.Laws.{ClassAgrees, validate_merged_metrics_consistency_lem}
use rudp_bench.Metrics.Validate.{
  check_class_counts, check_class_histograms, check_v2, seen_key, check_traffic_histograms,
  check_traffic, validate_metrics_file,
}
use rudp_bench.Metrics.Validate.Accepted.{FileAccepted, validate_metrics_file-FileAccepted}
use rudp_bench.Metrics.Merge.{
  bind, add_optional, add_raw, aggregate_of, new_merged_metrics, add_class, add_classes,
  add_all_traffic, add,
}
use rudp_bench.Metrics.Merge.Totals.{is_loss, is_must}
use rudp_bench.Metrics.Finalize.{
  sort_keys, check_receives, finalize_class, finalize_classes, finalize_keys, finalize,
  parse_metrics_artifact, merge_next, merge_rest, merge_metrics_data,
}
use rudp_bench.Metrics.Finalize.Classes.{ClassBounded}
use rudp_bench.Metrics.Finalize.Merged.{
  Parsed, Sums, merge_metrics_data_totals, merge_metrics_data_order,
}
use rudp_bench.Metrics.Tests.{counts, raw, filled, empty}

abbrev small : Histogram
small = record {
  scheme = "s";
  min_ns = 1;
  max_ns = 9;
  count = 3;
  p50_ns = 0;
  p90_ns = 0;
  p99_ns = 0;
  bins = 1 ∷ 2 ∷ [];
}

abbrev small_class : ClassMetric
small_class = record {
  counts = counts;
  latency_sched = small;
  latency_send = small;
  update_gap = no_histogram;
}

abbrev first_file : MetricsFile
first_file = record {
  version = pos 1;
  histogram = record { scheme = "s"; subbins = 2; min_ns = 1; max_ns = 9 };
  classes = (loss_tolerant, small_class) ∷ (must_deliver, small_class) ∷ [];
  staleness = small;
  update_gap = no_histogram;
  raw = raw;
  traffic = [];
}

abbrev second_file : MetricsFile
second_file = record first_file {
  classes = (must_deliver, small_class) ∷ (loss_tolerant, small_class) ∷ [];
}

-- The artifacts are files, read as they are.
abbrev merge : List MetricsFile → Checked (MergedMetrics ℕ)
merge files = merge_metrics_data numbers (λ file. ok file) files (pos 3)

abbrev or_else : MergedMetrics ℕ → Checked (MergedMetrics ℕ) → MergedMetrics ℕ
or_else d (ok m) = m
or_else d (failed e) = d

abbrev nothing : MergedMetrics ℕ
nothing = new_merged_metrics numbers (pos 1) first_file.histogram (pos 3)

unfoldable merged : List MetricsFile → MergedMetrics ℕ
merged files = or_else nothing (merge files)

merge_one : merge (first_file ∷ second_file ∷ []) ≡ ok (merged (first_file ∷ second_file ∷ []))
unfolding merged validate_metrics_file check_class_counts find put validate_class_counts check_v2
    check_traffic merge_metrics_data merge_rest merge_next parse_metrics_artifact bind add
    add_classes add_class aggregate_of class_or_zero add_class_counts add_histogram start_bins
    add_bins add_optional add_all_traffic add_raw new_merged_metrics finalize finalize_classes
    finalize_class check_receives expected_receives finalize_keys sort_keys
merge_one = refl

merge_other : merge (second_file ∷ first_file ∷ []) ≡ ok (merged (second_file ∷ first_file ∷ []))
unfolding merged validate_metrics_file check_class_counts find put validate_class_counts check_v2
    check_traffic merge_metrics_data merge_rest merge_next parse_metrics_artifact bind add
    add_classes add_class aggregate_of class_or_zero add_class_counts add_histogram start_bins
    add_bins add_optional add_all_traffic add_raw new_merged_metrics finalize finalize_classes
    finalize_class check_receives expected_receives finalize_keys sort_keys
merge_other = refl

merge_metrics_data_totals_example :
    All (Parsed numbers (λ (file : MetricsFile). ok file)) (first_file ∷ second_file ∷ [])
    × Sums numbers
        (λ (file : MetricsFile). ok file)
        loss_tolerant
        (first_file ∷ second_file ∷ [])
        (aggregate_of numbers loss_tolerant (merged (first_file ∷ second_file ∷ [])).classes).counts
    × ClassBounded
        (aggregate_of numbers loss_tolerant (merged (first_file ∷ second_file ∷ [])).classes).counts
        (aggregate_of numbers loss_tolerant
          (merged (first_file ∷ second_file ∷ [])).classes).expected_receives
        (pos 3)
merge_metrics_data_totals_example =
    merge_metrics_data_totals numbers (λ (file : MetricsFile). ok file)
      (first_file ∷ second_file ∷ []) (pos 3) (merged (first_file ∷ second_file ∷ [])) loss_tolerant
      is_loss merge_one

merge_metrics_data_order_example :
    (aggregate_of numbers must_deliver (merged (first_file ∷ second_file ∷ [])).classes).counts
    ≡ (aggregate_of numbers must_deliver (merged (second_file ∷ first_file ∷ [])).classes).counts
merge_metrics_data_order_example =
    merge_metrics_data_order numbers (λ (file : MetricsFile). ok file)
      (first_file ∷ second_file ∷ []) (second_file ∷ first_file ∷ []) (pos 3)
      (merged (first_file ∷ second_file ∷ [])) (merged (second_file ∷ first_file ∷ [])) must_deliver
      is_must (Permᴰ.swap refl refl) merge_one merge_other

abbrev pub traffic : TrafficMetric
traffic = record {
  key = record { traffic_id = 1; direction = room_relay; class = loss_tolerant };
  deadline_ns = 500;
  counts = counts;
  latency_sched = filled;
  latency_send = filled;
  update_gap = filled;
  staleness = filled;
}

abbrev pub v2_file : MetricsFile
v2_file = record {
  version = pos 2;
  histogram = v2_layout;
  classes =
      (
        loss_tolerant,
        record {
          counts = counts;
          latency_sched = filled;
          latency_send = filled;
          update_gap = filled;
        },
      )
      ∷ (
        must_deliver,
        record {
          counts = no_counts;
          latency_sched = empty;
          latency_send = empty;
          update_gap = empty;
        },
      )
      ∷ [];
  staleness = filled;
  update_gap = no_histogram;
  raw = raw;
  traffic = traffic ∷ [];
}

v2_valid : validate_metrics_file v2_file false ≡ none
unfolding validate_metrics_file check_class_counts find validate_class_counts check_v2
    check_class_histograms validate_v2_histogram sum_bins check_traffic seen_key same_key
    check_traffic_histograms validate_v2_aggregate_consistency check_class check_counts count_sum
    parts_of first_class_count_mismatch first_difference add_class_counts validate_histogram_sum
    sum_parts compare_sums compare_bins add_bins check_violations class_or_zero
v2_valid = refl

validate_metrics_file-FileAccepted_example : FileAccepted v2_file
validate_metrics_file-FileAccepted_example =
    validate_metrics_file-FileAccepted v2_file false v2_valid

abbrev aggregate : ClassCounts → Histogram → ClassAggregate ℕ
aggregate c h = record {
  update_gap = h;
  counts = c;
  expected_receives = 18;
  delivery_ratio = 0;
  attempted_ratio = 0;
  deadline_hit_ratio = 0;
  latency_sched = h;
  latency_send = h;
}

abbrev pub v2_merged : MergedMetrics ℕ
v2_merged = record {
  version = pos 2;
  total_conns = pos 3;
  histogram = v2_layout;
  classes =
      (loss_tolerant, aggregate counts filled) ∷ (must_deliver, aggregate no_counts empty) ∷ [];
  staleness = filled;
  update_gap = no_histogram;
  raw = raw;
  traffic =
      record {
        key = traffic.key;
        deadline_ns = 500;
        counts = counts;
        expected_receives = 18;
        delivery_ratio = 0;
        attempted_ratio = 0;
        deadline_hit_ratio = 0;
        latency_sched = filled;
        latency_send = filled;
        update_gap = filled;
        staleness = filled;
      }
      ∷ [];
  traffic_by_key = [];
}

validate_merged_metrics_consistency_lem_example :
    ((a : ClassAggregate ℕ) × (find str_eq must_deliver v2_merged.classes ≡ some a)
      × ClassAgrees must_deliver a.counts a.latency_sched a.latency_send a.update_gap
          (map part_of_aggregate v2_merged.traffic))
    × (v2_merged.raw.timestamp_order_violations ≡ 0)
unfolding validate_merged_metrics_consistency check_traffic_classes check_merged_class
    validate_metrics_file check_class_counts find validate_class_counts check_v2
    check_class_histograms validate_v2_histogram sum_bins check_traffic seen_key same_key
    check_traffic_histograms validate_v2_aggregate_consistency check_class check_counts count_sum
    parts_of first_class_count_mismatch first_difference add_class_counts validate_histogram_sum
    sum_parts compare_sums compare_bins add_bins check_violations class_or_zero
validate_merged_metrics_consistency_lem_example =
    validate_merged_metrics_consistency_lem v2_merged must_deliver refl refl (inr refl)
