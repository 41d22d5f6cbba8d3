-- ===== src/Metrics/Finalize.antt =====
-- orchestrator/run/metrics.go: `finalize`, `TrafficMetric`, the attempted ratio and
-- `MergeMetricsData`. The decoding of an artifact's JSON is a parameter.
pub mod Classes
pub mod Merged
use Prim.Native.String.{compare}
use Prim.Native.Nat.{Ordering}
use rudp_bench.Common.{
  ℕ, ◌+◌, Bool, true, false, not, ◌&&◌, String, Option, none, some, List, [], ◌∷◌, map, ◌==◌, ltb,
  ℤ, pos, eqb_ℤ, ltb_ℤ, str_eq, if◌then◌else◌, find, put, add_u64, Float64,
}
use rudp_bench.Metrics.Types.{
  HistogramLayout, Histogram, ClassCounts, TrafficKey, MetricsFile, ClassAggregate,
  TrafficAggregate, MergedMetrics, MetricsError, broadcast_exceeds, delivered_exceeds,
  layout_mismatch, version_mixed, nothing_to_merge, Checked, ok, failed, loss_tolerant,
  must_deliver, metric_class_names, same_key,
}
use rudp_bench.Metrics.Counts.{expected_receives, ratio_or_one}
use rudp_bench.Metrics.Histogram.{finalize_histogram}
use rudp_bench.Metrics.Validate.{validate_metrics_file}
use rudp_bench.Metrics.Merge.{bind, aggregate_of, new_merged_metrics, add}

-- `a < b` on strings.
abbrev pub str_lt : String → String → Bool
str_lt a b = elim (compare a b) [ Ordering.lt ↦ true | _ ↦ false ]

-- The comparison that `sort.Slice` is given.
unfoldable pub key_before : TrafficKey → TrafficKey → Bool
key_before a b =
    if not (a.traffic_id == b.traffic_id)
    then ltb a.traffic_id b.traffic_id
    else if not (str_eq a.direction b.direction)
    then str_lt a.direction b.direction
    else str_lt a.class b.class

unfoldable pub insert_key : TrafficKey → List TrafficKey → List TrafficKey
insert_key k [] = k ∷ []
insert_key k (j ∷ keys) = if key_before k j then k ∷ j ∷ keys else j ∷ insert_key k keys

-- `sort.Slice`, as an insertion sort: the keys of a map differ, so every sort gives the same list.
unfoldable pub sort_keys : List TrafficKey → List TrafficKey
unfolding insert_key
sort_keys [] = []
sort_keys (k ∷ keys) = insert_key k (sort_keys keys)

-- The two checks of counts, and the receives that they expect.
unfoldable pub check_receives : ClassCounts → ℤ → Checked ℕ
check_receives c total_conns =
    let expected = expected_receives c.slots c.slots_broadcast total_conns in
    if ltb c.slots c.slots_broadcast
    then failed (broadcast_exceeds c.slots_broadcast c.slots)
    else if ltb expected c.delivered_unique
    then failed (delivered_exceeds c.delivered_unique expected)
    else ok expected

module _ (f : Float64) where
  open f use {Real}

  unfoldable pub finalize_class :
      HistogramLayout → ℤ → ClassAggregate Real → Checked (ClassAggregate Real)
  unfolding check_receives
  finalize_class layout total_conns c = bind (check_receives c.counts total_conns) (λ expected.
      ok (record c {
        expected_receives = expected;
        delivery_ratio = ratio_or_one f c.counts.delivered_unique expected;
        attempted_ratio = ratio_or_one f c.counts.submitted c.counts.slots;
        deadline_hit_ratio = ratio_or_one f c.counts.deadline_hit expected;
        latency_sched = finalize_histogram f c.latency_sched layout;
        latency_send = finalize_histogram f c.latency_send layout;
        update_gap = finalize_histogram f c.update_gap layout;
      }))

  unfoldable pub finalize_classes :
      HistogramLayout
      → ℤ
      → List String
      → List (String × ClassAggregate Real)
      → Checked (List (String × ClassAggregate Real))
  unfolding finalize_class
  finalize_classes layout total_conns [] classes = ok classes
  finalize_classes layout total_conns (name ∷ names) classes =
      bind (finalize_class layout total_conns (aggregate_of f name classes))
        (λ aggregate. finalize_classes layout total_conns names (put str_eq name aggregate classes))

  unfoldable pub finalize_traffic :
      HistogramLayout → ℤ → TrafficAggregate Real → Checked (TrafficAggregate Real)
  unfolding check_receives
  finalize_traffic layout total_conns t = bind (check_receives t.counts total_conns) (λ expected.
      ok (record t {
        expected_receives = expected;
        delivery_ratio = ratio_or_one f t.counts.delivered_unique expected;
        attempted_ratio = ratio_or_one f t.counts.submitted t.counts.slots;
        deadline_hit_ratio = ratio_or_one f t.counts.deadline_hit expected;
        latency_sched = finalize_histogram f t.latency_sched layout;
        latency_send = finalize_histogram f t.latency_send layout;
        update_gap = finalize_histogram f t.update_gap layout;
        staleness = finalize_histogram f t.staleness layout;
      }))

  -- The loop over the sorted keys, with the map and the list that it has made. The keys are the
  -- map's, so each is found.
  unfoldable pub finalize_keys :
      HistogramLayout
      → ℤ
      → List TrafficKey
      → List (TrafficKey × TrafficAggregate Real)
      → Checked (List (TrafficAggregate Real) × List (TrafficKey × TrafficAggregate Real))
  unfolding finalize_traffic
  finalize_keys layout total_conns [] m = ok ([], m)
  finalize_keys layout total_conns (key ∷ keys) m = elim (find same_key key m) [
    | none ↦ finalize_keys layout total_conns keys m
    | some entry ↦ bind (finalize_traffic layout total_conns entry) (λ t.
        bind (finalize_keys layout total_conns keys (put same_key key t m))
          (λ rest. ok (t ∷ rest.0, rest.1)))
  ]

  unfoldable pub finalize : MergedMetrics Real → Checked (MergedMetrics Real)
  unfolding finalize_classes finalize_keys sort_keys
  finalize m =
      bind (finalize_classes m.histogram m.total_conns metric_class_names m.classes) (λ classes.
        bind
          (finalize_keys m.histogram m.total_conns (sort_keys (map (λ e. e.0) m.traffic_by_key))
            m.traffic_by_key)
          (λ made. ok (record m {
            classes = classes;
            staleness = finalize_histogram f m.staleness m.histogram;
            update_gap = finalize_histogram f m.update_gap m.histogram;
            traffic = made.0;
            traffic_by_key = made.1;
          })))

  -- The first traffic of the list with a key.
  unfoldable pub find_candidate :
      TrafficKey → List (TrafficAggregate Real) → Option (TrafficAggregate Real)
  find_candidate key [] = none
  find_candidate key (t ∷ traffic) =
      if same_key t.key key then some t else find_candidate key traffic

  unfoldable pub traffic_metric : MergedMetrics Real → TrafficKey → Option (TrafficAggregate Real)
  unfolding find_candidate
  traffic_metric m key = elim (find same_key key m.traffic_by_key) [
    | some t ↦ some t
    | none ↦ find_candidate key m.traffic
  ]

  -- Extra slots count as attempted.
  unfoldable pub attempted_ratio_with : MergedMetrics Real → ℕ → Real
  attempted_ratio_with m extra =
      let loss = (aggregate_of f loss_tolerant m.classes).counts in
      let must = (aggregate_of f must_deliver m.classes).counts in
      ratio_or_one f (add_u64 (add_u64 (add_u64 0 loss.submitted) must.submitted) extra)
        (add_u64 (add_u64 0 loss.slots) must.slots)

  abbrev pub attempted_ratio : MergedMetrics Real → Real
  attempted_ratio m = attempted_ratio_with m 0

  abbrev pub same_layout : HistogramLayout → HistogramLayout → Bool
  same_layout a b =
      str_eq a.scheme b.scheme
      && a.subbins == b.subbins
      && a.min_ns == b.min_ns
      && a.max_ns == b.max_ns

  module _ {Artifact : Type 0} (decode : Artifact → Checked MetricsFile) where
    abbrev pub refuse_invalid : MetricsFile → Option MetricsError → Checked MetricsFile
    refuse_invalid file none = ok file
    refuse_invalid file (some e) = failed e

    unfoldable pub parse_metrics_artifact : Artifact → Bool → Checked MetricsFile
    parse_metrics_artifact artifact allow_empty =
        bind (decode artifact)
          (λ file. refuse_invalid file (validate_metrics_file file allow_empty))

    -- The body of the loop over the artifacts, where metrics are merged already.
    unfoldable pub merge_next : MergedMetrics Real → MetricsFile → Checked (MergedMetrics Real)
    merge_next merged file =
        if not (eqb_ℤ file.version merged.version)
        then failed (version_mixed file.version merged.version)
        else if not (same_layout file.histogram merged.histogram)
        then failed layout_mismatch
        else add f merged file

    -- The loop after the first artifact.
    unfoldable pub merge_rest : MergedMetrics Real → List Artifact → Checked (MergedMetrics Real)
    unfolding parse_metrics_artifact merge_next
    merge_rest merged [] = ok merged
    merge_rest merged (artifact ∷ artifacts) =
        bind (parse_metrics_artifact artifact false)
          (λ file. bind (merge_next merged file) (λ next. merge_rest next artifacts))

    -- The versions are 1 or 2, so the expected version is that of the first file, which is the
    -- merged version.
    unfoldable pub merge_metrics_data : List Artifact → ℤ → Checked (MergedMetrics Real)
    unfolding parse_metrics_artifact merge_rest finalize
    merge_metrics_data [] total_conns = failed nothing_to_merge
    merge_metrics_data (artifact ∷ artifacts) total_conns =
        bind (parse_metrics_artifact artifact false) (λ file.
          bind (add f (new_merged_metrics f file.version file.histogram total_conns) file)
            (λ first. bind (merge_rest first artifacts) finalize))
