-- ===== src/Metrics/Merge.antt =====
-- orchestrator/run/metrics.go: `newMergedMetrics` and `MergedMetrics.add`. Merged metrics that an
-- error leaves half added are dropped by the caller, so an error carries none.
pub mod Totals
use rudp_bench.Common.{
  ℕ, Bool, not, String, Option, none, some, List, [], ◌∷◌, ◌==◌, ℤ, str_eq, if◌then◌else◌, find,
  put, add_u64, Float64,
}
use rudp_bench.Metrics.Types.{
  HistogramLayout, Histogram, ClassCounts, RawCounts, ClassMetric, TrafficMetric, TrafficKey,
  MetricsFile, ClassAggregate, TrafficAggregate, MergedMetrics, MetricsError, deadline_differs,
  Checked, ok, failed, loss_tolerant, must_deliver, metric_class_names, no_counts, no_histogram,
  same_key,
}
use rudp_bench.Metrics.Counts.{add_class_counts}
use rudp_bench.Metrics.Histogram.{add_histogram, is_nil}
use rudp_bench.Metrics.Consistency.{class_or_zero}

unfoldable pub bind {ℓ κ} : {A : Type ℓ} {B : Type κ} → Checked A → (A → Checked B) → Checked B
bind (ok a) k = k a
bind (failed e) k = failed e

-- A histogram that clients may leave out.
unfoldable pub add_optional : Histogram → Histogram → HistogramLayout → Checked Histogram
add_optional dst src layout = if is_nil src.bins then ok dst else add_histogram dst src layout

unfoldable pub add_raw : RawCounts → RawCounts → RawCounts
add_raw a b = record {
  slots = add_u64 a.slots b.slots;
  submitted = add_u64 a.submitted b.submitted;
  recv_measured = add_u64 a.recv_measured b.recv_measured;
  recv_unmeasured = add_u64 a.recv_unmeasured b.recv_unmeasured;
  timestamp_order_violations = add_u64 a.timestamp_order_violations b.timestamp_order_violations;
}

module _ (f : Float64) where
  open f use {Real, of_nat}

  abbrev pub no_aggregate : ClassAggregate Real
  no_aggregate = record {
    update_gap = no_histogram;
    counts = no_counts;
    expected_receives = 0;
    delivery_ratio = of_nat 0;
    attempted_ratio = of_nat 0;
    deadline_hit_ratio = of_nat 0;
    latency_sched = no_histogram;
    latency_send = no_histogram;
  }

  -- `m.Classes[name]`.
  unfoldable pub aggregate_of : String → List (String × ClassAggregate Real) → ClassAggregate Real
  aggregate_of name classes = elim (find str_eq name classes) [
    | none ↦ no_aggregate
    | some aggregate ↦ aggregate
  ]

  unfoldable pub new_merged_metrics : ℤ → HistogramLayout → ℤ → MergedMetrics Real
  new_merged_metrics version layout total_conns = record {
    version = version;
    total_conns = total_conns;
    histogram = layout;
    classes = (loss_tolerant, no_aggregate) ∷ (must_deliver, no_aggregate) ∷ [];
    staleness = no_histogram;
    update_gap = no_histogram;
    raw = record {
      slots = 0;
      submitted = 0;
      recv_measured = 0;
      recv_unmeasured = 0;
      timestamp_order_violations = 0;
    };
    traffic = [];
    traffic_by_key = [];
  }

  -- The body of the loop over the classes.
  unfoldable pub add_class :
      HistogramLayout → ClassAggregate Real → ClassMetric → Checked (ClassAggregate Real)
  unfolding bind add_optional
  add_class layout dst src =
      bind (add_histogram dst.latency_sched src.latency_sched layout) (λ sched.
        bind (add_histogram dst.latency_send src.latency_send layout) (λ send.
          bind (add_optional dst.update_gap src.update_gap layout) (λ gap. ok (record dst {
            counts = add_class_counts dst.counts src.counts;
            latency_sched = sched;
            latency_send = send;
            update_gap = gap;
          }))))

  unfoldable pub add_classes :
      HistogramLayout
      → List String
      → List (String × ClassMetric)
      → List (String × ClassAggregate Real)
      → Checked (List (String × ClassAggregate Real))
  unfolding bind add_class aggregate_of
  add_classes layout [] src dst = ok dst
  add_classes layout (name ∷ names) src dst =
      bind (add_class layout (aggregate_of name dst) (class_or_zero name src))
        (λ aggregate. add_classes layout names src (put str_eq name aggregate dst))

  -- `m.trafficByKey[key]`, begun with the key and the deadline where it is new.
  unfoldable pub start_traffic :
      TrafficMetric → Option (TrafficAggregate Real) → Checked (TrafficAggregate Real)
  start_traffic src none = ok (record {
    key = src.key;
    deadline_ns = src.deadline_ns;
    counts = no_counts;
    expected_receives = 0;
    delivery_ratio = of_nat 0;
    attempted_ratio = of_nat 0;
    deadline_hit_ratio = of_nat 0;
    latency_sched = no_histogram;
    latency_send = no_histogram;
    update_gap = no_histogram;
    staleness = no_histogram;
  })
  start_traffic src (some dst) =
      if str_eq dst.key.direction ""
      then ok (record dst { key = src.key; deadline_ns = src.deadline_ns })
      else if not (dst.deadline_ns == src.deadline_ns)
      then failed (deadline_differs src.key src.deadline_ns dst.deadline_ns)
      else ok dst

  -- The body of the loop over the traffic, up to the write of the map.
  unfoldable pub add_traffic :
      HistogramLayout → TrafficAggregate Real → TrafficMetric → Checked (TrafficAggregate Real)
  unfolding bind add_optional
  add_traffic layout dst src =
      bind (add_histogram dst.latency_sched src.latency_sched layout) (λ sched.
        bind (add_histogram dst.latency_send src.latency_send layout) (λ send.
          bind (add_optional dst.update_gap src.update_gap layout) (λ gap.
            bind (add_optional dst.staleness src.staleness layout) (λ staleness. ok (record dst {
              counts = add_class_counts dst.counts src.counts;
              latency_sched = sched;
              latency_send = send;
              update_gap = gap;
              staleness = staleness;
            })))))

  unfoldable pub add_all_traffic :
      HistogramLayout
      → List TrafficMetric
      → List (TrafficKey × TrafficAggregate Real)
      → Checked (List (TrafficKey × TrafficAggregate Real))
  unfolding bind start_traffic add_traffic
  add_all_traffic layout [] m = ok m
  add_all_traffic layout (src ∷ traffic) m =
      bind (start_traffic src (find same_key src.key m)) (λ start.
        bind (add_traffic layout start src)
          (λ dst. add_all_traffic layout traffic (put same_key src.key dst m)))

  unfoldable pub add : MergedMetrics Real → MetricsFile → Checked (MergedMetrics Real)
  unfolding bind add_classes add_optional add_all_traffic add_raw
  add m file = bind (add_classes m.histogram metric_class_names file.classes m.classes) (λ classes.
      bind (add_histogram m.staleness file.staleness m.histogram) (λ staleness.
        bind (add_optional m.update_gap file.update_gap m.histogram) (λ gap.
          bind (add_all_traffic m.histogram file.traffic m.traffic_by_key) (λ traffic.
            ok (record m {
              classes = classes;
              staleness = staleness;
              update_gap = gap;
              traffic_by_key = traffic;
              raw = add_raw m.raw file.raw;
            })))))
