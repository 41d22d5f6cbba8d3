-- ===== src/Metrics/Consistency/Laws.antt =====
-- What the agreement of classes and traffic shows.
use rudp_bench.Common.{
  ℕ, ◌+◌, ◌≤◌, ◌<◌, ◌≡◌, refl, ◌↔◌, String, Option, none, some, List, map, arith, inl, inr, u64_mod,
  eqb_ℤ, pos, ◌==◌, not, find, str_eq, Bool, true, false, ◌⊎◌, if◌then◌else◌, Option-cases,
}
use rudp_bench.Metrics.Types.{
  ClassCounts, RawCounts, Histogram, MetricsFile, MergedMetrics, ClassAggregate, MetricsError,
  loss_tolerant, must_deliver, no_counts, violations_exceed,
}
use rudp_bench.Metrics.Counts.{first_class_count_mismatch}
use rudp_bench.Metrics.Counts.Laws.{first_class_count_mismatch_iff}
use rudp_bench.Metrics.Histogram.{validate_histogram_sum}
use rudp_bench.Metrics.Consistency.{
  first_error, TrafficPart, count_sum, parts_of, check_counts, check_class, check_violations,
  part_of_metric, class_or_zero, validate_v2_aggregate_consistency, part_of_aggregate,
  check_merged_class, check_traffic_classes, validate_merged_metrics_consistency,
}

-- The test of the violations is right for all counts of receives, even where their sum overflows:
-- it accepts exactly what is at most the measured receives and at most the sum.
check_violations_iff :
    (raw : RawCounts) (loss must : ℕ)
    → raw.timestamp_order_violations < u64_mod
    → (check_violations raw loss must ≡ none) ↔ (
        (raw.timestamp_order_violations ≤ raw.recv_measured)
        × (raw.timestamp_order_violations ≤ loss + must))
unfolding check_violations
check_violations_iff raw loss must h = ground arith

pub first_error-none :
    (a b : Option MetricsError) → first_error a b ≡ none → (a ≡ none) × (b ≡ none)
first_error-none none b h = (refl, h)
first_error-none (some e) b h = cc

pub if-none :
    (b : Bool) (e : MetricsError) (rest : Option MetricsError)
    → (if b then some e else rest) ≡ none
    → (b ≡ false) × (rest ≡ none)
if-none true e rest h = cc
if-none false e rest h = (refl, h)

check_counts-none : (got want : ClassCounts) → check_counts got want ≡ none → got ≡ want
unfolding check_counts
check_counts-none got want h = step (first_class_count_mismatch got want) refl h
  where
    step :
        (o : Option (String × ℕ × ℕ))
        → first_class_count_mismatch got want ≡ o
        → (elim o [
          | none ↦ none
          | some (name, g, w) ↦ some (rudp_bench.Metrics.Types.class_count_differs name g w)
        ])
          ≡ none
        → got ≡ want
    step none e h = (first_class_count_mismatch_iff got want).0 e
    step (some (name, g, w)) e h = cc

-- A class whose counts and histograms are the sums of those of its traffic.
pub record ClassAgrees (class : String) (counts : ClassCounts) (sched send gap : Histogram)
    (parts : List TrafficPart) : Type 0 where
  pub counts_agree : counts ≡ count_sum class no_counts parts
  pub sched_agrees :
      validate_histogram_sum sched (parts_of (λ t. t.latency_sched) class parts) ≡ none
  pub send_agrees : validate_histogram_sum send (parts_of (λ t. t.latency_send) class parts) ≡ none
  pub gap_agrees : validate_histogram_sum gap (parts_of (λ t. t.update_gap) class parts) ≡ none

check_class-none :
    (class : String) (counts : ClassCounts) (sched send gap : Histogram) (parts : List TrafficPart)
    → check_class class counts sched send gap parts ≡ none
    → ClassAgrees class counts sched send gap parts
unfolding check_class
check_class-none class counts sched send gap parts h =
    let (a, rest) = first_error-none _ _ h in
    let (b, rest') = first_error-none _ _ rest in
    let (c, d) = first_error-none _ _ rest' in
    record {
      counts_agree = check_counts-none counts (count_sum class no_counts parts) a;
      sched_agrees = b;
      send_agrees = c;
      gap_agrees = d;
    }

-- A file's class agrees with the file's traffic.
abbrev pub FileClassAgrees : String → MetricsFile → Type 0
FileClassAgrees class file =
    let aggregate = class_or_zero class file.classes in
    ClassAgrees class aggregate.counts aggregate.latency_sched aggregate.latency_send
      aggregate.update_gap (map part_of_metric file.traffic)

-- Where a version 2 file passes the check of its aggregates, both classes are the sums of their
-- traffic, so is the staleness, and the violations are at most the unique deliveries.
pub validate_v2_aggregate_consistency_lem :
    (file : MetricsFile)
    → file.raw.timestamp_order_violations < u64_mod
    → validate_v2_aggregate_consistency file ≡ none
    → FileClassAgrees loss_tolerant file
      × FileClassAgrees must_deliver file
      × (validate_histogram_sum file.staleness
            (parts_of (λ t. t.staleness) loss_tolerant (map part_of_metric file.traffic))
          ≡ none)
      × (file.raw.timestamp_order_violations
          ≤ (class_or_zero loss_tolerant file.classes).counts.delivered_unique
            + (class_or_zero must_deliver file.classes).counts.delivered_unique)
unfolding validate_v2_aggregate_consistency
validate_v2_aggregate_consistency_lem file small h =
    let (a, rest) = first_error-none _ _ h in
    let (b, rest') = first_error-none _ _ rest in
    let (c, d) = first_error-none _ _ rest' in
    let loss = check_class-none _ _ _ _ _ _ a in
    let must = check_class-none _ _ _ _ _ _ b in
    (
      loss,
      must,
      c,
      rw (loss.counts_agree, must.counts_agree) ((check_violations_iff file.raw _ _ small).0 d).1,
    )

module _ {Real : Type 0} where
  check_merged_class-none :
      (class : String) (metrics : MergedMetrics Real)
      → check_merged_class class metrics ≡ none
      → (aggregate : ClassAggregate Real) × (find str_eq class metrics.classes ≡ some aggregate)
        × ClassAgrees class aggregate.counts aggregate.latency_sched aggregate.latency_send
            aggregate.update_gap
            (map part_of_aggregate metrics.traffic)
  unfolding check_merged_class
  check_merged_class-none class metrics h =
      elim (Option-cases (find str_eq class metrics.classes)) [
        | inl e ↦ absurd (ground (arith, rw (check_merged_class, e) at h))
        | inr (aggregate, e) ↦
            (aggregate, e, check_class-none _ _ _ _ _ _ (rw (check_merged_class, e) at h))
      ]

  -- Where merged metrics of version 2 pass, each of the two classes is there and agrees with the
  -- traffic, and no receive breaks the order of its timestamps.
  pub validate_merged_metrics_consistency_lem :
      (metrics : MergedMetrics Real) (class : String)
      → metrics.version ≡ pos 2
      → validate_merged_metrics_consistency metrics ≡ none
      → (class ≡ loss_tolerant) ⊎ (class ≡ must_deliver)
      → ((aggregate : ClassAggregate Real) × (find str_eq class metrics.classes ≡ some aggregate)
          × ClassAgrees class aggregate.counts aggregate.latency_sched aggregate.latency_send
              aggregate.update_gap
              (map part_of_aggregate metrics.traffic))
        × (metrics.raw.timestamp_order_violations ≡ 0)
  unfolding validate_merged_metrics_consistency
  validate_merged_metrics_consistency_lem metrics class two h c =
      let same : eqb_ℤ metrics.version (pos 2) ≡ true = rw two refl in
      let (a, rest) = first_error-none (check_traffic_classes metrics.traffic) _ (rw same at h) in
      let (b, rest') = first_error-none (check_merged_class loss_tolerant metrics) _ rest in
      let (m, rest'') = first_error-none (check_merged_class must_deliver metrics) _ rest' in
      let (d, e) =
        first_error-none
          (validate_histogram_sum metrics.staleness
            (parts_of (λ t. t.staleness) loss_tolerant (map part_of_aggregate metrics.traffic)))
          (if not (metrics.raw.timestamp_order_violations == 0)
            then some (violations_exceed metrics.raw.timestamp_order_violations 0)
            else none)
          rest'' in
      let checked : check_merged_class class metrics ≡ none = elim c [
        | inl e ↦ rw e b
        | inr e ↦ rw e m
      ] in
      (check_merged_class-none class metrics checked, ground (arith, e))
