-- ===== src/Scenario/Contract/Merged/Kept.antt =====
-- What the merged metrics of a run show that keeps the contract.
use rudp_bench.Common.{
  ℕ, ◌≡◌, refl, sym, subst, ◌⊎◌, inl, inr, ◌↔◌, true, false, not, String, Option, none, some, List,
  [], ◌∷◌, ◌==◌, ℤ, pos, eqb_ℤ, to_bits64, str_eq, All, arith, Bool-cases, Option-cases, ◌≢◌,
  Float64,
}
use rudp_bench.Metrics.Types.{TrafficKey, loss_tolerant, TrafficAggregate, MergedMetrics}
use rudp_bench.Metrics.Finalize.{traffic_metric}
use rudp_bench.Scenario.Spec.{TrafficClassSpec, TrafficSpec, TrafficCase}
use rudp_bench.Scenario.Contract.{merged_role, expected_latest_flows, enabled_traffic_classes}
use rudp_bench.Scenario.Contract.Merged.{
  check_samples, check_merged_metric, check_merged_classes, check_merged_cases, check_merged,
}
use rudp_bench.Scenario.Contract.Ranges.{
  Ranged, range, refused, panic, expected_staleness_sample_range,
}
use rudp_bench.Scenario.Contract.Kept.{
  WhereSome, InRange, then_check-none, refuse_if-none, check_flows_iff,
}

check_samples_iff : (r : Ranged) (n : ℕ) → (check_samples r n ≡ none) ↔ InRange r n
check_samples_iff (range least most) n = ground arith
check_samples_iff (refused e) n = (λ h. cc, λ h. absurd h)
check_samples_iff panic n = (λ h. cc, λ h. absurd h)

module _ (f : Float64) where
  open f use {Real}

  module _ (total_conns duration : ℤ) (period : ℕ) (kind : String) where
    abbrev pub flows_of : TrafficCase Real → ℤ
    flows_of c = expected_latest_flows kind merged_role c.direction total_conns total_conns

    -- A merged series: measured slots, the deadline of the scenario, and for the loss-tolerant class
    -- the flows of the scenario and as many staleness samples as its ticks give.
    pub record MergedKept (c : TrafficCase Real) (spec : TrafficSpec Real) (class : String)
        (metric : TrafficAggregate Real) : Type 0 where
      pub slots : metric.counts.slots ≢ 0
      pub deadline : metric.deadline_ns ≡ spec.must_deliver.deadline_ns
      pub latest :
          (str_eq class loss_tolerant ≡ false)
          ⊎ ((metric.counts.expected_flows ≡ to_bits64 (flows_of c))
              × InRange
                  (expected_staleness_sample_range duration period (flows_of c))
                  metric.staleness.count)

    abbrev pub MergedSeriesKept :
        MergedMetrics Real → TrafficCase Real → TrafficSpec Real → String → Type 0
    MergedSeriesKept merged c spec class =
        (metric : TrafficAggregate Real) × (traffic_metric f merged
            (record { traffic_id = spec.traffic_id; direction = c.direction; class = class })
          ≡ some metric)
        × MergedKept c spec class metric

    check_merged_metric-MergedKept :
        (c : TrafficCase Real) (spec : TrafficSpec Real) (class : String)
        (metric : TrafficAggregate Real)
        → check_merged_metric f total_conns duration period kind c spec class (some metric) ≡ none
        → MergedKept c spec class metric
    unfolding check_merged_metric
    check_merged_metric-MergedKept c spec class metric h =
        let (s, rest) = (refuse_if-none (metric.counts.slots == 0) _ _).0 h in
        let (d, last) =
          (refuse_if-none (not (metric.deadline_ns == spec.must_deliver.deadline_ns)) _ _).0 rest in
        let r = expected_staleness_sample_range duration period (flows_of c) in
        record {
          slots = ground (arith, s);
          deadline = ground (arith, d);
          latest = elim (Bool-cases (str_eq class loss_tolerant)) [
            | inl e ↦
                let (l, samples) = (check_flows_iff _ _ _).0 (rw e at last) in
                inr (l, (check_samples_iff r metric.staleness.count).0 samples)
            | inr e ↦ inl e
          ];
        }

    merged_lost :
        (c : TrafficCase Real) (spec : TrafficSpec Real) (class : String)
        → check_merged_metric f total_conns duration period kind c spec class none ≢ none
    unfolding check_merged_metric
    merged_lost c spec class h = cc

    abbrev pub MergedSpecKept : MergedMetrics Real → TrafficCase Real → TrafficSpec Real → Type 0
    MergedSpecKept merged c spec =
        All (λ e. MergedSeriesKept merged c spec e.0) (enabled_traffic_classes f spec)

    abbrev pub MergedCaseKept : MergedMetrics Real → TrafficCase Real → Type 0
    MergedCaseKept merged c = WhereSome (MergedSpecKept merged c) c.spec

    check_merged_classes-Kept :
        (merged : MergedMetrics Real) (c : TrafficCase Real) (spec : TrafficSpec Real)
        (classes : List (String × TrafficClassSpec Real))
        → check_merged_classes f total_conns duration period kind merged c spec classes ≡ none
        → All (λ e. MergedSeriesKept merged c spec e.0) classes
    unfolding check_merged_classes
    check_merged_classes-Kept merged c spec [] h = tt
    check_merged_classes-Kept merged c spec ((class, class_spec) ∷ classes) h =
        let key : TrafficKey = record {
          traffic_id = spec.traffic_id;
          direction = c.direction;
          class = class;
        } in
        let (first, rest) =
          (then_check-none
              (check_merged_metric f total_conns duration period kind c spec class
                (traffic_metric f merged key))
              _).0
            h in
        (
          elim (Option-cases (traffic_metric f merged key)) [
            | inl missing ↦ absurd (merged_lost c spec class (rw missing at first))
            | inr (metric, held) ↦ (
              metric,
              held,
              check_merged_metric-MergedKept c spec class metric (rw held at first),
            )
          ],
          check_merged_classes-Kept merged c spec classes rest,
        )

    check_merged_cases-Kept :
        (merged : MergedMetrics Real) (cases : List (TrafficCase Real))
        → check_merged_cases f total_conns duration period kind merged cases ≡ none
        → All (MergedCaseKept merged) cases
    unfolding check_merged_cases
    check_merged_cases-Kept merged [] h = tt
    check_merged_cases-Kept merged (c ∷ cases) h = elim (Option-cases c.spec) [
      | inl e ↦ (
        subst (WhereSome (MergedSpecKept merged c)) (sym e) tt,
        check_merged_cases-Kept merged cases (rw (check_merged_cases, e) at h),
      )
      | inr (spec, e) ↦
          let (first, rest) = (then_check-none _ _).0 (rw (check_merged_cases, e) at h) in
          (
            subst (WhereSome (MergedSpecKept merged c)) (sym e)
                (check_merged_classes-Kept merged c spec (enabled_traffic_classes f spec) first),
            check_merged_cases-Kept merged cases rest,
          )
    ]

    pub check_merged-Kept :
        (merged : Option (MergedMetrics Real)) (cases : List (TrafficCase Real))
        → check_merged f total_conns duration period kind merged cases ≡ none
        → (m : MergedMetrics Real) × (merged ≡ some m)
          × (eqb_ℤ m.version (pos 2) ≡ true)
          × All (MergedCaseKept m) cases
    unfolding check_merged
    check_merged-Kept none cases h = cc
    check_merged-Kept (some m) cases h =
        let (v, rest) = (refuse_if-none (not (eqb_ℤ m.version (pos 2))) _ _).0 h in
        (m, refl, ground (arith, v), check_merged_cases-Kept m cases rest)
