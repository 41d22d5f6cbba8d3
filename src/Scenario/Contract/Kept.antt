-- ===== src/Scenario/Contract/Kept.antt =====
-- What a run shows whose metrics pass the contract.
use rudp_bench.Common.{
  ℕ, ◌≤◌, ◌≡◌, refl, sym, subst, ◌⊎◌, inl, inr, ◌↔◌, Bool, true, false, not, ◌&&◌, String, Option,
  none, some, List, [], ◌∷◌, ◌==◌, ℤ, to_bits64, str_eq, if◌then◌else◌, All, arith, Bool-cases,
  Option-cases, ◌≢◌, Float64,
}
use rudp_bench.Metrics.Types.{loss_tolerant, TrafficMetric, MetricsFile}
use rudp_bench.Scenario.Spec.{TrafficClassSpec, TrafficSpec, TrafficCase}
use rudp_bench.Scenario.Contract.{
  ContractError, flows_differ, scenario_process_sends_traffic, scenario_process_requires_traffic,
  expected_latest_flows, file_traffic_metric, then_check, refuse_if, enabled_traffic_classes,
  check_range, check_flows, streams, check_process_metric, check_process_class,
  check_process_classes, check_process_cases,
}
use rudp_bench.Scenario.Contract.Ranges.{Ranged, range, refused, panic, expected_slot_range}

pub then_check-none :
    (a b : Option ContractError) → (then_check a b ≡ none) ↔ ((a ≡ none) × (b ≡ none))
then_check-none none b = (λ h. (refl, h), λ h. h.1)
then_check-none (some e) b = (λ h. cc, λ h. cc)

pub refuse_if-none :
    (b : Bool) (e : ContractError) (rest : Option ContractError)
    → (refuse_if b e rest ≡ none) ↔ ((b ≡ false) × (rest ≡ none))
refuse_if-none true e rest = (λ h. cc, λ h. cc)
refuse_if-none false e rest = (λ h. (refl, h), λ h. h.1)

when_iff {ℓ} :
    {P : Type ℓ} (b : Bool) (o : Option ContractError)
    → (o ≡ none) ↔ P
    → ((if b then o else none) ≡ none) ↔ ((b ≡ false) ⊎ P)
when_iff true o h = (λ e. inr (h.0 e), λ p. elim p [ inl e ↦ cc | inr q ↦ h.1 q ])
when_iff false o h = (λ e. inl refl, λ p. refl)

pub unless_iff {ℓ} :
    {P : Type ℓ} (b : Bool) (o : Option ContractError)
    → (o ≡ none) ↔ P
    → ((if not b then none else o) ≡ none) ↔ ((b ≡ false) ⊎ P)
unless_iff true o h = (λ e. inr (h.0 e), λ p. elim p [ inl e ↦ cc | inr q ↦ h.1 q ])
unless_iff false o h = (λ e. inl refl, λ p. refl)

pub check_flows_iff :
    (got : ℕ) (expected : ℤ) (rest : Option ContractError)
    → (check_flows got expected rest ≡ none) ↔ ((got ≡ to_bits64 expected) × (rest ≡ none))
check_flows_iff got expected rest =
    let (to, from) =
      refuse_if-none (not (got == to_bits64 expected)) (flows_differ got expected) rest in
    (λ h. let (t, r) = to h in (ground arith, r), λ h. from (ground arith, h.1))

abbrev pub WhereSome {ℓ κ} : {A : Type ℓ} → (A → Type κ) → Option A → Type κ
WhereSome P none = Unit
WhereSome P (some a) = P a

-- A number in a range that could be computed.
abbrev pub InRange : Ranged → ℕ → Type 0
InRange (range least most) n = (least ≤ n) × (n ≤ most)
InRange (refused e) n = ⊥
InRange panic n = ⊥

check_range_iff : (r : Ranged) (n : ℕ) → (check_range r n ≡ none) ↔ InRange r n
check_range_iff (range least most) n = ground arith
check_range_iff (refused e) n = (λ h. cc, λ h. absurd h)
check_range_iff panic n = (λ h. cc, λ h. absurd h)

module _ (f : Float64) where
  open f use {Real}

  module _ (role : String) (local_conns total_conns duration : ℤ) (kind : String) where
    -- A series of a process: its deadline is that of the scenario, a sender's slots are in their
    -- range, and a loss-tolerant series has the flows of its role.
    pub record MetricKept (c : TrafficCase Real) (spec : TrafficSpec Real) (class : String)
        (class_spec : TrafficClassSpec Real) (metric : TrafficMetric) : Type 0 where
      pub deadline : metric.deadline_ns ≡ spec.must_deliver.deadline_ns
      pub slots :
          (scenario_process_sends_traffic role c.direction kind ≡ false)
          ⊎ InRange
              (expected_slot_range f class_spec.rate_hz duration
                (streams role local_conns total_conns))
              metric.counts.slots
      pub flows :
          (str_eq class loss_tolerant ≡ false)
          ⊎ (metric.counts.expected_flows
              ≡ to_bits64 (expected_latest_flows kind role c.direction local_conns total_conns))

    check_process_metric_iff :
        (c : TrafficCase Real) (spec : TrafficSpec Real) (class : String)
        (class_spec : TrafficClassSpec Real) (metric : TrafficMetric)
        → (check_process_metric f role local_conns total_conns duration kind c spec class class_spec
              (some metric)
            ≡ none)
          ↔ MetricKept c spec class class_spec metric
    unfolding check_process_metric
    check_process_metric_iff c spec class class_spec metric =
        let sends = scenario_process_sends_traffic role c.direction kind in
        let r =
          expected_slot_range f class_spec.rate_hz duration
            (streams role local_conns total_conns) in
        let n = metric.counts.slots in
        let expected = expected_latest_flows kind role c.direction local_conns total_conns in
        let got = metric.counts.expected_flows in
        let slots = when_iff sends (check_range r n) (check_range_iff r n) in
        let flows =
          unless_iff (str_eq class loss_tolerant) (check_flows got expected none)
            (check_flows_iff got expected none) in
        (
          λ h.
              let (d, rest) = (refuse_if-none _ _ _).0 h in
              let (s, l) = (then_check-none _ _).0 rest in
              record {
                deadline = ground arith;
                slots = slots.0 s;
                flows = elim (flows.0 l) [ inl e ↦ inl e | inr e ↦ inr e.0 ];
              },
          λ k. (refuse_if-none _ _ _).1 (
            ground (arith, k.deadline),
            (then_check-none _ _).1
                (slots.1 k.slots, flows.1 (elim k.flows [ inl e ↦ inl e | inr e ↦ inr (e, refl) ])),
          ),
        )

    lost :
        (c : TrafficCase Real) (spec : TrafficSpec Real) (class : String)
        (class_spec : TrafficClassSpec Real)
        → check_process_metric f role local_conns total_conns duration kind c spec class class_spec
            none
          ≢ none
    unfolding check_process_metric
    lost c spec class class_spec h = cc

    -- A series that the process neither sends nor must hold, or that it holds and keeps.
    abbrev pub SeriesKept :
        MetricsFile → TrafficCase Real → TrafficSpec Real → String → TrafficClassSpec Real → Type 0
    SeriesKept file c spec class class_spec =
        ((not (scenario_process_sends_traffic role c.direction kind)
            && not (scenario_process_requires_traffic role c.direction class kind))
          ≡ true)
        ⊎ ((metric : TrafficMetric) × (file_traffic_metric file.traffic
                (record { traffic_id = spec.traffic_id; direction = c.direction; class = class })
              ≡ some metric)
            × MetricKept c spec class class_spec metric)

    check_process_class-SeriesKept :
        (file : MetricsFile) (c : TrafficCase Real) (spec : TrafficSpec Real) (class : String)
        (class_spec : TrafficClassSpec Real)
        → check_process_class f role local_conns total_conns duration kind file c spec class
            class_spec
          ≡ none
        → SeriesKept file c spec class class_spec
    unfolding check_process_class
    check_process_class-SeriesKept file c spec class class_spec h =
        let skipped =
          not (scenario_process_sends_traffic role c.direction kind)
          && not (scenario_process_requires_traffic role c.direction class kind) in
        let found =
          file_traffic_metric file.traffic
            (record { traffic_id = spec.traffic_id; direction = c.direction; class = class }) in
        elim (Bool-cases skipped) [
          | inl e ↦ inl e
          | inr e ↦ elim (Option-cases found) [
            | inl missing ↦ absurd (lost c spec class class_spec (rw (e, missing) at h))
            | inr (metric, held) ↦ inr (
              metric,
              held,
              (check_process_metric_iff c spec class class_spec metric).0 (rw (e, held) at h),
            )
          ]
        ]

    abbrev pub SpecKept : MetricsFile → TrafficCase Real → TrafficSpec Real → Type 0
    SpecKept file c spec =
        All (λ e. SeriesKept file c spec e.0 e.1) (enabled_traffic_classes f spec)

    abbrev pub CaseKept : MetricsFile → TrafficCase Real → Type 0
    CaseKept file c = WhereSome (SpecKept file c) c.spec

    check_process_classes-SeriesKept :
        (file : MetricsFile) (c : TrafficCase Real) (spec : TrafficSpec Real)
        (classes : List (String × TrafficClassSpec Real))
        → check_process_classes f role local_conns total_conns duration kind file c spec classes
          ≡ none
        → All (λ e. SeriesKept file c spec e.0 e.1) classes
    unfolding check_process_classes
    check_process_classes-SeriesKept file c spec [] h = tt
    check_process_classes-SeriesKept file c spec ((class, class_spec) ∷ classes) h =
        let (first, rest) = (then_check-none _ _).0 h in
        (
          check_process_class-SeriesKept file c spec class class_spec first,
          check_process_classes-SeriesKept file c spec classes rest,
        )

    pub check_process_cases-CaseKept :
        (file : MetricsFile) (cases : List (TrafficCase Real))
        → check_process_cases f role local_conns total_conns duration kind file cases ≡ none
        → All (CaseKept file) cases
    unfolding check_process_cases
    check_process_cases-CaseKept file [] h = tt
    check_process_cases-CaseKept file (c ∷ cases) h = elim (Option-cases c.spec) [
      | inl e ↦ (
        subst (WhereSome (SpecKept file c)) (sym e) tt,
        check_process_cases-CaseKept file cases (rw (check_process_cases, e) at h),
      )
      | inr (spec, e) ↦
          let (first, rest) = (then_check-none _ _).0 (rw (check_process_cases, e) at h) in
          (
            subst (WhereSome (SpecKept file c)) (sym e) (
                check_process_classes-SeriesKept file c spec (enabled_traffic_classes f spec)
                  first),
            check_process_cases-CaseKept file cases rest,
          )
    ]
