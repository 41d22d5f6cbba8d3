-- ===== src/Scenario/Judge/Met.antt =====
-- When a scenario is judged to be met.
use rudp_bench.Common.{
  ◌≤◌, ◌≡◌, ◌⊎◌, ◌↔◌, refl, Bool, true, false, ◌&&◌, String, Option, none, some, List, [], ◌∷◌,
  ◌++◌, str_eq, arith, inl, inr, subst, All, Bool-cases, Float64,
}
use rudp_bench.Metrics.Types.{loss_tolerant, must_deliver, TrafficAggregate, MergedMetrics}
use rudp_bench.Metrics.Finalize.{traffic_metric}
use rudp_bench.Scenario.Spec.{
  TrafficClassSpec, TrafficSpec, ScenarioSpec, TrafficCase, scenario_cases, is_positive,
}
use rudp_bench.Scenario.Judge.{
  TrafficEvaluation, is_nil, staleness_causes, found_causes, evaluate_traffic, evaluate_class,
  evaluate_cases, causes_of, evaluate_scenario_metrics,
}

module _ (f : Float64) where
  open f use {Real, of_nat, flt, fle}

  -- A series that meets its objectives: a must-deliver series has no duplicates, the deadline is the
  -- scenario's, no ratio is below a least ratio that is set, every flow was received, and where
  -- staleness is limited it was measured and stays within the limit.
  pub record Meets (class : String) (traffic : TrafficSpec Real) (spec : TrafficClassSpec Real)
      (metric : TrafficAggregate Real) : Type 0 where
    pub no_duplicates : (metric.counts.duplicates ≡ 0) ⊎ (str_eq class must_deliver ≡ false)
    pub deadline : metric.deadline_ns ≡ traffic.must_deliver.deadline_ns
    pub delivery :
        (is_positive f spec.min_delivery_ratio ≡ false)
        ⊎ (flt metric.delivery_ratio spec.min_delivery_ratio ≡ false)
    pub eventual :
        (is_positive f spec.min_eventual_delivery_ratio ≡ false)
        ⊎ (flt metric.delivery_ratio spec.min_eventual_delivery_ratio ≡ false)
    pub hits :
        (is_positive f spec.min_deadline_hit_ratio ≡ false)
        ⊎ (flt metric.deadline_hit_ratio spec.min_deadline_hit_ratio ≡ false)
    pub received : metric.counts.never_received_flows ≡ 0
    pub fresh :
        (spec.staleness_p99_ns ≡ 0)
        ⊎ ((1 ≤ metric.staleness.count) × (metric.staleness.p99_ns ≤ spec.staleness_p99_ns))

  both_or : (a b : Bool) → ((a && b) ≡ false) ↔ ((a ≡ false) ⊎ (b ≡ false))
  both_or a b = ground arith

  staleness_causes-nil :
      (spec : TrafficClassSpec Real) (metric : TrafficAggregate Real)
      → (is_nil (staleness_causes f spec metric) ≡ true) ↔ (
          (spec.staleness_p99_ns ≡ 0)
          ⊎ ((1 ≤ metric.staleness.count) × (metric.staleness.p99_ns ≤ spec.staleness_p99_ns)))
  unfolding staleness_causes
  staleness_causes-nil spec metric = ground arith

  found_causes-Meets :
      (class : String) (traffic : TrafficSpec Real) (spec : TrafficClassSpec Real)
      (metric : TrafficAggregate Real)
      → (is_nil (found_causes f class traffic spec metric) ≡ true) ↔ Meets class traffic spec metric
  unfolding found_causes
  found_causes-Meets class traffic spec metric = (
    λ h. record {
      no_duplicates = ground (arith, h);
      deadline = ground (arith, h);
      delivery = ground (arith, h);
      eventual = ground (arith, h);
      hits = ground (arith, h);
      received = ground (arith, h);
      fresh = (staleness_causes-nil spec metric).0 (ground (arith, h));
    },
    λ m. ground (
      arith,
      m.no_duplicates,
      m.deadline,
      m.delivery,
      m.eventual,
      m.hits,
      m.received,
      (staleness_causes-nil spec metric).1 m.fresh,
    ),
  )

  -- A series of a case: disabled, or measured and met.
  abbrev pub SeriesMet :
      MergedMetrics Real
      → TrafficCase Real
      → TrafficSpec Real
      → String
      → TrafficClassSpec Real
      → Type 0
  SeriesMet metrics c traffic class spec =
      (fle spec.rate_hz (of_nat 0) ≡ true)
      ⊎ ((metric : TrafficAggregate Real) × (traffic_metric f metrics
              (record { traffic_id = traffic.traffic_id; direction = c.direction; class = class })
            ≡ some metric)
          × Meets class traffic spec metric)

  -- Both series of a case that the scenario has.
  abbrev pub CaseMet : MergedMetrics Real → TrafficCase Real → Type 0
  CaseMet metrics c = elim c.spec [
    | none ↦ Unit
    | some traffic ↦
        SeriesMet metrics c traffic loss_tolerant traffic.loss_tolerant
        × SeriesMet metrics c traffic must_deliver traffic.must_deliver
  ]

  -- No series has a cause.
  abbrev no_cause : List (TrafficEvaluation Real) → Bool
  no_cause traffic = is_nil (causes_of f traffic)

  no_cause-append :
      (a b : List (TrafficEvaluation Real)) → no_cause (a ++ b) ≡ (no_cause a && no_cause b)
  unfolding causes_of
  no_cause-append [] b = refl
  no_cause-append (x ∷ a) b = ground (arith, no_cause-append a b)

  evaluate_traffic-Meets :
      (name direction class : String) (traffic : TrafficSpec Real) (spec : TrafficClassSpec Real)
      (found : Option (TrafficAggregate Real))
      → (no_cause (evaluate_traffic f name direction class traffic spec found ∷ []) ≡ true) ↔ (
          (metric : TrafficAggregate Real) × (found ≡ some metric)
          × Meets class traffic spec metric)
  unfolding evaluate_traffic causes_of
  evaluate_traffic-Meets name direction class traffic spec none = (λ h. cc, λ m. cc)
  evaluate_traffic-Meets name direction class traffic spec (some metric) =
      let same = found_causes-Meets class traffic spec metric in
      (
        λ h. (metric, refl, same.0 (ground (arith, h))),
        λ m.
            let e : m.0 ≡ metric = cc in
            ground (
              arith,
              same.1 (subst (λ (x : TrafficAggregate Real). Meets class traffic spec x) e m.2),
            ),
      )

  three :
      (a b c : List (TrafficEvaluation Real))
      → (no_cause (a ++ b ++ c) ≡ true)
        ↔ ((no_cause a ≡ true) × (no_cause b ≡ true) × (no_cause c ≡ true))
  three a b c = rw (no_cause-append (a ++ b) c, no_cause-append a b) (ground arith)

  evaluate_class-SeriesMet :
      (metrics : MergedMetrics Real) (c : TrafficCase Real) (traffic : TrafficSpec Real)
      (class : String) (spec : TrafficClassSpec Real)
      → (no_cause (evaluate_class f metrics c traffic class spec) ≡ true)
        ↔ SeriesMet metrics c traffic class spec
  unfolding evaluate_class
  evaluate_class-SeriesMet metrics c traffic class spec =
      let found =
        traffic_metric f metrics
          (record { traffic_id = traffic.traffic_id; direction = c.direction; class = class }) in
      let same = evaluate_traffic-Meets c.name c.direction class traffic spec found in
      elim (Bool-cases (fle spec.rate_hz (of_nat 0))) [
        | inl e ↦ rw e (λ h. inl refl, λ m. unfold causes_of in refl)
        | inr e ↦ rw e (λ h. inr (same.0 h), λ m. elim m [ inl n ↦ cc | inr w ↦ same.1 w ])
      ]

  evaluate_cases-CaseMet :
      (metrics : MergedMetrics Real) (cases : List (TrafficCase Real))
      → (no_cause (evaluate_cases f metrics cases) ≡ true) ↔ All (CaseMet metrics) cases
  unfolding evaluate_cases
  evaluate_cases-CaseMet metrics [] = (λ h. tt, λ h. unfold causes_of in refl)
  evaluate_cases-CaseMet metrics (c ∷ cases) =
      by_spec c.spec refl (evaluate_cases-CaseMet metrics cases)
    where
      by_spec :
          (o : Option (TrafficSpec Real))
          → c.spec ≡ o
          → ((no_cause (evaluate_cases f metrics cases) ≡ true) ↔ All (CaseMet metrics) cases)
          → (no_cause (evaluate_cases f metrics (c ∷ cases)) ≡ true)
            ↔ All (CaseMet metrics) (c ∷ cases)
      by_spec none e rest = rw e (λ h. (tt, rest.0 h), λ h. rest.1 h.1)
      by_spec (some traffic) e rest =
          let loss = evaluate_class f metrics c traffic loss_tolerant traffic.loss_tolerant in
          let must = evaluate_class f metrics c traffic must_deliver traffic.must_deliver in
          let lost =
            evaluate_class-SeriesMet metrics c traffic loss_tolerant traffic.loss_tolerant in
          let sent = evaluate_class-SeriesMet metrics c traffic must_deliver traffic.must_deliver in
          let split = three loss must (evaluate_cases f metrics cases) in
          rw e (
            λ h. let (a, b, d) = split.0 h in ((lost.0 a, sent.0 b), rest.0 d),
            λ h. split.1 (lost.1 h.0.0, sent.1 h.0.1, rest.1 h.1),
          )

  -- A scenario of a known kind is judged to be met exactly if each of its series is: disabled by
  -- its rate, or measured with all its objectives met.
  pub evaluate_scenario_metrics_iff :
      (metrics : MergedMetrics Real) (s : ScenarioSpec Real) (cases : List (TrafficCase Real))
      → scenario_cases s ≡ some cases
      → ((evaluate_scenario_metrics f (some metrics) s).ok ≡ true) ↔ All (CaseMet metrics) cases
  unfolding evaluate_scenario_metrics
  evaluate_scenario_metrics_iff metrics s cases e =
      rw (evaluate_scenario_metrics, e) (evaluate_cases-CaseMet metrics cases)
