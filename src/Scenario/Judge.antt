-- ===== src/Scenario/Judge.antt =====
-- orchestrator/run/scenario_judge.go: `EvaluateScenarioMetrics`. The text of a cause, which joins
-- messages, is the list of what is said.
pub mod Met
use rudp_bench.Common.{
  ℕ, Bool, true, false, not, ◌&&◌, String, Option, none, some, List, [], ◌∷◌, ◌++◌, ◌==◌, ltb,
  str_eq, length, if◌then◌else◌, Float64,
}
use rudp_bench.Metrics.Types.{loss_tolerant, must_deliver, TrafficAggregate, MergedMetrics}
use rudp_bench.Metrics.Finalize.{traffic_metric}
use rudp_bench.Scenario.Spec.{
  TrafficClassSpec, TrafficSpec, ScenarioSpec, TrafficCase, scenario_cases, is_positive,
  missing_primary_slos, has_complete_primary_slos,
}

pub data TrafficCause (Real : Type 0) : Type 0 where
  metrics_missing : TrafficCause Real
  duplicates : ℕ → TrafficCause Real
  deadline_unresolved : ℕ → ℕ → TrafficCause Real
  delivery_below eventual_below deadline_hit_below : Real → Real → TrafficCause Real
  never_received : ℕ → TrafficCause Real
  staleness_empty : TrafficCause Real
  staleness_over : ℕ → ℕ → TrafficCause Real
  -- Only the ramp adds these.
  slots_below : ℕ → ℕ → TrafficCause Real
  attempted_below : Real → Real → TrafficCause Real
  samples_below : ℕ → ℕ → TrafficCause Real

pub record TrafficEvaluation (Real : Type 0) : Type 0 where
  pub name : String
  pub traffic_id : ℕ
  pub direction : String
  pub class : String
  pub ok : Bool
  pub causes : List (TrafficCause Real)
  pub delivery_ratio : Real
  pub deadline_hit_ratio : Real
  pub resolved_deadline_ns : ℕ
  pub staleness_p99_ns : ℕ
  pub expected_flows : ℕ
  pub never_received_flows : ℕ

pub data ScenarioCause (Real : Type 0) : Type 0 where
  no_metrics : ScenarioCause Real
  kind_unknown : String → ScenarioCause Real
  series : String → String → List (TrafficCause Real) → ScenarioCause Real

pub record ScenarioEvaluation (Real : Type 0) : Type 0 where
  pub ok : Bool
  pub complete_primary_slos : Bool
  pub missing_slos : List (String × String)
  pub causes : List (ScenarioCause Real)
  pub traffic : List (TrafficEvaluation Real)

abbrev pub is_nil {ℓ} : {A : Type ℓ} → List A → Bool
is_nil [] = true
is_nil (x ∷ xs) = false

-- `if test { causes = append(causes, cause) }`.
abbrev pub note {ℓ} : {A : Type ℓ} → Bool → A → List A → List A
note true cause rest = cause ∷ rest
note false cause rest = rest

module _ (f : Float64) where
  open f use {Real, of_nat, flt, fle}

  -- An objective that is set and that the ratio stays below.
  abbrev pub below : Real → Real → Bool
  below least ratio = is_positive f least && flt ratio least

  unfoldable pub staleness_causes :
      TrafficClassSpec Real → TrafficAggregate Real → List (TrafficCause Real)
  staleness_causes spec metric =
      if spec.staleness_p99_ns == 0
      then []
      else if metric.staleness.count == 0
      then staleness_empty ∷ []
      else note (ltb spec.staleness_p99_ns metric.staleness.p99_ns)
          (staleness_over metric.staleness.p99_ns spec.staleness_p99_ns) []

  -- The causes of a series that was measured. The deadline is that of the must-deliver class.
  unfoldable pub found_causes :
      String
      → TrafficSpec Real
      → TrafficClassSpec Real
      → TrafficAggregate Real
      → List (TrafficCause Real)
  unfolding staleness_causes
  found_causes class traffic spec metric =
      note (not (metric.counts.duplicates == 0) && str_eq class must_deliver)
        (duplicates metric.counts.duplicates)
        (note (not (metric.deadline_ns == traffic.must_deliver.deadline_ns))
          (deadline_unresolved metric.deadline_ns traffic.must_deliver.deadline_ns)
          (note (below spec.min_delivery_ratio metric.delivery_ratio)
            (delivery_below metric.delivery_ratio spec.min_delivery_ratio)
            (note (below spec.min_eventual_delivery_ratio metric.delivery_ratio)
              (eventual_below metric.delivery_ratio spec.min_eventual_delivery_ratio)
              (note (below spec.min_deadline_hit_ratio metric.deadline_hit_ratio)
                (deadline_hit_below metric.deadline_hit_ratio spec.min_deadline_hit_ratio)
                (note (ltb 0 metric.counts.never_received_flows)
                  (never_received metric.counts.never_received_flows)
                  (staleness_causes spec metric))))))

  unfoldable pub evaluate_traffic :
      String
      → String
      → String
      → TrafficSpec Real
      → TrafficClassSpec Real
      → Option (TrafficAggregate Real)
      → TrafficEvaluation Real
  unfolding found_causes
  evaluate_traffic name direction class traffic spec none = record {
    name = name;
    traffic_id = traffic.traffic_id;
    direction = direction;
    class = class;
    ok = false;
    causes = metrics_missing ∷ [];
    delivery_ratio = of_nat 0;
    deadline_hit_ratio = of_nat 0;
    resolved_deadline_ns = 0;
    staleness_p99_ns = 0;
    expected_flows = 0;
    never_received_flows = 0;
  }
  evaluate_traffic name direction class traffic spec (some metric) =
      let causes = found_causes class traffic spec metric in
      record {
        name = name;
        traffic_id = traffic.traffic_id;
        direction = direction;
        class = class;
        ok = is_nil causes;
        causes = causes;
        delivery_ratio = metric.delivery_ratio;
        deadline_hit_ratio = metric.deadline_hit_ratio;
        resolved_deadline_ns = metric.deadline_ns;
        staleness_p99_ns = metric.staleness.p99_ns;
        expected_flows = metric.counts.expected_flows;
        never_received_flows = metric.counts.never_received_flows;
      }

  -- One class of a traffic, unless its rate disables it.
  unfoldable pub evaluate_class :
      MergedMetrics Real
      → TrafficCase Real
      → TrafficSpec Real
      → String
      → TrafficClassSpec Real
      → List (TrafficEvaluation Real)
  unfolding evaluate_traffic
  evaluate_class metrics c traffic class spec =
      if fle spec.rate_hz (of_nat 0)
      then []
      else evaluate_traffic c.name c.direction class traffic spec (
          traffic_metric f metrics
            (record { traffic_id = traffic.traffic_id; direction = c.direction; class = class }))
        ∷ []

  -- The loop over the cases.
  unfoldable pub evaluate_cases :
      MergedMetrics Real → List (TrafficCase Real) → List (TrafficEvaluation Real)
  unfolding evaluate_class
  evaluate_cases metrics [] = []
  evaluate_cases metrics (c ∷ cases) = elim c.spec [
    | none ↦ evaluate_cases metrics cases
    | some traffic ↦
        evaluate_class metrics c traffic loss_tolerant traffic.loss_tolerant
        ++ evaluate_class metrics c traffic must_deliver traffic.must_deliver
        ++ evaluate_cases metrics cases
  ]

  -- The causes of the series that are not met.
  unfoldable pub causes_of : List (TrafficEvaluation Real) → List (ScenarioCause Real)
  causes_of [] = []
  causes_of (t ∷ traffic) = note (not t.ok) (series t.name t.class t.causes) (causes_of traffic)

  abbrev pub refused : ScenarioSpec Real → ScenarioCause Real → ScenarioEvaluation Real
  refused s cause = record {
    ok = false;
    complete_primary_slos = has_complete_primary_slos f s;
    missing_slos = missing_primary_slos f s;
    causes = cause ∷ [];
    traffic = [];
  }

  unfoldable pub evaluate_scenario_metrics :
      Option (MergedMetrics Real) → ScenarioSpec Real → ScenarioEvaluation Real
  unfolding evaluate_cases causes_of
  evaluate_scenario_metrics none s = refused s no_metrics
  evaluate_scenario_metrics (some metrics) s = elim (scenario_cases s) [
    | none ↦ refused s (kind_unknown s.kind)
    | some cases ↦
        let traffic = evaluate_cases metrics cases in
        record {
          ok = is_nil (causes_of traffic);
          complete_primary_slos = has_complete_primary_slos f s;
          missing_slos = missing_primary_slos f s;
          causes = causes_of traffic;
          traffic = traffic;
        }
  ]
