-- ===== src/Ramp/Traffic.antt =====
-- orchestrator/run/ramp.go: `assessRampTraffic` and `addRampTrafficBreak`. Go ranges over the classes
-- of a traffic in no fixed order; the model takes the loss-tolerant class first.
pub mod Covered
use rudp_bench.Common.{
  ℕ, Bool, true, false, not, ◌&&◌, ◌||◌, String, Option, none, some, List, [], ◌∷◌, ◌++◌, ◌==◌, ltb,
  ℤ, to_bits64, str_eq, if◌then◌else◌, Float64,
}
use rudp_bench.Metrics.Types.{loss_tolerant, TrafficAggregate, MergedMetrics}
use rudp_bench.Metrics.Finalize.{traffic_metric}
use rudp_bench.Scenario.Spec.{
  TrafficClassSpec, TrafficSpec, ScenarioSpec, TrafficCase, scenario_metric_cases,
}
use rudp_bench.Scenario.Judge.{
  TrafficCause, metrics_missing, slots_below, attempted_below, samples_below, TrafficEvaluation,
  ScenarioEvaluation, is_nil, note, causes_of,
}
use rudp_bench.Scenario.Contract.{merged_role, expected_latest_flows, enabled_traffic_classes}
use rudp_bench.Scenario.Contract.Ranges.{
  Ranged, range, refused, panic, RangeError, expected_staleness_sample_range, expected_slot_range,
}

pub record TrafficBreak (Real : Type 0) : Type 0 where
  pub name : String
  pub class : String
  pub cause : TrafficCause Real

pub data AssessError : Type 0 where
  deadline_differs : ℕ → ℕ → AssessError
  no_range : RangeError → AssessError
  slots_exceed samples_exceed : ℕ → ℕ → AssessError
  flows_differ : ℕ → ℤ → AssessError
  divides_by_zero : AssessError

pub data Assessed (Real : Type 0) : Type 0 where
  breaks : List (TrafficBreak Real) → Assessed Real
  failed : AssessError → Assessed Real

-- The settings that the assessment reads: the duration of a sample, the least attempted ratio and
-- the staleness period.
pub record Assessment (Real : Type 0) : Type 0 where
  pub sample : ℤ
  pub attempted_threshold : Real
  pub staleness_period_ns : ℕ

module _ {Real : Type 0} where
  -- The breaks of one step before those of the next, unless one of them fails.
  abbrev pub then_breaks : Assessed Real → Assessed Real → Assessed Real
  then_breaks (failed e) rest = failed e
  then_breaks (breaks bs) (failed e) = failed e
  then_breaks (breaks bs) (breaks bs') = breaks (bs ++ bs')

  -- Too many fail, too few break.
  abbrev pub within : Ranged → ℕ → (ℕ → AssessError) → (ℕ → TrafficBreak Real) → Assessed Real
  within (range least most) n above under =
      if ltb most n then failed (above most) else breaks (note (ltb n least) (under least) [])
  within (refused e) n above under = failed (no_range e)
  within panic n above under = failed divides_by_zero

  abbrev pub is_missing : TrafficCause Real → Bool
  is_missing metrics_missing = true
  is_missing cause = false

  abbrev pub any_missing : List (TrafficCause Real) → Bool
  any_missing [] = false
  any_missing (c ∷ causes) = is_missing c || any_missing causes

  -- The text of no other cause is part of another's, and a series is assessed once: only the missing
  -- metrics can be noted already.
  abbrev pub is_noted : TrafficCause Real → List (TrafficCause Real) → Bool
  is_noted cause causes = is_missing cause && any_missing causes

  unfoldable pub mark_broken :
      TrafficBreak Real → List (TrafficEvaluation Real) → List (TrafficEvaluation Real)
  mark_broken b [] = []
  mark_broken b (t ∷ traffic) =
      let rest = mark_broken b traffic in
      if not (str_eq t.name b.name && str_eq t.class b.class)
      then t ∷ rest
      else record t {
        ok = false;
        causes = if is_noted b.cause t.causes then t.causes else t.causes ++ (b.cause ∷ []);
      }
        ∷ traffic

module _ (f : Float64) where
  open f use {Real}

  unfoldable pub rebuild_scenario_evaluation_cause :
      ScenarioEvaluation Real → ScenarioEvaluation Real
  rebuild_scenario_evaluation_cause e = record e {
    ok = is_nil (causes_of f e.traffic);
    causes = causes_of f e.traffic;
  }

  unfoldable pub add_ramp_traffic_break :
      TrafficBreak Real → ScenarioEvaluation Real → ScenarioEvaluation Real
  unfolding mark_broken rebuild_scenario_evaluation_cause
  add_ramp_traffic_break b e =
      rebuild_scenario_evaluation_cause (record e { traffic = mark_broken b e.traffic })

  unfoldable pub add_breaks :
      List (TrafficBreak Real) → ScenarioEvaluation Real → ScenarioEvaluation Real
  unfolding add_ramp_traffic_break
  add_breaks [] e = e
  add_breaks (b ∷ bs) e = add_breaks bs (add_ramp_traffic_break b e)

module _ (f : Float64) (cfg : Assessment f.Real) (active : ℤ) (kind : String) where
  open f use {Real, flt}

  abbrev pub break_of : TrafficCase Real → String → TrafficCause Real → TrafficBreak Real
  break_of c class cause = record { name = c.name; class = class; cause = cause }

  unfoldable pub assess_latest : TrafficCase Real → String → TrafficAggregate Real → Assessed Real
  assess_latest c class metric =
      let flows = expected_latest_flows kind merged_role c.direction active active in
      if not (metric.counts.expected_flows == to_bits64 flows)
      then failed (flows_differ metric.counts.expected_flows flows)
      else within (expected_staleness_sample_range cfg.sample cfg.staleness_period_ns flows)
          metric.staleness.count (samples_exceed metric.staleness.count)
          (λ least. break_of c class (samples_below metric.staleness.count least))

  unfoldable pub assess_class :
      TrafficCase Real
      → TrafficSpec Real
      → String
      → TrafficClassSpec Real
      → Option (TrafficAggregate Real)
      → Assessed Real
  unfolding assess_latest
  assess_class c spec class class_spec none = breaks (break_of c class metrics_missing ∷ [])
  assess_class c spec class class_spec (some metric) =
      if not (metric.deadline_ns == spec.must_deliver.deadline_ns)
      then failed (deadline_differs metric.deadline_ns spec.must_deliver.deadline_ns)
      else then_breaks
          (within (expected_slot_range f class_spec.rate_hz cfg.sample active) metric.counts.slots
            (slots_exceed metric.counts.slots)
            (λ least. break_of c class (slots_below metric.counts.slots least)))
          (then_breaks
            (breaks (
              note (flt metric.attempted_ratio cfg.attempted_threshold)
                (break_of c class (attempted_below metric.attempted_ratio cfg.attempted_threshold))
                []))
            (if not (str_eq class loss_tolerant) then breaks [] else assess_latest c class metric))

  unfoldable pub assess_classes :
      MergedMetrics Real
      → TrafficCase Real
      → TrafficSpec Real
      → List (String × TrafficClassSpec Real)
      → Assessed Real
  unfolding assess_class
  assess_classes metrics c spec [] = breaks []
  assess_classes metrics c spec ((class, class_spec) ∷ classes) =
      then_breaks
        (assess_class c spec class class_spec (
          traffic_metric f metrics
            (record { traffic_id = spec.traffic_id; direction = c.direction; class = class })))
        (assess_classes metrics c spec classes)

  unfoldable pub assess_cases : MergedMetrics Real → List (TrafficCase Real) → Assessed Real
  unfolding assess_classes
  assess_cases metrics [] = breaks []
  assess_cases metrics (c ∷ cases) = elim c.spec [
    | none ↦ assess_cases metrics cases
    | some spec ↦
        then_breaks (assess_classes metrics c spec (enabled_traffic_classes f spec))
          (assess_cases metrics cases)
  ]

-- With the scenario, where the ramp and the scenario are configured.
unfoldable pub assess_ramp_traffic :
    (f : Float64)
    → Assessment f.Real
    → ℤ
    → MergedMetrics f.Real
    → ScenarioSpec f.Real
    → Assessed f.Real
unfolding assess_cases
assess_ramp_traffic f cfg active metrics scenario =
    assess_cases f cfg active scenario.kind metrics (scenario_metric_cases scenario)
