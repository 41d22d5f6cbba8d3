-- ===== src/Ramp/Phase/Passed.antt =====
-- A phase that passes met its scenario and lacked nothing.
use rudp_bench.Common.{
  ℕ, ◌≡◌, ◌≢◌, refl, sym, ap, ◌∙◌, ◌⊎◌, inl, inr, true, false, ◌||◌, String, Option, none, some,
  List, [], ◌∷◌, ℤ, pos, eqb_ℤ, str_eq, if◌then◌else◌, Bool-cases, Option-cases, Float64,
}
use rudp_bench.Metrics.Types.{
  loss_tolerant, must_deliver, TrafficAggregate, MetricsFile, MergedMetrics, Checked,
}
use rudp_bench.Metrics.Consistency.{validate_merged_metrics_consistency}
use rudp_bench.Scenario.Spec.{scenario_cases, scenario_metric_cases, is_positive}
use rudp_bench.Scenario.Judge.{ScenarioEvaluation, evaluate_cases, evaluate_scenario_metrics}
use rudp_bench.Ramp.Traffic.{
  TrafficBreak, AssessError, Assessed, breaks, failed, Assessment, add_breaks, assess_ramp_traffic,
}
use rudp_bench.Metrics.Finalize.{parse_metrics_artifact, merge_metrics_data}
use rudp_bench.Metrics.Types.{MetricsError}
use rudp_bench.Metrics.Types as MetricsTypes
use rudp_bench.Scenario.Spec.{authoritative_state, room_relay_kind, environment_baseline}
use rudp_bench.Ramp.Traffic.Covered.{
  listed, Covered, Covered-All, add_breaks-ok, assess_cases-Covered,
}
use rudp_bench.Ramp.Levels.{active_conns}
use rudp_bench.Ramp.Score.{RampPoint, Phase, point}
use rudp_bench.Ramp.Score as Score
use rudp_bench.Ramp.Phase.{
  version_not_2, inconsistent, contract, metrics, kind_unsupported, server_snapshot,
  client_snapshot, DirEntry, Located, found, missing, RampRun, PhaseError, judge_phase, merge_phase,
  phase_of, locate_ramp_snapshot, evaluate_ramp_phase,
}

Checked-cases {ℓ} :
    {A : Type ℓ} (c : Checked A)
    → ((a : A) × (c ≡ MetricsTypes.ok a)) ⊎ ((e : MetricsError) × (c ≡ MetricsTypes.failed e))
Checked-cases (MetricsTypes.ok a) = inl (a, refl)
Checked-cases (MetricsTypes.failed e) = inr (e, refl)

Assessed-cases :
    {R : Type 0} (a : Assessed R)
    → ((bs : List (TrafficBreak R)) × (a ≡ breaks bs)) ⊎ ((e : AssessError) × (a ≡ failed e))
Assessed-cases (breaks bs) = inl (bs, refl)
Assessed-cases (failed e) = inr (e, refl)

Located-cases :
    {A : Type 0} (l : Located A) → ((a : A) × (l ≡ found a)) ⊎ ((e : _) × (l ≡ missing e))
Located-cases (found a) = inl (a, refl)
Located-cases (missing e) = inr (e, refl)

no_point : {R : Type 0} (e : PhaseError) {p : RampPoint R} → Score.failed e ≢ point p
no_point e h = cc

point_eq :
    {R : Type 0} {p q : RampPoint R} → ◌≡◌ {A = Phase R PhaseError} (point p) (point q) → p ≡ q
point_eq h = cc

module _ (f : Float64)
    (order : (x : f.Real) → is_positive f x ≡ true → f.fle x (f.of_nat 0) ≡ false)
    {Artifact : Type 0} (decode : Artifact → Checked MetricsFile) (cfg : RampRun f.Real) where
  open f use {Real}

  abbrev pub assessment : Assessment Real
  assessment = record {
    sample = cfg.ramp.sample;
    attempted_threshold = cfg.attempted_threshold;
    staleness_period_ns = cfg.staleness_period_ns;
  }

  -- A phase that passed with these merged metrics.
  pub record PhasePassed (index active : ℕ) (p : RampPoint Real) (merged : MergedMetrics Real)
      : Type 0 where
    pub indexed : p.index ≡ index
    pub loaded : p.active_conns ≡ active
    pub version : eqb_ℤ merged.version (pos 2) ≡ true
    pub consistent : validate_merged_metrics_consistency merged ≡ none
    pub unbroken : assess_ramp_traffic f assessment (pos active) merged cfg.scenario ≡ breaks []
    pub met : (evaluate_scenario_metrics f (some merged) cfg.scenario).ok ≡ true
    pub judged : p.evaluation ≡ evaluate_scenario_metrics f (some merged) cfg.scenario

  series_judged :
      (name class : String) (merged : MergedMetrics Real)
      → listed name class (evaluate_cases f merged (scenario_metric_cases cfg.scenario)) ≡ true
      → listed name class (evaluate_scenario_metrics f (some merged) cfg.scenario).traffic ≡ true
  unfolding scenario_metric_cases evaluate_scenario_metrics
  series_judged name class merged l = elim (Option-cases (scenario_cases cfg.scenario)) [
    | inl e ↦ absurd (none_listed (rw (scenario_metric_cases, e) at l))
    | inr (cases, e) ↦ rw (evaluate_scenario_metrics, e) (rw (scenario_metric_cases, e) at l)
  ]
    where
      none_listed : listed name class (evaluate_cases f merged []) ≡ true → ⊥
      none_listed h = unfold evaluate_cases listed in cc

  assess_ramp_traffic-Covered :
      (active : ℤ) (merged : MergedMetrics Real)
      → Covered
          (evaluate_scenario_metrics f (some merged) cfg.scenario).traffic
          (assess_ramp_traffic f assessment active merged cfg.scenario)
  unfolding assess_ramp_traffic
  assess_ramp_traffic-Covered active merged =
      assess_cases-Covered f assessment active cfg.scenario.kind
        (evaluate_scenario_metrics f (some merged) cfg.scenario).traffic order merged
        (scenario_metric_cases cfg.scenario) (λ name class l. series_judged name class merged l)

  judge_phase-passes :
      (index active : ℕ) (merged : MergedMetrics Real) {p : RampPoint Real}
      → judge_phase f decode cfg index active merged ≡ point p
      → p.evaluation.ok ≡ true
      → PhasePassed index active p merged
  unfolding judge_phase
  judge_phase-passes index active merged {p} h ok =
      elim (Bool-cases (eqb_ℤ merged.version (pos 2))) [
        | inr old ↦ absurd (no_point (version_not_2 merged.version) (rw (judge_phase, old) at h))
        | inl v ↦ elim (Option-cases (validate_merged_metrics_consistency merged)) [
          | inr (e, bad) ↦ absurd (no_point (inconsistent e) (rw (judge_phase, v, bad) at h))
          | inl same ↦
              elim (Assessed-cases
                (assess_ramp_traffic f assessment (pos active) merged cfg.scenario)) [
                  | inr (e, bad) ↦
                      absurd (no_point (contract e) (rw (judge_phase, v, same, bad) at h))
                  | inl (bs, held) ↦
                      let here = point_eq (rw (judge_phase, v, same, held) at h) in
                      let base = evaluate_scenario_metrics f (some merged) cfg.scenario in
                      let judged : add_breaks f bs base ≡ p.evaluation =
                        ap (λ (q : RampPoint Real). q.evaluation) here in
                      let (lacks, met) =
                        add_breaks-ok f bs base
                          (Covered-All bs (assess_ramp_traffic-Covered (pos active) merged) held)
                          (ap (λ (e : ScenarioEvaluation Real). e.ok) judged ∙ ok) in
                      record {
                        indexed = sym (ap (λ (q : RampPoint Real). q.index) here);
                        loaded = sym (ap (λ (q : RampPoint Real). q.active_conns) here);
                        version = v;
                        consistent = same;
                        unbroken = held ∙ ap (λ (b : List (TrafficBreak Real)). breaks b) lacks;
                        met = met;
                        judged =
                            sym judged
                            ∙ ap (λ (b : List (TrafficBreak Real)). add_breaks f b base) lacks
                            ∙ (unfold add_breaks in refl);
                      }
                ]
        ]
      ]

  merge_phase-passes :
      (index active : ℕ) (artifacts : List Artifact) {p : RampPoint Real}
      → merge_phase f decode cfg index active artifacts ≡ point p
      → p.evaluation.ok ≡ true
      → (merged : MergedMetrics Real) × (merge_metrics_data f decode artifacts (pos active)
          ≡ MetricsTypes.ok merged)
        × PhasePassed index active p merged
  unfolding merge_phase
  merge_phase-passes index active artifacts h ok =
      elim (Checked-cases (merge_metrics_data f decode artifacts (pos active))) [
        | inl (merged, e) ↦
            (merged, e, judge_phase-passes index active merged (rw (merge_phase, e) at h) ok)
        | inr (x, e) ↦ absurd (no_point (metrics x) (rw (merge_phase, e) at h))
      ]

  -- The artifacts that are merged for the kind of the scenario.
  abbrev pub merged_artifacts : Artifact → Artifact → List Artifact
  merged_artifacts server client =
      if str_eq cfg.scenario.kind authoritative_state then server ∷ client ∷ [] else client ∷ []

  phase_of-passes :
      (index active : ℕ) (server client : Artifact) {p : RampPoint Real}
      → phase_of f decode cfg index active server client ≡ point p
      → p.evaluation.ok ≡ true
      → (merged : MergedMetrics Real) × (merge_metrics_data f decode
            (merged_artifacts server client)
            (pos active)
          ≡ MetricsTypes.ok merged)
        × PhasePassed index active p merged
  unfolding phase_of
  phase_of-passes index active server client h ok =
      elim (Bool-cases (str_eq cfg.scenario.kind authoritative_state)) [
        | inl e ↦
            rw e (merge_phase-passes index active (server ∷ client ∷ []) (rw (phase_of, e) at h) ok)
        | inr e ↦
            elim (Bool-cases (
              str_eq cfg.scenario.kind room_relay_kind
              || str_eq cfg.scenario.kind environment_baseline)) [
                | inr k ↦
                    absurd
                      (no_point (kind_unsupported cfg.scenario.kind) (rw (phase_of, e, k) at h))
                | inl k ↦ elim (Checked-cases (parse_metrics_artifact f decode server true)) [
                  | inl (file, q) ↦ rw e (
                      merge_phase-passes index active (client ∷ []) (rw (phase_of, e, k, q) at h)
                        ok)
                  | inr (x, q) ↦ absurd (no_point (metrics x) (rw (phase_of, e, k, q) at h))
                ]
              ]
      ]

  -- A phase that is evaluated as passing has one snapshot of each side with the connections of its
  -- level; their merged metrics are consistent, lack none of the load or of the samples that the
  -- level must show, and meet the scenario.
  pub evaluate_ramp_phase-passes :
      (server_dir client_dir : ℕ → Option (List (DirEntry Artifact))) (index : ℕ)
      {p : RampPoint Real}
      → evaluate_ramp_phase f decode cfg server_dir client_dir index ≡ point p
      → p.evaluation.ok ≡ true
      → let active = active_conns cfg.ramp index cfg.total_conns in
        (server : Artifact) × (client : Artifact) × (merged : MergedMetrics Real)
        × (locate_ramp_snapshot (server_dir index) active ≡ found server)
        × (locate_ramp_snapshot (client_dir index) active ≡ found client)
        × (merge_metrics_data f decode (merged_artifacts server client) (pos active)
            ≡ MetricsTypes.ok merged)
        × PhasePassed index active p merged
  unfolding evaluate_ramp_phase
  evaluate_ramp_phase-passes server_dir client_dir index h ok =
      let active = active_conns cfg.ramp index cfg.total_conns in
      elim (Located-cases (locate_ramp_snapshot (server_dir index) active)) [
        | inr (x, e) ↦ absurd (no_point (server_snapshot x) (rw (evaluate_ramp_phase, e) at h))
        | inl (server, e) ↦ elim (Located-cases (locate_ramp_snapshot (client_dir index) active)) [
          | inr (x, k) ↦ absurd (no_point (client_snapshot x) (rw (evaluate_ramp_phase, e, k) at h))
          | inl (client, k) ↦
              let (merged, m, passed) =
                phase_of-passes index active server client (rw (evaluate_ramp_phase, e, k) at h)
                  ok in
              (server, client, merged, e, k, m, passed)
        ]
      ]
