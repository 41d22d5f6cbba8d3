-- ===== src/Scenario/Contract/Accepted.antt =====
-- What a run shows whose metrics pass `ValidateScenarioMetricsData`.
use rudp_bench.Common.{
  ℕ, ◌≡◌, refl, ◌⊎◌, inl, inr, Bool, true, false, not, ◌&&◌, String, Option, none, some, List, [],
  ◌∷◌, ◌==◌, ℤ, pos, eqb_ℤ, str_eq, length, All, arith, Bool-cases, ◌≢◌, Float64,
}
use rudp_bench.Metrics.Types.{MetricsFile, MergedMetrics, MetricsError, Checked, ok, failed}
use rudp_bench.Metrics.Finalize.{parse_metrics_artifact}
use rudp_bench.Scenario.Spec.{ScenarioSpec, scenario_metric_cases, authoritative_state}
use rudp_bench.Scenario.Contract.{
  ContractError, server_role, client_role, validate_scenario_process_metrics,
}
use rudp_bench.Scenario.Contract.Merged.{
  check_artifact, check_client_artifacts, validate_scenario_metrics_data,
}
use rudp_bench.Scenario.Contract.Kept.{
  CaseKept, then_check-none, refuse_if-none, check_process_cases-CaseKept,
}
use rudp_bench.Scenario.Contract.Merged.Kept.{MergedCaseKept, check_merged-Kept}

Checked-cases {ℓ} :
    {A : Type ℓ} (c : Checked A) → ((a : A) × (c ≡ ok a)) ⊎ ((e : MetricsError) × (c ≡ failed e))
Checked-cases (ok a) = inl (a, refl)
Checked-cases (failed e) = inr (e, refl)

some_error : (e : ContractError) → some e ≢ none
some_error e h = cc

module _ (f : Float64) where
  open f use {Real}

  -- A process file that keeps the contract: version 2, and where it is a client, or a server that
  -- holds the state, all its series.
  pub record ProcessKept (role : String) (local_conns total_conns duration : ℤ)
      (scenario : ScenarioSpec Real) (file : MetricsFile) : Type 0 where
    pub version : eqb_ℤ file.version (pos 2) ≡ true
    pub series :
        ((str_eq role server_role && not (str_eq scenario.kind authoritative_state)) ≡ true)
        ⊎ All
            (CaseKept f role local_conns total_conns duration scenario.kind file)
            (scenario_metric_cases scenario)

  validate_scenario_process_metrics-ProcessKept :
      (file : MetricsFile) (role : String) (local_conns total_conns duration : ℤ)
      (scenario : ScenarioSpec Real)
      → validate_scenario_process_metrics f file role local_conns total_conns duration scenario
        ≡ none
      → ProcessKept role local_conns total_conns duration scenario file
  unfolding validate_scenario_process_metrics
  validate_scenario_process_metrics-ProcessKept file role local_conns total_conns duration scenario
        h =
      let (v, rest) = (refuse_if-none (not (eqb_ℤ file.version (pos 2))) _ _).0 h in
      record {
        version = ground (arith, v);
        series =
            elim (Bool-cases
              (str_eq role server_role && not (str_eq scenario.kind authoritative_state))) [
                | inl e ↦ inl e
                | inr e ↦ inr (
                    check_process_cases-CaseKept f role local_conns total_conns duration
                      scenario.kind file (scenario_metric_cases scenario) (rw e at rest))
              ];
      }

  module _ {Artifact : Type 0} (decode : Artifact → Checked MetricsFile) where
    -- An artifact that is accepted and whose file keeps the contract.
    abbrev pub ArtifactKept : Bool → String → ℤ → ℤ → ℤ → ScenarioSpec Real → Artifact → Type 0
    ArtifactKept allow_empty role local_conns total_conns duration scenario a =
        (file : MetricsFile) × (parse_metrics_artifact f decode a allow_empty ≡ ok file)
        × ProcessKept role local_conns total_conns duration scenario file

    check_artifact-Kept :
        (a : Artifact) (allow_empty : Bool) (role : String) (local_conns total_conns duration : ℤ)
        (scenario : ScenarioSpec Real)
        → check_artifact f decode a allow_empty role local_conns total_conns duration scenario
          ≡ none
        → ArtifactKept allow_empty role local_conns total_conns duration scenario a
    unfolding check_artifact
    check_artifact-Kept a allow_empty role local_conns total_conns duration scenario h =
        elim (Checked-cases (parse_metrics_artifact f decode a allow_empty)) [
          | inl (file, e) ↦ (
            file,
            e,
            validate_scenario_process_metrics-ProcessKept file role local_conns total_conns duration
                scenario (rw (check_artifact, e) at h),
          )
          | inr (error, e) ↦ absurd (some_error _ (rw (check_artifact, e) at h))
        ]

    -- Each client with its partition of the connections.
    abbrev pub ClientsKept : List Artifact → List ℤ → ℤ → ℤ → ScenarioSpec Real → Type 0
    ClientsKept [] conns total_conns duration scenario = Unit
    ClientsKept (a ∷ artifacts) [] total_conns duration scenario = ⊥
    ClientsKept (a ∷ artifacts) (n ∷ conns) total_conns duration scenario =
        ArtifactKept false client_role n total_conns duration scenario a
        × ClientsKept artifacts conns total_conns duration scenario

    check_client_artifacts-Kept :
        (artifacts : List Artifact) (conns : List ℤ) (total_conns duration : ℤ)
        (scenario : ScenarioSpec Real)
        → length artifacts ≡ length conns
        → check_client_artifacts f decode artifacts conns total_conns duration scenario ≡ none
        → ClientsKept artifacts conns total_conns duration scenario
    unfolding check_client_artifacts
    check_client_artifacts-Kept [] conns total_conns duration scenario l h = tt
    check_client_artifacts-Kept (a ∷ artifacts) [] total_conns duration scenario l h =
        absurd (omega arith)
    check_client_artifacts-Kept (a ∷ artifacts) (n ∷ conns) total_conns duration scenario l h =
        let (first, rest) = (then_check-none _ _).0 h in
        (
          check_artifact-Kept a false client_role n total_conns duration scenario first,
          check_client_artifacts-Kept artifacts conns total_conns duration scenario (omega arith)
              rest,
        )

    -- Metrics that pass are those of one server and of one client for each partition, and each
    -- process and the merged metrics keep the contract of the scenario.
    pub validate_scenario_metrics_data_keeps :
        (server : Artifact) (clients : List Artifact) (conns : List ℤ) (total_conns duration : ℤ)
        (period : ℕ) (scenario : ScenarioSpec Real) (merged : Option (MergedMetrics Real))
        → validate_scenario_metrics_data f decode server clients conns total_conns duration period
            scenario merged
          ≡ none
        → (length clients ≡ length conns)
          × ArtifactKept true server_role total_conns total_conns duration scenario server
          × ClientsKept clients conns total_conns duration scenario
          × (m : MergedMetrics Real) × (merged ≡ some m)
          × (eqb_ℤ m.version (pos 2) ≡ true)
          × All
              (MergedCaseKept f total_conns duration period scenario.kind m)
              (scenario_metric_cases scenario)
    unfolding validate_scenario_metrics_data
    validate_scenario_metrics_data_keeps server clients conns total_conns duration period scenario
          merged h =
        let (l, h1) = (refuse_if-none (not (length clients == length conns)) _ _).0 h in
        let same : length clients ≡ length conns = ground (arith, l) in
        let (s, h2) = (then_check-none _ _).0 h1 in
        let (c, last) = (then_check-none _ _).0 h2 in
        let (m, e, v, kept) =
          check_merged-Kept f total_conns duration period scenario.kind merged
            (scenario_metric_cases scenario) last in
        (
          same,
          check_artifact-Kept server true server_role total_conns total_conns duration scenario s,
          check_client_artifacts-Kept clients conns total_conns duration scenario same c,
          m,
          e,
          v,
          kept,
        )
