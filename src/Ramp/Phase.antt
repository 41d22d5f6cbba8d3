-- ===== src/Ramp/Phase.antt =====
-- orchestrator/run/ramp.go: `locateRampSnapshot`, `evaluateRampPhase` and what the scorer checks
-- first. The directory is a parameter: its entries whose names have the prefix of the phase, read
-- with the suffix's pattern; so are the reading and the decoding of an artifact.
pub mod Passed
use rudp_bench.Common.{
  ℕ, Bool, true, false, not, ◌||◌, String, Option, none, some, List, [], ◌∷◌, ◌==◌, ℤ, pos, eqb_ℤ,
  str_eq, if◌then◌else◌, length, Float64,
}
use rudp_bench.Metrics.Types.{MetricsFile, MergedMetrics, MetricsError, Checked}
use rudp_bench.Metrics.Types as MetricsTypes
use rudp_bench.Metrics.Finalize.{parse_metrics_artifact, merge_metrics_data}
use rudp_bench.Metrics.Consistency.{validate_merged_metrics_consistency}
use rudp_bench.Scenario.Spec.{
  ScenarioSpec, environment_baseline, authoritative_state, room_relay_kind,
}
use rudp_bench.Scenario.Judge.{evaluate_scenario_metrics}
use rudp_bench.Ramp.Levels.{RampConfig, RampError, levels, active_conns}
use rudp_bench.Ramp.Levels as Levels
use rudp_bench.Ramp.Score.{RampPoint, Phase, point, failed, RampResult, Scored, score}
use rudp_bench.Ramp.Traffic.{
  Assessment, AssessError, Assessed, breaks, add_breaks, assess_ramp_traffic,
}
use rudp_bench.Ramp.Traffic as Traffic

-- An entry whose name has the prefix: one that does not match the suffix, or a snapshot.
pub data DirEntry (Artifact : Type 0) : Type 0 where
  malformed : DirEntry Artifact
  snapshot : ℕ → Artifact → DirEntry Artifact

pub data LocateError : Type 0 where
  unreadable malformed_name pending : LocateError
  duplicate : ℕ → LocateError
  wrong_active : ℕ → ℕ → LocateError

pub data Located (Artifact : Type 0) : Type 0 where
  found : Artifact → Located Artifact
  missing : LocateError → Located Artifact

pub data PhaseError : Type 0 where
  server_snapshot client_snapshot : LocateError → PhaseError
  kind_unsupported : String → PhaseError
  metrics inconsistent : MetricsError → PhaseError
  version_not_2 : ℤ → PhaseError
  contract : AssessError → PhaseError

pub data ScoreError : Type 0 where
  no_ramp no_scenario : ScoreError
  client_bases : ℕ → ScoreError
  levels_refused : RampError → ScoreError

pub data ScoredRun (Real : Type 0) : Type 0 where
  scored : Scored Real PhaseError → ScoredRun Real
  refused : ScoreError → ScoredRun Real

module _ {Artifact : Type 0} where
  -- The snapshots of a directory, unless a name is malformed.
  unfoldable pub snapshots_of : List (DirEntry Artifact) → Option (List (ℕ × Artifact))
  snapshots_of [] = some []
  snapshots_of (malformed ∷ entries) = none
  snapshots_of (snapshot active a ∷ entries) = elim (snapshots_of entries) [
    | none ↦ none
    | some snapshots ↦ some ((active, a) ∷ snapshots)
  ]

  -- Exactly one snapshot, with the connections of the phase.
  unfoldable pub only_snapshot : List (ℕ × Artifact) → ℕ → Located Artifact
  only_snapshot [] want = missing pending
  only_snapshot ((active, a) ∷ []) want =
      if not (active == want) then missing (wrong_active active want) else found a
  only_snapshot (x ∷ y ∷ snapshots) want = missing (duplicate (length (x ∷ y ∷ snapshots)))

  unfoldable pub locate_ramp_snapshot : Option (List (DirEntry Artifact)) → ℕ → Located Artifact
  unfolding snapshots_of only_snapshot
  locate_ramp_snapshot none want = missing unreadable
  locate_ramp_snapshot (some entries) want = elim (snapshots_of entries) [
    | none ↦ missing malformed_name
    | some snapshots ↦ only_snapshot snapshots want
  ]

-- The fields of `RunConfig` that a ramp reads, past the checks that they are there.
pub record RampRun (Real : Type 0) : Type 0 where
  pub ramp : RampConfig
  pub scenario : ScenarioSpec Real
  pub total_conns : ℤ
  pub attempted_threshold : Real
  pub staleness_period_ns : ℕ

module _ (f : Float64) {Artifact : Type 0} (decode : Artifact → Checked MetricsFile) where
  open f use {Real}

  -- Merged metrics of a phase: checked, judged, and broken by what the traffic lacks.
  unfoldable pub judge_phase : RampRun Real → ℕ → ℕ → MergedMetrics Real → Phase Real PhaseError
  judge_phase cfg index active merged =
      if not (eqb_ℤ merged.version (pos 2))
      then failed (version_not_2 merged.version)
      else elim (validate_merged_metrics_consistency merged) [
        | some e ↦ failed (inconsistent e)
        | none ↦
            elim (assess_ramp_traffic f
              (record {
                sample = cfg.ramp.sample;
                attempted_threshold = cfg.attempted_threshold;
                staleness_period_ns = cfg.staleness_period_ns;
              })
              (pos active) merged cfg.scenario) [
                | Traffic.failed e ↦ failed (contract e)
                | breaks bs ↦ point (record {
                  index = index;
                  active_conns = active;
                  evaluation =
                      add_breaks f bs (evaluate_scenario_metrics f (some merged) cfg.scenario);
                })
              ]
      ]

  unfoldable pub merge_phase : RampRun Real → ℕ → ℕ → List Artifact → Phase Real PhaseError
  unfolding judge_phase
  merge_phase cfg index active artifacts =
      elim (merge_metrics_data f decode artifacts (pos active)) [
        | MetricsTypes.failed e ↦ failed (metrics e)
        | MetricsTypes.ok merged ↦ judge_phase cfg index active merged
      ]

  -- Which of the two artifacts are merged, by the kind of the scenario.
  unfoldable pub phase_of : RampRun Real → ℕ → ℕ → Artifact → Artifact → Phase Real PhaseError
  unfolding merge_phase
  phase_of cfg index active server client =
      if str_eq cfg.scenario.kind authoritative_state
      then merge_phase cfg index active (server ∷ client ∷ [])
      else if str_eq cfg.scenario.kind room_relay_kind
          || str_eq cfg.scenario.kind environment_baseline
      then elim (parse_metrics_artifact f decode server true) [
        | MetricsTypes.failed e ↦ failed (metrics e)
        | MetricsTypes.ok file ↦ merge_phase cfg index active (client ∷ [])
      ]
      else failed (kind_unsupported cfg.scenario.kind)

  unfoldable pub evaluate_ramp_phase :
      RampRun Real
      → (ℕ → Option (List (DirEntry Artifact)))
      → (ℕ → Option (List (DirEntry Artifact)))
      → ℕ
      → Phase Real PhaseError
  unfolding phase_of locate_ramp_snapshot
  evaluate_ramp_phase cfg server_dir client_dir index =
      let active = active_conns cfg.ramp index cfg.total_conns in
      elim (locate_ramp_snapshot (server_dir index) active) [
        | missing e ↦ failed (server_snapshot e)
        | found server ↦ elim (locate_ramp_snapshot (client_dir index) active) [
          | missing e ↦ failed (client_snapshot e)
          | found client ↦ phase_of cfg index active server client
        ]
      ]

  unfoldable pub score_levels :
      RampRun Real
      → (ℕ → Option (List (DirEntry Artifact)))
      → (ℕ → Option (List (DirEntry Artifact)))
      → ScoredRun Real
  score_levels cfg server_dir client_dir = elim (levels cfg.ramp cfg.total_conns) [
    | Levels.failed e ↦ refused (levels_refused e)
    | Levels.ok n ↦ scored (score (evaluate_ramp_phase cfg server_dir client_dir) n)
  ]

  -- The settings with their pointers, one base for the server and a list for the clients.
  unfoldable pub score_ramp_snapshots :
      Option RampConfig
      → Option (ScenarioSpec Real)
      → ℤ
      → Real
      → ℕ
      → (ℕ → Option (List (DirEntry Artifact)))
      → List (ℕ → Option (List (DirEntry Artifact)))
      → ScoredRun Real
  unfolding score_levels
  score_ramp_snapshots none scenario total_conns threshold period server clients = refused no_ramp
  score_ramp_snapshots (some ramp) none total_conns threshold period server clients =
      refused no_scenario
  score_ramp_snapshots (some ramp) (some scenario) total_conns threshold period server
        (client ∷ []) =
      score_levels
        (record {
          ramp = ramp;
          scenario = scenario;
          total_conns = total_conns;
          attempted_threshold = threshold;
          staleness_period_ns = period;
        })
        server client
  score_ramp_snapshots (some ramp) (some scenario) total_conns threshold period server clients =
      refused (client_bases (length clients))
