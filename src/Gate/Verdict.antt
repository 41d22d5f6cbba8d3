-- ===== src/Gate/Verdict.antt =====
-- orchestrator/run/gate.go: `EvaluateGate`, with `ValidateOffloadIntervalEvidence` and
-- `ValidateNetemLossEvidence` that it calls. What `netops.ValidateOffloadEvidence` says of either
-- sample, and what is said of the queue counters of a random loss, are inputs. A panic in the
-- generation of a trace ends the process: there is no result.
pub mod Run
pub mod Valid
use rudp_bench.Common.{
  ℕ, Bool, true, false, not, ◌&&◌, ◌||◌, String, Option, none, some, List, [], ◌∷◌, ◌++◌, ◌==◌, ltb,
  ℤ, pos, ltb_ℤ, eqb_ℤ, if◌then◌else◌, map, Float64,
}
use rudp_bench.Control.Messages.{ScheduleMessage, Participant, InvalidReason, Result}
use rudp_bench.Metrics.Types.{MergedMetrics}
use mathlib.Core.Option
use rudp_bench.Metrics.Finalize.{attempted_ratio, attempted_ratio_with}
use rudp_bench.Scenario.Judge.{note}
use rudp_bench.Gate.Pair.{NetemRegime}
use rudp_bench.Gate.Trace.{configured_loss, deterministic_loss}
use rudp_bench.Gate.Evidence.{
  NetemLossEvidence, LossReason, Reasons, reasons, crashed, validate_deterministic_loss_evidence,
}
use rudp_bench.Gate.DoneReport.{
  ScenarioDoneStats, DoneSaid, Found, both, DoneConfig, total_peer_disconnects, total_send_refused,
}
use rudp_bench.Gate.DoneStats.{validate_scenario_done_stats}

pub record ProcessResult : Type 0 where
  pub role : String
  pub proc_index : ℤ
  pub pid : ℤ
  pub exited : Bool
  pub exit_code : ℤ
  pub error : String

pub data GateReason (Real : Type 0) : Type 0 where
  given : String → GateReason Real
  control_missing metrics_missing : GateReason Real
  control_invalid : InvalidReason → GateReason Real
  negative_margin : ℤ → ℤ → ℤ → GateReason Real
  done_said : DoneSaid → GateReason Real
  attempted_below : Real → Real → GateReason Real
  unsent_by_disconnects unsent_by_refusals : Real → Real → ℕ → GateReason Real
  order_violations : ℕ → GateReason Real
  not_exited exit_failed : ProcessResult → GateReason Real
  client_drops : ℕ → ℕ → GateReason Real
  offloads_missing : GateReason Real
  loss_said : LossReason Real → GateReason Real

-- What the gate reads of a configuration: whether it has a ramp, whether it has a scenario, and the
-- run itself with its network; the kind and the rate are those of the scenario, where there is one.
pub record GateConfig (Real : Type 0) : Type 0 where
  pub ramp : Bool
  pub scenario : Bool
  pub run : DoneConfig Real

pub record GateInput (Real : Type 0) : Type 0 where
  pub control : Option Result
  pub metrics : Option (MergedMetrics Real)
  pub processes : List ProcessResult
  pub attempted_threshold : Real
  pub netem_enabled : Bool
  pub in_errors : ℕ
  pub rcvbuf_errors : ℕ
  pub extra_reasons : List String
  pub sut_failure_reasons : List String
  pub offloads : List String
  pub offloads_after : Option (List String)
  pub loss_evidence : Option (NetemLossEvidence Real)
  pub random_loss : List String
  pub config : Option (GateConfig Real)

pub data Verdict : Type 0 where
  valid invalid : Verdict

-- The result, before the texts that are equal become one.
pub record GateResult (Real : Type 0) : Type 0 where
  pub verdict : Verdict
  pub reasons : List (GateReason Real)
  pub attempted_ratio : Real
  pub sut_failure_reasons : List (GateReason Real)

abbrev pub schedule_of : Option Result → Option ScheduleMessage
schedule_of none = none
schedule_of (some r) = some r.schedule

module _ {Real : Type 0} where
  abbrev pub only_invalid : List (GateReason Real) → Found (GateReason Real)
  only_invalid rs = record { invalid = rs; failed = [] }

  abbrev pub only_failed : List (GateReason Real) → Found (GateReason Real)
  only_failed rs = record { invalid = []; failed = rs }

  unfoldable pub margin_reasons : List Participant → List (GateReason Real)
  margin_reasons [] = []
  margin_reasons (p ∷ participants) =
      note (p.ack_received && ltb_ℤ p.sched_ack.margin_ns (pos 0))
        (negative_margin p.hello.proc_index p.hello.pid p.sched_ack.margin_ns)
        (margin_reasons participants)

  unfoldable pub control_reasons : Option Result → List (GateReason Real)
  unfolding margin_reasons
  control_reasons none = control_missing ∷ []
  control_reasons (some r) = map control_invalid r.invalid_reasons ++ margin_reasons r.participants

  unfoldable pub process_reasons : List ProcessResult → List (GateReason Real)
  process_reasons [] = []
  process_reasons (p ∷ processes) =
      let rest = process_reasons processes in
      if not p.exited
      then not_exited p ∷ rest
      else note (not (eqb_ℤ p.exit_code (pos 0))) (exit_failed p) rest

  abbrev pub has_ramp : Option (GateConfig Real) → Bool
  has_ramp none = false
  has_ramp (some c) = c.ramp

  abbrev pub scenario_of : Option (GateConfig Real) → Option (DoneConfig Real)
  scenario_of none = none
  scenario_of (some c) = if c.ramp || not c.scenario then none else some c.run

  abbrev pub netem_of : Option (GateConfig Real) → Option (NetemRegime Real)
  netem_of none = none
  netem_of (some c) = c.run.netem

  abbrev pub disables_offloads : Option (NetemRegime Real) → Bool
  disables_offloads none = false
  disables_offloads (some n) = n.disable_offloads

  -- The sample after the run may be missing where the measured server failed.
  abbrev pub after_reasons : Option (List String) → Bool → List (GateReason Real)
  after_reasons none allowed = note (not allowed) offloads_missing []
  after_reasons (some said) allowed = map given said

  unfoldable pub validate_offload_interval_evidence :
      Option (NetemRegime Real) → List String → Option (List String) → Bool → List (GateReason Real)
  validate_offload_interval_evidence netem before after allowed =
      if disables_offloads netem then map given before ++ after_reasons after allowed else []

  abbrev pub is_nil : List (GateReason Real) → Bool
  is_nil [] = true
  is_nil (r ∷ rs) = false

  abbrev pub verdict_of : List (GateReason Real) → Verdict
  verdict_of [] = valid
  verdict_of (r ∷ rs) = invalid

module _ (f : Float64) (decode : List ℕ → Option ScenarioDoneStats) where
  open f use {Real, of_nat, flt, fle}

  abbrev pub saying : Found DoneSaid → Found (GateReason Real)
  saying x = record { invalid = map done_said x.invalid; failed = map done_said x.failed }

  unfoldable pub done_found : Option (DoneConfig Real) → Option Result → Found (GateReason Real)
  done_found none control = only_invalid []
  done_found (some cfg) none = only_invalid []
  done_found (some cfg) (some r) = saying (validate_scenario_done_stats f decode cfg r.participants)

  -- A ratio below the threshold, and whose failure that is.
  unfoldable pub shortfall : Option Result → MergedMetrics Real → Real → Found (GateReason Real)
  shortfall control metrics threshold =
      let attempted = attempted_ratio f metrics in
      let refused = total_send_refused decode control in
      let disconnects = total_peer_disconnects decode control in
      if ltb 0 disconnects
      then only_failed (unsent_by_disconnects attempted threshold disconnects ∷ [])
      else if ltb 0 refused && fle threshold (attempted_ratio_with f metrics refused)
      then only_failed (unsent_by_refusals attempted threshold refused ∷ [])
      else only_invalid (attempted_below attempted threshold ∷ [])

  unfoldable pub metrics_found :
      Option Result → Option (MergedMetrics Real) → Real → Found (GateReason Real)
  unfolding shortfall
  metrics_found control none threshold = only_invalid (metrics_missing ∷ [])
  metrics_found control (some metrics) threshold =
      both
        (if flt (attempted_ratio f metrics) threshold
          then shortfall control metrics threshold
          else only_invalid [])
        (only_invalid (
          note (not (metrics.raw.timestamp_order_violations == 0))
            (order_violations metrics.raw.timestamp_order_violations) []))

  abbrev pub attempted_of : GateInput Real → Real
  attempted_of input =
      if has_ramp input.config
      then of_nat 0
      else elim input.metrics [ none ↦ of_nat 0 | some metrics ↦ attempted_ratio f metrics ]

  -- All that is found before the evidence of the network.
  unfoldable pub run_found : GateInput Real → Found (GateReason Real)
  unfolding control_reasons done_found metrics_found process_reasons
  run_found input =
      both
        (record {
          invalid = map given input.extra_reasons ++ control_reasons input.control;
          failed = map given input.sut_failure_reasons;
        })
        (both (done_found (scenario_of input.config) input.control) (
          both
            (if has_ramp input.config
              then only_invalid []
              else metrics_found input.control input.metrics input.attempted_threshold)
            (only_invalid (
              process_reasons input.processes
              ++ note
                  (input.netem_enabled
                    && (not (input.in_errors == 0) || not (input.rcvbuf_errors == 0)))
                  (client_drops input.in_errors input.rcvbuf_errors) []))))

  module _ (draw : ℕ → ℕ → Real) (hash : List ℕ → String) (executable : Option String) where
    unfoldable pub validate_seeded :
        Option (NetemRegime Real) → Option Result → Option (NetemLossEvidence Real) → Reasons Real
    validate_seeded none control evidence = reasons []
    validate_seeded (some netem) control evidence =
        validate_deterministic_loss_evidence f draw hash executable netem (schedule_of control)
          evidence

    -- Without a seed the reasons are those that are said of a random loss.
    unfoldable pub validate_netem_loss_evidence :
        Option (NetemRegime Real)
        → Option Result
        → Option (NetemLossEvidence Real)
        → List String
        → Option (List (GateReason Real))
    unfolding validate_seeded
    validate_netem_loss_evidence netem control evidence random =
        if not (configured_loss f netem)
        then some []
        else if deterministic_loss f netem
        then elim (validate_seeded netem control evidence) [
          | reasons rs ↦ some (map loss_said rs)
          | crashed ↦ none
        ]
        else some (map given random)

    abbrev pub verdict_with :
        GateInput Real → Found (GateReason Real) → List (GateReason Real) → GateResult Real
    verdict_with input found loss =
        let invalid =
          found.invalid
          ++ validate_offload_interval_evidence (netem_of input.config) input.offloads
              input.offloads_after (not (is_nil found.failed))
          ++ loss in
        record {
          verdict = verdict_of invalid;
          reasons = invalid;
          attempted_ratio = attempted_of input;
          sut_failure_reasons = found.failed;
        }

    unfoldable pub evaluate_gate : GateInput Real → Option (GateResult Real)
    unfolding validate_netem_loss_evidence validate_offload_interval_evidence run_found
    evaluate_gate input = Option.map (verdict_with input (run_found input)) (
        validate_netem_loss_evidence (netem_of input.config) input.control input.loss_evidence
          input.random_loss)
