-- ===== src/Gate/Evidence.antt =====
-- orchestrator/run/gate.go: `validateDeterministicLossEvidence`. A reason is what is said, before the
-- texts that are equal become one.
pub mod NoReason
pub mod Exact
pub mod Collected
use rudp_bench.Common.{
  ℕ, ◌-◌, Bool, true, false, not, ◌&&◌, ◌||◌, String, Option, none, some, List, [], ◌∷◌, ◌++◌, ◌==◌,
  ltb, leb, ℤ, pos, ltb_ℤ, leb_ℤ, eqb_ℤ, str_eq, if◌then◌else◌, Float64, map,
}
use rudp_bench.Control.Messages.{ScheduleMessage}
use rudp_bench.LossTrace.Count.{CountError, Counted, count_drops_in_range}
use rudp_bench.LossTrace.Count as Count
use rudp_bench.LossTrace.Trace.{GenerateError, Generated, trace, refused, panic, generate}
use rudp_bench.Scenario.Judge.{note}
use rudp_bench.Gate.Pair.{Netem, NetemRegime, PairSpec, pair_spec}
use rudp_bench.Gate.Trace.{DeterministicLossDirection, trace_bits_or_default}

abbrev pub deterministic_losstrace : String
deterministic_losstrace = "deterministic_losstrace"

abbrev pub effective_measurement_window_inner : String
effective_measurement_window_inner = "effective_measurement_window_inner"

pub record DeterministicLossEvidence (Real : Type 0) : Type 0 where
  pub capture_before_start_ns : ℤ
  pub capture_before_finish_ns : ℤ
  pub capture_after_start_ns : ℤ
  pub capture_after_finish_ns : ℤ
  pub server_egress : Option (DeterministicLossDirection Real)
  pub client_egress : Option (DeterministicLossDirection Real)

-- `NetemLossEvidence` as far as a seeded loss goes.
pub record NetemLossEvidence (Real : Type 0) : Type 0 where
  pub version : ℤ
  pub mode : String
  pub supported : Bool
  pub scope : String
  pub schedule : ScheduleMessage
  pub deterministic : Option (DeterministicLossEvidence Real)
  pub errors : List String

pub data LossReason (Real : Type 0) : Type 0 where
  evidence_missing counters_missing schedule_unavailable schedule_differs samples_overlap
        unsupported :
      LossReason Real
  version_differs : ℤ → LossReason Real
  mode_differs scope_differs reported : String → LossReason Real
  before_outside after_outside : ℤ → ℤ → LossReason Real
  mixes_random record_missing backwards packets_differ no_packets no_drops hash_differs
        realized_differs drops_differ :
      String → LossReason Real
  source_differs : String → String → String → LossReason Real
  bits_differ : String → ℤ → ℤ → LossReason Real
  not_regenerated : String → GenerateError Real → LossReason Real
  not_recounted : String → CountError → LossReason Real

-- The reasons, or the panic of a generation that ends the process.
pub data Reasons (Real : Type 0) : Type 0 where
  reasons : List (LossReason Real) → Reasons Real
  crashed : Reasons Real

module _ {Real : Type 0} where
  abbrev pub then_reasons : List (LossReason Real) → Reasons Real → Reasons Real
  then_reasons rs crashed = crashed
  then_reasons rs (reasons rs') = reasons (rs ++ rs')

  abbrev pub join_reasons : Reasons Real → Reasons Real → Reasons Real
  join_reasons crashed rest = crashed
  join_reasons (reasons rs) rest = then_reasons rs rest

abbrev pub same_schedule : ScheduleMessage → ScheduleMessage → Bool
same_schedule a b =
    str_eq a.message_type b.message_type
    && eqb_ℤ a.start_at_ns b.start_at_ns
    && eqb_ℤ a.stop_at_ns b.stop_at_ns
    && eqb_ℤ a.drain_until_ns b.drain_until_ns

module _ (f : Float64) (draw : ℕ → ℕ → f.Real) (hash : List ℕ → String) where
  open f use {Real, of_nat, flt, fle}

  -- `a != b`.
  abbrev pub differs : Real → Real → Bool
  differs a b = not (fle a b && fle b a)

  unfoldable pub check_drops :
      String → DeterministicLossDirection Real → Counted → List (LossReason Real)
  check_drops name d (Count.failed e) = not_recounted name e ∷ []
  check_drops name d (Count.ok n) = note (not (n == d.expected_drops)) (drops_differ name) []

  unfoldable pub check_trace :
      String → DeterministicLossDirection Real → Generated Real → Reasons Real
  unfolding check_drops
  check_trace name d panic = crashed
  check_trace name d (refused e) = reasons (not_regenerated name e ∷ [])
  check_trace name d (trace words realized) = reasons (
      note (not (str_eq (hash words) d.trace_sha256)) (hash_differs name) (
        note (differs realized d.realized_loss_pct) (realized_differs name)
          (check_drops name d (count_drops_in_range words d.counter_before d.counter_after))))

  -- The record of a direction against the loss that is configured for it.
  unfoldable pub check_record :
      String → String → String → Netem Real → DeterministicLossDirection Real → Reasons Real
  unfolding check_trace
  check_record name namespace device expected d =
      let source = not (str_eq d.namespace namespace && str_eq d.dev device) in
      let bits = not (eqb_ℤ d.trace_bits (trace_bits_or_default expected)) in
      let first = λ (rest : List (LossReason Real)).
        note source (source_differs name d.namespace d.dev)
          (note bits (bits_differ name d.trace_bits (trace_bits_or_default expected)) rest) in
      if ltb d.counter_after d.counter_before
      then reasons (first (backwards name ∷ []))
      else then_reasons
          (first (
            note (not (d.packets == d.counter_after - d.counter_before)) (packets_differ name) (
              note (d.packets == 0) (no_packets name)
                (note (d.expected_drops == 0) (no_drops name) []))))
          (check_trace name d (
            generate f draw expected.loss_seed expected.loss_percent expected.loss_burst_len
              d.trace_bits))

  unfoldable pub check_direction :
      String
      → String
      → String
      → Netem Real
      → Option (DeterministicLossDirection Real)
      → Reasons Real
  unfolding check_record
  check_direction name namespace device expected filled =
      if fle expected.loss_percent (of_nat 0)
      then reasons []
      else if expected.loss_seed == 0
      then reasons (mixes_random name ∷ [])
      else elim filled [
        | none ↦ reasons (record_missing name ∷ [])
        | some d ↦ check_record name namespace device expected d
      ]

  unfoldable pub check_counters :
      PairSpec Real
      → NetemRegime Real
      → ScheduleMessage
      → DeterministicLossEvidence Real
      → Reasons Real
  unfolding check_direction
  check_counters pair netem schedule det =
      then_reasons
        (note (ltb_ℤ det.capture_before_start_ns schedule.start_at_ns)
          (before_outside det.capture_before_start_ns schedule.start_at_ns)
          (note (ltb_ℤ schedule.stop_at_ns det.capture_after_finish_ns)
            (after_outside det.capture_after_finish_ns schedule.stop_at_ns)
            (note (leb_ℤ det.capture_after_start_ns det.capture_before_finish_ns) samples_overlap
              [])))
        (join_reasons
          (check_direction "server_egress" pair.server_ns pair.server_veth netem.server_egress
            det.server_egress)
          (check_direction "client_egress" pair.client_ns pair.client_veth netem.client_egress
            det.client_egress))

  abbrev pub check_schedule : Option ScheduleMessage → ScheduleMessage → List (LossReason Real)
  check_schedule none captured = schedule_unavailable ∷ []
  check_schedule (some effective) captured =
      note (not (same_schedule captured effective)) schedule_differs []

  -- The evidence of a regime whose loss is seeded, with the schedule of the control result. The path of
  -- the executable stands in the pair alone, and no test reads it.
  unfoldable pub validate_deterministic_loss_evidence :
      Option String
      → NetemRegime Real
      → Option ScheduleMessage
      → Option (NetemLossEvidence Real)
      → Reasons Real
  unfolding check_counters
  validate_deterministic_loss_evidence executable netem effective none =
      reasons (evidence_missing ∷ [])
  validate_deterministic_loss_evidence executable netem effective (some e) =
      then_reasons
        (note (not (eqb_ℤ e.version (pos 1))) (version_differs e.version) (
          note (not (str_eq e.mode deterministic_losstrace)) (mode_differs e.mode) (
            note (not e.supported) unsupported (
              note (not (str_eq e.scope effective_measurement_window_inner)) (scope_differs e.scope)
                (map reported e.errors ++ check_schedule effective e.schedule)))))
        (elim e.deterministic [
          | none ↦ reasons (counters_missing ∷ [])
          | some det ↦ check_counters (pair_spec executable netem) netem e.schedule det
        ])
