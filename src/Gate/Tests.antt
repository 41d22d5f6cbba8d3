-- ===== src/Gate/Tests.antt =====
-- Evidence and reports that the gate accepts, and the texts that it keeps.
use rudp_bench.Common.{
  ℕ, ◌≡◌, ◌⊎◌, refl, find, true, false, not, ◌&&◌, List, [], ◌∷◌, String, Option, none, some, pos,
  ◌==◌, All, count, str_eq, if◌then◌else◌,
}
use rudp_bench.Control.Messages.{ScheduleMessage, Participant, Result}
use rudp_bench.Control.State.{new_participant}
use rudp_bench.Control.Tests.{numbers, greeting}
use rudp_bench.Metrics.FileTests.{v2_merged}
use rudp_bench.Metrics.Counts.{ratio_or_one}
use rudp_bench.Metrics.Merge.{aggregate_of}
use rudp_bench.Metrics.Finalize.{attempted_ratio_with}
use rudp_bench.Scenario.Spec.{environment_baseline, authoritative_state}
use rudp_bench.Scenario.Judge.{note}
use rudp_bench.Scenario.Contract.Ranges.{expected_slot_range}
use rudp_bench.LossTrace.Tests.{thousandths, draws, words, generated}
use rudp_bench.LossTrace.Bits.{ones}
use rudp_bench.LossTrace.Count as Count
use rudp_bench.LossTrace.Count.{count_drops_in_range}
use rudp_bench.Gate.Pair.{Netem, NetemRegime, pair_spec}
use rudp_bench.Gate.Trace.{
  DeterministicLossDirection, fill_direction, filled, configured_loss, deterministic_loss,
  trace_bits_or_default,
}
use rudp_bench.Gate.Evidence.{
  DeterministicLossEvidence, NetemLossEvidence, reasons, same_schedule, check_record, no_packets,
  no_drops, validate_deterministic_loss_evidence, deterministic_losstrace,
  effective_measurement_window_inner,
}
use rudp_bench.Gate.Evidence.Exact.{
  WindowProved, DirectionProved, validate_deterministic_loss_evidence-proved,
}
use rudp_bench.Gate.Evidence.Collected.{check_record-fill_direction}
use rudp_bench.Gate.DoneReport.{
  total_peer_disconnects, total_send_refused, AuthoritativeProgress, ScenarioDoneStats, DoneConfig,
  read_stats,
}
use rudp_bench.Gate.DoneStats.{check_participants, lossless_scenario}
use rudp_bench.Gate.DoneStats.Proved.{
  AtTick, client_progress, Reported, is_server_record, validate_scenario_done_stats-proved,
}
use rudp_bench.Gate.Verdict.{
  ProcessResult, GateReason, GateInput, valid, run_found, attempted_of, evaluate_gate,
}
use rudp_bench.Gate.Verdict.Valid.{RunKept, evaluate_gate-valid}
use rudp_bench.Gate.Dedupe.{dedupe_strings, is_seen}
use rudp_bench.Gate.Dedupe.Once.{dedupe_strings_lem}

abbrev hash_of : List ℕ → String
hash_of ws = "h"

abbrev quiet : Netem ℕ
quiet = record {
  delay_ms = pos 0;
  jitter_ms = pos 0;
  loss_percent = 0;
  loss_burst_len = 0;
  loss_seed = 0;
  trace_bits = pos 0;
  rate = "";
  limit = pos 0;
}

abbrev lossy : Netem ℕ
lossy = record quiet {
  loss_percent = 20000;
  loss_burst_len = 2000;
  loss_seed = 7;
  trace_bits = pos 64;
}

abbrev regime : NetemRegime ℕ
regime = record {
  prefix = "";
  server_addr_cidr = "";
  client_addr_cidr = "";
  link_mtu_bytes = pos 0;
  disable_offloads = true;
  server_ns = "a";
  client_ns = "";
  server_veth = "va";
  client_veth = "vb";
  server_egress = lossy;
  client_egress = quiet;
}

abbrev read_counters : DeterministicLossDirection ℕ
read_counters = record {
  namespace = "a";
  dev = "va";
  trace_bits = pos 64;
  counter_before = 0;
  counter_after = 64;
  packets = 0;
  expected_drops = 0;
  realized_loss_pct = 0;
  trace_sha256 = "";
}

abbrev counted : DeterministicLossDirection ℕ
counted = record read_counters {
  packets = 64;
  expected_drops = 16;
  realized_loss_pct = 25000;
  trace_sha256 = "h";
}

abbrev schedule : ScheduleMessage
schedule = record {
  message_type = "schedule";
  start_at_ns = pos 10;
  stop_at_ns = pos 90;
  drain_until_ns = pos 99;
}

abbrev samples : DeterministicLossEvidence ℕ
samples = record {
  capture_before_start_ns = pos 11;
  capture_before_finish_ns = pos 12;
  capture_after_start_ns = pos 80;
  capture_after_finish_ns = pos 81;
  server_egress = some counted;
  client_egress = none;
}

abbrev evidence : NetemLossEvidence ℕ
evidence = record {
  version = pos 1;
  mode = deterministic_losstrace;
  supported = true;
  scope = effective_measurement_window_inner;
  schedule = schedule;
  deterministic = some samples;
  errors = [];
}

drops_counted : count_drops_in_range words 0 64 ≡ Count.ok 16
unfolding count_drops_in_range ones
drops_counted = refl

filled_record : fill_direction thousandths draws hash_of lossy read_counters ≡ filled counted none
unfolding fill_direction
filled_record = rw (generated, drops_counted) refl

check_record-fill_direction_example :
    check_record thousandths draws hash_of "server_egress" "a" "va" lossy counted
    ≡ reasons (
        note
          (counted.packets == 0)
          (no_packets "server_egress")
          (note (counted.expected_drops == 0) (no_drops "server_egress") []))
unfolding trace_bits_or_default
check_record-fill_direction_example =
    check_record-fill_direction thousandths draws hash_of "server_egress" lossy read_counters refl
      filled_record refl

accepted :
    validate_deterministic_loss_evidence thousandths draws hash_of none regime
      (some schedule)
      (some evidence)
    ≡ reasons []
unfolding validate_deterministic_loss_evidence trace_bits_or_default pair_spec
accepted = rw (generated, drops_counted) refl

validate_deterministic_loss_evidence-proved_example :
    (e : NetemLossEvidence ℕ) × (det : DeterministicLossEvidence ℕ) × (s : ScheduleMessage) × (some
        evidence
      ≡ some e)
    × (e.deterministic ≡ some det)
    × (e.errors ≡ [])
    × (some schedule ≡ some s)
    × (same_schedule e.schedule s ≡ true)
    × WindowProved thousandths draws hash_of e.schedule det
    × DirectionProved thousandths draws hash_of "a" "va" lossy det.server_egress
    × DirectionProved thousandths draws hash_of "rudpbench-cli" "vb" quiet det.client_egress
unfolding pair_spec
validate_deterministic_loss_evidence-proved_example =
    validate_deterministic_loss_evidence-proved thousandths draws hash_of none regime
      (some schedule) (some evidence) accepted

abbrev progress : String → AuthoritativeProgress
progress role = record {
  role = role;
  local_conns = 2;
  roster_conns = 2;
  input_last_sent_min = 5;
  input_last_sent_max = 6;
  state_header_seq_recv_min = 4;
  state_header_seq_recv_max = 4;
  state_applied_input_seq_recv_min = 4;
  state_applied_input_seq_recv_max = 5;
  server_state_ticks = 3;
}

-- The report is the byte 1 for the server and 2 for a client.
abbrev decode : List ℕ → Option ScenarioDoneStats
decode [] = none
decode (b ∷ bytes) = some (record {
  invalid_payload = some 0;
  peer_disconnects = some 1;
  send_refused = none;
  authoritative_progress = some (progress (if b == 1 then "server" else "client"));
})

abbrev participant : String → ℕ → Participant
participant role b = record (new_participant b (greeting role)) {
  ready = record { conns = pos 2 };
  done = record { stats = b ∷ [] };
}

abbrev participants : List Participant
participants = participant "server" 1 ∷ participant "client" 2 ∷ []

abbrev done_config : DoneConfig ℕ
done_config = record {
  kind = authoritative_state;
  server_rate_hz = 20;
  duration = pos 160000000;
  total_conns = pos 2;
  netem = none;
}

validate_scenario_done_stats-proved_example :
    All (Reported numbers done_config decode) participants
    × ((str_eq authoritative_state authoritative_state ≡ false)
        ⊎ (count (is_server_record numbers done_config decode) participants ≡ 1))
    × ((lossless_scenario numbers none ≡ false)
        ⊎ ((tick : ℕ) × All
              (λ p. AtTick numbers done_config tick (client_progress numbers done_config decode p))
              participants))
unfolding check_participants expected_slot_range read_stats lossless_scenario
validate_scenario_done_stats-proved_example =
    validate_scenario_done_stats-proved numbers done_config decode participants refl refl

dedupe_strings_lem_example :
    count (λ t. str_eq t "x") (dedupe_strings ("x" ∷ "" ∷ "y" ∷ "x" ∷ []))
    ≡ (if is_seen "x" ("x" ∷ "" ∷ "y" ∷ "x" ∷ []) && not (str_eq "x" "") then 1 else 0)
dedupe_strings_lem_example = dedupe_strings_lem "x" ("x" ∷ "" ∷ "y" ∷ "x" ∷ [])

abbrev exited : ProcessResult
exited = record {
  role = "client";
  proc_index = pos 0;
  pid = pos 7;
  exited = true;
  exit_code = pos 0;
  error = "";
}

abbrev control_result : Result
control_result = record {
  valid = true;
  invalid_reasons = [];
  schedule = schedule;
  participants = participants;
  stats = [];
  steady_enabled = false;
  steady_reached = false;
  warmup_actual_ns = pos 0;
}

-- A run of two processes over the seeded loss, that attempted too little and disclosed two lost
-- peers.
abbrev gate_input : GateInput ℕ
gate_input = record {
  control = some control_result;
  metrics = some v2_merged;
  processes = exited ∷ exited ∷ [];
  attempted_threshold = 950;
  netem_enabled = true;
  in_errors = 0;
  rcvbuf_errors = 0;
  extra_reasons = [];
  sut_failure_reasons = [];
  offloads = [];
  offloads_after = none;
  loss_evidence = some evidence;
  random_loss = [];
  config = some (record {
    ramp = false;
    scenario = true;
    run = record done_config { kind = environment_baseline; netem = some regime };
  });
}

-- What is found against the measured server.
unfoldable gate_failed : List (GateReason ℕ)
gate_failed = (run_found thousandths decode gate_input).failed

gate_valid :
    evaluate_gate thousandths decode draws hash_of none gate_input
    ≡ some (record {
      verdict = valid;
      reasons = [];
      attempted_ratio = attempted_of thousandths decode gate_input;
      sut_failure_reasons = gate_failed;
    })
unfolding evaluate_gate check_participants read_stats ratio_or_one attempted_ratio_with
    total_peer_disconnects total_send_refused aggregate_of find gate_failed configured_loss
    deterministic_loss
gate_valid = rw accepted refl

evaluate_gate-valid_example :
    (r : Result) × (some control_result ≡ some r)
    × RunKept thousandths decode draws hash_of none gate_input r (record {
      verdict = valid;
      reasons = [];
      attempted_ratio = attempted_of thousandths decode gate_input;
      sut_failure_reasons = gate_failed;
    })
evaluate_gate-valid_example =
    evaluate_gate-valid thousandths decode draws hash_of none gate_input gate_valid refl
