-- ===== src/Gate/DoneStats.antt =====
-- orchestrator/run/gate.go: `validateScenarioDoneStats`. A scenario of authoritative state has the
-- traffic of the server's state. The three counters that Go looks at in the order of a map are in that
-- of the source.
pub mod Reports
pub mod Proved
use rudp_bench.Gate.DoneReport.{
  AuthoritativeProgress, ScenarioDoneStats, DoneReason, not_an_object, payload_missing,
  progress_missing, inverted_range, role_unknown, role_differs, server_records, corrupted,
  roster_differs, ticks_outside, coverage, no_progress, applied_exceeds, not_caught_up,
  ticks_differ, another_differs, DoneSaid, about, of_run, Found, both, nothing_found, said_of,
  DoneConfig, read_stats,
}
use rudp_bench.Common.{
  ℕ, ◌+◌, Bool, true, false, not, ◌&&◌, ◌||◌, String, Option, none, some, List, [], ◌∷◌, ◌++◌, ◌==◌,
  ltb, ℤ, pos, to_bits64, add_u64, str_eq, if◌then◌else◌, length, map, Float64,
}
use rudp_bench.Control.Messages.{Participant, Result}
use rudp_bench.Scenario.Spec.{authoritative_state}
use rudp_bench.Scenario.Judge.{note}
use rudp_bench.Scenario.Contract.Ranges.{Ranged, range, refused, panic, expected_slot_range}
use rudp_bench.Gate.Pair.{NetemRegime}

module _ (f : Float64) where
  open f use {Real, of_nat, decimal, fsub, flt}

  -- `math.Abs(x) < 1e-12`, by the two bounds.
  abbrev pub nearly_zero : Real → Bool
  nearly_zero x =
      let small = decimal 1 1000000000000 in flt (fsub (of_nat 0) small) x && flt x small

  unfoldable pub lossless_scenario : Option (NetemRegime Real) → Bool
  lossless_scenario none = true
  lossless_scenario (some netem) =
      nearly_zero netem.client_egress.loss_percent && nearly_zero netem.server_egress.loss_percent

  abbrev pub outside : Ranged → ℕ → Bool
  outside (range least most) n = ltb n least || ltb most n
  outside (refused e) n = true
  outside panic n = true

  unfoldable pub server_found : DoneConfig Real → AuthoritativeProgress → Found DoneReason
  server_found cfg progress = record {
    invalid = [];
    failed =
        note (not (progress.roster_conns == to_bits64 cfg.total_conns))
          (roster_differs progress.roster_conns)
          (note
            (outside (expected_slot_range f cfg.server_rate_hz cfg.duration (pos 1))
              progress.server_state_ticks)
            (ticks_outside progress.server_state_ticks) []);
  }

  -- The final tick of the client before, in a run without loss.
  abbrev pub differs_from : Option ℕ → ℕ → List DoneReason
  differs_from none n = []
  differs_from (some seq) n = note (not (n == seq)) (another_differs n seq) []

  unfoldable pub client_found :
      DoneConfig Real → Option ℕ → Participant → AuthoritativeProgress → Found DoneReason
  client_found cfg seq p progress =
      let lossless = lossless_scenario cfg.netem in
      record {
        invalid =
            note
              (ltb progress.input_last_sent_max progress.input_last_sent_min
                || ltb progress.state_header_seq_recv_max progress.state_header_seq_recv_min
                || ltb progress.state_applied_input_seq_recv_max
                    progress.state_applied_input_seq_recv_min)
              inverted_range [];
        failed =
            note
              (not (progress.local_conns == to_bits64 p.ready.conns)
                || not (progress.roster_conns == to_bits64 cfg.total_conns))
              (coverage progress.local_conns p.ready.conns progress.roster_conns)
              (note (progress.input_last_sent_min == 0) (no_progress "input_last_sent_min") (
                note (progress.state_header_seq_recv_min == 0)
                  (no_progress "state_header_seq_recv_min")
                  (note (progress.state_applied_input_seq_recv_min == 0)
                    (no_progress "state_applied_input_seq_recv_min")
                    (note
                      (ltb progress.input_last_sent_max progress.state_applied_input_seq_recv_max)
                      (applied_exceeds progress.state_applied_input_seq_recv_max
                        progress.input_last_sent_max)
                      (note
                        (lossless
                          && ltb (add_u64 progress.state_applied_input_seq_recv_min 1)
                              progress.input_last_sent_min)
                        (not_caught_up progress.state_applied_input_seq_recv_min
                          progress.input_last_sent_min)
                        (note
                          (lossless
                            && not (
                                progress.state_header_seq_recv_min
                                == progress.state_header_seq_recv_max))
                          (ticks_differ progress.state_header_seq_recv_min
                            progress.state_header_seq_recv_max)
                          (if lossless
                            then differs_from seq progress.state_header_seq_recv_max
                            else [])))))));
      }

  unfoldable pub role_found :
      DoneConfig Real → Option ℕ → Participant → AuthoritativeProgress → Found DoneReason
  unfolding server_found client_found
  role_found cfg seq p progress =
      both
        (record {
          invalid =
              note (not (str_eq progress.role p.hello.role))
                (role_differs progress.role p.hello.role) [];
          failed = [];
        })
        (if str_eq p.hello.role "server"
          then server_found cfg progress
          else if str_eq p.hello.role "client"
          then client_found cfg seq p progress
          else record { invalid = role_unknown ∷ []; failed = [] })

  abbrev pub payload_found : Option ℕ → Found DoneReason
  payload_found none = record { invalid = payload_missing ∷ []; failed = [] }
  payload_found (some n) = record { invalid = []; failed = note (not (n == 0)) (corrupted n) [] }

  abbrev pub progress_found :
      DoneConfig Real → Option ℕ → Participant → Option AuthoritativeProgress → Found DoneReason
  progress_found cfg seq p none = record { invalid = progress_missing ∷ []; failed = [] }
  progress_found cfg seq p (some progress) = role_found cfg seq p progress

  unfoldable pub stats_found :
      DoneConfig Real → Option ℕ → Participant → Option ScenarioDoneStats → Found DoneReason
  unfolding role_found
  stats_found cfg seq p none = record { invalid = not_an_object ∷ []; failed = [] }
  stats_found cfg seq p (some stats) = both (payload_found stats.invalid_payload) (
      if not (str_eq cfg.kind authoritative_state)
      then nothing_found
      else progress_found cfg seq p stats.authoritative_progress)

  -- The progress of a participant with this role, where it is looked at.
  unfoldable pub progress_of :
      DoneConfig Real
      → String
      → Participant
      → Option ScenarioDoneStats
      → Option AuthoritativeProgress
  progress_of cfg role p none = none
  progress_of cfg role p (some stats) =
      if str_eq cfg.kind authoritative_state && str_eq p.hello.role role
      then stats.authoritative_progress
      else none

  abbrev pub is_some : Option AuthoritativeProgress → Bool
  is_some none = false
  is_some (some progress) = true

  -- The final tick that the next client is compared with.
  abbrev pub next_seq : DoneConfig Real → Option ℕ → Option AuthoritativeProgress → Option ℕ
  next_seq cfg seq none = seq
  next_seq cfg seq (some progress) =
      if lossless_scenario cfg.netem then some progress.state_header_seq_recv_max else seq

  module _ (decode : List ℕ → Option ScenarioDoneStats) where
    -- The loop, with the server records and the last final tick so far.
    unfoldable pub check_participants :
        DoneConfig Real → ℕ → Option ℕ → List Participant → Found DoneSaid
    unfolding stats_found progress_of
    check_participants cfg servers seq [] = record {
      invalid =
          note (str_eq cfg.kind authoritative_state && not (servers == 1))
            (of_run (server_records servers)) [];
      failed = [];
    }
    check_participants cfg servers seq (p ∷ participants) =
        let stats = read_stats decode p in
        both (said_of p (stats_found cfg seq p stats)) (
          check_participants cfg
            (servers + (if is_some (progress_of cfg "server" p stats) then 1 else 0))
            (next_seq cfg seq (progress_of cfg "client" p stats)) participants)

    abbrev pub validate_scenario_done_stats : DoneConfig Real → List Participant → Found DoneSaid
    validate_scenario_done_stats cfg participants = check_participants cfg 0 none participants
