-- ===== src/Gate/DoneReport.antt =====
-- orchestrator/run/gate.go: what a participant reports when it is done, and the totals of the two
-- numbers that are only disclosed. `json.Unmarshal` of the report is a parameter; it gives nothing
-- where the report is no object.
use rudp_bench.Common.{
  ℕ, String, Option, none, some, List, [], ◌∷◌, ◌++◌, ◌==◌, ℤ, add_u64, if◌then◌else◌, length, map,
}
use rudp_bench.Control.Messages.{Participant, Result}
use rudp_bench.Gate.Pair.{NetemRegime}

pub record AuthoritativeProgress : Type 0 where
  pub role : String
  pub local_conns : ℕ
  pub roster_conns : ℕ
  pub input_last_sent_min : ℕ
  pub input_last_sent_max : ℕ
  pub state_header_seq_recv_min : ℕ
  pub state_header_seq_recv_max : ℕ
  pub state_applied_input_seq_recv_min : ℕ
  pub state_applied_input_seq_recv_max : ℕ
  pub server_state_ticks : ℕ

pub record ScenarioDoneStats : Type 0 where
  pub invalid_payload : Option ℕ
  pub peer_disconnects : Option ℕ
  pub send_refused : Option ℕ
  pub authoritative_progress : Option AuthoritativeProgress

pub data DoneReason : Type 0 where
  not_an_object payload_missing progress_missing inverted_range role_unknown : DoneReason
  role_differs : String → String → DoneReason
  server_records : ℕ → DoneReason
  corrupted : ℕ → DoneReason
  roster_differs ticks_outside : ℕ → DoneReason
  coverage : ℕ → ℤ → ℕ → DoneReason
  no_progress : String → DoneReason
  applied_exceeds not_caught_up ticks_differ another_differs : ℕ → ℕ → DoneReason

-- A reason about the participant with this role and process index, or about the run.
pub data DoneSaid : Type 0 where
  about : String → ℤ → DoneReason → DoneSaid
  of_run : DoneReason → DoneSaid

-- What makes the run invalid, and what is the failure of the measured server.
pub record Found (Reason : Type 0) : Type 0 where
  pub invalid : List Reason
  pub failed : List Reason

abbrev pub both : {Reason : Type 0} → Found Reason → Found Reason → Found Reason
both a b = record { invalid = a.invalid ++ b.invalid; failed = a.failed ++ b.failed }

abbrev pub nothing_found : Found DoneReason
nothing_found = record { invalid = []; failed = [] }

abbrev pub said_of : Participant → Found DoneReason → Found DoneSaid
said_of p x = record {
  invalid = map (about p.hello.role p.hello.proc_index) x.invalid;
  failed = map (about p.hello.role p.hello.proc_index) x.failed;
}

pub record DoneConfig (Real : Type 0) : Type 0 where
  pub kind : String
  pub server_rate_hz : Real
  pub duration : ℤ
  pub total_conns : ℤ
  pub netem : Option (NetemRegime Real)

module _ (decode : List ℕ → Option ScenarioDoneStats) where
  unfoldable pub read_stats : Participant → Option ScenarioDoneStats
  read_stats p = if length p.done.stats == 0 then none else decode p.done.stats

  abbrev pub or_zero : Option ℕ → ℕ
  or_zero none = 0
  or_zero (some n) = n

  abbrev pub disclosed : (ScenarioDoneStats → Option ℕ) → Option ScenarioDoneStats → ℕ
  disclosed field none = 0
  disclosed field (some stats) = or_zero (field stats)

  unfoldable pub total_disclosed : (ScenarioDoneStats → Option ℕ) → ℕ → List Participant → ℕ
  unfolding read_stats
  total_disclosed field total [] = total
  total_disclosed field total (p ∷ participants) =
      total_disclosed field (add_u64 total (disclosed field (read_stats p))) participants

  unfoldable pub total_peer_disconnects : Option Result → ℕ
  unfolding total_disclosed
  total_peer_disconnects none = 0
  total_peer_disconnects (some r) = total_disclosed (λ s. s.peer_disconnects) 0 r.participants

  unfoldable pub total_send_refused : Option Result → ℕ
  unfolding total_disclosed
  total_send_refused none = 0
  total_send_refused (some r) = total_disclosed (λ s. s.send_refused) 0 r.participants
