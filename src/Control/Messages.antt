-- ===== src/Control/Messages.antt =====
-- orchestrator/control/messages.go: the messages of the control protocol and what is kept of a
-- participant. The constant `type` tags are the constructors of the sums that hold the messages.
use rudp_bench.Common.{ℕ, String, Bool, List, ℤ}

pub record HelloMessage : Type 0 where
  pub role : String
  pub transport : String
  pub lib : String
  pub pid : ℤ
  pub proc_index : ℤ

pub record ReadyMessage : Type 0 where
  pub conns : ℤ

pub record ScheduleMessage : Type 0 where
  pub message_type : String
  pub start_at_ns : ℤ
  pub stop_at_ns : ℤ
  pub drain_until_ns : ℤ

pub record SchedAckMessage : Type 0 where
  pub margin_ns : ℤ

-- Cumulative counters of a client (uint64).
pub record RateMessage : Type 0 where
  pub sent : ℕ
  pub received : ℕ

pub record WindowMessage : Type 0 where
  pub start_at_ns : ℤ
  pub stop_at_ns : ℤ
  pub drain_until_ns : ℤ

pub record WindowAckMessage : Type 0 where
  pub margin_ns : ℤ

-- `stats` is the raw JSON, as bytes.
pub record DoneMessage : Type 0 where
  pub stats : List ℕ

pub record Participant : Type 0 where
  pub conn_id : ℕ
  pub hello : HelloMessage
  pub ready : ReadyMessage
  pub ready_received : Bool
  pub sched_ack : SchedAckMessage
  pub ack_received : Bool
  pub done : DoneMessage
  pub done_received : Bool
  pub rate_reports : ℕ
  pub rate_d_sent : List ℕ
  pub rate_d_recv : List ℕ

-- Why a run is invalid, with the values that the message shows.
pub data InvalidReason : Type 0 where
  negative_schedule_margin : String → ℤ → ℤ → ℤ → InvalidReason
  negative_window_margin : String → ℤ → ℤ → ℤ → InvalidReason

pub record Result : Type 0 where
  pub valid : Bool
  pub invalid_reasons : List InvalidReason
  pub schedule : ScheduleMessage
  pub participants : List Participant
  pub stats : List (List ℕ)
  pub steady_enabled : Bool
  pub steady_reached : Bool
  pub warmup_actual_ns : ℤ
