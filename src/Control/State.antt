-- ===== src/Control/State.antt =====
-- orchestrator/control/server.go: `runState`, `newRunState` and `apply`. A Go map is an
-- association list, and the entry behind a pointer is written back under its key. `apply` returns
-- before its first write wherever it fails, so an error leaves the caller the old state.
pub mod Accept
pub mod Unique
pub mod Protocol
pub mod Frame
pub mod Invariant
use rudp_bench.Common.{
  ℕ, suc, ◌+◌, ◌-◌, String, Bool, true, false, ◌&&◌, not, List, [], ◌∷◌, ◌++◌, Option, none, some,
  ℤ, pos, ltb_ℤ, leb_ℤ, ltb, leb, str_eq, if◌then◌else◌, length, drop, lookup, insert,
}
use rudp_bench.Control.Messages.{
  HelloMessage, ReadyMessage, ScheduleMessage, SchedAckMessage, RateMessage, WindowAckMessage,
  DoneMessage, Participant, InvalidReason, negative_schedule_margin, negative_window_margin,
}
use rudp_bench.Control.ProcKey.{proc_key, lookup_key}

-- The rate history of one client process: the increments between its last reports.
pub record RateTrack : Type 0 where
  pub last : RateMessage
  pub has_last : Bool
  pub d_sent : List ℕ
  pub d_recv : List ℕ

pub record RunState : Type 0 where
  pub expected : ℤ
  pub participants : List (ℕ × Participant)
  pub proc_index : List (List ℕ × ℕ)
  pub invalid : List InvalidReason
  pub schedule : ScheduleMessage
  pub schedule_sent : Bool
  pub schedule_issued_ns : ℤ
  pub window_sent : Bool
  pub steady_enabled : Bool
  pub steady_reached : Bool
  pub rates : List (ℕ × RateTrack)
  pub window_acked : List (ℕ × Bool)

-- A decoded message; `other` stands for the event kinds that no message has.
pub data Payload : Type 0 where
  hello_event : HelloMessage → Payload
  ready_event : ReadyMessage → Payload
  ack_event : SchedAckMessage → Payload
  rate_event : RateMessage → Payload
  window_ack_event : WindowAckMessage → Payload
  done_event : DoneMessage → Payload
  other : ℕ → Payload

pub record Event : Type 0 where
  pub conn_id : ℕ
  pub payload : Payload

pub data ApplyError : Type 0 where
  duplicate_hello : ℕ → ApplyError
  too_many_hellos : ℤ → ApplyError
  duplicate_proc_index : String → ℤ → ℕ → ℕ → ApplyError
  ready_before_hello duplicate_ready : ℕ → ApplyError
  ack_before_hello ack_before_ready ack_before_schedule duplicate_ack : ℕ → ApplyError
  rate_before_hello : ℕ → ApplyError
  rate_from_non_client : String → ℕ → ApplyError
  window_ack_before_hello duplicate_window_ack : ℕ → ApplyError
  done_before_hello done_before_ack duplicate_done : ℕ → ApplyError
  unknown_event_kind : ℕ → ApplyError

pub data Applied : Type 0 where
  ok : RunState → Applied
  err : ApplyError → Applied

-- The zero values of Go's structs.
abbrev pub no_schedule : ScheduleMessage
no_schedule = record {
  message_type = "";
  start_at_ns = pos 0;
  stop_at_ns = pos 0;
  drain_until_ns = pos 0;
}

abbrev pub new_participant : ℕ → HelloMessage → Participant
new_participant c m = record {
  conn_id = c;
  hello = m;
  ready = record { conns = pos 0 };
  ready_received = false;
  sched_ack = record { margin_ns = pos 0 };
  ack_received = false;
  done = record { stats = [] };
  done_received = false;
  rate_reports = 0;
  rate_d_sent = [];
  rate_d_recv = [];
}

abbrev pub no_rates : RateTrack
no_rates = record {
  last = record { sent = 0; received = 0 };
  has_last = false;
  d_sent = [];
  d_recv = [];
}

unfoldable pub new_run_state : ℤ → RunState
new_run_state expected = record {
  expected = expected;
  participants = [];
  proc_index = [];
  invalid = [];
  schedule = no_schedule;
  schedule_sent = false;
  schedule_issued_ns = pos 0;
  window_sent = false;
  steady_enabled = false;
  steady_reached = false;
  rates = [];
  window_acked = [];
}

-- `case eventHello`.
add_participant : RunState → ℕ → HelloMessage → List (List ℕ × ℕ) → Applied
add_participant s c m keys =
    ok
      (record s { participants = insert c (new_participant c m) s.participants; proc_index = keys })

unfoldable pub apply_hello : RunState → ℕ → HelloMessage → Applied
unfolding add_participant
apply_hello s c m = elim (lookup c s.participants) [
  | some p ↦ err (duplicate_hello c)
  | none ↦
      if leb_ℤ s.expected (pos (length s.participants))
      then err (too_many_hellos s.expected)
      else if ltb_ℤ m.proc_index (pos 0)
      then add_participant s c m s.proc_index
      else elim (lookup_key (proc_key m.role m.proc_index) s.proc_index) [
        | some other_conn ↦ err (duplicate_proc_index m.role m.proc_index other_conn c)
        | none ↦ add_participant s c m ((proc_key m.role m.proc_index, c) ∷ s.proc_index)
      ]
]

-- `case eventReady`.
unfoldable pub apply_ready : RunState → ℕ → ReadyMessage → Applied
apply_ready s c m = elim (lookup c s.participants) [
  | none ↦ err (ready_before_hello c)
  | some p ↦
      if p.ready_received
      then err (duplicate_ready c)
      else ok (record s {
        participants = insert c (record p { ready = m; ready_received = true }) s.participants;
      })
]

-- `case eventAck`.
unfoldable pub apply_ack : RunState → ℕ → SchedAckMessage → Applied
apply_ack s c m = elim (lookup c s.participants) [
  | none ↦ err (ack_before_hello c)
  | some p ↦
      if not p.ready_received
      then err (ack_before_ready c)
      else if not s.schedule_sent
      then err (ack_before_schedule c)
      else if p.ack_received
      then err (duplicate_ack c)
      else ok (record s {
        participants = insert c (record p { sched_ack = m; ack_received = true }) s.participants;
        invalid =
            if ltb_ℤ m.margin_ns (pos 0)
            then s.invalid
              ++ negative_schedule_margin p.hello.role p.hello.proc_index p.hello.pid m.margin_ns
                ∷ []
            else s.invalid;
      })
]

-- `t.dSent[len(t.dSent)-keep:]` past `keep` entries. The length of the first decides for both; the
-- second is cut by its own, where Go panics if it is shorter than `keep`.
abbrev pub keep : ℕ
keep = 32

abbrev pub trim : ℕ → List ℕ → List ℕ
trim n xs = if ltb keep n then drop (n - keep) xs else xs

-- A track after one more increment.
abbrev pub trimmed : RateMessage → List ℕ → List ℕ → RateTrack
trimmed m sent received = record {
  last = m;
  has_last = true;
  d_sent = trim (length sent) sent;
  d_recv = if ltb keep (length sent) then trim (length received) received else received;
}

-- A counter that went back counts as no progress.
unfoldable pub push_rate : RateTrack → RateMessage → RateTrack
push_rate t m =
    if t.has_last
    then trimmed m (t.d_sent ++ (m.sent - t.last.sent) ∷ [])
        (t.d_recv ++ (m.received - t.last.received) ∷ [])
    else record t { last = m; has_last = true }

abbrev pub track_of : Option RateTrack → RateTrack
track_of none = no_rates
track_of (some t) = t

-- `case eventRate`.
unfoldable pub apply_rate : RunState → ℕ → RateMessage → Applied
apply_rate s c m = elim (lookup c s.participants) [
  | none ↦ err (rate_before_hello c)
  | some p ↦
      if not (str_eq p.hello.role "client")
      then err (rate_from_non_client p.hello.role c)
      else ok (record s {
        rates = insert c (push_rate (track_of (lookup c s.rates)) m) s.rates;
        participants = insert c (record p { rate_reports = suc p.rate_reports }) s.participants;
      })
]

-- `case eventWindowAck`.
unfoldable pub apply_window_ack : RunState → ℕ → WindowAckMessage → Applied
apply_window_ack s c m = elim (lookup c s.participants) [
  | none ↦ err (window_ack_before_hello c)
  | some p ↦ elim (lookup c s.window_acked) [
    | some seen ↦ err (duplicate_window_ack c)
    | none ↦ ok (record s {
      window_acked = insert c true s.window_acked;
      invalid =
          if ltb_ℤ m.margin_ns (pos 0)
          then s.invalid
            ++ negative_window_margin p.hello.role p.hello.proc_index p.hello.pid m.margin_ns ∷ []
          else s.invalid;
    })
  ]
]

-- `case eventDone`.
unfoldable pub apply_done : RunState → ℕ → DoneMessage → Applied
apply_done s c m = elim (lookup c s.participants) [
  | none ↦ err (done_before_hello c)
  | some p ↦
      if not p.ack_received
      then err (done_before_ack c)
      else if p.done_received
      then err (duplicate_done c)
      else ok (record s {
        participants = insert c (record p { done = m; done_received = true }) s.participants;
      })
]

apply_payload : RunState → ℕ → Payload → Applied
apply_payload s c (hello_event m) = apply_hello s c m
apply_payload s c (ready_event m) = apply_ready s c m
apply_payload s c (ack_event m) = apply_ack s c m
apply_payload s c (rate_event m) = apply_rate s c m
apply_payload s c (window_ack_event m) = apply_window_ack s c m
apply_payload s c (done_event m) = apply_done s c m
apply_payload s c (other k) = err (unknown_event_kind k)

unfoldable pub apply : RunState → Event → Applied
unfolding apply_payload
apply s e = apply_payload s e.conn_id e.payload
