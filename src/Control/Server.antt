-- ===== src/Control/Server.antt =====
-- orchestrator/control/server.go: `Server`, `sendJSON`, `publishMeasurementWindow` and
-- `advanceStageIfReady`. The environment answers each reading of CLOCK_MONOTONIC and each write
-- to a connection, in the order in which the server makes them. `timer` is the duration that the
-- stage timer was last reset to.
pub mod Sends
use rudp_bench.Common.{
  ℕ, suc, ◌+◌, Bool, true, false, ◌&&◌, ◌||◌, List, [], ◌∷◌, ◌++◌, Option, none, some, ℤ, pos, ltb,
  leb, ◌==◌, ltb_ℤ, leb_ℤ, ◌+i64◌, ◌-i64◌, if◌then◌else◌, Float64,
}
use rudp_bench.Control.Messages.{ScheduleMessage, WindowMessage, Participant}
use rudp_bench.Control.Config.{
  Config, Stage, hello, ready, ack, window, window_ack, done, ended, steady_guard,
}
use rudp_bench.Control.State.{RunState, ApplyError}
use rudp_bench.Control.Steady.{Check, panic, fails, passes, steady_detected}
use rudp_bench.Control.Report.{
  hello_count, ready_count, ack_count, done_count, window_ack_count, sorted_participants,
}

pub record Env : Type 0 where
  pub now_ns : ℕ → Option ℤ
  pub write_ok : ℕ → Bool

pub data Outgoing : Type 0 where
  schedule_sent : ScheduleMessage → Outgoing
  window_sent : WindowMessage → Outgoing

pub record Server : Type 0 where
  pub state : RunState
  pub next_id : ℕ
  pub conns : List ℕ
  pub server_ready : Bool
  pub published : Option ScheduleMessage
  pub timer : ℤ
  -- What was written to which connection, in order.
  pub outbox : List (ℕ × Outgoing)
  pub clock_reads : ℕ
  pub writes : ℕ

pub data RunError : Type 0 where
  clock_failed : RunError
  connection_gone write_failed : ℕ → RunError
  unknown_stage : RunError
  index_out_of_range : RunError
  apply_failed : ApplyError → RunError
  timeout : Stage → ℤ → RunError
  context_cancelled : RunError
  event_failed : RunError

pub data Advanced : Type 0 where
  to : Server → Stage → Advanced
  failed : Server → RunError → Advanced

abbrev pub reset_timer : ℤ → Server → Server
reset_timer d s = record s { timer = d }

abbrev pub set_state : RunState → Server → Server
set_state st s = record s { state = st }

-- `sync.Once`: the first schedule that is published stays.
unfoldable pub publish : ScheduleMessage → Server → Server
publish w s = elim s.published [ none ↦ record s { published = some w } | some old ↦ s ]

-- A steady warmup publishes later.
unfoldable pub publish_unless : Bool → ScheduleMessage → Server → Server
unfolding publish
publish_unless steady w s = if steady then s else publish w s

-- `addConn`.
unfoldable pub add_conn : Server → Server
add_conn s = record s { next_id = suc s.next_id; conns = s.next_id ∷ s.conns }

abbrev pub contains : ℕ → List ℕ → Bool
contains c [] = false
contains c (x ∷ xs) = x == c || contains c xs

pub data Sent : Type 0 where
  delivered : Server → Sent
  refused : Server → RunError → Sent

-- `sendJSON`.
unfoldable pub send_json : Env → ℕ → Outgoing → Server → Sent
send_json env c m s =
    if contains c s.conns
    then (if env.write_ok s.writes
        then delivered (record s { outbox = s.outbox ++ (c, m) ∷ []; writes = suc s.writes })
        else refused (record s { writes = suc s.writes }) (write_failed c))
    else refused s (connection_gone c)

-- `for _, p := range … { if err := send(p.ConnID, …); err != nil { return … } }`.
unfoldable pub send_all : Env → Outgoing → List Participant → Server → Sent
send_all env m [] s = delivered s
send_all env m (p ∷ ps) s = elim (send_json env p.conn_id m s) [
  | refused s' e ↦ refused s' e
  | delivered s' ↦ send_all env m ps s'
]

-- The reading of the clock, counted.
abbrev pub count_read : Server → Server
count_read s = record s { clock_reads = suc s.clock_reads }

-- `nowNS, err := monotonic.NowNS(); if err != nil { return … }`.
unfoldable pub with_clock : Env → Server → (ℤ → Advanced) → Advanced
with_clock env s k = elim (env.now_ns s.clock_reads) [
  | none ↦ failed (count_read s) clock_failed
  | some now ↦ k now
]

module _ (f : Float64) where
  abbrev Real : Type 0
  Real = f.Real

  abbrev pub is_expected : Config Real → ℕ → Bool
  is_expected cfg n = leb_ℤ cfg.expected (pos n)

  unfoldable pub advance_hello : Config Real → Server → Advanced
  advance_hello cfg s =
      if is_expected cfg (hello_count s.state)
      then to (reset_timer cfg.ready_timeout s) ready
      else to s hello

  -- The schedule that is issued at `now`.
  abbrev pub schedule_at : Config Real → ℤ → ScheduleMessage
  schedule_at cfg now = record {
    message_type = "schedule";
    start_at_ns = now +i64 cfg.warmup;
    stop_at_ns = now +i64 cfg.warmup +i64 cfg.duration;
    drain_until_ns = now +i64 cfg.warmup +i64 cfg.duration +i64 cfg.drain;
  }

  abbrev pub mark_schedule_sent : RunState → RunState
  mark_schedule_sent st = record st { schedule_sent = true }

  -- After the schedule has gone out to everybody.
  abbrev pub schedule_done : Config Real → Sent → Advanced
  schedule_done cfg (refused s e) = failed s e
  schedule_done cfg (delivered s) =
      to
        (reset_timer cfg.ack_timeout (
          publish_unless cfg.steady_warmup s.state.schedule
            (set_state (mark_schedule_sent s.state) s)))
        ack

  unfoldable pub issue_schedule : Config Real → Env → Server → ℤ → Advanced
  unfolding send_all publish_unless
  issue_schedule cfg env s now =
      let st = record s.state { schedule_issued_ns = now; schedule = schedule_at cfg now } in
      schedule_done cfg (
        send_all env (schedule_sent (schedule_at cfg now)) (sorted_participants st)
          (set_state st (count_read s)))

  unfoldable pub advance_ready : Config Real → Env → Server → Advanced
  unfolding issue_schedule with_clock
  advance_ready cfg env s =
      if is_expected cfg (ready_count s.state)
      then with_clock env s (issue_schedule cfg env s)
      else to s ready

  -- The time left for a window before the provisional start, at least 0.
  abbrev pub cutoff : Config Real → Server → ℤ → ℤ
  cutoff cfg s now =
      let left = s.state.schedule.start_at_ns -i64 now -i64 steady_guard cfg in
      if ltb_ℤ left (pos 0) then pos 0 else left

  abbrev pub to_window : Config Real → Server → ℤ → Advanced
  to_window cfg s now = to (reset_timer (cutoff cfg s now) (count_read s)) window

  unfoldable pub advance_ack : Config Real → Env → Server → Advanced
  unfolding with_clock
  advance_ack cfg env s =
      if is_expected cfg (ack_count s.state)
      then (if cfg.steady_warmup
          then with_clock env s (to_window cfg s)
          else to (reset_timer cfg.done_timeout s) done)
      else to s ack

  abbrev pub window_at : Config Real → ℤ → WindowMessage
  window_at cfg start = record {
    start_at_ns = start;
    stop_at_ns = start +i64 cfg.duration;
    drain_until_ns = start +i64 cfg.duration +i64 cfg.drain;
  }

  -- The window becomes the effective schedule.
  abbrev pub adopt_window : WindowMessage → RunState → RunState
  adopt_window w st = record st {
    schedule = record st.schedule {
      start_at_ns = w.start_at_ns;
      stop_at_ns = w.stop_at_ns;
      drain_until_ns = w.drain_until_ns;
    };
    window_sent = true;
    steady_reached = true;
  }

  abbrev pub window_done : Config Real → WindowMessage → Sent → Advanced
  window_done cfg w (refused s e) = failed s e
  window_done cfg w (delivered s) =
      let st = adopt_window w s.state in
      to (reset_timer cfg.ack_timeout (publish st.schedule (set_state st s))) window_ack

  abbrev pub clear_steady : RunState → RunState
  clear_steady st = record st { steady_reached = false }

  -- The provisional schedule stands: at the cap of the warmup, or too close to it.
  unfoldable pub commit_provisional : Config Real → Server → Server
  unfolding publish
  commit_provisional cfg s =
      reset_timer cfg.done_timeout (publish s.state.schedule (set_state (clear_steady s.state) s))

  -- Once the run is steady at time `now`.
  unfoldable pub open_window : Config Real → Env → Server → ℤ → Advanced
  unfolding send_all publish commit_provisional
  open_window cfg env s now =
      if ltb_ℤ (pos 0) cfg.steady_min_warmup
        && ltb_ℤ now (s.state.schedule_issued_ns +i64 cfg.steady_min_warmup)
      then to s window
      else if leb_ℤ s.state.schedule.start_at_ns (now +i64 steady_guard cfg)
      then to (commit_provisional cfg s) done
      else window_done cfg (window_at cfg (now +i64 steady_guard cfg)) (
          send_all env (window_sent (window_at cfg (now +i64 steady_guard cfg)))
            (sorted_participants s.state) s)

  abbrev pub window_if : Config Real → Env → Server → Check → Advanced
  window_if cfg env s panic = failed s index_out_of_range
  window_if cfg env s fails = to s window
  window_if cfg env s passes = with_clock env s (open_window cfg env (count_read s))

  unfoldable pub advance_window : Config Real → Env → Server → Advanced
  unfolding open_window with_clock
  advance_window cfg env s = window_if cfg env s (steady_detected f cfg s.state)

  unfoldable pub advance_window_ack : Config Real → Server → Advanced
  advance_window_ack cfg s =
      if is_expected cfg (window_ack_count s.state)
      then to (reset_timer cfg.done_timeout s) done
      else to s window_ack

  unfoldable pub advance_done : Config Real → Server → Advanced
  advance_done cfg s = if is_expected cfg (done_count s.state) then to s ended else to s done

  -- `advanceStageIfReady`.
  unfoldable pub advance : Config Real → Env → Server → Stage → Advanced
  unfolding advance_hello advance_ready advance_ack advance_window advance_window_ack advance_done
  advance cfg env s hello = advance_hello cfg s
  advance cfg env s ready = advance_ready cfg env s
  advance cfg env s ack = advance_ack cfg env s
  advance cfg env s window = advance_window cfg env s
  advance cfg env s window_ack = advance_window_ack cfg s
  advance cfg env s done = advance_done cfg s
  advance cfg env s ended = failed s unknown_stage
