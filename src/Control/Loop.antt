-- ===== src/Control/Loop.antt =====
-- orchestrator/control/server.go: the event loop `Server.Run`, with its inner loop over
-- `advanceStageIfReady`. What `select` receives is a list of inputs, in the order received; a new
-- connection (`acceptLoop`) is one of them. Each inner loop runs on fuel; `Control.Stages` shows
-- that the fuel given is enough.
pub mod Reach
pub mod Unique
pub mod Finished
pub mod Terminates
use rudp_bench.Common.{
  ℕ, zero, suc, Bool, true, false, List, [], ◌∷◌, Option, none, some, ℤ, pos, str_eq, if◌then◌else◌,
  lookup, Float64,
}
use rudp_bench.Control.Messages.{Participant, Result}
use rudp_bench.Control.Config.{
  Config, Stage, hello, ready, ack, window, window_ack, done, ended, timeout_for_stage,
}
use rudp_bench.Control.State.{
  RunState, Event, Payload, hello_event, ready_event, ack_event, rate_event, window_ack_event,
  done_event, other, ok, err, new_run_state, apply,
}
use rudp_bench.Control.Report.{result}
use rudp_bench.Control.Server.{
  Env, Server, RunError, Advanced, to, failed, apply_failed, timeout, context_cancelled,
  event_failed, set_state, commit_provisional, add_conn, advance,
}

pub data Input : Type 0 where
  cancelled : Input
  timer_expired : Input
  accepted : Input
  -- The listener or a connection's reader failed.
  fault : Input
  received : Event → Input

-- `exhausted` marks an inner loop that used up its fuel.
pub data Outcome : Type 0 where
  waiting : Server → Stage → Outcome
  finished : Server → Outcome
  stopped : Server → RunError → Outcome
  exhausted : Outcome

abbrev pub is_ended : Stage → Bool
is_ended ended = true
is_ended _ = false

abbrev pub same_stage : Stage → Stage → Bool
same_stage hello hello = true
same_stage ready ready = true
same_stage ack ack = true
same_stage window window = true
same_stage window_ack window_ack = true
same_stage done done = true
same_stage ended ended = true
same_stage _ _ = false

module _ (f : Float64) where
  -- `for { next, err := …; if next == stage { break }; stage = next; if stage == "" { return } }`.
  unfoldable pub advance_all : Config f.Real → Env → ℕ → Server → Stage → Outcome
  advance_all cfg env zero s stage = exhausted
  advance_all cfg env (suc n) s stage = elim (advance f cfg env s stage) [
    | failed s' e ↦ stopped s' e
    | to s' next ↦
        let rest = advance_all cfg env n s' next in
        if same_stage next stage
        then waiting s' stage
        else if is_ended next
        then finished s'
        else rest
  ]

  -- One round for each stage and one to find that nothing changes.
  abbrev pub advance_fuel : ℕ
  advance_fuel = 7

  abbrev pub is_server_ready : Option Participant → Payload → Bool
  is_server_ready (some p) (ready_event m) = str_eq p.hello.role "server"
  is_server_ready _ _ = false

  -- `serverReadyOnce`: a ready from the server process.
  unfoldable pub note_ready : Event → Server → Server
  note_ready e s =
      if is_server_ready (lookup e.conn_id s.state.participants) e.payload
      then record s { server_ready = true }
      else s

  unfoldable pub on_event : Config f.Real → Env → Server → Stage → Event → Outcome
  unfolding note_ready advance_all
  on_event cfg env s stage e = elim (apply s.state e) [
    | err x ↦ stopped s (apply_failed x)
    | ok st ↦ advance_all cfg env advance_fuel (note_ready e (set_state st s)) stage
  ]

  -- At the end of the window stage's timer the provisional schedule stands.
  abbrev is_window : Stage → Bool
  is_window window = true
  is_window _ = false

  unfoldable pub on_timer : Config f.Real → Server → Stage → Outcome
  on_timer cfg s stage =
      if is_window stage
      then waiting (commit_provisional f cfg s) done
      else stopped s (timeout stage (timeout_for_stage cfg stage))

  unfoldable pub on_input : Config f.Real → Env → Server → Stage → Input → Outcome
  unfolding on_event on_timer
  on_input cfg env s stage cancelled = stopped s context_cancelled
  on_input cfg env s stage timer_expired = on_timer cfg s stage
  on_input cfg env s stage accepted = waiting (add_conn s) stage
  on_input cfg env s stage fault = stopped s event_failed
  on_input cfg env s stage (received e) = on_event cfg env s stage e

  unfoldable pub run_from : Config f.Real → Env → Server → Stage → List Input → Outcome
  run_from cfg env s stage [] = waiting s stage
  run_from cfg env s stage (i ∷ is) = elim (on_input cfg env s stage i) [
    | waiting s' stage' ↦ run_from cfg env s' stage' is
    | finished s' ↦ finished s'
    | stopped s' e ↦ stopped s' e
    | exhausted ↦ exhausted
  ]

  unfoldable pub new_server : Config f.Real → Server
  new_server cfg = record {
    state = record (new_run_state cfg.expected) { steady_enabled = cfg.steady_warmup };
    next_id = 0;
    conns = [];
    server_ready = false;
    published = none;
    timer = cfg.hello_timeout;
    outbox = [];
    clock_reads = 0;
    writes = 0;
  }

  unfoldable pub run : Config f.Real → Env → List Input → Outcome
  unfolding run_from new_server
  run cfg env inputs = run_from cfg env (new_server cfg) hello inputs

-- What `Run` hands back beside the error: the result of the state at its end.
unfoldable pub outcome_result : Outcome → Option Result
unfolding result
outcome_result (waiting s stage) = none
outcome_result (finished s) = some (result s.state)
outcome_result (stopped s e) = some (result s.state)
outcome_result exhausted = none
