-- ===== src/Control/Tests.antt =====
-- A run of two processes, from hello to done, and the theorems of the control server on it.
use rudp_bench.Common.{
  ℕ, ◌≡◌, refl, true, false, List, [], ◌∷◌, Option, none, some, ℤ, pos, Float64, lookup, arith, ltb,
  leb, insert, ◌+◌, ◌-◌, ◌*◌, ◌/◌, ◌++◌, pos_part, ◌+ℤ◌, ◌-ℤ◌, ◌+i64◌, ◌-i64◌, wrap_i64, String,
}
use rudp_bench.Control.Messages.{HelloMessage, Participant}
use rudp_bench.Control.Config.{Config, done, steady_guard, steady_buckets}
use rudp_bench.Control.State.{
  Payload, hello_event, ready_event, ack_event, done_event, new_run_state, new_participant, apply,
  apply_hello, apply_ready, apply_ack, apply_rate, apply_window_ack, apply_done, push_rate,
}
use rudp_bench.Control.Server.{Env, Server, add_conn, advance, send_json}
use rudp_bench.Control.ProcKey.{lookup_key, codes_eq, proc_key}
use rudp_bench.Control.Report.{sorted_participants, comes_before}
use rudp_bench.Control.Steady.{
  steady_detected, check_clients, check_track, sum_tail, windows_steady,
}
use rudp_bench.Control.Loop.{
  Input, accepted, received, timer_expired, Outcome, waiting, finished, stopped, exhausted, run,
  on_input, new_server,
}
use rudp_bench.Control.Loop.Finished.{
  FinishedWell, Completed, run-FinishedWell, run-Completed, run_published,
}
use rudp_bench.Control.Loop.Terminates.{Later, on_input-Later}
use rudp_bench.Control.Stages.{Fits}

-- A float64 with the operations of the numbers below 2^53.
abbrev pub numbers : Float64
numbers = record {
  Real = ℕ;
  of_nat = λ n. n;
  of_int = λ z. pos_part z;
  decimal = λ n d. n / d;
  fadd = λ a b. a + b;
  fsub = λ a b. a - b;
  fmul = λ a b. a * b;
  fdiv = λ a b. a / b;
  flt = ltb;
  fle = leb;
  ceil_u64 = λ n. n;
  trunc_u64 = λ n. n;
}

abbrev pub config : Config ℕ
config = record {
  socket_path = "s";
  expected = pos 2;
  warmup = pos 1000;
  duration = pos 5000;
  drain = pos 300;
  steady_warmup = false;
  steady_buckets = pos 0;
  steady_tol_pct = 0;
  steady_guard = pos 0;
  steady_min_warmup = pos 0;
  steady_expected_sent_per_conn = 0;
  steady_expected_recv_per_conn = 0;
  hello_timeout = pos 30;
  ready_timeout = pos 30;
  ack_timeout = pos 30;
  done_timeout = pos 30;
}

-- The clock stands still, and every write succeeds.
abbrev pub env : Env
env = record { now_ns = λ k. some (pos 100); write_ok = λ k. true }

abbrev pub greeting : String → HelloMessage
greeting role = record {
  role = role;
  transport = "udp";
  lib = "x";
  pid = pos 7;
  proc_index = pos 0;
}

abbrev pub from_conn : ℕ → Payload → Input
from_conn c x = received (record { conn_id = c; payload = x })

abbrev pub handshake : List Input
handshake =
    accepted
    ∷ accepted
    ∷ from_conn 0 (hello_event (greeting "server"))
    ∷ from_conn 1 (hello_event (greeting "client"))
    ∷ from_conn 0 (ready_event (record { conns = pos 0 }))
    ∷ from_conn 1 (ready_event (record { conns = pos 4 }))
    ∷ from_conn 1 (ack_event (record { margin_ns = pos 9 }))
    ∷ from_conn 0 (ack_event (record { margin_ns = pos 9 }))
    ∷ []

abbrev pub farewell : List Input
farewell =
    from_conn 0 (done_event (record { stats = [] }))
    ∷ from_conn 1 (done_event (record { stats = [] }))
    ∷ []

-- The definitions that a run computes through, for an `unfolding` line.
unfoldable pub run_computes : Unit {0}
unfolding run on_input add_conn apply apply_hello apply_ready apply_ack apply_rate apply_window_ack
    apply_done lookup insert new_run_state lookup_key codes_eq proc_key advance sorted_participants
    comes_before send_json push_rate steady_detected steady_guard ◌+ℤ◌ ◌-ℤ◌ ◌+i64◌ ◌-i64◌ wrap_i64
    check_clients check_track steady_buckets sum_tail windows_steady
run_computes = tt

some_pos : (a b : ℤ) → some a ≡ some b → a ≡ b
some_pos a b h = cc

pub config-Fits : Fits config env
config-Fits = record {
  expected_nonneg = omega arith;
  warmup_nonneg = omega arith;
  duration_nonneg = omega arith;
  drain_nonneg = omega arith;
  clock = λ k now h.
      rw (← some_pos (pos 100) now h)
        (unfold ◌+ℤ◌ steady_guard in (omega arith, omega arith, omega arith));
}

abbrev pub server_of : Outcome → Server
server_of (waiting s stage) = s
server_of (finished s) = s
server_of (stopped s e) = s
server_of exhausted = new_server numbers config

unfoldable pub final : Server
final = server_of (run numbers config env (handshake ++ farewell))

pub run_finishes : run numbers config env (handshake ++ farewell) ≡ finished final
unfolding run_computes final
run_finishes = refl

run-FinishedWell_example : FinishedWell config final
run-FinishedWell_example =
    run-FinishedWell numbers config env config-Fits (handshake ++ farewell) run_finishes

unfoldable pub client_of : Option Participant → Participant
client_of none = new_participant 1 (greeting "client")
client_of (some p) = p

unfoldable pub last_client : Participant
unfolding client_of
last_client = client_of (lookup 1 final.state.participants)

pub last_client_found : lookup 1 final.state.participants ≡ some last_client
unfolding run_computes final last_client client_of
last_client_found = refl

run-Completed_example : Completed last_client
run-Completed_example =
    run-Completed numbers config env config-Fits (handshake ++ farewell) 1 run_finishes
      last_client_found

unfoldable pub acknowledged : Server
acknowledged = server_of (run numbers config env handshake)

pub run-acknowledged : run numbers config env handshake ≡ waiting acknowledged done
unfolding run_computes acknowledged
run-acknowledged = refl

run_published_example : acknowledged.published ≡ some acknowledged.state.schedule
run_published_example = run_published numbers config env config-Fits handshake run-acknowledged

on_input-Later_example :
    Later numbers config env done (on_input numbers config env acknowledged done timer_expired)
on_input-Later_example = on_input-Later numbers config env acknowledged done timer_expired
