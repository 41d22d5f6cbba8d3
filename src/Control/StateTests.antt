-- ===== src/Control/StateTests.antt =====
-- The theorems about messages, the steady test and the result, on the run of `Tests`.
use rudp_bench.Common.{
  ℕ, zero, suc, ◌-◌, ◌*◌, ◌++◌, ◌&&◌, not, ◌≡◌, refl, subst, ◌≢◌, false, List, [], ◌∷◌, some, pos,
  lookup, arith, if◌then◌else◌, ◌==◌, ◌-ℤ◌, ◌*i64◌, ◌*ℤ◌, map,
}
use mathlib.Core.List.{Perm}
use rudp_bench.Control.Messages.{Participant, ReadyMessage, SchedAckMessage, DoneMessage}
use rudp_bench.Control.Config.{Config, done, steady_buckets}
use rudp_bench.Control.State.{
  RunState, RateTrack, Applied, Event, ok, err, done_event, ready_event, ack_event, rate_event,
  window_ack_event, apply,
}
use rudp_bench.Control.State.Invariant.{StateInv, apply-StateInv}
use rudp_bench.Control.State.Protocol.{
  PhaseStep, is_phase, greeted, readied, phase, acked, accepts, apply-PhaseStep, apply-accepts,
}
use rudp_bench.Control.State.Unique.{is_some, apply_window_ack-accepts}
use rudp_bench.Control.Steady.{panic, passes, steady_detected, client_count}
use rudp_bench.Control.Steady.Windows.{
  steady_detected-ne-panic, steady_detected_sound, steady_detected_many_buckets, SteadyTrack,
  bucket_count,
}
use rudp_bench.Control.Report.{result, sorted_participants}
use rudp_bench.Control.Report.Sorted.{
  InOrder, reported, is_late, sorted_participants_lem, result-apply,
}
use rudp_bench.Control.Server.{Server, Outgoing, Sent, delivered, refused, send_all, schedule_sent}
use rudp_bench.Control.Loop.{Input, waiting, run}
use rudp_bench.Control.Loop.Unique.{proc_index_unique}
use rudp_bench.Control.Loop.Reach.{Holds, run-Inv}
use rudp_bench.Control.Stages.{ServerInv}
use rudp_bench.Control.Tests.{
  numbers, config, env, config-Fits, handshake, acknowledged, run-acknowledged, run_computes,
  server_of, client_of, from_conn,
}

-- The state after the handshake, as messages lead to it.
st : RunState
st = acknowledged.state

st_ok : StateInv st
unfolding st
st_ok =
    (subst (Holds (ServerInv config)) run-acknowledged
      (run-Inv numbers config env config-Fits handshake)).0.state_ok

goodbye : Event
goodbye = record { conn_id = 1; payload = done_event (record { stats = 123 ∷ 125 ∷ [] }) }

state_of : Applied → RunState
state_of (ok s) = s
state_of (err e) = st

st' : RunState
unfolding state_of
st' = state_of (apply st goodbye)

goodbye_accepted : apply st goodbye ≡ ok st'
unfolding run_computes st st' goodbye acknowledged
goodbye_accepted = refl

apply-StateInv_example : StateInv st'
apply-StateInv_example = apply-StateInv st goodbye st_ok goodbye_accepted

apply-PhaseStep_example :
    PhaseStep goodbye.payload (phase st goodbye.conn_id) (phase st' goodbye.conn_id)
    × ((d : ℕ)
        → phase st' d ≡ (if goodbye.conn_id == d then phase st' goodbye.conn_id else phase st d))
apply-PhaseStep_example = apply-PhaseStep st goodbye st_ok goodbye_accepted

apply-accepts_example :
    let r : ReadyMessage = record { conns = pos 4 } in
    let a : SchedAckMessage = record { margin_ns = pos 9 } in
    let d : DoneMessage = record { stats = [] } in
    (accepts (apply st (record { conn_id = 1; payload = ready_event r }))
      ≡ is_phase (phase st 1) greeted)
    × (accepts (apply st (record { conn_id = 1; payload = ack_event a }))
        ≡ (is_phase (phase st 1) readied && st.schedule_sent))
    × (accepts (apply st (record { conn_id = 1; payload = done_event d }))
        ≡ is_phase (phase st 1) acked)
apply-accepts_example =
    apply-accepts st 1 (record { conns = pos 4 }) (record { margin_ns = pos 9 })
      (record { stats = [] }) st_ok

apply_window_ack-accepts_example :
    accepts (
      apply
        (record st { window_sent = false })
        (record { conn_id = 1; payload = window_ack_event (record { margin_ns = pos 9 }) }))
    ≡ (is_some (lookup 1 st.participants) && not (is_some (lookup 1 st.window_acked)))
apply_window_ack-accepts_example =
    apply_window_ack-accepts st 1 (record { margin_ns = pos 9 }) false

client : Participant
unfolding client_of
client = client_of (lookup 1 st.participants)

client_found : lookup 1 st.participants ≡ some client
unfolding run_computes st acknowledged client
client_found = refl

proc_index_unique_example : ◌≡◌ {A = ℕ} 1 1
unfolding run_computes st acknowledged client
proc_index_unique_example =
    proc_index_unique numbers config env config-Fits handshake acknowledged done 1 1 client client
      run-acknowledged client_found client_found refl refl refl

result-apply_example : (result st').valid ≡ ((result st).valid && not (is_late goodbye.payload))
result-apply_example = result-apply st goodbye goodbye_accepted

sorted_participants_lem_example :
    InOrder (sorted_participants st)
    × Perm (sorted_participants st) (map (reported st.rates) st.participants)
sorted_participants_lem_example = sorted_participants_lem st

-- Nine reports of a client, each with ten more sent and received than the one before.
abbrev reports : ℕ → List Input
reports zero = []
reports (suc n) =
    from_conn 1 (rate_event (record { sent = 90 - 10 * n; received = 90 - 10 * n })) ∷ reports n

settled : Server
settled = server_of (run numbers config env (handshake ++ reports 9))

run-settled : run numbers config env (handshake ++ reports 9) ≡ waiting settled done
unfolding run_computes settled
run-settled = refl

settled_ok : StateInv settled.state
settled_ok =
    (subst (Holds (ServerInv config)) run-settled
      (run-Inv numbers config env config-Fits (handshake ++ reports 9))).0.state_ok

steady_detected-ne-panic_example : steady_detected numbers config settled.state ≢ panic
steady_detected-ne-panic_example =
    steady_detected-ne-panic numbers config settled.state settled_ok
      (unfold steady_buckets in omega arith)

settled_client : Participant
unfolding client_of
settled_client = client_of (lookup 1 settled.state.participants)

settled_client_found : lookup 1 settled.state.participants ≡ some settled_client
unfolding run_computes settled settled_client
settled_client_found = refl

settled_steady : steady_detected numbers config settled.state ≡ passes
unfolding run_computes settled ◌*i64◌ ◌*ℤ◌
settled_steady = refl

steady_detected_sound_example :
    (pos (client_count settled.state.participants) ≡ config.expected -ℤ pos 1)
    × ((t : RateTrack) × (lookup 1 settled.state.rates ≡ some t)
        × SteadyTrack numbers config (bucket_count numbers config) settled_client t)
unfolding run_computes settled settled_client
steady_detected_sound_example =
    steady_detected_sound numbers config settled.state 1 settled_client settled_ok settled_steady
      settled_client_found refl

abbrev wide : Config ℕ
wide = record config { steady_buckets = pos 17 }

steady_detected_many_buckets_example : steady_detected numbers wide settled.state ≢ passes
unfolding steady_buckets
steady_detected_many_buckets_example =
    steady_detected_many_buckets numbers wide settled.state settled_ok (omega arith)

sent_server : Sent → Server
sent_server (delivered s) = s
sent_server (refused s e) = s

abbrev message : Outgoing
message = schedule_sent st.schedule

sent_all :
    send_all env message (client ∷ []) acknowledged
    ≡ delivered (sent_server (send_all env message (client ∷ []) acknowledged))
unfolding run_computes st acknowledged client sent_server send_all
sent_all = refl
