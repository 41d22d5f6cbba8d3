-- ===== src/Control/Loop/Finished.antt =====
-- What a run of the control server has done when it ends without an error, and what is published
-- while it goes on.
use rudp_bench.Common.{
  ℕ, count-le-length, ◌≡◌, sym, subst, true, List, Option, none, some, pos, ◌≤ℤ◌, arith, length,
  All, lookup, lookup-All, count-eq-length, Float64, eq_of_parts,
}
use rudp_bench.Control.Messages.{Participant, ScheduleMessage}
use rudp_bench.Control.Config.{Config, Stage, hello, ready, ack, window, window_ack, done, ended}
use rudp_bench.Control.State.{RunState}
use rudp_bench.Control.Report.{done_count}
use rudp_bench.Control.Server.{Env, Server}
use rudp_bench.Control.Stages.{Fits, Timed, ServerInv, if_steady}
use rudp_bench.Control.Loop.{Input, waiting, finished, run}
use rudp_bench.Control.Loop.Reach.{Holds, run-Inv}

-- A participant that has gone through the whole protocol.
pub record Completed (p : Participant) : Type 0 where
  pub was_ready : p.ready_received ≡ true
  pub was_acked : p.ack_received ≡ true
  pub was_done : p.done_received ≡ true

done-All :
    (s : RunState)
    → pos (length s.participants) ≤ℤ s.expected
    → s.expected ≤ℤ pos (done_count s)
    → All (λ e. e.1.done_received ≡ true) s.participants
done-All s cap full =
    count-eq-length (λ e. e.1.done_received) s.participants (omega (arith, cap, full))

pub record FinishedWell {Real : Type 0} (cfg : Config Real) (s : Server) : Type 0 where
  pub everybody : pos (length s.state.participants) ≡ cfg.expected
  pub all_done : All (λ e. e.1.done_received ≡ true) s.state.participants
  pub published : s.published ≡ some s.state.schedule
  pub timed : Timed cfg s.state

-- What the runner can read of the window in each stage.
abbrev pub published_in :
    {Real : Type 0} → Config Real → Stage → ScheduleMessage → Option ScheduleMessage
published_in cfg hello w = none
published_in cfg ready w = none
published_in cfg ack w = if_steady cfg.steady_warmup w
published_in cfg window w = none
published_in cfg window_ack w = some w
published_in cfg done w = some w
published_in cfg ended w = some w

module _ (f : Float64) (cfg : Config f.Real) (env : Env) (fits : Fits cfg env) where
  ended-FinishedWell : (s : Server) → ServerInv cfg s ended → FinishedWell cfg s
  ended-FinishedWell s v =
      let full = v.issued.3 in
      let e = v.same_expected in
      let cap : pos (length s.state.participants) ≤ℤ cfg.expected =
        subst (λ z. pos (length s.state.participants) ≤ℤ z) e v.state_ok.capped in
      record {
        everybody = eq_of_parts _ _ (
            omega
              (arith, cap, full, count-le-length (λ w. w.1.done_received) s.state.participants));
        all_done =
            done-All s.state v.state_ok.capped
              (subst (λ z. z ≤ℤ pos (done_count s.state)) (sym e) full);
        published = v.issued.1;
        timed = v.issued.2;
      }

  ended-Inv : (is : List Input) {s : Server} → run f cfg env is ≡ finished s → ServerInv cfg s ended
  ended-Inv is h = subst (Holds (ServerInv cfg)) h (run-Inv f cfg env fits is)

  -- If a run ends without an error, then exactly the expected number of participants took part and
  -- all of them reported done, the window published to the runner is the effective schedule, it
  -- lasts the configured duration with the configured drain after it, and it starts no later than
  -- the cap of the warmup. The durations are at least 0, and no reading of the clock is within the
  -- length of a run of the end of int64.
  pub run-FinishedWell :
      (is : List Input) {s : Server} → run f cfg env is ≡ finished s → FinishedWell cfg s
  run-FinishedWell is {s} h = ended-FinishedWell s (ended-Inv is h)

  -- In a run that ended without an error every participant became ready, acknowledged the schedule
  -- and reported done.
  pub run-Completed :
      (is : List Input) (c : ℕ) {s : Server} {p : Participant}
      → run f cfg env is ≡ finished s
      → lookup c s.state.participants ≡ some p
      → Completed p
  run-Completed is c {s} {p} h q =
      let v = ended-Inv is h in
      let g = v.state_ok.each c p q in
      let d =
        lookup-All (λ q. q.done_received ≡ true) c p s.state.participants
          (ended-FinishedWell s v).all_done q in
      record {
        was_ready = g.acked_ready (g.done_acked d);
        was_acked = g.done_acked d;
        was_done = d;
      }

  published_at :
      (s : Server) (stage : Stage)
      → ServerInv cfg s stage
      → s.published ≡ published_in cfg stage s.state.schedule
  published_at s hello v = v.issued.1
  published_at s ready v = v.issued.1
  published_at s ack v = v.issued.1
  published_at s window v = v.issued.1
  published_at s window_ack v = v.issued.1
  published_at s done v = v.issued.1
  published_at s ended v = v.issued.1

  -- While a run goes on, the runner can read the effective schedule exactly in the stages after the
  -- window is settled: from the acknowledgements on under a fixed warmup, and under a steady warmup
  -- from the window's acknowledgements on. Before, nothing is published.
  pub run_published :
      (is : List Input) {s : Server} {stage : Stage}
      → run f cfg env is ≡ waiting s stage
      → s.published ≡ published_in cfg stage s.state.schedule
  run_published is {s} {stage} h =
      published_at s stage (subst (Holds (ServerInv cfg)) h (run-Inv f cfg env fits is)).0
