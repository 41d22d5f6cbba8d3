-- ===== src/Control/Loop/Terminates.antt =====
-- The inner loop over `advanceStageIfReady` ends: every round either stays at its stage, which
-- ends the loop, or leads to a later one.
use rudp_bench.Common.{
  ℕ, zero, suc, ◌+◌, ◌≤◌, ◌<◌, ◌≡◌, refl, subst, Bool, true, false, List, [], ◌∷◌, ℤ, pos, ◌⊎◌, inl,
  inr, ◌≢◌, if◌then◌else◌, arith, Option-cases, Bool-cases, Float64, ltb_ℤ, leb_ℤ, ◌&&◌, ◌+i64◌,
}
use rudp_bench.Control.Config.{
  Config, Stage, hello, ready, ack, window, window_ack, done, ended, steady_guard,
}
use rudp_bench.Control.State.{Applied, Event, ok, err, apply}
use rudp_bench.Control.Steady.{Check, panic, fails, passes, steady_detected}
use rudp_bench.Control.Report.{hello_count, ready_count, ack_count, done_count, window_ack_count}
use rudp_bench.Control.Server.{
  Env, Server, Advanced, to, failed, Sent, delivered, refused, issue_schedule, open_window, advance,
  schedule_done, window_done, window_if, reset_timer, set_state, count_read, with_clock, to_window,
  is_expected,
}
use rudp_bench.Control.Stages.{AllTo}
use rudp_bench.Control.Loop.{
  Input, cancelled, timer_expired, accepted, fault, received, Outcome, waiting, finished, stopped,
  exhausted, is_ended, same_stage, advance_all, note_ready, on_event, on_timer, on_input, run_from,
  new_server, run,
}

-- The order of the stages.
abbrev pub rank : Stage → ℕ
rank hello = 0
rank ready = 1
rank ack = 2
rank window = 3
rank window_ack = 4
rank done = 5
rank ended = 6

-- A stage stays or a later one follows.
abbrev pub Forward : Stage → Server → Stage → Type 0
Forward from s next = (next ≡ from) ⊎ (rank from < rank next)

module _ (f : Float64) (cfg : Config f.Real) (env : Env) where
  schedule_done-Forward : (r : Sent) → AllTo (Forward ready) (schedule_done f cfg r)
  schedule_done-Forward (delivered s) = inr (omega arith)
  schedule_done-Forward (refused s e) = tt

  window_done-Forward : (w : _) (r : Sent) → AllTo (Forward window) (window_done f cfg w r)
  window_done-Forward w (delivered s) = inr (omega arith)
  window_done-Forward w (refused s e) = tt

  AllTo-if :
      (from : Stage) (b : Bool) (x y : Advanced)
      → AllTo (Forward from) x
      → AllTo (Forward from) y
      → AllTo (Forward from) (if b then x else y)
  AllTo-if from true x y g h = g
  AllTo-if from false x y g h = h

  with_clock-Forward :
      (from : Stage) (s : Server) (k : ℤ → Advanced)
      → ((now : ℤ) → AllTo (Forward from) (k now))
      → AllTo (Forward from) (with_clock env s k)
  unfolding with_clock
  with_clock-Forward from s k h = elim (Option-cases (env.now_ns s.clock_reads)) [
    | inl e ↦ rw (e, with_clock) tt
    | inr (now, e) ↦ rw (e, with_clock) (h now)
  ]

  open_window-Forward :
      (s : Server) (now : ℤ) → AllTo (Forward window) (open_window f cfg env s now)
  unfolding open_window
  open_window-Forward s now =
      elim (Bool-cases (
        ltb_ℤ (pos 0) cfg.steady_min_warmup
        && ltb_ℤ now (s.state.schedule_issued_ns +i64 cfg.steady_min_warmup))) [
          | inl e ↦ rw e (inl refl)
          | inr e ↦
              elim (Bool-cases (leb_ℤ s.state.schedule.start_at_ns (now +i64 steady_guard cfg))) [
                | inl late ↦ rw (e, late) (inr (omega arith))
                | inr early ↦ rw (e, early) (window_done-Forward _ _)
              ]
        ]

  window_if-Forward : (s : Server) (c : Check) → AllTo (Forward window) (window_if f cfg env s c)
  window_if-Forward s panic = tt
  window_if-Forward s fails = inl refl
  window_if-Forward s passes =
      with_clock-Forward window s (open_window f cfg env (count_read s))
        (open_window-Forward (count_read s))

  -- An advance stays at its stage or leads to a later one, never back.
  pub advance-Forward :
      (s : Server) (stage : Stage) → AllTo (Forward stage) (advance f cfg env s stage)
  unfolding advance issue_schedule
  advance-Forward s hello =
      AllTo-if hello (is_expected f cfg (hello_count s.state))
        (to (reset_timer cfg.ready_timeout s) ready) (to s hello) (inr (omega arith)) (inl refl)
  advance-Forward s ready =
      AllTo-if ready (is_expected f cfg (ready_count s.state))
        (with_clock env s (issue_schedule f cfg env s)) (to s ready)
        (with_clock-Forward ready s (issue_schedule f cfg env s) (λ now. schedule_done-Forward _))
        (inl refl)
  advance-Forward s ack =
      AllTo-if ack (is_expected f cfg (ack_count s.state))
        (if cfg.steady_warmup
          then with_clock env s (to_window f cfg s)
          else to (reset_timer cfg.done_timeout s) done)
        (to s ack)
        (AllTo-if ack cfg.steady_warmup (with_clock env s (to_window f cfg s))
          (to (reset_timer cfg.done_timeout s) done)
          (with_clock-Forward ack s (to_window f cfg s) (λ now. inr (omega arith)))
          (inr (omega arith)))
        (inl refl)
  advance-Forward s window = window_if-Forward s (steady_detected f cfg s.state)
  advance-Forward s window_ack =
      AllTo-if window_ack (is_expected f cfg (window_ack_count s.state))
        (to (reset_timer cfg.done_timeout s) done) (to s window_ack) (inr (omega arith)) (inl refl)
  advance-Forward s done =
      AllTo-if done (is_expected f cfg (done_count s.state)) (to s ended) (to s done)
        (inr (omega arith)) (inl refl)
  advance-Forward s ended = tt

  same_stage_refl : (a : Stage) → same_stage a a ≡ true
  same_stage_refl a = ground arith

  -- The loop gave an outcome, and did not go back to an earlier stage.
  abbrev pub Later : Stage → Outcome → Type 0
  Later from (waiting s stage) = rank from ≤ rank stage
  Later from (finished s) = Unit
  Later from (stopped s e) = Unit
  Later from exhausted = ⊥

  Later-if :
      (from : Stage) (b : Bool) (x y : Outcome)
      → (b ≡ true → Later from x)
      → (b ≡ false → Later from y)
      → Later from (if b then x else y)
  Later-if from true x y g h = g refl
  Later-if from false x y g h = h refl

  Later-trans : (a b : Stage) (r : Outcome) → rank a ≤ rank b → Later b r → Later a r
  Later-trans a b (waiting s stage) h l = omega arith
  Later-trans a b (finished s) h l = tt
  Later-trans a b (stopped s e) h l = tt
  Later-trans a b exhausted h l = l

  rank-le : (stage : Stage) → rank stage ≤ 6
  rank-le stage = ground arith

  differs : (stage : Stage) → same_stage stage stage ≡ false → ⊥
  differs stage h = cc (same_stage_refl stage, h)

  -- With a round for each stage that is left, and one more, the loop gives an outcome.
  advance_all-Later :
      (n : ℕ) (s : Server) (stage : Stage)
      → 6 < n + rank stage
      → Later stage (advance_all f cfg env n s stage)
  unfolding advance_all
  advance_all-Later zero s stage h = absurd (omega (arith, rank-le stage))
  advance_all-Later (suc k) s stage h =
      step (advance f cfg env s stage) refl (advance-Forward s stage) (advance_all-Later k)
    where
      step :
          (r : Advanced)
          → advance f cfg env s stage ≡ r
          → AllTo (Forward stage) r
          → ((s' : Server) (st : Stage)
              → 6 < k + rank st
              → Later st (advance_all f cfg env k s' st))
          → Later stage (advance_all f cfg env (suc k) s stage)
      step (failed s' e) q w ih = rw (q, advance_all) tt
      step (to s' next) q w ih =
          rw (q, advance_all)
            (Later-if stage (same_stage next stage) (waiting s' stage)
              (if is_ended next then finished s' else advance_all f cfg env k s' next)
              (λ _. omega arith)
              (λ ne.
                Later-if stage (is_ended next) (finished s') (advance_all f cfg env k s' next)
                  (λ _. tt) (λ _. onward next ne w ih)))
        where
          onward :
              (st : Stage)
              → same_stage st stage ≡ false
              → Forward stage s' st
              → ((s' : Server) (st : Stage)
                  → 6 < k + rank st
                  → Later st (advance_all f cfg env k s' st))
              → Later stage (advance_all f cfg env k s' st)
          onward st ne (inl e) ih = absurd (differs stage (rw e at ne))
          onward st ne (inr lt) ih = Later-trans stage st _ (omega arith) (ih s' st (omega arith))

  on_event-Later :
      (s : Server) (stage : Stage) (e : Event) → Later stage (on_event f cfg env s stage e)
  unfolding on_event
  on_event-Later s stage e = step (apply s.state e) refl
    where
      step : (r : Applied) → apply s.state e ≡ r → Later stage (on_event f cfg env s stage e)
      step (err x) q = rw (q, on_event) tt
      step (ok st) q =
          rw (q, on_event)
            (advance_all-Later 7 (note_ready f e (set_state st s)) stage (omega arith))

  -- Every input has an outcome: the inner loop never runs out of its rounds, and no input takes
  -- the run back to an earlier stage.
  pub on_input-Later :
      (s : Server) (stage : Stage) (i : Input) → Later stage (on_input f cfg env s stage i)
  unfolding on_input on_timer
  on_input-Later s stage cancelled = tt
  on_input-Later s hello timer_expired = tt
  on_input-Later s ready timer_expired = tt
  on_input-Later s ack timer_expired = tt
  on_input-Later s window timer_expired = omega arith
  on_input-Later s window_ack timer_expired = tt
  on_input-Later s done timer_expired = tt
  on_input-Later s ended timer_expired = tt
  on_input-Later s stage accepted = omega arith
  on_input-Later s stage fault = tt
  on_input-Later s stage (received e) = on_event-Later s stage e

  run_from-Later :
      (s : Server) (stage : Stage) (is : List Input) → Later stage (run_from f cfg env s stage is)
  unfolding run_from
  run_from-Later s stage [] = omega arith
  run_from-Later s stage (i ∷ is) =
      step (on_input f cfg env s stage i) refl (on_input-Later s stage i)
        (λ s' st. run_from-Later s' st is)
    where
      step :
          (r : Outcome)
          → on_input f cfg env s stage i ≡ r
          → Later stage r
          → ((s' : Server) (st : Stage) → Later st (run_from f cfg env s' st is))
          → Later stage (run_from f cfg env s stage (i ∷ is))
      step (waiting s' st) q w ih = rw (q, run_from) (Later-trans stage st _ w (ih s' st))
      step (finished s') q w ih = rw (q, run_from) tt
      step (stopped s' e) q w ih = rw (q, run_from) tt
      step exhausted q w ih = absurd w

  -- Fuel is no part of the behaviour: no sequence of inputs exhausts the inner loop.
  pub run-ne-exhausted : (is : List Input) → run f cfg env is ≢ exhausted
  unfolding run
  run-ne-exhausted is h = subst (Later hello) h (run_from-Later (new_server f cfg) hello is)
