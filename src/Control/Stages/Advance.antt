-- ===== src/Control/Stages/Advance.antt =====
-- `advanceStageIfReady` keeps the invariant of the stages, from every stage.
use rudp_bench.Common.{
  ℕ, ◌≡◌, refl, sym, ◌∙◌, ap, subst, Bool, true, false, some, ℤ, pos, ◌+ℤ◌, ◌≤ℤ◌, ltb_ℤ, leb_ℤ,
  int_laws, arith, ◌+i64◌, +i64_exact, inl, inr, if◌then◌else◌, ◌&&◌, Bool-cases, Option-cases,
  Float64, leb→le,
}
use rudp_bench.Control.Messages.{WindowMessage}
use rudp_bench.Control.Config.{
  Config, Stage, hello, ready, ack, window, window_ack, done, ended, steady_guard,
}
use rudp_bench.Control.State.{RunState}
use rudp_bench.Control.State.Invariant.{StateInv}
use rudp_bench.Control.Steady.{Check, panic, fails, passes, steady_detected}
use rudp_bench.Control.Report.{
  hello_count, ready_count, ack_count, done_count, window_ack_count, sorted_participants,
}
use rudp_bench.Control.Server.{
  Env, Server, Advanced, to, window_sent, Sent, delivered, refused, issue_schedule, open_window,
  advance, window_at, adopt_window, window_done, window_if, set_state, count_read, with_clock,
  to_window, reset_timer, is_expected,
}
use rudp_bench.Control.Server.Sends.{send_all-SameBut}
use rudp_bench.Control.Stages.{
  Fits, Timed, Timed-of, Issued, ServerInv, AllTo, StateInv-stages, publish-first, if_steady,
  issue_schedule-Inv, commit_provisional-Inv,
}

module _ (f : Float64) (cfg : Config f.Real) (env : Env) (fits : Fits cfg env) where
  -- A window that starts before the provisional schedule.
  window_at-Timed :
      (k : ℕ) (now : ℤ) (st : RunState)
      → env.now_ns k ≡ some now
      → leb_ℤ st.schedule.start_at_ns (now +i64 steady_guard cfg) ≡ false
      → Timed cfg st
      → Timed cfg (adopt_window f (window_at f cfg (now +i64 steady_guard cfg)) st)
  unfolding steady_guard
  window_at-Timed k now st h early v =
      let (n, a, b) = fits.clock k now h in
      let d = fits.duration_nonneg in
      let r = fits.drain_nonneg in
      let g : pos 0 ≤ℤ steady_guard cfg = ground arith in
      let start : now +i64 steady_guard cfg ≡ now +ℤ steady_guard cfg =
        +i64_exact _ _ (omega int_laws) in
      let stop : now +ℤ steady_guard cfg +i64 cfg.duration
          ≡ now +ℤ steady_guard cfg +ℤ cfg.duration =
        +i64_exact _ _ (omega int_laws) in
      record {
        stop_after = rw (start, stop);
        drain_after = rw (start, stop) (+i64_exact _ _ (omega int_laws));
        start_by = ground (arith, v.start_by);
      }

  window_done-Inv :
      (r : Sent) (s : Server) (w : WindowMessage)
      → ((t : Server) → r ≡ delivered t → (t.state ≡ s.state) × (t.published ≡ s.published))
      → ServerInv cfg s window
      → Timed cfg (adopt_window f w s.state)
      → AllTo (ServerInv cfg) (window_done f cfg w r)
  window_done-Inv (refused s e) o w same v d = tt
  window_done-Inv (delivered t) o w same v d =
      let (q, n) = same t refl in
      let st = adopt_window f w t.state in
      let v' = subst StateInv (sym q) v.state_ok in
      let d' = subst (λ z. Timed cfg (adopt_window f w z)) (sym q) d in
      let on : t.state.schedule_sent ≡ true = ap (λ z. z.schedule_sent) q ∙ v.issued.0 in
      rw (publish-first st.schedule (set_state st t) (n ∙ v.issued.1)) (record {
        state_ok =
            StateInv-stages t.state st.schedule t.state.schedule_sent t.state.schedule_issued_ns
              true true (λ e. e) v';
        same_expected = ap (λ z. z.expected) q ∙ v.same_expected;
        issued = (on, refl, Timed-of cfg st st refl refl d');
      })

  open_window-Inv :
      (s : Server) (k : ℕ) (now : ℤ)
      → env.now_ns k ≡ some now
      → ServerInv cfg s window
      → AllTo (ServerInv cfg) (open_window f cfg env s now)
  unfolding open_window
  open_window-Inv s k now h v =
      elim (Bool-cases (
        ltb_ℤ (pos 0) cfg.steady_min_warmup
        && ltb_ℤ now (s.state.schedule_issued_ns +i64 cfg.steady_min_warmup))) [
          | inl e ↦ rw e v
          | inr e ↦
              elim (Bool-cases (leb_ℤ s.state.schedule.start_at_ns (now +i64 steady_guard cfg))) [
                | inl late ↦ rw (e, late) (commit_provisional-Inv f cfg env fits s v)
                | inr early ↦
                    rw (e, early)
                      (window_done-Inv _ s (window_at f cfg (now +i64 steady_guard cfg))
                        (λ t q.
                          let same =
                            send_all-SameBut env
                              (window_sent (window_at f cfg (now +i64 steady_guard cfg)))
                              (sorted_participants s.state) s q in
                          (same.same_state, same.same_published))
                        v (window_at-Timed k now s.state h early v.issued.2))
              ]
        ]

  AllTo-if :
      (b : Bool) (x y : Advanced)
      → (b ≡ true → AllTo (ServerInv cfg) x)
      → (b ≡ false → AllTo (ServerInv cfg) y)
      → AllTo (ServerInv cfg) (if b then x else y)
  AllTo-if true x y g h = g refl
  AllTo-if false x y g h = h refl

  with_clock-Inv :
      (s : Server) (k : ℤ → Advanced)
      → ((now : ℤ) → env.now_ns s.clock_reads ≡ some now → AllTo (ServerInv cfg) (k now))
      → AllTo (ServerInv cfg) (with_clock env s k)
  unfolding with_clock
  with_clock-Inv s k h = elim (Option-cases (env.now_ns s.clock_reads)) [
    | inl e ↦ rw (e, with_clock) tt
    | inr (now, e) ↦ rw (e, with_clock) (h now e)
  ]

  to_window-Inv :
      (s : Server) (now : ℤ)
      → cfg.steady_warmup ≡ true
      → ServerInv cfg s ack
      → AllTo (ServerInv cfg) (to_window f cfg s now)
  to_window-Inv s now b v = record {
    state_ok = v.state_ok;
    same_expected = v.same_expected;
    issued = (v.issued.0, v.issued.1 ∙ ap (λ z. if_steady z s.state.schedule) b, v.issued.2, b);
  }

  -- The stage timer is no part of the invariant.
  reset_timer-Inv :
      (s : Server) (d : ℤ) (stage stage' : Stage)
      → (Issued cfg stage s → Issued cfg stage' (reset_timer d s))
      → ServerInv cfg s stage
      → ServerInv cfg (reset_timer d s) stage'
  reset_timer-Inv s d stage stage' i v = record {
    state_ok = v.state_ok;
    same_expected = v.same_expected;
    issued = i v.issued;
  }

  advance_ack-Inv :
      (s : Server) → ServerInv cfg s ack → AllTo (ServerInv cfg) (advance f cfg env s ack)
  unfolding advance
  advance_ack-Inv s v =
      AllTo-if (is_expected f cfg (ack_count s.state))
        (if cfg.steady_warmup
          then with_clock env s (to_window f cfg s)
          else to (reset_timer cfg.done_timeout s) done)
        (to s ack)
        (λ _.
          AllTo-if cfg.steady_warmup (with_clock env s (to_window f cfg s))
            (to (reset_timer cfg.done_timeout s) done)
            (λ b. with_clock-Inv s (to_window f cfg s) (λ now _. to_window-Inv s now b v))
            (λ b.
              reset_timer-Inv s cfg.done_timeout ack done
                (λ i. (i.0, i.1 ∙ ap (λ z. if_steady z s.state.schedule) b, i.2)) v))
        (λ _. v)

  window_if-Inv :
      (s : Server) (c : Check)
      → ServerInv cfg s window
      → AllTo (ServerInv cfg) (window_if f cfg env s c)
  window_if-Inv s panic v = tt
  window_if-Inv s fails v = v
  window_if-Inv s passes v = with_clock-Inv s (open_window f cfg env (count_read s)) λ now e.
      open_window-Inv (count_read s) s.clock_reads now e
        (record { state_ok = v.state_ok; same_expected = v.same_expected; issued = v.issued })

  -- An advance from any stage keeps the invariant of the stages.
  pub advance-Inv :
      (s : Server) (stage : Stage)
      → ServerInv cfg s stage
      → AllTo (ServerInv cfg) (advance f cfg env s stage)
  unfolding advance
  advance-Inv s hello v =
      AllTo-if (is_expected f cfg (hello_count s.state))
        (to (reset_timer cfg.ready_timeout s) ready) (to s hello)
        (λ _. reset_timer-Inv s cfg.ready_timeout hello ready (λ i. i) v) (λ _. v)
  advance-Inv s ready v =
      AllTo-if (is_expected f cfg (ready_count s.state))
        (with_clock env s (issue_schedule f cfg env s)) (to s ready)
        (λ _.
          with_clock-Inv s (issue_schedule f cfg env s)
            λ now e. issue_schedule-Inv f cfg env fits s s.clock_reads now e v)
        (λ _. v)
  advance-Inv s ack v = advance_ack-Inv s v
  advance-Inv s window v = window_if-Inv s (steady_detected f cfg s.state) v
  advance-Inv s window_ack v =
      AllTo-if (is_expected f cfg (window_ack_count s.state))
        (to (reset_timer cfg.done_timeout s) done) (to s window_ack)
        (λ _. reset_timer-Inv s cfg.done_timeout window_ack done (λ i. i) v) (λ _. v)
  advance-Inv s done v =
      AllTo-if (is_expected f cfg (done_count s.state)) (to s ended) (to s done)
        (λ b. record {
          state_ok = v.state_ok;
          same_expected = v.same_expected;
          issued = (v.issued.0, v.issued.1, v.issued.2, leb→le _ _ b);
        })
        (λ _. v)
  advance-Inv s ended v = tt
