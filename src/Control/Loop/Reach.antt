-- ===== src/Control/Loop/Reach.antt =====
-- What holds at every point of `Server.Run`, and what a finished run has done.
use rudp_bench.Common.{
  ℕ, zero, suc, ◌≡◌, refl, sym, ◌∙◌, ap, subst, Bool, true, false, List, [], ◌∷◌, some, arith,
  if◌then◌else◌, lookup, Float64,
}
use rudp_bench.Control.Config.{Config, Stage, hello, ready, ack, window, window_ack, done, ended}
use rudp_bench.Control.State.{RunState, Event, Applied, ok, err, apply, new_run_state}
use rudp_bench.Control.State.Frame.{Frame, apply-Frame}
use rudp_bench.Control.State.Invariant.{apply-StateInv, new_run_state-StateInv}
use rudp_bench.Control.Server.{Env, Server, Advanced, to, failed, set_state, add_conn, advance}
use rudp_bench.Control.Stages.{
  Fits, Timed-of, Issued, ServerInv, AllTo, commit_provisional-Inv, if_steady,
}
use rudp_bench.Control.Stages.Advance.{advance-Inv}
use rudp_bench.Control.Loop.{
  Input, cancelled, timer_expired, accepted, fault, received, Outcome, waiting, finished, stopped,
  exhausted, is_ended, same_stage, advance_all, note_ready, on_event, on_timer, on_input, run_from,
  new_server, run, is_server_ready,
}

-- What holds of the server and stage of an outcome; a finished run is at the stage `ended`.
abbrev pub Holds {ℓ} : (Server → Stage → Type ℓ) → Outcome → Type ℓ
Holds P (waiting s stage) = P s stage × (is_ended stage ≡ false)
Holds P (finished s) = P s ended
Holds P (stopped s e) = Unit
Holds P exhausted = Unit

is_ended-eq : (stage : Stage) → is_ended stage ≡ true → stage ≡ ended
is_ended-eq ended h = refl
is_ended-eq hello h = cc
is_ended-eq _ h = cc

same_stage-eq : (a b : Stage) → same_stage a b ≡ true → a ≡ b
same_stage-eq a b h = ground arith

Issued-Frame :
    {Real : Type 0} (cfg : Config Real) (s : Server) (st : RunState) (stage : Stage)
    → Frame s.state st
    → is_ended stage ≡ false
    → Issued cfg stage s
    → Issued cfg stage (set_state st s)
Issued-Frame cfg s st hello e n i = (e.same_sent ∙ i.0, i.1)
Issued-Frame cfg s st ready e n i = (e.same_sent ∙ i.0, i.1)
Issued-Frame cfg s st ack e n i = (
  e.same_sent ∙ i.0,
  i.1 ∙ ap (if_steady cfg.steady_warmup) (sym e.same_schedule),
  Timed-of cfg s.state st e.same_schedule e.same_issued i.2,
)
Issued-Frame cfg s st window e n i =
    (e.same_sent ∙ i.0, i.1, Timed-of cfg s.state st e.same_schedule e.same_issued i.2, i.3)
Issued-Frame cfg s st window_ack e n i = (
  e.same_sent ∙ i.0,
  i.1 ∙ ap some (sym e.same_schedule),
  Timed-of cfg s.state st e.same_schedule e.same_issued i.2,
)
Issued-Frame cfg s st done e n i = (
  e.same_sent ∙ i.0,
  i.1 ∙ ap some (sym e.same_schedule),
  Timed-of cfg s.state st e.same_schedule e.same_issued i.2,
)
Issued-Frame cfg s st ended e n i = cc

module _ (f : Float64) (cfg : Config f.Real) (env : Env) (fits : Fits cfg env) where
  Holds-if :
      (b : Bool) (x y : Outcome)
      → (b ≡ true → Holds (ServerInv cfg) x)
      → (b ≡ false → Holds (ServerInv cfg) y)
      → Holds (ServerInv cfg) (if b then x else y)
  Holds-if true x y g h = g refl
  Holds-if false x y g h = h refl

  advance_all-Inv :
      (n : ℕ) (s : Server) (stage : Stage)
      → ServerInv cfg s stage
      → is_ended stage ≡ false
      → Holds (ServerInv cfg) (advance_all f cfg env n s stage)
  unfolding advance_all
  advance_all-Inv zero s stage v n = tt
  advance_all-Inv (suc k) s stage v n =
      step (advance f cfg env s stage) (advance-Inv f cfg env fits s stage v) refl
        (advance_all-Inv k)
    where
      step :
          (r : Advanced)
          → AllTo (ServerInv cfg) r
          → advance f cfg env s stage ≡ r
          → ((s' : Server) (st : Stage)
              → ServerInv cfg s' st
              → is_ended st ≡ false
              → Holds (ServerInv cfg) (advance_all f cfg env k s' st))
          → Holds (ServerInv cfg) (advance_all f cfg env (suc k) s stage)
      step (failed s' e) w q ih = rw (q, advance_all) tt
      step (to s' next) w q ih =
          rw (q, advance_all)
            (Holds-if (same_stage next stage) (waiting s' stage)
              (if is_ended next then finished s' else advance_all f cfg env k s' next)
              (λ e. (subst (ServerInv cfg s') (same_stage-eq next stage e) w, n))
              (λ _.
                Holds-if (is_ended next) (finished s') (advance_all f cfg env k s' next)
                  (λ e. subst (ServerInv cfg s') (is_ended-eq next e) w) (λ e. ih s' next w e)))

  note_ready-Inv :
      (e : Event) (s : Server) (stage : Stage)
      → ServerInv cfg s stage
      → Issued cfg stage (record s { server_ready = true })
      → ServerInv cfg (note_ready f e s) stage
  unfolding note_ready
  note_ready-Inv e s stage v i =
      if_server (is_server_ready f (lookup e.conn_id s.state.participants) e.payload)
    where
      if_server :
          (b : Bool) → ServerInv cfg (if b then record s { server_ready = true } else s) stage
      if_server true = record { state_ok = v.state_ok; same_expected = v.same_expected; issued = i }
      if_server false = v

  -- Of the server, `Issued` reads the state and what is published.
  Issued-ready :
      (s : Server) (stage : Stage)
      → Issued cfg stage s
      → Issued cfg stage (record s { server_ready = true })
  Issued-ready s hello i = i
  Issued-ready s ready i = i
  Issued-ready s ack i = i
  Issued-ready s window i = i
  Issued-ready s window_ack i = i
  Issued-ready s done i = i
  Issued-ready s ended i = i

  Issued-conns : (s : Server) (stage : Stage) → Issued cfg stage s → Issued cfg stage (add_conn s)
  unfolding add_conn
  Issued-conns s hello i = i
  Issued-conns s ready i = i
  Issued-conns s ack i = i
  Issued-conns s window i = i
  Issued-conns s window_ack i = i
  Issued-conns s done i = i
  Issued-conns s ended i = i

  apply-Inv :
      (s : Server) (stage : Stage) (e : Event) (st : RunState)
      → apply s.state e ≡ ok st
      → ServerInv cfg s stage
      → is_ended stage ≡ false
      → ServerInv cfg (set_state st s) stage
  apply-Inv s stage e st q v n = record {
    state_ok = apply-StateInv s.state e v.state_ok q;
    same_expected = (apply-Frame s.state e q).same_expected ∙ v.same_expected;
    issued = Issued-Frame cfg s st stage (apply-Frame s.state e q) n v.issued;
  }

  on_event-Inv :
      (s : Server) (stage : Stage) (e : Event)
      → ServerInv cfg s stage
      → is_ended stage ≡ false
      → Holds (ServerInv cfg) (on_event f cfg env s stage e)
  unfolding on_event
  on_event-Inv s stage e v n = step (apply s.state e) refl
    where
      step :
          (r : Applied) → apply s.state e ≡ r → Holds (ServerInv cfg) (on_event f cfg env s stage e)
      step (err x) q = rw (q, on_event) tt
      step (ok st) q =
          let w = apply-Inv s stage e st q v n in
          rw (q, on_event)
            (advance_all-Inv 7 (note_ready f e (set_state st s)) stage
              (note_ready-Inv e (set_state st s) stage w
                (Issued-ready (set_state st s) stage w.issued))
              n)

  on_timer-Inv :
      (s : Server) (stage : Stage)
      → ServerInv cfg s stage
      → Holds (ServerInv cfg) (on_timer f cfg s stage)
  unfolding on_timer
  on_timer-Inv s window v = (commit_provisional-Inv f cfg env fits s v, refl)
  on_timer-Inv s hello v = tt
  on_timer-Inv s ready v = tt
  on_timer-Inv s ack v = tt
  on_timer-Inv s window_ack v = tt
  on_timer-Inv s done v = tt
  on_timer-Inv s ended v = tt

  on_input-Inv :
      (s : Server) (stage : Stage) (i : Input)
      → ServerInv cfg s stage
      → is_ended stage ≡ false
      → Holds (ServerInv cfg) (on_input f cfg env s stage i)
  unfolding on_input
  on_input-Inv s stage cancelled v n = tt
  on_input-Inv s stage timer_expired v n = on_timer-Inv s stage v
  on_input-Inv s stage accepted v n = (
    unfold add_conn in
        record {
          state_ok = v.state_ok;
          same_expected = v.same_expected;
          issued = Issued-conns s stage v.issued;
        },
    n,
  )
  on_input-Inv s stage fault v n = tt
  on_input-Inv s stage (received e) v n = on_event-Inv s stage e v n

  run_from-Inv :
      (s : Server) (stage : Stage) (is : List Input)
      → ServerInv cfg s stage
      → is_ended stage ≡ false
      → Holds (ServerInv cfg) (run_from f cfg env s stage is)
  unfolding run_from
  run_from-Inv s stage [] v n = (v, n)
  run_from-Inv s stage (i ∷ is) v n =
      step (on_input f cfg env s stage i) refl (on_input-Inv s stage i v n)
        (λ s' st. run_from-Inv s' st is)
    where
      step :
          (r : Outcome)
          → on_input f cfg env s stage i ≡ r
          → Holds (ServerInv cfg) r
          → ((s' : Server) (st : Stage)
              → ServerInv cfg s' st
              → is_ended st ≡ false
              → Holds (ServerInv cfg) (run_from f cfg env s' st is))
          → Holds (ServerInv cfg) (run_from f cfg env s stage (i ∷ is))
      step (waiting s' st) q w ih = rw (q, run_from) (ih s' st w.0 w.1)
      step (finished s') q w ih = rw (q, run_from) w
      step (stopped s' e) q w ih = rw (q, run_from) tt
      step exhausted q w ih = rw (q, run_from) tt

  new_server-Inv : ServerInv cfg (new_server f cfg) hello
  unfolding new_server new_run_state
  new_server-Inv =
      let v = new_run_state-StateInv cfg.expected fits.expected_nonneg in
      record {
        state_ok = record { capped = v.capped; each = v.each; tracks = v.tracks };
        same_expected = refl;
        issued = (refl, refl);
      }

  -- Whatever is received, in whatever order, the invariant of the stage that is reached holds.
  pub run-Inv : (is : List Input) → Holds (ServerInv cfg) (run f cfg env is)
  unfolding run
  run-Inv is = run_from-Inv (new_server f cfg) hello is new_server-Inv refl
