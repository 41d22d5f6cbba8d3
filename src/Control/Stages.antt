-- ===== src/Control/Stages.antt =====
-- What holds between two inputs of `Server.Run`, stage by stage, and that `advanceStageIfReady`
-- keeps it. `Fits` is what the arithmetic relies on: validated durations, and a clock whose
-- readings stay clear of the end of int64 by the length of a run.
pub mod Advance
use rudp_bench.Common.{
  ℕ, zero, suc, ◌+◌, ◌≤◌, ◌<◌, ◌^◌, ◌≡◌, refl, sym, ◌∙◌, ap, subst, Bool, true, false, List, [],
  ◌∷◌, ◌++◌, Option, none, some, ℤ, pos, negsuc, pos_part, neg_part, ◌+ℤ◌, ◌-ℤ◌, ◌≤ℤ◌, ◌<ℤ◌, ltb_ℤ,
  leb_ℤ, int_laws, arith, ◌+i64◌, ◌-i64◌, +i64_exact, InI64, ◌⊎◌, inl, inr, if◌then◌else◌,
  Bool-cases, Option-cases, Float64,
}
use rudp_bench.Control.Messages.{ScheduleMessage, WindowMessage}
use rudp_bench.Control.Config.{
  Config, Stage, hello, ready, ack, window, window_ack, done, ended, steady_guard,
}
use rudp_bench.Control.State.{RunState}
use rudp_bench.Control.State.Invariant.{StateInv}
use rudp_bench.Control.Steady.{Check, panic, fails, passes, steady_detected}
use rudp_bench.Control.Report.{done_count, ready_count, sorted_participants}
use rudp_bench.Control.Server.{
  Env, Server, Advanced, to, failed, schedule_sent, window_sent, Sent, delivered, refused, publish,
  publish_unless, send_all, issue_schedule, commit_provisional, open_window, advance, advance_hello,
  advance_ready, advance_ack, advance_window, advance_window_ack, advance_done, schedule_at,
  window_at, adopt_window, schedule_done, window_done, window_if, reset_timer, set_state,
  count_read, mark_schedule_sent, clear_steady,
}
use rudp_bench.Control.Server.Sends.{SameBut, send_all-SameBut}

abbrev IsNonneg : ℤ → Type 0
IsNonneg z = pos 0 ≤ℤ z

pub record Fits {Real : Type 0} (cfg : Config Real) (env : Env) : Type 0 where
  pub expected_nonneg : pos 0 ≤ℤ cfg.expected
  pub warmup_nonneg : pos 0 ≤ℤ cfg.warmup
  pub duration_nonneg : pos 0 ≤ℤ cfg.duration
  pub drain_nonneg : pos 0 ≤ℤ cfg.drain
  pub clock :
      (k : ℕ) (now : ℤ)
      → env.now_ns k ≡ some now
      → (pos 0 ≤ℤ now)
        × (now +ℤ cfg.warmup +ℤ cfg.duration +ℤ cfg.drain <ℤ pos (2 ^ 63))
        × (now +ℤ steady_guard cfg +ℤ cfg.duration +ℤ cfg.drain <ℤ pos (2 ^ 63))

-- The effective schedule: the window lasts the duration, the drain follows it, and the window
-- starts at the cap of the warmup or before.
pub record Timed {Real : Type 0} (cfg : Config Real) (st : RunState) : Type 0 where
  pub stop_after : st.schedule.stop_at_ns ≡ st.schedule.start_at_ns +ℤ cfg.duration
  pub drain_after : st.schedule.drain_until_ns ≡ st.schedule.stop_at_ns +ℤ cfg.drain
  pub start_by : st.schedule.start_at_ns ≤ℤ st.schedule_issued_ns +ℤ cfg.warmup

abbrev pub if_steady : Bool → ScheduleMessage → Option ScheduleMessage
if_steady true w = none
if_steady false w = some w

-- What has been sent and published when a stage is reached.
abbrev pub Issued : {Real : Type 0} → Config Real → Stage → Server → Type 0
Issued cfg hello s = (s.state.schedule_sent ≡ false) × (s.published ≡ none)
Issued cfg ready s = (s.state.schedule_sent ≡ false) × (s.published ≡ none)
Issued cfg ack s =
    (s.state.schedule_sent ≡ true)
    × (s.published ≡ if_steady cfg.steady_warmup s.state.schedule)
    × Timed cfg s.state
Issued cfg window s =
    (s.state.schedule_sent ≡ true)
    × (s.published ≡ none)
    × Timed cfg s.state
    × (cfg.steady_warmup ≡ true)
Issued cfg window_ack s =
    (s.state.schedule_sent ≡ true) × (s.published ≡ some s.state.schedule) × Timed cfg s.state
Issued cfg done s =
    (s.state.schedule_sent ≡ true) × (s.published ≡ some s.state.schedule) × Timed cfg s.state
Issued cfg ended s =
    (s.state.schedule_sent ≡ true)
    × (s.published ≡ some s.state.schedule)
    × Timed cfg s.state
    × (cfg.expected ≤ℤ pos (done_count s.state))

pub record ServerInv {Real : Type 0} (cfg : Config Real) (s : Server) (stage : Stage) : Type 0 where
  pub state_ok : StateInv s.state
  pub same_expected : s.state.expected ≡ cfg.expected
  pub issued : Issued cfg stage s

-- What holds of the server and stage that an advance leads to.
abbrev pub AllTo {ℓ} : (Server → Stage → Type ℓ) → Advanced → Type ℓ
AllTo P (to s stage) = P s stage
AllTo P (failed s e) = Unit

-- The stages write parts of the state that the messages' invariant does not read; `sent` may turn
-- true.
pub StateInv-stages :
    (s : RunState) (w : ScheduleMessage) (sent : Bool) (issued : ℤ) (opened reached : Bool)
    → (s.schedule_sent ≡ true → sent ≡ true)
    → StateInv s
    → StateInv (record s {
      schedule = w;
      schedule_sent = sent;
      schedule_issued_ns = issued;
      window_sent = opened;
      steady_reached = reached;
    })
StateInv-stages s w sent issued opened reached on v = record {
  capped = v.capped;
  each = λ c p h.
      let g = v.each c p h in
      record {
        named = g.named;
        acked_ready = g.acked_ready;
        done_acked = g.done_acked;
        acked_scheduled = λ a. on (g.acked_scheduled a);
        claimed = g.claimed;
        on_time = g.on_time;
      };
  tracks = v.tracks;
}

pub publish-first :
    (w : ScheduleMessage) (s : Server)
    → s.published ≡ none
    → publish w s ≡ record s { published = some w }
unfolding publish
publish-first w s h = rw h

publish_unless-first :
    (b : Bool) (w : ScheduleMessage) (s : Server)
    → s.published ≡ none
    → publish_unless b w s ≡ record s { published = if_steady b w }
unfolding publish_unless
publish_unless-first true w s h = ground arith
publish_unless-first false w s h = publish-first w s h

pub Timed-of :
    {Real : Type 0} (cfg : Config Real) (st st' : RunState)
    → st'.schedule ≡ st.schedule
    → st'.schedule_issued_ns ≡ st.schedule_issued_ns
    → Timed cfg st
    → Timed cfg st'
Timed-of cfg st st' e i v = record {
  stop_after = rw e v.stop_after;
  drain_after = rw e v.drain_after;
  start_by = rw (e, i) v.start_by;
}

-- A state with a schedule in it, that was published or not.
ServerInv-scheduled :
    {Real : Type 0} (cfg : Config Real) (s t : Server) (stage : Stage)
    → StateInv s.state
    → s.state.expected ≡ cfg.expected
    → t.state ≡ s.state
    → Issued cfg stage t
    → ServerInv cfg t stage
ServerInv-scheduled cfg s t stage v e q i = record {
  state_ok = rw q v;
  same_expected = rw q e;
  issued = i;
}

module _ (f : Float64) (cfg : Config f.Real) (env : Env) (fits : Fits cfg env) where
  schedule_at-Timed :
      (k : ℕ) (now : ℤ) (st : RunState)
      → env.now_ns k ≡ some now
      → Timed cfg (record st { schedule_issued_ns = now; schedule = schedule_at f cfg now })
  schedule_at-Timed k now st h =
      let (n, a, b) = fits.clock k now h in
      let w = fits.warmup_nonneg in
      let d = fits.duration_nonneg in
      let r = fits.drain_nonneg in
      let start : now +i64 cfg.warmup ≡ now +ℤ cfg.warmup = +i64_exact _ _ (omega int_laws) in
      let stop : now +ℤ cfg.warmup +i64 cfg.duration ≡ now +ℤ cfg.warmup +ℤ cfg.duration =
        +i64_exact _ _ (omega int_laws) in
      record {
        stop_after = rw (start, stop);
        drain_after = rw (start, stop) (+i64_exact _ _ (omega int_laws));
        start_by = rw start (omega arith);
      }

  -- The stage after the schedule went out, for any server that did not change under the writes.
  schedule_done-Inv :
      (r : Sent) (st : RunState)
      → ((t : Server) → r ≡ delivered t → (t.state ≡ st) × (t.published ≡ none))
      → StateInv st
      → st.expected ≡ cfg.expected
      → Timed cfg st
      → AllTo (ServerInv cfg) (schedule_done f cfg r)
  schedule_done-Inv (refused s e) st same v x d = tt
  schedule_done-Inv (delivered t) st same v x d =
      let (q, n) = same t refl in
      let v' = subst StateInv (sym q) v in
      let d' = subst (Timed cfg) (sym q) d in
      let marked =
        StateInv-stages t.state t.state.schedule true t.state.schedule_issued_ns t.state.window_sent
          t.state.steady_reached (λ _. refl) v' in
      let x' = ap (λ z. z.expected) q ∙ x in
      rw
        (publish_unless-first cfg.steady_warmup t.state.schedule
          (set_state (mark_schedule_sent f t.state) t) n)
        (record {
          state_ok = marked;
          same_expected = x';
          issued = (refl, refl, Timed-of cfg t.state _ refl refl d');
        })

  -- Every participant gets the schedule, and then the stage and what is published agree.
  pub issue_schedule-Inv :
      (s : Server) (k : ℕ) (now : ℤ)
      → env.now_ns k ≡ some now
      → ServerInv cfg s ready
      → AllTo (ServerInv cfg) (issue_schedule f cfg env s now)
  unfolding issue_schedule
  issue_schedule-Inv s k now h v =
      let st = record s.state { schedule_issued_ns = now; schedule = schedule_at f cfg now } in
      schedule_done-Inv _ st
        (λ t q.
          let same =
            send_all-SameBut env (schedule_sent (schedule_at f cfg now)) (sorted_participants st)
              (set_state st (count_read s)) q in
          (same.same_state, same.same_published ∙ v.issued.1))
        (StateInv-stages s.state (schedule_at f cfg now) s.state.schedule_sent now
          s.state.window_sent s.state.steady_reached (λ e. e) v.state_ok)
        v.same_expected (schedule_at-Timed k now s.state h)

  pub commit_provisional-Inv :
      (s : Server) → ServerInv cfg s window → ServerInv cfg (commit_provisional f cfg s) done
  unfolding commit_provisional
  commit_provisional-Inv s v =
      rw (publish-first s.state.schedule (set_state (clear_steady f s.state) s) v.issued.1)
        (record {
          state_ok =
              StateInv-stages s.state s.state.schedule s.state.schedule_sent
                s.state.schedule_issued_ns s.state.window_sent false (λ e. e) v.state_ok;
          same_expected = v.same_expected;
          issued = (v.issued.0, refl, Timed-of cfg s.state _ refl refl v.issued.2);
        })
