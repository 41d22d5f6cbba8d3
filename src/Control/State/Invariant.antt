-- ===== src/Control/State/Invariant.antt =====
-- What holds of `runState` between two messages, and that every accepted message keeps it.
use rudp_bench.Common.{
  ℕ, suc, ◌-◌, ◌≤◌, ◌≡◌, refl, Bool, true, false, List, [], ◌∷◌, ◌++◌, none, some, ℤ, pos, ltb_ℤ,
  ltb, leb_ℤ, ◌≤ℤ◌, if◌then◌else◌, length, lookup, insert, arith, inl, inr, Option-cases, Each,
  insert-Each, length-insert_new, length-insert_old, length-append, length-drop, Bool-cases,
}
use rudp_bench.Control.Messages.{
  HelloMessage, ReadyMessage, SchedAckMessage, RateMessage, WindowAckMessage, DoneMessage,
  Participant, InvalidReason, negative_schedule_margin, negative_window_margin,
}
use rudp_bench.Control.ProcKey.{proc_key, lookup_key, lookup_key-cons, lookup_key_self}
use rudp_bench.Control.State.{
  RunState, RateTrack, Event, Payload, ok, hello_event, ready_event, ack_event, rate_event,
  window_ack_event, done_event, other, new_participant, track_of, push_rate, keep, apply_hello,
  apply_ready, apply_ack, apply_rate, apply_window_ack, apply_done, apply, new_run_state, trim,
}
use rudp_bench.Control.State.Accept.{
  apply_hello-eq-ok, apply_ready-eq-ok, apply_ack-eq-ok, apply_rate-eq-ok, apply_window_ack-eq-ok,
  apply_done-eq-ok,
}

-- A participant has taken the steps of the protocol in their order and holds its process index, and
-- where no reason is recorded its margin was not negative.
pub record Good (sent : Bool) (keys : List (List ℕ × ℕ)) (invalid : List InvalidReason) (c : ℕ)
    (p : Participant) : Type 0 where
  pub named : p.conn_id ≡ c
  pub acked_ready : p.ack_received ≡ true → p.ready_received ≡ true
  pub done_acked : p.done_received ≡ true → p.ack_received ≡ true
  pub acked_scheduled : p.ack_received ≡ true → sent ≡ true
  pub claimed :
      ltb_ℤ p.hello.proc_index (pos 0) ≡ false
      → lookup_key (proc_key p.hello.role p.hello.proc_index) keys ≡ some c
  pub on_time : invalid ≡ [] → p.ack_received ≡ true → ltb_ℤ p.sched_ack.margin_ns (pos 0) ≡ false

-- The two histories go in step and stay short.
pub record InStep (t : RateTrack) : Type 0 where
  pub same_length : length t.d_sent ≡ length t.d_recv
  pub short : length t.d_sent ≤ keep

pub record StateInv (s : RunState) : Type 0 where
  pub capped : pos (length s.participants) ≤ℤ s.expected
  pub each : Each (Good s.schedule_sent s.proc_index s.invalid) s.participants
  pub tracks : Each (λ c t. InStep t) s.rates

append_one_ne_nil : (xs : List InvalidReason) (x : InvalidReason) → xs ++ x ∷ [] ≡ [] → ⊥
append_one_ne_nil [] x h = cc
append_one_ne_nil (y ∷ ys) x h = cc

pub new_run_state-StateInv : (n : ℤ) → pos 0 ≤ℤ n → StateInv (new_run_state n)
unfolding new_run_state lookup
new_run_state-StateInv n h = record { capped = h; each = λ c p e. cc; tracks = λ c t e. cc }

insert-StateInv :
    (s : RunState) (c : ℕ) (p q : Participant)
    → StateInv s
    → lookup c s.participants ≡ some p
    → Good s.schedule_sent s.proc_index s.invalid c q
    → StateInv (record s { participants = insert c q s.participants })
insert-StateInv s c p q v e g = record {
  capped = omega (arith, v.capped, length-insert_old c q p s.participants e);
  each = insert-Each (Good s.schedule_sent s.proc_index s.invalid) c q s.participants v.each g;
  tracks = v.tracks;
}

-- More keys and more reasons leave a participant good.
Good-mono :
    (sent : Bool) (keys keys' : List (List ℕ × ℕ)) (xs ys : List InvalidReason) (c : ℕ)
    (p : Participant)
    → ((k : List ℕ) (d : ℕ) → lookup_key k keys ≡ some d → lookup_key k keys' ≡ some d)
    → (ys ≡ [] → xs ≡ [])
    → Good sent keys xs c p
    → Good sent keys' ys c p
Good-mono sent keys keys' xs ys c p more fewer g = record {
  named = g.named;
  acked_ready = g.acked_ready;
  done_acked = g.done_acked;
  acked_scheduled = g.acked_scheduled;
  claimed = λ h. more _ _ (g.claimed h);
  on_time = λ h. g.on_time (fewer h);
}

reasons_grow :
    (b : Bool) (xs : List InvalidReason) (x : InvalidReason)
    → (if b then xs ++ x ∷ [] else xs) ≡ []
    → (xs ≡ []) × (b ≡ false)
reasons_grow true xs x h = absurd (append_one_ne_nil xs x h)
reasons_grow false xs x h = (h, refl)

add_participant-StateInv :
    (s : RunState) (c : ℕ) (m : HelloMessage) (keys : List (List ℕ × ℕ))
    → StateInv s
    → lookup c s.participants ≡ none
    → leb_ℤ s.expected (pos (length s.participants)) ≡ false
    → ((k : List ℕ) (d : ℕ) → lookup_key k s.proc_index ≡ some d → lookup_key k keys ≡ some d)
    → (ltb_ℤ m.proc_index (pos 0) ≡ false → lookup_key (proc_key m.role m.proc_index) keys ≡ some c)
    → StateInv (record s {
      participants = insert c (new_participant c m) s.participants;
      proc_index = keys;
    })
add_participant-StateInv s c m keys v fresh room more claim = record {
  capped = ground (arith, length-insert_new c (new_participant c m) s.participants fresh);
  each =
      insert-Each (Good s.schedule_sent keys s.invalid) c (new_participant c m) s.participants
        (λ d p h.
          Good-mono s.schedule_sent s.proc_index keys s.invalid s.invalid d p more (λ e. e)
            (v.each d p h))
        (record {
          named = refl;
          acked_ready = λ a. cc;
          done_acked = λ a. cc;
          acked_scheduled = λ a. cc;
          claimed = claim;
          on_time = λ a b. cc;
        });
  tracks = v.tracks;
}

apply_hello-StateInv :
    (s : RunState) (c : ℕ) (m : HelloMessage) {t : RunState}
    → StateInv s
    → apply_hello s c m ≡ ok t
    → StateInv t
apply_hello-StateInv s c m v h =
    let (fresh, room, added) = apply_hello-eq-ok s c m h in
    elim added [
      | inl (neg, e) ↦
          rw e (add_participant-StateInv s c m s.proc_index v fresh room (λ k d l. l) (λ l. cc))
      | inr (neg, new, e) ↦ rw e (
          add_participant-StateInv s c m ((proc_key m.role m.proc_index, c) ∷ s.proc_index) v fresh
            room (λ k d l. lookup_key-cons (proc_key m.role m.proc_index) k c d s.proc_index new l)
            (λ _. lookup_key_self (proc_key m.role m.proc_index) c s.proc_index))
    ]

apply_ready-StateInv :
    (s : RunState) (c : ℕ) (m : ReadyMessage) {t : RunState}
    → StateInv s
    → apply_ready s c m ≡ ok t
    → StateInv t
apply_ready-StateInv s c m v h =
    let (p, e, r, q) = apply_ready-eq-ok s c m h in
    let g = v.each c p e in
    rw q (
      insert-StateInv s c p (record p { ready = m; ready_received = true }) v e
        (record {
          named = g.named;
          acked_ready = λ _. refl;
          done_acked = g.done_acked;
          acked_scheduled = g.acked_scheduled;
          claimed = g.claimed;
          on_time = g.on_time;
        }))

apply_ack-StateInv :
    (s : RunState) (c : ℕ) (m : SchedAckMessage) {t : RunState}
    → StateInv s
    → apply_ack s c m ≡ ok t
    → StateInv t
apply_ack-StateInv s c m v h =
    let (p, e, r, sent, a, q) = apply_ack-eq-ok s c m h in
    let g = v.each c p e in
    let neg = ltb_ℤ m.margin_ns (pos 0) in
    let x = negative_schedule_margin p.hello.role p.hello.proc_index p.hello.pid m.margin_ns in
    let reasons = if neg then s.invalid ++ x ∷ [] else s.invalid in
    let p' = record p { sched_ack = m; ack_received = true } in
    rw q (record {
      capped = omega (arith, v.capped, length-insert_old c p' p s.participants e);
      each =
          insert-Each (Good s.schedule_sent s.proc_index reasons) c p' s.participants
            (λ d o l.
              Good-mono s.schedule_sent s.proc_index s.proc_index s.invalid reasons d o (λ k f w. w)
                (λ w. (reasons_grow neg s.invalid x w).0) (v.each d o l))
            (record {
              named = g.named;
              acked_ready = λ _. r;
              done_acked = λ _. refl;
              acked_scheduled = λ _. sent;
              claimed = g.claimed;
              on_time = λ w _. (reasons_grow neg s.invalid x w).1;
            });
      tracks = v.tracks;
    })

trim-length : (xs : List ℕ) → length (trim (length xs) xs) ≤ keep
trim-length xs = ground (arith, length-drop (length xs - keep) xs)

trim-same :
    (xs ys : List ℕ)
    → length xs ≡ length ys
    → length (trim (length xs) xs)
      ≡ length (if ltb keep (length xs) then trim (length ys) ys else ys)
trim-same xs ys h =
    ground (arith, h, length-drop (length xs - keep) xs, length-drop (length ys - keep) ys)

push_rate-InStep : (t : RateTrack) (m : RateMessage) → InStep t → InStep (push_rate t m)
unfolding push_rate
push_rate-InStep t m v = elim (Bool-cases t.has_last) [
  | inr e ↦ rw e (record { same_length = v.same_length; short = v.short })
  | inl e ↦
      let sent = t.d_sent ++ (m.sent - t.last.sent) ∷ [] in
      let received = t.d_recv ++ (m.received - t.last.received) ∷ [] in
      rw e (record {
        same_length = trim-same sent received (
            omega (
              arith,
              v.same_length,
              length-append t.d_sent ((m.sent - t.last.sent) ∷ []),
              length-append t.d_recv ((m.received - t.last.received) ∷ []),
            ));
        short = trim-length sent;
      })
]

track_of-InStep : (s : RunState) (c : ℕ) → StateInv s → InStep (track_of (lookup c s.rates))
track_of-InStep s c v = elim (Option-cases (lookup c s.rates)) [
  | inl e ↦ rw e (record { same_length = refl; short = omega arith })
  | inr (t, e) ↦ rw e (v.tracks c t e)
]

apply_rate-StateInv :
    (s : RunState) (c : ℕ) (m : RateMessage) {t : RunState}
    → StateInv s
    → apply_rate s c m ≡ ok t
    → StateInv t
apply_rate-StateInv s c m v h =
    let (p, e, _, q) = apply_rate-eq-ok s c m h in
    let g = v.each c p e in
    let p' = record p { rate_reports = suc p.rate_reports } in
    let t' = push_rate (track_of (lookup c s.rates)) m in
    let w = insert-StateInv s c p p' v e (record {
      named = g.named;
      acked_ready = g.acked_ready;
      done_acked = g.done_acked;
      acked_scheduled = g.acked_scheduled;
      claimed = g.claimed;
      on_time = g.on_time;
    }) in
    rw q (record {
      capped = w.capped;
      each = w.each;
      tracks =
          insert-Each (λ c t. InStep t) c t' s.rates v.tracks
            (push_rate-InStep _ m (track_of-InStep s c v));
    })

apply_window_ack-StateInv :
    (s : RunState) (c : ℕ) (m : WindowAckMessage) {t : RunState}
    → StateInv s
    → apply_window_ack s c m ≡ ok t
    → StateInv t
apply_window_ack-StateInv s c m v h =
    let (p, e, _, q) = apply_window_ack-eq-ok s c m h in
    let neg = ltb_ℤ m.margin_ns (pos 0) in
    let x = negative_window_margin p.hello.role p.hello.proc_index p.hello.pid m.margin_ns in
    let reasons = if neg then s.invalid ++ x ∷ [] else s.invalid in
    rw q (record {
      capped = v.capped;
      each = λ d o l.
          Good-mono s.schedule_sent s.proc_index s.proc_index s.invalid reasons d o (λ k f w. w)
            (λ w. (reasons_grow neg s.invalid x w).0) (v.each d o l);
      tracks = v.tracks;
    })

apply_done-StateInv :
    (s : RunState) (c : ℕ) (m : DoneMessage) {t : RunState}
    → StateInv s
    → apply_done s c m ≡ ok t
    → StateInv t
apply_done-StateInv s c m v h =
    let (p, e, a, d, q) = apply_done-eq-ok s c m h in
    let g = v.each c p e in
    rw q (
      insert-StateInv s c p (record p { done = m; done_received = true }) v e
        (record {
          named = g.named;
          acked_ready = g.acked_ready;
          done_acked = λ _. a;
          acked_scheduled = g.acked_scheduled;
          claimed = g.claimed;
          on_time = g.on_time;
        }))

apply_payload-StateInv :
    (s : RunState) (c : ℕ) (m : Payload) {t : RunState}
    → StateInv s
    → apply s (record { conn_id = c; payload = m }) ≡ ok t
    → StateInv t
unfolding apply
apply_payload-StateInv s c (hello_event m) v h = apply_hello-StateInv s c m v h
apply_payload-StateInv s c (ready_event m) v h = apply_ready-StateInv s c m v h
apply_payload-StateInv s c (ack_event m) v h = apply_ack-StateInv s c m v h
apply_payload-StateInv s c (rate_event m) v h = apply_rate-StateInv s c m v h
apply_payload-StateInv s c (window_ack_event m) v h = apply_window_ack-StateInv s c m v h
apply_payload-StateInv s c (done_event m) v h = apply_done-StateInv s c m v h
apply_payload-StateInv s c (other k) v h = cc

-- Every accepted message keeps the invariant: at most `expected` participants, each under its own
-- connection, acknowledged only after ready and after the schedule went out, done only after
-- acknowledged, the owner of its process index if it is at least 0, without a negative schedule
-- margin as long as no reason is recorded, and rate histories of equal length, at most 32.
pub apply-StateInv :
    (s : RunState) (e : Event) {t : RunState} → StateInv s → apply s e ≡ ok t → StateInv t
apply-StateInv s e v h = apply_payload-StateInv s e.conn_id e.payload v h
