-- ===== src/Control/State/Protocol.antt =====
-- The protocol of one participant as a machine of phases, and that `apply` runs one such machine
-- for each connection.
use rudp_bench.Common.{
  ℕ, suc, ◌≡◌, refl, sym, ◌∙◌, ap, ◌≢◌, Bool, true, false, ◌&&◌, Option, none, some, arith, inl,
  inr, if◌then◌else◌, lookup, insert, lookup-insert, Option-cases, Bool-cases, ==_iff, ◌==◌,
}
use rudp_bench.Control.Messages.{
  HelloMessage, ReadyMessage, SchedAckMessage, RateMessage, WindowAckMessage, DoneMessage,
  Participant,
}
use rudp_bench.Control.State.{
  RunState, Event, Payload, Applied, ok, err, hello_event, ready_event, ack_event, rate_event,
  window_ack_event, done_event, other, apply, apply_ready, apply_ack, apply_done, new_participant,
}
use rudp_bench.Control.State.Accept.{
  apply_hello-eq-ok, apply_ready-eq-ok, apply_ack-eq-ok, apply_rate-eq-ok, apply_window_ack-eq-ok,
  apply_done-eq-ok,
}
use rudp_bench.Control.State.Invariant.{StateInv}

pub data Phase : Type 0 where
  absent greeted readied acked completed : Phase

abbrev pub phase_of : Option Participant → Phase
phase_of none = absent
phase_of (some p) =
    if p.done_received
    then completed
    else if p.ack_received
    then acked
    else if p.ready_received
    then readied
    else greeted

-- The phase of the participant on a connection.
abbrev pub phase : RunState → ℕ → Phase
phase s c = phase_of (lookup c s.participants)

-- The steps of the machine; reports of rates and window acknowledgements stay where they are.
pub data PhaseStep : Payload → Phase → Phase → Type 0 where
  greet : {m : HelloMessage} → PhaseStep (hello_event m) absent greeted
  make_ready : {m : ReadyMessage} → PhaseStep (ready_event m) greeted readied
  acknowledge : {m : SchedAckMessage} → PhaseStep (ack_event m) readied acked
  complete : {m : DoneMessage} → PhaseStep (done_event m) acked completed
  report : {m : RateMessage} {a : Phase} → a ≢ absent → PhaseStep (rate_event m) a a
  confirm : {m : WindowAckMessage} {a : Phase} → a ≢ absent → PhaseStep (window_ack_event m) a a

phase-insert :
    (s : RunState) (c : ℕ) (p : Participant)
    → phase_of (lookup c (insert c p s.participants)) ≡ phase_of (some p)
phase-insert s c p = ground (arith, lookup-insert c c p s.participants)

-- The machine of another connection does not move.
phase-insert_ne :
    (s : RunState) (c d : ℕ) (p : Participant)
    → c ≢ d
    → phase_of (lookup d (insert c p s.participants)) ≡ phase s d
phase-insert_ne s c d p n = ground (arith, lookup-insert c d p s.participants)

apply_hello-PhaseStep :
    (s : RunState) (c : ℕ) (m : HelloMessage) {t : RunState}
    → apply s (record { conn_id = c; payload = hello_event m }) ≡ ok t
    → PhaseStep (hello_event m) (phase s c) (phase t c)
unfolding apply
apply_hello-PhaseStep s c m h =
    let (fresh, room, added) = apply_hello-eq-ok s c m h in
    elim added [
      | inl (neg, e) ↦ rw (e, fresh, phase-insert s c (new_participant c m)) greet
      | inr (neg, new, e) ↦ rw (e, fresh, phase-insert s c (new_participant c m)) greet
    ]

PhaseStep-of :
    {x : Payload} {a a' b b' : Phase} → a ≡ a' → b ≡ b' → PhaseStep x a' b' → PhaseStep x a b
PhaseStep-of p q w = rw (p, q) w

apply_ready-PhaseStep :
    (s : RunState) (c : ℕ) (m : ReadyMessage) {t : RunState}
    → StateInv s
    → apply s (record { conn_id = c; payload = ready_event m }) ≡ ok t
    → PhaseStep (ready_event m) (phase s c) (phase t c)
unfolding apply
apply_ready-PhaseStep s c m {t} v h =
    let (p, e, r, q) = apply_ready-eq-ok s c m h in
    let g = v.each c p e in
    let p' = record p { ready = m; ready_received = true } in
    rw q (
      PhaseStep-of {a' = greeted} {b' = readied} (ground (arith, g.acked_ready, g.done_acked))
        (phase-insert s c p' ∙ ground (arith, g.acked_ready, g.done_acked)) make_ready)

apply_ack-PhaseStep :
    (s : RunState) (c : ℕ) (m : SchedAckMessage) {t : RunState}
    → StateInv s
    → apply s (record { conn_id = c; payload = ack_event m }) ≡ ok t
    → PhaseStep (ack_event m) (phase s c) (phase t c)
unfolding apply
apply_ack-PhaseStep s c m {t} v h =
    let (p, e, r, sent, a, q) = apply_ack-eq-ok s c m h in
    let g = v.each c p e in
    let p' = record p { sched_ack = m; ack_received = true } in
    rw q (
      PhaseStep-of {a' = readied} {b' = acked} (ground (arith, g.acked_ready, g.done_acked))
        (phase-insert s c p' ∙ ground (arith, g.acked_ready, g.done_acked)) acknowledge)

some-ne-absent :
    (s : RunState) (c : ℕ) (p : Participant) → lookup c s.participants ≡ some p → phase s c ≢ absent
some-ne-absent s c p e a = ground arith

apply_rate-PhaseStep :
    (s : RunState) (c : ℕ) (m : RateMessage) {t : RunState}
    → apply s (record { conn_id = c; payload = rate_event m }) ≡ ok t
    → PhaseStep (rate_event m) (phase s c) (phase t c)
unfolding apply
apply_rate-PhaseStep s c m {t} h =
    let (p, e, r, q) = apply_rate-eq-ok s c m h in
    let p' = record p { rate_reports = suc p.rate_reports } in
    rw q (
      PhaseStep-of {a' = phase s c} {b' = phase s c} refl
        (phase-insert s c p' ∙ sym (ap phase_of e)) (report (some-ne-absent s c p e)))

apply_window_ack-PhaseStep :
    (s : RunState) (c : ℕ) (m : WindowAckMessage) {t : RunState}
    → apply s (record { conn_id = c; payload = window_ack_event m }) ≡ ok t
    → PhaseStep (window_ack_event m) (phase s c) (phase t c)
unfolding apply
apply_window_ack-PhaseStep s c m {t} h =
    let (p, e, r, q) = apply_window_ack-eq-ok s c m h in rw q (confirm (some-ne-absent s c p e))

apply_done-PhaseStep :
    (s : RunState) (c : ℕ) (m : DoneMessage) {t : RunState}
    → StateInv s
    → apply s (record { conn_id = c; payload = done_event m }) ≡ ok t
    → PhaseStep (done_event m) (phase s c) (phase t c)
unfolding apply
apply_done-PhaseStep s c m {t} v h =
    let (p, e, a, d, q) = apply_done-eq-ok s c m h in
    let p' = record p { done = m; done_received = true } in
    rw q (
      PhaseStep-of {a' = acked} {b' = completed} (ground arith) (phase-insert s c p' ∙ refl)
        complete)

apply_payload-PhaseStep :
    (s : RunState) (c : ℕ) (x : Payload) {t : RunState}
    → StateInv s
    → apply s (record { conn_id = c; payload = x }) ≡ ok t
    → PhaseStep x (phase s c) (phase t c)
apply_payload-PhaseStep s c (hello_event m) v h = apply_hello-PhaseStep s c m h
apply_payload-PhaseStep s c (ready_event m) v h = apply_ready-PhaseStep s c m v h
apply_payload-PhaseStep s c (ack_event m) v h = apply_ack-PhaseStep s c m v h
apply_payload-PhaseStep s c (rate_event m) v h = apply_rate-PhaseStep s c m h
apply_payload-PhaseStep s c (window_ack_event m) v h = apply_window_ack-PhaseStep s c m h
apply_payload-PhaseStep s c (done_event m) v h = apply_done-PhaseStep s c m v h
apply_payload-PhaseStep s c (other k) v h = unfold apply in cc

apply_payload_ne :
    (s : RunState) (c d : ℕ) (x : Payload) {t : RunState}
    → c ≢ d
    → apply s (record { conn_id = c; payload = x }) ≡ ok t
    → phase t d ≡ phase s d
unfolding apply
apply_payload_ne s c d (hello_event m) n h =
    let (fresh, room, added) = apply_hello-eq-ok s c m h in
    elim added [
      | inl (neg, e) ↦ rw e (phase-insert_ne s c d (new_participant c m) n)
      | inr (neg, new, e) ↦ rw e (phase-insert_ne s c d (new_participant c m) n)
    ]
apply_payload_ne s c d (ready_event m) n h =
    let (p, e, r, q) = apply_ready-eq-ok s c m h in rw q (phase-insert_ne s c d _ n)
apply_payload_ne s c d (ack_event m) n h =
    let (p, e, r, a, b, q) = apply_ack-eq-ok s c m h in rw q (phase-insert_ne s c d _ n)
apply_payload_ne s c d (rate_event m) n h =
    let (p, e, r, q) = apply_rate-eq-ok s c m h in rw q (phase-insert_ne s c d _ n)
apply_payload_ne s c d (window_ack_event m) n h =
    let (p, e, r, q) = apply_window_ack-eq-ok s c m h in rw q refl
apply_payload_ne s c d (done_event m) n h =
    let (p, e, r, a, q) = apply_done-eq-ok s c m h in rw q (phase-insert_ne s c d _ n)
apply_payload_ne s c d (other k) n h = cc

-- An accepted message moves the machine of its connection by the step that belongs to the
-- message, and moves the machine of no other connection.
pub apply-PhaseStep :
    (s : RunState) (e : Event) {t : RunState}
    → StateInv s
    → apply s e ≡ ok t
    → PhaseStep e.payload (phase s e.conn_id) (phase t e.conn_id)
      × ((d : ℕ) → phase t d ≡ (if e.conn_id == d then phase t e.conn_id else phase s d))
apply-PhaseStep s e {t} v h = (
  apply_payload-PhaseStep s e.conn_id e.payload v h,
  λ d. elim (Bool-cases (e.conn_id == d)) [
    | inl same ↦ rw same (ap (phase t) (sym ((==_iff e.conn_id d).0 same)))
    | inr differ ↦
        rw differ (
          apply_payload_ne s e.conn_id d e.payload (λ q. ground (arith, (==_iff e.conn_id d).1 q))
            h)
  ],
)

abbrev pub accepts : Applied → Bool
accepts (ok s) = true
accepts (err e) = false

abbrev pub is_phase : Phase → Phase → Bool
is_phase greeted greeted = true
is_phase readied readied = true
is_phase acked acked = true
is_phase _ _ = false

-- A ready is accepted exactly from a greeted participant, an acknowledgement exactly from a ready
-- one once the schedule is out, and done exactly from one that acknowledged.
pub apply-accepts :
    (s : RunState) (c : ℕ) (r : ReadyMessage) (a : SchedAckMessage) (d : DoneMessage)
    → StateInv s
    → (accepts (apply s (record { conn_id = c; payload = ready_event r }))
        ≡ is_phase (phase s c) greeted)
      × (accepts (apply s (record { conn_id = c; payload = ack_event a }))
          ≡ (is_phase (phase s c) readied && s.schedule_sent))
      × (accepts (apply s (record { conn_id = c; payload = done_event d }))
          ≡ is_phase (phase s c) acked)
unfolding apply apply_ready apply_ack apply_done
apply-accepts s c r a d v = elim (Option-cases (lookup c s.participants)) [
  | inl e ↦ (ground arith, ground arith, ground arith)
  | inr (p, e) ↦
      let g = v.each c p e in
      (
        ground (arith, g.acked_ready, g.done_acked),
        ground (arith, g.acked_ready, g.done_acked),
        ground (arith, g.acked_ready, g.done_acked),
      )
]
