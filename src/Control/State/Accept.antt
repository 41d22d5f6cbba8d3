-- ===== src/Control/State/Accept.antt =====
-- When `apply` accepts a message, and the state that it then leaves.
use rudp_bench.Common.{
  ℕ, suc, ◌≡◌, true, false, [], ◌∷◌, ◌++◌, none, some, pos, ltb_ℤ, leb_ℤ, if◌then◌else◌, length,
  lookup, insert, str_eq, arith, ◌⊎◌, inl, inr, Option-cases,
}
use rudp_bench.Control.Messages.{
  HelloMessage, ReadyMessage, SchedAckMessage, RateMessage, WindowAckMessage, DoneMessage,
  Participant, negative_schedule_margin, negative_window_margin,
}
use rudp_bench.Control.ProcKey.{proc_key, lookup_key}
use rudp_bench.Control.State.{
  RunState, ok, new_participant, track_of, push_rate, apply_hello, apply_ready, apply_ack,
  apply_rate, apply_window_ack, apply_done,
}

-- A first hello while there is room, under a process index that no one of the role has.
pub apply_hello-eq-ok :
    (s : RunState) (c : ℕ) (m : HelloMessage) {t : RunState}
    → apply_hello s c m ≡ ok t
    → (lookup c s.participants ≡ none)
      × (leb_ℤ s.expected (pos (length s.participants)) ≡ false)
      × (((ltb_ℤ m.proc_index (pos 0) ≡ true)
            × (t ≡ record s { participants = insert c (new_participant c m) s.participants }))
          ⊎ ((ltb_ℤ m.proc_index (pos 0) ≡ false)
              × (lookup_key (proc_key m.role m.proc_index) s.proc_index ≡ none)
              × (t ≡ record s {
                participants = insert c (new_participant c m) s.participants;
                proc_index = (proc_key m.role m.proc_index, c) ∷ s.proc_index;
              })))
unfolding apply_hello
apply_hello-eq-ok s c m h = ground arith

pub apply_ready-eq-ok :
    (s : RunState) (c : ℕ) (m : ReadyMessage) {t : RunState}
    → apply_ready s c m ≡ ok t
    → (p : Participant) × (lookup c s.participants ≡ some p)
      × (p.ready_received ≡ false)
      × (t ≡ record s {
        participants = insert c (record p { ready = m; ready_received = true }) s.participants;
      })
unfolding apply_ready
apply_ready-eq-ok s c m h = elim (Option-cases (lookup c s.participants)) [
  | inl e ↦ absurd (ground arith)
  | inr (p, e) ↦ (p, e, ground arith, ground arith)
]

pub apply_ack-eq-ok :
    (s : RunState) (c : ℕ) (m : SchedAckMessage) {t : RunState}
    → apply_ack s c m ≡ ok t
    → (p : Participant) × (lookup c s.participants ≡ some p)
      × (p.ready_received ≡ true)
      × (s.schedule_sent ≡ true)
      × (p.ack_received ≡ false)
      × (t ≡ record s {
        participants = insert c (record p { sched_ack = m; ack_received = true }) s.participants;
        invalid =
            if ltb_ℤ m.margin_ns (pos 0)
            then s.invalid
              ++ negative_schedule_margin p.hello.role p.hello.proc_index p.hello.pid m.margin_ns
                ∷ []
            else s.invalid;
      })
unfolding apply_ack
apply_ack-eq-ok s c m h = elim (Option-cases (lookup c s.participants)) [
  | inl e ↦ absurd (ground arith)
  | inr (p, e) ↦ (p, e, ground arith, ground arith, ground arith, ground arith)
]

pub apply_rate-eq-ok :
    (s : RunState) (c : ℕ) (m : RateMessage) {t : RunState}
    → apply_rate s c m ≡ ok t
    → (p : Participant) × (lookup c s.participants ≡ some p)
      × (str_eq p.hello.role "client" ≡ true)
      × (t ≡ record s {
        rates = insert c (push_rate (track_of (lookup c s.rates)) m) s.rates;
        participants = insert c (record p { rate_reports = suc p.rate_reports }) s.participants;
      })
unfolding apply_rate
apply_rate-eq-ok s c m h = elim (Option-cases (lookup c s.participants)) [
  | inl e ↦ absurd (ground arith)
  | inr (p, e) ↦ (p, e, ground arith, ground arith)
]

pub apply_window_ack-eq-ok :
    (s : RunState) (c : ℕ) (m : WindowAckMessage) {t : RunState}
    → apply_window_ack s c m ≡ ok t
    → (p : Participant) × (lookup c s.participants ≡ some p)
      × (lookup c s.window_acked ≡ none)
      × (t ≡ record s {
        window_acked = insert c true s.window_acked;
        invalid =
            if ltb_ℤ m.margin_ns (pos 0)
            then s.invalid
              ++ negative_window_margin p.hello.role p.hello.proc_index p.hello.pid m.margin_ns ∷ []
            else s.invalid;
      })
unfolding apply_window_ack
apply_window_ack-eq-ok s c m h = elim (Option-cases (lookup c s.participants)) [
  | inl e ↦ absurd (ground arith)
  | inr (p, e) ↦ (p, e, ground arith, ground arith)
]

pub apply_done-eq-ok :
    (s : RunState) (c : ℕ) (m : DoneMessage) {t : RunState}
    → apply_done s c m ≡ ok t
    → (p : Participant) × (lookup c s.participants ≡ some p)
      × (p.ack_received ≡ true)
      × (p.done_received ≡ false)
      × (t ≡ record s {
        participants = insert c (record p { done = m; done_received = true }) s.participants;
      })
unfolding apply_done
apply_done-eq-ok s c m h = elim (Option-cases (lookup c s.participants)) [
  | inl e ↦ absurd (ground arith)
  | inr (p, e) ↦ (p, e, ground arith, ground arith, ground arith)
]
