-- ===== src/Control/State/Frame.antt =====
-- What `apply` leaves alone: the schedule and all that the stages own.
use rudp_bench.Common.{ℕ, ◌≡◌, refl, List, Bool, inl, inr}
use rudp_bench.Control.Messages.{Participant, InvalidReason}
use rudp_bench.Control.State.{
  RunState, RateTrack, Event, Payload, ok, hello_event, ready_event, ack_event, rate_event,
  window_ack_event, done_event, other, apply,
}
use rudp_bench.Control.State.Accept.{
  apply_hello-eq-ok, apply_ready-eq-ok, apply_ack-eq-ok, apply_rate-eq-ok, apply_window_ack-eq-ok,
  apply_done-eq-ok,
}

pub record Frame (s t : RunState) : Type 0 where
  pub same_expected : t.expected ≡ s.expected
  pub same_schedule : t.schedule ≡ s.schedule
  pub same_sent : t.schedule_sent ≡ s.schedule_sent
  pub same_issued : t.schedule_issued_ns ≡ s.schedule_issued_ns
  pub same_window_sent : t.window_sent ≡ s.window_sent
  pub same_enabled : t.steady_enabled ≡ s.steady_enabled
  pub same_reached : t.steady_reached ≡ s.steady_reached

Frame-update :
    (s : RunState) (ps : List (ℕ × Participant)) (keys : List (List ℕ × ℕ))
    (reasons : List InvalidReason) (rates : List (ℕ × RateTrack)) (acked : List (ℕ × Bool))
    → Frame s (record s {
      participants = ps;
      proc_index = keys;
      invalid = reasons;
      rates = rates;
      window_acked = acked;
    })
Frame-update s ps keys reasons rates acked = record {
  same_expected = refl;
  same_schedule = refl;
  same_sent = refl;
  same_issued = refl;
  same_window_sent = refl;
  same_enabled = refl;
  same_reached = refl;
}

apply_payload-Frame :
    (s : RunState) (c : ℕ) (m : Payload) {t : RunState}
    → apply s (record { conn_id = c; payload = m }) ≡ ok t
    → Frame s t
unfolding apply
apply_payload-Frame s c (hello_event m) h =
    let (fresh, room, added) = apply_hello-eq-ok s c m h in
    elim added [
      | inl (neg, e) ↦ rw e (Frame-update s _ _ _ _ _)
      | inr (neg, new, e) ↦ rw e (Frame-update s _ _ _ _ _)
    ]
apply_payload-Frame s c (ready_event m) h =
    let (p, e, r, q) = apply_ready-eq-ok s c m h in rw q (Frame-update s _ _ _ _ _)
apply_payload-Frame s c (ack_event m) h =
    let (p, e, r, a, b, q) = apply_ack-eq-ok s c m h in rw q (Frame-update s _ _ _ _ _)
apply_payload-Frame s c (rate_event m) h =
    let (p, e, r, q) = apply_rate-eq-ok s c m h in rw q (Frame-update s _ _ _ _ _)
apply_payload-Frame s c (window_ack_event m) h =
    let (p, e, r, q) = apply_window_ack-eq-ok s c m h in rw q (Frame-update s _ _ _ _ _)
apply_payload-Frame s c (done_event m) h =
    let (p, e, r, a, q) = apply_done-eq-ok s c m h in rw q (Frame-update s _ _ _ _ _)
apply_payload-Frame s c (other k) h = cc

-- No message changes the schedule, or what the stages have recorded.
pub apply-Frame : (s : RunState) (e : Event) {t : RunState} → apply s e ≡ ok t → Frame s t
apply-Frame s e h = apply_payload-Frame s e.conn_id e.payload h
