-- ===== src/Control/Report.antt =====
-- orchestrator/control/server.go: the counts of `runState`, `sortedParticipants` and `result`.
pub mod Sorted
use rudp_bench.Common.{
  ℕ, ◌+◌, Bool, true, false, ◌&&◌, ◌||◌, List, [], ◌∷◌, ◌++◌, Option, none, some, ℤ, pos, ltb, leb,
  ltb_ℤ, eqb_ℤ, if◌then◌else◌, length, count, lookup, ◌-i64◌,
}
use rudp_bench.Control.Messages.{Participant, InvalidReason, Result}
use rudp_bench.Control.State.{RunState, RateTrack}

abbrev pub window_ack_count : RunState → ℕ
window_ack_count s = length s.window_acked

abbrev pub hello_count : RunState → ℕ
hello_count s = length s.participants

abbrev pub ready_count : RunState → ℕ
ready_count s = count (λ e. e.1.ready_received) s.participants

abbrev pub ack_count : RunState → ℕ
ack_count s = count (λ e. e.1.ack_received) s.participants

abbrev pub done_count : RunState → ℕ
done_count s = count (λ e. e.1.done_received) s.participants

-- The comparison that `sort.Slice` is given.
unfoldable pub comes_before : Participant → Participant → Bool
comes_before p q =
    if eqb_ℤ p.hello.proc_index q.hello.proc_index
    then ltb p.conn_id q.conn_id
    else ltb_ℤ p.hello.proc_index q.hello.proc_index

-- `sort.Slice`, as an insertion sort: no two participants are equal under the comparison, so
-- every sort gives the same list.
unfoldable pub insert_sorted : Participant → List Participant → List Participant
insert_sorted p [] = p ∷ []
insert_sorted p (q ∷ qs) = if comes_before p q then p ∷ q ∷ qs else q ∷ insert_sorted p qs

unfoldable pub sort_participants : List Participant → List Participant
unfolding insert_sorted
sort_participants [] = []
sort_participants (p ∷ ps) = insert_sorted p (sort_participants ps)

abbrev pub with_rates : Participant → Option RateTrack → Participant
with_rates p none = p
with_rates p (some t) = record p { rate_d_sent = t.d_sent; rate_d_recv = t.d_recv }

abbrev pub copies : List (ℕ × RateTrack) → List (ℕ × Participant) → List Participant
copies rates [] = []
copies rates ((c, p) ∷ ps) = with_rates p (lookup c rates) ∷ copies rates ps

unfoldable pub sorted_participants : RunState → List Participant
unfolding sort_participants
sorted_participants s = sort_participants (copies s.rates s.participants)

unfoldable pub done_stats : List Participant → List (List ℕ)
done_stats [] = []
done_stats (p ∷ ps) = if p.done_received then p.done.stats ∷ done_stats ps else done_stats ps

abbrev pub is_empty : List InvalidReason → Bool
is_empty [] = true
is_empty _ = false

unfoldable pub result : RunState → Result
unfolding sorted_participants done_stats
result s = record {
  valid = is_empty s.invalid;
  invalid_reasons = s.invalid;
  schedule = s.schedule;
  participants = sorted_participants s;
  stats = done_stats (sorted_participants s);
  steady_enabled = s.steady_enabled;
  steady_reached = s.steady_reached;
  warmup_actual_ns =
      if ltb_ℤ (pos 0) s.schedule_issued_ns && ltb_ℤ s.schedule_issued_ns s.schedule.start_at_ns
      then s.schedule.start_at_ns -i64 s.schedule_issued_ns
      else pos 0;
}
