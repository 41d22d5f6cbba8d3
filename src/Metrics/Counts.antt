-- ===== src/Metrics/Counts.antt =====
-- orchestrator/run/metrics.go: the counts of a class or a traffic, and the numbers made of them.
pub mod Laws
use rudp_bench.Common.{
  ℕ, ◌+◌, ◌*◌, ◌%◌, String, Option, none, some, List, [], ◌∷◌, ℤ, pos, pos_part, ltb, ltb_ℤ, ◌==◌,
  not, if◌then◌else◌, add_u64, sub_u64, mul_u64, u64_mod, Float64,
}
use rudp_bench.Metrics.Types.{
  ClassCounts, MetricsError, broadcast_exceeds, submitted_exceeds, deadline_hit_exceeds,
  observed_exceeds, never_received_differs,
}

unfoldable pub validate_class_counts : ClassCounts → Option MetricsError
validate_class_counts c =
    if ltb c.slots c.slots_broadcast
    then some (broadcast_exceeds c.slots_broadcast c.slots)
    else if ltb c.slots c.submitted
    then some (submitted_exceeds c.submitted c.slots)
    else if ltb c.delivered_unique c.deadline_hit
    then some (deadline_hit_exceeds c.deadline_hit c.delivered_unique)
    else if ltb c.expected_flows c.observed_flows
    then some (observed_exceeds c.observed_flows c.expected_flows)
    else if not (c.never_received_flows == sub_u64 c.expected_flows c.observed_flows)
    then some
        (never_received_differs c.never_received_flows (sub_u64 c.expected_flows c.observed_flows))
    else none

unfoldable pub add_class_counts : ClassCounts → ClassCounts → ClassCounts
add_class_counts a b = record {
  slots = add_u64 a.slots b.slots;
  slots_broadcast = add_u64 a.slots_broadcast b.slots_broadcast;
  submitted = add_u64 a.submitted b.submitted;
  delivered_unique = add_u64 a.delivered_unique b.delivered_unique;
  duplicates = add_u64 a.duplicates b.duplicates;
  deadline_hit = add_u64 a.deadline_hit b.deadline_hit;
  expected_flows = add_u64 a.expected_flows b.expected_flows;
  observed_flows = add_u64 a.observed_flows b.observed_flows;
  never_received_flows = add_u64 a.never_received_flows b.never_received_flows;
}

-- The first entry whose two numbers differ.
unfoldable pub first_difference : List (String × ℕ × ℕ) → Option (String × ℕ × ℕ)
first_difference [] = none
first_difference ((name, got, want) ∷ fields) =
    if not (got == want) then some (name, got, want) else first_difference fields

unfoldable pub first_class_count_mismatch : ClassCounts → ClassCounts → Option (String × ℕ × ℕ)
unfolding first_difference
first_class_count_mismatch got want = first_difference (
    ("slots", got.slots, want.slots)
    ∷ ("slots_broadcast", got.slots_broadcast, want.slots_broadcast)
    ∷ ("submitted", got.submitted, want.submitted)
    ∷ ("delivered_unique", got.delivered_unique, want.delivered_unique)
    ∷ ("duplicates", got.duplicates, want.duplicates)
    ∷ ("deadline_hit", got.deadline_hit, want.deadline_hit)
    ∷ ("expected_flows", got.expected_flows, want.expected_flows)
    ∷ ("observed_flows", got.observed_flows, want.observed_flows)
    ∷ ("never_received_flows", got.never_received_flows, want.never_received_flows)
    ∷ [])

-- A negative number of connections counts as none.
unfoldable pub expected_receives : ℕ → ℕ → ℤ → ℕ
expected_receives slots broadcast_slots total_conns =
    add_u64 (sub_u64 slots broadcast_slots)
      (mul_u64 broadcast_slots (if ltb_ℤ total_conns (pos 0) then 0 else pos_part total_conns))

unfoldable pub ratio_or_one : (f : Float64) → ℕ → ℕ → f.Real
ratio_or_one f num den = if den == 0 then f.of_nat 1 else f.fdiv (f.of_nat num) (f.of_nat den)
