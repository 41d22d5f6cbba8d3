-- ===== src/Metrics/Counts/Laws.antt =====
-- What the counts' validation means, and that sums keep it.
use rudp_bench.Common.{
  ℕ, ◌+◌, ◌-◌, ◌*◌, ◌≤◌, ◌<◌, ◌≡◌, ◌↔◌, none, ◌%◌, ℤ, pos, negsuc, pos_part, sub_u64, ltb_ℤ,
  if◌then◌else◌, arith, u64_mod,
}
use rudp_bench.Metrics.Types.{ClassCounts}
use rudp_bench.Metrics.Counts.{
  validate_class_counts, add_class_counts, first_difference, first_class_count_mismatch,
  expected_receives,
}

-- Every slot that is counted as broadcast or submitted is a slot, every hit is a delivery, and an
-- expected flow is observed or never received.
pub record CountsWell (c : ClassCounts) : Type 0 where
  pub broadcast : c.slots_broadcast ≤ c.slots
  pub submits : c.submitted ≤ c.slots
  pub hits : c.deadline_hit ≤ c.delivered_unique
  pub flows : c.observed_flows + c.never_received_flows ≡ c.expected_flows

-- The fields are uint64.
pub record InU64 (c : ClassCounts) : Type 0 where
  pub expected_small : c.expected_flows < u64_mod
  pub never_small : c.never_received_flows < u64_mod

-- The validation of counts accepts exactly those that are well formed.
pub validate_class_counts_iff :
    (c : ClassCounts) → InU64 c → (validate_class_counts c ≡ none) ↔ CountsWell c
unfolding validate_class_counts
validate_class_counts_iff c v = (accepts, refuses_no)
  where
    accepts : validate_class_counts c ≡ none → CountsWell c
    accepts h = record {
      broadcast = ground arith;
      submits = ground arith;
      hits = ground arith;
      flows = ground (arith, v.expected_small, v.never_small);
    }

    refuses_no : CountsWell c → validate_class_counts c ≡ none
    refuses_no w =
        ground (arith, w.broadcast, w.submits, w.hits, w.flows, v.expected_small, v.never_small)

-- What accepted counts show, whatever their size: a flow is observed or never received, in uint64.
pub record CountsShown (c : ClassCounts) : Type 0 where
  pub broadcast : c.slots_broadcast ≤ c.slots
  pub submits : c.submitted ≤ c.slots
  pub hits : c.deadline_hit ≤ c.delivered_unique
  pub observed : c.observed_flows ≤ c.expected_flows
  pub flows : (c.observed_flows + c.never_received_flows) % u64_mod ≡ c.expected_flows % u64_mod

pub validate_class_counts-CountsShown :
    (c : ClassCounts) → validate_class_counts c ≡ none → CountsShown c
unfolding validate_class_counts
validate_class_counts-CountsShown c h =
    let observed : c.observed_flows ≤ c.expected_flows = ground arith in
    let never : c.never_received_flows ≡ sub_u64 c.expected_flows c.observed_flows = ground arith in
    record {
      broadcast = ground arith;
      submits = ground arith;
      hits = ground arith;
      observed = observed;
      flows = omega (arith, observed, never);
    }

-- The sums of two counts that stay below 2^64.
pub record SumFits (a b : ClassCounts) : Type 0 where
  pub slots_fit : a.slots + b.slots < u64_mod
  pub delivered_fit : a.delivered_unique + b.delivered_unique < u64_mod
  pub flows_fit : a.expected_flows + b.expected_flows < u64_mod

-- Well-formed counts whose sums fit in 64 bits have a well-formed sum.
pub add_class_counts-CountsWell :
    (a b : ClassCounts)
    → SumFits a b
    → CountsWell a
    → CountsWell b
    → CountsWell (add_class_counts a b)
unfolding add_class_counts
add_class_counts-CountsWell a b fit v w = record {
  broadcast = omega (arith, fit.slots_fit, v.broadcast, w.broadcast);
  submits = omega (arith, fit.slots_fit, v.submits, w.submits);
  hits = omega (arith, fit.delivered_fit, v.hits, w.hits);
  flows = omega (arith, fit.flows_fit, v.flows, w.flows);
}

pub add_class_counts_comm : (a b : ClassCounts) → add_class_counts a b ≡ add_class_counts b a
unfolding add_class_counts
add_class_counts_comm a b = ground arith

pub add_class_counts_assoc :
    (a b c : ClassCounts)
    → add_class_counts (add_class_counts a b) c ≡ add_class_counts a (add_class_counts b c)
unfolding add_class_counts
add_class_counts_assoc a b c = ground arith

-- No field differs exactly where the counts are equal.
pub first_class_count_mismatch_iff :
    (got want : ClassCounts) → (first_class_count_mismatch got want ≡ none) ↔ (got ≡ want)
unfolding first_class_count_mismatch first_difference
first_class_count_mismatch_iff got want = ground arith

-- Where nothing overflows, a slot that is broadcast is received by each of the connections, and
-- any other by one.
pub expected_receives_exact :
    (slots broadcast : ℕ) (conns : ℕ)
    → broadcast ≤ slots
    → slots < u64_mod
    → (slots - broadcast) + broadcast * conns < u64_mod
    → expected_receives slots broadcast (pos conns) ≡ (slots - broadcast) + broadcast * conns
unfolding expected_receives
expected_receives_exact slots broadcast conns h k fit = ground arith

-- The expected receives of slots, a broadcast one with a receive for each connection, in uint64.
pub expected_receives_mod :
    (slots broadcast : ℕ) (conns : ℤ)
    → broadcast ≤ slots
    → expected_receives slots broadcast conns
      ≡ ((slots - broadcast) + broadcast * pos_part conns) % u64_mod
unfolding expected_receives
expected_receives_mod slots broadcast (pos n) h =
    let conns : ◌≡◌ {A = ℕ} (if ltb_ℤ (pos n) (pos 0) then 0 else n) n = ground arith in
    rw conns (omega (arith, h))
expected_receives_mod slots broadcast (negsuc n) h =
    let conns : ◌≡◌ {A = ℕ} (if ltb_ℤ (negsuc n) (pos 0) then 0 else 0) 0 = ground arith in
    rw conns (omega (arith, h))
