-- ===== src/Metrics/Tests.antt =====
-- Counts and histograms, and their theorems on them.
use rudp_bench.Common.{
  ℕ, ◌+◌, ◌≤◌, ◌<◌, ◌≡◌, ◌%◌, u64_mod, length, All, refl, [], ◌∷◌, arith, suc, take, replicate,
}
use rudp_bench.Metrics.Types.{Histogram, ClassCounts, RawCounts}
use rudp_bench.Metrics.Counts.Laws.{CountsWell}
use rudp_bench.Metrics.Histogram.{
  add_bins, sum_parts, compare_bins, compare_sums, validate_histogram_sum, histogram_bin_upper_ns,
  find_rank,
}
use rudp_bench.Metrics.Histogram.Sums.{total}
use rudp_bench.Metrics.Histogram.Parts.{bin_at, sum_over_parts, validate_histogram_sum-sums}
use rudp_bench.Metrics.Histogram.Bounds.{v2_layout, v2_upper, v2_upper_ascends}
use rudp_bench.Metrics.Histogram.Percentiles.{find_rank_lem}

abbrev pub counts : ClassCounts
counts = record {
  slots = 10;
  slots_broadcast = 4;
  submitted = 9;
  delivered_unique = 12;
  duplicates = 1;
  deadline_hit = 11;
  expected_flows = 3;
  observed_flows = 2;
  never_received_flows = 1;
}

counts_well : CountsWell counts
counts_well = record {
  broadcast = omega arith;
  submits = omega arith;
  hits = omega arith;
  flows = refl;
}

abbrev pub raw : RawCounts
raw = record {
  slots = 10;
  submitted = 9;
  recv_measured = 12;
  recv_unmeasured = 2;
  timestamp_order_violations = 0;
}

-- A version 2 histogram with three entries in its first two bins.
abbrev pub filled : Histogram
filled = record {
  scheme = "log2x16";
  min_ns = 1000;
  max_ns = 100000000000;
  count = 3;
  p50_ns = 0;
  p90_ns = 0;
  p99_ns = 0;
  bins = 1 ∷ 2 ∷ replicate 446 0;
}

abbrev pub empty : Histogram
empty = record filled { count = 0; bins = replicate 448 0 }

abbrev twice : Histogram
twice = record filled { count = 6; bins = 2 ∷ 4 ∷ replicate 446 0 }

validate_histogram_sum-sums_example :
    (length twice.bins ≡ 448)
    × All (λ (p : Histogram). length p.bins ≡ 448) (filled ∷ filled ∷ [])
    × (twice.count ≡ sum_over_parts (λ p. p.count) (filled ∷ filled ∷ []) % u64_mod)
    × (bin_at 1 twice.bins ≡ sum_over_parts (λ p. bin_at 1 p.bins) (filled ∷ filled ∷ []) % u64_mod)
unfolding validate_histogram_sum sum_parts compare_sums compare_bins add_bins
validate_histogram_sum-sums_example =
    validate_histogram_sum-sums twice (filled ∷ filled ∷ []) 1 refl

v2_upper_ascends_example :
    (1000 ≤ v2_upper 5) × (v2_upper 5 ≤ v2_upper 30) × (v2_upper 30 ≤ 100000000000)
v2_upper_ascends_example = v2_upper_ascends 5 30 (omega arith) (omega arith)

find_rank_lem_example :
    (i : ℕ) × (i < 3)
    × (0 + total (take i (1 ∷ 2 ∷ 3 ∷ [])) < 2)
    × (2 ≤ 0 + total (take (suc i) (1 ∷ 2 ∷ 3 ∷ [])))
    × (find_rank v2_layout 448 2 0 0 (1 ∷ 2 ∷ 3 ∷ [])
        ≡ histogram_bin_upper_ns v2_layout (0 + i) 448)
find_rank_lem_example =
    find_rank_lem v2_layout 448 2 0 0 (1 ∷ 2 ∷ 3 ∷ []) (omega arith) (omega arith) (omega arith)
