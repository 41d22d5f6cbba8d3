-- ===== src/Metrics/Histogram/Percentiles.antt =====
-- Which bin the search for the rank of a percentile finds.
use rudp_bench.Common.{
  ℕ, suc, ◌+◌, ◌≤◌, ◌<◌, ◌≡◌, List, [], ◌∷◌, arith, inl, inr, length, take, leb, add_u64, u64_mod,
  Bool-cases, ap, ◌∙◌,
}
use rudp_bench.Metrics.Types.{HistogramLayout}
use rudp_bench.Metrics.Histogram.{histogram_bin_upper_ns, find_rank}
use rudp_bench.Metrics.Histogram.Sums.{total}

-- Where the bins do not overflow, the loop stops at the one bin that holds the entry of the rank.
pub find_rank_lem :
    (layout : HistogramLayout) (bins rank index cumulative : ℕ) (vs : List ℕ)
    → cumulative + total vs < u64_mod
    → cumulative < rank
    → rank ≤ cumulative + total vs
    → (i : ℕ) × (i < length vs)
      × (cumulative + total (take i vs) < rank)
      × (rank ≤ cumulative + total (take (suc i) vs))
      × (find_rank layout bins rank index cumulative vs
          ≡ histogram_bin_upper_ns layout (index + i) bins)
unfolding find_rank
find_rank_lem layout bins rank index cumulative [] fit h k = absurd (omega arith)
find_rank_lem layout bins rank index cumulative (v ∷ vs) fit h k =
    elim (Bool-cases (leb rank (add_u64 cumulative v))) [
      | inl e ↦ (
        0,
        omega arith,
        omega arith,
        ground arith,
        rw e (ap (λ (j : ℕ). histogram_bin_upper_ns layout j bins) (omega arith)),
      )
      | inr e ↦
          let exact : add_u64 cumulative v ≡ cumulative + v = omega arith in
          let (i, below, before, upto, q) =
            find_rank_lem layout bins rank (suc index) (add_u64 cumulative v) vs
              (omega (arith, exact)) (ground arith) (omega (arith, exact)) in
          (
            suc i,
            omega (arith, below),
            omega (arith, before, exact),
            omega (arith, upto, exact),
            rw e (q ∙ ap (λ (j : ℕ). histogram_bin_upper_ns layout j bins) (omega arith)),
          )
    ]
