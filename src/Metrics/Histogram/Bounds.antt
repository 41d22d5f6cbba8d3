-- ===== src/Metrics/Histogram/Bounds.antt =====
-- The upper bounds of the bins in the layout of version 2.
use rudp_bench.Common.{
  ℕ, zero, suc, ◌+◌, ◌-◌, ◌≤◌, ◌<◌, ◌≡◌, refl, ap, Bool, true, ◌&&◌, arith, leb,
}
use rudp_bench.Metrics.Types.{HistogramLayout}
use rudp_bench.Metrics.Histogram.{histogram_bin_upper_ns, double_times}

abbrev pub v2_layout : HistogramLayout
v2_layout = record { scheme = "log2x16"; subbins = 16; min_ns = 1000; max_ns = 100000000000 }

abbrev pub v2_upper : ℕ → ℕ
v2_upper index = histogram_bin_upper_ns v2_layout index 448

-- Whether the bounds of the first `n` + 1 bins never go down.
unfoldable ascending : ℕ → Bool
ascending zero = true
ascending (suc n) = leb (v2_upper n) (v2_upper (suc n)) && ascending n

v2_ascending : ascending 447 ≡ true
unfolding ascending histogram_bin_upper_ns double_times
v2_ascending = refl

ascending-step : (n i : ℕ) → ascending n ≡ true → i < n → v2_upper i ≤ v2_upper (suc i)
unfolding ascending
ascending-step zero i h k = absurd (omega arith)
ascending-step (suc n) i h k = ground (arith, ascending-step n i)

v2_ends : (v2_upper 0 ≡ 1000) × (v2_upper 447 ≡ 100000000000)
unfolding histogram_bin_upper_ns double_times
v2_ends = (refl, refl)

ascending-all : (d i j : ℕ) → j ≡ i + d → j ≤ 447 → v2_upper i ≤ v2_upper j
ascending-all zero i j e h =
    let same : v2_upper i ≡ v2_upper j = ap v2_upper (omega arith) in omega (arith, same)
ascending-all (suc d) i j e h =
    let same : v2_upper (suc (i + d)) ≡ v2_upper j = ap v2_upper (omega arith) in
    omega (
      arith,
      same,
      ascending-all d i (i + d) refl (omega arith),
      ascending-step 447 (i + d) v2_ascending (omega arith),
    )

-- In the layout of version 2 the bounds of the 448 bins never go down, from the layout's minimum
-- to its maximum.
pub v2_upper_ascends :
    (i j : ℕ)
    → i ≤ j
    → j < 448
    → (1000 ≤ v2_upper i) × (v2_upper i ≤ v2_upper j) × (v2_upper j ≤ 100000000000)
v2_upper_ascends i j h k = (
  omega (arith, ascending-all i 0 i (omega arith) (omega arith), v2_ends.0),
  ascending-all (j - i) i j (omega arith) (omega arith),
  omega (arith, ascending-all (447 - j) j 447 (omega arith) (omega arith), v2_ends.1),
)
