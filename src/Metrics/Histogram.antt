-- ===== src/Metrics/Histogram.antt =====
-- orchestrator/run/metrics.go: the histograms, their bins, percentiles and sums. Subbins is not 0 in
-- a file that the validation accepts; Go panics on a division by 0.
pub mod Sums
pub mod Parts
pub mod Bounds
pub mod Percentiles
use rudp_bench.Common.{
  ℕ, zero, suc, ◌+◌, ◌*◌, ◌/◌, ◌%◌, ◌^◌, ◌-◌, Bool, ◌&&◌, ◌||◌, not, Option, none, some, List, [],
  ◌∷◌, ltb, leb, ◌==◌, str_eq, if◌then◌else◌, length, replicate, add_u64, sub_u64, mul_u64, u64_mod,
  Float64,
}
use rudp_bench.Metrics.Types.{
  Histogram, HistogramLayout, MetricsError, Checked, ok, failed, layout_mismatch, bins_missing,
  bins_length, count_differs, bin_differs, v2_histogram_bins,
}

-- `var count uint64; for _, v := range bins { count += v }`, from `count`.
unfoldable pub sum_bins : ℕ → List ℕ → ℕ
sum_bins count [] = count
sum_bins count (v ∷ bins) = sum_bins (add_u64 count v) bins

abbrev pub is_layout : Histogram → HistogramLayout → Bool
is_layout h layout =
    str_eq h.scheme layout.scheme && h.min_ns == layout.min_ns && h.max_ns == layout.max_ns

unfoldable pub validate_v2_histogram : Histogram → HistogramLayout → Option MetricsError
validate_v2_histogram h layout =
    if not (is_layout h layout)
    then some layout_mismatch
    else if not (length h.bins == v2_histogram_bins)
    then some (bins_length (length h.bins))
    else if not (h.count == sum_bins 0 h.bins)
    then some (count_differs h.count (sum_bins 0 h.bins))
    else none

-- `for i, v := range src { dst[i] += v }`, on slices of one length.
unfoldable pub add_bins : List ℕ → List ℕ → List ℕ
add_bins (x ∷ dst) (v ∷ src) = add_u64 x v ∷ add_bins dst src
add_bins _ _ = []

abbrev pub is_nil : List ℕ → Bool
is_nil bins = length bins == 0

-- `dst` with its layout and its zeros, where it has no bins yet.
unfoldable pub start_bins : Histogram → Histogram → HistogramLayout → Histogram
start_bins dst src layout =
    if is_nil dst.bins
    then record dst {
      scheme = layout.scheme;
      min_ns = layout.min_ns;
      max_ns = layout.max_ns;
      bins = replicate (length src.bins) 0;
    }
    else dst

unfoldable pub add_histogram : Histogram → Histogram → HistogramLayout → Checked Histogram
unfolding add_bins start_bins
add_histogram dst src layout =
    let start = start_bins dst src layout in
    if not (is_layout src layout)
    then failed layout_mismatch
    else if is_nil src.bins
    then failed bins_missing
    else if not (length start.bins == length src.bins)
    then failed (bins_length (length src.bins))
    else ok (record start {
      bins = add_bins start.bins src.bins;
      count = add_u64 start.count src.count;
    })

-- The sums over the parts of `validateHistogramSum`, with the error of a part of another length.
unfoldable pub sum_parts : List Histogram → ℕ → List ℕ → Checked (ℕ × List ℕ)
unfolding add_bins
sum_parts [] count expected = ok (count, expected)
sum_parts (part ∷ parts) count expected =
    if length part.bins == length expected
    then sum_parts parts (add_u64 count part.count) (add_bins expected part.bins)
    else failed (bins_length (length part.bins))

unfoldable pub compare_bins : List ℕ → List ℕ → Option MetricsError
compare_bins (value ∷ bins) (e ∷ expected) =
    if value == e then compare_bins bins expected else some (bin_differs value e)
compare_bins _ _ = none

unfoldable pub compare_sums : Histogram → Checked (ℕ × List ℕ) → Option MetricsError
unfolding compare_bins
compare_sums aggregate (failed e) = some e
compare_sums aggregate (ok (count, expected)) =
    if aggregate.count == count
    then compare_bins aggregate.bins expected
    else some (count_differs aggregate.count count)

unfoldable pub validate_histogram_sum : Histogram → List Histogram → Option MetricsError
unfolding sum_parts compare_sums
validate_histogram_sum aggregate parts =
    if length aggregate.bins == v2_histogram_bins
    then compare_sums aggregate (sum_parts parts 0 (replicate (length aggregate.bins) 0))
    else some (bins_length (length aggregate.bins))

abbrev pub max_u64 : ℕ
max_u64 = u64_mod - 1

-- `low` doubled `major` times, or the largest uint64 where a doubling would overflow.
unfoldable pub double_times : ℕ → ℕ → ℕ
double_times zero low = low
double_times (suc major) low =
    if ltb (max_u64 / 2) low then max_u64 else double_times major (low * 2)

-- The upper bound of the bin with an index below `bins`.
unfoldable pub histogram_bin_upper_ns : HistogramLayout → ℕ → ℕ → ℕ
unfolding double_times
histogram_bin_upper_ns layout index bins =
    let low = double_times (index / layout.subbins) layout.min_ns in
    let sub = index % layout.subbins in
    let upper =
      add_u64 low (sub_u64 (add_u64 (mul_u64 low (sub + 1)) layout.subbins) 1 / layout.subbins) in
    if index == 0
    then layout.min_ns
    else if leb bins (index + 1)
    then layout.max_ns
    else if ltb layout.max_ns upper
    then layout.max_ns
    else upper

-- The loop over the bins from `index` on, with the number of entries before it.
unfoldable pub find_rank : HistogramLayout → ℕ → ℕ → ℕ → ℕ → List ℕ → ℕ
unfolding histogram_bin_upper_ns
find_rank layout bins rank index cumulative [] = layout.max_ns
find_rank layout bins rank index cumulative (v ∷ vs) =
    let rest = find_rank layout bins rank (suc index) (add_u64 cumulative v) vs in
    if leb rank (add_u64 cumulative v) then histogram_bin_upper_ns layout index bins else rest

module _ (f : Float64) where
  open f use {Real, of_nat, decimal, fmul, flt, ceil_u64}

  abbrev pub clamp : Real → Real
  clamp p = if flt p (of_nat 0) then of_nat 0 else if flt (of_nat 1) p then of_nat 1 else p

  -- The rank of a percentile among `count` entries, from 1.
  unfoldable pub rank_of : ℕ → Real → ℕ
  rank_of count p =
      let rank = ceil_u64 (fmul (of_nat count) (clamp p)) in if rank == 0 then 1 else rank

  unfoldable pub histogram_percentile : Histogram → HistogramLayout → Real → ℕ
  unfolding find_rank rank_of
  histogram_percentile h layout p =
      if h.count == 0 then 0 else find_rank layout (length h.bins) (rank_of h.count p) 0 0 h.bins

  -- The layout, the count and the percentiles are set.
  unfoldable pub finalize_histogram : Histogram → HistogramLayout → Histogram
  unfolding histogram_percentile sum_bins
  finalize_histogram h layout =
      let start : Histogram =
        if is_nil h.bins
        then record h {
          scheme = layout.scheme;
          min_ns = layout.min_ns;
          max_ns = layout.max_ns;
          bins = [];
        }
        else h in
      let counted : Histogram = record start { count = sum_bins 0 start.bins } in
      record counted {
        p50_ns = histogram_percentile counted layout (decimal 1 2);
        p90_ns = histogram_percentile counted layout (decimal 9 10);
        p99_ns = histogram_percentile counted layout (decimal 99 100);
      }
