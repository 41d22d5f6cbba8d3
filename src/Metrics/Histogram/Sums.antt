-- ===== src/Metrics/Histogram/Sums.antt =====
-- Sums of histograms: the count stays the number of entries in the bins.
use rudp_bench.Common.{
  ℕ, zero, suc, ◌+◌, ◌%◌, ◌<◌, ◌≡◌, refl, true, false, none, List, [], ◌∷◌, arith, inl, inr, ◌↔◌,
  length, replicate, add_u64, u64_mod, Bool-cases, str_eq-iff,
}
use rudp_bench.Metrics.Types.{Histogram, HistogramLayout, ok}
use rudp_bench.Metrics.Histogram.{
  sum_bins, is_layout, validate_v2_histogram, add_bins, is_nil, start_bins, add_histogram,
}

-- The number of entries, without a bound.
abbrev pub total : List ℕ → ℕ
total [] = 0
total (v ∷ bins) = v + total bins

pub sum_bins_lem :
    (count : ℕ) (bins : List ℕ)
    → count < u64_mod
    → sum_bins count bins ≡ (count + total bins) % u64_mod
unfolding sum_bins
sum_bins_lem count [] h = omega arith
sum_bins_lem count (v ∷ bins) h = omega (arith, sum_bins_lem (add_u64 count v) bins (omega arith))

-- The count of a histogram is the number of entries in its bins, in 64 bits.
abbrev pub Counted : Histogram → Type 0
Counted h = h.count ≡ total h.bins % u64_mod

pub record SameLayout (h : Histogram) (layout : HistogramLayout) : Type 0 where
  pub same_scheme : h.scheme ≡ layout.scheme
  pub same_min : h.min_ns ≡ layout.min_ns
  pub same_max : h.max_ns ≡ layout.max_ns

pub is_layout-SameLayout :
    (h : Histogram) (layout : HistogramLayout) → is_layout h layout ≡ true → SameLayout h layout
is_layout-SameLayout h layout e = record {
  same_scheme = (str_eq-iff h.scheme layout.scheme).0 (ground arith);
  same_min = ground arith;
  same_max = ground arith;
}

pub SameLayout-is_layout :
    (h : Histogram) (layout : HistogramLayout) → SameLayout h layout → is_layout h layout ≡ true
SameLayout-is_layout h layout v =
    ground (arith, (str_eq-iff h.scheme layout.scheme).1 v.same_scheme, v.same_min, v.same_max)

-- A version 2 histogram is accepted exactly if it has the file's layout, 448 bins, and the count of
-- their entries.
pub validate_v2_histogram_iff :
    (h : Histogram) (layout : HistogramLayout)
    → (validate_v2_histogram h layout ≡ none)
      ↔ (SameLayout h layout × (length h.bins ≡ 448) × Counted h)
unfolding validate_v2_histogram
validate_v2_histogram_iff h layout = elim (Bool-cases (is_layout h layout)) [
  | inl e ↦ rw e (
    λ k. (
      is_layout-SameLayout h layout e,
      ground arith,
      ground (arith, sum_bins_lem 0 h.bins (omega arith)),
    ),
    λ k. ground (arith, sum_bins_lem 0 h.bins (omega arith), k.1),
  )
  | inr e ↦ rw e (λ k. cc, λ k. absurd (ground (arith, e, SameLayout-is_layout h layout k.0)))
]

pub length-add_bins :
    (dst src : List ℕ) → length dst ≡ length src → length (add_bins dst src) ≡ length src
unfolding add_bins
length-add_bins [] [] h = refl
length-add_bins [] (v ∷ src) h = absurd (omega arith)
length-add_bins (x ∷ dst) [] h = absurd (omega arith)
length-add_bins (x ∷ dst) (v ∷ src) h = omega (arith, length-add_bins dst src (omega arith))

total-add_bins :
    (dst src : List ℕ)
    → length dst ≡ length src
    → total (add_bins dst src) % u64_mod ≡ (total dst + total src) % u64_mod
unfolding add_bins
total-add_bins [] [] h = refl
total-add_bins [] (v ∷ src) h = absurd (omega arith)
total-add_bins (x ∷ dst) [] h = absurd (omega arith)
total-add_bins (x ∷ dst) (v ∷ src) h = omega (arith, total-add_bins dst src (omega arith))

pub total-zeros : (n : ℕ) → total (replicate n 0) ≡ 0
total-zeros zero = refl
total-zeros (suc n) = omega (arith, total-zeros n)

-- What `addHistogram` starts from.
start_bins-Counted :
    (dst src : Histogram) (layout : HistogramLayout)
    → Counted dst
    → Counted (start_bins dst src layout)
unfolding start_bins
start_bins-Counted dst src layout h = elim (Bool-cases (is_nil dst.bins)) [
  | inl e ↦ rw e (nothing dst.bins e h)
  | inr e ↦ rw e h
]
  where
    nothing :
        (bins : List ℕ)
        → is_nil bins ≡ true
        → dst.count ≡ total bins % u64_mod
        → dst.count ≡ total (replicate (length src.bins) 0) % u64_mod
    nothing [] e k = omega (arith, total-zeros (length src.bins))
    nothing (x ∷ bins) e k = absurd (ground arith)

-- What an accepted sum shows.
pub add_histogram-eq-ok :
    (dst src : Histogram) (layout : HistogramLayout) {h : Histogram}
    → add_histogram dst src layout ≡ ok h
    → let start = start_bins dst src layout in
      (is_layout src layout ≡ true)
      × (is_nil src.bins ≡ false)
      × (length start.bins ≡ length src.bins)
      × (h ≡ record start {
        bins = add_bins start.bins src.bins;
        count = add_u64 start.count src.count;
      })
unfolding add_histogram
add_histogram-eq-ok dst src layout e = ground arith

-- Adding a histogram whose count is the number of its entries to another keeps that of the sum,
-- and the sum has as many bins as what is added.
pub add_histogram-Counted :
    (dst src : Histogram) (layout : HistogramLayout) (h : Histogram)
    → Counted dst
    → Counted src
    → add_histogram dst src layout ≡ ok h
    → Counted h × (length h.bins ≡ length src.bins)
add_histogram-Counted dst src layout h v w e =
    let (laid, some_bins, same, q) = add_histogram-eq-ok dst src layout e in
    let start = start_bins dst src layout in
    rw q (
      omega
          (arith, start_bins-Counted dst src layout v, w, total-add_bins start.bins src.bins same),
      length-add_bins start.bins src.bins same,
    )
