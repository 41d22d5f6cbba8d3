-- ===== src/Metrics/Histogram/Parts.antt =====
-- What the validation of an aggregate against its parts shows: its bins are the sums of theirs, as
-- the merge of the parts makes them.
use rudp_bench.Metrics.Histogram.Sums.{length-add_bins}
use rudp_bench.Common.{
  ℕ, zero, suc, ◌+◌, ◌%◌, u64_mod, ap, subst, ◌<◌, ◌≡◌, refl, sym, ◌∙◌, true, false, none, List, [],
  ◌∷◌, ◌==◌, arith, inl, inr, length, replicate, length-replicate, add_u64, ==_iff, Bool-cases, All,
}
use rudp_bench.Metrics.Types.{Histogram, HistogramLayout, Checked, ok, failed, no_histogram}
use rudp_bench.Metrics.Histogram.{
  is_layout, add_bins, is_nil, start_bins, add_histogram, sum_parts, compare_bins, compare_sums,
  validate_histogram_sum,
}

-- The merge of a list of histograms, one after the other.
unfoldable merge_parts : Histogram → List Histogram → HistogramLayout → Checked Histogram
merge_parts dst [] layout = ok dst
merge_parts dst (part ∷ parts) layout = elim (add_histogram dst part layout) [
  | failed e ↦ failed e
  | ok h ↦ merge_parts h parts layout
]

compare_bins-none :
    (bins expected : List ℕ)
    → length bins ≡ length expected
    → compare_bins bins expected ≡ none
    → bins ≡ expected
unfolding compare_bins
compare_bins-none [] [] k h = refl
compare_bins-none [] (e ∷ expected) k h = absurd (omega arith)
compare_bins-none (v ∷ bins) [] k h = absurd (omega arith)
compare_bins-none (v ∷ bins) (e ∷ expected) k h = ground (arith, compare_bins-none bins expected)

add_histogram-next :
    (start part : Histogram) (layout : HistogramLayout)
    → is_nil start.bins ≡ false
    → is_layout part layout ≡ true
    → length part.bins ≡ length start.bins
    → add_histogram start part layout
      ≡ ok (record start {
        bins = add_bins start.bins part.bins;
        count = add_u64 start.count part.count;
      })
unfolding add_histogram start_bins
add_histogram-next start part layout n l h = rw n (ground arith)

-- What the sums over the parts are, is what the merge makes of them.
sum_parts-merge :
    (parts : List Histogram) (layout : HistogramLayout) (start : Histogram) {c : ℕ} {e : List ℕ}
    → is_nil start.bins ≡ false
    → All (λ part. is_layout part layout ≡ true) parts
    → sum_parts parts start.count start.bins ≡ ok (c, e)
    → (length e ≡ length start.bins)
      × (merge_parts start parts layout ≡ ok (record start { count = c; bins = e }))
unfolding sum_parts merge_parts
sum_parts-merge [] layout start n a h = ground arith
sum_parts-merge (part ∷ parts) layout start n a h =
    elim (Bool-cases (length part.bins == length start.bins)) [
      | inr e ↦ absurd (ground (arith, h, e))
      | inl e ↦
          let next : Histogram = record start {
            bins = add_bins start.bins part.bins;
            count = add_u64 start.count part.count;
          } in
          let same_length : length part.bins ≡ length start.bins = (==_iff _ _).0 e in
          let long = length-add_bins start.bins part.bins (sym same_length) in
          let (same, merged) =
            sum_parts-merge parts layout next (ground (arith, long, same_length, n)) a.1
              (rw e at h) in
          (
            omega (arith, same, long, same_length),
            rw (merge_parts, add_histogram-next start part layout n a.0 same_length) merged,
          )
    ]

-- The first part of a merge makes the zeros that it is added to.
unfoldable zeros : ℕ → HistogramLayout → Histogram
zeros n layout = record no_histogram {
  scheme = layout.scheme;
  min_ns = layout.min_ns;
  max_ns = layout.max_ns;
  bins = replicate n 0;
}

add_histogram-first :
    (n : ℕ) (part : Histogram) (layout : HistogramLayout)
    → 0 < n
    → length part.bins ≡ n
    → add_histogram no_histogram part layout ≡ add_histogram (zeros n layout) part layout
unfolding add_histogram start_bins zeros
add_histogram-first n part layout h e =
    rw (sym e) (ground (arith, length-replicate {A = ℕ} (length part.bins) 0))

merge_parts-first :
    (n : ℕ) (part : Histogram) (parts : List Histogram) (layout : HistogramLayout)
    → 0 < n
    → length part.bins ≡ n
    → merge_parts no_histogram (part ∷ parts) layout
      ≡ merge_parts (zeros n layout) (part ∷ parts) layout
unfolding merge_parts
merge_parts-first n part parts layout h e =
    rw (merge_parts, add_histogram-first n part layout h e) refl

sum_parts-length :
    (part : Histogram) (parts : List Histogram) (c : ℕ) (e : List ℕ) {r : ℕ × List ℕ}
    → sum_parts (part ∷ parts) c e ≡ ok r
    → length part.bins ≡ length e
unfolding sum_parts
sum_parts-length part parts c e h = ground arith

compare_sums-none :
    (aggregate : Histogram) (c : ℕ) (e : List ℕ)
    → compare_sums aggregate (ok (c, e)) ≡ none
    → (compare_bins aggregate.bins e ≡ none) × (c ≡ aggregate.count)
unfolding compare_sums
compare_sums-none aggregate c e h = ground arith

-- Where the validation of an aggregate against its parts accepts, the parts have the layout and
-- there is one at least, the merge of the parts has the aggregate's bins and count.
validate_histogram_sum-merge :
    (aggregate part : Histogram) (parts : List Histogram) (layout : HistogramLayout)
    → All (λ p. is_layout p layout ≡ true) (part ∷ parts)
    → validate_histogram_sum aggregate (part ∷ parts) ≡ none
    → (h : Histogram) × (merge_parts no_histogram (part ∷ parts) layout ≡ ok h)
      × (h.bins ≡ aggregate.bins)
      × (h.count ≡ aggregate.count)
unfolding validate_histogram_sum compare_sums zeros
validate_histogram_sum-merge aggregate part parts layout a h =
    step (sum_parts (part ∷ parts) 0 (replicate 448 0)) refl (ground (arith, n, h))
  where
    n : length aggregate.bins ≡ 448
    n = ground arith

    step :
        (sums : Checked (ℕ × List ℕ))
        → sum_parts (part ∷ parts) 0 (replicate 448 0) ≡ sums
        → compare_sums aggregate sums ≡ none
        → (h : Histogram) × (merge_parts no_histogram (part ∷ parts) layout ≡ ok h)
          × (h.bins ≡ aggregate.bins)
          × (h.count ≡ aggregate.count)
    step (failed e) q k = absurd (ground arith)
    step (ok (c, e)) q k =
        let (long, merged) = sum_parts-merge (part ∷ parts) layout (zeros 448 layout) refl a q in
        let start_length : length part.bins ≡ 448 =
          sum_parts-length part parts 0 (replicate 448 0) q in
        (
          record (zeros 448 layout) { count = c; bins = e },
          merge_parts-first 448 part parts layout (omega arith) start_length ∙ merged,
          sym (
              compare_bins-none aggregate.bins e (omega (arith, n, long))
                (compare_sums-none aggregate c e k).0),
          (compare_sums-none aggregate c e k).1,
        )

-- A bin of a histogram, and the sums over parts.
abbrev pub bin_at : ℕ → List ℕ → ℕ
bin_at i [] = 0
bin_at zero (v ∷ bins) = v
bin_at (suc i) (v ∷ bins) = bin_at i bins

abbrev pub sum_over_parts : (Histogram → ℕ) → List Histogram → ℕ
sum_over_parts field [] = 0
sum_over_parts field (part ∷ parts) = field part + sum_over_parts field parts

bin_at-add_bins :
    (i : ℕ) (a b : List ℕ)
    → length a ≡ length b
    → bin_at i (add_bins a b) ≡ (bin_at i a + bin_at i b) % u64_mod
unfolding add_bins
bin_at-add_bins i [] [] h = refl
bin_at-add_bins i [] (v ∷ b) h = absurd (omega arith)
bin_at-add_bins i (x ∷ a) [] h = absurd (omega arith)
bin_at-add_bins zero (x ∷ a) (v ∷ b) h = refl
bin_at-add_bins (suc i) (x ∷ a) (v ∷ b) h = bin_at-add_bins i a b (omega arith)

bin_at-replicate : (i n : ℕ) → bin_at i (replicate n 0) ≡ 0
bin_at-replicate i zero = refl
bin_at-replicate zero (suc n) = refl
bin_at-replicate (suc i) (suc n) = bin_at-replicate i n

sum_parts-sums :
    (parts : List Histogram) (count x : ℕ) (bins : List ℕ) (y : ℕ → ℕ) {c : ℕ} {e : List ℕ}
    → count ≡ x % u64_mod
    → ((i : ℕ) → bin_at i bins ≡ y i % u64_mod)
    → sum_parts parts count bins ≡ ok (c, e)
    → All (λ p. length p.bins ≡ length bins) parts
      × (length e ≡ length bins)
      × (c ≡ (x + sum_over_parts (λ p. p.count) parts) % u64_mod)
      × ((i : ℕ) → bin_at i e ≡ (y i + sum_over_parts (λ p. bin_at i p.bins) parts) % u64_mod)
unfolding sum_parts
sum_parts-sums [] count x bins y {c} {e} h k q =
    let (a, b) = pair_eq q in
    (tt, ap length (sym b), omega (arith, h, a), λ i. rw (sym b) (omega (arith, k i)))
  where
    pair_eq :
        {c d : ℕ} {e g : List ℕ}
        → ◌≡◌ {A = Checked (ℕ × List ℕ)} (ok (c, e)) (ok (d, g))
        → (c ≡ d) × (e ≡ g)
    pair_eq r = (cc, cc)
sum_parts-sums (part ∷ parts) count x bins y h k q =
    elim (Bool-cases (length part.bins == length bins)) [
      | inr n ↦ absurd (ground (arith, q, n))
      | inl n ↦
          let same : length part.bins ≡ length bins = (==_iff _ _).0 n in
          let long = length-add_bins bins part.bins (sym same) in
          let (all, len, total, each) =
            sum_parts-sums parts (add_u64 count part.count) (x + part.count)
              (add_bins bins part.bins) (λ i. y i + bin_at i part.bins) (omega (arith, h))
              (λ i.
                let added = bin_at-add_bins i bins part.bins (sym same) in
                let before = k i in omega (arith, added, before))
              (rw n at q) in
          (
            (same, subst (λ (m : ℕ). All (λ p. length p.bins ≡ m) parts) (long ∙ same) all),
            len ∙ long ∙ same,
            omega (arith, total),
            λ i. let rest = each i in omega (arith, rest),
          )
    ]

-- Where the validation of an aggregate against its parts accepts, the aggregate and every part have
-- 448 bins, and its count and each of its bins are the sums of those of the parts in uint64.
pub validate_histogram_sum-sums :
    (aggregate : Histogram) (parts : List Histogram) (i : ℕ)
    → validate_histogram_sum aggregate parts ≡ none
    → (length aggregate.bins ≡ 448)
      × All (λ p. length p.bins ≡ 448) parts
      × (aggregate.count ≡ sum_over_parts (λ p. p.count) parts % u64_mod)
      × (bin_at i aggregate.bins ≡ sum_over_parts (λ p. bin_at i p.bins) parts % u64_mod)
unfolding validate_histogram_sum compare_sums
validate_histogram_sum-sums aggregate parts i h =
    step (sum_parts parts 0 (replicate 448 0)) refl (ground (arith, n, h))
  where
    n : length aggregate.bins ≡ 448
    n = ground arith

    step :
        (sums : Checked (ℕ × List ℕ))
        → sum_parts parts 0 (replicate 448 0) ≡ sums
        → compare_sums aggregate sums ≡ none
        → (length aggregate.bins ≡ 448)
          × All (λ p. length p.bins ≡ 448) parts
          × (aggregate.count ≡ sum_over_parts (λ p. p.count) parts % u64_mod)
          × (bin_at i aggregate.bins ≡ sum_over_parts (λ p. bin_at i p.bins) parts % u64_mod)
    step (failed e) q k = absurd (ground arith)
    step (ok (c, e)) q k =
        let (all, len, total, each) =
          sum_parts-sums parts 0 0 (replicate 448 0) (λ j. 0) refl (λ j. bin_at-replicate j 448)
            q in
        let (bins, counted) = compare_sums-none aggregate c e k in
        let same : aggregate.bins ≡ e =
          compare_bins-none aggregate.bins e (omega (arith, n, len)) bins in
        let bin = each i in
        (n, all, omega (arith, total, counted), ap (bin_at i) same ∙ omega (arith, bin))
