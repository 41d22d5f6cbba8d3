-- ===== src/Metrics/Validate/Accepted.antt =====
-- What an accepted process file is.
use rudp_bench.Common.{
  ◌%◌, ◌≡◌, ◌≢◌, sym, ap, ◌∙◌, ◌⊎◌, refl, Bool-cases, str_eq-iff, length, String, Bool, true, false,
  not, ◌&&◌, none, some, List, [], ◌∷◌, arith, inl, inr, All, eqb_ℤ, pos, find, str_eq,
  Option-cases, if◌then◌else◌, ℤ, negsuc, ◌<◌, u64_mod,
}
use rudp_bench.Metrics.Types.{
  Histogram, room_relay, client_to_server, server_to_client, same_key, HistogramLayout, ClassMetric,
  TrafficMetric, TrafficKey, MetricsFile, loss_tolerant, must_deliver, metric_class_names,
}
use rudp_bench.Metrics.Counts.{validate_class_counts}
use rudp_bench.Metrics.Counts.Laws.{CountsShown, validate_class_counts-CountsShown}
use rudp_bench.Metrics.Histogram.{validate_v2_histogram, sum_bins}
use rudp_bench.Metrics.Histogram.Sums.{total, sum_bins_lem}
use rudp_bench.Metrics.Consistency.{validate_v2_aggregate_consistency}
use rudp_bench.Metrics.Consistency.Laws.{first_error-none, if-none}
use rudp_bench.Metrics.Validate.{
  incomplete, check_class_counts, check_v2, known_direction, known_class, seen_key,
  check_traffic_histograms, check_traffic, validate_metrics_file,
}

-- A histogram of the layout with its 448 bins, whose count is their sum in uint64.
pub record HistogramShown (layout : HistogramLayout) (h : Histogram) : Type 0 where
  pub scheme : h.scheme ≡ layout.scheme
  pub least : h.min_ns ≡ layout.min_ns
  pub most : h.max_ns ≡ layout.max_ns
  pub bins : length h.bins ≡ 448
  pub counted : h.count ≡ total h.bins % u64_mod

validate_v2_histogram-shown :
    (h : Histogram) (layout : HistogramLayout)
    → validate_v2_histogram h layout ≡ none
    → HistogramShown layout h
unfolding validate_v2_histogram
validate_v2_histogram-shown h layout e =
    let counted : h.count ≡ sum_bins 0 h.bins = ground arith in
    record {
      scheme = (str_eq-iff h.scheme layout.scheme).0 (ground arith);
      least = ground arith;
      most = ground arith;
      bins = ground arith;
      counted = omega (arith, counted, sum_bins_lem 0 h.bins (omega arith));
    }

-- A traffic of a file: its direction and class are known, its counts well formed, and each of its
-- histograms has the file's layout.
pub record TrafficAccepted (layout : HistogramLayout) (t : TrafficMetric) : Type 0 where
  pub direction_known :
      (t.key.direction ≡ room_relay)
      ⊎ ((t.key.direction ≡ client_to_server) ⊎ (t.key.direction ≡ server_to_client))
  pub class_known : (t.key.class ≡ loss_tolerant) ⊎ (t.key.class ≡ must_deliver)
  pub counts_well : CountsShown t.counts
  pub sched : HistogramShown layout t.latency_sched
  pub send : HistogramShown layout t.latency_send
  pub gap : HistogramShown layout t.update_gap
  pub staleness : HistogramShown layout t.staleness

-- No key is one of those that were seen.
abbrev KeysApart : List TrafficKey → List TrafficMetric → Type 0
KeysApart seen [] = Unit
KeysApart seen (t ∷ traffic) = (seen_key t.key seen ≡ false) × KeysApart (t.key ∷ seen) traffic

-- No two have the same key.
abbrev pub KeysDiffer : List TrafficMetric → Type 0
KeysDiffer [] = Unit
KeysDiffer (t ∷ traffic) = All (λ u. u.key ≢ t.key) traffic × KeysDiffer traffic

not_both : (b : Bool) → b ≡ true → b ≢ false
not_both true h = λ e. cc
not_both false h = λ e. cc

same_key_refl : (k : TrafficKey) → same_key k k ≡ true
unfolding same_key
same_key_refl k =
    ground (arith, (str_eq-iff k.direction k.direction).1 refl, (str_eq-iff k.class k.class).1 refl)

KeysApart-seen :
    (k : TrafficKey) (seen : List TrafficKey) (traffic : List TrafficMetric)
    → seen_key k seen ≡ true
    → KeysApart seen traffic
    → All (λ u. u.key ≢ k) traffic
unfolding seen_key
KeysApart-seen k seen [] h a = tt
KeysApart-seen k seen (t ∷ traffic) h a = (
  λ e. not_both (seen_key k seen) h (ap (λ (x : TrafficKey). seen_key x seen) (sym e) ∙ a.0),
  KeysApart-seen k (t.key ∷ seen) traffic (ground (arith, h)) a.1,
)

KeysApart-KeysDiffer :
    (seen : List TrafficKey) (traffic : List TrafficMetric)
    → KeysApart seen traffic
    → KeysDiffer traffic
unfolding seen_key
KeysApart-KeysDiffer seen [] a = tt
KeysApart-KeysDiffer seen (t ∷ traffic) a = (
  KeysApart-seen t.key (t.key ∷ seen) traffic (ground (arith, same_key_refl t.key)) a.1,
  KeysApart-KeysDiffer (t.key ∷ seen) traffic a.1,
)

direction-known :
    (d : String)
    → known_direction d ≡ true
    → (d ≡ room_relay) ⊎ ((d ≡ client_to_server) ⊎ (d ≡ server_to_client))
direction-known d h = elim (Bool-cases (str_eq d room_relay)) [
  | inl e ↦ inl ((str_eq-iff d room_relay).0 e)
  | inr e ↦ elim (Bool-cases (str_eq d client_to_server)) [
    | inl k ↦ inr (inl ((str_eq-iff d client_to_server).0 k))
    | inr k ↦ inr (inr ((str_eq-iff d server_to_client).0 (ground (arith, h, e, k))))
  ]
]

class-known : (c : String) → known_class c ≡ true → (c ≡ loss_tolerant) ⊎ (c ≡ must_deliver)
class-known c h = elim (Bool-cases (str_eq c loss_tolerant)) [
  | inl e ↦ inl ((str_eq-iff c loss_tolerant).0 e)
  | inr e ↦ inr ((str_eq-iff c must_deliver).0 (ground (arith, h, e)))
]

check_traffic_histograms-shown :
    (t : TrafficMetric) (layout : HistogramLayout)
    → check_traffic_histograms t layout ≡ none
    → HistogramShown layout t.latency_sched
      × HistogramShown layout t.latency_send
      × HistogramShown layout t.update_gap
      × HistogramShown layout t.staleness
unfolding check_traffic_histograms
check_traffic_histograms-shown t layout h =
    let (a, r1) = first_error-none (validate_v2_histogram t.latency_sched layout) _ h in
    let (b, r2) = first_error-none (validate_v2_histogram t.latency_send layout) _ r1 in
    let (c, d) = first_error-none (validate_v2_histogram t.update_gap layout) _ r2 in
    (
      validate_v2_histogram-shown t.latency_sched layout a,
      validate_v2_histogram-shown t.latency_send layout b,
      validate_v2_histogram-shown t.update_gap layout c,
      validate_v2_histogram-shown t.staleness layout d,
    )

check_traffic-none :
    (layout : HistogramLayout) (seen : List TrafficKey) (traffic : List TrafficMetric)
    → check_traffic layout seen traffic ≡ none
    → All (TrafficAccepted layout) traffic × KeysApart seen traffic
unfolding check_traffic
check_traffic-none layout seen [] h = (tt, tt)
check_traffic-none layout seen (t ∷ traffic) h =
    let direction : known_direction t.key.direction ≡ true = ground arith in
    let class : known_class t.key.class ≡ true = ground arith in
    let fresh : seen_key t.key seen ≡ false = ground arith in
    let (a, rest) =
      first_error-none (validate_class_counts t.counts) _ (rw (direction, class, fresh) at h) in
    let (b, more) = first_error-none (check_traffic_histograms t layout) _ rest in
    let (all, apart) = check_traffic-none layout (t.key ∷ seen) traffic more in
    let (sched, send, gap, staleness) = check_traffic_histograms-shown t layout b in
    (
      (
        record {
          direction_known = direction-known t.key.direction direction;
          class_known = class-known t.key.class class;
          counts_well = validate_class_counts-CountsShown t.counts a;
          sched = sched;
          send = send;
          gap = gap;
          staleness = staleness;
        },
        all,
      ),
      (fresh, apart),
    )

-- A class of a file that is there with well-formed counts.
abbrev pub ClassPresent : MetricsFile → String → Type 0
ClassPresent file name =
    (metric : ClassMetric) × (find str_eq name file.classes ≡ some metric)
    × CountsShown metric.counts

check_class_counts-none :
    (file : MetricsFile) (names : List String)
    → check_class_counts names file.classes ≡ none
    → All (ClassPresent file) names
unfolding check_class_counts
check_class_counts-none file [] h = tt
check_class_counts-none file (name ∷ names) h =
    elim (Option-cases (find str_eq name file.classes)) [
      | inl e ↦ absurd (ground (arith, rw (check_class_counts, e) at h))
      | inr (metric, e) ↦
          let (a, rest) =
            first_error-none (validate_class_counts metric.counts) _
              (rw (check_class_counts, e) at h) in
          (
            (metric, e, validate_class_counts-CountsShown metric.counts a),
            check_class_counts-none file names rest,
          )
    ]

-- The checks of a file, one by one.
validate_metrics_file-parts :
    (file : MetricsFile) (allow_empty : Bool)
    → validate_metrics_file file allow_empty ≡ none
    → ((not (eqb_ℤ file.version (pos 1)) && not (eqb_ℤ file.version (pos 2))) ≡ false)
      × (incomplete file.histogram ≡ false)
      × (check_class_counts metric_class_names file.classes ≡ none)
      × ((if eqb_ℤ file.version (pos 2) then check_v2 file else none) ≡ none)
      × (check_traffic file.histogram [] file.traffic ≡ none)
      × ((if eqb_ℤ file.version (pos 2) then validate_v2_aggregate_consistency file else none)
          ≡ none)
unfolding validate_metrics_file
validate_metrics_file-parts file allow_empty h =
    let (a, ha) = if-none _ _ _ h in
    let (b, hb) = if-none (incomplete file.histogram) _ _ ha in
    let (c, hc) = first_error-none (check_class_counts metric_class_names file.classes) _ hb in
    let (d, hd) = if-none _ _ _ hc in
    let (e, he) =
      first_error-none (if eqb_ℤ file.version (pos 2) then check_v2 file else none) _ hd in
    let (g, i) = first_error-none (check_traffic file.histogram [] file.traffic) _ he in
    (a, b, c, e, g, i)

-- A layout with a scheme, subbins and both bounds.
pub record LayoutComplete (layout : HistogramLayout) : Type 0 where
  pub scheme : layout.scheme ≢ ""
  pub subbins : 0 < layout.subbins
  pub least : 0 < layout.min_ns
  pub most : 0 < layout.max_ns

incomplete-false : (layout : HistogramLayout) → incomplete layout ≡ false → LayoutComplete layout
incomplete-false layout h = record {
  scheme = λ e.
      not_both (str_eq layout.scheme "") ((str_eq-iff layout.scheme "").1 e) (ground (arith, h));
  subbins = ground (arith, h);
  least = ground (arith, h);
  most = ground (arith, h);
}

-- What every accepted file has.
pub record FileAccepted (file : MetricsFile) : Type 0 where
  pub version_known : (file.version ≡ pos 1) ⊎ (file.version ≡ pos 2)
  pub layout_complete : LayoutComplete file.histogram
  pub classes_present : All (ClassPresent file) metric_class_names
  pub traffic_accepted : All (TrafficAccepted file.histogram) file.traffic
  pub keys_differ : KeysDiffer file.traffic

-- An accepted file has version 1 or 2, a complete layout, both classes with well-formed counts, and
-- traffic of known directions and classes, with well-formed counts, with four histograms of the
-- layout that hold as many entries as they count, and with a key of its own each.
pub validate_metrics_file-FileAccepted :
    (file : MetricsFile) (allow_empty : Bool)
    → validate_metrics_file file allow_empty ≡ none
    → FileAccepted file
validate_metrics_file-FileAccepted file allow_empty h =
    let (a, b, c, d, e, g) = validate_metrics_file-parts file allow_empty h in
    let (all, apart) = check_traffic-none file.histogram [] file.traffic e in
    record {
      version_known = known file.version a;
      layout_complete = incomplete-false file.histogram b;
      classes_present = check_class_counts-none file metric_class_names c;
      traffic_accepted = all;
      keys_differ = KeysApart-KeysDiffer [] file.traffic apart;
    }
  where
    known :
        (v : ℤ)
        → (not (eqb_ℤ v (pos 1)) && not (eqb_ℤ v (pos 2))) ≡ false
        → (v ≡ pos 1) ⊎ (v ≡ pos 2)
    known (pos n) h = ground arith
    known (negsuc n) h = absurd (ground arith)
