-- ===== src/Metrics/Merge/Totals.antt =====
-- What adding a file does to the counts of the classes.
use rudp_bench.Common.{
  ◌≡◌, refl, ◌∙◌, subst, String, true, false, List, put, find-put_same, find-put_other, str_eq,
  str_eq-iff, Float64,
}
use rudp_bench.Metrics.Types.{
  HistogramLayout, ClassMetric, MetricsFile, ClassAggregate, MergedMetrics, Checked, ok, failed,
  loss_tolerant, must_deliver, metric_class_names,
}
use rudp_bench.Metrics.Counts.{add_class_counts}
use rudp_bench.Metrics.Histogram.{add_histogram}
use rudp_bench.Metrics.Consistency.{class_or_zero}
use rudp_bench.Metrics.Merge.{
  bind, add_optional, add_raw, aggregate_of, add_class, add_classes, add_all_traffic, add,
}

pub bind-ok {ℓ κ} :
    {A : Type ℓ} {B : Type κ} (c : Checked A) (k : A → Checked B) {b : B}
    → bind c k ≡ ok b
    → (a : A) × (c ≡ ok a) × (k a ≡ ok b)
unfolding bind
bind-ok (ok a) k h = (a, refl, h)
bind-ok (failed e) k h = cc

pub ok_eq {ℓ} : {A : Type ℓ} (a b : A) → ok a ≡ ok b → a ≡ b
ok_eq a b h = cc

pub str_eq_refl : (a : String) → str_eq a a ≡ true
str_eq_refl a = (str_eq-iff a a).1 refl

-- A string equal to one of the class names is not the other.
loss_not_must : (a : String) → str_eq a loss_tolerant ≡ true → str_eq a must_deliver ≡ false
loss_not_must a h = rw ((str_eq-iff a loss_tolerant).0 h) refl

must_not_loss : (a : String) → str_eq a must_deliver ≡ true → str_eq a loss_tolerant ≡ false
must_not_loss a h = rw ((str_eq-iff a must_deliver).0 h) refl

-- One of the two classes.
pub data IsClass : String → Type 0 where
  is_loss : IsClass loss_tolerant
  is_must : IsClass must_deliver

module _ (f : Float64) where
  open f use {Real}

  aggregate_of-same :
      (name : String) (a : ClassAggregate Real) (m : List (String × ClassAggregate Real))
      → aggregate_of f name (put str_eq name a m) ≡ a
  unfolding aggregate_of
  aggregate_of-same name a m =
      rw (aggregate_of, find-put_same str_eq name a m (str_eq_refl name)) refl

  aggregate_of-other :
      (name other : String) (a : ClassAggregate Real) (m : List (String × ClassAggregate Real))
      → ((s : String) → str_eq s name ≡ true → str_eq s other ≡ false)
      → aggregate_of f other (put str_eq name a m) ≡ aggregate_of f other m
  unfolding aggregate_of
  aggregate_of-other name other a m h =
      rw (aggregate_of, find-put_other str_eq name other a m h (str_eq_refl name)) refl

  -- Writing both classes, one after the other, leaves each with what was written.
  pub aggregate_of-both :
      (loss must : ClassAggregate Real) (m : List (String × ClassAggregate Real))
      → let written = put str_eq must_deliver must (put str_eq loss_tolerant loss m) in
        (aggregate_of f loss_tolerant written ≡ loss) × (aggregate_of f must_deliver written ≡ must)
  aggregate_of-both loss must m = (
    aggregate_of-other must_deliver loss_tolerant must (put str_eq loss_tolerant loss m)
          must_not_loss
        ∙ aggregate_of-same loss_tolerant loss m,
    aggregate_of-same must_deliver must (put str_eq loss_tolerant loss m),
  )

  pub aggregate_of-unwritten :
      (loss : ClassAggregate Real) (m : List (String × ClassAggregate Real))
      → aggregate_of f must_deliver (put str_eq loss_tolerant loss m)
        ≡ aggregate_of f must_deliver m
  aggregate_of-unwritten loss m = aggregate_of-other loss_tolerant must_deliver loss m loss_not_must

  add_class-counts :
      (layout : HistogramLayout) (dst : ClassAggregate Real) (src : ClassMetric)
      {r : ClassAggregate Real}
      → add_class f layout dst src ≡ ok r
      → r.counts ≡ add_class_counts dst.counts src.counts
  unfolding add_class
  add_class-counts layout dst src h =
      let (sched, a, ha) = bind-ok (add_histogram dst.latency_sched src.latency_sched layout) _ h in
      let (send, b, hb) = bind-ok (add_histogram dst.latency_send src.latency_send layout) _ ha in
      let (gap, c, hc) = bind-ok (add_optional dst.update_gap src.update_gap layout) _ hb in cc

  add_classes-counts :
      (layout : HistogramLayout) (src : List (String × ClassMetric))
      (dst : List (String × ClassAggregate Real)) (r : List (String × ClassAggregate Real))
      (name : String)
      → IsClass name
      → add_classes f layout metric_class_names src dst ≡ ok r
      → (aggregate_of f name r).counts
        ≡ add_class_counts (aggregate_of f name dst).counts (class_or_zero name src).counts
  unfolding add_classes
  add_classes-counts layout src dst r name w h =
      let (loss, a, ha) =
        bind-ok
          (add_class f layout (aggregate_of f loss_tolerant dst) (class_or_zero loss_tolerant src))
          _ h in
      let (must, b, hb) =
        bind-ok
          (add_class f layout (aggregate_of f must_deliver (put str_eq loss_tolerant loss dst))
            (class_or_zero must_deliver src))
          _ ha in
      by_name name w loss must (add_class-counts layout _ _ a) (add_class-counts layout _ _ b)
        (aggregate_of-both loss must dst) hb
    where
      by_name :
          (name : String)
          → IsClass name
          → (loss must : ClassAggregate Real)
          → loss.counts
            ≡ add_class_counts
                (aggregate_of f loss_tolerant dst).counts
                (class_or_zero loss_tolerant src).counts
          → must.counts
            ≡ add_class_counts
                (aggregate_of f must_deliver (put str_eq loss_tolerant loss dst)).counts
                (class_or_zero must_deliver src).counts
          → (let written = put str_eq must_deliver must (put str_eq loss_tolerant loss dst) in
              (aggregate_of f loss_tolerant written ≡ loss)
              × (aggregate_of f must_deliver written ≡ must))
          → ok (put str_eq must_deliver must (put str_eq loss_tolerant loss dst)) ≡ ok r
          → (aggregate_of f name r).counts
            ≡ add_class_counts (aggregate_of f name dst).counts (class_or_zero name src).counts
      by_name _ is_loss loss must a b both e =
          subst
            (λ x.
              (aggregate_of f loss_tolerant x).counts
              ≡ add_class_counts (aggregate_of f loss_tolerant dst).counts
                  (class_or_zero loss_tolerant src).counts)
            (ok_eq _ r e) (rw both.0 a)
      by_name _ is_must loss must a b both e =
          subst
            (λ x.
              (aggregate_of f must_deliver x).counts
              ≡ add_class_counts (aggregate_of f must_deliver dst).counts
                  (class_or_zero must_deliver src).counts)
            (ok_eq _ r e) (rw both.1 (rw (aggregate_of-unwritten loss dst) at b))

  -- What adding a file to merged metrics does: the counts of both classes grow by those of the
  -- file, the raw counts too, and the layout, the version and the connections stay.
  pub record Added (m : MergedMetrics Real) (file : MetricsFile) (r : MergedMetrics Real)
      : Type 0 where
    pub class_counts :
        (name : String)
        → IsClass name
        → (aggregate_of f name r.classes).counts
          ≡ add_class_counts
              (aggregate_of f name m.classes).counts
              (class_or_zero name file.classes).counts
    pub raw_counts : r.raw ≡ add_raw m.raw file.raw
    pub same_version : r.version ≡ m.version
    pub same_histogram : r.histogram ≡ m.histogram
    pub same_conns : r.total_conns ≡ m.total_conns

  pub add-Added :
      (m : MergedMetrics Real) (file : MetricsFile) (r : MergedMetrics Real)
      → add f m file ≡ ok r
      → Added m file r
  unfolding add
  add-Added m file r h =
      let (classes, a, ha) =
        bind-ok (add_classes f m.histogram metric_class_names file.classes m.classes) _ h in
      let (staleness, b, hb) =
        bind-ok (add_histogram m.staleness file.staleness m.histogram) _ ha in
      let (gap, c, hc) = bind-ok (add_optional m.update_gap file.update_gap m.histogram) _ hb in
      let (traffic, d, hd) =
        bind-ok (add_all_traffic f m.histogram file.traffic m.traffic_by_key) _ hc in
      subst (Added m file) (ok_eq _ r hd) (record {
        class_counts =
            λ name w. add_classes-counts m.histogram file.classes m.classes classes name w a;
        raw_counts = refl;
        same_version = refl;
        same_histogram = refl;
        same_conns = refl;
      })
