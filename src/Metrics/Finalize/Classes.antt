-- ===== src/Metrics/Finalize/Classes.antt =====
-- What finalizing does to the classes of merged metrics.
use rudp_bench.Common.{
  ℕ, ◌+◌, ◌-◌, ◌*◌, ◌%◌, pos_part, u64_mod, ◌≤◌, ◌≡◌, refl, sym, ap, ◌∙◌, subst, String, List, ℤ,
  arith, map, put, str_eq, Float64,
}
use rudp_bench.Metrics.Types.{
  HistogramLayout, ClassCounts, ClassAggregate, MergedMetrics, ok, loss_tolerant, must_deliver,
  metric_class_names,
}
use rudp_bench.Metrics.Counts.{add_class_counts, expected_receives, ratio_or_one}
use rudp_bench.Metrics.Counts.Laws.{
  expected_receives_mod, add_class_counts_comm, add_class_counts_assoc,
}
use rudp_bench.Metrics.Merge.{aggregate_of}
use rudp_bench.Metrics.Merge.Totals.{
  bind-ok, ok_eq, IsClass, is_loss, is_must, aggregate_of-both, aggregate_of-unwritten,
}
use rudp_bench.Metrics.Finalize.{
  check_receives, finalize_class, finalize_classes, finalize_keys, finalize, sort_keys,
}

-- A class after its checks: what it delivered is at most what was expected.
pub record ClassBounded (counts : ClassCounts) (expected : ℕ) (total_conns : ℤ) : Type 0 where
  pub broadcast_bound : counts.slots_broadcast ≤ counts.slots
  pub delivered_bound : counts.delivered_unique ≤ expected
  pub expected_is :
      expected
      ≡ ((counts.slots - counts.slots_broadcast) + counts.slots_broadcast * pos_part total_conns)
        % u64_mod

check_receives-ok :
    (c : ClassCounts) (total_conns : ℤ) (expected : ℕ)
    → check_receives c total_conns ≡ ok expected
    → ClassBounded c expected total_conns
unfolding check_receives
check_receives-ok c total_conns expected h =
    let bound : c.slots_broadcast ≤ c.slots = ground arith in
    record {
      broadcast_bound = bound;
      delivered_bound = ground arith;
      expected_is =
          let same : expected ≡ expected_receives c.slots c.slots_broadcast total_conns =
            ground arith in
          same ∙ expected_receives_mod c.slots c.slots_broadcast total_conns bound;
    }

pub swapped :
    (s a b : ClassCounts)
    → add_class_counts (add_class_counts s a) b ≡ add_class_counts (add_class_counts s b) a
swapped s a b =
    add_class_counts_assoc s a b
    ∙ ap (add_class_counts s) (add_class_counts_comm a b)
    ∙ sym (add_class_counts_assoc s b a)

module _ (f : Float64) where
  open f use {Real}

  -- A finalized class keeps its counts and is bounded.
  pub record Finalized (total_conns : ℤ) (c r : ClassAggregate Real) : Type 0 where
    pub same_counts : r.counts ≡ c.counts
    pub bounded : ClassBounded r.counts r.expected_receives total_conns
    pub delivery : r.delivery_ratio ≡ ratio_or_one f r.counts.delivered_unique r.expected_receives

  finalize_class-Finalized :
      (layout : HistogramLayout) (total_conns : ℤ) (c r : ClassAggregate Real)
      → finalize_class f layout total_conns c ≡ ok r
      → Finalized total_conns c r
  unfolding finalize_class
  finalize_class-Finalized layout total_conns c r h =
      let (expected, a, ha) = bind-ok (check_receives c.counts total_conns) _ h in
      subst (Finalized total_conns c) (ok_eq _ r ha) (record {
        same_counts = refl;
        bounded = check_receives-ok c.counts total_conns expected a;
        delivery = refl;
      })

  finalize_classes-Finalized :
      (layout : HistogramLayout) (total_conns : ℤ) (classes r : List (String × ClassAggregate Real))
      (name : String)
      → IsClass name
      → finalize_classes f layout total_conns metric_class_names classes ≡ ok r
      → Finalized total_conns (aggregate_of f name classes) (aggregate_of f name r)
  unfolding finalize_classes
  finalize_classes-Finalized layout total_conns classes r name w h =
      let (loss, a, ha) =
        bind-ok (finalize_class f layout total_conns (aggregate_of f loss_tolerant classes)) _ h in
      let (must, b, hb) =
        bind-ok
          (finalize_class f layout total_conns
            (aggregate_of f must_deliver (put str_eq loss_tolerant loss classes)))
          _ ha in
      subst (λ x. Finalized total_conns (aggregate_of f name classes) (aggregate_of f name x))
        (ok_eq _ r hb)
        (by_name name w loss must (finalize_class-Finalized layout total_conns _ loss a)
          (finalize_class-Finalized layout total_conns _ must b))
    where
      by_name :
          (name : String)
          → IsClass name
          → (loss must : ClassAggregate Real)
          → Finalized total_conns (aggregate_of f loss_tolerant classes) loss
          → Finalized total_conns
              (aggregate_of f must_deliver (put str_eq loss_tolerant loss classes))
              must
          → Finalized total_conns (aggregate_of f name classes) (
              aggregate_of f name
                (put str_eq must_deliver must (put str_eq loss_tolerant loss classes)))
      by_name _ is_loss loss must a b = rw (aggregate_of-both f loss must classes).0 a
      by_name _ is_must loss must a b =
          rw (aggregate_of-both f loss must classes).1
            (rw (aggregate_of-unwritten f loss classes) at b)

  pub finalize-Finalized :
      (m r : MergedMetrics Real) (name : String)
      → IsClass name
      → finalize f m ≡ ok r
      → Finalized m.total_conns (aggregate_of f name m.classes) (aggregate_of f name r.classes)
  unfolding finalize
  finalize-Finalized m r name w h =
      let (classes, a, ha) =
        bind-ok (finalize_classes f m.histogram m.total_conns metric_class_names m.classes) _ h in
      let (made, b, hb) =
        bind-ok
          (finalize_keys f m.histogram m.total_conns (sort_keys (map (λ e. e.0) m.traffic_by_key))
            m.traffic_by_key)
          _ ha in
      subst
        (λ x.
          Finalized m.total_conns (aggregate_of f name m.classes) (aggregate_of f name x.classes))
        (ok_eq _ r hb)
        (finalize_classes-Finalized m.histogram m.total_conns m.classes classes name w a)
