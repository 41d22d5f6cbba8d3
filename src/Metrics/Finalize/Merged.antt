-- ===== src/Metrics/Finalize/Merged.antt =====
-- What merged metrics are: the sums of the files, with as many deliveries as were expected at most.
use mathlib.Core.List.{Permᴰ}
use rudp_bench.Common.{
  ℕ, ◌+◌, ◌%◌, u64_mod, ◌≡◌, refl, sym, ap, ◌∙◌, subst, String, false, List, [], ◌∷◌, ℤ, arith, All,
  find, Float64,
}
use rudp_bench.Metrics.Types.{
  HistogramLayout, ClassCounts, MetricsFile, MergedMetrics, Checked, ok, failed, no_counts,
}
use rudp_bench.Metrics.Counts.{add_class_counts}
use rudp_bench.Metrics.Consistency.{class_or_zero}
use rudp_bench.Metrics.Merge.{aggregate_of, new_merged_metrics, add}
use rudp_bench.Metrics.Merge.Totals.{bind-ok, ok_eq, IsClass, is_loss, is_must, Added, add-Added}
use rudp_bench.Metrics.Finalize.{parse_metrics_artifact, merge_next, merge_rest, merge_metrics_data}
use rudp_bench.Metrics.Finalize.Classes.{ClassBounded, swapped, finalize-Finalized}

module _ (f : Float64) where
  open f use {Real}

  module _ {Artifact : Type 0} (decode : Artifact → Checked MetricsFile) where
    -- An artifact that is decoded and accepted.
    abbrev pub Parsed : Artifact → Type 0
    Parsed a = (file : MetricsFile) × (parse_metrics_artifact f decode a false ≡ ok file)

    -- The counts of a class in an artifact.
    unfoldable pub counts_in : String → Artifact → ClassCounts
    counts_in name a = elim (parse_metrics_artifact f decode a false) [
      | ok file ↦ (class_or_zero name file.classes).counts
      | failed e ↦ no_counts
    ]

    -- The sum of a class over artifacts, in their order.
    unfoldable pub total_counts : String → ClassCounts → List Artifact → ClassCounts
    unfolding counts_in
    total_counts name sum [] = sum
    total_counts name sum (a ∷ artifacts) =
        total_counts name (add_class_counts sum (counts_in name a)) artifacts

    -- The sum of one count over artifacts.
    abbrev pub sum_of : String → (ClassCounts → ℕ) → List Artifact → ℕ
    sum_of name field [] = 0
    sum_of name field (a ∷ artifacts) = field (counts_in name a) + sum_of name field artifacts

    -- Each count of a class is the sum over the artifacts, in uint64.
    pub record Sums (name : String) (artifacts : List Artifact) (c : ClassCounts) : Type 0 where
      pub slots : c.slots ≡ sum_of name (λ x. x.slots) artifacts % u64_mod
      pub slots_broadcast :
          c.slots_broadcast ≡ sum_of name (λ x. x.slots_broadcast) artifacts % u64_mod
      pub submitted : c.submitted ≡ sum_of name (λ x. x.submitted) artifacts % u64_mod
      pub delivered_unique :
          c.delivered_unique ≡ sum_of name (λ x. x.delivered_unique) artifacts % u64_mod
      pub duplicates : c.duplicates ≡ sum_of name (λ x. x.duplicates) artifacts % u64_mod
      pub deadline_hit : c.deadline_hit ≡ sum_of name (λ x. x.deadline_hit) artifacts % u64_mod
      pub expected_flows :
          c.expected_flows ≡ sum_of name (λ x. x.expected_flows) artifacts % u64_mod
      pub observed_flows :
          c.observed_flows ≡ sum_of name (λ x. x.observed_flows) artifacts % u64_mod
      pub never_received_flows :
          c.never_received_flows ≡ sum_of name (λ x. x.never_received_flows) artifacts % u64_mod

    total_counts-field :
        (name : String) (field : ClassCounts → ℕ)
        → ((a b : ClassCounts) → field (add_class_counts a b) ≡ (field a + field b) % u64_mod)
        → (sum : ClassCounts) (x : ℕ) (artifacts : List Artifact) → field sum ≡ x % u64_mod
        → field (total_counts name sum artifacts) ≡ (x + sum_of name field artifacts) % u64_mod
    unfolding total_counts
    total_counts-field name field adds sum x [] h = omega (arith, h)
    total_counts-field name field adds sum x (a ∷ artifacts) h =
        let next = adds sum (counts_in name a) in
        let rest =
          total_counts-field name field adds (add_class_counts sum (counts_in name a))
            (x + field (counts_in name a)) artifacts (omega (arith, h, next)) in
        omega (arith, rest)

    total_counts_sum :
        (name : String) (field : ClassCounts → ℕ)
        → ((a b : ClassCounts) → field (add_class_counts a b) ≡ (field a + field b) % u64_mod)
        → (artifacts : List Artifact) → field no_counts ≡ 0
        → field (total_counts name no_counts artifacts) ≡ sum_of name field artifacts % u64_mod
    total_counts_sum name field adds artifacts h =
        let total = total_counts-field name field adds no_counts 0 artifacts (omega (arith, h)) in
        omega (arith, total)

    total_counts-Sums :
        (name : String) (artifacts : List Artifact)
        → Sums name artifacts (total_counts name no_counts artifacts)
    unfolding add_class_counts
    total_counts-Sums name artifacts = record {
      slots = total_counts_sum name (λ x. x.slots) (λ a b. refl) artifacts refl;
      slots_broadcast = total_counts_sum name (λ x. x.slots_broadcast) (λ a b. refl) artifacts refl;
      submitted = total_counts_sum name (λ x. x.submitted) (λ a b. refl) artifacts refl;
      delivered_unique =
          total_counts_sum name (λ x. x.delivered_unique) (λ a b. refl) artifacts refl;
      duplicates = total_counts_sum name (λ x. x.duplicates) (λ a b. refl) artifacts refl;
      deadline_hit = total_counts_sum name (λ x. x.deadline_hit) (λ a b. refl) artifacts refl;
      expected_flows = total_counts_sum name (λ x. x.expected_flows) (λ a b. refl) artifacts refl;
      observed_flows = total_counts_sum name (λ x. x.observed_flows) (λ a b. refl) artifacts refl;
      never_received_flows =
          total_counts_sum name (λ x. x.never_received_flows) (λ a b. refl) artifacts refl;
    }

    counts_in-parsed :
        (name : String) (a : Artifact) (file : MetricsFile)
        → parse_metrics_artifact f decode a false ≡ ok file
        → counts_in name a ≡ (class_or_zero name file.classes).counts
    unfolding counts_in
    counts_in-parsed name a file e = rw (counts_in, e) refl

    merge_next-Added :
        (merged : MergedMetrics Real) (file : MetricsFile) (r : MergedMetrics Real)
        → merge_next f decode merged file ≡ ok r
        → Added f merged file r
    unfolding merge_next
    merge_next-Added merged file r h = add-Added f merged file r (ground arith)

    merge_rest-totals :
        (merged : MergedMetrics Real) (artifacts : List Artifact) (r : MergedMetrics Real)
        (name : String)
        → IsClass name
        → merge_rest f decode merged artifacts ≡ ok r
        → All Parsed artifacts
          × ((aggregate_of f name r.classes).counts
              ≡ total_counts name (aggregate_of f name merged.classes).counts artifacts)
          × (r.total_conns ≡ merged.total_conns)
    unfolding merge_rest total_counts
    merge_rest-totals merged [] r name w h = let e = ok_eq merged r h in (tt, rw e refl, rw e refl)
    merge_rest-totals merged (a ∷ artifacts) r name w h =
        let (file, p, hp) = bind-ok (parse_metrics_artifact f decode a false) _ h in
        let (next, q, hq) = bind-ok (merge_next f decode merged file) _ hp in
        let added = merge_next-Added merged file next q in
        let (all, sum, conns) = merge_rest-totals next artifacts r name w hq in
        (
          ((file, p), all),
          rw (counts_in-parsed name a file p, sym (added.class_counts name w)) sum,
          conns ∙ added.same_conns,
        )

    new_merged-counts :
        (version : ℤ) (layout : HistogramLayout) (total_conns : ℤ) (name : String)
        → IsClass name
        → (aggregate_of f name (new_merged_metrics f version layout total_conns).classes).counts
          ≡ no_counts
    unfolding new_merged_metrics aggregate_of find
    new_merged-counts version layout total_conns _ is_loss = refl
    new_merged-counts version layout total_conns _ is_must = refl

    first-counts :
        (a : Artifact) (file : MetricsFile) (total_conns : ℤ) (first : MergedMetrics Real)
        (name : String)
        → IsClass name
        → parse_metrics_artifact f decode a false ≡ ok file
        → add f (new_merged_metrics f file.version file.histogram total_conns) file ≡ ok first
        → ((aggregate_of f name first.classes).counts
            ≡ add_class_counts no_counts (counts_in name a))
          × (first.total_conns ≡ total_conns)
    unfolding new_merged_metrics
    first-counts a file total_conns first name w p q =
        let start = new_merged_metrics f file.version file.histogram total_conns in
        let added = add-Added f start file first q in
        (
          added.class_counts name w
              ∙ rw (counts_in-parsed name a file p) (
                  ap
                    (λ (c : ClassCounts).
                      add_class_counts c (class_or_zero name file.classes).counts)
                    (new_merged-counts file.version file.histogram total_conns name w)),
          added.same_conns,
        )

    merged_totals :
        (artifacts : List Artifact) (total_conns : ℤ) (r : MergedMetrics Real) (name : String)
        → IsClass name
        → merge_metrics_data f decode artifacts total_conns ≡ ok r
        → All Parsed artifacts
          × ((aggregate_of f name r.classes).counts ≡ total_counts name no_counts artifacts)
          × ClassBounded
              (aggregate_of f name r.classes).counts
              (aggregate_of f name r.classes).expected_receives
              total_conns
    unfolding merge_metrics_data total_counts
    merged_totals [] total_conns r name w h = cc
    merged_totals (a ∷ artifacts) total_conns r name w h =
        let (file, p, hp) = bind-ok (parse_metrics_artifact f decode a false) _ h in
        let (first, q, hq) =
          bind-ok (add f (new_merged_metrics f file.version file.histogram total_conns) file) _
            hp in
        let (merged, m, hm) = bind-ok (merge_rest f decode first artifacts) _ hq in
        let (all, sum, conns) = merge_rest-totals first artifacts merged name w m in
        let (counts, same) = first-counts a file total_conns first name w p q in
        let done = finalize-Finalized f merged r name w hm in
        (
          ((file, p), all),
          done.same_counts ∙ (rw counts at sum),
          subst
              (ClassBounded (aggregate_of f name r.classes).counts
                (aggregate_of f name r.classes).expected_receives)
              (conns ∙ same) done.bounded,
        )

    -- Where artifacts are merged, each was accepted, and each of the nine counts of a class is the sum
    -- over all of them in uint64, with at most as many unique deliveries as the slots and the
    -- connections let expect: one for each slot, and as many as connections for a broadcast one.
    pub merge_metrics_data_totals :
        (artifacts : List Artifact) (total_conns : ℤ) (r : MergedMetrics Real) (name : String)
        → IsClass name
        → merge_metrics_data f decode artifacts total_conns ≡ ok r
        → All Parsed artifacts
          × Sums name artifacts (aggregate_of f name r.classes).counts
          × ClassBounded
              (aggregate_of f name r.classes).counts
              (aggregate_of f name r.classes).expected_receives
              total_conns
    merge_metrics_data_totals artifacts total_conns r name w h =
        let (all, total, bounded) = merged_totals artifacts total_conns r name w h in
        (all, subst (Sums name artifacts) (sym total) (total_counts-Sums name artifacts), bounded)

    total_counts-permuted :
        (name : String) (sum : ClassCounts) {l k : List Artifact}
        → Permᴰ l k
        → total_counts name sum l ≡ total_counts name sum k
    unfolding total_counts
    total_counts-permuted name sum Permᴰ.nil = refl
    total_counts-permuted name sum (Permᴰ.cons {a = a} {b = b} e p) =
        rw e (total_counts-permuted name (add_class_counts sum (counts_in name b)) p)
    total_counts-permuted name sum (Permᴰ.swap {a = a} {b = b} {l = l} e q) =
        rw (sym e, sym q)
          (ap (λ (s : ClassCounts). total_counts name s l)
            (swapped sum (counts_in name a) (counts_in name b)))
    total_counts-permuted name sum (Permᴰ.trans p q) =
        total_counts-permuted name sum p ∙ total_counts-permuted name sum q

    -- Merging the same artifacts in another order gives each class the same counts.
    pub merge_metrics_data_order :
        (artifacts permuted : List Artifact) (total_conns : ℤ) (r s : MergedMetrics Real)
        (name : String)
        → IsClass name
        → Permᴰ artifacts permuted
        → merge_metrics_data f decode artifacts total_conns ≡ ok r
        → merge_metrics_data f decode permuted total_conns ≡ ok s
        → (aggregate_of f name r.classes).counts ≡ (aggregate_of f name s.classes).counts
    merge_metrics_data_order artifacts permuted total_conns r s name w p h k =
        (merged_totals artifacts total_conns r name w h).1
        ∙ total_counts-permuted name no_counts p
        ∙ sym (merged_totals permuted total_conns s name w k).1
