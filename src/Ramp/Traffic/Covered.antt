-- ===== src/Ramp/Traffic/Covered.antt =====
-- Each break is about a series that was evaluated, and fails it.
use rudp_bench.Common.{
  ℕ, ◌≡◌, ◌≢◌, refl, sym, ◌∙◌, inl, inr, Bool, true, false, not, ◌&&◌, ◌||◌, String, Option, none,
  some, List, [], ◌∷◌, ◌++◌, ltb, ℤ, str_eq, str_eq-iff, if◌then◌else◌, All, Bool-cases,
  Option-cases, arith, Float64, subst,
}
use rudp_bench.Metrics.Types.{loss_tolerant, must_deliver, TrafficAggregate, MergedMetrics}
use rudp_bench.Metrics.Finalize.{traffic_metric}
use rudp_bench.Scenario.Spec.{TrafficClassSpec, TrafficSpec, TrafficCase, is_positive}
use rudp_bench.Scenario.Judge.{
  TrafficEvaluation, ScenarioEvaluation, is_nil, note, evaluate_traffic, evaluate_class,
  evaluate_cases, causes_of,
}
use rudp_bench.Scenario.Contract.{enabled_traffic_classes}
use rudp_bench.Scenario.Contract.Ranges.{Ranged, range, refused, panic}
use rudp_bench.Ramp.Traffic.{
  TrafficBreak, AssessError, no_range, divides_by_zero, Assessed, breaks, failed, Assessment,
  then_breaks, within, mark_broken, rebuild_scenario_evaluation_cause, add_ramp_traffic_break,
  add_breaks, assess_latest, assess_class, assess_classes, assess_cases,
}

str_eq_refl : (a : String) → str_eq a a ≡ true
str_eq_refl a = (str_eq-iff a a).1 refl

All-append {ℓ} : {A : Type ℓ} (P : A → Type 0) (a b : List A) → All P a → All P b → All P (a ++ b)
All-append P [] b p q = q
All-append P (x ∷ a) b p q = (p.0, All-append P a b p.1 q)

All-map {ℓ} :
    {A : Type ℓ} (P Q : A → Type 0) → ((x : A) → P x → Q x) → (l : List A) → All P l → All Q l
All-map P Q f [] a = tt
All-map P Q f (x ∷ l) a = (f x a.0, All-map P Q f l a.1)

All-when {ℓ} :
    {A : Type ℓ} (P : A → Type 0) (t : Bool) (x : A)
    → (t ≡ true → P x)
    → All P (if t then x ∷ [] else [])
All-when P true x h = (h refl, tt)
All-when P false x h = tt

module _ {Real : Type 0} where
  -- Whether a series is among the evaluations.
  unfoldable pub listed : String → String → List (TrafficEvaluation Real) → Bool
  listed name class [] = false
  listed name class (t ∷ traffic) =
      str_eq t.name name && str_eq t.class class || listed name class traffic

  listed-append_left :
      (name class : String) (a b : List (TrafficEvaluation Real))
      → listed name class a ≡ true
      → listed name class (a ++ b) ≡ true
  unfolding listed
  listed-append_left name class [] b h = cc
  listed-append_left name class (t ∷ a) b h = ground (arith, listed-append_left name class a b)

  listed-append_right :
      (name class : String) (a b : List (TrafficEvaluation Real))
      → listed name class b ≡ true
      → listed name class (a ++ b) ≡ true
  unfolding listed
  listed-append_right name class [] b h = h
  listed-append_right name class (t ∷ a) b h = ground (arith, listed-append_right name class a b)

  no_breaks : (e : AssessError) (bs : List (TrafficBreak Real)) → failed e ≢ breaks bs
  no_breaks e bs h = cc

  breaks_eq : (a b : List (TrafficBreak Real)) → breaks a ≡ breaks b → a ≡ b
  breaks_eq a b h = cc

  -- Every break is about a series that was evaluated.
  pub data Covered (ts : List (TrafficEvaluation Real)) : Assessed Real → Type 0 where
    fails : (e : AssessError) → Covered ts (failed e)
    covers :
        {bs : List (TrafficBreak Real)}
        → All (λ b. listed b.name b.class ts ≡ true) bs
        → Covered ts (breaks bs)

  pub Covered-All :
      {ts : List (TrafficEvaluation Real)} {a : Assessed Real} (bs : List (TrafficBreak Real))
      → Covered ts a
      → a ≡ breaks bs
      → All (λ b. listed b.name b.class ts ≡ true) bs
  Covered-All bs (fails e) h = absurd (no_breaks e bs h)
  Covered-All {ts} bs (covers {bs = own} c) h =
      subst (All (λ b. listed b.name b.class ts ≡ true)) (breaks_eq own bs h) c

  then_breaks-Covered :
      (ts : List (TrafficEvaluation Real)) (a b : Assessed Real)
      → Covered ts a
      → Covered ts b
      → Covered ts (then_breaks a b)
  then_breaks-Covered ts (failed e) b p q = fails e
  then_breaks-Covered ts (breaks bs) (failed e) p q = fails e
  then_breaks-Covered ts (breaks bs) (breaks bs') (covers p) (covers q) =
      covers (All-append (λ b. listed b.name b.class ts ≡ true) bs bs' p q)

  refused-Covered :
      (ts : List (TrafficEvaluation Real)) (t : Bool) (e : AssessError) (a : Assessed Real)
      → Covered ts a
      → Covered ts (if t then failed e else a)
  refused-Covered ts true e a h = fails e
  refused-Covered ts false e a h = h

  note-Covered :
      (ts : List (TrafficEvaluation Real)) (t : Bool) (b : TrafficBreak Real)
      → listed b.name b.class ts ≡ true
      → Covered ts (breaks (note t b []))
  note-Covered ts true b h = covers (h, tt)
  note-Covered ts false b h = covers tt

  within-Covered :
      (ts : List (TrafficEvaluation Real)) (r : Ranged) (n : ℕ) (above : ℕ → AssessError)
      (under : ℕ → TrafficBreak Real)
      → ((least : ℕ) → listed (under least).name (under least).class ts ≡ true)
      → Covered ts (within r n above under)
  within-Covered ts (range least most) n above under h = elim (Bool-cases (ltb most n)) [
    | inl e ↦ rw e (fails (above most))
    | inr e ↦ rw e (note-Covered ts (ltb n least) (under least) (h least))
  ]
  within-Covered ts (refused e) n above under h = fails (no_range e)
  within-Covered ts panic n above under h = fails divides_by_zero

module _ (f : Float64) where
  open f use {Real, of_nat, flt, fle}

  mark_broken-fails :
      (b : TrafficBreak Real) (ts : List (TrafficEvaluation Real))
      → is_nil (causes_of f (mark_broken b ts)) ≡ true
      → (is_nil (causes_of f ts) ≡ true) × (listed b.name b.class ts ≡ false)
  unfolding mark_broken causes_of listed
  mark_broken-fails b [] h = (refl, refl)
  mark_broken-fails b (t ∷ ts) h = ground (arith, mark_broken-fails b ts)

  -- Where the last word is a rebuilt cause, no break can have failed a series.
  add_breaks-nil :
      (bs : List (TrafficBreak Real)) (e : ScenarioEvaluation Real)
      → e.ok ≡ is_nil (causes_of f e.traffic)
      → (add_breaks f bs e).ok ≡ true
      → is_nil (causes_of f e.traffic) ≡ true
  unfolding add_breaks
  add_breaks-nil [] e w h = sym w ∙ h
  add_breaks-nil (b ∷ bs) e w h =
      (mark_broken-fails b e.traffic (
        add_breaks-nil bs (add_ramp_traffic_break f b e)
          (unfold add_ramp_traffic_break rebuild_scenario_evaluation_cause in refl) h)).0

  pub add_breaks-ok :
      (bs : List (TrafficBreak Real)) (e : ScenarioEvaluation Real)
      → All (λ b. listed b.name b.class e.traffic ≡ true) bs
      → (add_breaks f bs e).ok ≡ true
      → (bs ≡ []) × (e.ok ≡ true)
  unfolding add_breaks
  add_breaks-ok [] e a h = (refl, h)
  add_breaks-ok (b ∷ bs) e a h =
      let (none_failed, absent) = mark_broken-fails b e.traffic (
        add_breaks-nil bs (add_ramp_traffic_break f b e)
          (unfold add_ramp_traffic_break rebuild_scenario_evaluation_cause in refl) h) in
      cc

  evaluate_traffic-listed :
      (name direction class : String) (spec : TrafficSpec Real) (class_spec : TrafficClassSpec Real)
      (metric : Option (TrafficAggregate Real))
      → listed name class (evaluate_traffic f name direction class spec class_spec metric ∷ [])
        ≡ true
  unfolding evaluate_traffic listed
  evaluate_traffic-listed name direction class spec class_spec none =
      rw (str_eq_refl name, str_eq_refl class) refl
  evaluate_traffic-listed name direction class spec class_spec (some metric) =
      rw (str_eq_refl name, str_eq_refl class) refl

  module _ (order : (x : Real) → is_positive f x ≡ true → fle x (of_nat 0) ≡ false) where
    evaluate_class-listed :
        (metrics : MergedMetrics Real) (c : TrafficCase Real) (spec : TrafficSpec Real)
        (class : String) (class_spec : TrafficClassSpec Real)
        → is_positive f class_spec.rate_hz ≡ true
        → listed c.name class (evaluate_class f metrics c spec class class_spec) ≡ true
    unfolding evaluate_class
    evaluate_class-listed metrics c spec class class_spec h = rw (order class_spec.rate_hz h) (
        evaluate_traffic-listed c.name c.direction class spec class_spec (
          traffic_metric f metrics
            (record { traffic_id = spec.traffic_id; direction = c.direction; class = class })))

    -- The two classes of a case in a list that goes on.
    module _ (metrics : MergedMetrics Real) (c : TrafficCase Real) (spec : TrafficSpec Real)
        (more : List (TrafficEvaluation Real)) where
      abbrev case_evaluations : List (TrafficEvaluation Real)
      case_evaluations =
          evaluate_class f metrics c spec loss_tolerant spec.loss_tolerant
          ++ evaluate_class f metrics c spec must_deliver spec.must_deliver
          ++ more

      case-listed :
          All (λ e. listed c.name e.0 case_evaluations ≡ true) (enabled_traffic_classes f spec)
      unfolding enabled_traffic_classes
      case-listed =
          let A = evaluate_class f metrics c spec loss_tolerant spec.loss_tolerant in
          let B = evaluate_class f metrics c spec must_deliver spec.must_deliver in
          let P : String × TrafficClassSpec Real → Type 0 =
            λ e. listed c.name e.0 case_evaluations ≡ true in
          All-append P
            (if is_positive f spec.loss_tolerant.rate_hz
              then (loss_tolerant, spec.loss_tolerant) ∷ []
              else [])
            (if is_positive f spec.must_deliver.rate_hz
              then (must_deliver, spec.must_deliver) ∷ []
              else [])
            (All-when P (is_positive f spec.loss_tolerant.rate_hz)
              (loss_tolerant, spec.loss_tolerant)
              (λ h. listed-append_left c.name loss_tolerant (A ++ B) more (
                listed-append_left c.name loss_tolerant A B
                  (evaluate_class-listed metrics c spec loss_tolerant spec.loss_tolerant h))))
            (All-when P (is_positive f spec.must_deliver.rate_hz) (must_deliver, spec.must_deliver)
              (λ h. listed-append_left c.name must_deliver (A ++ B) more (
                listed-append_right c.name must_deliver A B
                  (evaluate_class-listed metrics c spec must_deliver spec.must_deliver h))))

  latest_or_none :
      (ts : List (TrafficEvaluation Real)) (t : Bool) (a : Assessed Real)
      → Covered ts a
      → Covered ts (if not t then breaks [] else a)
  latest_or_none ts true a h = h
  latest_or_none ts false a h = covers tt

  module _ (cfg : Assessment Real) (active : ℤ) (kind : String)
      (ts : List (TrafficEvaluation Real)) where
    assess_latest-Covered :
        (c : TrafficCase Real) (class : String) (metric : TrafficAggregate Real)
        → listed c.name class ts ≡ true
        → Covered ts (assess_latest f cfg active kind c class metric)
    unfolding assess_latest
    assess_latest-Covered c class metric h =
        refused-Covered ts _ _ _ (within-Covered ts _ metric.staleness.count _ _ (λ least. h))

    assess_class-Covered :
        (c : TrafficCase Real) (spec : TrafficSpec Real) (class : String)
        (class_spec : TrafficClassSpec Real) (metric : Option (TrafficAggregate Real))
        → listed c.name class ts ≡ true
        → Covered ts (assess_class f cfg active kind c spec class class_spec metric)
    unfolding assess_class
    assess_class-Covered c spec class class_spec none h = covers (h, tt)
    assess_class-Covered c spec class class_spec (some metric) h = refused-Covered ts _ _ _ (
        then_breaks-Covered ts _ _ (within-Covered ts _ metric.counts.slots _ _ (λ least. h)) (
          then_breaks-Covered ts _ _ (note-Covered ts _ _ h) (
            latest_or_none ts (str_eq class loss_tolerant) _
              (assess_latest-Covered c class metric h))))

    assess_classes-Covered :
        (metrics : MergedMetrics Real) (c : TrafficCase Real) (spec : TrafficSpec Real)
        (classes : List (String × TrafficClassSpec Real))
        → All (λ e. listed c.name e.0 ts ≡ true) classes
        → Covered ts (assess_classes f cfg active kind metrics c spec classes)
    unfolding assess_classes
    assess_classes-Covered metrics c spec [] a = covers tt
    assess_classes-Covered metrics c spec ((class, class_spec) ∷ classes) a =
        then_breaks-Covered ts _ _ (assess_class-Covered c spec class class_spec _ a.0)
          (assess_classes-Covered metrics c spec classes a.1)

    module _ (order : (x : Real) → is_positive f x ≡ true → fle x (of_nat 0) ≡ false) where
      pub assess_cases-Covered :
          (metrics : MergedMetrics Real) (cases : List (TrafficCase Real))
          → ((name class : String)
              → listed name class (evaluate_cases f metrics cases) ≡ true
              → listed name class ts ≡ true)
          → Covered ts (assess_cases f cfg active kind metrics cases)
      unfolding assess_cases evaluate_cases
      assess_cases-Covered metrics [] h = covers tt
      assess_cases-Covered metrics (c ∷ cases) h = elim (Option-cases c.spec) [
        | inl e ↦
            rw (assess_cases, e)
              (assess_cases-Covered metrics cases
                (λ name class l. h name class (rw (evaluate_cases, e) l)))
        | inr (spec, e) ↦
            let A = evaluate_class f metrics c spec loss_tolerant spec.loss_tolerant in
            let B = evaluate_class f metrics c spec must_deliver spec.must_deliver in
            let more = evaluate_cases f metrics cases in
            let up : (name class : String)
                → listed name class (A ++ B ++ more) ≡ true
                → listed name class ts ≡ true =
              λ name class l. h name class (rw (evaluate_cases, e) l) in
            rw (assess_cases, e)
              (then_breaks-Covered ts _ _
                (assess_classes-Covered metrics c spec (enabled_traffic_classes f spec) (
                  All-map
                    (λ (e : String × TrafficClassSpec Real).
                      listed c.name e.0 (A ++ B ++ more) ≡ true)
                    (λ (e : String × TrafficClassSpec Real). listed c.name e.0 ts ≡ true)
                    (λ e l. up c.name e.0 l) (enabled_traffic_classes f spec)
                    (case-listed order metrics c spec more)))
                (assess_cases-Covered metrics cases
                  (λ name class l. up name class (listed-append_right name class (A ++ B) more l))))
      ]
