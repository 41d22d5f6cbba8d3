-- ===== src/Scenario/Spec/Complete.antt =====
-- When a scenario has an objective for each of its series.
use rudp_bench.Common.{
  ◌≡◌, ◌↔◌, ◌⊎◌, ◌<◌, inl, inr, Bool-cases, refl, Bool, true, false, String, Option, none, some,
  List, [], ◌∷◌, ◌++◌, ◌==◌, arith, length, All, if◌then◌else◌, Float64,
}
use rudp_bench.Scenario.Spec.{
  TrafficClassSpec, TrafficSpec, ScenarioSpec, TrafficCase, scenario_metric_cases,
  loss_tolerant_missing, must_deliver_missing, missing_in, missing_primary_slos,
  has_complete_primary_slos,
}

module _ (f : Float64) where
  open f use {Real, of_nat, flt, fle}

  -- An objective that is set: another number than zero, or a NaN.
  abbrev pub HasObjective : Real → Type 0
  HasObjective x = (fle x (of_nat 0) ≡ false) ⊎ (fle (of_nat 0) x ≡ false)

  -- A series that is sent has an objective: of a loss-tolerant one its delivery or its staleness, of
  -- one that must be delivered its deadline or its eventual delivery.
  abbrev pub SeriesComplete : TrafficSpec Real → Type 0
  SeriesComplete t =
      ((flt (of_nat 0) t.loss_tolerant.rate_hz ≡ false)
        ⊎ (HasObjective t.loss_tolerant.min_delivery_ratio
            ⊎ (0 < t.loss_tolerant.staleness_p99_ns)))
      × ((flt (of_nat 0) t.must_deliver.rate_hz ≡ false)
          ⊎ (HasObjective t.must_deliver.min_deadline_hit_ratio
              ⊎ HasObjective t.must_deliver.min_eventual_delivery_ratio))

  abbrev Unset : Real → Type 0
  Unset x = (fle x (of_nat 0) ≡ true) × (fle (of_nat 0) x ≡ true)

  has_objective : (x : Real) → Unset x ⊎ HasObjective x
  has_objective x = elim (Bool-cases (fle x (of_nat 0))) [
    | inr e ↦ inr (inl e)
    | inl e ↦ elim (Bool-cases (fle (of_nat 0) x)) [ inr k ↦ inr (inr k) | inl k ↦ inl (e, k) ]
  ]

  loss_tolerant_iff :
      (c : TrafficClassSpec Real)
      → (loss_tolerant_missing f c ≡ false) ↔ (
          (flt (of_nat 0) c.rate_hz ≡ false)
          ⊎ (HasObjective c.min_delivery_ratio ⊎ (0 < c.staleness_p99_ns)))
  loss_tolerant_iff c = (
    λ h. elim (Bool-cases (flt (of_nat 0) c.rate_hz)) [
      | inr e ↦ inl e
      | inl e ↦ elim (has_objective c.min_delivery_ratio) [
        | inr k ↦ inr (inl k)
        | inl k ↦ inr (inr (ground (arith, h, e, k.0, k.1)))
      ]
    ],
    λ h. elim h [
      | inl e ↦ ground (arith, e)
      | inr (inl (inl e)) ↦ ground (arith, e)
      | inr (inl (inr e)) ↦ ground (arith, e)
      | inr (inr e) ↦ ground (arith, e)
    ],
  )

  must_deliver_iff :
      (c : TrafficClassSpec Real)
      → (must_deliver_missing f c ≡ false) ↔ (
          (flt (of_nat 0) c.rate_hz ≡ false)
          ⊎ (HasObjective c.min_deadline_hit_ratio ⊎ HasObjective c.min_eventual_delivery_ratio))
  must_deliver_iff c = (
    λ h. elim (Bool-cases (flt (of_nat 0) c.rate_hz)) [
      | inr e ↦ inl e
      | inl e ↦ elim (has_objective c.min_deadline_hit_ratio) [
        | inr k ↦ inr (inl k)
        | inl k ↦ elim (has_objective c.min_eventual_delivery_ratio) [
          | inr m ↦ inr (inr m)
          | inl m ↦ absurd (ground (arith, h, e, k.0, k.1, m.0, m.1))
        ]
      ]
    ],
    λ h. elim h [
      | inl e ↦ ground (arith, e)
      | inr (inl (inl e)) ↦ ground (arith, e)
      | inr (inl (inr e)) ↦ ground (arith, e)
      | inr (inr (inl e)) ↦ ground (arith, e)
      | inr (inr (inr e)) ↦ ground (arith, e)
    ],
  )

  -- Neither series of a case is sent without an objective.
  abbrev pub CaseComplete : TrafficCase Real → Type 0
  CaseComplete c = elim c.spec [ none ↦ Unit | some traffic ↦ SeriesComplete traffic ]

  counted :
      (a b : Bool) (x y : String × String) (rest : List (String × String))
      → ((length ((if a then x ∷ [] else []) ++ (if b then y ∷ [] else []) ++ rest) == 0) ≡ true)
        ↔ ((a ≡ false) × (b ≡ false) × ((length rest == 0) ≡ true))
  counted true true x y rest = (λ h. absurd (ground arith), λ h. absurd (ground arith))
  counted true false x y rest = (λ h. absurd (ground arith), λ h. absurd (ground arith))
  counted false true x y rest = (λ h. absurd (ground arith), λ h. absurd (ground arith))
  counted false false x y rest = (λ h. (refl, refl, h), λ h. h.2)

  missing_in-none :
      (cases : List (TrafficCase Real))
      → ((length (missing_in f cases) == 0) ≡ true) ↔ All CaseComplete cases
  unfolding missing_in
  missing_in-none [] = (λ h. tt, λ h. refl)
  missing_in-none (c ∷ cases) = by_spec c.spec refl (missing_in-none cases)
    where
      by_spec :
          (o : Option (TrafficSpec Real))
          → c.spec ≡ o
          → (((length (missing_in f cases) == 0) ≡ true) ↔ All CaseComplete cases)
          → ((length (missing_in f (c ∷ cases)) == 0) ≡ true) ↔ All CaseComplete (c ∷ cases)
      by_spec none e rest = rw e (λ h. (tt, rest.0 h), λ h. rest.1 h.1)
      by_spec (some traffic) e rest =
          let loss = loss_tolerant_iff traffic.loss_tolerant in
          let must = must_deliver_iff traffic.must_deliver in
          let split =
            counted (loss_tolerant_missing f traffic.loss_tolerant)
              (must_deliver_missing f traffic.must_deliver) (c.name, "loss_tolerant")
              (c.name, "must_deliver") (missing_in f cases) in
          rw e (
            λ h. let (a, b, d) = split.0 h in ((loss.0 a, must.0 b), rest.0 d),
            λ h. split.1 (loss.1 h.0.0, must.1 h.0.1, rest.1 h.1),
          )

  -- A scenario counts as complete exactly if no series of its cases is sent without an objective.
  pub has_complete_primary_slos_iff :
      (s : ScenarioSpec Real)
      → (has_complete_primary_slos f s ≡ true) ↔ All CaseComplete (scenario_metric_cases s)
  unfolding has_complete_primary_slos missing_primary_slos
  has_complete_primary_slos_iff s = missing_in-none (scenario_metric_cases s)
