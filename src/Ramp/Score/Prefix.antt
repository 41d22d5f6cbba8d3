-- ===== src/Ramp/Score/Prefix.antt =====
-- The score is the first level that breaks.
use rudp_bench.Common.{
  ℕ, zero, suc, ◌+◌, ◌<◌, ◌≡◌, ◌≢◌, refl, sym, ap, ◌∙◌, ◌⊎◌, inl, inr, Bool, true, false, [], ◌∷◌,
  some, if◌then◌else◌, arith, length, get_elem?, Bool-cases, subst,
}
use rudp_bench.Ramp.Score.{
  RampPoint, Phase, point, failed, broken, no_violation, RampResult, Scored, result, phase_failed,
  before, broken_at, score_from,
}

result_eq :
    {Real Error : Type 0} {a b : RampResult Real}
    → ◌≡◌ {A = Scored Real Error} (result a) (result b)
    → a ≡ b
result_eq h = cc

pub if_true : {A : Type 0} (b : Bool) {x : A} (y : A) → b ≡ true → (if b then x else y) ≡ x
if_true true y h = refl
if_true false y h = cc

pub if_false : {A : Type 0} (b : Bool) (x : A) {y : A} → b ≡ false → (if b then x else y) ≡ y
if_false true x h = cc
if_false false x h = refl

module _ {Real Error : Type 0} where
  pub Phase-cases :
      (x : Phase Real Error)
      → ((p : RampPoint Real) × (x ≡ point p)) ⊎ ((e : Error) × (x ≡ failed e))
  Phase-cases (point p) = inl (p, refl)
  Phase-cases (failed e) = inr (e, refl)

  no_result : (i : ℕ) (e : Error) {r : RampResult Real} → phase_failed i e ≢ result r
  no_result i e h = cc

  -- What entry `j` of a scored timeline shows, of `left` levels from `index` on: it is the
  -- evaluation of its level, and it passes unless it is the last and gives the score.
  pub record Entry (evaluate : ℕ → Phase Real Error) (left index j : ℕ) (r : RampResult Real)
      : Type 0 where
    pub entry : RampPoint Real
    pub listed : get_elem? r.timeline j ≡ some entry
    pub evaluated : evaluate (index + j) ≡ point entry
    pub outcome :
        ((entry.evaluation.ok ≡ true)
          × ((suc j < length r.timeline)
              ⊎ ((r.censored ≡ true) × (length r.timeline ≡ left) × (r.cause ≡ no_violation))))
        ⊎ ((entry.evaluation.ok ≡ false)
            × (suc j ≡ length r.timeline)
            × (r.censored ≡ false)
            × (r.score_conns ≡ entry.active_conns)
            × (r.cause ≡ broken entry.evaluation.causes))

  before-result :
      (p : RampPoint Real) (x : Scored Real Error) {r : RampResult Real}
      → before p x ≡ result r
      → (r' : RampResult Real) × (x ≡ result r') × (record r' { timeline = p ∷ r'.timeline } ≡ r)
  before-result p (result r') h = (r', refl, cc)
  before-result p (phase_failed i e) h = cc

  score_from-suc :
      (evaluate : ℕ → Phase Real Error) (left index : ℕ) {r : RampResult Real}
      → score_from evaluate (suc left) index ≡ result r
      → (p : RampPoint Real) × (evaluate index ≡ point p)
        × (((p.evaluation.ok ≡ true)
              × (r' : RampResult Real) × (score_from evaluate left (suc index) ≡ result r')
              × (record r' { timeline = p ∷ r'.timeline } ≡ r))
            ⊎ ((p.evaluation.ok ≡ false) × (broken_at p ≡ r)))
  unfolding score_from
  score_from-suc evaluate left index {r} h = elim (Phase-cases (evaluate index)) [
    | inr (e, f) ↦ absurd (no_result index e (rw (score_from, f) at h))
    | inl (p, f) ↦ elim (Bool-cases p.evaluation.ok) [
      | inr bad ↦ (
        p,
        f,
        inr (bad, result_eq (sym (if_false p.evaluation.ok _ bad) ∙ rw (score_from, f) at h)),
      )
      | inl good ↦
          let (r', e, same) =
            before-result p (score_from evaluate left (suc index))
              (sym (if_true p.evaluation.ok _ good) ∙ rw (score_from, f) at h) in
          (p, f, inl (good, r', e, same))
    ]
  ]

  -- A result has a level, unless none is left.
  timeline-nonempty :
      (evaluate : ℕ → Phase Real Error) (left index : ℕ) {r : RampResult Real}
      → score_from evaluate left index ≡ result r
      → (0 < length r.timeline)
        ⊎ ((left ≡ 0) × (r.timeline ≡ []) × (r.censored ≡ true) × (r.cause ≡ no_violation))
  timeline-nonempty evaluate zero index h = unfold score_from in inr (ground arith)
  timeline-nonempty evaluate (suc left) index h =
      let (p, f, e) = score_from-suc evaluate left index h in
      elim e [
        | inl (good, r', rest, same) ↦
            inl (subst (λ (q : RampResult Real). 0 < length q.timeline) same (omega arith))
        | inr (bad, same) ↦
            inl (subst (λ (q : RampResult Real). 0 < length q.timeline) same (omega arith))
      ]

  pushed :
      (evaluate : ℕ → Phase Real Error) (left index : ℕ) (p : RampPoint Real) (r : RampResult Real)
      → p.evaluation.ok ≡ true
      → evaluate index ≡ point p
      → score_from evaluate left (suc index) ≡ result r
      → ((j : ℕ) → j < length r.timeline → Entry evaluate left (suc index) j r)
      → (j : ℕ) → j < length (p ∷ r.timeline)
      → Entry evaluate (suc left) index j (record r { timeline = p ∷ r.timeline })
  pushed evaluate left index p r good f rest all zero l = record {
    entry = p;
    listed = refl;
    evaluated = subst (λ (i : ℕ). evaluate i ≡ point p) (omega arith) f;
    outcome = inl (
      good,
      elim (timeline-nonempty evaluate left (suc index) rest) [
        | inl l' ↦ inl (omega arith)
        | inr (done, none_left, c, v) ↦
            inr (c, omega (arith, done, ap (length {A = RampPoint Real}) none_left), v)
      ],
    );
  }
  pushed evaluate left index p r good f rest all (suc j) l =
      let e = all j (omega arith) in
      record {
        entry = e.entry;
        listed = e.listed;
        evaluated = subst (λ (i : ℕ). evaluate i ≡ point e.entry) (omega arith) e.evaluated;
        outcome = ground (arith, e.outcome);
      }

  no_levels :
      (evaluate : ℕ → Phase Real Error) (index : ℕ) {r : RampResult Real}
      → score_from evaluate zero index ≡ result r
      → ¬ (0 < length r.timeline)
  unfolding score_from
  no_levels evaluate index h l = ground arith

  last :
      (evaluate : ℕ → Phase Real Error) (left index : ℕ) (p : RampPoint Real)
      → p.evaluation.ok ≡ false
      → evaluate index ≡ point p
      → (j : ℕ) → j < 1
      → Entry evaluate (suc left) index j (broken_at p)
  last evaluate left index p bad f zero l = record {
    entry = p;
    listed = refl;
    evaluated = subst (λ (i : ℕ). evaluate i ≡ point p) (omega arith) f;
    outcome = inr (bad, refl, refl, refl, refl);
  }
  last evaluate left index p bad f (suc j) l = absurd (omega arith)

  -- Each entry of a scored timeline is the evaluation of its level. It passes and another follows,
  -- or it passes as the last level of a censored result, or it breaks as the last entry and gives
  -- the score and the cause.
  pub score_from-Entry :
      (evaluate : ℕ → Phase Real Error) (left index : ℕ) {r : RampResult Real}
      → score_from evaluate left index ≡ result r
      → (j : ℕ) → j < length r.timeline
      → Entry evaluate left index j r
  score_from-Entry evaluate zero index {r} h j l = elim (timeline-nonempty evaluate zero index h) [
    | inl l' ↦ absurd (no_levels evaluate index h l')
    | inr (done, none_left, c, v) ↦
        absurd (omega (arith, ap (length {A = RampPoint Real}) none_left))
  ]
  score_from-Entry evaluate (suc left) index {r} h j l =
      let (p, f, e) = score_from-suc evaluate left index h in
      elim e [
        | inr (bad, same) ↦ subst (Entry evaluate (suc left) index j) same (
            last evaluate left index p bad f j
              (subst (λ (q : RampResult Real). j < length q.timeline) (sym same) l))
        | inl (good, r', rest, same) ↦ subst (Entry evaluate (suc left) index j) same (
            pushed evaluate left index p r' good f rest
              (score_from-Entry evaluate left (suc index) rest) j
              (subst (λ (q : RampResult Real). j < length q.timeline) (sym same) l))
      ]
