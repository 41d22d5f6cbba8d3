-- ===== src/Ramp/Score/Watcher.antt =====
-- The watcher stops at the level that the scorer gives.
use rudp_bench.Common.{
  ℕ, zero, suc, ◌≡◌, ◌≢◌, refl, sym, ap, ◌∙◌, inl, inr, false, List, [], ◌∷◌, Bool-cases, All,
}
use rudp_bench.Ramp.Score.{
  RampPoint, Phase, point, broken, RampResult, result, stopped, cancelled, all_passed, before,
  broken_at, score_from, watch_from,
}
use rudp_bench.Ramp.Score.Prefix.{Phase-cases, if_true, if_false}

passed_on : {Real : Type 0} {p : RampPoint Real} → all_passed ≢ stopped p
passed_on h = cc

called_off : {Real : Type 0} {p : RampPoint Real} → cancelled ≢ stopped p
called_off h = cc

stopped_eq : {Real : Type 0} {p q : RampPoint Real} → stopped p ≡ stopped q → p ≡ q
stopped_eq h = cc

module _ {Real Error : Type 0} where
  -- The two runs over one directory: what a poll could read is still there at the end.
  abbrev pub Settled : (ℕ → Phase Real Error) → (ℕ → Phase Real Error) → Type 0
  Settled final poll = (i : ℕ) (p : RampPoint Real) → poll i ≡ point p → final i ≡ point p

  -- Where what the polls read is still there at the end, a watcher that stops at a level has stopped
  -- at the level that the scorer gives, with its cause.
  pub watch_from-score :
      (final : ℕ → Phase Real Error) (polls : List (ℕ → Phase Real Error)) (left index : ℕ)
      {p : RampPoint Real}
      → All (Settled final) polls
      → watch_from polls left index ≡ stopped p
      → (r : RampResult Real) × (score_from final left index ≡ result r)
        × (r.censored ≡ false)
        × (r.score_conns ≡ p.active_conns)
        × (r.cause ≡ broken p.evaluation.causes)
  unfolding watch_from score_from
  watch_from-score final polls zero index a h = absurd (passed_on h)
  watch_from-score final [] (suc left) index a h = absurd (called_off h)
  watch_from-score final (poll ∷ polls) (suc left) index {p} a h = elim (Phase-cases (poll index)) [
    | inr (e, f) ↦ watch_from-score final polls (suc left) index a.1 (rw (watch_from, f) at h)
    | inl (q, f) ↦ elim (Bool-cases q.evaluation.ok) [
      | inr bad ↦
          let same : q ≡ p =
            stopped_eq (sym (if_false q.evaluation.ok _ bad) ∙ rw (watch_from, f) at h) in
          (
            broken_at q,
            rw (score_from, a.0 index q f) (if_false q.evaluation.ok _ bad),
            refl,
            ap (λ (x : RampPoint Real). x.active_conns) same,
            ap (λ (x : RampPoint Real). broken x.evaluation.causes) same,
          )
      | inl good ↦
          let (r, e, c, n, k) =
            watch_from-score final polls left (suc index) a.1
              (sym (if_true q.evaluation.ok _ good) ∙ rw (watch_from, f) at h) in
          (
            record r { timeline = q ∷ r.timeline },
            rw (score_from, a.0 index q f) (if_true q.evaluation.ok _ good ∙ ap (before q) e),
            c,
            n,
            k,
          )
    ]
  ]
