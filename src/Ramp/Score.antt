-- ===== src/Ramp/Score.antt =====
-- orchestrator/run/ramp.go: `scoreRampSnapshots` and `watchRampSnapshots`, over the evaluation of a
-- phase. The scorer reads the snapshots when the endpoints are done; the watcher polls them, so
-- each of its evaluations has what the directory holds at that time.
pub mod Prefix
pub mod Watcher
use rudp_bench.Common.{ℕ, zero, suc, Bool, true, false, List, [], ◌∷◌, if◌then◌else◌}
use rudp_bench.Scenario.Judge.{ScenarioCause, ScenarioEvaluation}

-- One evaluated phase.
pub record RampPoint (Real : Type 0) : Type 0 where
  pub index : ℕ
  pub active_conns : ℕ
  pub evaluation : ScenarioEvaluation Real

pub data Phase (Real Error : Type 0) : Type 0 where
  point : RampPoint Real → Phase Real Error
  failed : Error → Phase Real Error

pub data ResultCause (Real : Type 0) : Type 0 where
  broken : List (ScenarioCause Real) → ResultCause Real
  no_violation : ResultCause Real

pub record RampResult (Real : Type 0) : Type 0 where
  pub timeline : List (RampPoint Real)
  pub score_conns : ℕ
  pub censored : Bool
  pub cause : ResultCause Real

pub data Scored (Real Error : Type 0) : Type 0 where
  result : RampResult Real → Scored Real Error
  phase_failed : ℕ → Error → Scored Real Error

-- How a watch ends: by a stop marker, by the context, or after the last level.
pub data Watched (Real : Type 0) : Type 0 where
  stopped : RampPoint Real → Watched Real
  cancelled all_passed : Watched Real

abbrev pub broken_at : {Real : Type 0} → RampPoint Real → RampResult Real
broken_at p = record {
  timeline = p ∷ [];
  score_conns = p.active_conns;
  censored = false;
  cause = broken p.evaluation.causes;
}

module _ {Real Error : Type 0} where
  -- A point before the timeline that follows it.
  abbrev pub before : RampPoint Real → Scored Real Error → Scored Real Error
  before p (phase_failed i e) = phase_failed i e
  before p (result r) = result (record r { timeline = p ∷ r.timeline })

  -- The loop with `left` levels from `index` on.
  unfoldable pub score_from : (ℕ → Phase Real Error) → ℕ → ℕ → Scored Real Error
  score_from evaluate zero index =
      result (record { timeline = []; score_conns = 0; censored = true; cause = no_violation })
  score_from evaluate (suc left) index =
      let rest = score_from evaluate left (suc index) in
      elim (evaluate index) [
        | failed e ↦ phase_failed index e
        | point p ↦ if p.evaluation.ok then before p rest else result (broken_at p)
      ]

  abbrev pub score : (ℕ → Phase Real Error) → ℕ → Scored Real Error
  score evaluate levels = score_from evaluate levels 0

  -- One evaluation for each poll, until the context is done.
  unfoldable pub watch_from : List (ℕ → Phase Real Error) → ℕ → ℕ → Watched Real
  watch_from polls zero index = all_passed
  watch_from [] (suc left) index = cancelled
  watch_from (evaluate ∷ polls) (suc left) index =
      let next = watch_from polls left (suc index) in
      let again = watch_from polls (suc left) index in
      elim (evaluate index) [
        | failed e ↦ again
        | point p ↦ if p.evaluation.ok then next else stopped p
      ]
