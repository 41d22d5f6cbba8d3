-- ===== src/Ramp/Tests.antt =====
-- A ramp of three levels whose last level breaks, and one phase that passes.
use rudp_bench.Common.{
  ℕ, ◌+◌, ◌*◌, ◌^◌, ◌≤◌, ◌<◌, ◌≡◌, refl, Bool, true, false, List, [], ◌∷◌, pos, arith, ltb,
  if◌then◌else◌,
}
use rudp_bench.Scenario.Judge.{no_metrics, ScenarioEvaluation}
use rudp_bench.Ramp.Levels.{RampConfig, levels, duration, duration_of, active_conns}
use rudp_bench.Ramp.Levels as Levels
use rudp_bench.Ramp.Levels.Ascends.{active_conns_ascends, duration-levels}
use rudp_bench.Ramp.Score.{
  RampPoint, Phase, point, failed, RampResult, result, broken, stopped, score_from, watch_from,
}
use rudp_bench.Ramp.Score.Prefix.{Entry, score_from-Entry}
use rudp_bench.Ramp.Score.Watcher.{Settled, watch_from-score}

abbrev pub ramp : RampConfig
ramp = record {
  start_conns = pos 3;
  step_conns = pos 4;
  guard = pos 1000;
  sample = pos 160000000;
  drain = pos 500;
}

active_conns_ascends_example :
    (active_conns ramp 1 (pos 10) < active_conns ramp 2 (pos 10))
    × (active_conns ramp 2 (pos 10) ≤ 10)
    × (active_conns ramp 0 (pos 10) ≡ 3)
    × (active_conns ramp 2 (pos 10) ≡ 10)
unfolding levels
active_conns_ascends_example = active_conns_ascends ramp 10 refl 1 (omega arith)

duration-levels_example :
    (n : ℕ) × (levels ramp (pos 10) ≡ Levels.ok n)
    × (480004500 ≡ n * (1000 + 160000000 + 500))
    × (480004500 < 2 ^ 63)
unfolding duration
duration-levels_example = duration-levels ramp (pos 10) refl

abbrev pub judgement : Bool → ScenarioEvaluation ℕ
judgement ok = record {
  ok = ok;
  complete_primary_slos = true;
  missing_slos = [];
  causes = if ok then [] else no_metrics ∷ [];
  traffic = [];
}

abbrev pub level : ℕ → RampPoint ℕ
level i = record { index = i; active_conns = 3 + i * 4; evaluation = judgement (ltb i 2) }

-- The end of the run, and what the polls saw before it.
abbrev at_end : ℕ → Phase ℕ ℕ
at_end i = point (level i)

abbrev early : ℕ → Phase ℕ ℕ
early i = if ltb i 1 then point (level i) else failed 7

abbrev outcome : RampResult ℕ
outcome = record {
  timeline = level 0 ∷ level 1 ∷ level 2 ∷ [];
  score_conns = 11;
  censored = false;
  cause = broken (no_metrics ∷ []);
}

outcome_scored : score_from at_end 3 0 ≡ result outcome
unfolding score_from
outcome_scored = refl

score_from-Entry_example : Entry at_end 3 0 2 outcome
score_from-Entry_example = score_from-Entry at_end 3 0 outcome_scored 2 (omega arith)

abbrev polls : List (ℕ → Phase ℕ ℕ)
polls = early ∷ early ∷ at_end ∷ at_end ∷ []

early-Settled : Settled at_end early
early-Settled i p h = ground arith

watched : watch_from polls 3 0 ≡ stopped (level 2)
unfolding watch_from
watched = refl

watch_from-score_example :
    (r : RampResult ℕ) × (score_from at_end 3 0 ≡ result r)
    × (r.censored ≡ false)
    × (r.score_conns ≡ 11)
    × (r.cause ≡ broken (no_metrics ∷ []))
watch_from-score_example =
    watch_from-score at_end polls 3 0
      (early-Settled, (early-Settled, ((λ i p h. h), ((λ i p h. h), tt)))) watched
