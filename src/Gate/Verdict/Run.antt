-- ===== src/Gate/Verdict/Run.antt =====
-- What no reason against the run itself shows.
use rudp_bench.Common.{
  ℕ, ◌<◌, ◌≡◌, refl, sym, ◌≢◌, ◌⊎◌, inl, inr, true, false, not, ◌&&◌, Option, none, some, List, [],
  ◌∷◌, ◌==◌, ltb, pos, ltb_ℤ, eqb_ℤ, if◌then◌else◌, map, Float64, All, arith, Bool-cases,
}
use rudp_bench.Control.Messages.{Participant, Result}
use rudp_bench.Metrics.Types.{MergedMetrics}
use rudp_bench.Metrics.Finalize.{attempted_ratio, attempted_ratio_with}
use rudp_bench.Gate.DoneReport.{
  ScenarioDoneStats, DoneConfig, total_peer_disconnects, total_send_refused,
}
use rudp_bench.Gate.DoneStats.{validate_scenario_done_stats}
use rudp_bench.Gate.Evidence.NoReason.{note-nil, append-nil_both}
use rudp_bench.Gate.Verdict.{
  ProcessResult, GateReason, control_invalid, done_said, valid, only_invalid, margin_reasons,
  control_reasons, process_reasons, done_found, shortfall, metrics_found, verdict_of,
}

pub map-nil : {A B : Type 0} (g : A → B) (l : List A) → map g l ≡ [] → l ≡ []
map-nil g [] h = refl
map-nil g (x ∷ l) h = cc

-- An acknowledged schedule was not late.
abbrev pub InTime : Participant → Type 0
InTime p = (p.ack_received && ltb_ℤ p.sched_ack.margin_ns (pos 0)) ≡ false

abbrev pub ExitedWell : ProcessResult → Type 0
ExitedWell p = (p.exited ≡ true) × (eqb_ℤ p.exit_code (pos 0) ≡ true)

module _ {Real : Type 0} where
  pub verdict_of-valid : (rs : List (GateReason Real)) → verdict_of rs ≡ valid → rs ≡ []
  verdict_of-valid [] h = refl
  verdict_of-valid (r ∷ rs) h = cc

  margin_reasons-nil :
      (participants : List Participant)
      → margin_reasons {Real = Real} participants ≡ []
      → All InTime participants
  unfolding margin_reasons
  margin_reasons-nil [] h = tt
  margin_reasons-nil (p ∷ participants) h =
      let (a, rest) = note-nil (p.ack_received && ltb_ℤ p.sched_ack.margin_ns (pos 0)) _ _ h in
      (a, margin_reasons-nil participants rest)

  pub process_reasons-nil :
      (processes : List ProcessResult)
      → process_reasons {Real = Real} processes ≡ []
      → All ExitedWell processes
  unfolding process_reasons
  process_reasons-nil [] h = tt
  process_reasons-nil (p ∷ processes) h = elim (Bool-cases p.exited) [
    | inl e ↦
        let (code, rest) = note-nil (not (eqb_ℤ p.exit_code (pos 0))) _ _ (rw e at h) in
        ((e, ground (arith, code)), process_reasons-nil processes rest)
    | inr e ↦ absurd (none_left (rw e at h))
  ]
    where
      none_left : {r : GateReason Real} {rs : List (GateReason Real)} → r ∷ rs ≢ []
      none_left k = cc

  pub control_reasons-nil :
      (control : Option Result)
      → control_reasons {Real = Real} control ≡ []
      → (r : Result) × (control ≡ some r) × (r.invalid_reasons ≡ []) × All InTime r.participants
  unfolding control_reasons
  control_reasons-nil none h = cc
  control_reasons-nil (some r) h =
      let (a, b) = append-nil_both _ _ h in
      (r, refl, map-nil control_invalid r.invalid_reasons a, margin_reasons-nil r.participants b)

module _ (f : Float64) (decode : List ℕ → Option ScenarioDoneStats) where
  open f use {Real, flt, fle}

  -- The run attempted enough, or what it did not is disclosed as the failure of the measured server.
  abbrev pub Attempted : Option Result → MergedMetrics Real → Real → Type 0
  Attempted control m threshold =
      (flt (attempted_ratio f m) threshold ≡ false)
      ⊎ ((0 < total_peer_disconnects decode control)
          ⊎ ((0 < total_send_refused decode control)
              × (fle threshold (attempted_ratio_with f m (total_send_refused decode control))
                  ≡ true)))

  -- The merged metrics of a run that has no ramp.
  abbrev pub MetricsKept : Option Result → Option (MergedMetrics Real) → Real → Type 0
  MetricsKept control metrics threshold =
      (m : MergedMetrics Real) × (metrics ≡ some m)
      × (m.raw.timestamp_order_violations ≡ 0)
      × Attempted control m threshold

  shortfall-nil :
      (control : Option Result) (m : MergedMetrics Real) (threshold : Real)
      → (shortfall f decode control m threshold).invalid ≡ []
      → (0 < total_peer_disconnects decode control)
        ⊎ ((0 < total_send_refused decode control)
            × (fle threshold (attempted_ratio_with f m (total_send_refused decode control)) ≡ true))
  unfolding shortfall
  shortfall-nil control m threshold h =
      let d = total_peer_disconnects decode control in
      let r = total_send_refused decode control in
      elim (Bool-cases (ltb 0 d)) [
        | inl e ↦ inl (ground (arith, e))
        | inr e ↦ elim (Bool-cases (ltb 0 r && fle threshold (attempted_ratio_with f m r))) [
          | inl k ↦ inr (ground (arith, k), ground (arith, k))
          | inr k ↦ absurd (some_left (rw (e, k) at h))
        ]
      ]
    where
      some_left : {x : GateReason Real} {rs : List (GateReason Real)} → x ∷ rs ≢ []
      some_left k = cc

  pub metrics_found-nil :
      (control : Option Result) (metrics : Option (MergedMetrics Real)) (threshold : Real)
      → (metrics_found f decode control metrics threshold).invalid ≡ []
      → MetricsKept control metrics threshold
  unfolding metrics_found
  metrics_found-nil control none threshold h = cc
  metrics_found-nil control (some m) threshold h =
      let first =
        if flt (attempted_ratio f m) threshold
        then shortfall f decode control m threshold
        else only_invalid [] in
      let (a, b) = append-nil_both first.invalid _ h in
      let (c, d) = note-nil (not (m.raw.timestamp_order_violations == 0)) _ _ b in
      (
        m,
        refl,
        ground (arith, c),
        elim (Bool-cases (flt (attempted_ratio f m) threshold)) [
          | inl e ↦ inr (shortfall-nil control m threshold (rw e at a))
          | inr e ↦ inl e
        ],
      )

  pub done_found-nil :
      (cfg : DoneConfig Real) (control : Option Result) {r : Result}
      → control ≡ some r
      → (done_found f decode (some cfg) control).invalid ≡ []
      → (validate_scenario_done_stats f decode cfg r.participants).invalid ≡ []
  unfolding done_found
  done_found-nil cfg none e h = cc
  done_found-nil cfg (some s) {r} e h =
      let same : s ≡ r = cc in rw (sym same) (map-nil done_said _ h)
