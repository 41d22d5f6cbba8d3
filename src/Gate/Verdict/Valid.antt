-- ===== src/Gate/Verdict/Valid.antt =====
-- What a valid verdict of the gate shows.
use rudp_bench.Common.{
  ℕ, ◌++◌, String, ap, subst, ◌∙◌, ◌≡◌, refl, ◌≢◌, ◌⊎◌, inl, inr, true, false, not, ◌&&◌, ◌||◌,
  Option, none, some, List, [], ◌∷◌, ◌==◌, if◌then◌else◌, map, Float64, All, arith, Bool-cases,
  Option-cases,
}
use mathlib.Core.Option
use rudp_bench.Control.Messages.{Result}
use rudp_bench.Gate.DoneReport.{ScenarioDoneStats, DoneConfig}
use rudp_bench.Gate.DoneStats.{validate_scenario_done_stats}
use rudp_bench.Gate.Evidence.NoReason.{note-nil, append-nil_both}
use rudp_bench.Gate.Pair.{NetemRegime}
use rudp_bench.Gate.Trace.{configured_loss, deterministic_loss}
use rudp_bench.Gate.Evidence.{NetemLossEvidence, Reasons, reasons, crashed}
use rudp_bench.Gate.Evidence.Exact.{EvidenceProved, validate_deterministic_loss_evidence-proved}
use rudp_bench.Gate.Verdict.{
  GateReason, given, loss_said, GateInput, GateResult, valid, only_invalid, has_ramp, scenario_of,
  netem_of, disables_offloads, after_reasons, validate_offload_interval_evidence, is_nil,
  schedule_of, done_found, metrics_found, run_found, validate_seeded, validate_netem_loss_evidence,
  verdict_with, evaluate_gate,
}
use rudp_bench.Gate.Verdict.Run.{
  InTime, ExitedWell, MetricsKept, map-nil, verdict_of-valid, process_reasons-nil,
  control_reasons-nil, metrics_found-nil, done_found-nil,
}

module _ (f : Float64) (decode : List ℕ → Option ScenarioDoneStats) where
  open f use {Real}

  module _ (draw : ℕ → ℕ → Real) (hash : List ℕ → String) (executable : Option String) where
    -- The evidence of the losses that a network is given: none are configured, or they are seeded and
    -- the evidence is proved, or nothing is said against that of a random loss.
    abbrev pub LossKept :
        Option (NetemRegime Real)
        → Option Result
        → Option (NetemLossEvidence Real)
        → List String
        → Type 0
    LossKept netem control evidence random =
        (configured_loss f netem ≡ false)
        ⊎ (((deterministic_loss f netem ≡ true)
              × (n : NetemRegime Real) × (netem ≡ some n)
              × EvidenceProved f draw hash executable n (schedule_of control) evidence)
            ⊎ ((deterministic_loss f netem ≡ false) × (random ≡ [])))

    seeded-proved :
        (netem : Option (NetemRegime Real)) (control : Option Result)
        (evidence : Option (NetemLossEvidence Real))
        → deterministic_loss f netem ≡ true
        → validate_seeded f decode draw hash executable netem control evidence ≡ reasons []
        → (n : NetemRegime Real) × (netem ≡ some n)
          × EvidenceProved f draw hash executable n (schedule_of control) evidence
    unfolding validate_seeded deterministic_loss
    seeded-proved none control evidence d h = cc
    seeded-proved (some n) control evidence d h = (
      n,
      refl,
      validate_deterministic_loss_evidence-proved f draw hash executable n (schedule_of control)
          evidence h,
    )

    loss_evidence-kept :
        (netem : Option (NetemRegime Real)) (control : Option Result)
        (evidence : Option (NetemLossEvidence Real)) (random : List String)
        → validate_netem_loss_evidence f decode draw hash executable netem control evidence random
          ≡ some []
        → LossKept netem control evidence random
    unfolding validate_netem_loss_evidence
    loss_evidence-kept netem control evidence random h =
        elim (Bool-cases (configured_loss f netem)) [
          | inr e ↦ inl e
          | inl e ↦ elim (Bool-cases (deterministic_loss f netem)) [
            | inl d ↦
                let (n, there, proved) = seeded-proved netem control evidence d (
                  by_reasons (validate_seeded f decode draw hash executable netem control evidence)
                    (rw (e, d) at h)) in
                inr (inl (d, n, there, proved))
            | inr d ↦ inr (inr (d, map-nil given random (some_eq _ (rw (e, d) at h))))
          ]
        ]
      where
        some_eq : (l : List (GateReason Real)) → some l ≡ some [] → l ≡ []
        some_eq l k = cc

        by_reasons :
            (x : Reasons Real)
            → (elim x [ reasons rs ↦ some (map loss_said rs) | crashed ↦ none ]) ≡ some []
            → x ≡ reasons []
        by_reasons (reasons rs) k = ap reasons (map-nil loss_said rs (some_eq _ k))
        by_reasons crashed k = cc

    module _ (input : GateInput Real) where
      -- What a valid run shows, with its result.
      pub record RunKept (r : Result) (g : GateResult Real) : Type 0 where
        pub control : r.invalid_reasons ≡ []
        pub in_time : All InTime r.participants
        pub done :
            (scenario_of input.config ≡ none)
            ⊎ ((cfg : DoneConfig Real) × (scenario_of input.config ≡ some cfg)
                × ((validate_scenario_done_stats f decode cfg r.participants).invalid ≡ []))
        pub measured :
            (has_ramp input.config ≡ true)
            ⊎ MetricsKept f decode input.control input.metrics input.attempted_threshold
        pub exited : All ExitedWell input.processes
        pub no_drops :
            (input.netem_enabled ≡ false) ⊎ ((input.in_errors ≡ 0) × (input.rcvbuf_errors ≡ 0))
        pub offloads_kept :
            (disables_offloads (netem_of input.config) ≡ false)
            ⊎ ((input.offloads ≡ [])
                × ((input.offloads_after ≡ some [])
                    ⊎ ((input.offloads_after ≡ none) × (g.sut_failure_reasons ≢ []))))
        pub loss_kept :
            LossKept (netem_of input.config) input.control input.loss_evidence input.random_loss

      offload_interval-kept :
          (netem : Option (NetemRegime Real)) (before : List String) (after : Option (List String))
          (failed : List (GateReason Real))
          → validate_offload_interval_evidence netem before after (not (is_nil failed)) ≡ []
          → (disables_offloads netem ≡ false)
            ⊎ ((before ≡ []) × ((after ≡ some []) ⊎ ((after ≡ none) × (failed ≢ []))))
      unfolding validate_offload_interval_evidence
      offload_interval-kept netem before after failed h =
          elim (Bool-cases (disables_offloads netem)) [
            | inr e ↦ inl e
            | inl e ↦
                let (b, a) =
                  append-nil_both (map given before) (after_reasons after (not (is_nil failed)))
                    (rw e at h) in
                inr (map-nil given before b, after_kept after failed a)
          ]
        where
          after_kept :
              (after : Option (List String)) (failed : List (GateReason Real))
              → after_reasons {Real = Real} after (not (is_nil failed)) ≡ []
              → (after ≡ some []) ⊎ ((after ≡ none) × (failed ≢ []))
          after_kept none [] k = cc
          after_kept none (r ∷ rs) k = inr (refl, λ e. cc)
          after_kept (some said) failed k = inl (ap some (map-nil given said k))

      run_found-kept :
          (g : GateResult Real)
          → (run_found f decode input).invalid ≡ []
          → validate_offload_interval_evidence
              (netem_of input.config)
              input.offloads
              input.offloads_after
              (not (is_nil g.sut_failure_reasons))
            ≡ []
          → LossKept (netem_of input.config) input.control input.loss_evidence input.random_loss
          → (r : Result) × (input.control ≡ some r) × RunKept r g
      unfolding run_found
      run_found-kept g all offloads loss =
          let reported = done_found f decode (scenario_of input.config) input.control in
          let metered =
            if has_ramp input.config
            then only_invalid []
            else metrics_found f decode input.control input.metrics input.attempted_threshold in
          let (head, t1) = append-nil_both _ _ all in
          let (extra, controlled) = append-nil_both _ _ head in
          let (done, t2) = append-nil_both reported.invalid _ t1 in
          let (measured, t3) = append-nil_both metered.invalid _ t2 in
          let (exited, t4) = append-nil_both _ _ t3 in
          let drops =
            input.netem_enabled && (not (input.in_errors == 0) || not (input.rcvbuf_errors == 0)) in
          let (dropped, rest) = note-nil drops _ _ t4 in
          let (r, there, stated, in_time) = control_reasons-nil input.control controlled in
          (
            r,
            there,
            record {
              control = stated;
              in_time = in_time;
              done = elim (Option-cases (scenario_of input.config)) [
                | inl e ↦ inl e
                | inr (cfg, e) ↦
                    inr (cfg, e, done_found-nil f decode cfg input.control there (rw e at done))
              ];
              measured = elim (Bool-cases (has_ramp input.config)) [
                | inl e ↦ inl e
                | inr e ↦ inr (
                    metrics_found-nil f decode input.control input.metrics input.attempted_threshold
                      (rw e at measured))
              ];
              exited = process_reasons-nil input.processes exited;
              no_drops = elim (Bool-cases input.netem_enabled) [
                | inl e ↦ inr (ground (arith, dropped, e), ground (arith, dropped, e))
                | inr e ↦ inl e
              ];
              offloads_kept = offload_interval-kept _ _ _ g.sut_failure_reasons offloads;
              loss_kept = loss;
            },
          )

      -- A run that is called valid has a control result with no reason against it and no
      -- acknowledgement after its schedule; where it has a scenario and no ramp, reports with nothing
      -- invalid; unless it has a ramp, merged metrics in order that attempted enough, or whose shortfall
      -- the measured server disclosed as its own; processes that exited with 0 and no drop in the
      -- client's network; where its network disables the offloads, nothing said against the sample
      -- before, nor against the one after, which only a failure of the server lets be missing; and of
      -- its losses proved evidence if they are seeded, and nothing said against it if they are random.
      pub evaluate_gate-valid :
          {g : GateResult Real}
          → evaluate_gate f decode draw hash executable input ≡ some g
          → g.verdict ≡ valid
          → (r : Result) × (input.control ≡ some r) × RunKept r g
      unfolding evaluate_gate
      evaluate_gate-valid {g} h v =
          step
            (validate_netem_loss_evidence f decode draw hash executable (netem_of input.config)
              input.control input.loss_evidence input.random_loss)
            refl h
        where
          step :
              (o : Option (List (GateReason Real)))
              → validate_netem_loss_evidence f decode draw hash executable
                  (netem_of input.config)
                  input.control
                  input.loss_evidence
                  input.random_loss
                ≡ o
              → Option.map
                  (verdict_with f decode draw hash executable input (run_found f decode input))
                  o
                ≡ some g
              → (r : Result) × (input.control ≡ some r) × RunKept r g
          step none q k = cc
          step (some loss) q k =
              let made =
                verdict_with f decode draw hash executable input (run_found f decode input) loss in
              let same : made ≡ g = cc in
              let none_left : made.reasons ≡ [] =
                verdict_of-valid made.reasons (ap (λ (x : GateResult Real). x.verdict) same ∙ v) in
              let of_offloads =
                validate_offload_interval_evidence (netem_of input.config) input.offloads
                  input.offloads_after (not (is_nil (run_found f decode input).failed)) in
              let (more, lost) =
                append-nil_both ((run_found f decode input).invalid ++ of_offloads) loss
                  none_left in
              let (found, offloads) =
                append-nil_both (run_found f decode input).invalid of_offloads more in
              subst (λ (x : GateResult Real). (r : Result) × (input.control ≡ some r) × RunKept r x)
                same
                (run_found-kept made found offloads (
                  loss_evidence-kept (netem_of input.config) input.control input.loss_evidence
                    input.random_loss (q ∙ ap some lost)))
