-- ===== src/Gate/Evidence/Exact.antt =====
-- What accepted loss evidence shows, and that the collected records are accepted.
use rudp_bench.Common.{
  ℕ, ◌-◌, ◌≤◌, ◌<◌, ◌≡◌, ◌≢◌, refl, ap, ◌⊎◌, inl, inr, true, not, ◌&&◌, String, Option, none, some,
  List, [], ◌∷◌, ◌==◌, ltb, pos, ◌≤ℤ◌, ◌<ℤ◌, ltb_ℤ, leb_ℤ, eqb_ℤ, str_eq, Float64, map, arith,
  Bool-cases, Option-cases,
}
use rudp_bench.Control.Messages.{ScheduleMessage}
use rudp_bench.LossTrace.Count.{CountError, Counted, count_drops_in_range}
use rudp_bench.LossTrace.Count as Count
use rudp_bench.LossTrace.Trace.{GenerateError, Generated, trace, refused, panic, generate}
use rudp_bench.Gate.Pair.{Netem, NetemRegime, PairSpec, pair_spec}
use rudp_bench.Gate.Trace.{DeterministicLossDirection, trace_bits_or_default}
use rudp_bench.Gate.Evidence.{
  DeterministicLossEvidence, NetemLossEvidence, LossReason, reported, drops_differ,
  counters_missing, reasons, same_schedule, differs, check_drops, check_trace, check_record,
  check_direction, check_counters, check_schedule, validate_deterministic_loss_evidence,
  deterministic_losstrace, effective_measurement_window_inner,
}
use rudp_bench.Gate.Evidence.NoReason.{
  note-nil, append-nil_both, reasons_eq, then_reasons-nil, join_reasons-nil, some_reason,
}

Generated-cases :
    {R : Type 0} (g : Generated R)
    → ((words : List ℕ) × (x : R) × (g ≡ trace words x))
      ⊎ (((e : GenerateError R) × (g ≡ refused e)) ⊎ (g ≡ panic))
Generated-cases (trace words x) = inl (words, x, refl)
Generated-cases (refused e) = inr (inl (e, refl))
Generated-cases panic = inr (inr refl)

module _ (f : Float64) (draw : ℕ → ℕ → f.Real) (hash : List ℕ → String) where
  open f use {Real, of_nat, fle}

  -- A record that is proved: its source and trace are those of the configuration, packets passed, and
  -- the drops that it names are those of the trace between its counters, one at least.
  pub record RecordProved (namespace device : String) (expected : Netem Real)
      (d : DeterministicLossDirection Real) : Type 0 where
    pub source : (str_eq d.namespace namespace && str_eq d.dev device) ≡ true
    pub bits : eqb_ℤ d.trace_bits (trace_bits_or_default expected) ≡ true
    pub ordered : d.counter_before ≤ d.counter_after
    pub packets : d.packets ≡ d.counter_after - d.counter_before
    pub some_packets : 0 < d.packets
    pub some_drops : 0 < d.expected_drops
    pub words : List ℕ
    pub realized : Real
    pub generated :
        generate f draw expected.loss_seed expected.loss_percent expected.loss_burst_len
          d.trace_bits
        ≡ trace words realized
    pub hashed : str_eq (hash words) d.trace_sha256 ≡ true
    pub drops :
        count_drops_in_range words d.counter_before d.counter_after ≡ Count.ok d.expected_drops

  check_drops-nil :
      (name : String) (d : DeterministicLossDirection Real) (c : Counted)
      → check_drops f draw hash name d c ≡ []
      → c ≡ Count.ok d.expected_drops
  unfolding check_drops
  check_drops-nil name d (Count.failed e) h = cc
  check_drops-nil name d (Count.ok n) h =
      let (same, rest) = note-nil (not (n == d.expected_drops)) (drops_differ name) [] h in
      let e : n ≡ d.expected_drops = ground arith in ap Count.ok e

  check_trace-nil :
      (name : String) (d : DeterministicLossDirection Real) (g : Generated Real)
      → check_trace f draw hash name d g ≡ reasons []
      → (words : List ℕ) × (realized : Real) × (g ≡ trace words realized)
        × (str_eq (hash words) d.trace_sha256 ≡ true)
        × (count_drops_in_range words d.counter_before d.counter_after ≡ Count.ok d.expected_drops)
  unfolding check_trace
  check_trace-nil name d panic h = cc
  check_trace-nil name d (refused e) h = cc
  check_trace-nil name d (trace words realized) h =
      let (hashed, rest) =
        note-nil (not (str_eq (hash words) d.trace_sha256)) _ _ (reasons_eq _ _ h) in
      let (same, counted) = note-nil (differs f draw hash realized d.realized_loss_pct) _ _ rest in
      (
        words,
        realized,
        refl,
        ground (arith, hashed),
        check_drops-nil name d (count_drops_in_range words d.counter_before d.counter_after)
            counted,
      )

  check_record-proved :
      (name namespace device : String) (expected : Netem Real) (d : DeterministicLossDirection Real)
      → check_record f draw hash name namespace device expected d ≡ reasons []
      → RecordProved namespace device expected d
  unfolding check_record
  check_record-proved name namespace device expected d h =
      let source = not (str_eq d.namespace namespace && str_eq d.dev device) in
      let bits = not (eqb_ℤ d.trace_bits (trace_bits_or_default expected)) in
      elim (Bool-cases (ltb d.counter_after d.counter_before)) [
        | inl e ↦
            let (s, r) = note-nil source _ _ (reasons_eq _ _ (rw e at h)) in
            let (b, r2) = note-nil bits _ _ r in cc
        | inr e ↦
            let (first, traced) = then_reasons-nil _ _ (rw e at h) in
            let (s, r) = note-nil source _ _ first in
            let (b, r2) = note-nil bits _ _ r in
            let (k, r3) = note-nil (not (d.packets == d.counter_after - d.counter_before)) _ _ r2 in
            let (m, r4) = note-nil (d.packets == 0) _ _ r3 in
            let (n, r5) = note-nil (d.expected_drops == 0) _ _ r4 in
            let (words, realized, g, hashed, drops) =
              check_trace-nil name d
                (generate f draw expected.loss_seed expected.loss_percent expected.loss_burst_len
                  d.trace_bits)
                traced in
            record {
              source = ground (arith, s);
              bits = ground (arith, b);
              ordered = ground (arith, e);
              packets = ground (arith, k);
              some_packets = ground (arith, m);
              some_drops = ground (arith, n);
              words = words;
              realized = realized;
              generated = g;
              hashed = hashed;
              drops = drops;
            }
      ]

  -- A direction without loss, or with seeded loss and a record that is proved.
  abbrev pub DirectionProved :
      String → String → Netem Real → Option (DeterministicLossDirection Real) → Type 0
  DirectionProved namespace device expected held =
      (fle expected.loss_percent (of_nat 0) ≡ true)
      ⊎ ((expected.loss_seed ≢ 0)
          × (d : DeterministicLossDirection Real) × (held ≡ some d)
          × RecordProved namespace device expected d)

  check_direction-proved :
      (name namespace device : String) (expected : Netem Real)
      (held : Option (DeterministicLossDirection Real))
      → check_direction f draw hash name namespace device expected held ≡ reasons []
      → DirectionProved namespace device expected held
  unfolding check_direction
  check_direction-proved name namespace device expected none h =
      elim (Bool-cases (fle expected.loss_percent (of_nat 0))) [
        | inl e ↦ inl e
        | inr e ↦ elim (Bool-cases (expected.loss_seed == 0)) [
          | inl z ↦ absurd (some_reason _ _ (rw (e, z) at h))
          | inr z ↦ absurd (some_reason _ _ (rw (e, z) at h))
        ]
      ]
  check_direction-proved name namespace device expected (some d) h =
      elim (Bool-cases (fle expected.loss_percent (of_nat 0))) [
        | inl e ↦ inl e
        | inr e ↦ elim (Bool-cases (expected.loss_seed == 0)) [
          | inl z ↦ absurd (some_reason _ _ (rw (e, z) at h))
          | inr z ↦ inr (
            (λ q. let t : (expected.loss_seed == 0) ≡ true = ground arith in cc),
            d,
            refl,
            check_record-proved name namespace device expected d (rw (e, z) at h),
          )
        ]
      ]

  -- The counters were read inside the window, the first pair before the second.
  pub record WindowProved (schedule : ScheduleMessage) (det : DeterministicLossEvidence Real)
      : Type 0 where
    pub started : schedule.start_at_ns ≤ℤ det.capture_before_start_ns
    pub in_order : det.capture_before_finish_ns <ℤ det.capture_after_start_ns
    pub ended : det.capture_after_finish_ns ≤ℤ schedule.stop_at_ns

  check_counters-proved :
      (pair : PairSpec Real) (netem : NetemRegime Real) (schedule : ScheduleMessage)
      (det : DeterministicLossEvidence Real)
      → check_counters f draw hash pair netem schedule det ≡ reasons []
      → WindowProved schedule det
        × DirectionProved pair.server_ns pair.server_veth netem.server_egress det.server_egress
        × DirectionProved pair.client_ns pair.client_veth netem.client_egress det.client_egress
  unfolding check_counters
  check_counters-proved pair netem schedule det h =
      let (timing, rest) = then_reasons-nil _ _ h in
      let (a, t1) = note-nil (ltb_ℤ det.capture_before_start_ns schedule.start_at_ns) _ _ timing in
      let (b, t2) = note-nil (ltb_ℤ schedule.stop_at_ns det.capture_after_finish_ns) _ _ t1 in
      let (c, t3) =
        note-nil (leb_ℤ det.capture_after_start_ns det.capture_before_finish_ns) _ _ t2 in
      let (server, client) = join_reasons-nil _ _ rest in
      (
        record {
          started = ground (arith, a);
          in_order = ground (arith, c);
          ended = ground (arith, b);
        },
        check_direction-proved "server_egress" pair.server_ns pair.server_veth netem.server_egress
            det.server_egress server,
        check_direction-proved "client_egress" pair.client_ns pair.client_veth netem.client_egress
            det.client_egress client,
      )

  map-nil : (l : List String) → map {B = LossReason Real} reported l ≡ [] → l ≡ []
  map-nil [] h = refl
  map-nil (x ∷ l) h = cc

  check_schedule-nil :
      (effective : Option ScheduleMessage) (captured : ScheduleMessage)
      → check_schedule f draw hash effective captured ≡ []
      → (s : ScheduleMessage) × (effective ≡ some s) × (same_schedule captured s ≡ true)
  check_schedule-nil none captured h = cc
  check_schedule-nil (some s) captured h =
      let (same, rest) = note-nil (not (same_schedule captured s)) _ _ h in
      (s, refl, ground (arith, same))

  -- What accepted evidence shows of a regime, against the schedule of the control result.
  abbrev pub EvidenceProved :
      Option String
      → NetemRegime Real
      → Option ScheduleMessage
      → Option (NetemLossEvidence Real)
      → Type 0
  EvidenceProved executable netem effective held =
      (e : NetemLossEvidence Real) × (det : DeterministicLossEvidence Real) × (s : ScheduleMessage)
      × (held ≡ some e)
      × (e.deterministic ≡ some det)
      × (e.errors ≡ [])
      × (effective ≡ some s)
      × (same_schedule e.schedule s ≡ true)
      × WindowProved e.schedule det
      × DirectionProved (pair_spec executable netem).server_ns
          (pair_spec executable netem).server_veth netem.server_egress det.server_egress
      × DirectionProved (pair_spec executable netem).client_ns
          (pair_spec executable netem).client_veth netem.client_egress det.client_egress

  -- Evidence with no reason against it has no error, the schedule of the control result, counters
  -- read in order inside the window, and for each direction with loss a seed and a proved record.
  pub validate_deterministic_loss_evidence-proved :
      (executable : Option String) (netem : NetemRegime Real) (effective : Option ScheduleMessage)
      (held : Option (NetemLossEvidence Real))
      → validate_deterministic_loss_evidence f draw hash executable netem effective held
        ≡ reasons []
      → (e : NetemLossEvidence Real) × (det : DeterministicLossEvidence Real)
        × (s : ScheduleMessage) × (held ≡ some e)
        × (e.deterministic ≡ some det)
        × (e.errors ≡ [])
        × (effective ≡ some s)
        × (same_schedule e.schedule s ≡ true)
        × WindowProved e.schedule det
        × DirectionProved
            (pair_spec executable netem).server_ns
            (pair_spec executable netem).server_veth
            netem.server_egress
            det.server_egress
        × DirectionProved
            (pair_spec executable netem).client_ns
            (pair_spec executable netem).client_veth
            netem.client_egress
            det.client_egress
  unfolding validate_deterministic_loss_evidence
  validate_deterministic_loss_evidence-proved executable netem effective none h =
      absurd (some_reason _ _ h)
  validate_deterministic_loss_evidence-proved executable netem effective (some e) h =
      let (first, rest) = then_reasons-nil _ _ h in
      let (v, r1) = note-nil (not (eqb_ℤ e.version (pos 1))) _ _ first in
      let (m, r2) = note-nil (not (str_eq e.mode deterministic_losstrace)) _ _ r1 in
      let (u, r3) = note-nil (not e.supported) _ _ r2 in
      let (c, r4) = note-nil (not (str_eq e.scope effective_measurement_window_inner)) _ _ r3 in
      let (errors, timed) = append-nil_both _ _ r4 in
      let (s, known, same) = check_schedule-nil effective e.schedule timed in
      elim (Option-cases e.deterministic) [
        | inl absent ↦ absurd (some_reason counters_missing [] (rw absent at rest))
        | inr (det, there) ↦
            let (window, server, client) =
              check_counters-proved (pair_spec executable netem) netem e.schedule det
                (rw there at rest) in
            (e, det, s, refl, there, map-nil e.errors errors, known, same, window, server, client)
      ]
