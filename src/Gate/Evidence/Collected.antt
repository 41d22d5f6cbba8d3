-- ===== src/Gate/Evidence/Collected.antt =====
-- A record that the collector filled is accepted by the gate.
use mathlib.Core.List.{append-nil}
use rudp_bench.Common.{
  ℕ, ◌-◌, ◌≡◌, ◌≢◌, refl, sym, ap, ◌∙◌, inl, inr, true, false, not, ◌&&◌, String, Option, none,
  some, List, [], ◌==◌, ltb, ℤ, eqb_ℤ, str_eq, str_eq-iff, Float64, arith, Bool-cases, subst,
  ==_refl,
}
use rudp_bench.LossTrace.Count.{CountError, Counted, count_drops_in_range}
use rudp_bench.LossTrace.Count as Count
use rudp_bench.LossTrace.Trace.{Generated, trace, refused, panic, generate}
use rudp_bench.Scenario.Judge.{note}
use rudp_bench.Gate.Pair.{Netem}
use rudp_bench.Gate.Trace.{
  DeterministicLossDirection, CollectError, trace_bits_or_default, filled, fill_drops, fill_trace,
  fill_direction,
}
use rudp_bench.Gate.Evidence.{no_packets, no_drops, reasons, check_drops, check_trace, check_record}

module _ (f : Float64) (draw : ℕ → ℕ → f.Real) (hash : List ℕ → String) where
  open f use {Real, fle}

  -- What the filling leaves alone.
  record Kept (d d' : DeterministicLossDirection Real) : Type 0 where
    source : d'.namespace ≡ d.namespace
    device : d'.dev ≡ d.dev
    bits : d'.trace_bits ≡ d.trace_bits
    from : d'.counter_before ≡ d.counter_before
    to : d'.counter_after ≡ d.counter_after
    counted : d'.packets ≡ d.packets

  filled_eq :
      {d d' : DeterministicLossDirection Real} {e : Option (CollectError Real)}
      → filled d e ≡ filled d' none
      → (d ≡ d') × (e ≡ none)
  filled_eq h = (cc, cc)

  stopped :
      {d d' : DeterministicLossDirection Real} {e : CollectError Real}
      → filled d (some e) ≢ filled d' none
  stopped h = cc

  str_same : (a : String) → str_eq a a ≡ true
  str_same a = (str_eq-iff a a).1 refl

  module _ (name : String) where
    check_trace-filled :
        (d : DeterministicLossDirection Real) (words : List ℕ) (realized : Real) (n : ℕ)
        → fle realized realized ≡ true
        → count_drops_in_range words d.counter_before d.counter_after ≡ Count.ok n
        → check_trace f draw hash name
            (record d {
              realized_loss_pct = realized;
              trace_sha256 = hash words;
              expected_drops = n;
            })
            (trace words realized)
          ≡ reasons []
    unfolding check_trace check_drops
    check_trace-filled d words realized n number e =
        rw (e, str_same (hash words), number, ==_refl n) refl

    check_trace-counted :
        (d : DeterministicLossDirection Real) (words : List ℕ) (realized : Real) (c : Counted)
        {d' : DeterministicLossDirection Real}
        → count_drops_in_range words d.counter_before d.counter_after ≡ c
        → fill_drops f draw hash
            (record d { realized_loss_pct = realized; trace_sha256 = hash words })
            c
          ≡ filled d' none
        → fle d'.realized_loss_pct d'.realized_loss_pct ≡ true
        → (check_trace f draw hash name d' (trace words realized) ≡ reasons []) × Kept d d'
    check_trace-counted d words realized (Count.failed e) k h number = cc
    check_trace-counted d words realized (Count.ok n) k h number =
        let same = (filled_eq h).0 in
        subst
          (λ (x : DeterministicLossDirection Real).
            (check_trace f draw hash name x (trace words realized) ≡ reasons []) × Kept d x)
          same
          (
            check_trace-filled d words realized n
                (ap
                    (λ (x : DeterministicLossDirection Real).
                      fle x.realized_loss_pct x.realized_loss_pct)
                    same
                  ∙ number)
                k,
            record {
              source = refl;
              device = refl;
              bits = refl;
              from = refl;
              to = refl;
              counted = refl;
            },
          )

    check_trace-fill_trace :
        (d : DeterministicLossDirection Real) (g : Generated Real)
        {d' : DeterministicLossDirection Real}
        → fill_trace f draw hash d g ≡ filled d' none
        → fle d'.realized_loss_pct d'.realized_loss_pct ≡ true
        → (check_trace f draw hash name d' g ≡ reasons []) × Kept d d'
    check_trace-fill_trace d panic h number = cc
    check_trace-fill_trace d (refused e) h number = cc
    check_trace-fill_trace d (trace words realized) h number =
        check_trace-counted d words realized
          (count_drops_in_range words d.counter_before d.counter_after) refl h number

    -- The record that the collector fills without an error, for a direction that is configured so, and
    -- whose realized rate is not a NaN, is accepted by the gate unless no packet passed or the trace
    -- drops none of them.
    pub check_record-fill_direction :
        (egress : Netem Real) (d : DeterministicLossDirection Real)
        {d' : DeterministicLossDirection Real}
        → d.trace_bits ≡ trace_bits_or_default egress
        → fill_direction f draw hash egress d ≡ filled d' none
        → fle d'.realized_loss_pct d'.realized_loss_pct ≡ true
        → check_record f draw hash name d.namespace d.dev egress d'
          ≡ reasons (
              note
                (d'.packets == 0)
                (no_packets name)
                (note (d'.expected_drops == 0) (no_drops name) []))
    unfolding fill_direction check_record
    check_record-fill_direction egress d {d'} b h number =
        elim (Bool-cases (ltb d.counter_after d.counter_before)) [
          | inl e ↦ absurd (stopped (rw (fill_direction, e) at h))
          | inr e ↦
              let made =
                generate f draw egress.loss_seed egress.loss_percent egress.loss_burst_len in
              let (t, k) =
                check_trace-fill_trace (record d { packets = d.counter_after - d.counter_before })
                  (made d.trace_bits) (rw (fill_direction, e) at h) number in
              let source : not (str_eq d'.namespace d.namespace && str_eq d'.dev d.dev) ≡ false =
                ground (arith, k.source, k.device, str_same d'.namespace, str_same d'.dev) in
              let same_bits : d'.trace_bits ≡ trace_bits_or_default egress = k.bits ∙ b in
              let bits : not (eqb_ℤ d'.trace_bits (trace_bits_or_default egress)) ≡ false =
                ground (arith, same_bits) in
              let order : ltb d'.counter_after d'.counter_before ≡ false =
                ground (arith, k.from, k.to, e) in
              let packets : not (d'.packets == d'.counter_after - d'.counter_before) ≡ false =
                ground (arith, k.from, k.to, k.counted) in
              let traced : check_trace f draw hash name d' (made d'.trace_bits) ≡ reasons [] =
                subst (λ (z : ℤ). check_trace f draw hash name d' (made z) ≡ reasons [])
                  (sym k.bits) t in
              let rs =
                note (d'.packets == 0) (no_packets name)
                  (note (d'.expected_drops == 0) (no_drops name) []) in
              rw (source, bits, order, packets, traced) (ap reasons (append-nil rs))
        ]
