-- ===== src/Gate/Trace.antt =====
-- orchestrator/run/netem_evidence.go: the directions whose loss is a seeded trace, and the record of
-- each that is filled from its two counters. The SHA-256 of a trace is a parameter. Generation that
-- panics ends the process.
use rudp_bench.Common.{
  ℕ, ◌-◌, Bool, false, not, ◌&&◌, ◌||◌, String, Option, none, some, List, [], ◌∷◌, ◌++◌, ◌==◌, ltb,
  ℤ, pos, ltb_ℤ, if◌then◌else◌, Float64,
}
use rudp_bench.Gate.Pair.{Netem, NetemRegime, PairSpec}
use rudp_bench.LossTrace.Count.{CountError, Counted, count_drops_in_range}
use rudp_bench.LossTrace.Count as Count
use rudp_bench.LossTrace.Trace.{
  GenerateError, Generated, trace, refused, panic, generate, default_bits,
}

pub record DeterministicLossDirection (Real : Type 0) : Type 0 where
  pub namespace : String
  pub dev : String
  pub trace_bits : ℤ
  pub counter_before : ℕ
  pub counter_after : ℕ
  pub packets : ℕ
  pub expected_drops : ℕ
  pub realized_loss_pct : Real
  pub trace_sha256 : String

pub record DeterministicDirection (Real : Type 0) : Type 0 where
  pub egress : Netem Real
  pub filled : DeterministicLossDirection Real

pub data CollectError (Real : Type 0) : Type 0 where
  went_backwards : ℕ → ℕ → CollectError Real
  not_regenerated : GenerateError Real → CollectError Real
  not_counted : CountError → CollectError Real

-- A record with the error that stops its filling, or the end of the process.
pub data Filled (Real : Type 0) : Type 0 where
  filled : DeterministicLossDirection Real → Option (CollectError Real) → Filled Real
  crashed : Filled Real

module _ {Real : Type 0} where
  unfoldable pub trace_bits_or_default : Netem Real → ℤ
  trace_bits_or_default egress =
      if ltb_ℤ (pos 0) egress.trace_bits then egress.trace_bits else pos default_bits

module _ (f : Float64) where
  open f use {Real, of_nat, flt}

  abbrev pub is_lossy : Netem Real → Bool
  is_lossy egress = flt (of_nat 0) egress.loss_percent

  abbrev pub is_seeded : Netem Real → Bool
  is_seeded egress = is_lossy egress && not (egress.loss_seed == 0)

  unfoldable pub configured_loss : Option (NetemRegime Real) → Bool
  configured_loss none = false
  configured_loss (some netem) = is_lossy netem.server_egress || is_lossy netem.client_egress

  unfoldable pub deterministic_loss : Option (NetemRegime Real) → Bool
  deterministic_loss none = false
  deterministic_loss (some netem) = is_seeded netem.server_egress || is_seeded netem.client_egress

  abbrev pub new_direction : String → String → Netem Real → DeterministicDirection Real
  new_direction namespace dev egress = record {
    egress = egress;
    filled = record {
      namespace = namespace;
      dev = dev;
      trace_bits = trace_bits_or_default egress;
      counter_before = 0;
      counter_after = 0;
      packets = 0;
      expected_drops = 0;
      realized_loss_pct = of_nat 0;
      trace_sha256 = "";
    };
  }

  unfoldable pub deterministic_directions :
      PairSpec Real → Option (NetemRegime Real) → List (DeterministicDirection Real)
  unfolding trace_bits_or_default
  deterministic_directions pair none = []
  deterministic_directions pair (some netem) =
      (if is_seeded netem.server_egress
        then new_direction pair.server_ns pair.server_veth netem.server_egress ∷ []
        else [])
      ++ (if is_seeded netem.client_egress
          then new_direction pair.client_ns pair.client_veth netem.client_egress ∷ []
          else [])

  module _ (draw : ℕ → ℕ → Real) (hash : List ℕ → String) where
    abbrev pub fill_drops : DeterministicLossDirection Real → Counted → Filled Real
    fill_drops d (Count.failed e) = filled d (some (not_counted e))
    fill_drops d (Count.ok n) = filled (record d { expected_drops = n }) none

    abbrev pub fill_trace : DeterministicLossDirection Real → Generated Real → Filled Real
    fill_trace d panic = crashed
    fill_trace d (refused e) = filled d (some (not_regenerated e))
    fill_trace d (trace words realized) =
        fill_drops (record d { realized_loss_pct = realized; trace_sha256 = hash words })
          (count_drops_in_range words d.counter_before d.counter_after)

    -- The body of the loop over the directions, once both counters are read.
    unfoldable pub fill_direction : Netem Real → DeterministicLossDirection Real → Filled Real
    fill_direction egress d =
        if ltb d.counter_after d.counter_before
        then filled d (some (went_backwards d.counter_before d.counter_after))
        else fill_trace (record d { packets = d.counter_after - d.counter_before })
            (generate f draw egress.loss_seed egress.loss_percent egress.loss_burst_len
              d.trace_bits)
