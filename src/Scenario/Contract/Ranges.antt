-- ===== src/Scenario/Contract/Ranges.antt =====
-- orchestrator/run/scenario_metrics.go: the numbers of slots and of staleness samples that a run of
-- a given duration may show. The duration is positive past its test, and its nanoseconds its value.
pub mod Exact
use rudp_bench.Common.{
  ℕ, ◌-◌, ◌/◌, ◌%◌, Bool, not, ◌||◌, ℤ, pos, pos_part, leb_ℤ, ◌==◌, ltb, if◌then◌else◌, add_u64,
  mul_u64, u64_mod, Float64,
}

pub data RangeError : Type 0 where
  not_positive invalid_rate overflow : RangeError

-- The least and the greatest number, an error, or the panic of a division by zero.
pub data Ranged : Type 0 where
  range : ℕ → ℕ → Ranged
  refused : RangeError → Ranged
  panic : Ranged

abbrev pub u64_max : ℕ
u64_max = u64_mod - 1

-- `n / d`, one more where something is left.
abbrev pub quotient_up : ℕ → ℕ → ℕ
quotient_up n d = if n % d == 0 then n / d else add_u64 (n / d) 1

unfoldable pub expected_staleness_sample_range : ℤ → ℕ → ℤ → Ranged
expected_staleness_sample_range duration period flows =
    let ticks = quotient_up (pos_part duration) period in
    let least : ℕ = if ltb 2 ticks then ticks - 2 else 1 in
    let most = add_u64 ticks 2 in
    let n = pos_part flows in
    if leb_ℤ duration (pos 0) || period == 0 || leb_ℤ flows (pos 0)
    then refused not_positive
    else if ltb (u64_max / n) most
    then refused overflow
    else range (mul_u64 least n) (mul_u64 most n)

-- Past the tests of the rate, with the interval between two slots.
unfoldable pub slot_range_at : ℕ → ℕ → ℕ → Ranged
slot_range_at interval duration streams =
    if interval == 0
    then panic
    else if ltb (u64_max / streams) (quotient_up duration interval)
    then refused overflow
    else range (mul_u64 (duration / interval) streams)
        (mul_u64 (quotient_up duration interval) streams)

module _ (f : Float64) where
  open f use {Real, of_nat, decimal, fadd, fdiv, flt, fle, trunc_u64}

  -- NaN is not below itself; an infinity fails one of the two orders.
  abbrev pub bad_interval : Real → Bool
  bad_interval x = not (fle x x) || flt x (of_nat 1) || flt (of_nat u64_max) x

  unfoldable pub expected_slot_range : Real → ℤ → ℤ → Ranged
  unfolding slot_range_at
  expected_slot_range rate_hz duration streams =
      let interval = fdiv (of_nat 1000000000) rate_hz in
      if fle rate_hz (of_nat 0) || leb_ℤ duration (pos 0) || leb_ℤ streams (pos 0)
      then refused not_positive
      else if bad_interval interval
      then refused invalid_rate
      else slot_range_at (trunc_u64 (fadd interval (decimal 1 2))) (pos_part duration)
          (pos_part streams)
