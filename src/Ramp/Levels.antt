-- ===== src/Ramp/Levels.antt =====
-- orchestrator/run/config.go: `RampConfig`, its levels and its duration. Past the tests every number
-- is positive or zero, and the arithmetic on int64 is that on the naturals below 2^63.
pub mod Ascends
use rudp_bench.Common.{
  ℕ, ◌+◌, ◌-◌, ◌*◌, ◌/◌, ◌%◌, ◌^◌, Bool, ◌||◌, ℤ, pos, pos_part, ltb_ℤ, leb_ℤ, ◌==◌, ltb,
  if◌then◌else◌,
}

pub record RampConfig : Type 0 where
  pub start_conns : ℤ
  pub step_conns : ℤ
  pub guard : ℤ
  pub sample : ℤ
  pub drain : ℤ

pub data RampError : Type 0 where
  bad_range bad_phase duration_overflows : RampError

pub data Ramped : Type 0 where
  ok : ℕ → Ramped
  failed : RampError → Ramped

abbrev pub i64_max : ℕ
i64_max = 2 ^ 63 - 1

unfoldable pub levels : RampConfig → ℤ → Ramped
levels r total_conns =
    let remaining = pos_part total_conns - pos_part r.start_conns in
    let step = pos_part r.step_conns in
    if leb_ℤ r.start_conns (pos 0) || ltb_ℤ total_conns r.start_conns || leb_ℤ r.step_conns (pos 0)
    then failed bad_range
    else ok (1 + remaining / step + (if remaining % step == 0 then 0 else 1))

-- The duration of `n` levels.
unfoldable pub duration_of : RampConfig → ℕ → Ramped
duration_of r n =
    let phase = pos_part r.guard + pos_part r.sample in
    let whole = phase + pos_part r.drain in
    if ltb_ℤ r.guard (pos 0)
      || leb_ℤ r.sample (pos 0)
      || ltb_ℤ r.drain (pos 0)
      || ltb_ℤ (pos (i64_max - pos_part r.sample)) r.guard
    then failed bad_phase
    else if ltb (i64_max - pos_part r.drain) phase
    then failed bad_phase
    else if ltb (i64_max / whole) n
    then failed duration_overflows
    else ok (n * whole)

unfoldable pub duration : RampConfig → ℤ → Ramped
unfolding levels duration_of
duration r total_conns = elim (levels r total_conns) [
  | failed e ↦ failed e
  | ok n ↦ duration_of r n
]

-- The connections of a level, where `levels` accepts the configuration.
unfoldable pub active_conns : RampConfig → ℕ → ℤ → ℕ
active_conns r index total_conns =
    let start = pos_part r.start_conns in
    let total = pos_part total_conns in
    let step = pos_part r.step_conns in
    if index == 0
    then start
    else if ltb ((total - start) / step) index
    then total
    else start + index * step
