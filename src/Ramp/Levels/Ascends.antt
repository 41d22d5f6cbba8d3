-- ===== src/Ramp/Levels/Ascends.antt =====
-- The levels of a ramp climb from the first to the last, and their duration fits 64 bits.
use native.Mathlib.Nat.{le-div_iff_mul-le, mul-le-mul_right, mod-add-div'}
use native.Mathlib.Decide.{dec_lt}
use rudp_bench.Common.{
  ℕ, zero, suc, ◌+◌, ◌-◌, ◌*◌, ◌/◌, ◌%◌, ◌^◌, ◌≤◌, ◌<◌, ◌≡◌, refl, ap, ◌∙◌, ◌≢◌, ◌⊎◌, inl, inr, ℤ,
  pos, pos_part, ◌==◌, if◌then◌else◌, arith, Bool-cases,
}
use rudp_bench.Ramp.Levels.{
  RampConfig, RampError, Ramped, ok, failed, i64_max, levels, duration_of, duration, active_conns,
}

module _ (r : RampConfig) (total : ℕ) where
  abbrev start : ℕ
  start = pos_part r.start_conns

  abbrev step : ℕ
  step = pos_part r.step_conns

  active-full :
      (i : ℕ) → i ≤ (total - start) / step → active_conns r i (pos total) ≡ start + i * step
  unfolding active_conns
  active-full zero h = omega arith
  active-full (suc i) h = ground arith

  active-clamped : (i : ℕ) → (total - start) / step < i → active_conns r i (pos total) ≡ total
  unfolding active_conns
  active-clamped i h = ground arith

  active-last :
      start ≤ total
      → active_conns r
          ((total - start) / step + (if (total - start) % step == 0 then 0 else 1))
          (pos total)
        ≡ total
  active-last h =
      let q = (total - start) / step in
      let whole = mod-add-div' (total - start) step in
      elim (Bool-cases ((total - start) % step == 0)) [
        | inl e ↦
            let none_left : (total - start) % step ≡ 0 = ground arith in
            let same : q + 0 ≡ q = omega arith in
            rw (e, same) (active-full q (omega arith) ∙ omega (arith, none_left, whole))
        | inr e ↦ rw e (active-clamped (q + 1) (omega arith))
      ]

  active-climbs :
      (i : ℕ)
      → start ≤ total
      → 0 < step
      → suc i < 1 + (total - start) / step + (if (total - start) % step == 0 then 0 else 1)
      → (active_conns r i (pos total) < active_conns r (suc i) (pos total))
        × (active_conns r (suc i) (pos total) ≤ total)
  active-climbs i h s l =
      let q = (total - start) / step in
      let whole = mod-add-div' (total - start) step in
      let early : i ≤ q = ground arith in
      let rows = mul-le-mul_right {m = suc i} {n = q} step in
      elim (dec_lt i q) [
        | yes t ↦
            let fits = rows t in
            rw (active-full i early, active-full (suc i) t) (omega (arith, fits, whole, s))
        | no t ↦
            let last : i ≡ q = omega (arith, t, early) in
            let left : (total - start) % step ≢ 0 = ground arith in
            rw (active-full i early, active-clamped (suc i) (omega (arith, last)))
              (omega (arith, ap (λ (m : ℕ). m * step) last, whole, left))
      ]

-- Each level has more connections than the one before it, the first has those of the start and the
-- last all of them.
pub active_conns_ascends :
    (r : RampConfig) (total : ℕ) {n : ℕ}
    → levels r (pos total) ≡ ok n
    → (i : ℕ) → suc i < n
    → (active_conns r i (pos total) < active_conns r (suc i) (pos total))
      × (active_conns r (suc i) (pos total) ≤ total)
      × (active_conns r 0 (pos total) ≡ pos_part r.start_conns)
      × (active_conns r (n - 1) (pos total) ≡ total)
unfolding levels active_conns
active_conns_ascends r total {n} h i l =
    let start : ℕ = pos_part r.start_conns in
    let step : ℕ = pos_part r.step_conns in
    let below : start ≤ total = ground arith in
    let some_step : 0 < step = ground arith in
    let count : n ≡ 1 + (total - start) / step + (if (total - start) % step == 0 then 0 else 1) =
      ground arith in
    let (climbs, within) = active-climbs r total i below some_step (omega (arith, count)) in
    let last : n - 1 ≡ (total - start) / step + (if (total - start) % step == 0 then 0 else 1) =
      omega (arith, count) in
    (climbs, within, refl, rw last (active-last r total below))

Ramped-cases : (x : Ramped) → ((n : ℕ) × (x ≡ ok n)) ⊎ ((e : RampError) × (x ≡ failed e))
Ramped-cases (ok n) = inl (n, refl)
Ramped-cases (failed e) = inr (e, refl)

ramp_failed : (e : RampError) {d : ℕ} → failed e ≢ ok d
ramp_failed e h = cc

duration_of-exact :
    (r : RampConfig) (n : ℕ) {d : ℕ}
    → duration_of r n ≡ ok d
    → (d ≡ n * (pos_part r.guard + pos_part r.sample + pos_part r.drain)) × (d < 2 ^ 63)
unfolding duration_of
duration_of-exact r n {d} h =
    let whole = pos_part r.guard + pos_part r.sample + pos_part r.drain in
    let some_phase : 0 < whole = ground arith in
    let same : d ≡ n * whole = ground arith in
    let fits : n ≤ i64_max / whole = ground arith in
    let small = (le-div_iff_mul-le {k = whole} {x = n} {y = i64_max} some_phase).0 fits in
    (same, omega (arith, same, small))

-- An accepted duration is that of the levels, each with its guard, sample and drain, and fits 64
-- bits.
pub duration-levels :
    (r : RampConfig) (total : ℤ) {d : ℕ}
    → duration r total ≡ ok d
    → (n : ℕ) × (levels r total ≡ ok n)
      × (d ≡ n * (pos_part r.guard + pos_part r.sample + pos_part r.drain))
      × (d < 2 ^ 63)
unfolding duration
duration-levels r total {d} h = elim (Ramped-cases (levels r total)) [
  | inl (n, e) ↦
      let (same, small) = duration_of-exact r n (rw (duration, e) at h) in (n, e, same, small)
  | inr (x, e) ↦ absurd (ramp_failed x (rw (duration, e) at h))
]
