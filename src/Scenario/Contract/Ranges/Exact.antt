-- ===== src/Scenario/Contract/Ranges/Exact.antt =====
-- The ranges of slots and of samples are those of steady senders, without overflow.
use native.Mathlib.Nat.{
  le-div_iff_mul-le, div-lt_iff_lt-mul, mod-add-div', div-le_self, mul-le-mul_right,
  mul-lt-mul_of_pos_right, lt_of_mul-lt-mul_right,
}
use native.Mathlib.Decide.{dec_lt}
use rudp_bench.Common.{
  ℕ, zero, suc, ◌+◌, ◌-◌, ◌*◌, ◌/◌, ◌%◌, ◌^◌, ◌≤◌, ◌<◌, ◌≡◌, sym, ap, ◌∙◌, ◌↔◌, inl, inr, false,
  ◌||◌, List, [], ◌∷◌, pos, leb_ℤ, ◌==◌, ltb, if◌then◌else◌, add_u64, mul_u64, u64_mod, Float64,
  arith, length, replicate, All, Bool-cases, ==_iff, subst, ◌≢◌,
}
use rudp_bench.Scenario.Contract.Ranges.{
  range, refused, u64_max, quotient_up, expected_staleness_sample_range, slot_range_at,
  expected_slot_range, overflow,
}

-- `n / d` rounded up.
abbrev pub up : ℕ → ℕ → ℕ
up n d = if n % d == 0 then n / d else n / d + 1

-- The times `k * d` before `n`.
pub lt-up_iff : (k n d : ℕ) → 0 < d → (k < up n d) ↔ (k * d < n)
lt-up_iff k n d h =
    let whole = mod-add-div' n d in
    let below = le-div_iff_mul-le {k = d} {x = k} {y = n} h in
    elim (Bool-cases (n % d == 0)) [
      | inl e ↦
          let even : n / d * d ≡ n = omega (arith, (==_iff (n % d) 0).0 e, whole) in
          rw e (
            λ l. let rows = mul-lt-mul_of_pos_right {m = k} {n = n / d} l h in omega arith,
            λ l. lt_of_mul-lt-mul_right d (subst (λ (m : ℕ). k * d < m) (sym even) l),
          )
      | inr e ↦
          let odd : n % d ≢ 0 = ground arith in
          rw e (
            λ l.
                let rows = mul-le-mul_right {m = k} {n = n / d} d (omega arith) in
                omega (arith, odd, rows, whole),
            λ l. let rows = below.1 (omega arith) in omega (arith, rows),
          )
    ]

-- The slots of a sender that starts in `phase` and keeps its interval.
abbrev pub sent_by : ℕ → ℕ → ℕ → ℕ
sent_by interval duration phase = up (duration - phase) interval

-- Slot `k` is sent exactly if its time comes before the end.
pub sent_by_iff :
    (interval duration phase k : ℕ)
    → 0 < interval
    → (k < sent_by interval duration phase) ↔ (phase + k * interval < duration)
sent_by_iff interval duration phase k h =
    let (to, from) = lt-up_iff k (duration - phase) interval h in
    (λ l. let t = to l in omega arith, λ l. from (omega arith))

sent_by-le-up :
    (interval duration phase : ℕ)
    → 0 < interval
    → sent_by interval duration phase ≤ up duration interval
sent_by-le-up interval duration phase h =
    elim (dec_lt (up duration interval) (sent_by interval duration phase)) [
      | yes l ↦
          let early = (lt-up_iff (up duration interval) (duration - phase) interval h).0 l in
          let more = (lt-up_iff (up duration interval) duration interval h).1 (omega arith) in
          absurd (omega (arith, more))
      | no l ↦ omega (arith, l)
    ]

before_last :
    (k interval duration phase : ℕ)
    → phase < interval
    → suc k ≤ duration / interval
    → k < sent_by interval duration phase
before_last k interval duration phase h l =
    let rows = (le-div_iff_mul-le {k = interval} {x = suc k} {y = duration} (omega arith)).0 l in
    (lt-up_iff k (duration - phase) interval (omega arith)).1 (omega arith)

floor-le-sent_by :
    (interval duration phase : ℕ)
    → phase < interval
    → duration / interval ≤ sent_by interval duration phase
floor-le-sent_by interval duration phase h =
    elim (dec_lt (sent_by interval duration phase) (duration / interval)) [
      | yes l ↦
          let more =
            before_last (sent_by interval duration phase) interval duration phase h (omega arith) in
          absurd (omega (arith, more))
      | no l ↦ omega (arith, l)
    ]

-- The slots of senders with these phases.
abbrev pub all_sent : ℕ → ℕ → List ℕ → ℕ
all_sent interval duration [] = 0
all_sent interval duration (phase ∷ phases) =
    sent_by interval duration phase + all_sent interval duration phases

all_sent_bounds :
    (interval duration : ℕ) (phases : List ℕ)
    → All (λ phase. phase < interval) phases
    → 0 < interval
    → (duration / interval * length phases ≤ all_sent interval duration phases)
      × (all_sent interval duration phases ≤ up duration interval * length phases)
all_sent_bounds interval duration [] a h = omega arith
all_sent_bounds interval duration (phase ∷ phases) a h =
    let (least, most) = all_sent_bounds interval duration phases a.1 h in
    let one = floor-le-sent_by interval duration phase a.0 in
    let other = sent_by-le-up interval duration phase h in omega (arith, least, most, one, other)

quotient_up_exact : (n d : ℕ) → 0 < d → n < 2 ^ 63 → quotient_up n d ≡ up n d
quotient_up_exact n d h l =
    let fits = div-le_self n d in
    let wide : (n / d + 1) % u64_mod ≡ n / d + 1 = omega arith in
    ap (λ (m : ℕ). if n % d == 0 then n / d else m) wide

-- A product within the quotient test does not wrap.
product_exact : (m n : ℕ) → 0 < n → m ≤ u64_max / n → mul_u64 m n ≡ m * n
product_exact m n h l =
    let small = (le-div_iff_mul-le {k = n} {x = m} {y = u64_max} h).0 l in omega (arith, small)

-- The range of one stream times the streams: the quotient test refuses exactly what overflows.
scaled :
    (least most n : ℕ)
    → 0 < n
    → least ≤ most
    → (if ltb (u64_max / n) most
        then refused overflow
        else range (mul_u64 least n) (mul_u64 most n))
      ≡ (if ltb u64_max (most * n) then refused overflow else range (least * n) (most * n))
scaled least most n s h =
    let over = div-lt_iff_lt-mul {k = n} {x = u64_max} {y = most} s in
    let fits = le-div_iff_mul-le {k = n} {x = most} {y = u64_max} s in
    elim (dec_lt (u64_max / n) most) [
      | yes l ↦ let wide = over.0 l in ground arith
      | no l ↦
          let within = fits.0 (omega (arith, l)) in
          let exact = product_exact most n s (omega (arith, l)) in
          let exact' = product_exact least n s (omega (arith, l)) in
          rw (exact, exact') (ground arith)
    ]

slot_range_at_exact :
    (interval duration streams : ℕ)
    → 0 < interval
    → 0 < streams
    → duration < 2 ^ 63
    → slot_range_at interval duration streams ≡ (
        if ltb u64_max (up duration interval * streams)
        then refused overflow
        else range (duration / interval * streams) (up duration interval * streams))
unfolding slot_range_at
slot_range_at_exact interval duration streams i s d =
    let same = scaled (duration / interval) (up duration interval) streams s (ground arith) in
    let some_interval : (interval == 0) ≡ false = ground arith in
    rw (some_interval, quotient_up_exact duration interval i d) same

slot_range_at-range :
    (interval duration streams : ℕ) {least most : ℕ}
    → slot_range_at interval duration streams ≡ range least most
    → 0 < interval
unfolding slot_range_at
slot_range_at-range interval duration streams h = ground arith

all_sent-replicate :
    (interval duration n : ℕ)
    → all_sent interval duration (replicate n 0) ≡ up duration interval * n
all_sent-replicate interval duration zero = omega arith
all_sent-replicate interval duration (suc n) =
    let rest = all_sent-replicate interval duration n in
    let all : duration - 0 ≡ duration = omega arith in rw (all, rest) (omega arith)

module _ (f : Float64) where
  open f use {Real, of_nat, decimal, fadd, fdiv, trunc_u64}

  abbrev pub interval_of : Real → ℕ
  interval_of rate_hz = trunc_u64 (fadd (fdiv (of_nat 1000000000) rate_hz) (decimal 1 2))

  -- The accepted range of slots holds what as many steady senders send, whatever their phases, and
  -- senders that start at once reach its end.
  pub expected_slot_range_holds :
      (rate_hz : Real) (duration : ℕ) (phases : List ℕ) {least most : ℕ}
      → duration < 2 ^ 63
      → expected_slot_range f rate_hz (pos duration) (pos (length phases)) ≡ range least most
      → All (λ phase. phase < interval_of rate_hz) phases
      → (least ≤ all_sent (interval_of rate_hz) duration phases)
        × (all_sent (interval_of rate_hz) duration phases ≤ most)
        × (all_sent (interval_of rate_hz) duration (replicate (length phases) 0) ≡ most)
  unfolding expected_slot_range
  expected_slot_range_holds rate_hz duration phases {least} {most} d r a =
      let n = length phases in
      let interval = interval_of rate_hz in
      let at : slot_range_at interval duration n ≡ range least most = ground arith in
      let some_streams : 0 < n = ground arith in
      let some_interval : 0 < interval = slot_range_at-range interval duration n at in
      let exact = sym (slot_range_at_exact interval duration n some_interval some_streams d) ∙ at in
      let first : duration / interval * n ≡ least = ground arith in
      let last : up duration interval * n ≡ most = ground arith in
      let (lower, upper) = all_sent_bounds interval duration phases a some_interval in
      let early = all_sent-replicate interval duration n in
      omega (arith, first, last, lower, upper, early)

-- For a positive duration, period and number of flows the staleness samples of a flow are its ticks,
-- two less or more and one at least, and the range is refused exactly where it overflows.
expected_staleness_sample_range_exact :
    (duration period flows : ℕ)
    → 0 < duration
    → duration < 2 ^ 63
    → 0 < period
    → 0 < flows
    → let ticks = up duration period in
      let least : ℕ = if ltb 2 ticks then ticks - 2 else 1 in
      expected_staleness_sample_range (pos duration) period (pos flows) ≡ (
        if ltb u64_max ((ticks + 2) * flows)
        then refused overflow
        else range (least * flows) ((ticks + 2) * flows))
unfolding expected_staleness_sample_range
expected_staleness_sample_range_exact duration period flows d l p n =
    let ticks = up duration period in
    let least : ℕ = if ltb 2 ticks then ticks - 2 else 1 in
    let same = scaled least (ticks + 2) flows n (ground arith) in
    let close : ticks ≤ duration / period + 1 = ground arith in
    let bounded : ticks + 2 < u64_mod = omega (arith, close, div-le_self duration period) in
    let wide : add_u64 ticks 2 ≡ ticks + 2 = omega (arith, bounded) in
    let rounded = quotient_up_exact duration period p l in
    let tests : (leb_ℤ (pos duration) (pos 0) || period == 0 || leb_ℤ (pos flows) (pos 0)) ≡ false =
      ground arith in
    rw (tests, rounded, wide) same
