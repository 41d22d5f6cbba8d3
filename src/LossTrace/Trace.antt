-- ===== src/LossTrace/Trace.antt =====
-- orchestrator/netops/losstrace/losstrace.go: `Generate`. The draws of math/rand are a parameter: what
-- the n-th call of `Float64` gives after the seed. Past its test the number of bits is positive.
pub mod Marks
pub mod Exact
use Prim.Native.Nat.{bit_and}
use rudp_bench.Common.{
  ℕ, zero, suc, ◌+◌, ◌-◌, ◌*◌, ◌/◌, ◌%◌, Bool, true, false, not, ◌||◌, ◌&&◌, List, [], ◌∷◌, Option,
  none, some, ℤ, pos, pos_part, leb_ℤ, ◌==◌, if◌then◌else◌, replicate, Float64,
}
use rudp_bench.LossTrace.Bits.{or_bit}

pub data GenerateError (Real : Type 0) : Type 0 where
  bad_bits : ℤ → GenerateError Real
  bad_loss : Real → GenerateError Real
  infeasible : Real → Real → GenerateError Real

-- The trace with its loss rate in percent, an error, or the panic of a write past the words.
pub data Generated (Real : Type 0) : Type 0 where
  trace : List ℕ → Real → Generated Real
  refused : GenerateError Real → Generated Real
  panic : Generated Real

-- `words[index] |= 1 << place`, where the word is there.
unfoldable pub mark : List ℕ → ℕ → ℕ → Option (List ℕ)
mark [] index place = none
mark (w ∷ words) zero place = some (or_bit w place ∷ words)
mark (w ∷ words) (suc index) place = elim (mark words index place) [
  | none ↦ none
  | some marked ↦ some (w ∷ marked)
]

abbrev pub default_bits : ℕ
default_bits = 1048576

module _ (f : Float64) where
  open f use {Real, of_nat, fsub, fmul, fdiv, flt}

  abbrev pub burst_or_one : Real → Real
  burst_or_one b = if flt b (of_nat 1) then of_nat 1 else b

  -- The probability to enter the bad state.
  abbrev pub enter : Real → Real → Real
  enter loss r = fdiv (fmul loss r) (fsub (of_nat 1) loss)

  abbrev pub of_marks : ℕ → Option (List ℕ × ℕ) → Generated Real
  of_marks bits none = panic
  of_marks bits (some (words, dropped)) =
      trace words (fmul (fdiv (of_nat dropped) (of_nat bits)) (of_nat 100))

module _ (f : Float64) (draw : ℕ → ℕ → f.Real) where
  open f use {Real, of_nat, fsub, fmul, fdiv, flt, fle}

  -- Whether packet `i` is in the bad state, after one more draw: `p` leads there and `r` back.
  unfoldable pub next_bad : ℕ → Real → Real → ℕ → Bool → Bool
  next_bad seed p r i true = not (flt (draw seed i) r)
  next_bad seed p r i false = flt (draw seed i) p

  -- The loop from packet `i` on, with the words, the state and the drops so far.
  unfoldable pub mark_packets : ℕ → Real → Real → ℕ → ℕ → List ℕ → Bool → ℕ → Option (List ℕ × ℕ)
  unfolding next_bad mark
  mark_packets seed p r zero i words bad dropped = some (words, dropped)
  mark_packets seed p r (suc n) i words bad dropped = elim (next_bad seed p r i bad) [
    | false ↦ mark_packets seed p r n (suc i) words false dropped
    | true ↦ elim (mark words (i / 64) (i % 64)) [
      | none ↦ none
      | some marked ↦ mark_packets seed p r n (suc i) marked true (dropped + 1)
    ]
  ]

  unfoldable pub generate : ℕ → Real → Real → ℤ → Generated Real
  unfolding mark_packets
  generate seed loss_pct burst_len bits =
      let n = pos_part bits in
      let loss = fdiv loss_pct (of_nat 100) in
      let r = fdiv (of_nat 1) (burst_or_one f burst_len) in
      let p = enter f loss r in
      if leb_ℤ bits (pos 0) || not (bit_and n (n - 1) == 0)
      then refused (bad_bits bits)
      else if fle loss_pct (of_nat 0) || fle (of_nat 100) loss_pct
      then refused (bad_loss loss_pct)
      else if fle (of_nat 1) p
      then refused (infeasible loss_pct (burst_or_one f burst_len))
      else of_marks f n (mark_packets seed p r n 0 (replicate (n / 64) 0) false 0)
