-- ===== src/LossTrace/Count.antt =====
-- orchestrator/netops/losstrace/losstrace.go: `CountDropsInRange`. Past its test the trace length is
-- a power of two, so `& (bits - 1)` is the remainder by the length.
pub mod Laws
pub mod Exact
use Prim.Native.Nat.{bit_and}
use rudp_bench.Common.{
  ℕ, zero, suc, ◌+◌, ◌-◌, ◌*◌, ◌/◌, ◌%◌, Bool, not, ◌||◌, List, [], ◌∷◌, Option, none, some, ◌==◌,
  ltb, if◌then◌else◌, length, get_elem?, add_u64, sub_u64, mul_u64,
}
use rudp_bench.LossTrace.Bits.{shr, low_bits, ones_count64}

pub data CountError : Type 0 where
  bad_length : ℕ → CountError
  bad_range : ℕ → ℕ → CountError
  index_out_of_range : ℕ → CountError

pub data Counted : Type 0 where
  ok : ℕ → Counted
  failed : CountError → Counted

-- `for _, word := range words { total += OnesCount64(word) }`.
unfoldable pub total_ones : ℕ → List ℕ → ℕ
total_ones total [] = total
total_ones total (w ∷ words) = total_ones (add_u64 total (ones_count64 w)) words

-- How many bits of the word at `idx` a round counts.
abbrev pub chunk_of : ℕ → ℕ → ℕ
chunk_of idx remaining = if ltb remaining (64 - idx % 64) then remaining else 64 - idx % 64

-- The loop: `remaining` is span%bits - counted and `position` start + counted. A round counts one
-- bit at least, so `remaining` rounds are enough.
unfoldable pub count_rounds : ℕ → List ℕ → ℕ → ℕ → ℕ → ℕ → Counted
count_rounds fuel words bits position zero drops = ok drops
count_rounds zero words bits position (suc r) drops = ok drops
count_rounds (suc fuel) words bits position (suc r) drops =
    let idx = position % bits in
    elim (get_elem? words (idx / 64)) [
      | none ↦ failed (index_out_of_range (idx / 64))
      | some word ↦
          let chunk = chunk_of idx (suc r) in
          count_rounds fuel words bits (position + chunk) (suc r - chunk)
            (add_u64 drops (ones_count64 (low_bits (shr word (idx % 64)) chunk)))
    ]

unfoldable pub count_drops_in_range : List ℕ → ℕ → ℕ → Counted
unfolding total_ones count_rounds
count_drops_in_range words from to =
    let bits = mul_u64 (length words) 64 in
    let span = to - from in
    if bits == 0 || not (bit_and bits (bits - 1) == 0)
    then failed (bad_length bits)
    else if ltb to from
    then failed (bad_range from to)
    else count_rounds (span % bits) words bits (from % bits) (span % bits)
        (mul_u64 (span / bits) (total_ones 0 words))
