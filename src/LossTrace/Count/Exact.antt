-- ===== src/LossTrace/Count/Exact.antt =====
-- `CountDropsInRange` counts exactly the packets that the trace drops.
use Prim.Native.Nat.{bit_and}
use native.Mathlib.Nat.{mod-eq_of_lt, mod-add-mod, mod-lt, add-mod_right, mod-add-div'}
use rudp_bench.Common.{
  ℕ, zero, suc, ◌+◌, ◌-◌, ◌*◌, ◌/◌, ◌%◌, ◌≤◌, ◌<◌, ◌≡◌, refl, sym, ap, ◌∙◌, false, List, [], ◌∷◌,
  some, ◌==◌, ltb, length, get_elem?, add_u64, mul_u64, u64_mod, arith,
}
use rudp_bench.LossTrace.Bits.{
  shr, low_bits, ones_count64, bit, sum_over, ones-low_bits, ones-shr, sum_over-add, sum_over-eq,
}
use rudp_bench.LossTrace.Count.{ok, total_ones, chunk_of, count_rounds, count_drops_in_range}
use rudp_bench.LossTrace.Count.Laws.{
  bit_at, dropped, sum_over-cycles, bit_at-word, word_of, total_of, total_of-le, total_ones-exact,
  sum_over-bit_at,
}

mod_add_small : (n b k : ℕ) → n % b + k < b → (n + k) % b ≡ n % b + k
mod_add_small n b k h = sym (mod-add-mod n b k) ∙ mod-eq_of_lt h

bit_at-le-one : (words : List ℕ) (i : ℕ) → bit_at words i ≤ 1
unfolding bit_at
bit_at-le-one [] i = omega arith
bit_at-le-one (w ∷ words) i = ground (arith, bit_at-le-one words (i - 64))

module _ (words : List ℕ) (some_words : 0 < length words) where
  abbrev period : ℕ
  period = length words * 64

  dropped-periodic : (n : ℕ) → dropped words (n + period) ≡ dropped words n
  unfolding dropped
  dropped-periodic n = ap (bit_at words) (add-mod_right n period)

  dropped-total : sum_over (dropped words) 0 period ≡ total_of words
  unfolding dropped
  dropped-total =
      sum_over-eq (dropped words) (bit_at words) period 0 0 (λ a b p q e.
        let same : b ≡ a = omega arith in
        let small : a % period ≡ a = mod-eq_of_lt (omega arith) in rw (same, small) refl)
      ∙ sum_over-bit_at words period refl

  -- One round counts the packets of its chunk.
  round-chunk :
      (position r w : ℕ)
      → get_elem? words (position % period / 64) ≡ some w
      → let idx = position % period in
        let chunk = chunk_of idx (suc r) in
        ones_count64 (low_bits (shr w (idx % 64)) chunk) ≡ sum_over (dropped words) position chunk
  unfolding dropped
  round-chunk position r w h =
      let idx = position % period in
      let chunk = chunk_of idx (suc r) in
      let short : idx % 64 + chunk ≤ 64 = ground arith in
      let inside : idx < period = mod-lt position (omega (arith, some_words)) in
      ones-low_bits 64 chunk (shr w (idx % 64)) (omega (arith, short))
      ∙ ones-shr chunk w (idx % 64)
      ∙ sum_over-eq (bit w) (dropped words) chunk (idx % 64) position (λ a b p q e.
        let moved : b ≡ position + (b - position) = omega arith in
        let small : (position + (b - position)) % period ≡ idx + (b - position) =
          mod_add_small position period (b - position) (omega (arith, inside, short)) in
        sym (
          ap (λ (n : ℕ). bit_at words (n % period)) moved
          ∙ bit_at-word words (idx / 64) a ((position + (b - position)) % period) w h
              (omega (arith, short)) (omega (arith, small))))

  count_rounds_lem :
      (fuel position r drops : ℕ)
      → r ≤ fuel
      → drops < u64_mod
      → count_rounds fuel words period position r drops
        ≡ ok ((drops + sum_over (dropped words) position r) % u64_mod)
  unfolding count_rounds
  count_rounds_lem zero position zero drops h k = unfold sum_over in ap ok (omega arith)
  count_rounds_lem zero position (suc r) drops h k = absurd (omega arith)
  count_rounds_lem (suc fuel) position zero drops h k = unfold sum_over in ap ok (omega arith)
  count_rounds_lem (suc fuel) position (suc r) drops h k =
      let idx = position % period in
      let chunk = chunk_of idx (suc r) in
      let some_chunk : (1 ≤ chunk) × (chunk ≤ suc r) = ground arith in
      let inside : idx < period = mod-lt position (omega (arith, some_words)) in
      let (w, e) = word_of words (idx / 64) (omega (arith, inside)) in
      let counted = round-chunk position r w e in
      let next = add_u64 drops (ones_count64 (low_bits (shr w (idx % 64)) chunk)) in
      let split =
        sum_over-add (dropped words) position chunk (suc r - chunk) (position + chunk) (suc r) refl
          (omega (arith, some_chunk)) in
      rw (count_rounds, e)
        (count_rounds_lem fuel (position + chunk) (suc r - chunk) next (omega (arith, some_chunk))
            (omega arith)
          ∙ ap ok (omega (arith, counted, split)))

  dropped-le-one : (n : ℕ) → dropped words n ≤ 1
  unfolding dropped
  dropped-le-one n = bit_at-le-one words (n % period)

  drops-le : (i n : ℕ) → sum_over (dropped words) i n ≤ n
  unfolding sum_over
  drops-le i zero = omega arith
  drops-le i (suc n) = omega (arith, dropped-le-one i, drops-le (suc i) n)

  -- A range may start at its place in the period.
  drops-start :
      (from n : ℕ) → sum_over (dropped words) (from % period) n ≡ sum_over (dropped words) from n
  unfolding dropped
  drops-start from n =
      sum_over-eq (dropped words) (dropped words) n (from % period) from (λ a b p q e.
        let k = a - from % period in
        let at_a : a ≡ from % period + k = omega arith in
        let at_b : b ≡ from + k = omega arith in
        ap (λ (m : ℕ). bit_at words (m % period)) at_a
        ∙ ap (bit_at words) (mod-add-mod from period k)
        ∙ sym (ap (λ (m : ℕ). bit_at words (m % period)) at_b))

  -- Whole periods, and what is left of the range.
  drops-split :
      (from span : ℕ)
      → sum_over (dropped words) from span
        ≡ span / period * total_of words + sum_over (dropped words) from (span % period)
  drops-split from span =
      let split =
        sum_over-add (dropped words) from (span % period) (span / period * period)
          (from + span % period) span refl (sym (mod-add-div' span period)) in
      let cycles =
        sum_over-cycles (dropped words) period dropped-periodic (span / period)
          (from + span % period) (span / period * period) refl in
      let once = ap (λ (s : ℕ). span / period * s) dropped-total in
      omega (arith, split, cycles, once)

  -- Where the trace has a power of two of bits and the range is one of uint64 numbers, what is
  -- counted is the number of packets in the range that the trace drops, with no overflow.
  pub count_drops_in_range_lem :
      (from to : ℕ)
      → period < u64_mod
      → from ≤ to
      → to < u64_mod
      → bit_and period (period - 1) ≡ 0
      → count_drops_in_range words from to ≡ ok (sum_over (dropped words) from (to - from))
  unfolding count_drops_in_range
  count_drops_in_range_lem from to fits ordered small power =
      let span = to - from in
      let bits : mul_u64 (length words) 64 ≡ period = mod-eq_of_lt fits in
      let total : total_ones 0 words ≡ total_of words =
        total_ones-exact 0 words (omega (arith, total_of-le words)) ∙ omega arith in
      let split = drops-split from span in
      let whole : mul_u64 (span / period) (total_of words) ≡ span / period * total_of words =
        mod-eq_of_lt (omega (arith, split, drops-le from span)) in
      let start = drops-start from (span % period) in
      let counted =
        count_rounds_lem (span % period) (from % period) (span % period)
          (span / period * total_of words) (omega arith)
          (omega (arith, split, drops-le from span)) in
      let exact : (span / period * total_of words
              + sum_over (dropped words) (from % period) (span % period))
            % u64_mod
          ≡ sum_over (dropped words) from span =
        mod-eq_of_lt (omega (arith, split, start, drops-le from span))
        ∙ omega (arith, split, start) in
      let nonzero : (period == 0) ≡ false = ground (arith, some_words) in
      let forward : ltb to from ≡ false = ground arith in
      rw (bits, nonzero, power, forward, total, whole) (counted ∙ ap ok exact)

  -- Within the first period a packet's number is its place.
  pub dropped-bit_at : (n : ℕ) → n < period → dropped words n ≡ bit_at words n
  unfolding dropped
  dropped-bit_at n h = ap (bit_at words) (mod-eq_of_lt h)
