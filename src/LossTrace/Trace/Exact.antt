-- ===== src/LossTrace/Trace/Exact.antt =====
-- `Generate` and `CountDropsInRange` agree, and when the writes of `Generate` stay inside its words.
use Prim.Native.Nat.{bit_and}
use rudp_bench.Common.{
  ℕ, zero, suc, ◌+◌, ◌-◌, ◌*◌, ◌/◌, ◌≤◌, ◌<◌, ◌≡◌, ◌≢◌, refl, sym, ap, ◌∙◌, subst, Bool, true,
  false, ◌||◌, List, [], none, pos, length, arith, inl, inr, u64_mod, Float64, Bool-cases,
}
use rudp_bench.LossTrace.Bits.{sum_over, sum_over-eq}
use rudp_bench.LossTrace.Count.{ok, count_drops_in_range}
use rudp_bench.LossTrace.Count.Laws.{bit_at, dropped}
use rudp_bench.LossTrace.Count.Exact.{count_drops_in_range_lem, dropped-bit_at}
use rudp_bench.LossTrace.Trace.{
  trace, panic, mark, next_bad, mark_packets, burst_or_one, enter, generate,
}
use rudp_bench.LossTrace.Trace.Marks.{bad_before, bad_packet, MarkedTo, all-MarkedTo}

module _ (f : Float64) (draw : ℕ → ℕ → f.Real) (seed : ℕ) (p r : f.Real) where
  -- A trace that came out of the loop counts back to the drops of the loop.
  count-MarkedTo :
      (m : ℕ) (words : List ℕ) (total : ℕ)
      → 0 < m
      → length words ≡ m
      → m * 64 < u64_mod
      → bit_and (m * 64) (m * 64 - 1) ≡ 0
      → MarkedTo f draw seed p r (m * 64) words total
      → count_drops_in_range words 0 (m * 64) ≡ ok total
  count-MarkedTo m words total h l small square v =
      let size : length words * 64 ≡ m * 64 = omega (arith, l) in
      let whole : m * 64 - 0 ≡ m * 64 = omega arith in
      subst (λ (n : ℕ). count_drops_in_range words 0 (m * 64) ≡ ok (sum_over (dropped words) 0 n))
        whole
        (count_drops_in_range_lem words (omega (arith, l)) 0 (m * 64) (omega (arith, l))
          (omega arith) small (subst (λ (b : ℕ). bit_and b (b - 1) ≡ 0) (sym size) square))
      ∙ ap ok (
          sum_over-eq (dropped words) (bad_packet f draw seed p r) (m * 64) 0 0 (λ a b q t e.
            let same : b ≡ a = omega arith in
            dropped-bit_at words (omega (arith, l)) a (omega (arith, l))
            ∙ v.before a (omega arith)
            ∙ ap (bad_packet f draw seed p r) (sym same))
          ∙ sym v.counted)

  -- With no word at all, the first packet in the bad state is a write past the words.
  mark_packets-no_words :
      (n i : ℕ) (bad : Bool) (dropped : ℕ)
      → bad ≡ bad_before f draw seed p r i
      → (k : ℕ) → i ≤ k
      → k < i + n
      → bad_before f draw seed p r (suc k) ≡ true
      → mark_packets f draw seed p r n i [] bad dropped ≡ none
  unfolding mark_packets mark
  mark_packets-no_words zero i bad dropped b k h l t = absurd (omega arith)
  mark_packets-no_words (suc n) i bad dropped b k h l t =
      let turn : next_bad f draw seed p r i bad ≡ bad_before f draw seed p r (suc i) =
        unfold bad_before in ap (next_bad f draw seed p r i) b in
      elim (Bool-cases (next_bad f draw seed p r i bad)) [
        | inl e ↦ rw (mark_packets, e) refl
        | inr e ↦
            let further : i ≢ k = λ (s : i ≡ k).
              let now : bad_before f draw seed p r (suc i) ≡ true =
                subst (λ (j : ℕ). bad_before f draw seed p r (suc j) ≡ true) (sym s) t in
              ground (arith, e, turn, now) in
            rw (mark_packets, e)
              (mark_packets-no_words n (suc i) false dropped (sym e ∙ turn) k
                (omega (arith, further)) (omega arith) t)
      ]

module _ (f : Float64) (draw : ℕ → ℕ → f.Real) (seed : ℕ) (loss_pct burst_len : f.Real) where
  open f use {of_nat, fmul, fdiv}

  abbrev leave : f.Real
  leave = fdiv (of_nat 1) (burst_or_one f burst_len)

  abbrev drop_of : ℕ → ℕ
  drop_of = bad_packet f draw seed (enter f (fdiv loss_pct (of_nat 100)) leave) leave

  -- A trace of whole words holds at each packet the state that the draws lead to, it has a word for
  -- each 64 packets, and the count over its whole length gives the drops that its rate stands for.
  pub generate-count_drops_in_range :
      (m : ℕ) {words : List ℕ} {realized : f.Real}
      → 0 < m
      → m * 64 < u64_mod
      → generate f draw seed loss_pct burst_len (pos (m * 64)) ≡ trace words realized
      → (k : ℕ) → k < m * 64
      → (length words ≡ m)
        × (bit_at words k ≡ drop_of k)
        × (d : ℕ) × (count_drops_in_range words 0 (m * 64) ≡ ok d)
        × (realized ≡ fmul (fdiv (of_nat d) (of_nat (m * 64))) (of_nat 100))
  unfolding generate
  generate-count_drops_in_range m {words} {realized} some_words machine g k h =
      let (marked, total, e, l, v) =
        all-MarkedTo f draw seed (enter f (fdiv loss_pct (of_nat 100)) leave) leave m in
      let whole : m * 64 / 64 ≡ m = omega arith in
      let g' = rw (whole, e) at g in
      let square : bit_and (m * 64) (m * 64 - 1) ≡ 0 = ground arith in
      let same : marked ≡ words = ground arith in
      let rate : fmul (fdiv (of_nat total) (of_nat (m * 64))) (of_nat 100) ≡ realized =
        ground arith in
      (
        sym (ap length same) ∙ l,
        ap (λ (w : List ℕ). bit_at w k) (sym same) ∙ v.before k h,
        total,
        ap (λ (w : List ℕ). count_drops_in_range w 0 (m * 64)) (sym same)
            ∙ count-MarkedTo f draw seed (enter f (fdiv loss_pct (of_nat 100)) leave) leave m marked
                total some_words l machine square v,
        sym rate,
      )

  -- Where the bits are whole words, no write falls past them.
  pub generate-ne-panic :
      (m : ℕ)
      → 0 < m
      → m * 64 < u64_mod
      → generate f draw seed loss_pct burst_len (pos (m * 64)) ≢ panic
  unfolding generate
  generate-ne-panic m some_words machine g =
      let (marked, total, e, l, v) =
        all-MarkedTo f draw seed (enter f (fdiv loss_pct (of_nat 100)) leave) leave m in
      let whole : m * 64 / 64 ≡ m = omega arith in let g' = rw (whole, e) at g in ground arith

  -- Fewer bits than a word has make no word: past the tests, a packet in the bad state panics.
  pub generate-short-panic :
      (n : ℕ)
      → n < 64
      → 0 < n
      → bit_and n (n - 1) ≡ 0
      → (f.fle loss_pct (of_nat 0) || f.fle (of_nat 100) loss_pct) ≡ false
      → f.fle (of_nat 1) (enter f (fdiv loss_pct (of_nat 100)) leave) ≡ false
      → (k : ℕ) → k < n
      → drop_of k ≡ 1
      → generate f draw seed loss_pct burst_len (pos n) ≡ panic
  unfolding generate bad_packet
  generate-short-panic n h some_bits square lossy feasible k l b =
      let none_left : n / 64 ≡ 0 = omega arith in
      let bad : bad_before f draw seed (enter f (fdiv loss_pct (of_nat 100)) leave) leave (suc k)
          ≡ true =
        ground arith in
      let e =
        mark_packets-no_words f draw seed (enter f (fdiv loss_pct (of_nat 100)) leave) leave n 0
          false 0 (unfold bad_before in refl) k (omega arith) (omega arith) bad in
      rw (none_left, e) (ground arith)
