-- ===== src/LossTrace/Trace/Marks.antt =====
-- A generated trace has a set bit for each packet in the bad state, and no other.
use rudp_bench.Common.{
  ℕ, zero, suc, ◌+◌, ◌-◌, ◌*◌, ◌/◌, ◌%◌, ◌≤◌, ◌<◌, ◌≡◌, refl, sym, ap, ◌∙◌, subst, Bool, true,
  false, List, [], ◌∷◌, some, ◌==◌, if◌then◌else◌, length, replicate, length-replicate, arith, inl,
  inr, Float64, Bool-cases,
}
use rudp_bench.LossTrace.Bits.{shr, or_bit, bit, sum_over, sum_over-add}
use rudp_bench.LossTrace.Count.Laws.{bit_at, dropped}
use rudp_bench.LossTrace.Trace.{mark, next_bad, mark_packets}

bit-or_bit : (w i j : ℕ) → bit (or_bit w i) j ≡ (if i == j then 1 else bit w j)
unfolding or_bit shr
bit-or_bit w zero zero = ground arith
bit-or_bit w zero (suc j) =
    let half : (if w % 2 == 0 then w + 1 else w) / 2 ≡ w / 2 = ground arith in
    ap (λ (v : ℕ). shr v j % 2) half ∙ ground arith
bit-or_bit w (suc i) zero = grind arith
bit-or_bit w (suc i) (suc j) =
    let half : (w % 2 + 2 * or_bit (w / 2) i) / 2 ≡ or_bit (w / 2) i = omega arith in
    ap (λ (v : ℕ). shr v j % 2) half ∙ bit-or_bit (w / 2) i j ∙ ground arith

-- A mark is written where there is a word for it.
mark_total :
    (words : List ℕ) (index place : ℕ)
    → index < length words
    → place < 64
    → (marked : List ℕ) × (mark words index place ≡ some marked)
      × (length marked ≡ length words)
      × ((k : ℕ) → bit_at marked k ≡ (if index * 64 + place == k then 1 else bit_at words k))
unfolding mark bit_at
mark_total [] index place h l = absurd (omega arith)
mark_total (w ∷ words) zero place h l =
    (or_bit w place ∷ words, refl, refl, λ k. ground (arith, bit-or_bit w place k))
mark_total (w ∷ words) (suc index) place h l =
    let (marked, e, same, bits) = mark_total words index place (omega arith) l in
    (w ∷ marked, rw (mark, e) refl, omega (arith, same), λ k. ground (arith, bits (k - 64)))

bit-zero : (k : ℕ) → bit 0 k ≡ 0
unfolding shr
bit-zero zero = refl
bit-zero (suc k) = bit-zero k

bit_at-zeros : (n k : ℕ) → bit_at (replicate n 0) k ≡ 0
unfolding bit_at
bit_at-zeros zero k = refl
bit_at-zeros (suc n) k = ground (arith, bit_at-zeros n (k - 64), bit-zero k)

module _ (f : Float64) (draw : ℕ → ℕ → f.Real) (seed : ℕ) (p r : f.Real) where
  -- The state after packet `i - 1`, and whether packet `i` is dropped.
  unfoldable pub bad_before : ℕ → Bool
  bad_before zero = false
  bad_before (suc i) = next_bad f draw seed p r i (bad_before i)

  unfoldable pub bad_packet : ℕ → ℕ
  unfolding bad_before
  bad_packet i = if bad_before (suc i) then 1 else 0

  -- The words hold the marks of the packets before `i`.
  pub record MarkedTo (i : ℕ) (words : List ℕ) (dropped : ℕ) : Type 0 where
    pub before : (k : ℕ) → k < i → bit_at words k ≡ bad_packet k
    pub after : (k : ℕ) → i ≤ k → bit_at words k ≡ 0
    pub counted : dropped ≡ sum_over bad_packet 0 i

  step-MarkedTo :
      (i : ℕ) (words marked : List ℕ) (dropped x : ℕ)
      → bad_packet i ≡ x
      → ((k : ℕ) → bit_at marked k ≡ (if i == k then x else bit_at words k))
      → MarkedTo i words dropped
      → MarkedTo (suc i) marked (dropped + x)
  step-MarkedTo i words marked dropped x b bits v = record {
    before = λ k h. elim (Bool-cases (i == k)) [
      | inl e ↦ let same : k ≡ i = ground arith in rw same (bits i ∙ ground arith)
      | inr e ↦ bits k ∙ rw e (v.before k (ground arith))
    ];
    after = λ k h. bits k ∙ ground (arith, v.after k (omega arith));
    counted =
        let next = sum_over-add bad_packet 0 i 1 i (suc i) (omega arith) (omega arith) in
        let last : sum_over bad_packet i 1 ≡ bad_packet i = unfold sum_over in omega arith in
        let sofar = v.counted in omega (arith, next, last, b, sofar);
  }

  kept :
      (i : ℕ) (words : List ℕ) (dropped : ℕ)
      → MarkedTo i words dropped
      → (k : ℕ) → bit_at words k ≡ (if i == k then 0 else bit_at words k)
  kept i words dropped v k = ground (arith, v.after k)

  mark_packets-MarkedTo :
      (n i : ℕ) (words : List ℕ) (bad : Bool) (dropped : ℕ)
      → bad ≡ bad_before i
      → i + n ≤ length words * 64
      → MarkedTo i words dropped
      → (marked : List ℕ) × (total : ℕ) × (mark_packets f draw seed p r n i words bad dropped
          ≡ some (marked, total))
        × (length marked ≡ length words)
        × MarkedTo (i + n) marked total
  unfolding mark_packets
  mark_packets-MarkedTo zero i words bad dropped b h v =
      (words, dropped, refl, refl, subst (λ (j : ℕ). MarkedTo j words dropped) (omega arith) v)
  mark_packets-MarkedTo (suc n) i words bad dropped b h v =
      let here : i + suc n ≡ suc i + n = omega arith in
      let turn : next_bad f draw seed p r i bad ≡ bad_before (suc i) =
        unfold bad_before in ap (next_bad f draw seed p r i) b in
      elim (Bool-cases (next_bad f draw seed p r i bad)) [
        | inl e ↦
            let (marked, m, same, bits) =
              mark_total words (i / 64) (i % 64) (omega arith) (omega arith) in
            let (final, total, g, l, v') =
              mark_packets-MarkedTo n (suc i) marked true (dropped + 1) (sym e ∙ turn)
                (omega (arith, same))
                (step-MarkedTo i words marked dropped 1 (unfold bad_packet in rw (sym turn ∙ e))
                  (λ k.
                    let place : i / 64 * 64 + i % 64 ≡ i = omega arith in
                    subst (λ (j : ℕ). bit_at marked k ≡ (if j == k then 1 else bit_at words k))
                      place (bits k))
                  v) in
            (
              final,
              total,
              rw (mark_packets, e, mark, m) g,
              l ∙ same,
              subst (λ (j : ℕ). MarkedTo j final total) (sym here) v',
            )
        | inr e ↦
            let (final, total, g, l, v') =
              mark_packets-MarkedTo n (suc i) words false dropped (sym e ∙ turn) (omega arith) (
                subst (MarkedTo (suc i) words) (omega arith) (
                  step-MarkedTo i words words dropped 0 (unfold bad_packet in rw (sym turn ∙ e))
                    (kept i words dropped v) v)) in
            (
              final,
              total,
              rw (mark_packets, e) g,
              l,
              subst (λ (j : ℕ). MarkedTo j final total) (sym here) v',
            )
      ]

  zeros-MarkedTo : (n : ℕ) → MarkedTo 0 (replicate n 0) 0
  zeros-MarkedTo n = record {
    before = λ k h. absurd (omega arith);
    after = λ k h. bit_at-zeros n k;
    counted = unfold sum_over in refl;
  }

  pub all-MarkedTo :
      (m : ℕ)
      → (marked : List ℕ) × (total : ℕ) × (mark_packets f draw seed p r
            (m * 64)
            0
            (replicate m 0)
            false
            0
          ≡ some (marked, total))
        × (length marked ≡ m)
        × MarkedTo (m * 64) marked total
  all-MarkedTo m =
      let size : length (replicate m 0) ≡ m = length-replicate m 0 in
      let (marked, total, e, l, v) =
        mark_packets-MarkedTo (m * 64) 0 (replicate m 0) false 0 (unfold bad_before in refl)
          (omega (arith, size)) (zeros-MarkedTo m) in
      (marked, total, e, l ∙ size, subst (λ (j : ℕ). MarkedTo j marked total) (omega arith) v)
