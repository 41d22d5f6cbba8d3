-- ===== src/LossTrace/Bits.antt =====
-- The machine words of a trace: uint64 shifts and masks, a halving for each place, and the
-- population count of math/bits.
use rudp_bench.Common.{
  ℕ, zero, suc, ◌+◌, ◌*◌, ◌/◌, ◌%◌, ◌≤◌, ◌<◌, ◌≡◌, refl, ◌==◌, arith, if◌then◌else◌,
}

-- `w >> k`.
unfoldable pub shr : ℕ → ℕ → ℕ
shr w zero = w
shr w (suc k) = shr (w / 2) k

-- `w & (1<<k - 1)`.
unfoldable pub low_bits : ℕ → ℕ → ℕ
low_bits w zero = 0
low_bits w (suc k) = w % 2 + 2 * low_bits (w / 2) k

-- `w | 1<<k`.
unfoldable pub or_bit : ℕ → ℕ → ℕ
or_bit w zero = if w % 2 == 0 then w + 1 else w
or_bit w (suc k) = w % 2 + 2 * or_bit (w / 2) k

-- The ones among the lowest digits.
unfoldable pub ones : ℕ → ℕ → ℕ
ones zero w = 0
ones (suc n) w = w % 2 + ones n (w / 2)

-- `bits.OnesCount64`.
abbrev pub ones_count64 : ℕ → ℕ
ones_count64 = ones 64

-- The bit at a place.
abbrev pub bit : ℕ → ℕ → ℕ
bit w i = shr w i % 2

-- f i + … + f (i + n - 1).
unfoldable pub sum_over : (ℕ → ℕ) → ℕ → ℕ → ℕ
sum_over f i zero = 0
sum_over f i (suc n) = f i + sum_over f (suc i) n

shr-half : (w k : ℕ) → shr w k / 2 ≡ shr w (suc k)
unfolding shr
shr-half w zero = refl
shr-half w (suc k) = shr-half (w / 2) k

ones-zero : (n : ℕ) → ones n 0 ≡ 0
unfolding ones
ones-zero zero = refl
ones-zero (suc n) = omega (arith, ones-zero n)

pub ones-low_bits : (n c w : ℕ) → c ≤ n → ones n (low_bits w c) ≡ ones c w
unfolding ones low_bits
ones-low_bits n zero w h = ones-zero n
ones-low_bits zero (suc c) w h = absurd (omega arith)
ones-low_bits (suc n) (suc c) w h =
    let halved : (w % 2 + 2 * low_bits (w / 2) c) / 2 ≡ low_bits (w / 2) c = omega arith in
    rw halved (omega (arith, ones-low_bits n c (w / 2) (omega arith)))

-- Counting the ones of a shifted word sums its bits from there.
pub ones-shr : (n w i : ℕ) → ones n (shr w i) ≡ sum_over (bit w) i n
unfolding ones sum_over
ones-shr zero w i = refl
ones-shr (suc n) w i = rw (shr-half w i) (omega (arith, ones-shr n w (suc i)))

pub sum_over-add :
    (f : ℕ → ℕ) (i n m j k : ℕ)
    → j ≡ i + n
    → k ≡ n + m
    → sum_over f i k ≡ sum_over f i n + sum_over f j m
unfolding sum_over
sum_over-add f i zero m j k e h =
    let e' : j ≡ i = omega arith in let h' : k ≡ m = omega arith in rw (e', h') (omega arith)
sum_over-add f i (suc n) m j zero e h = absurd (omega arith)
sum_over-add f i (suc n) m j (suc k) e h =
    omega (arith, sum_over-add f (suc i) n m j k (omega arith) (omega arith))

-- Two sums of one length whose terms are equal place by place.
pub sum_over-eq :
    (f g : ℕ → ℕ) (n i j : ℕ)
    → ((a b : ℕ) → i ≤ a → a < i + n → b + i ≡ a + j → f a ≡ g b)
    → sum_over f i n ≡ sum_over g j n
unfolding sum_over
sum_over-eq f g zero i j h = refl
sum_over-eq f g (suc n) i j h =
    let rest =
      sum_over-eq f g n (suc i) (suc j)
        (λ a b p q e. h a b (omega arith) (omega arith) (omega arith)) in
    omega (arith, h i j (omega arith) (omega arith) (omega arith), rest)
