-- ===== src/LossTrace/Count/Laws.antt =====
-- The count of drops is the number of set bits of the trace, played from packet to packet and
-- again from its start at its end.
use rudp_bench.Common.{
  ℕ, zero, suc, ◌+◌, ◌-◌, ◌*◌, ◌/◌, ◌%◌, ◌≤◌, ◌<◌, ◌≡◌, refl, sym, ◌∙◌, List, [], ◌∷◌, some, ltb,
  if◌then◌else◌, length, get_elem?, add_u64, u64_mod, arith,
}
use rudp_bench.LossTrace.Bits.{
  shr, ones, ones_count64, bit, sum_over, ones-shr, sum_over-add, sum_over-eq,
}
use rudp_bench.LossTrace.Count.{total_ones}

-- The bit at a place of the trace.
unfoldable pub bit_at : List ℕ → ℕ → ℕ
bit_at [] i = 0
bit_at (w ∷ words) i = if ltb i 64 then bit w i else bit_at words (i - 64)

-- Whether packet `n` is dropped: 1 or 0.
unfoldable pub dropped : List ℕ → ℕ → ℕ
unfolding bit_at
dropped words n = bit_at words (n % (length words * 64))

-- A sum over one whole period, and over many.
module _ (f : ℕ → ℕ) (b : ℕ) (periodic : (n : ℕ) → f (n + b) ≡ f n) where
  sum_over-rotate : (i : ℕ) → sum_over f i b ≡ sum_over f 0 b
  unfolding sum_over
  sum_over-rotate zero = refl
  sum_over-rotate (suc i) = omega (
    arith,
    sum_over-rotate i,
    sum_over-add f i b 1 (i + b) (suc b) refl (omega arith),
    sum_over-add f i 1 b (suc i) (suc b) (omega arith) (omega arith),
    periodic i,
  )

  pub sum_over-cycles : (q i n : ℕ) → n ≡ q * b → sum_over f i n ≡ q * sum_over f 0 b
  unfolding sum_over
  sum_over-cycles zero i n e = let e' : n ≡ 0 = grind arith in rw e' (omega arith)
  sum_over-cycles (suc q) i n e =
      let split = sum_over-add f i b (q * b) (i + b) n refl (grind arith) in
      let rest = sum_over-cycles q (i + b) (q * b) refl in
      let first = sum_over-rotate i in grind arith

pub bit_at-word :
    (words : List ℕ) (i j n w : ℕ)
    → get_elem? words i ≡ some w
    → j < 64
    → n ≡ i * 64 + j
    → bit_at words n ≡ bit w j
unfolding bit_at
bit_at-word [] i j n w h k e = cc
bit_at-word (v ∷ words) zero j n w h k e =
    let e' : n ≡ j = omega arith in let v' : v ≡ w = ground arith in rw (e', v') (ground arith)
bit_at-word (v ∷ words) (suc i) j n w h k e =
    let ih = bit_at-word words i j (n - 64) w h k (omega arith) in ground (arith, ih)

pub word_of : (words : List ℕ) (i : ℕ) → i < length words → (w : ℕ) × (get_elem? words i ≡ some w)
word_of [] i h = absurd (omega arith)
word_of (w ∷ words) zero h = (w, refl)
word_of (w ∷ words) (suc i) h = word_of words i (omega arith)

-- All ones of the words, and the bits of the whole trace.
unfoldable pub total_of : List ℕ → ℕ
total_of [] = 0
total_of (w ∷ words) = ones_count64 w + total_of words

ones-le : (n w : ℕ) → ones n w ≤ n
unfolding ones
ones-le zero w = omega arith
ones-le (suc n) w = omega (arith, ones-le n (w / 2))

pub total_of-le : (words : List ℕ) → total_of words ≤ length words * 64
unfolding total_of
total_of-le [] = omega arith
total_of-le (w ∷ words) = omega (arith, ones-le 64 w, total_of-le words)

pub total_ones-exact :
    (total : ℕ) (words : List ℕ)
    → total + total_of words < u64_mod
    → total_ones total words ≡ total + total_of words
unfolding total_ones total_of
total_ones-exact total [] h = omega arith
total_ones-exact total (w ∷ words) h =
    let exact : add_u64 total (ones_count64 w) ≡ total + ones_count64 w = omega arith in
    rw exact (omega (arith, total_ones-exact (total + ones_count64 w) words (omega arith)))

bit_at-first : (w : ℕ) (words : List ℕ) → sum_over (bit_at (w ∷ words)) 0 64 ≡ ones_count64 w
unfolding bit_at shr
bit_at-first w words =
    sum_over-eq (bit_at (w ∷ words)) (bit w) 64 0 0
      (λ a b p q e. let same : b ≡ a = omega arith in rw same (ground arith))
    ∙ sym (ones-shr 64 w 0)

bit_at-rest :
    (w : ℕ) (words : List ℕ) (n : ℕ)
    → sum_over (bit_at (w ∷ words)) 64 n ≡ sum_over (bit_at words) 0 n
unfolding bit_at
bit_at-rest w words n =
    sum_over-eq (bit_at (w ∷ words)) (bit_at words) n 64 0
      (λ a b p q e. let same : b ≡ a - 64 = omega arith in rw same (ground arith))

pub sum_over-bit_at :
    (words : List ℕ) (n : ℕ) → n ≡ length words * 64 → sum_over (bit_at words) 0 n ≡ total_of words
unfolding total_of
sum_over-bit_at [] n e = let e' : n ≡ 0 = omega arith in rw e' (unfold sum_over in refl)
sum_over-bit_at (w ∷ words) n e = omega (
  arith,
  sum_over-add (bit_at (w ∷ words)) 0 64 (n - 64) 64 n refl (omega arith),
  bit_at-first w words,
  bit_at-rest w words (n - 64),
  sum_over-bit_at words (n - 64) (omega arith),
)
