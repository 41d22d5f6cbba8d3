-- ===== src/Control/Steady/Sums.antt =====
-- What `sumTail` sums, and a doubled number of buckets that does not wrap.
use rudp_bench.Common.{
  ℕ, zero, suc, ◌+◌, ◌-◌, ◌*◌, ◌≤◌, ◌<◌, ◌≡◌, refl, false, List, [], ◌∷◌, some, none, pos, ltb_ℤ,
  ◌*i64◌, ◌*ℤ◌, wrap_i64, wrap_i64_exact, ◌^◌, arith, length, get_elem?, take, drop, add_u64,
}
use rudp_bench.Control.Steady.{sum_range, sum_tail}

-- The sum of a list in uint64.
abbrev pub sum_u64 : ℕ → List ℕ → ℕ
sum_u64 acc [] = acc
sum_u64 acc (x ∷ xs) = sum_u64 (add_u64 acc x) xs

drop-get :
    (d : List ℕ) (i : ℕ)
    → i < length d
    → (v : ℕ) × (get_elem? d i ≡ some v) × (drop i d ≡ v ∷ drop (suc i) d)
drop-get [] i h = absurd (omega arith)
drop-get (x ∷ xs) zero h = (x, refl, refl)
drop-get (x ∷ xs) (suc i) h = drop-get xs i (omega arith)

sum_range_lem :
    (n : ℕ) (d : List ℕ) (i acc : ℕ)
    → i + n ≤ length d
    → sum_range d i n acc ≡ some (sum_u64 acc (take n (drop i d)))
unfolding sum_range
sum_range_lem zero d i acc h = refl
sum_range_lem (suc n) d i acc h =
    let (v, e, q) = drop-get d i (omega arith) in
    rw (e, sum_range) (rw (sum_range_lem n d (suc i) (add_u64 acc v) (omega arith), q))

-- Where the slice is long enough, `sumTail` is the uint64 sum of the `n` entries that stand `back`
-- before the end.
pub sum_tail_lem :
    (d : List ℕ) (n back : ℕ)
    → back + n ≤ length d
    → sum_tail d n back ≡ some (sum_u64 0 (take n (drop (length d - back - n) d)))
unfolding sum_tail
sum_tail_lem d n back h = ground (arith, sum_range_lem n d (length d - back - n) 0)

pub sum_tail-short : (d : List ℕ) (n back : ℕ) → length d < back + n → sum_tail d n back ≡ none
unfolding sum_tail
sum_tail-short d n back h = ground arith

-- Below 2^62 the doubled number of buckets does not wrap.
pub doubled-exact :
    (buckets n : ℕ)
    → buckets < 2 ^ 62
    → ltb_ℤ (pos n) (pos 2 *i64 pos buckets) ≡ false
    → n < 2 * buckets
    → ⊥
unfolding ◌*i64◌ ◌*ℤ◌
doubled-exact buckets n m h k =
    let exact : wrap_i64 (pos (2 * buckets)) ≡ pos (2 * buckets) =
      wrap_i64_exact (pos (2 * buckets)) (omega arith, omega arith) in
    ground (arith, k, rw exact at h)
