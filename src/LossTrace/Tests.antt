-- ===== src/LossTrace/Tests.antt =====
-- A trace of one word, its drops counted, and the panic of one bit.
use rudp_bench.Common.{ℕ, ◌+◌, ◌*◌, ◌/◌, ◌%◌, ◌≡◌, refl, List, [], ◌∷◌, pos, arith, length, Float64}
use rudp_bench.Control.Tests.{numbers}
use rudp_bench.LossTrace.Bits.{or_bit, sum_over}
use rudp_bench.LossTrace.Count.{ok, count_drops_in_range}
use rudp_bench.LossTrace.Count.Exact.{count_drops_in_range_lem}
use rudp_bench.LossTrace.Count.Laws.{bit_at, dropped}
use rudp_bench.LossTrace.Trace.{next_bad, trace, panic, generate, enter}
use rudp_bench.LossTrace.Trace.Marks.{bad_packet}
use rudp_bench.LossTrace.Trace.Exact.{generate-count_drops_in_range, generate-short-panic}

-- Numbers in thousandths.
abbrev pub thousandths : Float64
thousandths = record numbers {
  of_nat = λ n. n * 1000;
  fmul = λ a b. a * b / 1000;
  fdiv = λ a b. a * 1000 / b;
}

abbrev pub draws : ℕ → ℕ → ℕ
draws seed i = (seed + i * 389) % 1000

abbrev pub words : List ℕ
words = 18700565102208769 ∷ []

pub generated : generate thousandths draws 7 20000 2000 (pos 64) ≡ trace words 25000
unfolding generate or_bit
generated = refl

abbrev drop_of : ℕ → ℕ
drop_of = bad_packet thousandths draws 7 (enter thousandths 200 500) 500

generate-count_drops_in_range_example :
    (length words ≡ 1)
    × (bit_at words 5 ≡ drop_of 5)
    × (d : ℕ) × (count_drops_in_range words 0 64 ≡ ok d)
    × (25000 ≡ d * 1000 * 1000 / 64000 * 100000 / 1000)
generate-count_drops_in_range_example =
    generate-count_drops_in_range thousandths draws 7 20000 2000 1 (omega arith) (omega arith)
      generated 5 (omega arith)

generate-short-panic_example : generate thousandths draws 7 20000 2000 (pos 1) ≡ panic
unfolding next_bad
generate-short-panic_example =
    generate-short-panic thousandths draws 7 20000 2000 1 (omega arith) (omega arith) refl refl refl
      0 (omega arith) (unfold bad_packet in refl)

count_drops_in_range_lem_example :
    count_drops_in_range words 60 200 ≡ ok (sum_over (dropped words) 60 140)
count_drops_in_range_lem_example =
    count_drops_in_range_lem words (omega arith) 60 200 (omega arith) (omega arith) (omega arith)
      refl
