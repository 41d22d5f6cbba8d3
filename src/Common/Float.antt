-- ===== src/Common/Float.antt =====
-- Go's float64. The arithmetic is the hardware's, so its type and operations are a parameter of
-- every definition that computes with it; a theorem that relies on a law takes the law as a
-- hypothesis.
use Prim.Native.Nat.{ℕ}
use mathlib.Core.Bool.{Bool}
use rudp_bench.Common.Int.{ℤ}

pub record Float64 : Type 1 where
  pub Real : Type 0
  -- float64(x) of an unsigned and of a signed integer, and the decimal constant n / d.
  pub of_nat : ℕ → Real
  pub of_int : ℤ → Real
  pub decimal : ℕ → ℕ → Real
  pub fadd : Real → Real → Real
  pub fsub : Real → Real → Real
  pub fmul : Real → Real → Real
  pub fdiv : Real → Real → Real
  -- a < b and a <= b.
  pub flt : Real → Real → Bool
  pub fle : Real → Real → Bool
  -- uint64(math.Ceil(x)).
  pub ceil_u64 : Real → ℕ
  -- uint64(x), which drops the fraction.
  pub trunc_u64 : Real → ℕ
