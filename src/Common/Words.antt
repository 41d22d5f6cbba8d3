-- ===== src/Common/Words.antt =====
-- Go's fixed-width integers: uint64 as a native number below 2^64 and int64 as an integer, each
-- sum reduced to its width.
use Prim.Native.Nat.{ℕ, ◌+◌, ◌-◌, ◌*◌, ◌%◌, ◌^◌}
use mathlib.Core.Path.{◌≡◌}
use native.Mathlib.Omega.{arith}
use rudp_bench.Common.Tests.{ltb, if◌then◌else◌}
use rudp_bench.Common.Int.{ℤ, pos, negsuc, ◌+ℤ◌, ◌-ℤ◌, ◌*ℤ◌, ◌≤ℤ◌, ◌<ℤ◌}

abbrev pub u64_mod : ℕ
u64_mod = 2 ^ 64

-- uint64 a + b, a - b and a * b. `-` on ℕ is truncated, so the modulus is added first.
abbrev pub add_u64 : ℕ → ℕ → ℕ
add_u64 a b = (a + b) % u64_mod

abbrev pub sub_u64 : ℕ → ℕ → ℕ
sub_u64 a b = (a + u64_mod - b) % u64_mod

abbrev pub mul_u64 : ℕ → ℕ → ℕ
mul_u64 a b = (a * b) % u64_mod

-- The bit pattern of an integer in 64 bits, and the integer that a bit pattern stands for.
abbrev pub to_bits64 : ℤ → ℕ
to_bits64 (pos n) = n % u64_mod
to_bits64 (negsuc n) = u64_mod - 1 - n % u64_mod

abbrev pub of_bits64 : ℕ → ℤ
of_bits64 b = if ltb b (2 ^ 63) then pos b else negsuc (u64_mod - 1 - b)

unfoldable pub wrap_i64 : ℤ → ℤ
wrap_i64 z = of_bits64 (to_bits64 z)

-- int64 a + b, a - b and a * b.
infixl 65 ◌+i64◌ ◌-i64◌
unfoldable pub ◌+i64◌ : ℤ → ℤ → ℤ
a +i64 b = wrap_i64 (a +ℤ b)

unfoldable pub ◌-i64◌ : ℤ → ℤ → ℤ
a -i64 b = wrap_i64 (a -ℤ b)

infixl 70 ◌*i64◌
unfoldable pub ◌*i64◌ : ℤ → ℤ → ℤ
a *i64 b = wrap_i64 (a *ℤ b)

abbrev pub InI64 : ℤ → Type 0
InI64 z = (negsuc (2 ^ 63 - 1) ≤ℤ z) × (z <ℤ pos (2 ^ 63))

pub wrap_i64_exact : (z : ℤ) → InI64 z → wrap_i64 z ≡ z
unfolding wrap_i64
wrap_i64_exact (pos n) h = ground arith
wrap_i64_exact (negsuc n) h = ground arith

-- A sum or difference that fits its width is exact.
pub +i64_exact : (a b : ℤ) → InI64 (a +ℤ b) → a +i64 b ≡ a +ℤ b
unfolding ◌+i64◌
+i64_exact a b h = wrap_i64_exact (a +ℤ b) h

pub -i64_exact : (a b : ℤ) → InI64 (a -ℤ b) → a -i64 b ≡ a -ℤ b
unfolding ◌-i64◌
-i64_exact a b h = wrap_i64_exact (a -ℤ b) h
