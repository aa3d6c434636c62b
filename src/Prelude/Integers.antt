-- ===== src/Prelude/Integers.antt =====
-- C's `int` as an integer over the native numbers.
use Prim.Native.Nat.{ℕ, ◌-◌}
use mathlib.Core.Bool.{Bool, true, false}
use yaeos.Prelude.Tests.{leb, ◌==◌, if◌then◌else◌}

-- `negsuc n` is -(n + 1).
pub data ℤ : Type 0 where
  pos : ℕ → ℤ
  negsuc : ℕ → ℤ

-- `n <= c`, `c <= n` and `n == c`, for a constant that is not negative.
abbrev pub at_least : ℕ → ℤ → Bool
at_least n (pos c) = leb n c
at_least n (negsuc c) = false

abbrev pub at_most : ℤ → ℕ → Bool
at_most (pos c) n = leb c n
at_most (negsuc c) n = true

abbrev pub is_int : ℤ → ℕ → Bool
is_int (pos c) n = c == n
is_int (negsuc c) n = false

-- The difference of two numbers.
abbrev pub diff : ℕ → ℕ → ℤ
diff a b = if leb b a then pos (a - b) else negsuc (b - a - 1)
