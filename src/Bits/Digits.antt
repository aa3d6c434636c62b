-- ===== src/Bits/Digits.antt =====
-- The native bit operations by their lowest binary digit, free of the fuel that defines them.
use Prim.Native.Nat.{digits, bitwise, differ, max}
use Prim.Native.Nat.{bit_and-bitwise, bit_or-bitwise, bit_xor-bitwise}
use native.Mathlib.Nat.{le_refl}
use yaeos.Prelude.{ℕ, zero, suc, ◌+◌, ◌*◌, ◌/◌, ◌%◌, ◌≤◌, min, bit_and, bit_or, bit_xor}
use yaeos.Prelude.{◌≡◌, refl, arith}

module _ (z : ℕ → ℕ) (f : ℕ → ℕ → ℕ) where
  -- Any two amounts of fuel that reach the first number give the same digits.
  digits_any : (m n a b : ℕ) → a ≤ m → a ≤ n → digits z f m a b ≡ digits z f n a b
  digits_any zero zero a b p q = refl
  digits_any (suc m) zero zero b p q = refl
  digits_any (suc m) zero (suc a) b p q = absurd (omega arith)
  digits_any zero (suc n) zero b p q = refl
  digits_any zero (suc n) (suc a) b p q = absurd (omega arith)
  digits_any (suc m) (suc n) zero b p q = refl
  digits_any (suc m) (suc n) (suc a) b p q =
      rw (digits_any m n (suc a / 2) (b / 2) (omega arith) (omega arith))

  bitwise_low :
      ((b : ℕ) → z b ≡ z (b / 2) * 2 + f 0 (b % 2))
      → (a b : ℕ) → bitwise z f a b ≡ bitwise z f (a / 2) (b / 2) * 2 + f (a % 2) (b % 2)
  bitwise_low low zero b = low b
  bitwise_low low (suc a) b =
      omega (arith, digits_any a (suc a / 2) (suc a / 2) (b / 2) (omega arith) (le_refl _))

pub bit_and_low : (a b : ℕ) → bit_and a b ≡ bit_and (a / 2) (b / 2) * 2 + min (a % 2) (b % 2)
bit_and_low a b = simp bit_and-bitwise (bitwise_low (λ _. 0) min (λ c. omega arith) a b)

pub bit_or_low : (a b : ℕ) → bit_or a b ≡ bit_or (a / 2) (b / 2) * 2 + max (a % 2) (b % 2)
bit_or_low a b = simp bit_or-bitwise (bitwise_low (λ c. c) max (λ c. omega arith) a b)

pub bit_xor_low : (a b : ℕ) → bit_xor a b ≡ bit_xor (a / 2) (b / 2) * 2 + differ (a % 2) (b % 2)
bit_xor_low a b = simp bit_xor-bitwise (bitwise_low (λ c. c) differ (λ c. omega arith) a b)
