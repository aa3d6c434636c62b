-- ===== src/Bits/Test.antt =====
-- Binary digits of a number, and what the bit operations do to each of them.
use native.Mathlib.Nat.{pow-suc}
use Prim.Native.Nat.{bit_and-bitwise}
use yaeos.Prelude.{ℕ, zero, suc, ◌-◌, ◌/◌, ◌%◌, ◌^◌, ◌≤◌, ◌<◌, bit_and, bit_or}
use yaeos.Prelude.{◌≡◌, refl, arith, Bool, false, not, ◌&&◌, ◌||◌, ◌==◌}
use yaeos.Bits.Digits.{bit_and_low, bit_or_low}

-- Digit `i` of `a`, lowest first.
unfoldable pub test_bit : ℕ → ℕ → Bool
test_bit a zero = a % 2 == 1
test_bit a (suc i) = test_bit (a / 2) i

pub test_bit-or : (a b i : ℕ) → test_bit (bit_or a b) i ≡ (test_bit a i || test_bit b i)
unfolding test_bit
test_bit-or a b zero = ground (arith, bit_or_low a b)
test_bit-or a b (suc i) =
    let half : bit_or a b / 2 ≡ bit_or (a / 2) (b / 2) = omega (arith, bit_or_low a b) in
    rw half (test_bit-or (a / 2) (b / 2) i)

pub test_bit-and : (a b i : ℕ) → test_bit (bit_and a b) i ≡ (test_bit a i && test_bit b i)
unfolding test_bit
test_bit-and a b zero = ground (arith, bit_and_low a b)
test_bit-and a b (suc i) =
    let half : bit_and a b / 2 ≡ bit_and (a / 2) (b / 2) = omega (arith, bit_and_low a b) in
    rw half (test_bit-and (a / 2) (b / 2) i)

pub test_bit-zero : (i : ℕ) → test_bit 0 i ≡ false
unfolding test_bit
test_bit-zero zero = refl
test_bit-zero (suc i) = test_bit-zero i

pub test_bit-pow : (k i : ℕ) → test_bit (2 ^ k) i ≡ (i == k)
unfolding test_bit
test_bit-pow zero zero = refl
test_bit-pow zero (suc i) = ground (arith, test_bit-zero i)
test_bit-pow (suc k) zero = ground (arith, pow-suc 2 k)
test_bit-pow (suc k) (suc i) =
    let half : 2 ^ suc k / 2 ≡ 2 ^ k = omega (arith, pow-suc 2 k) in
    rw half (ground (arith, test_bit-pow k i))

-- The complement in `w` digits flips each of them.
pub test_bit-complement :
    (w x i : ℕ) → x < 2 ^ w → i < w → test_bit (2 ^ w - 1 - x) i ≡ not (test_bit x i)
unfolding test_bit
test_bit-complement zero x i h lt = absurd (omega arith)
test_bit-complement (suc w) x zero h lt = ground (arith, pow-suc 2 w)
test_bit-complement (suc w) x (suc i) h lt =
    let half : (2 ^ suc w - 1 - x) / 2 ≡ 2 ^ w - 1 - x / 2 = omega (arith, pow-suc 2 w) in
    rw half (test_bit-complement w (x / 2) i (omega (arith, pow-suc 2 w)) (omega arith))

pub test_bit_above : (w x i : ℕ) → x < 2 ^ w → w ≤ i → test_bit x i ≡ false
unfolding test_bit
test_bit_above zero zero i h le = test_bit-zero i
test_bit_above zero (suc x) i h le = absurd (omega arith)
test_bit_above (suc w) x zero h le = absurd (omega arith)
test_bit_above (suc w) x (suc i) h le =
    test_bit_above w (x / 2) i (omega (arith, pow-suc 2 w)) (omega arith)

-- Numbers of `w` digits with the same digits are equal.
pub eq_of_test_bit :
    (w a b : ℕ) → a < 2 ^ w → b < 2 ^ w → ((i : ℕ) → i < w → test_bit a i ≡ test_bit b i) → a ≡ b
unfolding test_bit
eq_of_test_bit zero a b p q h = omega arith
eq_of_test_bit (suc w) a b p q h =
    let high =
      eq_of_test_bit w (a / 2) (b / 2) (omega (arith, pow-suc 2 w)) (omega (arith, pow-suc 2 w))
        (λ i lt. h (suc i) (omega arith)) in
    ground (arith, high, h 0 (omega arith))

pub bit_or-lt : (w a b : ℕ) → a < 2 ^ w → b < 2 ^ w → bit_or a b < 2 ^ w
bit_or-lt zero zero zero p q = omega arith
bit_or-lt zero zero (suc b) p q = absurd (omega arith)
bit_or-lt zero (suc a) b p q = absurd (omega arith)
bit_or-lt (suc w) a b p q = omega (
  arith,
  bit_or_low a b,
  pow-suc 2 w,
  bit_or-lt w (a / 2) (b / 2) (omega (arith, pow-suc 2 w)) (omega (arith, pow-suc 2 w)),
)

pub bit_and-le : (w a b : ℕ) → a < 2 ^ w → bit_and a b ≤ a
bit_and-le zero zero b p = omega (arith, bit_and-bitwise 0 b)
bit_and-le zero (suc a) b p = absurd (omega arith)
bit_and-le (suc w) a b p =
    omega (arith, bit_and_low a b, bit_and-le w (a / 2) (b / 2) (omega (arith, pow-suc 2 w)))
