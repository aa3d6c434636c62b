-- ===== src/Bits/Mask.antt =====
-- What `w | 1 << k`, `w & ~(1 << k)` and `w & 1 << k` do to the digits of a word.
use native.Mathlib.Nat.{pow-suc, one-le-pow, pow-le-pow_right}
use yaeos.Prelude.{ℕ, suc, ◌^◌, ◌≤◌, ◌<◌, bit_and, bit_or, ap, ◌≢◌}
use yaeos.Prelude.{◌≡◌, arith, true, false, not, ◌==◌}
use yaeos.Prelude.{if◌then◌else◌}
use yaeos.Word.{shl, complement}
use yaeos.Bits.Test.{test_bit, test_bit-or, test_bit-and, test_bit-pow, test_bit-zero}
use yaeos.Bits.Test.{test_bit-complement, test_bit_above, eq_of_test_bit, bit_and-le}

pub pow-lt : (k : ℕ) → k < 32 → 2 ^ k < 2 ^ 32
pow-lt k h =
    let step : 2 ^ suc k ≤ 2 ^ 32 = pow-le-pow_right (omega arith) h in
    omega (arith, pow-suc 2 k, one-le-pow k 2)

pub shl-one : (k : ℕ) → k < 32 → shl 1 k ≡ 2 ^ k
shl-one k h = omega (arith, pow-lt k h)

-- A word without digit `k` shares no digit with the mask of that digit.
bit_and_absent : (w k : ℕ) → w < 2 ^ 32 → test_bit w k ≡ false → bit_and w (2 ^ k) ≡ 0
bit_and_absent w k h none =
    eq_of_test_bit 32 _ 0 (omega (arith, bit_and-le 32 w (2 ^ k) h)) (omega arith)
      λ i lt. ground (arith, test_bit-and w (2 ^ k) i, test_bit-pow k i, test_bit-zero i)

bit_and_present : (w k : ℕ) → test_bit w k ≡ true → bit_and w (2 ^ k) ≢ 0
bit_and_present w k one zero' =
    let digit = ap (λ (x : ℕ). test_bit x k) zero' in
    ground (arith, test_bit-and w (2 ^ k) k, test_bit-pow k k, test_bit-zero k)

-- The mask with one digit tests that digit.
pub test_mask : (w k : ℕ) → w < 2 ^ 32 → not (bit_and w (2 ^ k) == 0) ≡ test_bit w k
test_mask w k h = ground (arith, bit_and_absent w k h, bit_and_present w k)

pub test_bit-set_true :
    (w k j : ℕ) → test_bit (bit_or w (2 ^ k)) j ≡ (if k == j then true else test_bit w j)
test_bit-set_true w k j = ground (arith, test_bit-or w (2 ^ k) j, test_bit-pow k j)

pub test_bit-set_false :
    (w k j : ℕ)
    → w < 2 ^ 32
    → k < 32
    → test_bit (bit_and w (complement (2 ^ k))) j ≡ (if k == j then false else test_bit w j)
test_bit-set_false w k j h lt = ground (
  arith,
  test_bit-and w (complement (2 ^ k)) j,
  test_bit-pow k j,
  pow-lt k lt,
  test_bit-complement 32 (2 ^ k) j,
  test_bit_above 32 w j h,
)
