-- ===== src/Bits/Shift.antt =====
-- Shifts as divisions by a power of two, a digit at a time.
use native.Mathlib.Nat.{pow-suc, one-le-pow, le-div_iff_mul-le, div-lt_iff_lt-mul}
use yaeos.Prelude.{ℕ, zero, suc, ◌+◌, ◌*◌, ◌/◌, ◌^◌, ◌≤◌, ◌<◌, ◌≡◌, sym, ◌∙◌, arith, false, ltb}
use yaeos.Prelude.{if◌then◌else◌}
use yaeos.Bits.Test.{test_bit}

-- `a / 2 ^ k`, a digit at a time.
unfoldable pub drop_bits : ℕ → ℕ → ℕ
drop_bits zero a = a
drop_bits (suc k) a = drop_bits k (a / 2)

pub mul-two-pow : (q k : ℕ) → q * 2 ^ suc k ≡ 2 * (q * 2 ^ k)
mul-two-pow q k = grind (arith, pow-suc 2 k)

pub drop_bits_bounds : (k a : ℕ) → (drop_bits k a * 2 ^ k ≤ a) × (a < drop_bits k a * 2 ^ k + 2 ^ k)
unfolding drop_bits
drop_bits_bounds zero a = omega arith
drop_bits_bounds (suc k) a =
    omega (arith, mul-two-pow (drop_bits k (a / 2)) k, drop_bits_bounds k (a / 2), pow-suc 2 k)

pub drop_bits-eq-div : (k a : ℕ) → drop_bits k a ≡ a / 2 ^ k
drop_bits-eq-div k a =
    let pos = one-le-pow k 2 (omega arith) in
    let b = drop_bits_bounds k a in
    let lower : drop_bits k a ≤ a / 2 ^ k = (le-div_iff_mul-le pos).1 b.0 in
    let upper : a / 2 ^ k < drop_bits k a + 1 = (div-lt_iff_lt-mul pos).1 (grind (arith, b)) in
    omega arith

pub div-pow-suc : (a k : ℕ) → a / 2 ^ suc k ≡ a / 2 / 2 ^ k
unfolding drop_bits
div-pow-suc a k = sym (drop_bits-eq-div (suc k) a) ∙ drop_bits-eq-div k (a / 2)

-- The digits of a number whose low `k` digits are cleared.
pub test_bit-clear_low :
    (k w j : ℕ) → test_bit (w / 2 ^ k * 2 ^ k) j ≡ (if ltb j k then false else test_bit w j)
unfolding test_bit
test_bit-clear_low zero w j =
    let same : w / 2 ^ 0 * 2 ^ 0 ≡ w = omega arith in rw same (ground arith)
test_bit-clear_low (suc k) w zero = ground (arith, mul-two-pow (w / 2 ^ suc k) k)
test_bit-clear_low (suc k) w (suc j) =
    let half : w / 2 ^ suc k * 2 ^ suc k / 2 ≡ w / 2 / 2 ^ k * 2 ^ k =
      rw (div-pow-suc w k) (omega (arith, mul-two-pow (w / 2 / 2 ^ k) k)) in
    rw half (ground (arith, test_bit-clear_low k (w / 2) j))

-- The same, with the last halving outside.
pub div-pow-suc_right : (k a : ℕ) → a / 2 ^ suc k ≡ a / 2 ^ k / 2
div-pow-suc_right zero a = omega arith
div-pow-suc_right (suc k) a =
    rw (div-pow-suc a (suc k), div-pow-suc a k) (div-pow-suc_right k (a / 2))
