-- ===== src/Align/Bounds.antt =====
-- Rounding an address to a power of two: kernel/include/lib/align.h.
use native.Mathlib.Nat.{pow-suc, one-le-pow, mul-mod_left, mul-le-mul_right}
use native.Mathlib.Nat.{le-div_iff_mul-le, div-lt_iff_lt-mul, div-add-mod', suc-mul, div-eq_of_lt}
use yaeos.Prelude.{ℕ, zero, suc, ◌+◌, ◌-◌, ◌*◌, ◌/◌, ◌%◌, ◌^◌, ◌≤◌, ◌<◌, bit_and}
use yaeos.Prelude.{◌≡◌, arith, true, ◌↔◌}
use yaeos.Bits.Digits.{bit_and_low}
use yaeos.Bits.Shift.{drop_bits, mul-two-pow, drop_bits_bounds, drop_bits-eq-div}
use yaeos.Bits.Mask.{pow-lt}
use yaeos.Word.{◌+w◌, ◌-w◌, neg}
use yaeos.Align.{align_roundup, align_rounddown, check_align}

bit_and_ones : (w a : ℕ) → a < 2 ^ w → bit_and a (2 ^ w - 1) ≡ a
bit_and_ones zero zero h = omega (arith, bit_and_low 0 (2 ^ 0 - 1))
bit_and_ones zero (suc a) h = absurd (omega arith)
bit_and_ones (suc w) a h =
    let half : (2 ^ suc w - 1) / 2 ≡ 2 ^ w - 1 = omega (arith, pow-suc 2 w) in
    let ih = bit_and_ones w (a / 2) (omega (arith, pow-suc 2 w)) in
    ground (arith, bit_and_low a (2 ^ suc w - 1), half, pow-suc 2 w, one-le-pow w 2)

bit_and_high : (k w a : ℕ) → k ≤ w → a < 2 ^ w → bit_and a (2 ^ w - 2 ^ k) ≡ drop_bits k a * 2 ^ k
unfolding drop_bits
bit_and_high zero w a le lt = omega (arith, bit_and_ones w a lt)
bit_and_high (suc k) zero a le lt = absurd (omega arith)
bit_and_high (suc k) (suc w) a le lt =
    let half : (2 ^ suc w - 2 ^ suc k) / 2 ≡ 2 ^ w - 2 ^ k =
      omega (arith, pow-suc 2 w, pow-suc 2 k) in
    let ih = bit_and_high k w (a / 2) (omega arith) (omega (arith, pow-suc 2 w)) in
    ground (
      arith,
      bit_and_low a (2 ^ suc w - 2 ^ suc k),
      half,
      pow-suc 2 w,
      pow-suc 2 k,
      mul-two-pow (drop_bits k (a / 2)) k,
    )

-- The mask of `align_rounddown` and `align_roundup` at a power of two clears the low digits.
mask_lem : (k a : ℕ) → k < 32 → a < 2 ^ 32 → bit_and a (neg (2 ^ k)) ≡ a / 2 ^ k * 2 ^ k
mask_lem k a h lt =
    let mask : neg (2 ^ k) ≡ 2 ^ 32 - 2 ^ k = omega (arith, pow-lt k h, one-le-pow k 2) in
    rw (mask, ← drop_bits-eq-div) (bit_and_high k 32 a (omega arith) lt)

align_rounddown-eq :
    (k from : ℕ) → k < 32 → from < 2 ^ 32 → align_rounddown from (2 ^ k) ≡ from / 2 ^ k * 2 ^ k
unfolding align_rounddown
align_rounddown-eq k from h lt = ground (arith, one-le-pow k 2, mask_lem k from h lt)

align_roundup-eq :
    (k from : ℕ)
    → k < 32
    → from < 2 ^ 32
    → from + (2 ^ k - 1) < 2 ^ 32
    → align_roundup from (2 ^ k) ≡ (from + (2 ^ k - 1)) / 2 ^ k * 2 ^ k
unfolding align_roundup
align_roundup-eq k from h lt fits =
    let sub : 2 ^ k -w 1 ≡ 2 ^ k - 1 = omega (arith, one-le-pow k 2, pow-lt k h) in
    let sum : from +w (2 ^ k -w 1) ≡ from + (2 ^ k - 1) = rw sub (omega arith) in
    ground (arith, one-le-pow k 2, mask_lem k (from + (2 ^ k - 1)) h fits, sum)

-- For a power of two 2 ^ k, k < 32, `align_rounddown` returns the greatest multiple of the
-- alignment that is at most the address.
pub align_rounddown_greatest :
    (k from : ℕ)
    → k < 32
    → from < 2 ^ 32
    → (align_rounddown from (2 ^ k) % 2 ^ k ≡ 0)
      × (align_rounddown from (2 ^ k) ≤ from)
      × ((m : ℕ) → m * 2 ^ k ≤ from → m * 2 ^ k ≤ align_rounddown from (2 ^ k))
align_rounddown_greatest k from h lt =
    let pos = one-le-pow k 2 (omega arith) in
    rw (align_rounddown-eq k from h lt) (
      mul-mod_left _ _,
      omega (arith, div-add-mod' from (2 ^ k)),
      λ m le. mul-le-mul_right (2 ^ k) ((le-div_iff_mul-le pos).1 le),
    )

-- For a power of two 2 ^ k, k < 32, and an address whose sum with the alignment less one does not
-- wrap, `align_roundup` returns the least multiple of the alignment that is at least the address.
pub align_roundup_least :
    (k from : ℕ)
    → k < 32
    → from + (2 ^ k - 1) < 2 ^ 32
    → (align_roundup from (2 ^ k) % 2 ^ k ≡ 0)
      × (from ≤ align_roundup from (2 ^ k))
      × ((m : ℕ) → from ≤ m * 2 ^ k → align_roundup from (2 ^ k) ≤ m * 2 ^ k)
align_roundup_least k from h fits =
    let pos = one-le-pow k 2 (omega arith) in
    let b = drop_bits_bounds k (from + (2 ^ k - 1)) in
    rw (align_roundup-eq k from h (omega arith) fits) (
      mul-mod_left _ _,
      omega (arith, b, drop_bits-eq-div k (from + (2 ^ k - 1))),
      λ m le.
          let below : (from + (2 ^ k - 1)) / 2 ^ k < suc m =
            (div-lt_iff_lt-mul pos).1 (omega (arith, suc-mul m (2 ^ k), pos, le)) in
          mul-le-mul_right (2 ^ k) (omega arith),
    )

-- Where the sum with the alignment less one wraps, `align_roundup` returns 0.
pub align_roundup_wraps :
    (k from : ℕ)
    → k < 32
    → from < 2 ^ 32
    → 2 ^ 32 ≤ from + (2 ^ k - 1)
    → align_roundup from (2 ^ k) ≡ 0
unfolding align_roundup
align_roundup_wraps k from h lt wraps =
    let pos = one-le-pow k 2 (omega arith) in
    let sum : (from +w (2 ^ k -w 1)) < 2 ^ k = omega (arith, pow-lt k h) in
    let none : (from +w (2 ^ k -w 1)) / 2 ^ k ≡ 0 = div-eq_of_lt sum in
    ground (arith, pos, mask_lem k (from +w (2 ^ k -w 1)) h (omega arith), none)

-- `check_align` at a power of two holds exactly of the multiples.
pub check_align_iff :
    (k value : ℕ)
    → k < 32
    → value < 2 ^ 32
    → (check_align value (2 ^ k) ≡ true) ↔ (value % 2 ^ k ≡ 0)
unfolding check_align
check_align_iff k value h lt =
    let e = align_rounddown-eq k value h lt in
    (
      λ c. ground (arith, e, div-add-mod' value (2 ^ k)),
      λ c. ground (arith, e, div-add-mod' value (2 ^ k)),
    )
