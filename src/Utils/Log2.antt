-- ===== src/Utils/Log2.antt =====
-- `log2_floor`, `log2_ceil` and `div_ceil`.
use native.Mathlib.Nat.{pow-suc, pow-le-pow_right, div-add-mod', mod-lt}
use native.Mathlib.Decide.{dec_lt}
use yaeos.Prelude.{ℕ, zero, suc, ◌+◌, ◌-◌, ◌*◌, ◌/◌, ◌^◌, ◌≤◌, ◌<◌, arith}
use yaeos.Prelude.{◌≡◌, ap, ==_ne, true, false, leb, inl, inr, Bool-cases}
use yaeos.Prelude.{ok}
use yaeos.Bits.Test.{test_bit}
use yaeos.Word.{◌+w◌, ◌-w◌}
use yaeos.Utils.{leading_zeros, log2_floor, log2_ceil, div_ceil}

-- A digit that is one is worth its power of two; a top digit that is zero halves the bound.
top_bit :
    (w x : ℕ)
    → x < 2 ^ suc w
    → (test_bit x w ≡ true → 2 ^ w ≤ x) × (test_bit x w ≡ false → x < 2 ^ w)
unfolding test_bit
top_bit zero x h = ground arith
top_bit (suc w) x h =
    let (one, none) = top_bit w (x / 2) (omega (arith, pow-suc 2 (suc w))) in
    (λ e. omega (arith, one e, pow-suc 2 w), λ e. omega (arith, none e, pow-suc 2 w))

leading_zeros_lem :
    (w x : ℕ)
    → 0 < x
    → x < 2 ^ w
    → (l : ℕ) × (leading_zeros w x + l + 1 ≡ w) × (2 ^ l ≤ x) × (x < 2 ^ suc l)
unfolding leading_zeros
leading_zeros_lem zero x p h = absurd (omega arith)
leading_zeros_lem (suc w) x p h = elim (Bool-cases (test_bit x w)) [
  | inl one ↦ (w, rw one (omega arith), (top_bit w x h).0 one, h)
  | inr none ↦
      let (l, e, low, high) = leading_zeros_lem w x p ((top_bit w x h).1 none) in
      (l, rw none (omega arith), low, high)
]

-- Of a 32-bit word that is not 0, `log2_floor` returns the exponent of the greatest power of two
-- that is at most the word.
pub log2_floor_lem :
    (x : ℕ)
    → 0 < x
    → x < 2 ^ 32
    → (l : ℕ) × (log2_floor x ≡ ok l) × (l < 32) × (2 ^ l ≤ x) × (x < 2 ^ suc l)
unfolding log2_floor
log2_floor_lem x p h =
    let (l, e, low, high) = leading_zeros_lem 32 x p h in
    (l, rw (==_ne x 0 (omega arith)) (ap ok (omega arith)), omega arith, low, high)

exponent_le : (l m : ℕ) → 2 ^ l < 2 ^ m → suc l ≤ m
exponent_le l m h = elim (dec_lt l m) [
  | yes lt ↦ lt
  | no ge ↦
      let up : 2 ^ m ≤ 2 ^ l = pow-le-pow_right (omega arith) (omega arith) in absurd (omega arith)
]

-- `log2_ceil` returns the least exponent whose power of two is at least the 32-bit word, and never
-- panics.
pub log2_ceil_lem :
    (x : ℕ)
    → x < 2 ^ 32
    → (l : ℕ) × (log2_ceil x ≡ ok l) × (x ≤ 2 ^ l) × ((m : ℕ) → x ≤ 2 ^ m → l ≤ m)
unfolding log2_ceil
log2_ceil_lem x h = elim (Bool-cases (leb x 1)) [
  | inl small ↦ (0, rw small, ground arith, λ m le. omega arith)
  | inr large ↦
      let (l, e, lt, low, high) = log2_floor_lem (x - 1) (ground arith) (omega arith) in
      let pred : x -w 1 ≡ x - 1 = ground arith in
      (
        suc l,
        rw (large, pred, e) (ap ok (omega arith)),
        omega (arith, high),
        λ m le. exponent_le l m (omega arith),
      )
]

-- For a positive divisor and a sum that does not wrap, `div_ceil` rounds the quotient up.
pub div_ceil_lem :
    (x y : ℕ) → 0 < y → x + y < 2 ^ 32 → (x ≤ div_ceil x y * y) × (div_ceil x y * y < x + y)
unfolding div_ceil
div_ceil_lem x y p h =
    let sum : x +w y -w 1 ≡ x + y - 1 = omega arith in
    rw sum (omega (arith, div-add-mod' (x + y - 1) y, mod-lt (x + y - 1) p))
