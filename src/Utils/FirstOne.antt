-- ===== src/Utils/FirstOne.antt =====
-- What `find_first_one` and `find_first_zero` find.
use mathlib.Core.WellFounded.{Acc}
use native.Mathlib.Nat.{pow-suc, one-le-pow}
use Prim.Native.Nat.{differ}
use yaeos.Prelude.{ℕ, zero, suc, ◌+◌, ◌-◌, ◌/◌, ◌%◌, ◌^◌, ◌<◌, bit_xor, arith, lt_wf}
use yaeos.Prelude.{
  Bool-cases, ◌≡◌, refl, sym, ◌∙◌, Bool, true, false, not, ◌==◌, if◌then◌else◌, inl, inr,
}
use yaeos.Bits.Digits.{bit_xor_low}
use yaeos.Bits.Test.{test_bit, test_bit-complement}
use yaeos.Word.{◌+w◌, ◌-w◌, complement, shr}
use yaeos.Utils.{count_shifts, find_first_one, find_first_zero}

-- The zero digits below the lowest one, of a number of `w` digits.
trailing : ℕ → ℕ → ℕ
trailing zero x = 0
trailing (suc w) x = if x % 2 == 1 then 0 else suc (trailing w (x / 2))

xor_self : (w a : ℕ) → a < 2 ^ w → bit_xor a a ≡ 0
xor_self zero zero h = omega (arith, bit_xor_low 0 0)
xor_self zero (suc a) h = absurd (omega arith)
xor_self (suc w) a h =
    let ih = xor_self w (a / 2) (omega (arith, pow-suc 2 w)) in
    ground (arith, bit_xor_low a a, differ_self (a % 2))
  where
    differ_self : (d : ℕ) → differ d d ≡ 0
    differ_self zero = refl
    differ_self (suc d) = differ_self d

xor_odd : (w x : ℕ) → x < 2 ^ suc w → x % 2 ≡ 1 → bit_xor x (x - 1) ≡ 1
xor_odd w x h low =
    let half : (x - 1) / 2 ≡ x / 2 = omega arith in
    let low' : (x - 1) % 2 ≡ 0 = omega arith in
    rw (bit_xor_low x (x - 1), half, low, low', xor_self w (x / 2) (omega (arith, pow-suc 2 w)))

xor_even :
    (x k : ℕ)
    → 0 < x
    → x % 2 ≡ 0
    → bit_xor (x / 2) (x / 2 - 1) ≡ 2 ^ suc k - 1
    → bit_xor x (x - 1) ≡ 2 ^ suc (suc k) - 1
xor_even x k p low ih =
    let half : (x - 1) / 2 ≡ x / 2 - 1 = omega arith in
    let low' : (x - 1) % 2 ≡ 1 = omega arith in
    rw (bit_xor_low x (x - 1), half, low, low', ih)
      (omega (arith, pow-suc 2 (suc k), one-le-pow (suc k) 2))

xor_pred : (w x : ℕ) → 0 < x → x < 2 ^ w → bit_xor x (x - 1) ≡ 2 ^ suc (trailing w x) - 1
unfolding trailing
xor_pred zero x p h = absurd (omega arith)
xor_pred (suc w) x p h = elim (Bool-cases (x % 2 == 1)) [
  | inl odd ↦ rw odd (xor_odd w x h (ground arith))
  | inr even ↦ rw even (
      xor_even x (trailing w (x / 2)) p (ground arith)
        (xor_pred w (x / 2) (ground arith) (omega (arith, pow-suc 2 w))))
]

count_shifts-ones :
    (k ndx x : ℕ) (a : Acc ◌<◌ x)
    → x ≡ 2 ^ k - 1
    → k + ndx < 2 ^ 32
    → count_shifts x ndx a ≡ ndx + k
unfolding count_shifts
count_shifts-ones zero ndx x (Acc.intro _ smaller) e h = ground arith
count_shifts-ones (suc k) ndx x (Acc.intro _ smaller) e h =
    let pos : 0 < x = omega (arith, pow-suc 2 k, one-le-pow k 2) in
    let half : x / 2 ≡ 2 ^ k - 1 = omega (arith, pow-suc 2 k) in
    let step : ndx +w 1 ≡ ndx + 1 = omega arith in
    grind (
      arith,
      λ (p : x / 2 < x).
          count_shifts-ones k (ndx +w 1) (x / 2) (smaller (x / 2) p) half (omega arith),
    )

-- The digits of `x` below the lowest one, for `x` of `w` digits that is not 0.
trailing_lem :
    (w x : ℕ)
    → 0 < x
    → x < 2 ^ w
    → (trailing w x < w)
      × (test_bit x (trailing w x) ≡ true)
      × ((j : ℕ) → j < trailing w x → test_bit x j ≡ false)
unfolding trailing test_bit
trailing_lem zero x p h = absurd (omega arith)
trailing_lem (suc w) x p h = elim (Bool-cases (x % 2 == 1)) [
  | inl odd ↦ rw odd (omega arith, odd, λ j lt. absurd (omega arith))
  | inr even ↦
      let (lt, top, below) = trailing_lem w (x / 2) (ground arith) (omega (arith, pow-suc 2 w)) in
      rw even (omega arith, top, elim [ zero ↦ λ lt0. even | suc j ↦ λ lts. below j (omega arith) ])
]

find_first_one-eq : (x : ℕ) → 0 < x → x < 2 ^ 32 → find_first_one x ≡ trailing 32 x
unfolding find_first_one
find_first_one-eq x p h =
    let pred : x -w 1 ≡ x - 1 = omega arith in
    let small = (trailing_lem 32 x p h).0 in
    let xor = xor_pred 32 x p h in
    let half : (2 ^ suc (trailing 32 x) - 1) / 2 ≡ 2 ^ trailing 32 x - 1 =
      omega (arith, pow-suc 2 (trailing 32 x)) in
    let ones : shr (bit_xor x (x -w 1)) 1 ≡ 2 ^ trailing 32 x - 1 = rw (pred, xor) half in
    count_shifts-ones (trailing 32 x) 0 _ (lt_wf.apply _) ones (omega arith) ∙ omega arith

-- Of a 32-bit word that is not 0, `find_first_one` returns the index of the lowest one digit.
pub find_first_one_lem :
    (x : ℕ)
    → 0 < x
    → x < 2 ^ 32
    → (find_first_one x < 32)
      × (test_bit x (find_first_one x) ≡ true)
      × ((j : ℕ) → j < find_first_one x → test_bit x j ≡ false)
find_first_one_lem x p h = rw (find_first_one-eq x p h) (trailing_lem 32 x p h)

not-true : (b : Bool) → not b ≡ true → b ≡ false
not-true b h = ground arith

not-false : (b : Bool) → not b ≡ false → b ≡ true
not-false b h = ground arith

-- Of a 32-bit word that is not all ones, `find_first_zero` returns the index of the lowest zero
-- digit.
pub find_first_zero_lem :
    (x : ℕ)
    → x < 2 ^ 32 - 1
    → (find_first_zero x < 32)
      × (test_bit x (find_first_zero x) ≡ false)
      × ((j : ℕ) → j < find_first_zero x → test_bit x j ≡ true)
unfolding find_first_zero
find_first_zero_lem x h =
    let (lt, top, below) = find_first_one_lem (complement x) (omega arith) (omega arith) in
    let flip = λ (i : ℕ) (l : i < 32). test_bit-complement 32 x i (omega arith) l in
    (
      lt,
      not-true _ (sym (flip _ lt) ∙ top),
      λ j l. not-false _ (sym (flip j (omega arith)) ∙ below j l),
    )
