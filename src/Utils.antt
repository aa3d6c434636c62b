-- ===== src/Utils.antt =====
-- Helpers of kernel/include/lib/utils.h.
pub mod FirstOne
pub mod Log2
mod Tests
use mathlib.Core.Logic.{dite}
use mathlib.Core.WellFounded.{Acc}
use native.Mathlib.Decide.{dec_lt}
use yaeos.Prelude.{ℕ, zero, suc, ◌+◌, ◌-◌, ◌/◌, ◌^◌, ◌<◌, bit_xor, arith, not, ltb, leb, ◌==◌}
use yaeos.Prelude.{Outcome, ok, ◌>>=◌, ◌>>◌, kassert, if◌then◌else◌, lt_wf}
use yaeos.Bits.Test.{test_bit}
use yaeos.Word.{◌+w◌, ◌-w◌, complement, shr}

-- `div_ceil`
unfoldable pub div_ceil : ℕ → ℕ → ℕ
div_ceil x y = (x +w y -w 1) / y

-- What the compiler's `__builtin_clzl` counts: the zero digits above the highest one of `w`.
unfoldable pub leading_zeros : ℕ → ℕ → ℕ
unfolding test_bit
leading_zeros zero x = 0
leading_zeros (suc w) x = if test_bit x w then 0 else suc (leading_zeros w x)

unfoldable pub log2_floor : ℕ → Outcome ℕ
log2_floor x = do kassert (not (x == 0)); ok (32 -w 1 -w leading_zeros 32 x)

unfoldable pub log2_ceil : ℕ → Outcome ℕ
unfolding log2_floor
log2_ceil x = if leb x 1 then ok 0 else (log2_floor (x -w 1) >>= λ l. ok (l +w 1))

-- The loop of `find_first_one`: `for (ndx = 0; x != 0; ndx++) x >>= 1`.
unfoldable pub count_shifts : (x ndx : ℕ) → Acc ◌<◌ x → ℕ
count_shifts x ndx (Acc.intro _ smaller) =
    dite (dec_lt 0 x) (λ h. count_shifts (shr x 1) (ndx +w 1) (smaller (shr x 1) (omega arith)))
      (λ _. ndx)

unfoldable pub find_first_one : ℕ → ℕ
unfolding count_shifts lt_wf dec_lt
find_first_one x = let ones = shr (bit_xor x (x -w 1)) 1 in count_shifts ones 0 (lt_wf.apply ones)

unfoldable pub find_first_zero : ℕ → ℕ
unfolding find_first_one
find_first_zero x = find_first_one (complement x)
