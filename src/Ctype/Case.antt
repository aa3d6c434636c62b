-- ===== src/Ctype/Case.antt =====
-- `ktolower` and `ktoupper` of kernel/lib/cstd/ctype.c.
use yaeos.Prelude.{◌≡◌, arith, false, if◌then◌else◌, refl}
use yaeos.Prelude.{ℤ, pos, negsuc}
use yaeos.Ctype.{kislower, kisupper, kisalpha, ktolower, ktoupper}

-- To raise and then lower a letter is to lower it, and to lower and then raise it is to raise it;
-- what is not a letter stays. No result of `ktoupper` is a lower case letter and none of `ktolower`
-- an upper case one, and both keep whether a character is a letter.
pub case_lem :
    (c : ℤ)
    → (ktolower (ktoupper c) ≡ (if kisalpha c then ktolower c else c))
      × (ktoupper (ktolower c) ≡ (if kisalpha c then ktoupper c else c))
      × (kislower (ktoupper c) ≡ false)
      × (kisupper (ktolower c) ≡ false)
      × (kisalpha (ktoupper c) ≡ kisalpha c)
      × (kisalpha (ktolower c) ≡ kisalpha c)
unfolding ktolower ktoupper kisalpha kislower kisupper
case_lem (pos c) =
    (ground arith, ground arith, ground arith, ground arith, ground arith, ground arith)
case_lem (negsuc c) = (refl, refl, refl, refl, refl, refl)
