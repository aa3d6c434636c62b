-- ===== src/Ctype/Tests.antt =====
-- The character functions of kernel/lib/cstd/ctype.c at concrete characters.
use yaeos.Prelude.{◌≡◌, refl, pos}
use yaeos.Ctype.{kislower, ktoupper}

upper_q : ktoupper (pos 113) ≡ pos 81
unfolding ktoupper kislower
upper_q = refl
