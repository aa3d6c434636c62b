-- ===== src/Ctype/Classes.antt =====
-- How the character classes of kernel/lib/cstd/ctype.c divide the ASCII codes.
use yaeos.Prelude.{ℕ, ◌+◌, ◌≡◌, arith, Bool, true, false, not, ◌&&◌, ◌||◌, if◌then◌else◌, refl}
use yaeos.Prelude.{ℤ, pos, negsuc, at_least, at_most, is_int}
use yaeos.Ctype.{kislower, kisupper, kisdigit, kisalpha, kisalnum, kisblank, kiscntrl, kispunct}
use yaeos.Ctype.{kisgraph, kisprint, kisspace, is_one_of}

abbrev pub count : Bool → ℕ
count b = if b then 1 else 0

-- Each code up to 127 is of exactly one of six kinds: a control character, the space, a digit, an
-- upper case or a lower case letter, or punctuation.
pub one_class :
    (c : ℤ)
    → at_most c 127 ≡ true
    → count (kiscntrl c)
        + count (is_int c 32)
        + count (kisdigit c)
        + count (kisupper c)
        + count (kislower c)
        + count (kispunct c)
      ≡ 1
unfolding kiscntrl kisdigit kisupper kislower kispunct
one_class (pos c) h = ground arith
one_class (negsuc c) h = refl

-- Of the codes up to 127, those from the space to the tilde print, and the others are control
-- characters.
pub kisprint-kiscntrl :
    (c : ℤ)
    → at_most c 127 ≡ true
    → (kisprint c ≡ (at_least 32 c && at_most c 126)) × (kiscntrl c ≡ not (kisprint c))
unfolding kisprint kisgraph kisalnum kisalpha kiscntrl kisdigit kisupper kislower kispunct
kisprint-kiscntrl (pos c) h = (ground arith, ground arith)
kisprint-kiscntrl (negsuc c) h = (refl, refl)

-- White space is the codes 9 to 13 and the space; no white space has a graph, and every blank is
-- white space.
pub kisspace_lem :
    (c : ℤ)
    → (kisspace c ≡ ((at_least 9 c && at_most c 13) || is_int c 32))
      × ((kisspace c && kisgraph c) ≡ false)
      × ((kisblank c && not (kisspace c)) ≡ false)
unfolding kisspace is_one_of kisblank kisgraph kisalnum kisalpha kisdigit kisupper kislower kispunct
kisspace_lem (pos c) = (ground arith, ground arith, ground arith)
kisspace_lem (negsuc c) = (refl, refl, refl)
