-- ===== src/Ctype.antt =====
-- The character classes of kernel/lib/cstd/ctype.c, on ASCII codes. A result that C gives as an
-- `int` that is 0 or not is a Bool.
pub mod Classes
pub mod Case
mod Tests
use yaeos.Prelude.{ℕ, ◌+◌, ◌-◌, Bool, true, false, not, ◌&&◌, ◌||◌, List, [], ◌∷◌, if◌then◌else◌}
use yaeos.Prelude.{ℤ, pos, negsuc, at_least, at_most, is_int}

unfoldable pub kislower : ℤ → Bool
kislower c = at_least 97 c && at_most c 122

unfoldable pub kisupper : ℤ → Bool
kisupper c = at_least 65 c && at_most c 90

unfoldable pub kisdigit : ℤ → Bool
kisdigit c = at_least 48 c && at_most c 57

unfoldable pub kisalpha : ℤ → Bool
unfolding kislower kisupper
kisalpha c = kislower c || kisupper c

unfoldable pub kisalnum : ℤ → Bool
unfolding kisalpha kisdigit
kisalnum c = kisalpha c || kisdigit c

unfoldable pub kisblank : ℤ → Bool
kisblank c = is_int c 32 || is_int c 9

unfoldable pub kiscntrl : ℤ → Bool
kiscntrl c = if at_most c 31 then true else is_int c 127

unfoldable pub kispunct : ℤ → Bool
kispunct c =
    if at_least 33 c && at_most c 47
    then true
    else if at_least 58 c && at_most c 64
    then true
    else if at_least 91 c && at_most c 96
    then true
    else at_least 123 c && at_most c 126

unfoldable pub kisgraph : ℤ → Bool
unfolding kisalnum kispunct
kisgraph c = not (is_int c 32) && (kisalnum c || kispunct c)

unfoldable pub kisprint : ℤ → Bool
unfolding kisgraph
kisprint c = is_int c 32 || kisgraph c

abbrev pub white_space_chars : List ℕ
white_space_chars = 32 ∷ 12 ∷ 10 ∷ 13 ∷ 9 ∷ 11 ∷ []

-- The loop of `kisspace`, over the characters that are left.
unfoldable pub is_one_of : ℤ → List ℕ → Bool
is_one_of c [] = false
is_one_of c (w ∷ ws) = if is_int c w then true else is_one_of c ws

unfoldable pub kisspace : ℤ → Bool
unfolding is_one_of
kisspace c = is_one_of c white_space_chars

unfoldable pub kisxdigit : ℤ → Bool
kisxdigit c =
    if at_least 48 c && at_most c 57
    then true
    else if at_least 97 c && at_most c 102
    then true
    else at_least 65 c && at_most c 70

-- `c + diff` and `c - diff`, where `diff` is 'a' - 'A' = 32.
abbrev plus_diff : ℤ → ℤ
plus_diff (pos c) = pos (c + 32)
plus_diff (negsuc c) = if not (at_least 32 (pos c)) then pos (31 - c) else negsuc (c - 32)

abbrev minus_diff : ℤ → ℤ
minus_diff (pos c) = if at_least 32 (pos c) then pos (c - 32) else negsuc (31 - c)
minus_diff (negsuc c) = negsuc (c + 32)

unfoldable pub ktolower : ℤ → ℤ
unfolding kisupper
ktolower c = if not (kisupper c) then c else plus_diff c

unfoldable pub ktoupper : ℤ → ℤ
unfolding kislower
ktoupper c = if not (kislower c) then c else minus_diff c
