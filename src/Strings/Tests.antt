-- ===== src/Strings/Tests.antt =====
-- The string functions of kernel/lib/cstd/string at concrete memory.
use yaeos.Prelude.{ℕ, ◌≡◌, arith, List, [], ◌∷◌, ◌++◌}
use yaeos.Prelude.{ok, none, pos}
use yaeos.Strings.{kstrchr}
use yaeos.Strings.Length.{IsText, nil, cons, index_from, kstrchr_lem}

-- "ab".
abbrev ab : List ℕ
ab = 97 ∷ 98 ∷ []

ab-IsText : IsText ab
ab-IsText = cons 97 (omega arith) (cons 98 (omega arith) nil)

kstrchr_lem_example :
    (kstrchr (ab ++ 0 ∷ 7 ∷ []) (pos 98) ≡ ok (index_from ab (pos 98) 0))
    × (kstrchr (ab ++ 0 ∷ 7 ∷ []) (pos 0) ≡ ok none)
kstrchr_lem_example = kstrchr_lem ab ab-IsText (7 ∷ []) (pos 98)
