-- ===== src/Strings/Compare.antt =====
-- `kstrcmp` and `kstrncmp` of kernel/lib/cstd/string.
use native.Mathlib.Decide.{ℕ_discrete}
use yaeos.Prelude.{take}
use yaeos.Prelude.{ℕ, zero, suc, ◌≡◌, ◌↔◌, refl, ap, sym, arith, List, [], ◌∷◌, ◌++◌}
use yaeos.Prelude.{ok, ==_ne, ==_refl, Bool-cases, inl, inr, true, ◌==◌, leb, ◌≤◌}
use yaeos.Prelude.{ℤ, pos, diff, if◌then◌else◌}
use yaeos.Strings.{kstrcmp, kstrncmp}
use yaeos.Strings.Length.{IsText, nil, cons}

-- The order of texts by their first difference, a text before its continuations: the difference of
-- the characters there, with 0 for the end.
abbrev pub difference : List ℕ → List ℕ → ℤ
difference [] [] = pos 0
difference [] (r ∷ t) = diff 0 r
difference (l ∷ s) [] = diff l 0
difference (l ∷ s) (r ∷ t) = let rest = difference s t in if l == r then rest else diff l r

pub kstrcmp_lem :
    {s t : List ℕ}
    → IsText s
    → IsText t
    → (after after' : List ℕ) → kstrcmp (s ++ 0 ∷ after) (t ++ 0 ∷ after') ≡ ok (difference s t)
unfolding kstrcmp
kstrcmp_lem nil nil after after' = refl
kstrcmp_lem nil (cons r ne t) after after' = refl
kstrcmp_lem (cons l ne s) nil after after' = rw (==_ne l 0 ne) refl
kstrcmp_lem (cons l ne s) (cons r ne' t) after after' =
    rw (==_ne l 0 ne, kstrcmp_lem s t after after')
      (elim (Bool-cases (l == r)) [ inl e ↦ rw e | inr e ↦ rw e ])

pos-inj : {a b : ℕ} → pos a ≡ pos b → a ≡ b
pos-inj h = cc

diff-zero : (a b : ℕ) → (diff a b ≡ pos 0) ↔ (a ≡ b)
diff-zero a b = elim (Bool-cases (leb b a)) [
  | inl e ↦ rw e ((λ h. omega (arith, pos-inj h, leb-le e)), λ h. ap pos (omega arith))
  | inr e ↦ rw e ((λ h. cc (h)), λ h. ground arith)
]
  where
    leb-le : leb b a ≡ true → b ≤ a
    leb-le e = ground arith

difference-zero : {s t : List ℕ} → IsText s → IsText t → (difference s t ≡ pos 0) ↔ (s ≡ t)
difference-zero nil nil = (λ _. refl, λ _. refl)
difference-zero nil (cons r ne t) =
    ((λ h. absurd (ne (sym ((diff-zero 0 r).0 h)))), λ h. absurd (cc (h)))
difference-zero (cons l ne s) nil = ((λ h. absurd (ne ((diff-zero l 0).0 h))), λ h. absurd (cc (h)))
difference-zero (cons l ne s) (cons r ne' t) = elim (ℕ_discrete l r) [
  | yes same ↦
      rw (← same, ==_refl l)
        ((λ h. ap (λ u. l ∷ u) ((difference-zero s t).0 h)), λ h. (difference-zero s t).1 (cc (h)))
  | no differ ↦
      rw (==_ne l r differ)
        ((λ h. absurd (differ ((diff-zero l r).0 h))), λ h. absurd (differ (cc (h))))
]

-- `kstrcmp` on two texts returns 0 exactly when they are the same.
pub kstrcmp-zero :
    (s t : List ℕ) (p : IsText s) (q : IsText t) (after after' : List ℕ)
    → (kstrcmp (s ++ 0 ∷ after) (t ++ 0 ∷ after') ≡ ok (pos 0)) ↔ (s ≡ t)
kstrcmp-zero s t p q after after' =
    rw (kstrcmp_lem p q after after')
      ((λ h. (difference-zero p q).0 (cc (h))), λ h. ap ok ((difference-zero p q).1 h))

-- `kstrncmp` on two texts returns their difference within the first `n + 1` characters: one more
-- than the `n` that it is given.
pub kstrncmp_lem :
    {s t : List ℕ}
    → IsText s
    → IsText t
    → (after after' : List ℕ) (n : ℕ)
    → kstrncmp (s ++ 0 ∷ after) (t ++ 0 ∷ after') n
      ≡ ok (difference (take (suc n) s) (take (suc n) t))
unfolding kstrncmp
kstrncmp_lem nil nil after after' zero = refl
kstrncmp_lem nil nil after after' (suc n) = refl
kstrncmp_lem nil (cons r ne t) after after' zero = refl
kstrncmp_lem nil (cons r ne t) after after' (suc n) = refl
kstrncmp_lem (cons l ne s) nil after after' zero = refl
kstrncmp_lem (cons l ne s) nil after after' (suc n) = rw (==_ne l 0 ne) refl
kstrncmp_lem (cons l ne s) (cons r ne' t) after after' zero = ap ok (ground arith)
kstrncmp_lem (cons l ne s) (cons r ne' t) after after' (suc n) =
    rw (==_ne l 0 ne, kstrncmp_lem s t after after' n)
      (elim (Bool-cases (l == r)) [ inl e ↦ rw e | inr e ↦ rw e ])
