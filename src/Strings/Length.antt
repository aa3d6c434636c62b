-- ===== src/Strings/Length.antt =====
-- `kstrlen` and `kstrchr` of kernel/lib/cstd/string.
use yaeos.Prelude.{ℕ, suc, ◌+◌, ◌<◌, ◌^◌, ◌≡◌, ◌≢◌, refl, ap, arith, List, [], ◌∷◌, ◌++◌}
use yaeos.Prelude.{Option, none, some, length, ok, false, ==_ne, Bool-cases, inl, inr}
use yaeos.Prelude.{ℤ, pos, ◌∙◌, if◌then◌else◌}
use yaeos.Word.{◌+w◌}
use yaeos.Strings.{strlen_from, kstrlen, strchr_from, kstrchr, char_value, same_int}

-- The characters of a C string, without the null character.
pub data IsText : List ℕ → Type 0 where
  nil : IsText []
  cons : {s : List ℕ} (b : ℕ) → b ≢ 0 → IsText s → IsText (b ∷ s)

strlen_from_lem :
    {s : List ℕ}
    → IsText s
    → (after : List ℕ) (i m : ℕ) → i + length s < 2 ^ 32
    → m ≡ i + length s
    → strlen_from (s ++ 0 ∷ after) i ≡ ok m
unfolding strlen_from
strlen_from_lem nil after i m h e = ap ok (omega arith)
strlen_from_lem (cons b ne t) after i m h e =
    rw (strlen_from, ==_ne b 0 ne) (strlen_from_lem t after (i +w 1) m (omega arith) (omega arith))

-- `kstrlen` of a text that a null character ends, shorter than 2 ^ 32, is the number of its
-- characters, whatever comes after.
pub kstrlen_lem :
    (s : List ℕ) (t : IsText s) (after : List ℕ) (h : length s < 2 ^ 32)
    → kstrlen (s ++ 0 ∷ after) ≡ ok (length s)
unfolding kstrlen
kstrlen_lem s t after h = strlen_from_lem t after 0 (length s) (omega arith) (omega arith)

-- The place of the first character with a value, counted from `i`.
abbrev pub index_from : List ℕ → ℤ → ℕ → Option ℕ
index_from [] c i = none
index_from (b ∷ s) c i =
    let rest = index_from s c (suc i) in if same_int (char_value b) c then some i else rest

strchr_from_lem :
    {s : List ℕ}
    → IsText s
    → (after : List ℕ) (c : ℤ) (i : ℕ) → strchr_from (s ++ 0 ∷ after) c i ≡ ok (index_from s c i)
unfolding strchr_from
strchr_from_lem nil after c i = refl
strchr_from_lem (cons b ne t) after c i =
    rw (==_ne b 0 ne, strchr_from_lem t after c (suc i))
      (elim (Bool-cases (same_int (char_value b) c)) [ inl e ↦ rw e | inr e ↦ rw e ])

char_value-ne-zero : (b : ℕ) → b ≢ 0 → same_int (char_value b) (pos 0) ≡ false
char_value-ne-zero b ne = ground arith

no_null : {s : List ℕ} → IsText s → (i : ℕ) → index_from s (pos 0) i ≡ none
no_null nil i = refl
no_null (cons b ne t) i = rw (char_value-ne-zero b ne) (no_null t (suc i))

-- `kstrchr` on a text that a null character ends gives the first place of the character in the
-- text, and NULL if it is not there, also for the null character itself.
pub kstrchr_lem :
    (s : List ℕ) (t : IsText s) (after : List ℕ) (c : ℤ)
    → (kstrchr (s ++ 0 ∷ after) c ≡ ok (index_from s c 0))
      × (kstrchr (s ++ 0 ∷ after) (pos 0) ≡ ok none)
unfolding kstrchr
kstrchr_lem s t after c =
    (strchr_from_lem t after c 0, strchr_from_lem t after (pos 0) 0 ∙ ap ok (no_null t 0))
