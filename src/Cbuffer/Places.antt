-- ===== src/Cbuffer/Places.antt =====
-- The places of the ring of kernel/include/lib/ds/cbuffer.h, and the values that stand there.
use native.Mathlib.Nat.{mod-eq_of_lt, mod_self}
use native.Mathlib.Decide.{dec_lt}
use yaeos.Prelude.{ltb}
use yaeos.Prelude.{ℕ, zero, suc, ◌+◌, ◌-◌, ◌%◌, ◌^◌, ◌<◌, ◌≡◌, ◌≢◌, refl, ap, ◌∙◌, arith}
use yaeos.Prelude.{List, [], ◌∷◌, ◌++◌, length, set, get_or}
use yaeos.Prelude.{get_or-set_self, get_or-set_ne, if◌then◌else◌}
use yaeos.Word.{◌+w◌}

-- The place `i` steps after `r` in a ring of `n` places.
abbrev pub place : ℕ → ℕ → ℕ → ℕ
place n r i = if ltb (r + i) n then r + i else r + i - n

-- In a ring of `n` places, the values from step `i` after `r` on, `k` of them.
abbrev pub values : ℕ → List ℕ → ℕ → ℕ → ℕ → List ℕ
values n array r i zero = []
values n array r i (suc k) = get_or array (place n r i) 0 ∷ values n array r (suc i) k

pub next-place : (n x : ℕ) → x < n → n < 2 ^ 32 → (x +w 1) % n ≡ place n x 1
next-place n x lt small = elim (dec_lt (x + 1) n) [
  | yes inside ↦
      let whole : (x + 1) % 2 ^ 32 ≡ x + 1 = omega arith in
      rw whole (mod-eq_of_lt inside ∙ ground arith)
  | no past ↦
      let whole : (x + 1) % 2 ^ 32 ≡ n % 2 ^ 32 = omega arith in
      let small' : n % 2 ^ 32 ≡ n = omega arith in rw (whole, small') (mod_self n ∙ ground arith)
]

pub values-push :
    (n : ℕ) (array : List ℕ) (r i k p v : ℕ)
    → n ≡ length array
    → r < n
    → i + k < n
    → p ≡ place n r (i + k)
    → values n (set array p v) r i (suc k) ≡ values n array r i k ++ v ∷ []
values-push n array r i zero p v e lt room at =
    let same : place n r i ≡ p = ground arith in
    rw same (ap (λ x. x ∷ []) (get_or-set_self array p v 0 (ground arith)))
values-push n array r i (suc k) p v e lt room at =
    let other : p ≢ place n r i = ground arith in
    let rest = values-push n array r (suc i) k p v e lt (omega arith) (ground arith) in
    rw (get_or-set_ne array p (place n r i) v 0 other)
      (ap (λ l. get_or array (place n r i) 0 ∷ l) rest)

pub values-pop :
    (n : ℕ) (array : List ℕ) (r i k : ℕ)
    → r < n
    → i + k < n
    → values n array r (suc i) k ≡ values n array (place n r 1) i k
values-pop n array r i zero lt room = refl
values-pop n array r i (suc k) lt room =
    let same : place n (place n r 1) i ≡ place n r (suc i) = ground arith in
    rw (same, values-pop n array r (suc i) k lt (omega arith))
