-- ===== src/Printf/Numeral.antt =====
-- The numerals that the conversions of kernel/lib/cstd/stdio/vfprintf.c are to write.
use native.Mathlib.Nat.{
  pow-suc, mul-add-div_right, pow-zero, mul-add-mod_self_right, mod-eq_of_lt, div-eq_of_lt,
}
use yaeos.Prelude.{
  ℕ, zero, suc, ◌+◌, ◌*◌, ◌/◌, ◌%◌, ◌^◌, ◌≤◌, ◌<◌, ◌≡◌, inl, inr, refl, sym, ap, ◌∙◌, arith, Bool,
  true, false, Bool-cases, ltb, if◌then◌else◌, ◌==◌, ◌&&◌, List, [], ◌∷◌, ◌++◌, append_assoc,
}
use mathlib.Core.Path.{subst}
use yaeos.Printf.Convert.{digits_loop, dec_digit, hex_digit}
use yaeos.Printf.DigitCount.{fewer}

-- The characters of the digits.
abbrev pub lower_digits : List ℕ
lower_digits =
    b'0' ∷ b'1' ∷ b'2' ∷ b'3' ∷ b'4' ∷ b'5' ∷ b'6' ∷ b'7' ∷ b'8' ∷ b'9' ∷ b'a' ∷ b'b' ∷ b'c' ∷ b'd'
    ∷ b'e' ∷ b'f' ∷ []

abbrev pub upper_digits : List ℕ
upper_digits =
    b'0' ∷ b'1' ∷ b'2' ∷ b'3' ∷ b'4' ∷ b'5' ∷ b'6' ∷ b'7' ∷ b'8' ∷ b'9' ∷ b'A' ∷ b'B' ∷ b'C' ∷ b'D'
    ∷ b'E' ∷ b'F' ∷ []

abbrev pub char_at : List ℕ → ℕ → ℕ
char_at [] d = 0
char_at (c ∷ cs) zero = c
char_at (c ∷ cs) (suc d) = char_at cs d

-- The numeral of a number: a digit, or the numeral of a greater number than 0 with one digit more.
pub data Numeral (base : ℕ) (digits : List ℕ) : ℕ → List ℕ → Type 0 where
  one : (d : ℕ) → d < base → Numeral base digits d (char_at digits d ∷ [])
  more :
      {text : List ℕ} (n d : ℕ)
      → 1 ≤ n
      → d < base
      → Numeral base digits n text
      → Numeral base digits (n * base + d) (text ++ char_at digits d ∷ [])

-- A number with one digit more, divided by the base.
quotient : (base n d : ℕ) → 1 < base → d < base → (n * base + d) / base ≡ n
quotient base n d big h =
    mul-add-div_right (omega arith) n d ∙ ap (λ q. n + q) (div-eq_of_lt h) ∙ omega arith

last_digit : (base n d : ℕ) → d < base → (n * base + d) % base ≡ d
last_digit base n d h = mul-add-mod_self_right n base d ∙ mod-eq_of_lt h

fewer_digits : (base n d k : ℕ) → 1 < base → d < base → n * base + d < base ^ suc k → n < base ^ k
fewer_digits base n d k big h fits =
    rw (quotient base n d big h) at (fewer base (n * base + d) k (omega arith) fits)

module _ (base : ℕ) (digits : List ℕ) (digit : ℕ → ℕ) (big : 1 < base)
    (agree : (d : ℕ) → d < base → digit d ≡ char_at digits d) where
  -- The loop writes the numeral in front of the buffer.
  pub digits_loop-Numeral :
      {n : ℕ} {text : List ℕ}
      → Numeral base digits n text
      → (room : ℕ) → n < base ^ suc room
      → (buffer : List ℕ) → digits_loop base digit (suc room) n buffer ≡ text ++ buffer
  unfolding digits_loop
  digits_loop-Numeral (one d h) room fits buffer =
      rw (div-eq_of_lt h, mod-eq_of_lt h, agree d h) refl
  digits_loop-Numeral (more {text = text} n d some h numeral) zero fits buffer =
      let none = fewer_digits base n d 0 big h fits in
      let single = pow-zero base in absurd (omega (arith, none, single))
  digits_loop-Numeral (more {text = text} n d some h numeral) (suc room) fits buffer =
      let left : (n == 0) ≡ false = ground arith in
      rw (quotient base n d big h, last_digit base n d h, left, agree d h)
        (digits_loop-Numeral numeral room (fewer_digits base n d (suc room) big h fits)
            (char_at digits d ∷ buffer)
          ∙ sym (append_assoc text (char_at digits d ∷ []) buffer))

-- A property of the numbers below a bound.
abbrev all_below : (ℕ → Bool) → ℕ → Bool
all_below p zero = true
all_below p (suc n) = p n && all_below p n

all_below_lem : (p : ℕ → Bool) (n d : ℕ) → all_below p n ≡ true → d < n → p d ≡ true
all_below_lem p zero d h lt = absurd (omega arith)
all_below_lem p (suc n) d h lt = elim (Bool-cases (p n)) [
  | inl e ↦ elim (Bool-cases (d == n)) [
    | inl e' ↦ let same : d ≡ n = ground arith in rw same e
    | inr e' ↦ all_below_lem p n d (rw e at h) (ground arith)
  ]
  | inr e ↦ absurd (false-true (rw e at h))
]
  where
    false-true : false ≡ true → ⊥
    false-true e = cc

-- The digits that the code writes.
agrees :
    (digit : ℕ → ℕ) (digits : List ℕ) (base : ℕ)
    → all_below (λ d. digit d == char_at digits d) base ≡ true
    → (d : ℕ) → d < base
    → digit d ≡ char_at digits d
agrees digit digits base h d lt =
    let e = all_below_lem (λ i. digit i == char_at digits i) base d h lt in ground arith

pub dec_digit-agrees : (d : ℕ) → d < 10 → dec_digit d ≡ char_at lower_digits d
dec_digit-agrees = agrees dec_digit lower_digits 10 refl

pub oct_digit-agrees : (d : ℕ) → d < 8 → dec_digit d ≡ char_at lower_digits d
oct_digit-agrees = agrees dec_digit lower_digits 8 refl

pub hex_digit-agrees : (d : ℕ) → d < 16 → hex_digit b'a' d ≡ char_at lower_digits d
hex_digit-agrees = agrees (hex_digit b'a') lower_digits 16 refl

pub hex_digit-agrees_upper : (d : ℕ) → d < 16 → hex_digit b'A' d ≡ char_at upper_digits d
hex_digit-agrees_upper = agrees (hex_digit b'A') upper_digits 16 refl

-- The decimal numeral of a number below 10 ^ suc room.
unfoldable pub numeral : ℕ → ℕ → List ℕ
numeral zero n = char_at lower_digits n ∷ []
numeral (suc room) n =
    let front = numeral room (n / 10) in
    if ltb n 10 then char_at lower_digits n ∷ [] else front ++ char_at lower_digits (n % 10) ∷ []

pub numeral-Numeral : (room n : ℕ) → n < 10 ^ suc room → Numeral 10 lower_digits n (numeral room n)
unfolding numeral
numeral-Numeral zero n h = one n (omega arith)
numeral-Numeral (suc room) n h = elim (Bool-cases (ltb n 10)) [
  | inl e ↦ rw e (one n (ground arith))
  | inr e ↦
      let front = numeral-Numeral room (n / 10) (omega (arith, pow-suc 10 (suc room))) in
      let split : n / 10 * 10 + n % 10 ≡ n = omega arith in
      rw e (
        subst
          (λ m.
            Numeral 10 lower_digits m (numeral room (n / 10) ++ char_at lower_digits (n % 10) ∷ []))
          split (more (n / 10) (n % 10) (ground arith) (omega arith) front))
]
