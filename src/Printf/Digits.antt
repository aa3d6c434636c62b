-- ===== src/Printf/Digits.antt =====
-- The digits that the conversions of kernel/lib/cstd/stdio/vfprintf.c write, and how they are read.
use native.Mathlib.Nat.{pow-suc}
use yaeos.Prelude.{ℕ, zero, suc, ◌+◌, ◌-◌, ◌*◌, ◌/◌, ◌%◌, ◌^◌, ◌≤◌, ◌<◌, ◌≡◌, inl, inr, ◌∙◌, arith}
use yaeos.Prelude.{true, false, List, [], ◌∷◌, ◌++◌, length, ◌==◌, Bool-cases, ok}
use yaeos.Word.{◌+w◌, ◌*w◌}
use yaeos.Printf.Spec.{is_digit, atoi_from, vfprintf_atoi}
use yaeos.Printf.Convert.{digits_loop, dec_digit}

-- One character of `vfprintf_atoi` on a digit that was written.
atoi_digit :
    (n res : ℕ) (s : List ℕ)
    → 10 * res + n % 10 ≡ n
    → n < 2 ^ 32
    → atoi_from (dec_digit (n % 10) ∷ s) res ≡ atoi_from s n
unfolding atoi_from
atoi_digit n res s e small =
    let digit : is_digit (dec_digit (n % 10)) ≡ true = ground arith in
    let same : 10 *w res +w (dec_digit (n % 10) - 48) ≡ n = omega arith in rw (digit, same)

-- The digits in front of `buffer` read as the number that they were written for.
atoi_digits :
    (room n : ℕ) (buffer after : List ℕ)
    → n < 10 ^ suc room
    → n < 2 ^ 32
    → atoi_from (digits_loop 10 dec_digit (suc room) n buffer ++ after) 0
      ≡ atoi_from (buffer ++ after) n
unfolding digits_loop
atoi_digits zero n buffer after h small =
    let last : (n / 10 == 0) ≡ true = ground arith in
    rw last (atoi_digit n 0 (buffer ++ after) (omega arith) small)
atoi_digits (suc room) n buffer after h small = elim (Bool-cases (n / 10 == 0)) [
  | inl e ↦ rw e (atoi_digit n 0 (buffer ++ after) (ground arith) small)
  | inr e ↦ rw e (
      atoi_digits room (n / 10) (dec_digit (n % 10) ∷ buffer) after
        (omega (arith, pow-suc 10 (suc room))) (omega arith)
      ∙ atoi_digit n (n / 10) (buffer ++ after) (omega arith) small)
]

-- What `dec_print` writes for a 32-bit number, `vfprintf_atoi` reads back, up to the first
-- character that is not a digit.
pub vfprintf_atoi-digits_loop :
    (n c : ℕ) (after : List ℕ)
    → n < 2 ^ 32
    → is_digit c ≡ false
    → vfprintf_atoi (digits_loop 10 dec_digit 20 n [] ++ c ∷ after) ≡ ok n
unfolding vfprintf_atoi atoi_from
vfprintf_atoi-digits_loop n c after h other =
    atoi_digits 19 n [] (c ∷ after) (omega arith) h ∙ rw other

pub length-digits_loop-le :
    (base : ℕ) (digit : ℕ → ℕ) (room n : ℕ) (buffer : List ℕ)
    → length (digits_loop base digit room n buffer) ≤ room + length buffer
unfolding digits_loop
length-digits_loop-le base digit zero n buffer = omega arith
length-digits_loop-le base digit (suc room) n buffer =
    let more = length-digits_loop-le base digit room (n / base) (digit (n % base) ∷ buffer) in
    elim (Bool-cases (n / base == 0)) [
      | inl e ↦ rw e (omega arith)
      | inr e ↦ rw e (omega (arith, more))
    ]
