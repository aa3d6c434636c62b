-- ===== src/Printf/ParseBack.antt =====
-- The parser of kernel/lib/cstd/stdio/vfprintf.c reads back what was written.
use yaeos.Prelude.{ℕ, suc, ◌^◌, ◌<◌, ◌≡◌, ◌≢◌, inl, inr, refl, ap, ◌∙◌, sym, arith}
use yaeos.Prelude.{Bool, true, false, Bool-cases, List, [], ◌∷◌, ◌++◌, length, leb, ◌==◌, ==_ne}
use yaeos.Prelude.{ok, check-ok, drop-append}
use yaeos.Printf.Spec.{ConvSpecifier, ConvLength, width_empty, prec_empty, field_max}
use yaeos.Printf.Spec.{
  int, uoctal, udec, uhex, uhex_big, uchar, str, ptr, written_out, percentage, invalid,
}
use yaeos.Printf.Spec.{char, short, long, llong, intmax, sizet, ptrdiff, ldouble, no_length}
use yaeos.Printf.Spec.{
  parse_number, parse_width, parse_precision, parse_length, parse_specifier, specifier_of,
}
use yaeos.Printf.Convert.{digits_loop, dec_digit}
use yaeos.Printf.Digits.{vfprintf_atoi-digits_loop, length-digits_loop-le}
use yaeos.Printf.Notation.{
  dec_text, dec_text-eq, specifier_char, length_text, width_text, precision_text,
}
use yaeos.Printf.Notation.{
  head, Letter, LetterOrPeriod, nil, digits_loop-AllDigits, first_digit, count_digits_lem,
}

module _ (debug : Bool) where
  number_then :
      (missing n c : ℕ) (s : List ℕ)
      → n < 2 ^ 32
      → LetterOrPeriod c
      → parse_number debug missing (dec_text n ++ c ∷ s) ≡ ok (n, c ∷ s)
  unfolding parse_number
  number_then missing n c s h p =
      let same = dec_text-eq n h in
      let digits = digits_loop 10 dec_digit 20 n [] in
      let few = length-digits_loop-le 10 dec_digit 20 n [] in
      let (d, more, first, lo, hi, big) = first_digit 19 n [] (omega arith) in
      let some_digit : length digits ≡ suc (length more) = ap length first in
      let counted =
        count_digits_lem (digits_loop-AllDigits 20 n [] nil) (head c s p) 0 (length digits)
          (omega arith) (omega arith) in
      let fits = check-ok debug (leb (length digits) field_max) (ground arith) in
      let given : (length digits == 0) ≡ false = ground arith in
      let read = vfprintf_atoi-digits_loop n c s h (ground arith) in
      rw (same, counted, fits, given, read, drop-append digits (c ∷ s)) refl

  no_number :
      (missing c : ℕ) (s : List ℕ)
      → LetterOrPeriod c
      → parse_number debug missing (c ∷ s) ≡ ok (missing, c ∷ s)
  unfolding parse_number
  no_number missing c s p =
      let counted = count_digits_lem nil (head c s p) 0 0 (omega arith) (omega arith) in
      rw (counted, check-ok debug true refl) refl

  width_by_number :
      (c : ℕ) (t s : List ℕ)
      → t ≡ c ∷ s
      → c ≢ b'*'
      → parse_width debug t ≡ parse_number debug width_empty t
  unfolding parse_width
  width_by_number c t s e ne = rw (e, ==_ne c b'*' ne) refl

  pub width_then :
      (w c : ℕ) (s : List ℕ)
      → w < 2 ^ 32
      → LetterOrPeriod c
      → parse_width debug (width_text w ++ c ∷ s) ≡ ok (w, c ∷ s)
  width_then w c s h p =
      let (d, more, begins, lo, hi, big) = first_digit 19 w [] (omega arith) in
      let first = dec_text-eq w h ∙ begins in
      elim (Bool-cases (w == width_empty)) [
        | inl e ↦
            let same : w ≡ width_empty = ground arith in
            rw e (
              width_by_number c (c ∷ s) s refl (ground arith)
              ∙ no_number width_empty c s p
              ∙ ap (λ n. ok (n, c ∷ s)) (sym same))
        | inr e ↦ rw e (
            width_by_number d (dec_text w ++ c ∷ s) (more ++ c ∷ s) (ap (λ l. l ++ c ∷ s) first)
              (omega arith)
            ∙ number_then width_empty w c s h p)
      ]

  precision_by_number :
      (c : ℕ) (t s : List ℕ)
      → t ≡ c ∷ s
      → c ≢ b'*'
      → parse_precision debug (b'.' ∷ t) ≡ parse_number debug 0 t
  unfolding parse_precision
  precision_by_number c t s e ne = rw (e, ==_ne c b'*' ne) refl

  no_precision :
      (c : ℕ) (s : List ℕ) → c ≢ b'.' → parse_precision debug (c ∷ s) ≡ ok (prec_empty, c ∷ s)
  unfolding parse_precision
  no_precision c s ne = rw (==_ne c b'.' ne) refl

  pub precision_then :
      (n c : ℕ) (s : List ℕ)
      → n < 2 ^ 32
      → Letter c
      → parse_precision debug (precision_text n ++ c ∷ s) ≡ ok (n, c ∷ s)
  precision_then n c s h p =
      let (d, more, begins, lo, hi, big) = first_digit 19 n [] (omega arith) in
      let first = dec_text-eq n h ∙ begins in
      elim (Bool-cases (n == prec_empty)) [
        | inl e ↦
            let same : n ≡ prec_empty = ground arith in
            rw e (no_precision c s (ground arith) ∙ ap (λ m. ok (m, c ∷ s)) (sym same))
        | inr e ↦ rw e (
            precision_by_number d (dec_text n ++ c ∷ s) (more ++ c ∷ s) (ap (λ l. l ++ c ∷ s) first)
              (omega arith)
            ∙ number_then 0 n c s h (inr p))
      ]

-- The letters of the specifiers are none of those of the lengths.
abbrev pub SpecLetter : ℕ → Type 0
SpecLetter c =
    (c ≢ b'h') × (c ≢ b'l') × (c ≢ b'j') × (c ≢ b'z') × (c ≢ b't') × (c ≢ b'L') × Letter c

pub specifier_char-SpecLetter : (x : ConvSpecifier) → x ≢ invalid → SpecLetter (specifier_char x)
specifier_char-SpecLetter int h = omega arith
specifier_char-SpecLetter uoctal h = omega arith
specifier_char-SpecLetter udec h = omega arith
specifier_char-SpecLetter uhex h = omega arith
specifier_char-SpecLetter uhex_big h = omega arith
specifier_char-SpecLetter uchar h = omega arith
specifier_char-SpecLetter str h = omega arith
specifier_char-SpecLetter ptr h = omega arith
specifier_char-SpecLetter written_out h = omega arith
specifier_char-SpecLetter percentage h = omega arith
specifier_char-SpecLetter invalid h = absurd (h refl)

pub specifier_then :
    (x : ConvSpecifier) (s : List ℕ)
    → x ≢ invalid
    → parse_specifier (specifier_char x ∷ s) ≡ ok (x, s)
unfolding parse_specifier specifier_of
specifier_then int s h = refl
specifier_then uoctal s h = refl
specifier_then udec s h = refl
specifier_then uhex s h = refl
specifier_then uhex_big s h = refl
specifier_then uchar s h = refl
specifier_then str s h = refl
specifier_then ptr s h = refl
specifier_then written_out s h = refl
specifier_then percentage s h = refl
specifier_then invalid s h = absurd (h refl)

pub length_then :
    (l : ConvLength) (c : ℕ) (s : List ℕ)
    → SpecLetter c
    → parse_length (length_text l ++ c ∷ s) ≡ ok (l, c ∷ s)
unfolding parse_length
length_then char c s (h, l, j, z, t, big_l, p) = refl
length_then short c s (h, l, j, z, t, big_l, p) = rw (==_ne c b'h' h) refl
length_then long c s (h, l, j, z, t, big_l, p) = rw (==_ne c b'l' l) refl
length_then llong c s (h, l, j, z, t, big_l, p) = refl
length_then intmax c s (h, l, j, z, t, big_l, p) = refl
length_then sizet c s (h, l, j, z, t, big_l, p) = refl
length_then ptrdiff c s (h, l, j, z, t, big_l, p) = refl
length_then ldouble c s (h, l, j, z, t, big_l, p) = refl
length_then no_length c s (h, l, j, z, t, big_l, p) =
    rw
      (
        ==_ne c b'h' h,
        ==_ne c b'l' l,
        ==_ne c b'j' j,
        ==_ne c b'z' z,
        ==_ne c b't' t,
        ==_ne c b'L' big_l,
      )
      refl
