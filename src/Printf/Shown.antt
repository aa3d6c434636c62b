-- ===== src/Printf/Shown.antt =====
-- What the conversions of kernel/lib/cstd/stdio/vfprintf.c are to print.
use yaeos.Prelude.{
  ℕ, ◌-◌, ◌%◌, ◌^◌, ◌<◌, ◌≡◌, ◌⊎◌, inl, inr, ap, ◌∙◌, arith, Bool, ◌&&◌, ◌==◌, if◌then◌else◌, List,
  [], ◌∷◌, ◌++◌, length, replicate, append-nil, ℤ,
}
use mathlib.Core.Path.{subst}
use yaeos.Strings.Length.{IsText}
use yaeos.Printf.Spec.{ConvSpec, prec_empty, special}
use yaeos.Printf.Spec.{int, uoctal, udec, uhex, uhex_big, uchar, str, ptr}
use yaeos.Printf.Args.{Argument}
use yaeos.Printf.Convert.{digits_loop, dec_digit, hex_digit, hex_offset}
use yaeos.Printf.Sink.{Takes}
use yaeos.Printf.Body.{PlainPrecision, str_text}
use yaeos.Printf.Numeral.{
  Numeral, lower_digits, upper_digits, digits_loop-Numeral, dec_digit-agrees, oct_digit-agrees,
  hex_digit-agrees, hex_digit-agrees_upper,
}
use yaeos.Printf.Loops
use yaeos.Printf.Loops.{Converts, loops_lem}

-- A numeral with zeros in front up to the precision; nothing for zero at precision 0.
abbrev pub with_zeros : ConvSpec → ℕ → List ℕ → List ℕ
with_zeros s n digits =
    if s.precision == 0 && n == 0
    then []
    else (if special s.precision == prec_empty
        then digits
        else replicate (s.precision - length digits) b'0' ++ digits)

-- A numeral; nothing for zero at precision 0.
abbrev pub unless_zero : ConvSpec → ℕ → List ℕ → List ℕ
unless_zero s n digits = if s.precision == 0 && n == 0 then [] else digits

-- What a specifier shows of its argument: a numeral to the base 10, 8 or 16, a character, or a string up
-- to the precision.
pub data Shown (s : ConvSpec) (a : Argument) : List ℕ → Type 0 where
  decimal :
      {digits : List ℕ}
      → (s.spec ≡ int) ⊎ (s.spec ≡ udec)
      → PlainPrecision s
      → a.ud < 2 ^ 64
      → Numeral 10 lower_digits a.ud digits
      → Shown s a (with_zeros s a.ud digits)
  octal :
      {digits : List ℕ}
      → s.spec ≡ uoctal
      → PlainPrecision s
      → a.ud < 2 ^ 64
      → Numeral 8 lower_digits a.ud digits
      → Shown s a (with_zeros s a.ud digits)
  lower_hex :
      {digits : List ℕ}
      → s.spec ≡ uhex
      → a.ud < 2 ^ 64
      → Numeral 16 lower_digits a.ud digits
      → Shown s a (unless_zero s a.ud digits)
  upper_hex :
      {digits : List ℕ}
      → s.spec ≡ uhex_big
      → a.ud < 2 ^ 64
      → Numeral 16 upper_digits a.ud digits
      → Shown s a (unless_zero s a.ud digits)
  pointer :
      {digits : List ℕ}
      → s.spec ≡ ptr
      → a.ud < 2 ^ 64
      → Numeral 16 upper_digits a.ud digits
      → Shown s a digits
  character : s.spec ≡ uchar → Shown s a ((a.ud % 2 ^ 8) ∷ [])
  text :
      (content after : List ℕ)
      → s.spec ≡ str
      → IsText content
      → length content < 2 ^ 31
      → a.str ≡ content ++ 0 ∷ after
      → PlainPrecision s
      → Shown s a (str_text s content)

lower_loop :
    {n : ℕ} {digits : List ℕ}
    → n < 2 ^ 64
    → Numeral 16 lower_digits n digits
    → digits_loop 16 (hex_digit b'a') 16 n [] ≡ digits
lower_loop {digits = digits} h numeral =
    digits_loop-Numeral 16 lower_digits (hex_digit b'a') (omega arith) hex_digit-agrees numeral 15
      (omega arith) []
    ∙ append-nil digits

upper_loop :
    {n : ℕ} {digits : List ℕ}
    → n < 2 ^ 64
    → Numeral 16 upper_digits n digits
    → digits_loop 16 (hex_digit b'A') 16 n [] ≡ digits
upper_loop {digits = digits} h numeral =
    digits_loop-Numeral 16 upper_digits (hex_digit b'A') (omega arith) hex_digit-agrees_upper
      numeral 15 (omega arith) []
    ∙ append-nil digits

module _ {S : Type 0} (debug : Bool) (f : S → List ℕ → ℤ × S) (out : S → List ℕ) (t : Takes f out)
    (s : ConvSpec) (a : Argument) where
  pub shown_lem : (shows : List ℕ) → Shown s a shows → Converts debug f out s a shows
  shown_lem _ (decimal {digits = digits} which p h numeral) =
      subst (Converts debug f out s a)
        (ap (with_zeros s a.ud) (
          digits_loop-Numeral 10 lower_digits dec_digit (omega arith) dec_digit-agrees numeral 19
            (omega arith) []
          ∙ append-nil digits))
        (loops_lem debug f out t s a _ (Loops.decimal which p h))
  shown_lem _ (octal {digits = digits} e p h numeral) =
      subst (Converts debug f out s a)
        (ap (with_zeros s a.ud) (
          digits_loop-Numeral 8 lower_digits dec_digit (omega arith) oct_digit-agrees numeral 21
            (omega arith) []
          ∙ append-nil digits))
        (loops_lem debug f out t s a _ (Loops.octal e p h))
  shown_lem _ (lower_hex e h numeral) =
      subst (Converts debug f out s a)
        (ap (λ x. unless_zero s a.ud (digits_loop 16 (hex_digit (hex_offset x)) 16 a.ud [])) e
          ∙ ap (unless_zero s a.ud) (lower_loop h numeral))
        (loops_lem debug f out t s a _ (Loops.hexadecimal (inl e) h))
  shown_lem _ (upper_hex e h numeral) =
      subst (Converts debug f out s a)
        (ap (λ x. unless_zero s a.ud (digits_loop 16 (hex_digit (hex_offset x)) 16 a.ud [])) e
          ∙ ap (unless_zero s a.ud) (upper_loop h numeral))
        (loops_lem debug f out t s a _ (Loops.hexadecimal (inr e) h))
  shown_lem _ (pointer e h numeral) =
      subst (Converts debug f out s a) (upper_loop h numeral)
        (loops_lem debug f out t s a _ (Loops.pointer e h))
  shown_lem _ (character e) = loops_lem debug f out t s a _ (Loops.character e)
  shown_lem _ (text content after e is few same p) =
      loops_lem debug f out t s a _ (Loops.text content after e is few same p)
