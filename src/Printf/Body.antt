-- ===== src/Printf/Body.antt =====
-- The digits with their precision in kernel/lib/cstd/stdio/vfprintf.c, and their lengths.
use yaeos.Prelude.{ℕ, suc, ◌+◌, ◌-◌, ◌^◌, ◌≤◌, ◌<◌, ◌≡◌, inl, inr, refl, ap, ◌∙◌, arith}
use yaeos.Prelude.{Bool, false, ◌&&◌, Bool-cases, List, [], ◌++◌, length, replicate, take}
use yaeos.Prelude.{ℤ, leb, ◌==◌, if◌then◌else◌, length-replicate, length-append}
use yaeos.Word.{◌-w◌}
use yaeos.Printf.Spec.{ConvSpec, prec_empty, special}
use yaeos.Printf.Args.{Argument}
use yaeos.Printf.Convert.{put, pad, rounds, digits_loop, dec_digit, hex_digit, hex_offset}
use yaeos.Printf.Convert.{padded_length, padded_print, last_add}
use yaeos.Printf.DigitCount.{length_for_intnumbase-eq-length}
use yaeos.Printf.Sink.{Takes, Prints, Prints-put, Prints-pad, Prints-give_back, Prints-last_add}

-- The digits of a number with zeros in front up to the precision; none for zero at precision 0.
abbrev pub padded : ℕ → ℕ → ConvSpec → Argument → List ℕ
padded base size s a =
    let digits = digits_loop base dec_digit size a.ud [] in
    if s.precision == 0 && a.ud == 0
    then []
    else (if special s.precision == prec_empty
        then digits
        else replicate (s.precision - length digits) b'0' ++ digits)

-- A precision below 2 ^ 31 - 64.
abbrev pub PlainPrecision : ConvSpec → Type 0
PlainPrecision s = s.precision < 2 ^ 31 - 64

-- The zeros in front, from the code's arithmetic.
padding-eq :
    (precision len : ℕ)
    → precision < 2 ^ 31 - 64
    → len ≤ 22
    → rounds (precision -w len) ≡ precision - len
padding-eq precision len h few = ground arith

module _ {S : Type 0} (debug : Bool) (f : S → List ℕ → ℤ × S) (out : S → List ℕ)
    (t : Takes f out) where
  zeros_then :
      (w : ℕ) (text : List ℕ)
      → w + length text < 2 ^ 31
      → Prints out
          (pad debug f b'0' w 0 λ printed. last_add debug f (put debug f text) printed)
          (length (replicate w b'0' ++ text))
          (replicate w b'0' ++ text)
  zeros_then w text h =
      let total : length (replicate w b'0' ++ text) ≡ 0 + w + length text =
        length-append (replicate w b'0') text
        ∙ ap (λ n. n + length text) (length-replicate w b'0')
        ∙ omega arith in
      rw total (
        Prints-pad debug f out t b'0' w 0 _ (0 + w + length text) text (omega arith) (
          Prints-last_add debug f out t (put debug f text) (0 + w) (length text) text (omega arith)
            (Prints-put debug f out t text)))

  module _ (base size : ℕ) (s : ConvSpec) (a : Argument) (p : PlainPrecision s)
      (few : length (digits_loop base dec_digit size a.ud []) ≤ 22) where
    abbrev digits : List ℕ
    digits = digits_loop base dec_digit size a.ud []

    zeros :
        (special s.precision == prec_empty) ≡ false
        → rounds (s.precision -w length digits) ≡ s.precision - length digits
    zeros e = padding-eq s.precision (length digits) p few

    zeros_fit :
        (special s.precision == prec_empty) ≡ false
        → s.precision - length digits + length digits < 2 ^ 31
    zeros_fit e = omega arith

    pub padded_print_lem :
        Prints out
          (padded_print debug f base size s a)
          (length (padded base size s a))
          (padded base size s a)
    unfolding padded_print
    padded_print_lem = elim (Bool-cases (s.precision == 0 && a.ud == 0)) [
      | inl e ↦ rw e (Prints-give_back debug f out t 0 (omega arith))
      | inr e ↦ elim (Bool-cases (special s.precision == prec_empty)) [
        | inl e' ↦ rw (e, e') (zeros_then 0 digits (omega arith))
        | inr e' ↦
            rw (e, e', zeros e') (zeros_then (s.precision - length digits) digits (zeros_fit e'))
      ]
    ]

longer :
    (precision : ℕ) (text : List ℕ)
    → (if leb (length text) precision then precision else length text)
      ≡ length (replicate (precision - length text) b'0' ++ text)
longer precision text =
    rw
      (
        length-append (replicate (precision - length text) b'0') text,
        length-replicate {A = ℕ} (precision - length text) b'0',
      )
      (ground arith)

-- The announced length.
pub padded-eq-length :
    (base size : ℕ) (s : ConvSpec) (a : Argument)
    → 1 < base
    → base ^ size < 2 ^ 64
    → a.ud < base ^ suc size
    → padded_length base (suc size) s a ≡ length (padded base (suc size) s a)
unfolding padded_length
padded-eq-length base size s a hb hp hn =
    let text = digits_loop base dec_digit (suc size) a.ud [] in
    rw (length_for_intnumbase-eq-length base size a.ud dec_digit hb hp hn)
      (elim (Bool-cases (s.precision == 0 && a.ud == 0)) [
        | inl e ↦ rw e refl
        | inr e ↦ elim (Bool-cases (special s.precision == prec_empty)) [
          | inl e' ↦ rw (e, e') refl
          | inr e' ↦ rw (e, e') (longer s.precision text)
        ]
      ])

-- The hexadecimal digits; none for zero at precision 0.
abbrev pub hex_text : ConvSpec → Argument → List ℕ
hex_text s a =
    if s.precision == 0 && a.ud == 0
    then []
    else digits_loop 16 (hex_digit (hex_offset s.spec)) 16 a.ud []

-- The string, up to the precision.
abbrev pub str_text : ConvSpec → List ℕ → List ℕ
str_text s content = if special s.precision == prec_empty then content else take s.precision content
