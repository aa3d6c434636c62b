-- ===== src/Printf/Loops.antt =====
-- What the loops of the conversions of kernel/lib/cstd/stdio/vfprintf.c print, and that their lengths are right.
use native.Mathlib.Decide.{dec_lt}
use yaeos.Prelude.{ℕ, ◌%◌, ◌^◌, ◌<◌, ◌≡◌, ◌⊎◌, inl, inr, refl, ap, ◌∙◌, arith}
use yaeos.Prelude.{Bool, true, ◌&&◌, Bool-cases, List, [], ◌∷◌, ◌++◌, length, take}
use yaeos.Prelude.{ℤ, ok, ltb, ◌==◌, if◌then◌else◌, length-take, take-all, take-append}
use yaeos.Strings.Length.{IsText, kstrlen_lem}
use yaeos.Printf.Spec.{ConvSpec, ConvSpecifier, prec_empty, special}
use yaeos.Printf.Spec.{int, uoctal, udec, uhex, uhex_big, uchar, str, ptr}
use yaeos.Printf.Args.{Argument}
use yaeos.Printf.Convert.{digits_loop, dec_digit, hex_digit, hex_offset, is_hex}
use yaeos.Printf.Convert.{print_of, length_of}
use yaeos.Printf.Convert.{
  oct_length, oct_print, dec_length, dec_print, hex_length, hex_print, str_length, str_print,
  char_length, char_print,
}
use yaeos.Printf.DigitCount.{length_for_intnumbase-eq-length}
use yaeos.Printf.Digits.{length-digits_loop-le}
use yaeos.Printf.Sink.{Takes, Prints, Prints-put, Prints-give_back}
use yaeos.Printf.Body.{
  padded, PlainPrecision, padded_print_lem, padded-eq-length, hex_text, str_text,
}

-- The call prints the text, and the length that the table announces is that of the text.
pub record Converts {S : Type 0} (debug : Bool) (f : S → List ℕ → ℤ × S) (out : S → List ℕ)
    (s : ConvSpec) (a : Argument) (text : List ℕ) : Type 0 where
  pub announced : length_of s.spec s a ≡ ok (length text)
  pub printed : Prints out (print_of debug f s.spec s a) (length text) text

shorter :
    (n : ℕ) (content : List ℕ)
    → (if ltb n (length content) then n else length content) ≡ length (take n content)
shorter n content = elim (dec_lt n (length content)) [
  | yes lt ↦ ground (arith, length-take n content (omega arith))
  | no le ↦ rw (take-all n content (omega arith)) (ground arith)
]

taken :
    (s : ConvSpec) (content after : List ℕ)
    → take (length (str_text s content)) (content ++ 0 ∷ after) ≡ str_text s content
taken s content after =
    let all =
      take-append (length content) content (0 ∷ after) (omega arith)
      ∙ take-all (length content) content (omega arith) in
    elim (Bool-cases (special s.precision == prec_empty)) [
      | inl e ↦ rw (e, all) refl
      | inr e ↦ elim (dec_lt s.precision (length content)) [
        | yes lt ↦
            rw
              (
                e,
                length-take s.precision content (omega arith),
                take-append s.precision content (0 ∷ after) (omega arith),
              )
              refl
        | no le ↦ rw (e, take-all s.precision content (omega arith), all) refl
      ]
    ]

-- What the loops of a specifier make of its argument.
pub data Loops (s : ConvSpec) (a : Argument) : List ℕ → Type 0 where
  decimal :
      (s.spec ≡ int) ⊎ (s.spec ≡ udec)
      → PlainPrecision s
      → a.ud < 2 ^ 64
      → Loops s a (padded 10 20 s a)
  octal : s.spec ≡ uoctal → PlainPrecision s → a.ud < 2 ^ 64 → Loops s a (padded 8 22 s a)
  hexadecimal : (s.spec ≡ uhex) ⊎ (s.spec ≡ uhex_big) → a.ud < 2 ^ 64 → Loops s a (hex_text s a)
  pointer : s.spec ≡ ptr → a.ud < 2 ^ 64 → Loops s a (digits_loop 16 (hex_digit b'A') 16 a.ud [])
  character : s.spec ≡ uchar → Loops s a ((a.ud % 2 ^ 8) ∷ [])
  text :
      (content after : List ℕ)
      → s.spec ≡ str
      → IsText content
      → length content < 2 ^ 31
      → a.str ≡ content ++ 0 ∷ after
      → PlainPrecision s
      → Loops s a (str_text s content)

module _ {S : Type 0} (debug : Bool) (f : S → List ℕ → ℤ × S) (out : S → List ℕ)
    (t : Takes f out) where
  hex_length_lem :
      (s : ConvSpec) (a : Argument)
      → is_hex s.spec ≡ true
      → a.ud < 2 ^ 64
      → hex_length s a ≡ ok (length (hex_text s a))
  unfolding hex_length
  hex_length_lem s a e h =
      let same =
        length_for_intnumbase-eq-length 16 15 a.ud (hex_digit (hex_offset s.spec)) (omega arith)
          (omega arith) (omega arith) in
      elim (Bool-cases (s.precision == 0 && a.ud == 0)) [
        | inl z ↦ rw (e, z) refl
        | inr z ↦ rw (e, z, same) refl
      ]

  hex_print_lem :
      (s : ConvSpec) (a : Argument)
      → is_hex s.spec ≡ true
      → Prints out (hex_print debug f s a) (length (hex_text s a)) (hex_text s a)
  unfolding hex_print
  hex_print_lem s a e = elim (Bool-cases (s.precision == 0 && a.ud == 0)) [
    | inl z ↦ rw (e, z) (Prints-give_back debug f out t 0 (omega arith))
    | inr z ↦
        rw (e, z)
          (Prints-put debug f out t (digits_loop 16 (hex_digit (hex_offset s.spec)) 16 a.ud []))
  ]

  pointer_length_lem :
      (s : ConvSpec) (a : Argument)
      → s.spec ≡ ptr
      → a.ud < 2 ^ 64
      → hex_length s a ≡ ok (length (digits_loop 16 (hex_digit b'A') 16 a.ud []))
  unfolding hex_length
  pointer_length_lem s a e h =
      let same =
        length_for_intnumbase-eq-length 16 15 a.ud (hex_digit b'A') (omega arith) (omega arith)
          (omega arith) in
      rw (e, same) refl

  pointer_print_lem :
      (s : ConvSpec) (a : Argument)
      → s.spec ≡ ptr
      → Prints out
          (hex_print debug f s a)
          (length (digits_loop 16 (hex_digit b'A') 16 a.ud []))
          (digits_loop 16 (hex_digit b'A') 16 a.ud [])
  unfolding hex_print
  pointer_print_lem s a e =
      rw e (Prints-put debug f out t (digits_loop 16 (hex_digit b'A') 16 a.ud []))

  str_length_lem :
      (s : ConvSpec) (a : Argument) (content after : List ℕ)
      → IsText content
      → length content < 2 ^ 31
      → a.str ≡ content ++ 0 ∷ after
      → PlainPrecision s
      → str_length s a ≡ ok (length (str_text s content))
  unfolding str_length
  str_length_lem s a content after is few same p =
      let whole = kstrlen_lem content is after (omega arith) in
      elim (Bool-cases (special s.precision == prec_empty)) [
        | inl e ↦ rw (same, whole, e) refl
        | inr e ↦ rw (same, whole, e) (ap ok (shorter s.precision content))
      ]

  str_print_lem :
      (s : ConvSpec) (a : Argument) (content after : List ℕ)
      → IsText content
      → length content < 2 ^ 31
      → a.str ≡ content ++ 0 ∷ after
      → PlainPrecision s
      → Prints out (str_print debug f s a) (length (str_text s content)) (str_text s content)
  unfolding str_print
  str_print_lem s a content after is few same p st =
      let l = str_length_lem s a content after is few same p in
      rw (l, same, taken s content after) (Prints-put debug f out t (str_text s content) st)

  converts :
      (s : ConvSpec) (a : Argument) (x : ConvSpecifier) (shows : List ℕ)
      → s.spec ≡ x
      → length_of x s a ≡ ok (length shows)
      → Prints out (print_of debug f x s a) (length shows) shows
      → Converts debug f out s a shows
  converts s a x shows e l p =
      let entry = ap (λ y. print_of debug f y s a) e in
      record { announced = ap (λ y. length_of y s a) e ∙ l; printed = rw entry p }

  -- Every conversion prints what its loops make of the argument, and announces as many
  -- characters as it prints.
  pub loops_lem :
      (s : ConvSpec) (a : Argument) (shows : List ℕ)
      → Loops s a shows
      → Converts debug f out s a shows
  unfolding print_of length_of dec_length dec_print oct_length oct_print char_length char_print
  loops_lem s a shows (decimal which p h) =
      let few = length-digits_loop-le 10 dec_digit 20 a.ud [] in
      let same = ap ok (padded-eq-length 10 19 s a (omega arith) (omega arith) (omega arith)) in
      let prints = padded_print_lem debug f out t 10 20 s a p (omega arith) in
      elim which [
        | inl e ↦ converts s a int shows e same prints
        | inr e ↦ converts s a udec shows e same prints
      ]
  loops_lem s a shows (octal e p h) =
      let few = length-digits_loop-le 8 dec_digit 22 a.ud [] in
      converts s a uoctal shows e
        (ap ok (padded-eq-length 8 21 s a (omega arith) (omega arith) (omega arith)))
        (padded_print_lem debug f out t 8 22 s a p (omega arith))
  loops_lem s a shows (hexadecimal which h) = elim which [
    | inl e ↦
        converts s a uhex shows e (hex_length_lem s a (rw e refl) h) (hex_print_lem s a (rw e refl))
    | inr e ↦
        converts s a uhex_big shows e (hex_length_lem s a (rw e refl) h)
          (hex_print_lem s a (rw e refl))
  ]
  loops_lem s a shows (pointer e h) =
      converts s a ptr shows e (pointer_length_lem s a e h) (pointer_print_lem s a e)
  loops_lem s a shows (character e) =
      converts s a uchar shows e refl (Prints-put debug f out t ((a.ud % 2 ^ 8) ∷ []))
  loops_lem s a shows (text content after e is few same p) =
      converts s a str shows e (str_length_lem s a content after is few same p)
        (str_print_lem s a content after is few same p)
