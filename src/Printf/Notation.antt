-- ===== src/Printf/Notation.antt =====
-- How a conversion specification of kernel/lib/cstd/stdio/vfprintf.c is written, and that its parser
-- reads it back.
use native.Mathlib.Nat.{pow-suc}
use yaeos.Prelude.{
  ℕ, zero, suc, ◌+◌, ◌^◌, ◌<◌, ◌≤◌, ◌≡◌, ◌≢◌, ◌⊎◌, inl, inr, refl, ap, arith, ◌/◌, ◌%◌,
}
use yaeos.Prelude.{Bool, true, false, Bool-cases, List, [], ◌∷◌, ◌++◌, length, ◌==◌, if◌then◌else◌}
use yaeos.Prelude.{ok, sym, ◌∙◌, append-nil}
use yaeos.Word.{◌+w◌}
use yaeos.Printf.Spec.{ConvSpec, ConvSpecifier, ConvLength, width_empty, prec_empty, is_digit}
use yaeos.Printf.Spec.{
  int, uoctal, udec, uhex, uhex_big, uchar, str, ptr, written_out, percentage, invalid,
}
use yaeos.Printf.Spec.{char, short, long, llong, intmax, sizet, ptrdiff, ldouble, no_length}
use yaeos.Printf.Spec.{count_digits}
use yaeos.Printf.Convert.{digits_loop, dec_digit}
use yaeos.Printf.Numeral.{
  lower_digits, digits_loop-Numeral, dec_digit-agrees, numeral, numeral-Numeral,
}

abbrev pub mark : Bool → ℕ → List ℕ
mark b c = if b then c ∷ [] else []

abbrev pub dec_text : ℕ → List ℕ
dec_text n = numeral 19 n

-- These are the digits that `dec_print` writes.
pub dec_text-eq : (n : ℕ) → n < 2 ^ 32 → dec_text n ≡ digits_loop 10 dec_digit 20 n []
dec_text-eq n h =
    let same =
      digits_loop-Numeral 10 lower_digits dec_digit (omega arith) dec_digit-agrees
        (numeral-Numeral 19 n (omega arith)) 19 (omega arith) [] in
    sym (same ∙ append-nil (numeral 19 n))

abbrev pub specifier_char : ConvSpecifier → ℕ
specifier_char int = b'd'
specifier_char uoctal = b'o'
specifier_char udec = b'u'
specifier_char uhex = b'x'
specifier_char uhex_big = b'X'
specifier_char uchar = b'c'
specifier_char str = b's'
specifier_char ptr = b'p'
specifier_char written_out = b'n'
specifier_char percentage = b'%'
specifier_char invalid = 0

abbrev pub length_text : ConvLength → List ℕ
length_text char = b'h' ∷ b'h' ∷ []
length_text short = b'h' ∷ []
length_text long = b'l' ∷ []
length_text llong = b'l' ∷ b'l' ∷ []
length_text intmax = b'j' ∷ []
length_text sizet = b'z' ∷ []
length_text ptrdiff = b't' ∷ []
length_text ldouble = b'L' ∷ []
length_text no_length = []

abbrev pub width_text : ℕ → List ℕ
width_text w = if w == width_empty then [] else dec_text w

abbrev pub precision_text : ℕ → List ℕ
precision_text p = if p == prec_empty then [] else b'.' ∷ dec_text p

-- A specification in front of other text. The words 254 stand for a missing width and precision.
abbrev pub written : ConvSpec → List ℕ → List ℕ
written s rest =
    let letters = length_text s.length ++ specifier_char s.spec ∷ rest in
    let numbers = width_text s.width ++ (precision_text s.precision ++ letters) in
    mark s.flags.minus b'-'
    ++ (mark s.flags.plus b'+'
        ++ (mark s.flags.space b' '
            ++ (mark s.flags.hash b'#' ++ (mark s.flags.zero_pad b'0' ++ numbers))))

-- A specification that can be written: a specifier that exists, and a width other than 0, which
-- would read as a flag.
pub record CanBeWritten (s : ConvSpec) : Type 0 where
  pub exists : s.spec ≢ invalid
  pub wide : 1 ≤ s.width
  pub width_fits : s.width < 2 ^ 32
  pub precision_fits : s.precision < 2 ^ 32

-- What the first character of a text is like.
pub data Head (P : ℕ → Type 0) : List ℕ → Type 0 where
  head : (c : ℕ) (s : List ℕ) → P c → Head P (c ∷ s)

abbrev pub Letter : ℕ → Type 0
Letter c = (c ≡ b'%') ⊎ (58 ≤ c)

abbrev pub LetterOrPeriod : ℕ → Type 0
LetterOrPeriod c = (c ≡ b'.') ⊎ Letter c

abbrev pub NoFlag : ℕ → Type 0
NoFlag c = ((49 ≤ c) × (c ≤ 57)) ⊎ LetterOrPeriod c

pub data AllDigits : List ℕ → Type 0 where
  nil : AllDigits []
  cons : {s : List ℕ} (c : ℕ) → b'0' ≤ c → c ≤ b'9' → AllDigits s → AllDigits (c ∷ s)

pub digits_loop-AllDigits :
    (room n : ℕ) (s : List ℕ) → AllDigits s → AllDigits (digits_loop 10 dec_digit room n s)
unfolding digits_loop
digits_loop-AllDigits zero n s h = h
digits_loop-AllDigits (suc room) n s h =
    let first : AllDigits (dec_digit (n % 10) ∷ s) = cons _ (omega arith) (omega arith) h in
    elim (Bool-cases (n / 10 == 0)) [
      | inl e ↦ rw e first
      | inr e ↦ rw e (digits_loop-AllDigits room (n / 10) _ first)
    ]

-- The first digit, which is 0 only for the number 0.
pub first_digit :
    (room n : ℕ) (s : List ℕ)
    → n < 10 ^ suc room
    → (c : ℕ) × (more : List ℕ) × (digits_loop 10 dec_digit (suc room) n s ≡ c ∷ more)
      × (b'0' ≤ c)
      × (c ≤ b'9')
      × (1 ≤ n → 49 ≤ c)
unfolding digits_loop
first_digit zero n s h = (
  dec_digit (n % 10),
  s,
  elim (Bool-cases (n / 10 == 0)) [ inl e ↦ rw e refl | inr e ↦ rw e refl ],
  omega arith,
  omega arith,
  λ some_one. omega arith,
)
first_digit (suc room) n s h = elim (Bool-cases (n / 10 == 0)) [
  | inl e ↦ (dec_digit (n % 10), s, rw e refl, omega arith, omega arith, λ some_one. ground arith)
  | inr e ↦
      let (c, more, same, lo, hi, big) =
        first_digit room (n / 10) (dec_digit (n % 10) ∷ s) (omega (arith, pow-suc 10 (suc room))) in
      (c, more, rw e same, lo, hi, λ some_one. big (ground arith))
]

pub count_digits_lem :
    {d t : List ℕ}
    → AllDigits d
    → Head LetterOrPeriod t
    → (k m : ℕ) → m ≡ k + length d
    → m < 2 ^ 32
    → count_digits (d ++ t) k ≡ ok m
unfolding count_digits
count_digits_lem nil (head c s p) k m e h =
    let other : is_digit c ≡ false = ground arith in rw other (ap ok (omega arith))
count_digits_lem (cons c lo hi a) p k m e h =
    let digit : is_digit c ≡ true = ground arith in
    rw digit (count_digits_lem a p (k +w 1) m (omega arith) h)
