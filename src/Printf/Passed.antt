-- ===== src/Printf/Passed.antt =====
-- How the arguments of the conversions of kernel/lib/cstd/stdio/vfprintf.c are passed on i686, and that
-- `fetch_arg` takes them.
use yaeos.Prelude.{
  ℕ, ◌+◌, ◌-◌, ◌%◌, ◌^◌, ◌≤◌, ◌<◌, ◌≡◌, ◌≢◌, refl, arith, Bool, true, false, ltb, ==_ne, List, ◌∷◌,
  Outcome, ok,
}
use yaeos.Printf.Spec.{ConvSpecifier, ConvLength}
use yaeos.Printf.Spec.{char, short, long, llong, intmax, sizet, ptrdiff, ldouble, no_length}
use yaeos.Printf.Spec.{int, uoctal, udec, uhex, uhex_big, uchar, str, ptr}
use yaeos.Printf.Args.{
  Va, word, double_word, chars, Argument, number, no_argument, case_body, fetch_int, fetch_unsigned,
  fetch_by,
}

-- The bits of the type that a length modifier names, and those of the type that it is passed by.
abbrev pub bits : ConvLength → ℕ
bits char = 8
bits short = 16
bits llong = 64
bits intmax = 64
bits _ = 32

abbrev pub passed_bits : ConvLength → ℕ
passed_bits llong = 64
passed_bits intmax = 64
passed_bits _ = 32

abbrev pub passed : ConvLength → ℕ → Va
passed llong n = double_word n
passed intmax n = double_word n
passed _ n = word n

pub data Unsigned : ConvSpecifier → Type 0 where
  octal : Unsigned uoctal
  decimal : Unsigned udec
  lower_hex : Unsigned uhex
  upper_hex : Unsigned uhex_big

-- The argument that is passed for a value: a number, a negative one by its complement, an address, a
-- character or a string. The least number of 64 bits is left out.
pub data Passed : ConvSpecifier → ConvLength → Va → Argument → Type 0 where
  natural :
      (l : ConvLength) (n : ℕ)
      → l ≢ ldouble
      → n < 2 ^ (bits l - 1)
      → Passed int l (passed l n) (number n)
  negative :
      (l : ConvLength) (n : ℕ)
      → l ≢ ldouble
      → 1 ≤ n
      → n ≤ 2 ^ (bits l - 1)
      → n ≢ 2 ^ 63
      → Passed int l (passed l (2 ^ passed_bits l - n)) (record (number n) { negative = true })
  unsigned :
      {x : ConvSpecifier} (l : ConvLength) (n : ℕ)
      → Unsigned x
      → l ≢ ldouble
      → n < 2 ^ bits l
      → Passed x l (passed l n) (number n)
  address : (l : ConvLength) (n : ℕ) → n < 2 ^ 32 → Passed ptr l (word n) (number n)
  character : (l : ConvLength) (n : ℕ) → n < 2 ^ 32 → Passed uchar l (word n) (number n)
  text : (l : ConvLength) (s : List ℕ) → Passed str l (chars s) (record no_argument { str = s })

case_body_natural : (w n v : ℕ) → v % 2 ^ w ≡ n → n < 2 ^ (w - 1) → case_body w v ≡ ok (number n)
unfolding case_body
case_body_natural w n v e h =
    let small : ltb n (2 ^ (w - 1)) ≡ true = ground arith in rw (e, small) refl

case_body_negative :
    (w n v : ℕ)
    → 2 ^ w ≡ 2 ^ (w - 1) + 2 ^ (w - 1)
    → v % 2 ^ w ≡ 2 ^ w - n
    → 1 ≤ n
    → n ≤ 2 ^ (w - 1)
    → 2 ^ w - n ≢ 2 ^ 63
    → case_body w v ≡ ok (record (number n) { negative = true })
unfolding case_body
case_body_negative w n v twice e some h other =
    let great : ltb (2 ^ w - n) (2 ^ (w - 1)) ≡ false = ground arith in
    let back : 2 ^ w - (2 ^ w - n) ≡ n = omega arith in
    rw (e, great, ==_ne (2 ^ w - n) (2 ^ 63) other, back) refl

module _ (debug : Bool) (args : List Va) where
  fetch_natural :
      (l : ConvLength) (n : ℕ)
      → l ≢ ldouble
      → n < 2 ^ (bits l - 1)
      → fetch_int debug l (passed l n ∷ args) ≡ ok (number n, args)
  unfolding fetch_int
  fetch_natural char n some h = rw (case_body_natural 8 n (n % 2 ^ 32) (omega arith) h) refl
  fetch_natural short n some h = rw (case_body_natural 16 n (n % 2 ^ 32) (omega arith) h) refl
  fetch_natural long n some h = rw (case_body_natural 32 n (n % 2 ^ 32) (omega arith) h) refl
  fetch_natural llong n some h = rw (case_body_natural 64 n (n % 2 ^ 64) (omega arith) h) refl
  fetch_natural intmax n some h = rw (case_body_natural 64 n (n % 2 ^ 64) (omega arith) h) refl
  fetch_natural sizet n some h = rw (case_body_natural 32 n (n % 2 ^ 32) (omega arith) h) refl
  fetch_natural ptrdiff n some h = rw (case_body_natural 32 n (n % 2 ^ 32) (omega arith) h) refl
  fetch_natural no_length n some h = rw (case_body_natural 32 n (n % 2 ^ 32) (omega arith) h) refl
  fetch_natural ldouble n some h = absurd (some refl)

  fetch_negative :
      (l : ConvLength) (n : ℕ)
      → l ≢ ldouble
      → 1 ≤ n
      → n ≤ 2 ^ (bits l - 1)
      → n ≢ 2 ^ 63
      → fetch_int debug l (passed l (2 ^ passed_bits l - n) ∷ args)
        ≡ ok (record (number n) { negative = true }, args)
  unfolding fetch_int
  fetch_negative char n some pos h least =
      rw
        (case_body_negative 8 n ((2 ^ 32 - n) % 2 ^ 32) (omega arith) (omega arith) pos h
          (omega arith))
        refl
  fetch_negative short n some pos h least =
      rw
        (case_body_negative 16 n ((2 ^ 32 - n) % 2 ^ 32) (omega arith) (omega arith) pos h
          (omega arith))
        refl
  fetch_negative long n some pos h least =
      rw
        (case_body_negative 32 n ((2 ^ 32 - n) % 2 ^ 32) (omega arith) (omega arith) pos h
          (omega arith))
        refl
  fetch_negative llong n some pos h least =
      rw
        (case_body_negative 64 n ((2 ^ 64 - n) % 2 ^ 64) (omega arith) (omega arith) pos h
          (omega arith))
        refl
  fetch_negative intmax n some pos h least =
      rw
        (case_body_negative 64 n ((2 ^ 64 - n) % 2 ^ 64) (omega arith) (omega arith) pos h
          (omega arith))
        refl
  fetch_negative sizet n some pos h least =
      rw
        (case_body_negative 32 n ((2 ^ 32 - n) % 2 ^ 32) (omega arith) (omega arith) pos h
          (omega arith))
        refl
  fetch_negative ptrdiff n some pos h least =
      rw
        (case_body_negative 32 n ((2 ^ 32 - n) % 2 ^ 32) (omega arith) (omega arith) pos h
          (omega arith))
        refl
  fetch_negative no_length n some pos h least =
      rw
        (case_body_negative 32 n ((2 ^ 32 - n) % 2 ^ 32) (omega arith) (omega arith) pos h
          (omega arith))
        refl
  fetch_negative ldouble n some pos h least = absurd (some refl)

  taken :
      (m n : ℕ)
      → m ≡ n
      → ◌≡◌ {A = Outcome (Argument × List Va)} (ok (number m, args)) (ok (number n, args))
  taken m n e = rw e refl

  fetch_plain :
      (l : ConvLength) (n : ℕ)
      → l ≢ ldouble
      → n < 2 ^ bits l
      → fetch_unsigned debug l (passed l n ∷ args) ≡ ok (number n, args)
  unfolding fetch_unsigned
  fetch_plain char n some h = taken _ n (omega arith)
  fetch_plain short n some h = taken _ n (omega arith)
  fetch_plain long n some h = taken _ n (omega arith)
  fetch_plain llong n some h = taken _ n (omega arith)
  fetch_plain intmax n some h = taken _ n (omega arith)
  fetch_plain sizet n some h = taken _ n (omega arith)
  fetch_plain ptrdiff n some h = taken _ n (omega arith)
  fetch_plain no_length n some h = taken _ n (omega arith)
  fetch_plain ldouble n some h = absurd (some refl)

  pub fetch_by-Passed :
      {x : ConvSpecifier} {l : ConvLength} {va : Va} {arg : Argument}
      → Passed x l va arg
      → fetch_by debug x l (va ∷ args) ≡ ok (arg, args)
  unfolding fetch_by
  fetch_by-Passed (natural l n some h) = fetch_natural l n some h
  fetch_by-Passed (negative l n some pos h least) = fetch_negative l n some pos h least
  fetch_by-Passed (unsigned l n octal some h) = fetch_plain l n some h
  fetch_by-Passed (unsigned l n decimal some h) = fetch_plain l n some h
  fetch_by-Passed (unsigned l n lower_hex some h) = fetch_plain l n some h
  fetch_by-Passed (unsigned l n upper_hex some h) = fetch_plain l n some h
  fetch_by-Passed (address l n h) = taken (n % 2 ^ 32) n (omega arith)
  fetch_by-Passed (character l n h) = taken (n % 2 ^ 32) n (omega arith)
  fetch_by-Passed (text l s) = refl
