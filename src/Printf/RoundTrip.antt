-- ===== src/Printf/RoundTrip.antt =====
-- The round trip between the notation of conversion specifications and `parse_conv_spec` of
-- kernel/lib/cstd/stdio/vfprintf.c.
use yaeos.Prelude.{ℕ, ◌^◌, ◌<◌, ◌≤◌, ◌≡◌, ◌≢◌, inl, inr, refl, ap, ◌∙◌, arith}
use yaeos.Prelude.{Bool, true, false, Bool-cases, List, [], ◌∷◌, ◌++◌, ◌==◌, ==_ne}
use yaeos.Prelude.{ok, none}
use yaeos.Printf.Spec.{ConvSpec, ConvLength, Flags, no_flags, set_flag, width_empty, prec_empty}
use yaeos.Printf.Spec.{char, short, long, llong, intmax, sizet, ptrdiff, ldouble, no_length}
use yaeos.Printf.Spec.{parse_flags, parse_width, parse_precision, parse_conv_spec}
use yaeos.Printf.Notation.{
  mark, dec_text, dec_text-eq, specifier_char, length_text, width_text, precision_text, written,
  CanBeWritten,
}
use yaeos.Printf.Notation.{Letter, LetterOrPeriod, NoFlag, first_digit}
use yaeos.Printf.ParseBack.{
  width_then, precision_then, specifier_then, length_then, specifier_char-SpecLetter,
}

-- The flags, each read by one round of the loop.
no_flag : (fl : Flags) (c : ℕ) (s t : List ℕ) → t ≡ c ∷ s → NoFlag c → parse_flags t fl ≡ ok (fl, t)
unfolding parse_flags
no_flag fl c s t e p =
    let minus : c ≢ b'-' = omega arith in
    let plus : c ≢ b'+' = omega arith in
    let space : c ≢ b' ' = omega arith in
    let hash : c ≢ b'#' = omega arith in
    let zero_pad : c ≢ b'0' = omega arith in
    let unset : set_flag c fl ≡ none =
      rw
        (
          ==_ne c b'-' minus,
          ==_ne c b'+' plus,
          ==_ne c b' ' space,
          ==_ne c b'#' hash,
          ==_ne c b'0' zero_pad,
        )
        refl in
    rw (e, parse_flags, unset) refl

minus_then :
    (b : Bool) (fl : Flags) (t : List ℕ)
    → parse_flags (mark b b'-' ++ t) (record fl { minus = false })
      ≡ parse_flags t (record fl { minus = b })
unfolding parse_flags
minus_then true fl t = refl
minus_then false fl t = refl

plus_then :
    (b : Bool) (fl : Flags) (t : List ℕ)
    → parse_flags (mark b b'+' ++ t) (record fl { plus = false })
      ≡ parse_flags t (record fl { plus = b })
unfolding parse_flags
plus_then true fl t = refl
plus_then false fl t = refl

space_then :
    (b : Bool) (fl : Flags) (t : List ℕ)
    → parse_flags (mark b b' ' ++ t) (record fl { space = false })
      ≡ parse_flags t (record fl { space = b })
unfolding parse_flags
space_then true fl t = refl
space_then false fl t = refl

hash_then :
    (b : Bool) (fl : Flags) (t : List ℕ)
    → parse_flags (mark b b'#' ++ t) (record fl { hash = false })
      ≡ parse_flags t (record fl { hash = b })
unfolding parse_flags
hash_then true fl t = refl
hash_then false fl t = refl

zero_pad_then :
    (b : Bool) (fl : Flags) (t : List ℕ)
    → parse_flags (mark b b'0' ++ t) (record fl { zero_pad = false })
      ≡ parse_flags t (record fl { zero_pad = b })
unfolding parse_flags
zero_pad_then true fl t = refl
zero_pad_then false fl t = refl

flags_then :
    (fl : Flags) (c : ℕ) (s t : List ℕ)
    → t ≡ c ∷ s
    → NoFlag c
    → parse_flags
        (mark fl.minus b'-'
          ++ (mark fl.plus b'+'
              ++ (mark fl.space b' ' ++ (mark fl.hash b'#' ++ (mark fl.zero_pad b'0' ++ t)))))
        no_flags
      ≡ ok (fl, t)
flags_then fl c s t e p =
    minus_then fl.minus no_flags _
    ∙ plus_then fl.plus (record no_flags { minus = fl.minus }) _
    ∙ space_then fl.space (record no_flags { minus = fl.minus; plus = fl.plus }) _
    ∙ hash_then fl.hash (record fl { hash = false; zero_pad = false }) _
    ∙ zero_pad_then fl.zero_pad fl t
    ∙ no_flag fl c s t e p

-- The first characters.
letters_head :
    (l : ConvLength) (c : ℕ) (s : List ℕ)
    → Letter c
    → (d : ℕ) × (t : List ℕ) × (length_text l ++ c ∷ s ≡ d ∷ t) × Letter d
letters_head no_length c s p = (c, s, refl, p)
letters_head char c s p = (b'h', b'h' ∷ c ∷ s, refl, omega arith)
letters_head short c s p = (b'h', c ∷ s, refl, omega arith)
letters_head long c s p = (b'l', c ∷ s, refl, omega arith)
letters_head llong c s p = (b'l', b'l' ∷ c ∷ s, refl, omega arith)
letters_head intmax c s p = (b'j', c ∷ s, refl, omega arith)
letters_head sizet c s p = (b'z', c ∷ s, refl, omega arith)
letters_head ptrdiff c s p = (b't', c ∷ s, refl, omega arith)
letters_head ldouble c s p = (b'L', c ∷ s, refl, omega arith)

precision_head :
    (n c : ℕ) (s : List ℕ)
    → Letter c
    → (d : ℕ) × (t : List ℕ) × (precision_text n ++ c ∷ s ≡ d ∷ t) × LetterOrPeriod d
precision_head n c s p = elim (Bool-cases (n == prec_empty)) [
  | inl e ↦ (c, s, rw e refl, inr p)
  | inr e ↦ (b'.', dec_text n ++ c ∷ s, rw e refl, inl refl)
]

width_head :
    (n c : ℕ) (s : List ℕ)
    → 1 ≤ n
    → n < 2 ^ 32
    → LetterOrPeriod c
    → (d : ℕ) × (t : List ℕ) × (width_text n ++ c ∷ s ≡ d ∷ t) × NoFlag d
width_head n c s h small p = elim (Bool-cases (n == width_empty)) [
  | inl e ↦ (c, s, rw e refl, inr p)
  | inr e ↦
      let (d, more, first, lo, hi, big) = first_digit 19 n [] (omega arith) in
      (d, more ++ c ∷ s, rw e (ap (λ l. l ++ c ∷ s) (dec_text-eq n small ∙ first)), inl (big h, hi))
]

-- `parse_conv_spec` reads a specification back from its notation, whatever comes behind, if its
-- specifier exists, its width is missing or from 1 to 2 ^ 32 - 1 and its precision is missing or below 2 ^ 32.
-- A missing width or precision is the word 254.
pub parse_conv_spec-written :
    (debug : Bool) (s : ConvSpec) (rest : List ℕ)
    → CanBeWritten s
    → parse_conv_spec debug (written s rest) ≡ ok (s, rest)
unfolding parse_conv_spec
parse_conv_spec-written debug s rest h =
    let is_letter = specifier_char-SpecLetter s.spec h.exists in
    let (nh, nl, nj, nz, nt, nb, letter) = is_letter in
    let letters = length_text s.length ++ specifier_char s.spec ∷ rest in
    let (c₁, t₁, e₁, p₁) = letters_head s.length (specifier_char s.spec) rest letter in
    let (c₂, t₂, e₂, p₂) = precision_head s.precision c₁ t₁ p₁ in
    let (c₃, t₃, e₃, p₃) = width_head s.width c₂ t₂ h.wide h.width_fits p₂ in
    let e₂' : precision_text s.precision ++ letters ≡ c₂ ∷ t₂ =
      ap (λ t. precision_text s.precision ++ t) e₁ ∙ e₂ in
    let e₃' : width_text s.width ++ (precision_text s.precision ++ letters) ≡ c₃ ∷ t₃ =
      ap (λ t. width_text s.width ++ t) e₂' ∙ e₃ in
    let flags =
      flags_then s.flags c₃ t₃ (width_text s.width ++ (precision_text s.precision ++ letters)) e₃'
        p₃ in
    let width : parse_width debug (width_text s.width ++ (precision_text s.precision ++ letters))
        ≡ ok (s.width, precision_text s.precision ++ letters) =
      rw e₂' (width_then debug s.width c₂ t₂ h.width_fits p₂) in
    let precision : parse_precision debug (precision_text s.precision ++ letters)
        ≡ ok (s.precision, letters) =
      rw e₁ (precision_then debug s.precision c₁ t₁ h.precision_fits p₁) in
    rw
      (
        flags,
        width,
        precision,
        length_then s.length (specifier_char s.spec) rest is_letter,
        specifier_then s.spec rest h.exists,
      )
      refl
