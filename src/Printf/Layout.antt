-- ===== src/Printf/Layout.antt =====
-- The layout of one conversion of kernel/lib/cstd/stdio/vfprintf.c: lead, digits and filling.
use yaeos.Prelude.{ℕ, ◌+◌, ◌-◌, ◌^◌, ◌<◌, ◌≤◌, ◌≡◌, ◌⊎◌, inl, inr, refl, sym, ap, ◌∙◌, arith}
use yaeos.Prelude.{
  Bool-cases, ◌∷◌, Bool, true, false, not, ◌&&◌, List, [], ◌++◌, length, replicate, ◌==◌,
}
use yaeos.Prelude.{
  Option, none, some, if◌then◌else◌, length-replicate, length-append, append_assoc, append-nil,
}
use yaeos.Word.{◌-w◌}
use yaeos.Printf.Spec.{ConvSpec, ConvSpecifier, width_empty, special}
use yaeos.Printf.Spec.{
  int, uoctal, udec, uhex, uhex_big, uchar, str, ptr, written_out, percentage, invalid,
}
use yaeos.Printf.Args.{Argument}
use yaeos.Printf.Convert.{rounds, prefix_of, hex_prefix}
use yaeos.Printf.Print.{prefix_length, flag_present}
use yaeos.Printf.Stages.{sign_text, prefix_text}

-- The prefix of an address, and of a hexadecimal number with the flag `#`.
abbrev pub number_prefix : ConvSpecifier → Bool → List ℕ
number_prefix ptr hash = b'0' ∷ b'x' ∷ []
number_prefix uhex true = b'0' ∷ b'x' ∷ []
number_prefix uhex_big true = b'0' ∷ b'x' ∷ []
number_prefix _ _ = []

-- The prefix and the sign.
abbrev pub lead_text : ConvSpec → Argument → List ℕ
lead_text s arg = number_prefix s.spec s.flags.hash ++ sign_text s arg

-- The same by the table of the conversions.
abbrev pub lead_by_table : ConvSpec → Argument → List ℕ
lead_by_table s arg = prefix_text (prefix_of s.spec s arg) ++ sign_text s arg

prefix_lem :
    (x : ConvSpecifier) (s : ConvSpec) (arg : Argument)
    → s.spec ≡ x
    → prefix_text (prefix_of x s arg) ≡ number_prefix x s.flags.hash
unfolding prefix_of hex_prefix
prefix_lem ptr s arg e = rw e refl
prefix_lem uhex s arg e = elim (Bool-cases s.flags.hash) [
  | inl h ↦ rw (e, h) refl
  | inr h ↦ rw (e, h) refl
]
prefix_lem uhex_big s arg e = elim (Bool-cases s.flags.hash) [
  | inl h ↦ rw (e, h) refl
  | inr h ↦ rw (e, h) refl
]
prefix_lem int s arg e = refl
prefix_lem udec s arg e = refl
prefix_lem uoctal s arg e = refl
prefix_lem uchar s arg e = refl
prefix_lem str s arg e = refl
prefix_lem written_out s arg e = refl
prefix_lem percentage s arg e = refl
prefix_lem invalid s arg e = refl

pub lead-eq : (s : ConvSpec) (arg : Argument) → lead_by_table s arg ≡ lead_text s arg
lead-eq s arg = ap (λ p. p ++ sign_text s arg) (prefix_lem s.spec s arg refl)

-- How many characters are left of the width.
abbrev pub room : ConvSpec → Argument → List ℕ → ℕ
room s arg shows = s.width - length (lead_text s arg ++ shows)

-- The field: with a width it is filled up by blanks on the left, or with the flag `-` on the right, or
-- with the flag `0` by zeros behind the lead.
abbrev pub field_layout : (empty minus zero_pad : Bool) (leads shows : List ℕ) (w : ℕ) → List ℕ
field_layout true minus zero_pad leads shows w = leads ++ shows
field_layout false true zero_pad leads shows w = leads ++ shows ++ replicate w b' '
field_layout false false true leads shows w = leads ++ replicate w b'0' ++ shows
field_layout false false false leads shows w = replicate w b' ' ++ (leads ++ shows)

abbrev pub field_text : ConvSpec → Argument → List ℕ → List ℕ
field_text s arg shows =
    field_layout (special s.width == width_empty) s.flags.minus s.flags.zero_pad (lead_text s arg)
      shows (room s arg shows)

-- The flag `0` stands where the code honours it: with a width and without the flag `-`.
abbrev pub ZeroPadsLeft : ConvSpec → Type 0
ZeroPadsLeft s =
    (s.flags.zero_pad ≡ false)
    ⊎ (((special s.width == width_empty) ≡ false) × (s.flags.minus ≡ false))

-- What the stages of `print_field` print, one after the other.
abbrev pub right_text : (empty minus zero_pad : Bool) → List ℕ → ℕ → List ℕ
right_text empty minus zero_pad leads w =
    if not minus && not empty
    then (if zero_pad then leads ++ replicate w b'0' else replicate w b' ')
    else []

abbrev pub left_text : (empty minus : Bool) → ℕ → List ℕ
left_text empty minus w = if minus && not empty then replicate w b' ' else []

abbrev pub stages_layout : (empty minus zero_pad : Bool) (leads shows : List ℕ) (w : ℕ) → List ℕ
stages_layout empty minus zero_pad leads shows w =
    right_text empty minus zero_pad leads w
    ++ ((if not zero_pad then leads else []) ++ (shows ++ left_text empty minus w))

pub layout :
    (empty minus zero_pad : Bool) (leads shows : List ℕ) (w : ℕ)
    → (zero_pad ≡ false) ⊎ ((empty ≡ false) × (minus ≡ false))
    → stages_layout empty minus zero_pad leads shows w
      ≡ field_layout empty minus zero_pad leads shows w
layout true true true leads shows w (inl e) = cc
layout true true true leads shows w (inr (e, e')) = cc
layout true false true leads shows w (inl e) = cc
layout true false true leads shows w (inr (e, e')) = cc
layout true true false leads shows w z = ap (λ l. leads ++ l) (append-nil shows)
layout true false false leads shows w z = ap (λ l. leads ++ l) (append-nil shows)
layout false true true leads shows w (inl e) = cc
layout false true true leads shows w (inr (e, e')) = cc
layout false true false leads shows w z = sym (append_assoc leads shows (replicate w b' '))
layout false false true leads shows w z =
    ap (λ l. leads ++ replicate w b'0' ++ l) (append-nil shows)
layout false false false leads shows w z =
    ap (λ l. replicate w b' ' ++ (leads ++ l)) (append-nil shows)

pub length-layout :
    (empty minus zero_pad : Bool) (leads shows : List ℕ) (w : ℕ)
    → length (field_layout empty minus zero_pad leads shows w)
      ≡ length leads + length shows + (if empty then 0 else w)
length-layout true minus zero_pad leads shows w = length-append leads shows ∙ omega arith
length-layout false true zero_pad leads shows w =
    rw
      (
        length-append (leads ++ shows) (replicate w b' '),
        length-append leads shows,
        length-replicate {A = ℕ} w b' ',
      )
      refl
length-layout false false true leads shows w =
    rw
      (
        length-append (leads ++ replicate w b'0') shows,
        length-append leads (replicate w b'0'),
        length-replicate {A = ℕ} w b'0',
      )
      (omega arith)
length-layout false false false leads shows w =
    rw
      (
        length-append (replicate w b' ') (leads ++ shows),
        length-append leads shows,
        length-replicate {A = ℕ} w b' ',
      )
      (omega arith)

pub prefix_le :
    (x : ConvSpecifier) (s : ConvSpec) (arg : Argument) → prefix_length (prefix_of x s arg) ≤ 2
unfolding prefix_of hex_prefix
prefix_le ptr s arg = ground arith
prefix_le uhex s arg = ground arith
prefix_le uhex_big s arg = ground arith
prefix_le int s arg = omega arith
prefix_le udec s arg = omega arith
prefix_le uoctal s arg = omega arith
prefix_le uchar s arg = omega arith
prefix_le str s arg = omega arith
prefix_le written_out s arg = omega arith
prefix_le percentage s arg = omega arith
prefix_le invalid s arg = omega arith

length-prefix_text : (p : Option (List ℕ)) → length (prefix_text p) ≡ prefix_length p
length-prefix_text none = refl
length-prefix_text (some p) = refl

length-sign_text :
    (s : ConvSpec) (arg : Argument)
    → length (sign_text s arg) ≡ (if flag_present s arg then 1 else 0)
length-sign_text s arg = ground arith

rounds-fill :
    (w n p g : ℕ)
    → n < 2 ^ 30
    → w < 2 ^ 30
    → p ≤ 2
    → g ≤ 1
    → rounds (w -w n -w p -w g) ≡ w - (p + g + n)
rounds-fill w n p g hn hw hp hg = ground arith

pub length-lead :
    (s : ConvSpec) (arg : Argument)
    → length (lead_text s arg)
      ≡ prefix_length (prefix_of s.spec s arg) + (if flag_present s arg then 1 else 0)
length-lead s arg =
    ap length (sym (lead-eq s arg))
    ∙ rw
        (
          length-append (prefix_text (prefix_of s.spec s arg)) (sign_text s arg),
          length-prefix_text (prefix_of s.spec s arg),
          length-sign_text s arg,
        )
        refl

pub fill :
    (s : ConvSpec) (arg : Argument) (shows : List ℕ)
    → length shows < 2 ^ 30
    → s.width < 2 ^ 30
    → rounds (
        s.width
        -w length shows
        -w prefix_length (prefix_of s.spec s arg)
        -w (if flag_present s arg then 1 else 0))
      ≡ room s arg shows
fill s arg shows h w =
    rounds-fill s.width (length shows) (prefix_length (prefix_of s.spec s arg))
      (if flag_present s arg then 1 else 0) h w (prefix_le s.spec s arg) (ground arith)
    ∙ rw (length-append (lead_text s arg) shows, length-lead s arg) refl
