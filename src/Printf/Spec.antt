-- ===== src/Printf/Spec.antt =====
-- Conversion specifications of kernel/lib/cstd/stdio/vfprintf.c and their parser. A format is the
-- list of the bytes of memory from the cursor on.
use yaeos.Prelude.{ℕ, ◌-◌, ◌%◌, ◌^◌, Bool, true, false, leb, ◌==◌, ◌&&◌}
use yaeos.Prelude.{Option, none, some, List, [], ◌∷◌, drop, if◌then◌else◌}
use yaeos.Prelude.{Outcome, ok, fault, ◌>>=◌, ◌>>◌, check}
use yaeos.Word.{◌+w◌, ◌*w◌}

-- `enum conv_specifiers`
pub data ConvSpecifier : Type 0 where
  int uoctal udec uhex uhex_big uchar str ptr written_out percentage invalid : ConvSpecifier

-- `enum conv_length`
pub data ConvLength : Type 0 where
  char short long llong intmax sizet ptrdiff ldouble no_length : ConvLength

-- The bits of `flags`.
pub record Flags : Type 0 where
  pub minus : Bool
  pub plus : Bool
  pub space : Bool
  pub hash : Bool
  pub zero_pad : Bool

-- `struct conv_spec`. The unions `width` and `precision` are the words that they hold.
pub record ConvSpec : Type 0 where
  pub flags : Flags
  pub width : ℕ
  pub precision : ℕ
  pub length : ConvLength
  pub spec : ConvSpecifier

-- `WIDTH_VAR`, `WIDTH_EMPTY`, `PREC_VAR` and `PREC_EMPTY`, and `WIDTH_MAX` and `PRECISION_MAX`. With
-- `-fshort-enums` (confmk/common.mk) the member `special` is the low byte of the word: -1 and -2 leave the
-- words 255 and 254 of the zeroed structure.
abbrev pub width_var : ℕ
width_var = 255

abbrev pub width_empty : ℕ
width_empty = 254

abbrev pub prec_var : ℕ
prec_var = 255

abbrev pub prec_empty : ℕ
prec_empty = 254

-- The member `special` of the word.
abbrev pub special : ℕ → ℕ
special w = w % 2 ^ 8

abbrev pub field_max : ℕ
field_max = 2 ^ 32 - 1 - 2

abbrev pub is_digit : ℕ → Bool
is_digit c = leb b'0' c && leb c b'9'

-- The loop of `vfprintf_atoi`, with `res` so far.
unfoldable pub atoi_from : List ℕ → ℕ → Outcome ℕ
atoi_from [] res = fault
atoi_from (c ∷ s) res =
    let rest = atoi_from s (10 *w res +w (c - b'0')) in if is_digit c then rest else ok res

unfoldable pub vfprintf_atoi : List ℕ → Outcome ℕ
vfprintf_atoi s = atoi_from s 0

abbrev pub no_flags : Flags
no_flags = record { minus = false; plus = false; space = false; hash = false; zero_pad = false }

-- The `switch` on a flag; `none` is its default.
abbrev pub set_flag : ℕ → Flags → Option Flags
set_flag c fl =
    if c == b'-'
    then some (record fl { minus = true })
    else if c == b'+'
    then some (record fl { plus = true })
    else if c == b' '
    then some (record fl { space = true })
    else if c == b'#'
    then some (record fl { hash = true })
    else if c == b'0'
    then some (record fl { zero_pad = true })
    else none

-- The loop over the flags. The null character is none of them, so it ends the loop too.
unfoldable pub parse_flags : List ℕ → Flags → Outcome (Flags × List ℕ)
parse_flags [] fl = fault
parse_flags (c ∷ s) fl = elim (set_flag c fl) [
  | none ↦ ok (fl, c ∷ s)
  | some fl' ↦ parse_flags s fl'
]

-- The loop that counts the digits at `begin`.
unfoldable pub count_digits : List ℕ → ℕ → Outcome ℕ
count_digits [] len = fault
count_digits (c ∷ s) len =
    let rest = count_digits s (len +w 1) in if is_digit c then rest else ok len

unfoldable pub specifier_of : ℕ → ConvSpecifier
specifier_of c =
    if c == b'd'
    then int
    else if c == b'i'
    then int
    else if c == b'o'
    then uoctal
    else if c == b'u'
    then udec
    else if c == b'x'
    then uhex
    else if c == b'X'
    then uhex_big
    else if c == b'c'
    then uchar
    else if c == b's'
    then str
    else if c == b'p'
    then ptr
    else if c == b'n'
    then written_out
    else if c == b'%'
    then percentage
    else invalid

unfoldable pub parse_specifier : List ℕ → Outcome (ConvSpecifier × List ℕ)
parse_specifier [] = fault
parse_specifier (c ∷ s) = ok (specifier_of c, s)

-- `h` or `hh`, `l` or `ll`: the cursor stands behind the first letter.
abbrev pub double : ℕ → ConvLength → ConvLength → List ℕ → Outcome (ConvLength × List ℕ)
double c twice once [] = fault
double c twice once (d ∷ s) = ok (if d == c then (twice, s) else (once, d ∷ s))

unfoldable pub parse_length : List ℕ → Outcome (ConvLength × List ℕ)
parse_length [] = fault
parse_length (c ∷ s) =
    if c == b'h'
    then double b'h' char short s
    else if c == b'l'
    then double b'l' llong long s
    else if c == b'j'
    then ok (intmax, s)
    else if c == b'z'
    then ok (sizet, s)
    else if c == b't'
    then ok (ptrdiff, s)
    else if c == b'L'
    then ok (ldouble, s)
    else ok (no_length, c ∷ s)

module _ (debug : Bool) where
  -- A number, or `missing` where no digit stands.
  unfoldable pub parse_number : ℕ → List ℕ → Outcome (ℕ × List ℕ)
  parse_number missing cursor = do
    len ← count_digits cursor 0
    check debug (leb len field_max)
    if len == 0
        then ok (missing, cursor)
        else (vfprintf_atoi cursor >>= λ n. ok (n, drop len cursor))

  unfoldable pub parse_width : List ℕ → Outcome (ℕ × List ℕ)
  parse_width [] = fault
  parse_width (c ∷ s) = if c == b'*' then ok (width_var, s) else parse_number width_empty (c ∷ s)

  -- The precision behind the period.
  abbrev pub parse_after_period : List ℕ → Outcome (ℕ × List ℕ)
  parse_after_period [] = fault
  parse_after_period (c ∷ s) = if c == b'*' then ok (prec_var, s) else parse_number 0 (c ∷ s)

  unfoldable pub parse_precision : List ℕ → Outcome (ℕ × List ℕ)
  parse_precision [] = fault
  parse_precision (c ∷ s) = if c == b'.' then parse_after_period s else ok (prec_empty, c ∷ s)

  -- `parse_conv_spec` behind the `%`: the specification, and the memory from the cursor on, which
  -- `spec_len` gives the distance to.
  unfoldable pub parse_conv_spec : List ℕ → Outcome (ConvSpec × List ℕ)
  parse_conv_spec format = do
    (flags, s₁) ← parse_flags format no_flags
    (width, s₂) ← parse_width s₁
    (precision, s₃) ← parse_precision s₂
    (length, s₄) ← parse_length s₃
    (spec, s₅) ← parse_specifier s₄
    ok (
      record { flags = flags; width = width; precision = precision; length = length; spec = spec },
      s₅,
    )
