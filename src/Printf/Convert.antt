-- ===== src/Printf/Convert.antt =====
-- The table of conversions of kernel/lib/cstd/stdio/vfprintf.c: for each specifier what it prints,
-- the length of that, and the prefix. The callback `fprintf_fn` is a parameter: it takes the
-- characters, changes its own state and returns a count, or a negative number for an error.
use yaeos.Prelude.{
  ℕ, zero, suc, ◌+◌, ◌-◌, ◌*◌, ◌/◌, ◌%◌, ◌^◌, Bool, true, false, not, ltb, leb, ◌==◌, ◌&&◌,
}
use yaeos.Prelude.{ℤ, pos, negsuc, Option, none, some, List, [], ◌∷◌, length, take, if◌then◌else◌}
use yaeos.Prelude.{Outcome, ok, fault, ◌>>=◌, ◌>>◌, check}
use yaeos.Word.{◌+w◌, ◌-w◌}
use yaeos.Strings.{kstrlen}
use yaeos.Printf.Spec.{ConvSpec, ConvSpecifier, prec_empty, special}
use yaeos.Printf.Spec.{
  int, uoctal, udec, uhex, uhex_big, uchar, str, ptr, written_out, percentage, invalid,
}
use yaeos.Printf.Args.{Argument}

-- A word as the `int` or `intptr_t` of the same bits; `rounds` is how often `for (i = 0; i < w; i++)`
-- runs for such a `w`.
abbrev pub as_int : ℕ → ℤ
as_int n = if ltb n (2 ^ 31) then pos n else negsuc (2 ^ 32 - 1 - n)

abbrev pub rounds : ℕ → ℕ
rounds w = if ltb w (2 ^ 31) then w else 0

abbrev pub int_max : ℕ
int_max = 2 ^ 31 - 1

-- The inner loop of `length_for_intnumbase`.
unfoldable pub power_loop : ℕ → ℕ → ℕ
power_loop base zero = 1
power_loop base (suc j) = (power_loop base j * base) % 2 ^ 64

-- The outer loop, with `i` rounds left.
unfoldable pub length_loop : ℕ → ℕ → ℕ → ℕ
length_loop num base zero = 1
length_loop num base (suc i) =
    let shorter = length_loop num base i in if leb (power_loop base i) num then suc i else shorter

unfoldable pub length_for_intnumbase : ℕ → ℕ → ℕ → ℕ
length_for_intnumbase num base max_num_digits = length_loop num base max_num_digits

-- The loops that fill the buffer from its end, `room` characters of which are left.
unfoldable pub digits_loop : ℕ → (ℕ → ℕ) → ℕ → ℕ → List ℕ → List ℕ
digits_loop base digit zero n buffer = buffer
digits_loop base digit (suc room) n buffer =
    let written = digit (n % base) ∷ buffer in
    let more = digits_loop base digit room (n / base) written in
    if n / base == 0 then written else more

abbrev pub dec_digit : ℕ → ℕ
dec_digit n = n + b'0'

-- `offset` is 'a' or 'A'.
abbrev pub hex_digit : ℕ → ℕ → ℕ
hex_digit offset n = if ltb n 10 then n + b'0' else n - 10 + offset

-- The part that `oct_length` and `dec_length` share.
unfoldable pub padded_length : ℕ → ℕ → ConvSpec → Argument → ℕ
padded_length base max s a =
    let length = length_for_intnumbase a.ud base max in
    if s.precision == 0 && a.ud == 0
    then 0
    else if not (special s.precision == prec_empty) && leb length s.precision
    then s.precision
    else length

unfoldable pub oct_length : ConvSpec → Argument → Outcome ℕ
oct_length s a = ok (padded_length 8 22 s a)

unfoldable pub dec_length : ConvSpec → Argument → Outcome ℕ
dec_length s a = ok (padded_length 10 20 s a)

abbrev pub is_hex : ConvSpecifier → Bool
is_hex uhex = true
is_hex uhex_big = true
is_hex _ = false

abbrev pub is_ptr : ConvSpecifier → Bool
is_ptr ptr = true
is_ptr _ = false

abbrev pub hex_offset : ConvSpecifier → ℕ
hex_offset uhex = b'a'
hex_offset _ = b'A'

-- A zero of CS_UHEX or CS_UHEX_BIG with a precision of zero.
abbrev pub no_hex : ConvSpec → Argument → Bool
no_hex s a = is_hex s.spec && (s.precision == 0 && a.ud == 0)

unfoldable pub hex_length : ConvSpec → Argument → Outcome ℕ
hex_length s a = ok (if no_hex s a then 0 else length_for_intnumbase a.ud 16 16)

unfoldable pub hex_prefix : ConvSpec → Argument → List ℕ
hex_prefix s a =
    let zx = b'0' ∷ b'x' ∷ [] in if is_ptr s.spec then zx else if s.flags.hash then zx else []

unfoldable pub str_length : ConvSpec → Argument → Outcome ℕ
str_length s a = do
  len ← kstrlen a.str
  ok (if not (special s.precision == prec_empty) && ltb s.precision len then s.precision else len)

unfoldable pub char_length : ConvSpec → Argument → Outcome ℕ
char_length s a = ok 1

module _ (debug : Bool) {S : Type 0} (f : S → List ℕ → ℤ × S) where
  -- A call that may print: the count or the error, and the callback's state.
  abbrev pub Io : Type 0
  Io = S → Outcome (ℤ × S)

  abbrev pub put : List ℕ → Io
  put text st = ok (f st text)

  abbrev pub give_back : ℕ → Io
  give_back n st = ok (as_int n, st)

  -- `int rc = call; if (rc < 0) return (rc); printed += (unsigned)rc;` and what follows.
  unfoldable pub try_add : Io → ℕ → (ℕ → Io) → Io
  try_add call printed next st = call st >>= λ (rc, st'). elim rc [
    | pos n ↦ next (printed +w n) st'
    | negsuc e ↦ ok (negsuc e, st')
  ]

  -- The same where the function returns `rc + (int)printed`.
  abbrev pub last_add : Io → ℕ → Io
  last_add call printed =
      try_add call printed λ total st. do check debug (leb printed int_max); ok (as_int total, st)

  -- The loops that print one character some times.
  unfoldable pub pad : ℕ → ℕ → ℕ → (ℕ → Io) → Io
  pad c zero printed next = next printed
  pad c (suc left) printed next =
      try_add (put (c ∷ [])) printed λ printed'. pad c left printed' next

  -- The part that `oct_print` and `dec_print` share, on a buffer of `size` characters.
  unfoldable pub padded_print : ℕ → ℕ → ConvSpec → Argument → Io
  padded_print base size s a =
      let buffer = digits_loop base dec_digit size a.ud [] in
      let padding = rounds (s.precision -w length buffer) in
      if s.precision == 0 && a.ud == 0
      then give_back 0
      else pad b'0' (if special s.precision == prec_empty then 0 else padding) 0
          λ printed. last_add (put buffer) printed

  unfoldable pub oct_print : ConvSpec → Argument → Io
  oct_print s a = padded_print 8 22 s a

  unfoldable pub dec_print : ConvSpec → Argument → Io
  dec_print s a = padded_print 10 20 s a

  unfoldable pub hex_print : ConvSpec → Argument → Io
  hex_print s a =
      if no_hex s a
      then give_back 0
      else put (digits_loop 16 (hex_digit (hex_offset s.spec)) 16 a.ud [])

  unfoldable pub str_print : ConvSpec → Argument → Io
  str_print s a st = str_length s a >>= λ len. put (take len a.str) st

  unfoldable pub char_print : ConvSpec → Argument → Io
  char_print s a = put ((a.ud % 2 ^ 8) ∷ [])

  -- `cs_funcs_table`: the entries end with that of CS_PTR.
  unfoldable pub print_of : ConvSpecifier → ConvSpec → Argument → Io
  print_of int = dec_print
  print_of udec = dec_print
  print_of ptr = hex_print
  print_of uhex = hex_print
  print_of uhex_big = hex_print
  print_of str = str_print
  print_of uchar = char_print
  print_of uoctal = oct_print
  print_of written_out = λ s a st. fault
  print_of percentage = λ s a st. fault
  print_of invalid = λ s a st. fault

unfoldable pub length_of : ConvSpecifier → ConvSpec → Argument → Outcome ℕ
length_of int = dec_length
length_of udec = dec_length
length_of ptr = hex_length
length_of uhex = hex_length
length_of uhex_big = hex_length
length_of str = str_length
length_of uchar = char_length
length_of uoctal = oct_length
length_of written_out = λ s a. fault
length_of percentage = λ s a. fault
length_of invalid = λ s a. fault

-- The prefix, where the table has a function for it.
unfoldable pub prefix_of : ConvSpecifier → ConvSpec → Argument → Option (List ℕ)
prefix_of ptr = λ s a. some (hex_prefix s a)
prefix_of uhex = λ s a. some (hex_prefix s a)
prefix_of uhex_big = λ s a. some (hex_prefix s a)
prefix_of _ = λ s a. none
