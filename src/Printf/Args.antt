-- ===== src/Printf/Args.antt =====
-- The variable arguments of kernel/lib/cstd/stdio/vfprintf.c. `va_list` is the list of the arguments
-- that are left; to fetch one by a type of another size than it was passed by is a fault.
use yaeos.Prelude.{ℕ, ◌-◌, ◌%◌, ◌^◌, Bool, true, false, ltb, ◌==◌, if◌then◌else◌}
use yaeos.Prelude.{List, [], ◌∷◌, Outcome, ok, fault, ◌>>=◌, ◌>>◌, check}
use yaeos.Printf.Spec.{ConvSpec, ConvLength, ConvSpecifier}
use yaeos.Printf.Spec.{char, short, long, llong, intmax, sizet, ptrdiff, ldouble, no_length}
use yaeos.Printf.Spec.{
  int, uoctal, udec, uhex, uhex_big, uchar, str, ptr, written_out, percentage, invalid,
}

-- An argument as it is passed on i686: an `int`, `long` or `size_t` is a word of 32 bits, a
-- `long long` or `intmax_t` one of 64, and a pointer to characters the memory from it on.
pub data Va : Type 0 where
  word : ℕ → Va
  double_word : ℕ → Va
  chars : List ℕ → Va

-- `struct argument`: the union `val` by what a specifier reads of it, the 64 bits or the pointer.
pub record Argument : Type 0 where
  pub ud : ℕ
  pub str : List ℕ
  pub negative : Bool

abbrev pub number : ℕ → Argument
number n = record { ud = n; str = []; negative = false }

abbrev pub no_argument : Argument
no_argument = number 0

-- `va_arg`
abbrev pub va_word : List Va → Outcome (ℕ × List Va)
va_word (word n ∷ args) = ok (n % 2 ^ 32, args)
va_word (double_word n ∷ args) = fault
va_word (chars s ∷ args) = fault
va_word [] = fault

abbrev pub va_double_word : List Va → Outcome (ℕ × List Va)
va_double_word (double_word n ∷ args) = ok (n % 2 ^ 64, args)
va_double_word (word n ∷ args) = fault
va_double_word (chars s ∷ args) = fault
va_double_word [] = fault

abbrev pub va_chars : List Va → Outcome (List ℕ × List Va)
va_chars (chars s ∷ args) = ok (s, args)
va_chars (word n ∷ args) = fault
va_chars (double_word n ∷ args) = fault
va_chars [] = fault

-- `CASE_BODY` for a type of `w` bits: the sign, and the magnitude in `val`. The negation of the
-- least 64-bit number overflows, which C leaves undefined.
unfoldable pub case_body : ℕ → ℕ → Outcome Argument
case_body w n =
    let v = n % 2 ^ w in
    if ltb v (2 ^ (w - 1))
    then ok (number v)
    else if v == 2 ^ 63
    then fault
    else ok (record (number (2 ^ w - v)) { negative = true })

-- The cases of CS_INT.
unfoldable pub fetch_int : Bool → ConvLength → List Va → Outcome (Argument × List Va)
fetch_int debug char args = do (n, rest) ← va_word args; a ← case_body 8 n; ok (a, rest)
fetch_int debug short args = do (n, rest) ← va_word args; a ← case_body 16 n; ok (a, rest)
fetch_int debug long args = do (n, rest) ← va_word args; a ← case_body 32 n; ok (a, rest)
fetch_int debug llong args = do (n, rest) ← va_double_word args; a ← case_body 64 n; ok (a, rest)
fetch_int debug intmax args = do (n, rest) ← va_double_word args; a ← case_body 64 n; ok (a, rest)
fetch_int debug no_length args = do (n, rest) ← va_word args; a ← case_body 32 n; ok (a, rest)
fetch_int debug sizet args = do (n, rest) ← va_word args; a ← case_body 32 n; ok (a, rest)
fetch_int debug ptrdiff args = do (n, rest) ← va_word args; a ← case_body 32 n; ok (a, rest)
fetch_int debug ldouble args = check debug false >> ok (no_argument, args)

-- The cases of CS_UHEX, CS_UHEX_BIG, CS_UOCTAL and CS_UDEC.
unfoldable pub fetch_unsigned : Bool → ConvLength → List Va → Outcome (Argument × List Va)
fetch_unsigned debug char args = do (n, rest) ← va_word args; ok (number (n % 2 ^ 8), rest)
fetch_unsigned debug short args = do (n, rest) ← va_word args; ok (number (n % 2 ^ 16), rest)
fetch_unsigned debug long args = do (n, rest) ← va_word args; ok (number n, rest)
fetch_unsigned debug llong args = do (n, rest) ← va_double_word args; ok (number n, rest)
fetch_unsigned debug intmax args = do (n, rest) ← va_double_word args; ok (number n, rest)
fetch_unsigned debug sizet args = do (n, rest) ← va_word args; ok (number n, rest)
fetch_unsigned debug no_length args = do (n, rest) ← va_word args; ok (number n, rest)
fetch_unsigned debug ptrdiff args = do (n, rest) ← va_word args; ok (number n, rest)
fetch_unsigned debug ldouble args = check debug false >> ok (no_argument, args)

-- The `switch` of `fetch_arg`, by the specifier.
unfoldable pub fetch_by : Bool → ConvSpecifier → ConvLength → List Va → Outcome (Argument × List Va)
fetch_by debug int l args = fetch_int debug l args
fetch_by debug uhex l args = fetch_unsigned debug l args
fetch_by debug uhex_big l args = fetch_unsigned debug l args
fetch_by debug uoctal l args = fetch_unsigned debug l args
fetch_by debug udec l args = fetch_unsigned debug l args
fetch_by debug ptr l args = do (n, rest) ← va_word args; ok (number n, rest)
fetch_by debug str l args = do (s, rest) ← va_chars args; ok (record no_argument { str = s }, rest)
fetch_by debug uchar l args = do (n, rest) ← va_word args; ok (number n, rest)
fetch_by debug written_out l args = check debug false >> ok (no_argument, args)
fetch_by debug percentage l args = check debug false >> ok (no_argument, args)
fetch_by debug invalid l args = check debug false >> ok (no_argument, args)

unfoldable pub fetch_arg : Bool → ConvSpec → List Va → Outcome (Argument × List Va)
fetch_arg debug s args = fetch_by debug s.spec s.length args
