-- ===== src/Printf/Print.antt =====
-- `put_flags`, `print_conv_spec` and `kvfprintf` of kernel/lib/cstd/stdio/vfprintf.c.
use yaeos.Prelude.{
  unfinished, ℕ, zero, suc, ◌+◌, Bool, true, false, not, ltb, leb, ◌==◌, ◌&&◌, ◌||◌,
}
use yaeos.Prelude.{ℤ, pos, Option, none, some, List, [], ◌∷◌, length, take, drop, if◌then◌else◌}
use yaeos.Prelude.{Outcome, ok, fault, ◌>>=◌, ◌>>◌, check}
use yaeos.Word.{◌-w◌}
use yaeos.Strings.{kstrlen, kstrchr}
use yaeos.Printf.Spec.{ConvSpec, ConvSpecifier, percentage, width_empty, special, parse_conv_spec}
use yaeos.Printf.Args.{Argument, Va, fetch_arg}
use yaeos.Printf.Convert.{Io, put, give_back, try_add, pad, as_int, rounds, int_max}
use yaeos.Printf.Convert.{print_of, length_of, prefix_of}

abbrev pub is_percentage : ConvSpecifier → Bool
is_percentage percentage = true
is_percentage _ = false

-- The length of the prefix; a missing one has none.
abbrev pub prefix_length : Option (List ℕ) → ℕ
prefix_length none = 0
prefix_length (some p) = length p

abbrev pub flag_present : ConvSpec → Argument → Bool
flag_present s arg = arg.negative || (s.flags.plus || s.flags.space)

module _ (debug : Bool) {S : Type 0} (f : S → List ℕ → ℤ × S) where
  unfoldable pub put_flags : ConvSpec → Argument → Io debug f
  put_flags s arg =
      if arg.negative
      then try_add debug f (put debug f (b'-' ∷ [])) 0 (give_back debug f)
      else if s.flags.plus
      then try_add debug f (put debug f (b'+' ∷ [])) 0 (give_back debug f)
      else if s.flags.space
      then try_add debug f (put debug f (b' ' ∷ [])) 0 (give_back debug f)
      else give_back debug f 0

  -- `if (prefix != NULL)` and its call.
  unfoldable pub put_prefix : Option (List ℕ) → ℕ → (ℕ → Io debug f) → Io debug f
  put_prefix none printed next = next printed
  put_prefix (some p) printed next = try_add debug f (put debug f p) printed next

  -- The prefix and the sign.
  abbrev pub lead : ConvSpec → Argument → Option (List ℕ) → ℕ → (ℕ → Io debug f) → Io debug f
  lead s arg prefix printed next =
      put_prefix prefix printed λ printed'. try_add debug f (put_flags s arg) printed' next

  -- What stands before the lead: with the flag `0` the lead itself and zeros, and else spaces.
  unfoldable pub justify_right :
      ConvSpec → Argument → Option (List ℕ) → ℕ → ℕ → (ℕ → Io debug f) → Io debug f
  justify_right s arg prefix width_to_fill printed next =
      let blanks = pad debug f b' ' width_to_fill printed next in
      let zeros =
        lead s arg prefix printed λ printed'. pad debug f b'0' width_to_fill printed' next in
      if not s.flags.minus && not (special s.width == width_empty)
      then (if s.flags.zero_pad then zeros else blanks)
      else next printed

  unfoldable pub lead_without_zero :
      ConvSpec → Argument → Option (List ℕ) → ℕ → (ℕ → Io debug f) → Io debug f
  lead_without_zero s arg prefix printed next =
      if not s.flags.zero_pad then lead s arg prefix printed next else next printed

  unfoldable pub justify_left : ConvSpec → ℕ → ℕ → (ℕ → Io debug f) → Io debug f
  justify_left s width_to_fill printed next =
      if s.flags.minus && not (special s.width == width_empty)
      then pad debug f b' ' width_to_fill printed next
      else next printed

  abbrev pub finish : ℕ → Io debug f
  finish printed st = do check debug (leb printed int_max); ok (as_int printed, st)

  -- `print_conv_spec` behind the call of `fetch_arg`.
  unfoldable pub print_field : ConvSpec → Argument → Io debug f
  print_field s arg st = do
    num_len ← length_of s.spec s arg
    let prefix = prefix_of s.spec s arg
    check debug (ltb s.width int_max)
    check debug (ltb num_len int_max)
    check debug (ltb (prefix_length prefix) int_max)
    let sign = if flag_present s arg then 1 else 0
    let width_to_fill = rounds (s.width -w num_len -w prefix_length prefix -w sign)
    justify_right s arg prefix width_to_fill 0
        (λ p₁. lead_without_zero s arg prefix p₁ λ p₂.
          try_add debug f (print_of debug f s.spec s arg) p₂
            λ p₃. justify_left s width_to_fill p₃ finish)
        st

  -- With the arguments that are left after it.
  unfoldable pub print_conv_spec : ConvSpec → List Va → S → Outcome ((ℤ × S) × List Va)
  print_conv_spec s args st =
      let field = (do
        (arg, rest) ← fetch_arg debug s args
        done ← print_field s arg st
        ok (done, rest)) in
      if is_percentage s.spec then ok (f st (b'%' ∷ []), args) else field

  -- The loop of `kvfprintf`, and what it comes to without rounds left: each round leaves less of the
  -- format, so that its length and one more are rounds enough.
  unfoldable pub kvfprintf_loop : Outcome (ℤ × S) → ℕ → List ℕ → List Va → ℕ → Io debug f
  kvfprintf_loop without_rounds zero format args printed st = without_rounds
  kvfprintf_loop without_rounds (suc fuel) [] args printed st = fault
  kvfprintf_loop without_rounds (suc fuel) (c ∷ format) args printed st =
      let conversion = (do
        (s, rest) ← parse_conv_spec debug format
        ((rc, st'), args') ← print_conv_spec s args st
        try_add debug f (λ st''. ok (rc, st'')) printed
            (λ printed'. kvfprintf_loop without_rounds fuel rest args' printed') st') in
      let plain = (do
        cspec ← kstrchr (c ∷ format) (pos b'%')
        toprint ← elim cspec [ some n ↦ ok n | none ↦ kstrlen (c ∷ format) ]
        try_add debug f (put debug f (take toprint (c ∷ format))) printed
            (λ printed'.
              kvfprintf_loop without_rounds fuel (drop toprint (c ∷ format)) args printed')
            st) in
      if c == 0 then finish printed st else if c == b'%' then conversion else plain

  unfoldable pub kvfprintf : List ℕ → List Va → Io debug f
  kvfprintf format args = kvfprintf_loop unfinished (length format + 1) format args 0
