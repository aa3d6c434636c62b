-- ===== src/Printf/Tests.antt =====
-- The formatted output of kernel/lib/cstd/stdio/vfprintf.c at concrete formats, most of them from
-- kernel/lib/cstd/stdio/vfprintf_tests.c.
use Prim.Native.Char.{code}
use Prim.Native.String.{String}
use yaeos.Prelude.{ℕ, ◌-◌, ◌^◌, ◌≡◌, inl, inr, refl, arith, Bool, true}
use yaeos.Prelude.{List, [], ◌∷◌, ◌++◌, length, ℤ, pos, Outcome, ok, panic}
use yaeos.Printf.Spec.{
  ConvSpec, int, percentage, no_length, no_flags, width_empty, prec_empty, parse_conv_spec,
}
use yaeos.Printf.Args.{Va, Argument, number, word}
use yaeos.Printf.Convert.{digits_loop, dec_digit, length_for_intnumbase}
use yaeos.Printf.Print.{kvfprintf, kvfprintf_loop}
use yaeos.Printf.DigitCount.{length_for_intnumbase-eq-length}
use yaeos.Printf.Sink.{Takes}
use yaeos.Printf.Numeral.{numeral, Numeral, one, more, lower_digits}
use yaeos.Printf.Passed.{negative}
use yaeos.Printf.Shown.{Shown, decimal}
use yaeos.Printf.Format.{IsPlain, nil, cons, at_percent}
use yaeos.Printf.Render.{Renders, end, plain, percent, field, kvfprintf-Renders}
use yaeos.Printf.Ends.{kvfprintf-rounds}
use yaeos.Printf.Notation.{CanBeWritten}
use yaeos.Printf.RoundTrip.{parse_conv_spec-written}

-- The bytes of an ASCII text.
abbrev codes : String → List ℕ
codes String.[] = []
codes (String.◌∷◌ c s) = code c ∷ codes s

-- A callback that keeps all that it is given.
abbrev keep : List ℕ → List ℕ → ℤ × List ℕ
keep out text = (pos (length text), out ++ text)

keep-Takes : Takes keep (λ out. out)
keep-Takes = record { counts = λ st text. refl; shows = λ st text. refl }

abbrev printf : Bool → String → List Va → Outcome (ℤ × List ℕ)
printf debug format args = kvfprintf debug keep (codes format ++ 0 ∷ []) args []

-- The specification `%05d` and the argument 42.
abbrev zeros_then_digits : ConvSpec
zeros_then_digits = record {
  flags = record no_flags { zero_pad = true };
  width = 5;
  precision = prec_empty;
  length = no_length;
  spec = int;
}

forty_two-Numeral : Numeral 10 lower_digits 42 (codes "42")
forty_two-Numeral = more 4 2 (omega arith) (omega arith) (one 4 (omega arith))

length_for_intnumbase-eq-length_example :
    length_for_intnumbase 1000 10 20 ≡ length (digits_loop 10 dec_digit 20 1000 [])
length_for_intnumbase-eq-length_example =
    length_for_intnumbase-eq-length 10 19 1000 dec_digit (omega arith) (omega arith) (omega arith)

zeros-CanBeWritten : CanBeWritten zeros_then_digits
zeros-CanBeWritten = record {
  exists = λ e. cc;
  wide = omega arith;
  width_fits = omega arith;
  precision_fits = omega arith;
}

parse_conv_spec-written_example :
    parse_conv_spec true (codes "05d!") ≡ ok (zeros_then_digits, codes "!")
unfolding numeral
parse_conv_spec-written_example =
    parse_conv_spec-written true zeros_then_digits (codes "!") zeros-CanBeWritten

kvfprintf-rounds_example :
    kvfprintf_loop true keep panic 100 (codes "100%%" ++ 0 ∷ []) [] 0 []
    ≡ kvfprintf true keep (codes "100%%" ++ 0 ∷ []) [] []
kvfprintf-rounds_example =
    kvfprintf-rounds true keep panic (codes "100%%" ++ 0 ∷ []) [] 100 [] (omega arith) (omega arith)

-- "n = %05d%%" with -42.
abbrev format : List ℕ
format = codes "n = %05d%%" ++ 0 ∷ []

abbrev percent_sign : ConvSpec
percent_sign = record {
  flags = no_flags;
  width = width_empty;
  precision = prec_empty;
  length = no_length;
  spec = percentage;
}

n_is-IsPlain : IsPlain (codes "n = ")
n_is-IsPlain = cons b'n' (omega arith) (omega arith) (
    cons b' ' (omega arith) (omega arith)
      (cons b'=' (omega arith) (omega arith) (cons b' ' (omega arith) (omega arith) nil)))

percent-CanBeWritten : CanBeWritten percent_sign
percent-CanBeWritten = record {
  exists = λ e. cc;
  wide = omega arith;
  width_fits = omega arith;
  precision_fits = omega arith;
}

abbrev minus_forty_two : Argument
minus_forty_two = record (number 42) { negative = true }

minus_forty_two-Shown : Shown zeros_then_digits minus_forty_two (codes "42")
minus_forty_two-Shown = decimal (inl refl) (omega arith) (omega arith) forty_two-Numeral

format-Renders : Renders format (word (2 ^ 32 - 42) ∷ []) (codes "n = -0042%")
unfolding numeral
format-Renders = plain n_is-IsPlain (at_percent _) (
    field zeros_then_digits (word (2 ^ 32 - 42)) minus_forty_two zeros-CanBeWritten refl
      (negative no_length 42 (λ e. cc) (omega arith) (omega arith) (omega arith))
      minus_forty_two-Shown (inr (refl, refl)) (omega arith) (omega arith)
      (percent percent_sign percent-CanBeWritten refl (end [] [])))

kvfprintf-Renders_example :
    (st' : List ℕ) × (kvfprintf true keep format (word (2 ^ 32 - 42) ∷ []) [] ≡ ok (pos 10, st'))
    × (st' ≡ codes "n = -0042%")
kvfprintf-Renders_example =
    kvfprintf-Renders true keep (λ out. out) keep-Takes format (word (2 ^ 32 - 42) ∷ [])
      (codes "n = -0042%") [] format-Renders (omega arith)
