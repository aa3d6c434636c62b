-- ===== src/Printf/Render.antt =====
-- `kvfprintf` of kernel/lib/cstd/stdio/vfprintf.c implements a specification of formats.
use yaeos.Prelude.{unfinished, ℕ, suc, zero, ◌+◌, ◌^◌, ◌<◌, ◌≡◌, arith}
use yaeos.Prelude.{Bool, true, false, List, [], ◌∷◌, ◌++◌, length, ℤ, pos, ok, length-append}
use yaeos.Printf.Spec.{ConvSpec}
use yaeos.Printf.Args.{Argument, Va}
use yaeos.Printf.Print.{is_percentage, kvfprintf_loop, kvfprintf}
use yaeos.Printf.Sink.{Takes, Prints}
use yaeos.Printf.Passed.{Passed}
use yaeos.Printf.Notation.{written, CanBeWritten}
use yaeos.Printf.RoundTrip.{parse_conv_spec-written}
use yaeos.Printf.Shown.{Shown}
use yaeos.Printf.Layout.{ZeroPadsLeft, field_text}
use yaeos.Printf.Format.{IsPlain, Stops, end_round, plain_round, Field-round, Field-of, percent_of}
use yaeos.Printf.Shorter.{parse_conv_spec-shorter}

-- The text that a format stands for with some arguments: plain characters, a percent sign, and the fields of
-- conversions in their notation.
pub data Renders : List ℕ → List Va → List ℕ → Type 0 where
  end : (after : List ℕ) (args : List Va) → Renders (0 ∷ after) args []
  plain :
      {c : ℕ} {s rest : List ℕ} {args : List Va} {tail : List ℕ}
      → IsPlain (c ∷ s)
      → Stops rest
      → Renders rest args tail
      → Renders (c ∷ s ++ rest) args (c ∷ s ++ tail)
  percent :
      {rest : List ℕ} {args : List Va} {tail : List ℕ} (s : ConvSpec)
      → CanBeWritten s
      → is_percentage s.spec ≡ true
      → Renders rest args tail
      → Renders (b'%' ∷ written s rest) args (b'%' ∷ tail)
  field :
      {rest : List ℕ} {args : List Va} {shows tail : List ℕ} (s : ConvSpec) (va : Va)
      (arg : Argument)
      → CanBeWritten s
      → is_percentage s.spec ≡ false
      → Passed s.spec s.length va arg
      → Shown s arg shows
      → ZeroPadsLeft s
      → s.width < 2 ^ 30
      → length shows < 2 ^ 30
      → Renders rest args tail
      → Renders (b'%' ∷ written s rest) (va ∷ args) (field_text s arg shows ++ tail)

module _ {S : Type 0} (debug : Bool) (f : S → List ℕ → ℤ × S) (out : S → List ℕ)
    (t : Takes f out) where
  render_loop :
      (format : List ℕ) (args : List Va) (text : List ℕ)
      → Renders format args text
      → (fuel printed : ℕ) → length format < fuel
      → printed + length text < 2 ^ 31
      → Prints out
          (kvfprintf_loop debug f unfinished fuel format args printed)
          (printed + length text)
          text
  render_loop format args text r zero printed h fits = absurd (omega arith)
  render_loop _ _ _ (end after args) (suc fuel) printed h fits =
      let same : printed + 0 ≡ printed = omega arith in
      rw same (end_round debug f out t after args fuel printed (omega arith))
  render_loop _ _ _ (plain {c = c} {s = s} {rest = rest} {args = args} {tail = tail} p stop r)
        (suc fuel) printed h fits =
      let sum = length-append (c ∷ s) tail in
      let more = length-append (c ∷ s) rest in
      let total : printed + length (c ∷ s) + length tail ≡ printed + length (c ∷ s ++ tail) =
        omega arith in
      plain_round debug f out t c s rest args fuel printed _ tail p stop (omega arith) (
        rw total at (
          render_loop rest args tail r fuel (printed + length (c ∷ s)) (omega arith) (omega arith)))
  render_loop _ _ _ (percent {rest = rest} {args = args} {tail = tail} s can is r) (suc fuel)
        printed h fits =
      let format = written s rest in
      let parsed = parse_conv_spec-written debug s rest can in
      let less = parse_conv_spec-shorter debug format s rest parsed in
      let total : printed + 1 + length tail ≡ printed + suc (length tail) = omega arith in
      Field-round debug f out t format rest (b'%' ∷ []) s args args fuel printed _ tail parsed
        (percent_of debug f out t s args is) (omega arith)
        (rw total at (render_loop rest args tail r fuel (printed + 1) (omega arith) (omega arith)))
  render_loop _ _ _
        (field {rest = rest} {args = args} {shows = shows} {tail = tail} s va arg can is given shown
          z w few r)
        (suc fuel) printed h fits =
      let format = written s rest in
      let parsed = parse_conv_spec-written debug s rest can in
      let less = parse_conv_spec-shorter debug format s rest parsed in
      let text = field_text s arg shows in
      let sum = length-append text tail in
      let total : printed + length text + length tail ≡ printed + length (text ++ tail) =
        omega arith in
      Field-round debug f out t format rest text s (va ∷ args) args fuel printed _ tail parsed
        (Field-of debug f out t s va args arg shows is given shown z w few) (omega arith)
        (rw total at
          (render_loop rest args tail r fuel (printed + length text) (omega arith) (omega arith)))

  -- With a callback that takes all that it is given: for a format that stands, with the arguments,
  -- for a text shorter than 2 ^ 31, `kvfprintf` prints this text and returns its length.
  pub kvfprintf-Renders :
      (format : List ℕ) (args : List Va) (text : List ℕ) (st : S)
      → Renders format args text
      → length text < 2 ^ 31
      → (st' : S) × (kvfprintf debug f format args st ≡ ok (pos (length text), st'))
        × (out st' ≡ out st ++ text)
  unfolding kvfprintf
  kvfprintf-Renders format args text st r h =
      let same : 0 + length text ≡ length text = omega arith in
      rw same at (render_loop format args text r (length format + 1) 0 (omega arith) (omega arith))
        st
