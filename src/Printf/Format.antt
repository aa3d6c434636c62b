-- ===== src/Printf/Format.antt =====
-- What `kvfprintf` of kernel/lib/cstd/stdio/vfprintf.c prints of a whole format.
use yaeos.Prelude.{unfinished, ℕ, suc, ◌+◌, ◌^◌, ◌<◌, ◌≡◌, ◌≢◌, refl, ap, ◌∙◌, arith}
use yaeos.Prelude.{Bool, true, false, List, [], ◌∷◌, ◌++◌, length, take, drop, ==_ne}
use yaeos.Prelude.{
  ℤ, pos, none, some, Outcome, ok, ◌>>=◌, append_assoc, take-append, take-all, drop-append,
}
use yaeos.Word.{◌+w◌}
use yaeos.Strings.{kstrlen, kstrchr, strchr_from, char_value, same_int}
use yaeos.Strings.Length.{IsText, kstrlen_lem}
use yaeos.Printf.Spec.{ConvSpec, parse_conv_spec}
use yaeos.Printf.Args.{Argument, Va, fetch_arg}
use yaeos.Printf.Convert.{put, try_add}
use yaeos.Printf.Print.{is_percentage, print_conv_spec, kvfprintf_loop}
use yaeos.Printf.Sink.{Takes, Prints, Prints-put, Prints-try_add, Prints-finish}
use yaeos.Printf.Passed.{Passed, fetch_by-Passed}
use yaeos.Printf.Shown.{Shown}
use yaeos.Printf.Layout.{ZeroPadsLeft, field_text}
use yaeos.Printf.Field.{print_field_lem}

-- Characters that stand for themselves.
pub data IsPlain : List ℕ → Type 0 where
  nil : IsPlain []
  cons : {s : List ℕ} (c : ℕ) → c ≢ 0 → c ≢ b'%' → IsPlain s → IsPlain (c ∷ s)

-- Where plain characters end.
pub data Stops : List ℕ → Type 0 where
  at_percent : (s : List ℕ) → Stops (b'%' ∷ s)
  at_end : (s : List ℕ) → Stops (0 ∷ s)

pub char_value-ne-percent : (c : ℕ) → c ≢ b'%' → same_int (char_value c) (pos b'%') ≡ false
char_value-ne-percent c h = ground arith

strchr_percent :
    {t : List ℕ}
    → IsPlain t
    → (s : List ℕ) (i m : ℕ) → m ≡ i + length t
    → strchr_from (t ++ b'%' ∷ s) (pos b'%') i ≡ ok (some m)
unfolding strchr_from
strchr_percent nil s i m e = let same : i ≡ m = omega arith in ap (λ n. ok (some n)) same
strchr_percent (cons c ne other p) s i m e =
    rw (==_ne c 0 ne, char_value-ne-percent c other) (strchr_percent p s (suc i) m (omega arith))

strchr_end :
    {t : List ℕ}
    → IsPlain t
    → (s : List ℕ) (i : ℕ) → strchr_from (t ++ 0 ∷ s) (pos b'%') i ≡ ok none
unfolding strchr_from
strchr_end nil s i = refl
strchr_end (cons c ne other p) s i =
    rw (==_ne c 0 ne, char_value-ne-percent c other) (strchr_end p s (suc i))

IsPlain-IsText : {t : List ℕ} → IsPlain t → IsText t
IsPlain-IsText nil = IsText.nil
IsPlain-IsText (cons c ne other p) = IsText.cons c ne (IsPlain-IsText p)

-- The search for the next `%`, or else for the end, from plain characters.
toprint_lem :
    {R : Type 0} {t s : List ℕ}
    → IsPlain t
    → Stops s
    → length t < 2 ^ 32
    → (next : ℕ → Outcome R)
    → (kstrchr (t ++ s) (pos b'%') >>= λ cspec.
        elim cspec [ some n ↦ ok n | none ↦ kstrlen (t ++ s) ] >>= next)
      ≡ next (length t)
unfolding kstrchr
toprint_lem {t = t} p (at_percent s) h next =
    rw (strchr_percent p s 0 (length t) (omega arith)) refl
toprint_lem {t = t} p (at_end s) h next =
    rw (strchr_end p s 0, kstrlen_lem t (IsPlain-IsText p) s h) refl

module _ {S : Type 0} (debug : Bool) (f : S → List ℕ → ℤ × S) (out : S → List ℕ)
    (t : Takes f out) where
  pub end_round :
      (after : List ℕ) (args : List Va) (fuel printed : ℕ)
      → printed < 2 ^ 31
      → Prints out
          (kvfprintf_loop debug f unfinished (suc fuel) (0 ∷ after) args printed)
          printed
          []
  unfolding kvfprintf_loop
  end_round after args fuel printed h = Prints-finish debug f out t printed h

  pub plain_round :
      (c : ℕ) (s rest : List ℕ) (args : List Va) (fuel printed total : ℕ) (tail : List ℕ)
      → IsPlain (c ∷ s)
      → Stops rest
      → printed + length (c ∷ s) < 2 ^ 31
      → Prints out
          (kvfprintf_loop debug f unfinished fuel rest args (printed + length (c ∷ s)))
          total
          tail
      → Prints out
          (kvfprintf_loop debug f unfinished (suc fuel) (c ∷ s ++ rest) args printed)
          total
          (c ∷ s ++ tail)
  unfolding kvfprintf_loop
  plain_round _ s rest args fuel printed total tail (cons c ne other p) stop h after =
      let plain : IsPlain (c ∷ s) = cons c ne other p in
      let all : take (length (c ∷ s)) (c ∷ s ++ rest) ≡ c ∷ s =
        take-append (length (c ∷ s)) (c ∷ s) rest (omega arith)
        ∙ take-all (length (c ∷ s)) (c ∷ s) (omega arith) in
      let sum : printed +w length (c ∷ s) ≡ printed + length (c ∷ s) = omega arith in
      let found = λ (st : S). toprint_lem plain stop (omega arith) (λ toprint.
        try_add debug f (put debug f (take toprint (c ∷ s ++ rest))) printed
          (λ printed'.
            kvfprintf_loop debug f unfinished fuel (drop toprint (c ∷ s ++ rest)) args printed')
          st) in
      λ st.
        rw (==_ne c 0 ne, ==_ne c b'%' other, found st, all, drop-append (c ∷ s) rest)
          (Prints-try_add debug f out t (put debug f (c ∷ s)) printed (length (c ∷ s))
            (λ printed'. kvfprintf_loop debug f unfinished fuel rest args printed') total (c ∷ s)
            tail (Prints-put debug f out t (c ∷ s)) (rw sum after) st)

  -- One conversion prints the text, counts it and leaves these arguments.
  pub Field : ConvSpec → List Va → List ℕ → List Va → Type 0
  Field s args text args' =
      (st : S)
      → (st' : S) × (print_conv_spec debug f s args st ≡ ok ((pos (length text), st'), args'))
        × (out st' ≡ out st ++ text)

  pub Field-round :
      (format rest text : List ℕ) (s : ConvSpec) (args args' : List Va) (fuel printed total : ℕ)
      (tail : List ℕ)
      → parse_conv_spec debug format ≡ ok (s, rest)
      → Field s args text args'
      → printed + length text < 2 ^ 31
      → Prints out
          (kvfprintf_loop debug f unfinished fuel rest args' (printed + length text))
          total
          tail
      → Prints out
          (kvfprintf_loop debug f unfinished (suc fuel) (b'%' ∷ format) args printed)
          total
          (text ++ tail)
  unfolding kvfprintf_loop Field try_add
  Field-round format rest text s args args' fuel printed total tail parsed field h after st =
      let (st₁, e₁, o₁) = field st in
      let (st₂, e₂, o₂) = after st₁ in
      let sum : printed +w length text ≡ printed + length text = omega arith in
      (st₂, rw (parsed, e₁, sum) e₂, o₂ ∙ ap (λ o. o ++ tail) o₁ ∙ append_assoc (out st) text tail)

  pub Field-of :
      (s : ConvSpec) (va : Va) (args : List Va) (arg : Argument) (shows : List ℕ)
      → is_percentage s.spec ≡ false
      → Passed s.spec s.length va arg
      → Shown s arg shows
      → ZeroPadsLeft s
      → s.width < 2 ^ 30
      → length shows < 2 ^ 30
      → Field s (va ∷ args) (field_text s arg shows) args
  unfolding Field print_conv_spec fetch_arg
  Field-of s va args arg shows p given is z w h st =
      let (st', e, o) = print_field_lem debug f out t s arg shows st is z w h in
      (st', rw (p, fetch_by-Passed debug args given, e) refl, o)

  pub percent_of :
      (s : ConvSpec) (args : List Va) → is_percentage s.spec ≡ true → Field s args (b'%' ∷ []) args
  unfolding Field print_conv_spec
  percent_of s args p st = (
    (f st (b'%' ∷ [])).1,
    rw p (ap (λ rc. ok ((rc, (f st (b'%' ∷ [])).1), args)) (t.counts st (b'%' ∷ []))),
    t.shows st (b'%' ∷ []),
  )
