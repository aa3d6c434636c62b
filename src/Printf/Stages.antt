-- ===== src/Printf/Stages.antt =====
-- The stages of `print_conv_spec` in kernel/lib/cstd/stdio/vfprintf.c: each prints a text and goes on
-- with the count that the text adds to.
use yaeos.Prelude.{ℕ, ◌+◌, ◌^◌, ◌<◌, ◌≡◌, sym, arith}
use yaeos.Prelude.{Bool, true, false, Bool-cases, List, [], ◌∷◌, ◌++◌, length, replicate}
use yaeos.Prelude.{
  ℤ, inl, inr, Option, none, some, if◌then◌else◌, length-replicate, length-append, append_assoc,
  append-nil,
}
use yaeos.Word.{◌+w◌}
use yaeos.Printf.Spec.{ConvSpec}
use yaeos.Printf.Args.{Argument}
use yaeos.Printf.Convert.{Io, put, give_back, try_add, pad}
use yaeos.Printf.Print.{put_flags, put_prefix, lead, finish}
use yaeos.Printf.Sink.{
  Takes, Prints, Prints-text, Prints-put, Prints-pad, Prints-give_back, Prints-finish,
  Prints-try_add,
}

-- The sign in front of a number.
abbrev pub sign_text : ConvSpec → Argument → List ℕ
sign_text s arg =
    if arg.negative
    then b'-' ∷ []
    else if s.flags.plus
    then b'+' ∷ []
    else if s.flags.space
    then b' ' ∷ []
    else []

abbrev pub prefix_text : Option (List ℕ) → List ℕ
prefix_text none = []
prefix_text (some p) = p

module _ {S : Type 0} (debug : Bool) (f : S → List ℕ → ℤ × S) (out : S → List ℕ) where
  -- The stage prints the text and goes on.
  pub Adds : (ℕ → (ℕ → Io debug f) → Io debug f) → List ℕ → Type 0
  Adds stage text =
      (printed : ℕ) (next : ℕ → Io debug f) (total : ℕ) (tail : List ℕ)
      → printed + length text < 2 ^ 32
      → Prints out (next (printed + length text)) total tail
      → Prints out (stage printed next) total (text ++ tail)

module _ {S : Type 0} (debug : Bool) (f : S → List ℕ → ℤ × S) (out : S → List ℕ)
    (t : Takes f out) where
  pub Adds-skip : Adds debug f out (λ printed next. next printed) []
  unfolding Adds
  Adds-skip printed next total tail h rest =
      let same : printed + 0 ≡ printed = omega arith in rw same at rest

  pub Adds-try_add :
      (call : Io debug f) (text : List ℕ)
      → Prints out call (length text) text
      → Adds debug f out (try_add debug f call) text
  unfolding Adds
  Adds-try_add call text first printed next total tail h rest =
      let same : printed + length text ≡ printed +w length text = omega arith in
      Prints-try_add debug f out t call printed (length text) next total text tail first
        (rw same at rest)

  pub Adds-pad : (c left : ℕ) → Adds debug f out (pad debug f c left) (replicate left c)
  unfolding Adds
  Adds-pad c left printed next total tail h rest =
      let same = length-replicate {A = ℕ} left c in
      Prints-pad debug f out t c left printed next total tail (omega arith) (rw same at rest)

  pub Adds-then :
      (first second : ℕ → (ℕ → Io debug f) → Io debug f) (head text : List ℕ)
      → Adds debug f out first head
      → Adds debug f out second text
      → Adds debug f out
          (λ printed next. first printed λ printed'. second printed' next)
          (head ++ text)
  unfolding Adds
  Adds-then first second head text a b printed next total tail h rest =
      let sum = length-append head text in
      let same : printed + length (head ++ text) ≡ printed + length head + length text =
        omega arith in
      Prints-text debug f out t _ total (sym (append_assoc head text tail)) (
        a printed (λ printed'. second printed' next) total (text ++ tail) (omega arith)
          (b (printed + length head) next total tail (omega arith) (rw same at rest)))

  pub Adds-if :
      (c : Bool) (first second : ℕ → (ℕ → Io debug f) → Io debug f) (head text : List ℕ)
      → Adds debug f out first head
      → Adds debug f out second text
      → Adds debug f out
          (λ printed next. if c then first printed next else second printed next)
          (if c then head else text)
  Adds-if true first second head text a b = a
  Adds-if false first second head text a b = b

  -- The last stage returns the length of what the stages before it print.
  pub Adds-finish :
      (stage : ℕ → (ℕ → Io debug f) → Io debug f) (text : List ℕ)
      → Adds debug f out stage text
      → length text < 2 ^ 31
      → Prints out (stage 0 (finish debug f)) (length text) text
  unfolding Adds
  Adds-finish stage text a h =
      let same : 0 + length text ≡ length text = omega arith in
      Prints-text debug f out t _ (length text) (append-nil text) (
        a 0 (finish debug f) (length text) [] (omega arith)
          (rw same (Prints-finish debug f out t (length text) h)))

  one_sign :
      (c : ℕ) → Prints out (try_add debug f (put debug f (c ∷ [])) 0 (give_back debug f)) 1 (c ∷ [])
  one_sign c =
      Prints-try_add debug f out t (put debug f (c ∷ [])) 0 1 (give_back debug f) 1 (c ∷ []) []
        (Prints-put debug f out t (c ∷ [])) (Prints-give_back debug f out t 1 (omega arith))

  put_flags_lem :
      (s : ConvSpec) (arg : Argument)
      → Prints out (put_flags debug f s arg) (length (sign_text s arg)) (sign_text s arg)
  unfolding put_flags
  put_flags_lem s arg = elim (Bool-cases arg.negative) [
    | inl n ↦ rw n (one_sign b'-')
    | inr n ↦ elim (Bool-cases s.flags.plus) [
      | inl p ↦ rw (n, p) (one_sign b'+')
      | inr p ↦ elim (Bool-cases s.flags.space) [
        | inl b ↦ rw (n, p, b) (one_sign b' ')
        | inr b ↦ rw (n, p, b) (Prints-give_back debug f out t 0 (omega arith))
      ]
    ]
  ]

  put_prefix_lem :
      (prefix : Option (List ℕ)) → Adds debug f out (put_prefix debug f prefix) (prefix_text prefix)
  unfolding put_prefix
  put_prefix_lem none = Adds-skip
  put_prefix_lem (some p) = Adds-try_add (put debug f p) p (Prints-put debug f out t p)

  pub lead_lem :
      (s : ConvSpec) (arg : Argument) (prefix : Option (List ℕ))
      → Adds debug f out (lead debug f s arg prefix) (prefix_text prefix ++ sign_text s arg)
  lead_lem s arg prefix =
      Adds-then (put_prefix debug f prefix) (try_add debug f (put_flags debug f s arg))
        (prefix_text prefix) (sign_text s arg) (put_prefix_lem prefix)
        (Adds-try_add (put_flags debug f s arg) (sign_text s arg) (put_flags_lem s arg))
