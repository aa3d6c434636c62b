-- ===== src/Printf/Sink.antt =====
-- Calls of kernel/lib/cstd/stdio/vfprintf.c over a callback that takes all that it is given.
use yaeos.Prelude.{ℕ, zero, suc, ◌+◌, ◌^◌, ◌<◌, ◌≡◌, sym, ap, ◌∙◌, arith}
use yaeos.Prelude.{Bool, List, [], ◌∷◌, ◌++◌, length, replicate, ℤ, pos, Outcome, ok}
use yaeos.Prelude.{leb, check, check-ok, ◌>>◌, append_assoc, append-nil}
use yaeos.Word.{◌+w◌}
use yaeos.Printf.Convert.{Io, put, give_back, try_add, pad, as_int, int_max, last_add}
use yaeos.Printf.Print.{finish}

-- A callback that reports the length of the text and adds it to its output.
pub record Takes {S : Type 0} (f : S → List ℕ → ℤ × S) (out : S → List ℕ) : Type 0 where
  pub counts : (st : S) (text : List ℕ) → (f st text).0 ≡ pos (length text)
  pub shows : (st : S) (text : List ℕ) → out (f st text).1 ≡ out st ++ text

-- The call returns `total` and adds the text to the output.
abbrev pub Prints : {S : Type 0} → (S → List ℕ) → (S → Outcome (ℤ × S)) → ℕ → List ℕ → Type 0
Prints {S} out call total text =
    (st : S) → (st' : S) × (call st ≡ ok (pos total, st')) × (out st' ≡ out st ++ text)

module _ (debug : Bool) {S : Type 0} (f : S → List ℕ → ℤ × S) (out : S → List ℕ)
    (t : Takes f out) where
  pub Prints-text :
      (call : Io debug f) (total : ℕ) {text text' : List ℕ}
      → text ≡ text'
      → Prints out call total text
      → Prints out call total text'
  Prints-text call total e p st =
      let (st', run, shown) = p st in (st', run, shown ∙ ap (λ x. out st ++ x) e)

  pub Prints-put : (text : List ℕ) → Prints out (put debug f text) (length text) text
  Prints-put text st =
      ((f st text).1, ap (λ rc. ok (rc, (f st text).1)) (t.counts st text), t.shows st text)

  pub Prints-try_add :
      (call : Io debug f) (printed n : ℕ) (next : ℕ → Io debug f) (total : ℕ) (head tail : List ℕ)
      → Prints out call n head
      → Prints out (next (printed +w n)) total tail
      → Prints out (try_add debug f call printed next) total (head ++ tail)
  unfolding try_add
  Prints-try_add call printed n next total head tail first rest st =
      let (st₁, e₁, o₁) = first st in
      let (st₂, e₂, o₂) = rest st₁ in
      (st₂, rw (e₁, e₂), o₂ ∙ ap (λ o. o ++ tail) o₁ ∙ append_assoc (out st) head tail)

  pub Prints-pad :
      (c left printed : ℕ) (next : ℕ → Io debug f) (total : ℕ) (tail : List ℕ)
      → printed + left < 2 ^ 32
      → Prints out (next (printed + left)) total tail
      → Prints out (pad debug f c left printed next) total (replicate left c ++ tail)
  unfolding pad
  Prints-pad c zero printed next total tail fits rest =
      let same : printed + 0 ≡ printed = omega arith in rw same at rest
  Prints-pad c (suc left) printed next total tail fits rest =
      let same : printed + suc left ≡ printed +w 1 + left = omega arith in
      Prints-try_add (put debug f (c ∷ [])) printed 1 _ total (c ∷ []) (replicate left c ++ tail)
        (Prints-put (c ∷ []))
        (Prints-pad c left (printed +w 1) next total tail (omega arith) (rw same at rest))

  pub Prints-give_back : (n : ℕ) → n < 2 ^ 31 → Prints out (give_back debug f n) n []
  Prints-give_back n h st = (st, ground arith, sym (append-nil (out st)))

  -- The count that a function returns at its end, behind its assertion.
  pub Prints-finish : (n : ℕ) → n < 2 ^ 31 → Prints out (finish debug f n) n []
  Prints-finish n h st = (
    st,
    rw (check-ok debug (leb n int_max) (ground arith)) (ground arith),
    sym (append-nil (out st)),
  )

  pub Prints-last_add :
      (call : Io debug f) (printed n : ℕ) (text : List ℕ)
      → printed + n < 2 ^ 31
      → Prints out call n text
      → Prints out (last_add debug f call printed) (printed + n) text
  Prints-last_add call printed n text fits first st =
      let sum : printed +w n ≡ printed + n = omega arith in
      let asserted = check-ok debug (leb printed int_max) (ground arith) in
      let end : Prints out (λ st'. ok (as_int (printed +w n), st')) (printed + n) [] =
        rw sum (Prints-give_back (printed + n) fits) in
      Prints-text _ (printed + n) (append-nil text)
        (Prints-try_add call printed n
          (λ total st'. check debug (leb printed int_max) >> ok (as_int total, st')) (printed + n)
          text [] first (rw asserted end))
        st
