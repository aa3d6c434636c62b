-- ===== src/Printf/Ends.antt =====
-- The loop of `kvfprintf` in kernel/lib/cstd/stdio/vfprintf.c ends: each round takes at least one
-- character of the format.
use yaeos.Prelude.{unfinished, ℕ, zero, suc, ◌+◌, ◌^◌, ◌<◌, ◌≤◌, ◌≡◌, refl, arith, inl, inr}
use yaeos.Prelude.{Bool, false, Bool-cases, List, [], ◌∷◌, length, take, drop, ◌==◌}
use yaeos.Prelude.{ℤ, pos, negsuc, Option, none, some, Outcome, ok, panic, fault, ◌>>=◌}
use yaeos.Word.{◌+w◌}
use yaeos.Strings.{kstrlen, kstrchr, strlen_from, strchr_from, same_int, char_value}
use yaeos.Printf.Format.{char_value-ne-percent}
use yaeos.Printf.Spec.{parse_conv_spec}
use yaeos.Printf.Args.{Va}
use yaeos.Printf.Convert.{Io, put, try_add}
use yaeos.Printf.Print.{print_conv_spec, kvfprintf_loop, kvfprintf}
use yaeos.Printf.Shorter.{parse_conv_spec-shorter, length-drop}

>>=_ext :
    {A B : Type 0} (call : Outcome A) (next next' : A → Outcome B)
    → ((a : A) → call ≡ ok a → next a ≡ next' a)
    → (call >>= next) ≡ (call >>= next')
>>=_ext (ok a) next next' h = h a refl
>>=_ext panic next next' h = refl
>>=_ext fault next next' h = refl
>>=_ext unfinished next next' h = refl

ok_ge : (i n m : ℕ) → ok n ≡ ok m → i ≤ n → i ≤ m
ok_ge i n m e h = let same : n ≡ m = cc in omega arith

strlen_from-ge : (s : List ℕ) (i n : ℕ) → i + length s < 2 ^ 32 → strlen_from s i ≡ ok n → i ≤ n
unfolding strlen_from
strlen_from-ge [] i n h e = cc
strlen_from-ge (c ∷ s) i n h e = elim (Bool-cases (c == 0)) [
  | inl z ↦ ok_ge i i n (rw z at e) (omega arith)
  | inr z ↦ let more = strlen_from-ge s (i +w 1) n (omega arith) (rw z at e) in omega arith
]

none_found : (n : ℕ) → ◌≡◌ {A = Outcome (Option ℕ)} (ok none) (ok (some n)) → ⊥
none_found n e = cc

some_found : (i n : ℕ) → ◌≡◌ {A = Outcome (Option ℕ)} (ok (some i)) (ok (some n)) → i ≤ n
some_found i n e = let same : i ≡ n = cc in omega arith

strchr_from-ge : (s : List ℕ) (c : ℤ) (i n : ℕ) → strchr_from s c i ≡ ok (some n) → i ≤ n
unfolding strchr_from
strchr_from-ge [] c i n e = cc
strchr_from-ge (b ∷ s) c i n e = elim (Bool-cases (b == 0)) [
  | inl z ↦ absurd (none_found n (rw z at e))
  | inr z ↦ elim (Bool-cases (same_int (char_value b) c)) [
    | inl y ↦ some_found i n (rw (z, y) at e)
    | inr y ↦ let more = strchr_from-ge s c (suc i) n (rw (z, y) at e) in omega arith
  ]
]

drop-shorter : (n c : ℕ) (s : List ℕ) → 1 ≤ n → length (drop n (c ∷ s)) ≤ length s
drop-shorter zero c s h = omega arith
drop-shorter (suc n) c s h = length-drop n s

toprint-ge :
    (c : ℕ) (s : List ℕ) (cspec : Option ℕ) (n : ℕ)
    → (c == 0) ≡ false
    → (c == b'%') ≡ false
    → length (c ∷ s) < 2 ^ 32
    → kstrchr (c ∷ s) (pos b'%') ≡ ok cspec
    → elim cspec [ some k ↦ ok k | none ↦ kstrlen (c ∷ s) ] ≡ ok n
    → 1 ≤ n
unfolding kstrchr kstrlen strchr_from strlen_from
toprint-ge c s (some k) n z p h found e =
    let differs = char_value-ne-percent c (ground arith) in
    ok_ge 1 k n e (strchr_from-ge s (pos b'%') 1 k (rw (z, differs) at found))
toprint-ge c s none n z p h found e = strlen_from-ge s (0 +w 1) n (omega arith) (rw z at e)

module _ {S : Type 0} (debug : Bool) (f : S → List ℕ → ℤ × S) where
  added_ext :
      (rc : ℤ) (printed : ℕ) (next next' : ℕ → Io debug f) (st : S)
      → ((total : ℕ) (st' : S) → next total st' ≡ next' total st')
      → elim rc [ pos n ↦ next (printed +w n) st | negsuc e ↦ ok (negsuc e, st) ]
        ≡ elim rc [ pos n ↦ next' (printed +w n) st | negsuc e ↦ ok (negsuc e, st) ]
  added_ext (pos n) printed next next' st h = h (printed +w n) st
  added_ext (negsuc e) printed next next' st h = refl

  try_add_ext :
      (call : Io debug f) (printed : ℕ) (next next' : ℕ → Io debug f) (st : S)
      → ((total : ℕ) (st' : S) → next total st' ≡ next' total st')
      → try_add debug f call printed next st ≡ try_add debug f call printed next' st
  unfolding try_add
  try_add_ext call printed next next' st h =
      >>=_ext (call st) _ _ λ (rc, st') e. added_ext rc printed next next' st' h

  fuel_lem :
      (x y : Outcome (ℤ × S)) (format : List ℕ) (args : List Va) (printed fuel fuel' : ℕ) (st : S)
      → length format < 2 ^ 32
      → length format < fuel
      → length format < fuel'
      → kvfprintf_loop debug f x fuel format args printed st
        ≡ kvfprintf_loop debug f y fuel' format args printed st
  unfolding kvfprintf_loop
  fuel_lem x y format args printed zero fuel' st small h h' = absurd (omega arith)
  fuel_lem x y format args printed (suc fuel) zero st small h h' = absurd (omega arith)
  fuel_lem x y [] args printed (suc fuel) (suc fuel') st small h h' = refl
  fuel_lem x y (c ∷ format) args printed (suc fuel) (suc fuel') st small h h' =
      elim (Bool-cases (c == 0)) [
        | inl z ↦ rw z refl
        | inr z ↦ elim (Bool-cases (c == b'%')) [
          | inl p ↦
              rw (z, p)
                (>>=_ext (parse_conv_spec debug format) _ _ λ (s, rest) parsed.
                  let less = parse_conv_spec-shorter debug format s rest parsed in
                  >>=_ext (print_conv_spec debug f s args st) _ _ λ ((rc, st'), args') done.
                    try_add_ext (λ st''. ok (rc, st'')) printed _ _ st'
                      λ total st''.
                        fuel_lem x y rest args' total fuel fuel' st'' (omega arith) (omega arith)
                          (omega arith))
          | inr p ↦
              rw (z, p)
                (>>=_ext (kstrchr (c ∷ format) (pos b'%')) _ _ λ cspec found. >>=_ext _ _ _ λ n e.
                  let some_left = toprint-ge c format cspec n z p small found e in
                  let less = drop-shorter n c format some_left in
                  try_add_ext (put debug f (take n (c ∷ format))) printed _ _ st λ total st''.
                    fuel_lem x y (drop n (c ∷ format)) args total fuel fuel' st'' (omega arith)
                      (omega arith) (omega arith))
        ]
      ]

  -- `kvfprintf` ends on every format shorter than 2 ^ 32: with more rounds than the format has
  -- characters the loop does the same as `kvfprintf`, whatever stands for the lack of a round.
  pub kvfprintf-rounds :
      (without_rounds : Outcome (ℤ × S)) (format : List ℕ) (args : List Va) (fuel : ℕ) (st : S)
      → length format < 2 ^ 32
      → length format < fuel
      → kvfprintf_loop debug f without_rounds fuel format args 0 st
        ≡ kvfprintf debug f format args st
  unfolding kvfprintf
  kvfprintf-rounds without_rounds format args fuel st small h =
      fuel_lem without_rounds unfinished format args 0 fuel (length format + 1) st small h
        (omega arith)
