-- ===== src/Printf/Shorter.antt =====
-- The parser of kernel/lib/cstd/stdio/vfprintf.c moves the cursor on, and so the loop of `kvfprintf`
-- ends.
use yaeos.Prelude.{unfinished, ℕ, zero, suc, ◌≤◌, ◌≡◌, ap, inl, inr, arith}
use yaeos.Prelude.{
  Bool, true, false, Bool-cases, Option, none, some, List, [], ◌∷◌, length, drop, leb, ◌==◌,
  if◌then◌else◌,
}
use yaeos.Prelude.{Outcome, ok, panic, fault, ◌>>=◌, check, >>=-eq-ok}
use yaeos.Printf.Spec.{ConvSpec, ConvLength, Flags, set_flag, no_flags}
use yaeos.Printf.Spec.{char, short, long, llong, intmax, sizet, ptrdiff, ldouble, no_length}
use yaeos.Printf.Spec.{parse_flags, parse_number, parse_width, parse_after_period, parse_precision}
use yaeos.Printf.Spec.{
  double, parse_length, parse_specifier, parse_conv_spec, count_digits, vfprintf_atoi, field_max,
}

-- A parser that returned left at most what it was given.
abbrev Keeps : {A : Type 0} → Outcome (A × List ℕ) → ℕ → Type 0
Keeps {A} call n = (a : A) (rest : List ℕ) → call ≡ ok (a, rest) → length rest ≤ n

abbrev left_over : {A : Type 0} → List ℕ → Outcome (A × List ℕ) → List ℕ
left_over d (ok (a, s)) = s
left_over d panic = d
left_over d fault = d
left_over d unfinished = d

Keeps-ok : {A : Type 0} (a : A) (s : List ℕ) (n : ℕ) → length s ≤ n → Keeps (ok (a, s)) n
Keeps-ok a s n h b rest e = let same : s ≡ rest = ap (left_over s) e in rw same at h

Keeps-then :
    {A B : Type 0} (call : Outcome (A × List ℕ)) (next : A × List ℕ → Outcome (B × List ℕ))
    (m n : ℕ)
    → Keeps call m
    → ((a : A) (s : List ℕ) → length s ≤ m → Keeps (next (a, s)) n)
    → Keeps (call >>= next) n
Keeps-then call next m n first h b rest e =
    let ((a, s), e₁, e₂) = >>=-eq-ok call next e in h a s (first a s e₁) b rest e₂

Keeps-fault : {A : Type 0} (n : ℕ) → Keeps {A = A} fault n
Keeps-fault n a rest e = cc

Keeps-if :
    {A : Type 0} (b : Bool) (x y : Outcome (A × List ℕ)) (n : ℕ)
    → Keeps x n
    → Keeps y n
    → Keeps (if b then x else y) n
Keeps-if true x y n h h' = h
Keeps-if false x y n h h' = h'

flag_lem :
    (r : Option Flags) (fl : Flags) (c : ℕ) (s : List ℕ)
    → ((fl' : Flags) → Keeps (parse_flags s fl') (length s))
    → Keeps (elim r [ none ↦ ok (fl, c ∷ s) | some fl' ↦ parse_flags s fl' ]) (suc (length s))
flag_lem none fl c s h = Keeps-ok fl (c ∷ s) (suc (length s)) (omega arith)
flag_lem (some fl') fl c s h = λ a rest e. omega (arith, h fl' a rest e)

parse_flags_lem : (s : List ℕ) (fl : Flags) → Keeps (parse_flags s fl) (length s)
unfolding parse_flags
parse_flags_lem [] fl = Keeps-fault 0
parse_flags_lem (c ∷ s) fl = flag_lem (set_flag c fl) fl c s (parse_flags_lem s)

pub length-drop : (n : ℕ) (s : List ℕ) → length (drop n s) ≤ length s
length-drop zero s = omega arith
length-drop (suc n) [] = omega arith
length-drop (suc n) (c ∷ s) = omega (arith, length-drop n s)

parse_number_lem :
    (debug : Bool) (missing : ℕ) (s : List ℕ) → Keeps (parse_number debug missing s) (length s)
unfolding parse_number
parse_number_lem debug missing s a rest e =
    let (len, e₁, e₂) = >>=-eq-ok (count_digits s 0) _ e in
    let (u, e₃, e₄) = >>=-eq-ok (check debug (leb len field_max)) _ e₂ in
    Keeps-if (len == 0) (ok (missing, s)) (vfprintf_atoi s >>= λ n. ok (n, drop len s)) (length s)
      (Keeps-ok missing s (length s) (omega arith))
      (λ b rest' e₅.
        let (n, e₆, e₇) = >>=-eq-ok (vfprintf_atoi s) _ e₅ in
        Keeps-ok n (drop len s) (length s) (length-drop len s) b rest' e₇)
      a rest e₄

parse_width_lem : (debug : Bool) (s : List ℕ) → Keeps (parse_width debug s) (length s)
unfolding parse_width
parse_width_lem debug [] = Keeps-fault 0
parse_width_lem debug (c ∷ s) =
    Keeps-if (c == b'*') _ _ (suc (length s)) (Keeps-ok _ s (suc (length s)) (omega arith))
      (parse_number_lem debug _ (c ∷ s))

parse_after_period_lem : (debug : Bool) (s : List ℕ) → Keeps (parse_after_period debug s) (length s)
parse_after_period_lem debug [] = Keeps-fault 0
parse_after_period_lem debug (c ∷ s) =
    Keeps-if (c == b'*') _ _ (suc (length s)) (Keeps-ok _ s (suc (length s)) (omega arith))
      (parse_number_lem debug _ (c ∷ s))

parse_precision_lem : (debug : Bool) (s : List ℕ) → Keeps (parse_precision debug s) (length s)
unfolding parse_precision
parse_precision_lem debug [] = Keeps-fault 0
parse_precision_lem debug (c ∷ s) =
    Keeps-if (c == b'.') (parse_after_period debug s) _ (suc (length s))
      (λ a rest e. omega (arith, parse_after_period_lem debug s a rest e))
      (Keeps-ok _ (c ∷ s) (suc (length s)) (omega arith))

double_lem :
    (c : ℕ) (twice once : ConvLength) (s : List ℕ) → Keeps (double c twice once s) (length s)
double_lem c twice once [] = Keeps-fault 0
double_lem c twice once (d ∷ s) = elim (Bool-cases (d == c)) [
  | inl e ↦ rw e (Keeps-ok twice s (suc (length s)) (omega arith))
  | inr e ↦ rw e (Keeps-ok once (d ∷ s) (suc (length s)) (omega arith))
]

parse_length_lem : (s : List ℕ) → Keeps (parse_length s) (length s)
unfolding parse_length
parse_length_lem [] = Keeps-fault 0
parse_length_lem (c ∷ s) =
    let taken = λ (l : ConvLength). Keeps-ok l s (suc (length s)) (omega arith) in
    let doubled =
      λ (d : ℕ) (twice once : ConvLength) (a : ConvLength) (rest : List ℕ)
          (e : double d twice once s ≡ ok (a, rest)).
        let few = double_lem d twice once s a rest e in
        let up : length rest ≤ suc (length s) = omega arith in up in
    Keeps-if (c == b'h') _ _ _ (doubled b'h' char short) (
      Keeps-if (c == b'l') _ _ _ (doubled b'l' llong long) (
        Keeps-if (c == b'j') _ _ _ (taken intmax) (
          Keeps-if (c == b'z') _ _ _ (taken sizet) (
            Keeps-if (c == b't') _ _ _ (taken ptrdiff) (
              Keeps-if (c == b'L') _ _ _ (taken ldouble)
                (Keeps-ok no_length (c ∷ s) (suc (length s)) (omega arith)))))))

parse_specifier_lem : (s : List ℕ) → Keeps (parse_specifier s) (length s)
unfolding parse_specifier
parse_specifier_lem [] = Keeps-fault 0
parse_specifier_lem (c ∷ s) = Keeps-ok _ s (suc (length s)) (omega arith)

-- What the parser leaves is no longer than what it was given.
pub parse_conv_spec-shorter :
    (debug : Bool) (format : List ℕ) (s : ConvSpec) (rest : List ℕ)
    → parse_conv_spec debug format ≡ ok (s, rest)
    → length rest ≤ length format
unfolding parse_conv_spec
parse_conv_spec-shorter debug format =
    Keeps-then (parse_flags format no_flags) _ (length format) (length format)
      (parse_flags_lem format no_flags)
      λ flags s₁ h₁.
        Keeps-then (parse_width debug s₁) _ (length s₁) (length format) (parse_width_lem debug s₁)
          λ width s₂ h₂.
            Keeps-then (parse_precision debug s₂) _ (length s₂) (length format)
              (parse_precision_lem debug s₂)
              λ precision s₃ h₃.
                Keeps-then (parse_length s₃) _ (length s₃) (length format) (parse_length_lem s₃)
                  λ l s₄ h₄.
                    Keeps-then (parse_specifier s₄) _ (length s₄) (length format)
                      (parse_specifier_lem s₄)
                      λ spec s₅ h₅. Keeps-ok _ s₅ (length format) (omega arith)
