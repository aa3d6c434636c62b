-- ===== src/Prelude/Effects.antt =====
-- What a call of the kernel's C code can come to. `panic` is a failed `kassert` (the build without
-- NDEBUG): `assertion_fail` does not return. `fault` is an access outside an object, which C leaves
-- undefined. `unfinished` is a loop that does not end in the rounds that it is given.
use mathlib.Core.Path.{◌≡◌, refl}
use mathlib.Core.Bool.{Bool, true, false}
use mathlib.Core.Option.{Option, none, some}

pub data Outcome {ℓ} (A : Type ℓ) : Type ℓ where
  ok : A → Outcome A
  panic : Outcome A
  fault : Outcome A
  unfinished : Outcome A

module _ {ℓ κ} {A : Type ℓ} {B : Type κ} where
  infixl 5 ◌>>=◌ ◌>>◌
  abbrev pub ◌>>=◌ : Outcome A → (A → Outcome B) → Outcome B
  fault >>= next = fault
  unfinished >>= next = unfinished
  panic >>= next = panic
  ok a >>= next = next a

  abbrev pub ◌>>◌ : Outcome A → Outcome B → Outcome B
  first >> second = first >>= λ _. second

abbrev pub kassert : Bool → Outcome (Unit {0})
kassert true = ok tt
kassert false = panic

-- A `kassert` that the build keeps or, with NDEBUG, drops.
abbrev pub check : Bool → Bool → Outcome (Unit {0})
check true b = kassert b
check false b = ok tt

pub check-ok : (debug b : Bool) → b ≡ true → check debug b ≡ ok tt
check-ok true b e = rw e
check-ok false b e = refl

-- An access through a pointer or an index that may lie outside.
abbrev pub access {ℓ} : {A : Type ℓ} → Option A → Outcome A
access none = fault
access (some a) = ok a

module _ {ℓ κ} {A : Type ℓ} {B : Type κ} where
  -- Inversion of a bind that returned.
  pub >>=-eq-ok :
      (call : Outcome A) (next : A → Outcome B) {b : B}
      → (call >>= next) ≡ ok b
      → (a : A) × (call ≡ ok a) × (next a ≡ ok b)
  >>=-eq-ok fault next h = cc
  >>=-eq-ok panic next h = cc
  >>=-eq-ok unfinished next h = cc
  >>=-eq-ok (ok a) next h = (a, refl, h)

  -- A bind whose first part returned goes on with the second.
  pub >>=-ok :
      {call : Outcome A} (next : A → Outcome B) {a : A} {r : Outcome B}
      → call ≡ ok a
      → next a ≡ r
      → (call >>= next) ≡ r
  >>=-ok next e h = rw e h

  pub >>=-panic : {call : Outcome A} (next : A → Outcome B) → call ≡ panic → (call >>= next) ≡ panic
  >>=-panic next e = rw e
