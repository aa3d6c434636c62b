-- ===== src/Printf/DigitCount.antt =====
-- The length that kernel/lib/cstd/stdio/vfprintf.c announces for a number.
use native.Mathlib.Nat.{pow-suc, pow-zero, pow-le-pow_right, le-div_iff_mul-le, div-lt_iff_lt-mul}
use native.Mathlib.Decide.{dec_lt}
use yaeos.Prelude.{
  ℕ, zero, suc, ◌+◌, ◌-◌, ◌*◌, ◌/◌, ◌%◌, ◌^◌, ◌≤◌, ◌<◌, ◌≡◌, ◌⊎◌, inl, inr, refl, sym, ap, ◌∙◌,
  arith,
}
use yaeos.Prelude.{List, [], ◌∷◌, length, ◌==◌, Bool-cases}
use yaeos.Printf.Convert.{digits_loop, power_loop, length_loop, length_for_intnumbase}

-- `k` is the number of digits of `n`.
pub record IsLength (base n k : ℕ) : Type 0 where
  pub some_digit : 1 ≤ k
  pub enough : n < base ^ k
  pub needed : (k ≡ 1) ⊎ (base ^ (k - 1) ≤ n)

pub base_one : (base : ℕ) → base ^ 1 ≡ base
base_one base = pow-suc base 0 ∙ ap (λ x. x * base) (pow-zero base) ∙ omega arith

one_digit : (base n : ℕ) → 1 < base → n / base ≡ 0 → n < base ^ 1
one_digit base n big e =
    let small : n < 1 * base = (div-lt_iff_lt-mul (omega arith)).0 (omega arith) in
    let one : base ^ 1 ≡ base = base_one base in omega arith

-- One digit fewer is left once the number is divided by the base.
pub fewer : (base n k : ℕ) → 0 < base → n < base ^ suc k → n / base < base ^ k
fewer base n k pos h = (div-lt_iff_lt-mul pos).1 (rw (← pow-suc base k) h)

needed_before : (base n k : ℕ) → (k ≡ 1) ⊎ (base ^ (k - 1) ≤ n) → 0 < n → base ^ (k - 1) ≤ n
needed_before base n k (inl e) pos = rw (e, pow-zero base) pos
needed_before base n k (inr le) pos = le

power_at : (base n k : ℕ) → k ≡ suc (k - 1) → base ^ (k - 1) * base ≤ n → base ^ (suc k - 1) ≤ n
power_at base n k e h =
    let same : suc k - 1 ≡ suc (k - 1) = omega arith in rw (same, pow-suc base (k - 1)) h

one_more :
    (base n k : ℕ) → 1 < base → 0 < n / base → IsLength base (n / base) k → IsLength base n (suc k)
one_more base n k big pos is =
    let before = needed_before base (n / base) k is.needed pos in
    let times : base ^ (k - 1) * base ≤ n = (le-div_iff_mul-le (omega arith)).0 before in
    let same : k ≡ suc (k - 1) = omega (arith, is.some_digit) in
    record {
      some_digit = omega arith;
      enough = rw (pow-suc base k) ((div-lt_iff_lt-mul {k = base} (omega arith)).0 is.enough);
      needed = inr (power_at base n k same times);
    }

-- `digits_loop` writes that many characters, if the buffer has the room.
pub length-digits_loop :
    (base : ℕ) (digit : ℕ → ℕ) (room n : ℕ) (buffer : List ℕ)
    → 1 < base
    → n < base ^ suc room
    → (k : ℕ) × (length (digits_loop base digit (suc room) n buffer) ≡ k + length buffer)
      × IsLength base n k
unfolding digits_loop
length-digits_loop base digit zero n buffer big h = (
  1,
  elim (Bool-cases (n / base == 0)) [ inl e ↦ rw e (omega arith) | inr e ↦ rw e (omega arith) ],
  record { some_digit = omega arith; enough = h; needed = inl refl },
)
length-digits_loop base digit (suc room) n buffer big h = elim (Bool-cases (n / base == 0)) [
  | inl e ↦ (
    1,
    rw e (omega arith),
    record {
      some_digit = omega arith;
      enough = one_digit base n big (ground arith);
      needed = inl refl;
    },
  )
  | inr e ↦
      let (k, same, is) =
        length-digits_loop base digit room (n / base) (digit (n % base) ∷ buffer) big
          (fewer base n (suc room) (omega arith) h) in
      (suc k, rw e (same ∙ omega arith), one_more base n k big (ground arith) is)
]

IsLength-le : (base n k l : ℕ) → 1 < base → IsLength base n k → IsLength base n l → k ≤ l
IsLength-le base n k l big a b = elim (dec_lt l k) [
  | no le ↦ omega arith
  | yes lt ↦ elim a.needed [
    | inl one ↦ omega (arith, b.some_digit)
    | inr le ↦
        let up : base ^ l ≤ base ^ (k - 1) =
          pow-le-pow_right (omega arith) {i = l} {j = k - 1} (omega arith) in
        absurd (omega (arith, b.enough))
  ]
]

-- The numbers of digits of a number are equal.
pub IsLength-unique : (base n k l : ℕ) → 1 < base → IsLength base n k → IsLength base n l → k ≡ l
IsLength-unique base n k l big a b =
    omega (arith, IsLength-le base n k l big a b, IsLength-le base n l k big b a)

-- The powers do not wrap as long as the greatest does not.
power_loop_lem : (base j : ℕ) → 0 < base → base ^ j < 2 ^ 64 → power_loop base j ≡ base ^ j
unfolding power_loop
power_loop_lem base zero pos h = sym (pow-zero base)
power_loop_lem base (suc j) pos h =
    let below : base ^ j ≤ base ^ suc j = pow-le-pow_right pos {i = j} {j = suc j} (omega arith) in
    rw (power_loop_lem base j pos (omega arith)) (omega (arith, pow-suc base j))

-- One round of the outer loop, on either side of its test.
length_loop_here :
    (base num i : ℕ)
    → 0 < base
    → base ^ i < 2 ^ 64
    → base ^ i ≤ num
    → length_loop num base (suc i) ≡ suc i
unfolding length_loop
length_loop_here base num i pos h le = rw (power_loop_lem base i pos h) (ground arith)

length_loop_shorter :
    (base num i : ℕ)
    → 0 < base
    → base ^ i < 2 ^ 64
    → num < base ^ i
    → length_loop num base (suc i) ≡ length_loop num base i
unfolding length_loop
length_loop_shorter base num i pos h lt = rw (power_loop_lem base i pos h) (ground arith)

length_loop_one : (base num : ℕ) → length_loop num base 1 ≡ 1
unfolding length_loop power_loop
length_loop_one base num = ground arith

last_power : (base num i : ℕ) → base ^ i ≤ num → base ^ (suc i - 1) ≤ num
last_power base num i le = let same : suc i - 1 ≡ i = omega arith in rw same le

length_loop_lem :
    (base num i : ℕ)
    → 1 < base
    → base ^ i < 2 ^ 64
    → num < base ^ suc i
    → IsLength base num (length_loop num base (suc i))
length_loop_lem base num zero big h room =
    rw (length_loop_one base num)
      (record { some_digit = omega arith; enough = room; needed = inl refl })
length_loop_lem base num (suc i) big h room = elim (dec_lt num (base ^ suc i)) [
  | yes lt ↦
      let below : base ^ i ≤ base ^ suc i =
        pow-le-pow_right (omega arith) {i = i} {j = suc i} (omega arith) in
      rw (length_loop_shorter base num (suc i) (omega arith) h lt)
        (length_loop_lem base num i big (omega arith) lt)
  | no ge ↦ rw (length_loop_here base num (suc i) (omega arith) h (omega arith)) (record {
    some_digit = omega arith;
    enough = room;
    needed = inr (last_power base num (suc i) (omega arith));
  })
]

-- `length_for_intnumbase` is the number of characters that the digits loop writes: in base 8, 10 and
-- 16 with the buffers of 22, 20 and 16 characters, for every 64-bit number.
pub length_for_intnumbase-eq-length :
    (base size num : ℕ) (digit : ℕ → ℕ)
    → 1 < base
    → base ^ size < 2 ^ 64
    → num < base ^ suc size
    → length_for_intnumbase num base (suc size) ≡ length (digits_loop base digit (suc size) num [])
unfolding length_for_intnumbase
length_for_intnumbase-eq-length base size num digit big h room =
    let (k, e, is) = length-digits_loop base digit size num [] big room in
    IsLength-unique base num _ _ big (length_loop_lem base num size big h room) is ∙ omega arith
