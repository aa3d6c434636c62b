-- ===== src/Bitmap/Update.antt =====
-- `bitmap_set_true`, `bitmap_set_false` and `bitmap_init`.
use native.Mathlib.Decide.{ℕ_discrete, dec_lt}
use yaeos.Prelude.{ℕ, ◌/◌, ◌%◌, ◌^◌, ◌≤◌, ◌<◌, ◌≡◌, arith, refl, ◌⊎◌}
use yaeos.Prelude.{true, false, List, length, get_or, set, get_elem?-eq-get_or, ok, panic}
use yaeos.Prelude.{
  ltb, ◌==◌, if◌then◌else◌, Bool-cases, inl, inr, bit_or, bit_and, get_or-set_self, get_or-set_ne,
}
use yaeos.Prelude.{length-set, ==_ne, ==_refl}
use yaeos.Bits.Test.{test_bit, bit_or-lt, bit_and-le}
use yaeos.Bits.Mask.{test_bit-set_true, test_bit-set_false, shl-one, pow-lt}
use yaeos.Word.{◌+w◌, ◌*w◌, shl, complement}
use yaeos.Bitmap.{Bitmap, set_true, set_false}
use yaeos.Bitmap.Bit.{IsValid, get_or-lt, set-AreWords, bit, bit_of}

-- Writing the word of bit `i` changes only bits of that word.
bit_of-set :
    (ws : List ℕ) (i v j : ℕ)
    → i / 32 < length ws
    → bit_of (set ws (i / 32) v) j ≡ (if i / 32 == j / 32 then test_bit v (j % 32) else bit_of ws j)
bit_of-set ws i v j h = elim (ℕ_discrete (i / 32) (j / 32)) [
  | yes e ↦ rw (← e, ==_refl (i / 32), get_or-set_self ws (i / 32) v 0 h)
  | no ne ↦ rw (==_ne _ _ ne, get_or-set_ne ws (i / 32) (j / 32) v 0 ne)
]

-- The bitmap with bit `i` on, and with it off.
abbrev pub with_true : Bitmap → ℕ → Bitmap
with_true b i = record b {
  bitsets = set b.bitsets (i / 32) (bit_or (get_or b.bitsets (i / 32) 0) (2 ^ (i % 32)));
}

abbrev pub with_false : Bitmap → ℕ → Bitmap
with_false b i = record b {
  bitsets =
      set b.bitsets (i / 32) (bit_and (get_or b.bitsets (i / 32) 0) (complement (2 ^ (i % 32))));
}

-- A write through the index of a valid bitmap, or the failed assertion at an index past its end.
module _ (b : Bitmap) (i : ℕ) (v : IsValid b) (h : i < 2 ^ 32) where
  pub set_true-eq : set_true b i ≡ (if ltb i b.length then ok (with_true b i) else panic)
  unfolding set_true
  set_true-eq =
      let index : i / 32 *w 32 +w i % 32 ≡ i = omega arith in
      let mask : shl 1 (i % 32) ≡ 2 ^ (i % 32) = shl-one (i % 32) (omega arith) in
      let read = get_elem?-eq-get_or b.bitsets (i / 32) 0 in
      rw (index, mask)
        (elim (Bool-cases (ltb i b.length)) [
          | inl lt ↦ let found = read (ground arith) in rw (lt, found)
          | inr ge ↦ rw ge
        ])

  pub set_false-eq : set_false b i ≡ (if ltb i b.length then ok (with_false b i) else panic)
  unfolding set_false
  set_false-eq =
      let index : i / 32 *w 32 +w i % 32 ≡ i = omega arith in
      let mask : shl 1 (i % 32) ≡ 2 ^ (i % 32) = shl-one (i % 32) (omega arith) in
      let read = get_elem?-eq-get_or b.bitsets (i / 32) 0 in
      rw (index, mask)
        (elim (Bool-cases (ltb i b.length)) [
          | inl lt ↦ let found = read (ground arith) in rw (lt, found)
          | inr ge ↦ rw ge
        ])

with_word-IsValid :
    (b : Bitmap) (k w : ℕ)
    → IsValid b
    → w < 2 ^ 32
    → IsValid (record b { bitsets = set b.bitsets k w })
with_word-IsValid b k w v h = record {
  words = set-AreWords b.bitsets k w h v.words;
  room = omega (arith, length-set b.bitsets k w, v);
  covers = v.covers;
  tight = v.tight;
  small = v.small;
  some_bits = v.some_bits;
}

-- The bits and the validity after one write below the length.
module _ (b : Bitmap) (i : ℕ) (v : IsValid b) (h : i < b.length) where
  pub with_true-IsValid : IsValid (with_true b i)
  with_true-IsValid =
      with_word-IsValid b (i / 32) _ v
        (bit_or-lt 32 _ _ (get_or-lt b.bitsets (i / 32) v.words) (pow-lt (i % 32) (omega arith)))

  pub with_false-IsValid : IsValid (with_false b i)
  with_false-IsValid =
      let w = get_or-lt b.bitsets (i / 32) v.words in
      with_word-IsValid b (i / 32) _ v
        (omega (arith, bit_and-le 32 _ (complement (2 ^ (i % 32))) w))

  pub bit-with_true : (j : ℕ) → bit (with_true b i) j ≡ (if i == j then true else bit b j)
  bit-with_true j =
      let w = get_or b.bitsets (i / 32) 0 in
      ground (
        arith,
        bit_of-set b.bitsets i (bit_or w (2 ^ (i % 32))) j (omega (arith, v)),
        test_bit-set_true w (i % 32) (j % 32),
      )

  pub bit-with_false : (j : ℕ) → bit (with_false b i) j ≡ (if i == j then false else bit b j)
  bit-with_false j =
      let w = get_or b.bitsets (i / 32) 0 in
      ground (
        arith,
        bit_of-set b.bitsets i (bit_and w (complement (2 ^ (i % 32)))) j (omega (arith, v)),
        test_bit-set_false w (i % 32) (j % 32) (get_or-lt b.bitsets (i / 32) v.words) (omega arith),
      )

-- Below the length of a valid bitmap, `bitmap_set_true` turns the bit on, keeps every other bit and
-- the length, and leaves a valid bitmap; from the length on it panics.
pub set_true_lem :
    (b : Bitmap) (i : ℕ)
    → IsValid b
    → i < 2 ^ 32
    → (i < b.length)
        × ((b' : Bitmap) × (set_true b i ≡ ok b')
            × IsValid b'
            × (b'.length ≡ b.length)
            × ((j : ℕ) → bit b' j ≡ (if i == j then true else bit b j)))
      ⊎ (b.length ≤ i) × (set_true b i ≡ panic)
set_true_lem b i v h = elim (dec_lt i b.length) [
  | yes lt ↦ inl (
    lt,
    (
      with_true b i,
      ground (arith, set_true-eq b i v h),
      with_true-IsValid b i v lt,
      refl,
      bit-with_true b i v lt,
    ),
  )
  | no ge ↦ inr (omega arith, ground (arith, set_true-eq b i v h))
]

-- Below the length of a valid bitmap, `bitmap_set_false` turns the bit off, keeps every other bit
-- and the length, and leaves a valid bitmap; from the length on it panics.
pub set_false_lem :
    (b : Bitmap) (i : ℕ)
    → IsValid b
    → i < 2 ^ 32
    → (i < b.length)
        × ((b' : Bitmap) × (set_false b i ≡ ok b')
            × IsValid b'
            × (b'.length ≡ b.length)
            × ((j : ℕ) → bit b' j ≡ (if i == j then false else bit b j)))
      ⊎ (b.length ≤ i) × (set_false b i ≡ panic)
set_false_lem b i v h = elim (dec_lt i b.length) [
  | yes lt ↦ inl (
    lt,
    (
      with_false b i,
      ground (arith, set_false-eq b i v h),
      with_false-IsValid b i v lt,
      refl,
      bit-with_false b i v lt,
    ),
  )
  | no ge ↦ inr (omega arith, ground (arith, set_false-eq b i v h))
]
