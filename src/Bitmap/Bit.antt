-- ===== src/Bitmap/Bit.antt =====
-- The bits that a bitmap stands for, its invariant, and `bitmap_get`.
use yaeos.Prelude.{ℕ, zero, suc, ◌+◌, ◌*◌, ◌/◌, ◌%◌, ◌^◌, ◌≤◌, ◌<◌, ◌≡◌, arith}
use yaeos.Prelude.{Bool, List, [], ◌∷◌, length, get_or, set, get_elem?-eq-get_or, ok, panic}
use yaeos.Prelude.{ltb, Bool-cases, inl, inr, if◌then◌else◌}
use yaeos.Bits.Test.{test_bit}
use yaeos.Bits.Mask.{test_mask, shl-one}
use yaeos.Word.{◌+w◌, ◌*w◌, shl}
use yaeos.Bitmap.{Bitmap, get}

-- Every element is a 32-bit word.
abbrev pub AreWords : List ℕ → Type 0
AreWords [] = Unit {0}
AreWords (w ∷ ws) = (w < 2 ^ 32) × AreWords ws

pub get_or-lt : (ws : List ℕ) (i : ℕ) → AreWords ws → get_or ws i 0 < 2 ^ 32
get_or-lt [] i a = omega arith
get_or-lt (w ∷ ws) zero a = a.0
get_or-lt (w ∷ ws) (suc i) a = get_or-lt ws i a.1

pub set-AreWords : (ws : List ℕ) (i v : ℕ) → v < 2 ^ 32 → AreWords ws → AreWords (set ws i v)
set-AreWords [] i v h a = a
set-AreWords (w ∷ ws) zero v h a = (h, a.1)
set-AreWords (w ∷ ws) (suc i) v h a = (a.0, set-AreWords ws i v h a.1)

-- `sets_count` is the number of words that `length` bits take, and they lie in the memory.
pub record IsValid (b : Bitmap) : Type 0 where
  pub words : AreWords b.bitsets
  pub room : b.sets_count ≤ length b.bitsets
  pub covers : b.length ≤ b.sets_count * 32
  pub tight : b.sets_count * 32 < b.length + 32
  pub small : b.sets_count * 32 < 2 ^ 32
  pub some_bits : 0 < b.length

-- Bit `i` of a memory of words.
abbrev pub bit_of : List ℕ → ℕ → Bool
bit_of ws i = test_bit (get_or ws (i / 32) 0) (i % 32)

abbrev pub bit : Bitmap → ℕ → Bool
bit b i = bit_of b.bitsets i

-- Of a valid bitmap, `bitmap_get` returns the bit below the length, and panics from the length on.
pub get_lem :
    (b : Bitmap) (i : ℕ)
    → IsValid b
    → i < 2 ^ 32
    → get b i ≡ (if ltb i b.length then ok (bit b i) else panic)
unfolding get
get_lem b i v h =
    let index : i / 32 *w 32 +w i % 32 ≡ i = omega arith in
    let mask : shl 1 (i % 32) ≡ 2 ^ (i % 32) = shl-one (i % 32) (omega arith) in
    let word = get_or b.bitsets (i / 32) 0 in
    let tested = test_mask word (i % 32) (get_or-lt b.bitsets (i / 32) v.words) in
    let read = get_elem?-eq-get_or b.bitsets (i / 32) 0 in
    rw (index, mask)
      (elim (Bool-cases (ltb i b.length)) [
        | inl lt ↦ let found = read (ground arith) in rw (lt, found, tested)
        | inr ge ↦ rw ge
      ])
