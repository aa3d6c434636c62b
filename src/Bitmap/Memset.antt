-- ===== src/Bitmap/Memset.antt =====
-- Which bits of a memory of words `kmemset` clears.
use native.Mathlib.Nat.{div-mul-le_self}
use native.Mathlib.Decide.{dec_lt}
use yaeos.Prelude.{ℕ, zero, suc, ◌+◌, ◌-◌, ◌*◌, ◌/◌, ◌%◌, ◌^◌, ◌≤◌, ◌<◌, ◌≡◌, arith, refl, ap}
use yaeos.Prelude.{false, List, [], ◌∷◌, length, ok, fault, ◌&&◌, leb}
use yaeos.Prelude.{ltb, if◌then◌else◌}
use yaeos.Bits.Test.{test_bit, test_bit-zero}
use yaeos.Bits.Shift.{test_bit-clear_low}
use yaeos.Bitmap.{zero_bytes, zero_bytes_from}
use yaeos.Bitmap.Bit.{AreWords, bit_of}

-- `ws'` is `ws` with the bits from `low` to before `high` off.
pub record Cleared (ws : List ℕ) (low high : ℕ) (ws' : List ℕ) : Type 0 where
  pub same_length : length ws' ≡ length ws
  pub words : AreWords ws'
  pub bits : (i : ℕ) → bit_of ws' i ≡ (if leb low i && ltb i high then false else bit_of ws i)

bit_of-cons :
    (w : ℕ) (ws : List ℕ) (i : ℕ)
    → bit_of (w ∷ ws) i ≡ (if ltb i 32 then test_bit w i else bit_of ws (i - 32))
bit_of-cons w ws i = elim (dec_lt i 32) [
  | yes lt ↦
      let ndx : i / 32 ≡ 0 = omega arith in
      let rel : i % 32 ≡ i = omega arith in rw (ndx, rel) (ground arith)
  | no ge ↦
      let ndx : i / 32 ≡ suc ((i - 32) / 32) = omega arith in
      let rel : i % 32 ≡ (i - 32) % 32 = omega arith in rw (ndx, rel) (ground arith)
]

bit_of-nil : (i : ℕ) → bit_of [] i ≡ false
bit_of-nil i = test_bit-zero (i % 32)

-- The first word keeps its high digits.
Cleared-part :
    (w : ℕ) (ws : List ℕ) (n : ℕ)
    → w < 2 ^ 32
    → AreWords ws
    → n < 4
    → Cleared (w ∷ ws) 0 (8 * n) (w / 2 ^ (8 * n) * 2 ^ (8 * n) ∷ ws)
Cleared-part w ws n lt a few = record {
  same_length = refl;
  words = (omega (arith, div-mul-le_self w (2 ^ (8 * n))), a);
  bits = λ i. ground (
    arith,
    bit_of-cons (w / 2 ^ (8 * n) * 2 ^ (8 * n)) ws i,
    bit_of-cons w ws i,
    test_bit-clear_low (8 * n) w i,
  );
}

Cleared-whole :
    (w : ℕ) (ws : List ℕ) (n : ℕ) (ws' : List ℕ)
    → 4 ≤ n
    → Cleared ws 0 (8 * (n - 4)) ws'
    → Cleared (w ∷ ws) 0 (8 * n) (0 ∷ ws')
Cleared-whole w ws n ws' le c = record {
  same_length = ap suc c.same_length;
  words = (omega arith, c.words);
  bits = λ i.
      ground (arith, bit_of-cons 0 ws' i, bit_of-cons w ws i, test_bit-zero i, c.bits (i - 32));
}

Cleared-skip :
    (w : ℕ) (ws : List ℕ) (low high : ℕ) (ws' : List ℕ)
    → w < 2 ^ 32
    → Cleared ws low high ws'
    → Cleared (w ∷ ws) (low + 32) (high + 32) (w ∷ ws')
Cleared-skip w ws low high ws' lt c = record {
  same_length = ap suc c.same_length;
  words = (lt, c.words);
  bits = λ i. ground (arith, bit_of-cons w ws' i, bit_of-cons w ws i, c.bits (i - 32));
}

Cleared-range :
    (ws : List ℕ) (low high low' high' : ℕ) (ws' : List ℕ)
    → low ≡ low'
    → high ≡ high'
    → Cleared ws low high ws'
    → Cleared ws low' high' ws'
Cleared-range ws low high low' high' ws' p q c = record {
  same_length = c.same_length;
  words = c.words;
  bits = λ i. ground (arith, c.bits i);
}

-- Over `n` bytes that lie in the memory it clears their `8 * n` bits.
pub zero_bytes_lem :
    (ws : List ℕ) (n : ℕ)
    → n ≤ 4 * length ws
    → AreWords ws
    → (ws' : List ℕ) × (zero_bytes ws n ≡ ok ws') × Cleared ws 0 (8 * n) ws'
unfolding zero_bytes
zero_bytes_lem [] n h a = (
  [],
  ground arith,
  record { same_length = refl; words = a; bits = λ i. ground (arith, bit_of-nil i) },
)
zero_bytes_lem (w ∷ ws) n h (lt, a) = elim (dec_lt n 4) [
  | yes few ↦ (_, ground arith, Cleared-part w ws n lt a few)
  | no more ↦
      let (ws', e, c) = zero_bytes_lem ws (n - 4) (omega arith) a in
      (0 ∷ ws', ground arith, Cleared-whole w ws n ws' (omega arith) c)
]

-- Past the end of the memory it faults.
pub zero_bytes-fault : (ws : List ℕ) (n : ℕ) → 4 * length ws < n → zero_bytes ws n ≡ fault
unfolding zero_bytes
zero_bytes-fault [] n h = ground arith
zero_bytes-fault (w ∷ ws) n h = ground (arith, zero_bytes-fault ws (n - 4))

pub zero_bytes_from_lem :
    (ws : List ℕ) (offset n : ℕ)
    → offset ≤ length ws
    → n ≤ 4 * (length ws - offset)
    → AreWords ws
    → (ws' : List ℕ) × (zero_bytes_from ws offset n ≡ ok ws')
      × Cleared ws (32 * offset) (32 * offset + 8 * n) ws'
unfolding zero_bytes_from
zero_bytes_from_lem ws zero n le h a =
    let (ws', e, c) = zero_bytes_lem ws n (omega arith) a in
    (ws', e, Cleared-range ws _ _ _ _ ws' (omega arith) (omega arith) c)
zero_bytes_from_lem [] (suc offset) n le h a = absurd (omega arith)
zero_bytes_from_lem (w ∷ ws) (suc offset) n le h (lt, a) =
    let (ws', e, c) = zero_bytes_from_lem ws offset n (omega arith) (omega arith) a in
    (
      w ∷ ws',
      ground arith,
      Cleared-range (w ∷ ws) _ _ _ _ (w ∷ ws') (omega arith) (omega arith)
          (Cleared-skip w ws (32 * offset) (32 * offset + 8 * n) ws' lt c),
    )

pub zero_bytes_from-fault :
    (ws : List ℕ) (offset n : ℕ)
    → offset ≤ length ws
    → 4 * (length ws - offset) < n
    → zero_bytes_from ws offset n ≡ fault
unfolding zero_bytes_from
zero_bytes_from-fault ws zero n le h = zero_bytes-fault ws n (omega arith)
zero_bytes_from-fault [] (suc offset) n le h = absurd (omega arith)
zero_bytes_from-fault (w ∷ ws) (suc offset) n le h =
    ground (arith, zero_bytes_from-fault ws offset n)
