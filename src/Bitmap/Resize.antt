-- ===== src/Bitmap/Resize.antt =====
-- `bitmap_predict_size`, `bitmap_init` and `bitmap_resize` of kernel/lib/ds/bitmap.c.
use native.Mathlib.Decide.{dec_lt}
use yaeos.Prelude.{ℕ, ◌+◌, ◌-◌, ◌*◌, ◌^◌, ◌≤◌, ◌<◌, ◌≡◌, arith, refl}
use yaeos.Prelude.{false, List, length, ok, fault, ◌&&◌, leb, ltb, if◌then◌else◌}
use yaeos.Word.{◌*w◌, ◌-w◌}
use yaeos.Utils.{div_ceil}
use yaeos.Utils.Log2.{div_ceil_lem}
use yaeos.Align.Bounds.{align_roundup_least}
use yaeos.Bitmap.{Bitmap, init, resize, predict_size}
use yaeos.Bitmap.Bit.{IsValid, AreWords, bit}
use yaeos.Bitmap.Memset.{zero_bytes_lem, zero_bytes_from_lem, zero_bytes_from-fault}

-- The words that `n` bits take.
words_for : (n : ℕ) → n + 32 < 2 ^ 32 → (n ≤ div_ceil n 32 * 32) × (div_ceil n 32 * 32 < n + 32)
words_for n h = div_ceil_lem n 32 (omega arith) h

-- `bitmap_predict_size` is the size in bytes of the words that `bitmap_init` uses.
pub predict_size_lem : (n : ℕ) → 0 < n → n + 32 < 2 ^ 32 → predict_size n ≡ ok (div_ceil n 32 * 4)
unfolding predict_size
predict_size_lem n p h =
    let (lower, upper) = words_for n h in
    let (multiple, above, least) = align_roundup_least 5 n (omega arith) (omega arith) in
    let low = least (div_ceil n 32) (omega arith) in ground (arith, div_ceil n 32)

-- Over memory of at least `bitmap_predict_size` bytes, `bitmap_init` gives a valid bitmap of the
-- asked length with every bit off, whatever the memory held.
pub init_lem :
    (space : List ℕ) (n : ℕ)
    → 0 < n
    → n + 32 < 2 ^ 32
    → div_ceil n 32 ≤ length space
    → AreWords space
    → (b : Bitmap) × (init space n ≡ ok b)
      × IsValid b
      × (b.length ≡ n)
      × ((i : ℕ) → i < n → bit b i ≡ false)
unfolding init
init_lem space n p h room a =
    let (lower, upper) = words_for n h in
    let bytes : div_ceil n 32 *w 4 ≡ div_ceil n 32 * 4 = omega arith in
    let (ws, e, c) = zero_bytes_lem space (div_ceil n 32 * 4) (omega arith) a in
    (
      record { bitsets = ws; sets_count = div_ceil n 32; length = n },
      rw bytes (ground arith),
      record {
        words = c.words;
        room = omega (arith, c.same_length);
        covers = lower;
        tight = upper;
        small = omega arith;
        some_bits = p;
      },
      refl,
      λ i lt. ground (arith, c.bits i),
    )

-- Growing a valid bitmap inside its memory gives a valid bitmap of the new length. Of the `d` new
-- words only the first `d` bytes are cleared: `kmemset` is given a number of words for its number
-- of bytes. Every other bit of the memory keeps its value, also the rest of the new words.
pub resize_grow :
    (b : Bitmap) (n : ℕ)
    → IsValid b
    → n + 32 < 2 ^ 32
    → b.sets_count ≤ div_ceil n 32
    → div_ceil n 32 ≤ length b.bitsets
    → 0 < n
    → let d = div_ceil n 32 - b.sets_count in
      (b' : Bitmap) × (resize b n ≡ ok b')
      × IsValid b'
      × (b'.length ≡ n)
      × ((i : ℕ)
          → bit b' i ≡ (
              if leb (32 * b.sets_count) i && ltb i (32 * b.sets_count + 8 * d)
              then false
              else bit b i))
unfolding resize
resize_grow b n v h grow room p =
    let (lower, upper) = words_for n h in
    let d = div_ceil n 32 - b.sets_count in
    let diff : div_ceil n 32 -w b.sets_count ≡ d = omega (arith, v) in
    let (ws, e, c) = zero_bytes_from_lem b.bitsets b.sets_count d v.room (omega arith) v.words in
    elim (dec_lt 0 d) [
      | yes pos ↦ (
        record { bitsets = ws; sets_count = div_ceil n 32; length = n },
        rw diff (ground arith),
        record {
          words = c.words;
          room = omega (arith, c.same_length);
          covers = lower;
          tight = upper;
          small = omega arith;
          some_bits = p;
        },
        refl,
        c.bits,
      )
      | no none ↦ (
        record b { sets_count = div_ceil n 32; length = n },
        rw diff (ground arith),
        record {
          words = v.words;
          room = room;
          covers = lower;
          tight = upper;
          small = omega arith;
          some_bits = p;
        },
        refl,
        λ i. ground arith,
      )
    ]

-- Shrinking a valid bitmap by at least one word faults where fewer than 4 GiB less that many bytes
-- follow its words: the difference of the word counts wraps, and `kmemset` writes on.
pub resize_shrink-fault :
    (b : Bitmap) (n : ℕ)
    → IsValid b
    → 0 < n
    → n + 32 < 2 ^ 32
    → div_ceil n 32 < b.sets_count
    → 4 * length b.bitsets < 2 ^ 32 - b.sets_count
    → resize b n ≡ fault
unfolding resize
resize_shrink-fault b n v p h shrink memory =
    let diff : div_ceil n 32 -w b.sets_count ≡ 2 ^ 32 + div_ceil n 32 - b.sets_count =
      omega (arith, v) in
    let written =
      zero_bytes_from-fault b.bitsets b.sets_count (2 ^ 32 + div_ceil n 32 - b.sets_count) v.room
        (omega (arith, v)) in
    rw diff (ground arith)
