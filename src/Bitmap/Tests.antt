-- ===== src/Bitmap/Tests.antt =====
-- The bitmap of kernel/lib/ds/bitmap.c at concrete bitmaps.
use yaeos.Prelude.{ℕ, ◌+◌, ◌-◌, ◌*◌, ◌≤◌, ◌<◌, ◌≡◌, arith, false, ◌&&◌}
use yaeos.Prelude.{ltb, leb, if◌then◌else◌, Option, [], ◌∷◌, ok, fault}
use yaeos.Utils.{div_ceil}
use yaeos.Bitmap.{Bitmap, search_false, resize}
use yaeos.Bitmap.Bit.{IsValid, bit}
use yaeos.Bitmap.Search.{FirstFalse, search_false_lem}
use yaeos.Bitmap.Resize.{resize_grow, resize_shrink-fault}

-- Forty bits in two words, of which the first 33 are on; the memory has a third word.
abbrev forty : Bitmap
forty = record { bitsets = 4294967295 ∷ 1 ∷ 7 ∷ []; sets_count = 2; length = 40 }

forty-IsValid : IsValid forty
forty-IsValid = record {
  words = (omega arith, (omega arith, (omega arith, tt)));
  room = omega arith;
  covers = omega arith;
  tight = omega arith;
  small = omega arith;
  some_bits = omega arith;
}

-- The words that 40, 20 and 70 bits take.
words_of : (div_ceil 40 32 ≤ 2) × (div_ceil 20 32 < 2) × (2 ≤ div_ceil 70 32) × (div_ceil 70 32 ≤ 3)
unfolding div_ceil
words_of = (omega arith, omega arith, omega arith, omega arith)

search_false_lem_example : (r : Option ℕ) × (search_false forty ≡ ok r) × FirstFalse forty r
search_false_lem_example = search_false_lem forty forty-IsValid

resize_grow_example :
    let d = div_ceil 70 32 - forty.sets_count in
    (b' : Bitmap) × (resize forty 70 ≡ ok b')
    × IsValid b'
    × (b'.length ≡ 70)
    × ((i : ℕ)
        → bit b' i ≡ (
            if leb (32 * forty.sets_count) i && ltb i (32 * forty.sets_count + 8 * d)
            then false
            else bit forty i))
resize_grow_example =
    resize_grow forty 70 forty-IsValid (omega arith) words_of.2 words_of.3 (omega arith)

resize_shrink-fault_example : resize forty 20 ≡ fault
resize_shrink-fault_example =
    resize_shrink-fault forty 20 forty-IsValid (omega arith) (omega arith) words_of.1 (omega arith)
