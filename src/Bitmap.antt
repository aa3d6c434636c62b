-- ===== src/Bitmap.antt =====
-- The bitmap of kernel/lib/ds/bitmap.c. The memory behind `bitsets` is a list of 32-bit words, which
-- may go on past `sets_count`; an access outside the list is a fault.
pub mod Bit
pub mod Update
pub mod Search
pub mod Memset
pub mod Resize
mod Tests
use yaeos.Prelude.{
  ℕ, zero, suc, ◌+◌, ◌-◌, ◌*◌, ◌/◌, ◌%◌, ◌^◌, bit_and, bit_or, Bool, not, ltb, ◌==◌,
}
use yaeos.Prelude.{Option, none, some, List, [], ◌∷◌, get_elem?, set, if◌then◌else◌}
use yaeos.Prelude.{Outcome, ok, fault, ◌>>=◌, ◌>>◌, kassert, access}
use yaeos.Word.{◌+w◌, ◌-w◌, ◌*w◌, shl, complement}
use yaeos.Align.{align_roundup}
use yaeos.Utils.{div_ceil, find_first_zero}

-- `struct bitmap`
pub record Bitmap : Type 0 where
  pub bitsets : List ℕ
  pub sets_count : ℕ
  pub length : ℕ

-- `BITS_IN_SET`, and the word with all digits one.
abbrev pub bits_in_set : ℕ
bits_in_set = 32

abbrev pub all_ones : ℕ
all_ones = complement 0

-- The loop of `bitmap_search_false`, at word `i` with `rounds` words to go.
unfoldable pub find_word : List ℕ → ℕ → ℕ → Outcome (Option ℕ)
find_word words i zero = ok none
find_word words i (suc rounds) = do
  w ← access (get_elem? words i)
  if w == all_ones then find_word words (suc i) rounds else ok (some i)

-- `bitmap_search_false`: the result through the pointer, or `none` where it returns false.
unfoldable pub search_false : Bitmap → Outcome (Option ℕ)
search_false b = do
  found ← find_word b.bitsets 0 b.sets_count
  elim found [
    | none ↦ ok none
    | some word_ndx ↦ do
      w ← access (get_elem? b.bitsets word_ndx)
      let bit_abs_ndx = word_ndx *w bits_in_set +w find_first_zero w
      ok (if ltb bit_abs_ndx b.length then some bit_abs_ndx else none)
  ]

-- `assert_bounds` at the indices that `get_indices` computes.
abbrev pub assert_bounds : Bitmap → ℕ → Outcome (Unit {0})
assert_bounds b index =
    kassert (ltb (index / bits_in_set *w bits_in_set +w index % bits_in_set) b.length)

unfoldable pub get : Bitmap → ℕ → Outcome Bool
get b index = do
  assert_bounds b index
  w ← access (get_elem? b.bitsets (index / bits_in_set))
  ok (not (bit_and w (shl 1 (index % bits_in_set)) == 0))

-- The word at `index` is read, changed by `f` and written back.
abbrev pub modify : (ℕ → ℕ) → Bitmap → ℕ → Outcome Bitmap
modify f b index = do
  assert_bounds b index
  w ← access (get_elem? b.bitsets (index / bits_in_set))
  ok (record b { bitsets = set b.bitsets (index / bits_in_set) (f w) })

unfoldable pub set_true : Bitmap → ℕ → Outcome Bitmap
set_true b index = modify (λ w. bit_or w (shl 1 (index % bits_in_set))) b index

unfoldable pub set_false : Bitmap → ℕ → Outcome Bitmap
set_false b index = modify (λ w. bit_and w (complement (shl 1 (index % bits_in_set)))) b index

unfoldable pub predict_size : ℕ → Outcome ℕ
predict_size length_bits = do
  kassert (ltb 0 length_bits)
  ok (align_roundup length_bits bits_in_set / 8)

-- `kmemset` with 0 over `n` bytes from the first word on. The machine is little-endian, so the
-- first bytes of a word are its low digits.
unfoldable pub zero_bytes : List ℕ → ℕ → Outcome (List ℕ)
zero_bytes [] n = if n == 0 then ok [] else fault
zero_bytes (w ∷ ws) n =
    let rest = zero_bytes ws (n - 4) in
    if ltb n 4 then ok (w / 2 ^ (8 * n) * 2 ^ (8 * n) ∷ ws) else (rest >>= λ ws'. ok (0 ∷ ws'))

-- The same from word `offset` on.
unfoldable pub zero_bytes_from : List ℕ → ℕ → ℕ → Outcome (List ℕ)
zero_bytes_from ws zero n = zero_bytes ws n
zero_bytes_from [] (suc offset) n = if n == 0 then ok [] else fault
zero_bytes_from (w ∷ ws) (suc offset) n = zero_bytes_from ws offset n >>= λ ws'. ok (w ∷ ws')

-- `bitmap_init` over the words of `space`, which is not NULL.
unfoldable pub init : List ℕ → ℕ → Outcome Bitmap
init space length_bits = do
  kassert (ltb 0 length_bits)
  let sets_count = div_ceil length_bits bits_in_set
  words ← zero_bytes space (sets_count *w 4)
  ok (record { bitsets = words; sets_count = sets_count; length = length_bits })

unfoldable pub resize : Bitmap → ℕ → Outcome Bitmap
resize b new_length_bits = do
  kassert (ltb 0 new_length_bits)
  let sets_count = div_ceil new_length_bits bits_in_set
  let sets_count_diff = sets_count -w b.sets_count
  words ←
      (if ltb 0 sets_count_diff
        then zero_bytes_from b.bitsets b.sets_count sets_count_diff
        else ok b.bitsets)
  ok (record { bitsets = words; sets_count = sets_count; length = new_length_bits })
