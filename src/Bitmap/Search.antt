-- ===== src/Bitmap/Search.antt =====
-- What `bitmap_search_false` finds.
use native.Mathlib.Decide.{ℕ_discrete, dec_lt}
use yaeos.Prelude.{ℕ, zero, suc, ◌+◌, ◌*◌, ◌/◌, ◌%◌, ◌≤◌, ◌<◌, ◌≡◌, arith, refl, ◌≢◌}
use yaeos.Prelude.{true, false, List, length, get_or, get_elem?-eq-get_or, Option, none, some, ok}
use yaeos.Prelude.{==_ne}
use yaeos.Bits.Test.{test_bit, test_bit-complement, test_bit-zero}
use yaeos.Word.{◌+w◌, ◌*w◌}
use yaeos.Utils.{find_first_zero}
use yaeos.Utils.FirstOne.{find_first_zero_lem}
use yaeos.Bitmap.{Bitmap, find_word, search_false, all_ones}
use yaeos.Bitmap.Bit.{IsValid, get_or-lt, bit, bit_of}

-- The words from `i` to before `n` are full.
abbrev Full : List ℕ → ℕ → ℕ → Type 0
Full ws i n = (j : ℕ) → i ≤ j → j < n → get_or ws j 0 ≡ all_ones

-- The first word that is not full, of `rounds` words from `i` on.
abbrev WordFound : List ℕ → ℕ → ℕ → Option ℕ → Type 0
WordFound ws i rounds none = Full ws i (i + rounds)
WordFound ws i rounds (some n) =
    (i ≤ n) × (n < i + rounds) × (get_or ws n 0 ≢ all_ones) × Full ws i n

Full-cons : (ws : List ℕ) (i n : ℕ) → get_or ws i 0 ≡ all_ones → Full ws (suc i) n → Full ws i n
Full-cons ws i n e full j le lt = elim (ℕ_discrete i j) [
  | yes same ↦ rw (← same) e
  | no ne ↦ full j (omega arith) lt
]

WordFound-step :
    (ws : List ℕ) (i rounds : ℕ) (r : Option ℕ)
    → get_or ws i 0 ≡ all_ones
    → WordFound ws (suc i) rounds r
    → WordFound ws i (suc rounds) r
WordFound-step ws i rounds none e f =
    λ j le lt. Full-cons ws i (suc i + rounds) e f j le (omega arith)
WordFound-step ws i rounds (some n) e (le, lt, ne, full) =
    (omega arith, omega arith, ne, Full-cons ws i n e full)

find_word_lem :
    (ws : List ℕ) (i rounds : ℕ)
    → i + rounds ≤ length ws
    → (r : Option ℕ) × (find_word ws i rounds ≡ ok r) × WordFound ws i rounds r
unfolding find_word
find_word_lem ws i zero h = (none, refl, λ j le lt. absurd (omega arith))
find_word_lem ws i (suc rounds) h =
    let read = get_elem?-eq-get_or ws i 0 (omega arith) in
    let (r, e, found) = find_word_lem ws (suc i) rounds (omega arith) in
    elim (ℕ_discrete (get_or ws i 0) all_ones) [
      | yes full ↦ (r, rw (read, full, e), WordFound-step ws i rounds r full found)
      | no ne ↦ (
        some i,
        rw (read, ==_ne _ _ ne),
        (omega arith, omega arith, ne, λ j le lt. absurd (omega arith)),
      )
    ]

-- The lowest bit that is off, or that every bit is on.
abbrev pub FirstFalse : Bitmap → Option ℕ → Type 0
FirstFalse b none = (j : ℕ) → j < b.length → bit b j ≡ true
FirstFalse b (some i) = (i < b.length) × (bit b i ≡ false) × ((j : ℕ) → j < i → bit b j ≡ true)

bit-Full : (ws : List ℕ) (n j : ℕ) → Full ws 0 n → j / 32 < n → bit_of ws j ≡ true
bit-Full ws n j full lt =
    rw (full (j / 32) (omega arith) lt)
      (ground (arith, test_bit-complement 32 0 (j % 32), test_bit-zero (j % 32)))

-- In the word that is not full, the bits below its first zero are on.
bits_below :
    (ws : List ℕ) (n f j : ℕ)
    → Full ws 0 n
    → ((k : ℕ) → k < f → test_bit (get_or ws n 0) k ≡ true)
    → j < n * 32 + f
    → f < 32
    → bit_of ws j ≡ true
bits_below ws n f j full below lt small = elim (dec_lt (j / 32) n) [
  | yes p ↦ bit-Full ws n j full p
  | no p ↦ let same : j / 32 ≡ n = omega arith in rw same (below (j % 32) (omega arith))
]

search_false-after :
    (b : Bitmap) (r : Option ℕ)
    → IsValid b
    → find_word b.bitsets 0 b.sets_count ≡ ok r
    → WordFound b.bitsets 0 b.sets_count r
    → (s : Option ℕ) × (search_false b ≡ ok s) × FirstFalse b s
unfolding search_false
search_false-after b none v e full = (
  none,
  rw e,
  λ j lt. bit-Full b.bitsets b.sets_count j (λ k l m. full k l (omega arith)) (omega (arith, v)),
)
search_false-after b (some n) v e (le, lt, ne, full) =
    let w = get_or b.bitsets n 0 in
    let word = get_or-lt b.bitsets n v.words in
    let read = get_elem?-eq-get_or b.bitsets n 0 (omega (arith, v)) in
    let (small, off, below) = find_first_zero_lem w (omega arith) in
    let f = find_first_zero w in
    let index : n *w 32 +w f ≡ n * 32 + f = omega (arith, v) in
    elim (dec_lt (n * 32 + f) b.length) [
      | yes in_range ↦ (
        some (n * 32 + f),
        rw (e, read, index) (ground arith),
        (
          in_range,
          (let word_ndx : (n * 32 + f) / 32 ≡ n = omega arith in
              let bit_ndx : (n * 32 + f) % 32 ≡ f = omega arith in rw (word_ndx, bit_ndx) off),
          λ j l. bits_below b.bitsets n f j full below l small,
        ),
      )
      | no past ↦ (
        none,
        rw (e, read, index) (ground arith),
        λ j l. bits_below b.bitsets n f j full below (omega arith) small,
      )
    ]

-- `bitmap_search_false` on a valid bitmap returns the lowest bit that is off; it returns none
-- exactly where every bit below the length is on, and it never panics or faults.
pub search_false_lem :
    (b : Bitmap) → IsValid b → (r : Option ℕ) × (search_false b ≡ ok r) × FirstFalse b r
search_false_lem b v =
    let (r, e, found) = find_word_lem b.bitsets 0 b.sets_count (omega (arith, v)) in
    search_false-after b r v e found
