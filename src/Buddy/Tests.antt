-- ===== src/Buddy/Tests.antt =====
-- The buddy allocator of kernel/lib/mm/buddy.c at concrete managers.
use yaeos.Prelude.{ℕ, zero, suc, ◌/◌, ◌^◌, ◌≤◌, ◌<◌, ◌≡◌, ◌⊎◌, refl, arith, true, false, ◌==◌}
use yaeos.Prelude.{none, some, [], ◌∷◌, if◌then◌else◌, lt_wf, ok, panic, fault}
use yaeos.Linear.{LinearAlloc}
use yaeos.Linear.Blocks
use yaeos.Linear.Blocks.{moved}
use yaeos.Bitmap.{Bitmap, search_false, find_word, set_true, predict_size}
use yaeos.Align.{align_roundup}
use native.Mathlib.Decide.{dec_lt}
use yaeos.Bitmap.Bit
use yaeos.Utils.{find_first_one, find_first_zero, log2_floor, leading_zeros, count_shifts}
use yaeos.Bits.Test.{test_bit}
use yaeos.Buddy.{BuddyManager, alloc, predict_req_space, predict_bitmaps, get_max_index}
use yaeos.Buddy.{occupy_buddy, occupy_descendants, occupy_levels, occupy_level}
use yaeos.Buddy.{init, free, is_free}
use yaeos.Buddy.Claim.{claimed, alloc_lowest, alloc_past_levels}
use yaeos.Buddy.Blocks.{alloc_twice, alloc_marks_pages, alloc_page}
use yaeos.Buddy.Free.{released, free_releases, free-panic}
use yaeos.Buddy.Init.{init_all_free}
use yaeos.Buddy.Levels.{IsValid, Marked, Writes, used, level}

abbrev one_word : ℕ → ℕ → Bitmap
one_word w n = record { bitsets = w ∷ []; sets_count = 1; length = n }

one_word-IsValid : (w n : ℕ) → w < 2 ^ 32 → 0 < n → n ≤ 32 → Bit.IsValid (one_word w n)
one_word-IsValid w n small some_bits few = record {
  words = (small, tt);
  room = omega arith;
  covers = omega arith;
  tight = omega arith;
  small = omega arith;
  some_bits = some_bits;
}

-- Eight pages in four levels, with the words of the levels' bitmaps.
abbrev manager : ℕ → ℕ → ℕ → ℕ → BuddyManager
manager w₀ w₁ w₂ w₃ = record {
  alloc = record { base = 4096; position = 4160; limit = 8192 };
  lvl_bitmaps = one_word w₀ 8 ∷ one_word w₁ 4 ∷ one_word w₂ 2 ∷ one_word w₃ 1 ∷ [];
  lvls = 4;
}

module _ (w₀ w₁ w₂ w₃ : ℕ) (h₀ : w₀ < 2 ^ 32) (h₁ : w₁ < 2 ^ 32) (h₂ : w₂ < 2 ^ 32)
    (h₃ : w₃ < 2 ^ 32) where
  manager-bitmaps : (l : ℕ) → l < 4 → Bit.IsValid (level (manager w₀ w₁ w₂ w₃) l)
  manager-bitmaps zero h = one_word-IsValid w₀ 8 h₀ (omega arith) (omega arith)
  manager-bitmaps (suc zero) h = one_word-IsValid w₁ 4 h₁ (omega arith) (omega arith)
  manager-bitmaps (suc (suc zero)) h = one_word-IsValid w₂ 2 h₂ (omega arith) (omega arith)
  manager-bitmaps (suc (suc (suc zero))) h = one_word-IsValid w₃ 1 h₃ (omega arith) (omega arith)
  manager-bitmaps (suc (suc (suc (suc l)))) h = absurd (omega arith)

  manager-lengths : (l : ℕ) → l < 4 → (level (manager w₀ w₁ w₂ w₃) l).length ≡ 8 / 2 ^ l
  manager-lengths zero h = refl
  manager-lengths (suc zero) h = refl
  manager-lengths (suc (suc zero)) h = refl
  manager-lengths (suc (suc (suc zero))) h = refl
  manager-lengths (suc (suc (suc (suc l)))) h = absurd (omega arith)

  manager-IsValid : IsValid 8 (manager w₀ w₁ w₂ w₃)
  manager-IsValid = record {
    count = refl;
    bitmaps = manager-bitmaps;
    lengths = manager-lengths;
    pages_fit = omega arith;
    few_levels = omega arith;
  }

-- Nothing is taken; and the first pair of pages is.
abbrev fresh : BuddyManager
fresh = manager 0 0 0 0

abbrev pair_taken : BuddyManager
pair_taken = manager 3 1 1 1

fresh-IsValid : IsValid 8 fresh
fresh-IsValid = manager-IsValid 0 0 0 0 (omega arith) (omega arith) (omega arith) (omega arith)

pair_taken-IsValid : IsValid 8 pair_taken
pair_taken-IsValid = manager-IsValid 3 1 1 1 (omega arith) (omega arith) (omega arith) (omega arith)

-- Two pairs are taken.
abbrev second_taken : BuddyManager
second_taken = manager 15 1 1 1

second_taken-IsValid : IsValid 8 second_taken
second_taken-IsValid =
    manager-IsValid 15 1 1 1 (omega arith) (omega arith) (omega arith) (omega arith)

abbrev region : LinearAlloc
region = record { base = 4096; position = 4096; limit = 8192 }

region-IsValid : Blocks.IsValid region
region-IsValid = record {
  above = omega arith;
  below = omega arith;
  fits = omega arith;
  not_null = omega arith;
}

-- The second pair is taken: its pages are marked in level 0, and its own chunk is not in level 1.
take_second : alloc pair_taken 1 ≡ ok (some 1, second_taken)
unfolding alloc search_false find_word find_first_zero find_first_one count_shifts lt_wf dec_lt
    occupy_buddy occupy_descendants occupy_levels occupy_level set_true
take_second = refl

needs_64_bytes : predict_req_space 8 ≡ ok 64
unfolding predict_req_space log2_floor leading_zeros test_bit predict_bitmaps get_max_index
    predict_size align_roundup
needs_64_bytes = refl

alloc_lowest_example :
    (alloc pair_taken 1 ≡ ok (none, pair_taken))
      × ((j : ℕ) → j < 8 / 2 ^ 1 → used pair_taken 1 j ≡ true)
    ⊎ (ndx : ℕ) × (m' : BuddyManager) × (alloc pair_taken 1 ≡ ok (some ndx, m'))
      × (ndx < 8 / 2 ^ 1)
      × (used pair_taken 1 ndx ≡ false)
      × ((j : ℕ) → j < ndx → used pair_taken 1 j ≡ true)
      × Marked 8 true (claimed 8 1 ndx) pair_taken m'
alloc_lowest_example = alloc_lowest 8 pair_taken 1 pair_taken-IsValid (omega arith)

alloc_page_example :
    (alloc pair_taken 0 ≡ ok (none, pair_taken)) × ((j : ℕ) → j < 8 → used pair_taken 0 j ≡ true)
    ⊎ (page : ℕ) × (m' : BuddyManager) × (alloc pair_taken 0 ≡ ok (some page, m'))
      × IsValid 8 m'
      × (page < 8)
      × (used pair_taken 0 page ≡ false)
      × ((j : ℕ) → j < page → used pair_taken 0 j ≡ true)
      × ((j : ℕ) → used m' 0 j ≡ (if j == page then true else used pair_taken 0 j))
alloc_page_example = alloc_page 8 pair_taken pair_taken-IsValid (omega arith)

alloc_marks_pages_example : (used second_taken 0 3 ≡ true) × (is_free second_taken 3 ≡ ok false)
alloc_marks_pages_example =
    alloc_marks_pages 8 pair_taken second_taken 1 1 pair_taken-IsValid (omega arith) take_second 3
      refl

alloc_twice_example : (m'' : BuddyManager) × (alloc second_taken 1 ≡ ok (some 1, m''))
alloc_twice_example =
    alloc_twice 8 pair_taken second_taken 1 1 pair_taken-IsValid (omega arith) (omega arith)
      (omega arith) take_second

init_all_free_example :
    (m : BuddyManager) × (init (λ _. 0) 8 region ≡ ok (7, m))
    × IsValid 8 m
    × (0 < m.lvls)
    × (m.alloc ≡ moved region 4160)
    × ((l j : ℕ) → l < m.lvls → j < 8 / 2 ^ l → used m l j ≡ false)
init_all_free_example =
    init_all_free (λ _. 0) 8 64 region (λ _. omega arith) (omega arith) (omega arith) region-IsValid
      needs_64_bytes (omega arith)

free_releases_example : Writes 8 false (released 1 0) second_taken (free second_taken 0 1)
free_releases_example =
    free_releases 8 second_taken 0 1 second_taken-IsValid (omega arith) (omega arith) (omega arith)

free-panic_example : free second_taken 0 3 ≡ panic
free-panic_example =
    free-panic 8 second_taken 0 3 second_taken-IsValid (omega arith) (omega arith) (omega arith)

alloc_past_levels_example : alloc fresh 4 ≡ fault
alloc_past_levels_example = alloc_past_levels 8 fresh fresh-IsValid
