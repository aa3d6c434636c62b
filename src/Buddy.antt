-- ===== src/Buddy.antt =====
-- The buddy allocator of kernel/lib/mm/buddy.c: one bitmap for each level, over memory that a
-- linear allocator hands out. `lvl_bitmaps` is a list; an index past its end is a fault.
pub mod Space
pub mod Fresh
pub mod Init
pub mod Levels
pub mod Occupy
pub mod Free
pub mod Claim
pub mod Blocks
mod Tests
use yaeos.Prelude.{ℕ, zero, suc, ◌+◌, ◌-◌, ◌/◌, Bool, true, false, not, ltb, leb, ◌==◌, ◌||◌}
use yaeos.Prelude.{Option, none, some, List, [], ◌∷◌, get_elem?, set, if◌then◌else◌}
use yaeos.Prelude.{Outcome, ok, panic, ◌>>=◌, ◌>>◌, kassert, access}
use yaeos.Word.{◌+w◌, ◌-w◌, ◌*w◌, shl, shr}
use yaeos.Utils.{log2_floor}
use yaeos.Linear
use yaeos.Linear.{LinearAlloc}
use yaeos.Bitmap
use yaeos.Bitmap.{Bitmap}

-- `struct buddy_manager`
pub record BuddyManager : Type 0 where
  pub alloc : LinearAlloc
  pub lvl_bitmaps : List Bitmap
  pub lvls : ℕ

-- `sizeof(struct bitmap)`: three words of four bytes.
abbrev pub sizeof_bitmap : ℕ
sizeof_bitmap = 12

unfoldable pub get_max_index : ℕ → ℕ → Outcome ℕ
get_max_index pages lvl = do kassert (ltb 0 (shr pages lvl)); ok (shr pages lvl -w 1)

-- The loop of `buddy_predict_req_space`, at level `i` with `rounds` levels to go.
unfoldable pub predict_bitmaps : ℕ → ℕ → ℕ → ℕ → Outcome ℕ
predict_bitmaps pages i zero bitmaps = ok bitmaps
predict_bitmaps pages i (suc rounds) bitmaps = do
  max_index ← get_max_index pages i
  size ← Bitmap.predict_size (max_index +w 1)
  predict_bitmaps pages (suc i) rounds (bitmaps +w size)

unfoldable pub predict_req_space : ℕ → Outcome ℕ
predict_req_space pages = do
  log ← log2_floor pages
  let lvls = log +w 1
  bitmaps ← predict_bitmaps pages 0 lvls 0
  ok (bitmaps +w lvls *w sizeof_bitmap)

-- The `n` words of memory from an address on: `memory` is the word at each address.
unfoldable pub words_at : (ℕ → ℕ) → ℕ → ℕ → List ℕ
words_at memory p zero = []
words_at memory p (suc n) = memory p ∷ words_at memory (p + 4) n

-- The loop of `buddy_init`, at level `lvl` with `rounds` levels to go: the bitmaps of those levels.
unfoldable pub init_levels : (ℕ → ℕ) → ℕ → ℕ → ℕ → LinearAlloc → Outcome (List Bitmap × LinearAlloc)
init_levels memory pages lvl zero alloc = ok ([], alloc)
init_levels memory pages lvl (suc rounds) alloc = do
  max_index ← get_max_index pages lvl
  let bits_req = max_index +w 1
  size ← Bitmap.predict_size bits_req
  let (space, alloc') = Linear.alloc alloc size
  elim space [
    | none ↦ panic
    | some p ↦ do
      b ← Bitmap.init (words_at memory p (size / 4)) bits_req
      (bitmaps, alloc'') ← init_levels memory pages (suc lvl) rounds alloc'
      ok (b ∷ bitmaps, alloc'')
  ]

-- `buddy_init`. The result of the first allocation is not tested: NULL is written through.
unfoldable pub init : (ℕ → ℕ) → ℕ → LinearAlloc → Outcome (ℕ × BuddyManager)
init memory pages alloc = do
  log ← log2_floor pages
  let lvls = log +w 1
  let (array, alloc') = Linear.alloc alloc (lvls *w sizeof_bitmap)
  access array
  (bitmaps, alloc'') ← init_levels memory pages 0 lvls alloc'
  predicted ← predict_req_space pages
  kassert (Linear.occupied alloc'' -w Linear.occupied alloc == predicted)
  max_index ← get_max_index pages 0
  ok (max_index, record { alloc = alloc''; lvl_bitmaps = bitmaps; lvls = lvls })

-- A call on the bitmap of one level, and one that changes it.
abbrev pub at_level {ℓ} : {A : Type ℓ} → (Bitmap → Outcome A) → BuddyManager → ℕ → Outcome A
at_level f m lvl = access (get_elem? m.lvl_bitmaps lvl) >>= f

abbrev pub change_level : (Bitmap → Outcome Bitmap) → BuddyManager → ℕ → Outcome BuddyManager
change_level f m lvl =
    at_level f m lvl >>= λ b. ok (record m { lvl_bitmaps = set m.lvl_bitmaps lvl b })

unfoldable pub occupy_descendants : BuddyManager → ℕ → ℕ → Outcome BuddyManager
occupy_descendants m zero bit = ok m
occupy_descendants m (suc lvl) bit = do
  let left = shl bit 1
  m₁ ← change_level (λ b. Bitmap.set_true b left) m lvl
  m₂ ← change_level (λ b. Bitmap.set_true b (left +w 1)) m₁ lvl
  m₃ ← occupy_descendants m₂ lvl left
  occupy_descendants m₃ lvl (left +w 1)

-- The body of the loop of `occupy_buddy` at level `i`.
unfoldable pub occupy_level : BuddyManager → ℕ → ℕ → Outcome BuddyManager
occupy_level m bit i = do
  length ← at_level (λ b. ok b.length) m i
  if ltb (shr bit i) length then change_level (λ b. Bitmap.set_true b (shr bit i)) m i else ok m

-- The loop, at level `i` with `rounds` levels to go.
unfoldable pub occupy_levels : BuddyManager → ℕ → ℕ → ℕ → Outcome BuddyManager
occupy_levels m bit i zero = ok m
occupy_levels m bit i (suc rounds) =
    occupy_level m bit i >>= λ m'. occupy_levels m' bit (suc i) rounds

unfoldable pub occupy_buddy : BuddyManager → ℕ → ℕ → Outcome BuddyManager
occupy_buddy m lvl bit = do m' ← occupy_descendants m lvl bit; occupy_levels m' bit 0 m'.lvls

-- The loop of `free_buddys_ancestors`: it tests `lvl <= bmgr->lvls`, which holds for `rounds` rounds.
unfoldable pub free_ancestors_loop : ℕ → BuddyManager → ℕ → ℕ → Outcome BuddyManager
free_ancestors_loop zero m lvl bit = ok m
free_ancestors_loop (suc rounds) m lvl bit = do
  let parent = shr bit 1
  left_child_free ← at_level (λ b. Bitmap.get b (shl parent 1)) m lvl
  right_child_free ← at_level (λ b. Bitmap.get b (shl parent 1 +w 1)) m lvl
  let cleared = change_level (λ b. Bitmap.set_false b parent) m (suc lvl)
  let rest = cleared >>= λ m'. free_ancestors_loop rounds m' (suc lvl) parent
  if not left_child_free || not right_child_free then ok m else rest

unfoldable pub free_ancestors : BuddyManager → ℕ → ℕ → Outcome BuddyManager
free_ancestors m lvl bit = free_ancestors_loop (m.lvls + 1 - lvl) m lvl bit

unfoldable pub free_children : BuddyManager → ℕ → ℕ → Outcome BuddyManager
free_children m zero bit = ok m
free_children m (suc lvl) bit = do
  let left = shl bit 1
  m₁ ← change_level (λ b. Bitmap.set_false b left) m lvl
  m₂ ← change_level (λ b. Bitmap.set_false b (left +w 1)) m₁ lvl
  m₃ ← free_children m₂ lvl left
  free_children m₃ lvl (left +w 1)

unfoldable pub free_buddy : BuddyManager → ℕ → ℕ → Outcome BuddyManager
free_buddy m lvl bit = do
  m₁ ← change_level (λ b. Bitmap.set_false b bit) m lvl
  m₂ ← free_children m₁ lvl bit
  free_ancestors m₂ lvl bit

unfoldable pub try_alloc : BuddyManager → ℕ → ℕ → Outcome (Bool × BuddyManager)
try_alloc m order page_ndx = do
  occupied ← at_level (λ b. Bitmap.get b page_ndx) m order
  let taken = occupy_buddy m order page_ndx
  if occupied then ok (false, m) else (taken >>= λ m'. ok (true, m'))

-- `none` where `buddy_alloc` returns false, and else the index that it stores.
unfoldable pub alloc : BuddyManager → ℕ → Outcome (Option ℕ × BuddyManager)
alloc m order = if ltb m.lvls order then ok (none, m) else do
  found ← at_level Bitmap.search_false m order
  elim found [
    | none ↦ ok (none, m)
    | some ndx ↦ occupy_buddy m order ndx >>= λ m'. ok (some ndx, m')
  ]

unfoldable pub free : BuddyManager → ℕ → ℕ → Outcome BuddyManager
free m page_ndx order = free_buddy m order page_ndx

unfoldable pub is_free : BuddyManager → ℕ → Outcome Bool
is_free m page_ndx = at_level (λ b. Bitmap.get b page_ndx) m 0 >>= λ bit. ok (not bit)
