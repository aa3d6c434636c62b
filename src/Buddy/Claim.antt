-- ===== src/Buddy/Claim.antt =====
-- `occupy_buddy`, and what `buddy_alloc` and `buddy_try_alloc` do with the chunk that they take.
use yaeos.Prelude.{ℕ, zero, suc, ◌+◌, ◌/◌, ◌^◌, ◌≤◌, ◌<◌, ◌≡◌, arith, refl, ap}
use yaeos.Prelude.{Bool, true, false, ok, fault, ltb, leb, ◌==◌, ◌&&◌, ◌||◌, >>=-ok}
use yaeos.Prelude.{Bool-cases, Option, none, some, ◌⊎◌, inl, inr, get_elem?_past}
use yaeos.Bitmap
use yaeos.Bitmap.Search.{FirstFalse, search_false_lem}
use yaeos.Buddy.{
  BuddyManager, change_level, at_level, occupy_level, occupy_levels, occupy_buddy, alloc,
}
use yaeos.Buddy.Levels.{IsValid, Marked, at_chunk, change_true, level, used, level_read}
use yaeos.Buddy.Levels.{Writes, Writes-none, Writes-bind, Writes-same}
use yaeos.Buddy.Occupy.{below, occupy_descendants_lem}

-- The chunks that the loop of `occupy_buddy` marks: one in each level, by the index of the chunk
-- shifted by the level, where the level is that long.
abbrev pub line : ℕ → ℕ → ℕ → ℕ → Bool
line pages bit l j = (j == bit / 2 ^ l) && ltb j (pages / 2 ^ l)

module _ (pages : ℕ) (m : BuddyManager) (bit i : ℕ) (v : IsValid pages m) (lt : i < m.lvls) where
  level_length : at_level (λ b. ok b.length) m i ≡ ok (pages / 2 ^ i)
  level_length = rw (level_read pages m i v lt) (ap ok (v.lengths i lt))

  occupy_level-fits :
      ltb (bit / 2 ^ i) (pages / 2 ^ i) ≡ true
      → occupy_level m bit i ≡ change_level (λ b. Bitmap.set_true b (bit / 2 ^ i)) m i
  unfolding occupy_level
  occupy_level-fits fits = >>=-ok _ level_length (rw fits)

  occupy_level-past : ltb (bit / 2 ^ i) (pages / 2 ^ i) ≡ false → occupy_level m bit i ≡ ok m
  unfolding occupy_level
  occupy_level-past past = >>=-ok _ level_length (rw past)

  occupy_level_lem :
      Writes pages true (λ l j. (i == l) && line pages bit l j) m (occupy_level m bit i)
  occupy_level_lem = elim (Bool-cases (ltb (bit / 2 ^ i) (pages / 2 ^ i))) [
    | inl fits ↦ rw (occupy_level-fits fits) (
        Writes-same pages true _ _ m (λ l j _. at_line fits l j)
          (change_true pages m i v lt (bit / 2 ^ i) (ground arith)))
    | inr past ↦
        rw (occupy_level-past past)
          (Writes-same pages true _ _ m (λ l j _. off_line past l j) (Writes-none pages true m v))
  ]
    where
      at_line :
          ltb (bit / 2 ^ i) (pages / 2 ^ i) ≡ true
          → (l j : ℕ) → at_chunk i (bit / 2 ^ i) l j ≡ ((i == l) && line pages bit l j)
      at_line fits l j = ground arith

      off_line :
          ltb (bit / 2 ^ i) (pages / 2 ^ i) ≡ false
          → (l j : ℕ) → false ≡ ((i == l) && line pages bit l j)
      off_line past l j = ground arith

occupy_levels_lem :
    (pages : ℕ) (m : BuddyManager) (bit i rounds : ℕ)
    → IsValid pages m
    → i + rounds ≤ m.lvls
    → Writes pages true
        (λ l j. (leb i l && ltb l (i + rounds)) && line pages bit l j)
        m
        (occupy_levels m bit i rounds)
unfolding occupy_levels
occupy_levels_lem pages m bit i zero v h =
    Writes-same pages true _ _ m (λ l j _. ground arith) (Writes-none pages true m v)
occupy_levels_lem pages m bit i (suc rounds) v h =
    Writes-same pages true _ _ m (λ l j _. ground arith)
      (Writes-bind pages true _ _ m _ (occupy_level_lem pages m bit i v (omega arith))
        λ m' p. occupy_levels_lem pages m' bit (suc i) rounds p.valid (omega (arith, p.same_lvls)))

-- The chunks that taking chunk `bit` of level `lvl` marks.
abbrev pub claimed : ℕ → ℕ → ℕ → ℕ → ℕ → Bool
claimed pages lvl bit l j = line pages bit l j || below lvl bit l j

-- `occupy_buddy` of a chunk marks what lies below it and, in each level that is long enough, the
-- chunk whose index is that of the taken chunk shifted by the level, and nothing else.
pub occupy_buddy_lem :
    (pages : ℕ) (m : BuddyManager) (lvl bit : ℕ)
    → IsValid pages m
    → lvl < m.lvls
    → bit < pages / 2 ^ lvl
    → Writes pages true (claimed pages lvl bit) m (occupy_buddy m lvl bit)
unfolding occupy_buddy
occupy_buddy_lem pages m lvl bit v lt h =
    Writes-bind pages true _ _ m _ (occupy_descendants_lem pages m lvl bit v lt h) λ m' p.
      Writes-same pages true _ _ m' (λ l j below'. ground arith)
        (occupy_levels_lem pages m' bit 0 m'.lvls p.valid (omega arith))

module _ (pages : ℕ) (m : BuddyManager) (order : ℕ) (v : IsValid pages m)
    (lt : order < m.lvls) where
  not_past : ltb m.lvls order ≡ false
  not_past = ground arith

  search_at_level :
      (r : Option ℕ)
      → Bitmap.search_false (level m order) ≡ ok r
      → at_level Bitmap.search_false m order ≡ ok r
  search_at_level r e = rw (level_read pages m order v lt) e

  alloc-none : Bitmap.search_false (level m order) ≡ ok none → alloc m order ≡ ok (none, m)
  unfolding alloc
  alloc-none e = rw not_past (>>=-ok _ (search_at_level none e) refl)

  alloc-some :
      (ndx : ℕ) (m' : BuddyManager)
      → Bitmap.search_false (level m order) ≡ ok (some ndx)
      → occupy_buddy m order ndx ≡ ok m'
      → alloc m order ≡ ok (some ndx, m')
  unfolding alloc
  alloc-some ndx m' e o = rw not_past (>>=-ok _ (search_at_level (some ndx) e) (>>=-ok _ o refl))

  -- Of a level that the manager has, `buddy_alloc` takes the lowest chunk that is not marked there,
  -- and marks what `occupy_buddy` marks; it returns false exactly where all chunks of the level are
  -- marked, and then changes nothing. It never panics or faults.
  pub alloc_lowest :
      (alloc m order ≡ ok (none, m)) × ((j : ℕ) → j < pages / 2 ^ order → used m order j ≡ true)
      ⊎ (ndx : ℕ) × (m' : BuddyManager) × (alloc m order ≡ ok (some ndx, m'))
        × (ndx < pages / 2 ^ order)
        × (used m order ndx ≡ false)
        × ((j : ℕ) → j < ndx → used m order j ≡ true)
        × Marked pages true (claimed pages order ndx) m m'
  alloc_lowest =
      let (r, e, found) = search_false_lem (level m order) (v.bitmaps order lt) in after r e found
    where
      after :
          (r : Option ℕ)
          → Bitmap.search_false (level m order) ≡ ok r
          → FirstFalse (level m order) r
          → (alloc m order ≡ ok (none, m))
              × ((j : ℕ) → j < pages / 2 ^ order → used m order j ≡ true)
            ⊎ (ndx : ℕ) × (m' : BuddyManager) × (alloc m order ≡ ok (some ndx, m'))
              × (ndx < pages / 2 ^ order)
              × (used m order ndx ≡ false)
              × ((j : ℕ) → j < ndx → used m order j ≡ true)
              × Marked pages true (claimed pages order ndx) m m'
      after none e full = inl (alloc-none e, λ j h. full j (omega (arith, v.lengths order lt)))
      after (some ndx) e (h, off, lower) =
          let in_range : ndx < pages / 2 ^ order = omega (arith, v.lengths order lt) in
          let (m', o, p) = occupy_buddy_lem pages m order ndx v lt in_range in
          inr (ndx, m', alloc-some ndx m' e o, in_range, off, lower, p)

-- An order equal to the number of levels passes the test of `buddy_alloc`, and the bitmap past the
-- end of the array is read.
pub alloc_past_levels : (pages : ℕ) (m : BuddyManager) → IsValid pages m → alloc m m.lvls ≡ fault
unfolding alloc
alloc_past_levels pages m v =
    let here : ltb m.lvls m.lvls ≡ false = ground arith in
    rw (here, get_elem?_past m.lvl_bitmaps m.lvls (omega (arith, v.count)))
