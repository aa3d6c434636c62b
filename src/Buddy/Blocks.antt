-- ===== src/Buddy/Blocks.antt =====
-- Which pages a client of `buddy_alloc` gets, and when it gets the same chunk again.
use native.Mathlib.Nat.{div-mul-le_self, le-div_iff_mul-le, div-lt_self, one-le-pow, pow-suc}
use native.Mathlib.Decide.{dec_lt}
use yaeos.Prelude.{ℕ, zero, suc, ◌/◌, ◌^◌, ◌≤◌, ◌<◌, ◌≡◌, arith, refl}
use yaeos.Prelude.{true, false, ok, ltb, ◌==◌, if◌then◌else◌, not}
use yaeos.Prelude.{none, some, ◌⊎◌, inl, inr, panic, ◌∙◌, >>=-ok, >>=-panic, Bool-cases}
use mathlib.Core.Path.{subst, subst₂}
use yaeos.Buddy.{BuddyManager, alloc, is_free}
use yaeos.Buddy.Levels.{IsValid, Marked, used, get_level}
use yaeos.Buddy.Claim.{claimed, alloc_lowest}

-- What the successful call took, told of the manager that it returned.
record Took (pages : ℕ) (m : BuddyManager) (order ndx : ℕ) (m' : BuddyManager) : Type 0 where
  in_range : ndx < pages / 2 ^ order
  off : used m order ndx ≡ false
  lower : (j : ℕ) → j < ndx → used m order j ≡ true
  marked : Marked pages true (claimed pages order ndx) m m'

module _ (pages : ℕ) (m : BuddyManager) (order : ℕ) (v : IsValid pages m)
    (lt : order < m.lvls) where
  alloc-Took :
      (ndx : ℕ) (m' : BuddyManager) → alloc m order ≡ ok (some ndx, m') → Took pages m order ndx m'
  alloc-Took ndx m' e = elim (alloc_lowest pages m order v lt) [
    | inl (e', full) ↦ cc
    | inr (k, m₁, e', h, off, lower, p) ↦
        let same_ndx : k ≡ ndx = cc in
        let same_m : m₁ ≡ m' = cc in
        subst₂ (λ i x. Took pages m order i x) same_ndx same_m
          (record { in_range = h; off = off; lower = lower; marked = p })
  ]

-- Shifting an index that is not 0 by at least one digit makes it smaller.
shift-lt : (n k : ℕ) → 0 < n → 0 < k → n / 2 ^ k < n
shift-lt n zero p q = absurd (omega arith)
shift-lt n (suc k) p q = div-lt_self p (omega (arith, pow-suc 2 k, one-le-pow k 2))

-- `buddy_is_free` tells whether the page is unmarked in level 0, and panics from the number of
-- pages on.
pub is_free_lem :
    (pages : ℕ) (m : BuddyManager)
    → IsValid pages m
    → 0 < m.lvls
    → (page : ℕ) → page < 2 ^ 32
    → is_free m page ≡ (if ltb page pages then ok (not (used m 0 page)) else panic)
unfolding is_free
is_free_lem pages m v some_level page small =
    let whole : pages / 2 ^ 0 ≡ pages = omega arith in
    let read = get_level pages m 0 v some_level page small in
    elim (Bool-cases (ltb page pages)) [
      | inl fits ↦ rw fits (>>=-ok _ (read ∙ rw (whole, fits)) refl)
      | inr past ↦ rw past (>>=-panic _ (read ∙ rw (whole, past)))
    ]

page_in_range : (page c pages : ℕ) → 0 < c → page / c < pages / c → page < pages
page_in_range page c pages pos h = elim (dec_lt page pages) [
  | yes lt ↦ lt
  | no ge ↦
      let le : pages / c ≤ page / c =
        (le-div_iff_mul-le pos).1 (omega (arith, div-mul-le_self pages c)) in
      absurd (omega arith)
]

module _ (pages : ℕ) (m m' : BuddyManager) (order ndx : ℕ) where
  -- A chunk of two pages or more that is not the first of its level is not marked in its own level
  -- by the call of `buddy_alloc` that takes it.
  Took-unmarked :
      order < m.lvls → 0 < order → 0 < ndx → Took pages m order ndx m' → used m' order ndx ≡ false
  Took-unmarked lt big late t =
      let smaller = shift-lt ndx order late big in
      ground (arith, t.marked.chunks order ndx lt, t.off)

  found_same :
      order < m.lvls
      → Took pages m order ndx m'
      → used m' order ndx ≡ false
      → (k : ℕ) → used m' order k ≡ false
      → ((j : ℕ) → j < k → used m' order j ≡ true)
      → k ≡ ndx
  found_same lt t again k off lower = elim (dec_lt k ndx) [
    | yes before ↦ cc (
        let kept : used m' order k ≡ true =
          ground (arith, t.marked.chunks order k lt, t.lower k before) in
        kept)
    | no notbefore ↦ elim (dec_lt ndx k) [
      | yes after ↦ cc (lower ndx after)
      | no notafter ↦ omega arith
    ]
  ]

  -- In a level of at least two pages, a chunk that is not the first: the call of `buddy_alloc` that
  -- follows the one which took the chunk takes the same chunk.
  pub alloc_twice :
      IsValid pages m
      → order < m.lvls
      → 0 < order
      → 0 < ndx
      → alloc m order ≡ ok (some ndx, m')
      → (m'' : BuddyManager) × (alloc m' order ≡ ok (some ndx, m''))
  alloc_twice v lt big late e =
      let t = alloc-Took pages m order v lt ndx m' e in
      let again = Took-unmarked lt big late t in
      elim (alloc_lowest pages m' order t.marked.valid (omega (arith, t.marked.same_lvls))) [
        | inl (e', full) ↦ cc (full ndx t.in_range)
        | inr (k, m₁, e', h, off, lower, p) ↦
            let same : k ≡ ndx = found_same lt t again k off lower in
            (m₁, subst (λ i. alloc m' order ≡ ok (some i, m₁)) same e')
      ]

  -- After a call of `buddy_alloc` that took a chunk, each page of the chunk is marked in level 0.
  pub alloc_marks_pages :
      IsValid pages m
      → order < m.lvls
      → alloc m order ≡ ok (some ndx, m')
      → (page : ℕ) → page / 2 ^ order ≡ ndx
      → (used m' 0 page ≡ true) × (is_free m' page ≡ ok false)
  alloc_marks_pages v lt e page part =
      let t = alloc-Took pages m order v lt ndx m' e in
      let in_range : page < pages =
        page_in_range page (2 ^ order) pages (one-le-pow order 2 (omega arith))
          (rw part t.in_range) in
      let marked : used m' 0 page ≡ true =
        ground (arith, t.marked.chunks 0 page (omega arith), one-le-pow order 2) in
      let free' =
        is_free_lem pages m' t.marked.valid (omega (arith, t.marked.same_lvls)) page
          (omega (arith, v.pages_fit)) in
      (marked, ground arith)

-- With order 0, `buddy_alloc` on a valid manager returns the lowest page that is not marked, marks
-- it and no other page; or every page is marked, and it returns false and changes nothing.
pub alloc_page :
    (pages : ℕ) (m : BuddyManager)
    → IsValid pages m
    → 0 < m.lvls
    → (alloc m 0 ≡ ok (none, m)) × ((j : ℕ) → j < pages → used m 0 j ≡ true)
      ⊎ (page : ℕ) × (m' : BuddyManager) × (alloc m 0 ≡ ok (some page, m'))
        × IsValid pages m'
        × (page < pages)
        × (used m 0 page ≡ false)
        × ((j : ℕ) → j < page → used m 0 j ≡ true)
        × ((j : ℕ) → used m' 0 j ≡ (if j == page then true else used m 0 j))
alloc_page pages m v some_level = elim (alloc_lowest pages m 0 v some_level) [
  | inl (e, full) ↦ inl (e, λ j h. full j (omega arith))
  | inr (page, m', e, h, off, lower, p) ↦
      let in_range : page < pages = omega arith in
      inr (page, m', e, p.valid, in_range, off, lower, λ j. ground (arith, p.chunks 0 j some_level))
]
