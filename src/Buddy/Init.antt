-- ===== src/Buddy/Init.antt =====
-- `buddy_predict_req_space` and `buddy_init`: what a manager over enough memory starts from.
use native.Mathlib.Nat.{one-le-pow, pow-le-pow_right, le-div_iff_mul-le, zero-add}
use native.Mathlib.Decide.{dec_lt}
use yaeos.Prelude.{ℕ, zero, suc, ◌+◌, ◌-◌, ◌*◌, ◌/◌, ◌^◌, ◌≤◌, ◌<◌, ◌≡◌, arith, ap}
use yaeos.Prelude.{false, ok, ◌∙◌, >>=-ok, List}
use yaeos.Prelude.{some, ==_refl}
use yaeos.Word.{◌+w◌, ◌-w◌, ◌*w◌}
use yaeos.Utils.{log2_floor}
use yaeos.Utils.Log2.{log2_floor_lem}
use yaeos.Linear
use yaeos.Linear.{LinearAlloc}
use yaeos.Linear.Blocks
use yaeos.Linear.Blocks.{moved, alloc_lem}
use yaeos.Bitmap.{Bitmap}
use yaeos.Buddy.{BuddyManager, predict_req_space, init_levels, init}
use yaeos.Buddy.Levels.{used, IsValid}
use yaeos.Buddy.Space.{bytes, bytes-le, HasChunk, get_max_index_lem, predict_bitmaps_lem}
use yaeos.Buddy.Fresh.{Fresh, init_levels_lem, served}

-- The levels of `pages` pages: the exponents of the powers of two up to it.
HasChunk-levels :
    (pages l lvl rounds : ℕ) → 2 ^ l ≤ pages → lvl + rounds ≤ l + 1 → HasChunk pages lvl rounds
HasChunk-levels pages l lvl zero low le = tt
HasChunk-levels pages l lvl (suc rounds) low le =
    let up : 2 ^ lvl ≤ 2 ^ l = pow-le-pow_right (omega arith) (omega arith) in
    let pos = one-le-pow lvl 2 (omega arith) in
    (
      (le-div_iff_mul-le pos).1 (omega arith),
      HasChunk-levels pages l (suc lvl) rounds low (omega arith),
    )

-- `buddy_predict_req_space` of 1 to 2 ^ 20 pages is the size of the bitmaps of all levels and of
-- the array that holds them.
predict_req_space_lem :
    (pages l : ℕ)
    → pages ≤ 2 ^ 20
    → log2_floor pages ≡ ok l
    → l < 32
    → 2 ^ l ≤ pages
    → predict_req_space pages ≡ ok (bytes pages 0 (l + 1) + (l + 1) * 12)
unfolding predict_req_space
predict_req_space_lem pages l h e lt low =
    let small = bytes-le pages 0 (l + 1) h in
    let lvls : l +w 1 ≡ l + 1 = omega arith in
    let sum =
      predict_bitmaps_lem pages 0 (l + 1) 0 h (HasChunk-levels pages l 0 (l + 1) low (omega arith))
        (omega arith) in
    >>=-ok _ e (rw lvls (>>=-ok _ sum (ap ok (omega arith))))

-- `buddy_init` where each call of it returns.
init-eq :
    (memory : ℕ → ℕ) (pages l : ℕ) (alloc array after : LinearAlloc) (p need : ℕ)
    (bitmaps : List Bitmap)
    → 0 < pages
    → pages ≤ 2 ^ 20
    → l < 32
    → log2_floor pages ≡ ok l
    → Linear.alloc alloc ((l + 1) * 12) ≡ (some p, array)
    → init_levels memory pages 0 (l + 1) array ≡ ok (bitmaps, after)
    → predict_req_space pages ≡ ok need
    → Linear.occupied after -w Linear.occupied alloc ≡ need
    → init memory pages alloc
      ≡ ok (pages - 1, record { alloc = after; lvl_bitmaps = bitmaps; lvls = l + 1 })
unfolding init
init-eq memory pages l alloc array after p need bitmaps pos h lt e₁ e₂ e₃ e₄ e₅ =
    let lvls : l +w 1 ≡ l + 1 = omega arith in
    let size : (l + 1) *w 12 ≡ (l + 1) * 12 = omega arith in
    let whole : pages / 2 ^ 0 ≡ pages = omega arith in
    let (last, _, _) = get_max_index_lem pages 0 h (omega arith) in
    >>=-ok _ e₁ (
      rw (lvls, size, e₂)
        (>>=-ok _ e₃ (
          >>=-ok _ e₄ (
            rw (e₅, ==_refl need)
              (>>=-ok _ last (
                ap
                  (λ (n : ℕ).
                    ok (n - 1, record { alloc = after; lvl_bitmaps = bitmaps; lvls = l + 1 }))
                  whole))))))

few_levels : (l : ℕ) → 2 ^ l ≤ 2 ^ 20 → l < 21
few_levels l h = elim (dec_lt l 21) [
  | yes lt ↦ lt
  | no ge ↦
      let up : 2 ^ 21 ≤ 2 ^ l = pow-le-pow_right (omega arith) {i = 21} {j = l} (omega arith) in
      absurd (omega arith)
]

occupied-moved :
    (a : LinearAlloc) (p : ℕ)
    → Blocks.IsValid a
    → a.position ≤ p
    → p ≤ a.limit
    → Linear.occupied (moved a p) -w Linear.occupied a ≡ p - a.position
unfolding Linear.occupied
occupied-moved a p v low high = omega (arith, v)

-- A manager of fresh bitmaps.
Fresh-IsValid :
    (pages l : ℕ) (alloc : LinearAlloc) (bitmaps : List Bitmap)
    → pages ≤ 2 ^ 20
    → l < 21
    → Fresh pages 0 (l + 1) bitmaps
    → let m : BuddyManager = record { alloc = alloc; lvl_bitmaps = bitmaps; lvls = l + 1 } in
      IsValid pages m × ((k j : ℕ) → k < l + 1 → j < pages / 2 ^ k → used m k j ≡ false)
Fresh-IsValid pages l alloc bitmaps h few f = (
  record {
    count = f.count;
    bitmaps = f.valid;
    lengths = λ k lt. f.lengths k lt ∙ ap (λ (n : ℕ). pages / 2 ^ n) (zero-add k);
    pages_fit = omega arith;
    few_levels = omega arith;
  },
  λ k j lt q. f.off k j lt (rw (zero-add k) q),
)

-- For 1 to 2 ^ 20 pages and a valid linear allocator with at least the predicted space left,
-- `buddy_init` takes exactly the predicted space, returns the number of pages less one, and gives a
-- valid manager in which no chunk of any level is marked, whatever the memory held.
pub init_all_free :
    (memory : ℕ → ℕ) (pages need : ℕ) (alloc : LinearAlloc)
    → ((a : ℕ) → memory a < 2 ^ 32)
    → 0 < pages
    → pages ≤ 2 ^ 20
    → Blocks.IsValid alloc
    → predict_req_space pages ≡ ok need
    → alloc.position + need ≤ alloc.limit
    → (m : BuddyManager) × (init memory pages alloc ≡ ok (pages - 1, m))
      × IsValid pages m
      × (0 < m.lvls)
      × (m.alloc ≡ moved alloc (alloc.position + need))
      × ((l j : ℕ) → l < m.lvls → j < pages / 2 ^ l → used m l j ≡ false)
init_all_free memory pages need alloc mem pos h v predicted room =
    let (l, e, lt, low, high) = log2_floor_lem pages pos (omega arith) in
    let total = predict_req_space_lem pages l h e lt low in
    let same : bytes pages 0 (l + 1) + (l + 1) * 12 ≡ need = cc in
    let (array, v₁) = served alloc ((l + 1) * 12) v (omega arith) in
    let chunks = HasChunk-levels pages l 0 (l + 1) low (omega arith) in
    let (bitmaps, e₂, f) =
      init_levels_lem memory pages 0 (l + 1) (moved alloc (alloc.position + (l + 1) * 12)) mem h
        chunks v₁ (omega arith) in
    let after = moved alloc (alloc.position + (l + 1) * 12 + bytes pages 0 (l + 1)) in
    let taken : Linear.occupied after -w Linear.occupied alloc ≡ need =
      occupied-moved alloc _ v (omega arith) (omega arith) ∙ omega arith in
    let (valid, off) = Fresh-IsValid pages l after bitmaps h (few_levels l (omega arith)) f in
    (
      record { alloc = after; lvl_bitmaps = bitmaps; lvls = l + 1 },
      init-eq memory pages l alloc _ after alloc.position need bitmaps pos h lt e array e₂ predicted
          taken,
      valid,
      omega arith,
      ap (moved alloc) (omega arith),
      off,
    )
