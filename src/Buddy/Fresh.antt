-- ===== src/Buddy/Fresh.antt =====
-- The loop of `buddy_init`: the bitmaps that it leaves.
use native.Mathlib.Nat.{div-le_self}
use yaeos.Prelude.{ℕ, zero, suc, ◌+◌, ◌/◌, ◌^◌, ◌≤◌, ◌<◌, ◌≡◌, arith, refl, ap}
use yaeos.Prelude.{false, ok, ◌∙◌, >>=-ok, List, [], ◌∷◌, length, get_or}
use yaeos.Prelude.{some, inl, inr}
use yaeos.Linear
use yaeos.Linear.{LinearAlloc}
use yaeos.Linear.Blocks
use yaeos.Linear.Blocks.{moved, alloc_lem}
use yaeos.Bitmap
use yaeos.Bitmap.{Bitmap}
use yaeos.Bitmap.Bit
use yaeos.Bitmap.Bit.{AreWords, bit}
use yaeos.Bitmap.Resize.{init_lem}
use yaeos.Buddy.{words_at, init_levels}
use yaeos.Buddy.Levels.{no_bitmap}
use yaeos.Buddy.Space.{level_bytes, bytes, HasChunk, get_max_index_lem}
use yaeos.Buddy.Space.{words_at_lem, level_bytes-div}

-- Fresh bitmaps of the levels from `lvl` on.
pub record Fresh (pages lvl rounds : ℕ) (bitmaps : List Bitmap) : Type 0 where
  pub count : length bitmaps ≡ rounds
  pub valid : (k : ℕ) → k < rounds → Bit.IsValid (get_or bitmaps k no_bitmap)
  pub lengths : (k : ℕ) → k < rounds → (get_or bitmaps k no_bitmap).length ≡ pages / 2 ^ (lvl + k)
  pub off :
      (k j : ℕ)
      → k < rounds
      → j < pages / 2 ^ (lvl + k)
      → bit (get_or bitmaps k no_bitmap) j ≡ false

Fresh-cons :
    (pages lvl rounds : ℕ) (b : Bitmap) (bitmaps : List Bitmap)
    → Bit.IsValid b
    → b.length ≡ pages / 2 ^ lvl
    → ((j : ℕ) → j < pages / 2 ^ lvl → bit b j ≡ false)
    → Fresh pages (suc lvl) rounds bitmaps
    → Fresh pages lvl (suc rounds) (b ∷ bitmaps)
Fresh-cons pages lvl rounds b bitmaps v len off f = record {
  count = ap suc f.count;
  valid = elim [ zero ↦ λ lt. v | suc k ↦ λ lt. f.valid k (omega arith) ];
  lengths = elim [
    | zero ↦ λ lt. rw (here lvl) len
    | suc k ↦ λ lt. rw (there lvl k) (f.lengths k (omega arith))
  ];
  off = elim [
    | zero ↦ λ j lt h. off j (rw (here lvl) at h)
    | suc k ↦ λ j lt h. f.off k j (omega arith) (rw (there lvl k) at h)
  ];
}
  where
    here : (l : ℕ) → l + 0 ≡ l
    here l = omega arith

    there : (l k : ℕ) → l + suc k ≡ suc l + k
    there l k = omega arith

-- One round of the loop of `buddy_init`, where each call of it returns.
init_levels-suc :
    (memory : ℕ → ℕ) (pages lvl rounds : ℕ) (alloc alloc' alloc'' : LinearAlloc) (p : ℕ)
    (b : Bitmap) (bitmaps : List Bitmap)
    → pages ≤ 2 ^ 20
    → 0 < pages / 2 ^ lvl
    → Linear.alloc alloc (level_bytes pages lvl) ≡ (some p, alloc')
    → Bitmap.init (words_at memory p (level_bytes pages lvl / 4)) (pages / 2 ^ lvl) ≡ ok b
    → init_levels memory pages (suc lvl) rounds alloc' ≡ ok (bitmaps, alloc'')
    → init_levels memory pages lvl (suc rounds) alloc ≡ ok (b ∷ bitmaps, alloc'')
unfolding init_levels
init_levels-suc memory pages lvl rounds alloc alloc' alloc'' p b bitmaps h pos e₁ e₂ e₃ =
    let (m₁, m₂, m₃) = get_max_index_lem pages lvl h pos in
    >>=-ok _ m₁ (rw m₂ (>>=-ok _ m₃ (rw (e₁, m₂) (>>=-ok _ e₂ (rw e₁ (>>=-ok _ e₃ refl))))))

init_levels-zero :
    (memory : ℕ → ℕ) (pages lvl : ℕ) (alloc : LinearAlloc)
    → init_levels memory pages lvl 0 alloc ≡ ok ([], alloc)
unfolding init_levels
init_levels-zero memory pages lvl alloc = refl

-- A request that fits is served.
pub served :
    (alloc : LinearAlloc) (n : ℕ)
    → Blocks.IsValid alloc
    → alloc.position + n ≤ alloc.limit
    → (Linear.alloc alloc n ≡ (some alloc.position, moved alloc (alloc.position + n)))
      × Blocks.IsValid (moved alloc (alloc.position + n))
served alloc n v fits = elim (alloc_lem alloc n v (omega (arith, v))) [
  | inl (le, e, v') ↦ (e, v')
  | inr (gt, e) ↦ absurd (omega arith)
]

pub init_levels_lem :
    (memory : ℕ → ℕ) (pages lvl rounds : ℕ) (alloc : LinearAlloc)
    → ((a : ℕ) → memory a < 2 ^ 32)
    → pages ≤ 2 ^ 20
    → HasChunk pages lvl rounds
    → Blocks.IsValid alloc
    → alloc.position + bytes pages lvl rounds ≤ alloc.limit
    → (bitmaps : List Bitmap) × (init_levels memory pages lvl rounds alloc
        ≡ ok (bitmaps, moved alloc (alloc.position + bytes pages lvl rounds)))
      × Fresh pages lvl rounds bitmaps
unfolding bytes
init_levels_lem memory pages lvl zero alloc mem h c v room = (
  [],
  init_levels-zero memory pages lvl alloc ∙ ap (λ (p : ℕ). ok ([], moved alloc p)) (omega arith),
  record {
    count = refl;
    valid = λ k lt. absurd (omega arith);
    lengths = λ k lt. absurd (omega arith);
    off = λ k j lt. absurd (omega arith);
  },
)
init_levels_lem memory pages lvl (suc rounds) alloc mem h (pos, c) v room =
    let n = level_bytes pages lvl in
    let (e, v') = served alloc n v (omega (arith, v)) in
    let (count, ws) = words_at_lem memory alloc.position (n / 4) mem in
    let (b, init_b, vb, len, off) =
      init_lem (words_at memory alloc.position (n / 4)) (pages / 2 ^ lvl) pos
        (omega (arith, div-le_self pages (2 ^ lvl)))
        (omega (arith, level_bytes-div pages lvl, count)) ws in
    let (bitmaps, rest, f) =
      init_levels_lem memory pages (suc lvl) rounds (moved alloc (alloc.position + n)) mem h c v'
        (omega (arith, room)) in
    (
      b ∷ bitmaps,
      init_levels-suc memory pages lvl rounds alloc _ _ alloc.position b bitmaps h pos e init_b rest
          ∙ ap (λ (p : ℕ). ok (b ∷ bitmaps, moved alloc p)) (omega arith),
      Fresh-cons pages lvl rounds b bitmaps vb len off f,
    )
