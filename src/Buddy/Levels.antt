-- ===== src/Buddy/Levels.antt =====
-- The chunks of a buddy manager as a function of level and index, its invariant, and how one write
-- to the bitmap of a level changes it.
use native.Mathlib.Nat.{div-le_self}
use native.Mathlib.Decide.{ℕ_discrete}
use yaeos.Prelude.{ℕ, ◌/◌, ◌^◌, ◌<◌, ◌≡◌, arith, refl}
use yaeos.Prelude.{Bool, true, false, [], length, get_or, set, get_elem?-eq-get_or, ok}
use yaeos.Prelude.{
  ltb, ◌==◌, ◌&&◌, if◌then◌else◌, get_or-set_self, get_or-set_ne, length-set, ◌>>=◌,
}
use yaeos.Prelude.{some, panic, Outcome, >>=-ok, ◌∙◌, ◌||◌, ==_refl, ==_ne, get_elem?}
use yaeos.Bitmap
use yaeos.Bitmap.{Bitmap}
use yaeos.Bitmap.Bit
use yaeos.Bitmap.Bit.{bit, get_lem}
use yaeos.Bitmap.Update.{with_true, with_false, set_true-eq, set_false-eq}
use yaeos.Bitmap.Update.{with_true-IsValid, with_false-IsValid, bit-with_true, bit-with_false}
use yaeos.Buddy.{BuddyManager, at_level, change_level}

abbrev pub no_bitmap : Bitmap
no_bitmap = record { bitsets = []; sets_count = 0; length = 0 }

abbrev pub level : BuddyManager → ℕ → Bitmap
level m l = get_or m.lvl_bitmaps l no_bitmap

-- Chunk `j` of level `l`, which has 2 ^ l pages, is marked as occupied.
abbrev pub used : BuddyManager → ℕ → ℕ → Bool
used m l j = bit (level m l) j

-- The bitmaps are those of the levels of `pages` pages: level `l` has a bit for each whole chunk.
pub record IsValid (pages : ℕ) (m : BuddyManager) : Type 0 where
  pub count : length m.lvl_bitmaps ≡ m.lvls
  pub bitmaps : (l : ℕ) → l < m.lvls → Bit.IsValid (level m l)
  pub lengths : (l : ℕ) → l < m.lvls → (level m l).length ≡ pages / 2 ^ l
  pub pages_fit : pages < 2 ^ 31
  pub few_levels : m.lvls < 32

-- What a run of writes of the value `v` has done: `c` tells at which chunks.
pub record Marked (pages : ℕ) (v : Bool) (c : ℕ → ℕ → Bool) (m m' : BuddyManager) : Type 0 where
  pub valid : IsValid pages m'
  pub same_lvls : m'.lvls ≡ m.lvls
  pub same_alloc : m'.alloc ≡ m.alloc
  pub chunks : (l j : ℕ) → l < m.lvls → used m' l j ≡ (if c l j then v else used m l j)

-- A call that returns, having written `v` at the chunks `c` of the manager and nothing else.
abbrev pub Writes : ℕ → Bool → (ℕ → ℕ → Bool) → BuddyManager → Outcome BuddyManager → Type 0
Writes pages v c m call = (m' : BuddyManager) × (call ≡ ok m') × Marked pages v c m m'

abbrev pub with_level : BuddyManager → ℕ → Bitmap → BuddyManager
with_level m l b = record m { lvl_bitmaps = set m.lvl_bitmaps l b }

level-with_level :
    (m : BuddyManager) (l : ℕ) (b : Bitmap) (k : ℕ)
    → l < length m.lvl_bitmaps
    → level (with_level m l b) k ≡ (if l == k then b else level m k)
level-with_level m l b k h = elim (ℕ_discrete l k) [
  | yes e ↦ rw (← e, ==_refl l) (get_or-set_self m.lvl_bitmaps l b no_bitmap h)
  | no ne ↦ rw (==_ne l k ne) (get_or-set_ne m.lvl_bitmaps l k b no_bitmap ne)
]

-- One level replaced by a valid bitmap of the same length.
with_level-IsValid :
    (pages : ℕ) (m : BuddyManager) (l : ℕ) (b : Bitmap)
    → IsValid pages m
    → l < m.lvls
    → Bit.IsValid b
    → b.length ≡ pages / 2 ^ l
    → IsValid pages (with_level m l b)
with_level-IsValid pages m l b v lt vb len = record {
  count = length-set m.lvl_bitmaps l b ∙ v.count;
  bitmaps = λ k h. elim (ℕ_discrete l k) [
    | yes e ↦ rw (level-with_level m l b k (omega (arith, v.count)), ← e, ==_refl l) vb
    | no ne ↦ rw (level-with_level m l b k (omega (arith, v.count)), ==_ne l k ne) (v.bitmaps k h)
  ];
  lengths = λ k h. elim (ℕ_discrete l k) [
    | yes e ↦ rw (level-with_level m l b k (omega (arith, v.count)), ← e, ==_refl l) len
    | no ne ↦ rw (level-with_level m l b k (omega (arith, v.count)), ==_ne l k ne) (v.lengths k h)
  ];
  pages_fit = v.pages_fit;
  few_levels = v.few_levels;
}

-- The chunk that one write is at.
abbrev pub at_chunk : ℕ → ℕ → ℕ → ℕ → Bool
at_chunk l i k j = (l == k) && (i == j)

used-with_level :
    (m : BuddyManager) (l i : ℕ) (b : Bitmap) (v : Bool) (k j : ℕ)
    → l < length m.lvl_bitmaps
    → ((j : ℕ) → bit b j ≡ (if i == j then v else used m l j))
    → used (with_level m l b) k j ≡ (if at_chunk l i k j then v else used m k j)
used-with_level m l i b v k j h bits = elim (ℕ_discrete l k) [
  | yes e ↦ rw (level-with_level m l b k h, ← e, ==_refl l) (bits j)
  | no ne ↦ rw (level-with_level m l b k h, ==_ne l k ne)
]

-- A write below the length of a level marks that chunk alone.
module _ (pages : ℕ) (m : BuddyManager) (l : ℕ) (v : IsValid pages m) (lt : l < m.lvls) where
  pub level_read : get_elem? m.lvl_bitmaps l ≡ some (level m l)
  level_read = get_elem?-eq-get_or m.lvl_bitmaps l no_bitmap (omega (arith, v.count))

  -- Reading a bit of a level: it is there below the length.
  pub get_level :
      (j : ℕ)
      → j < 2 ^ 32
      → at_level (λ b. Bitmap.get b j) m l
        ≡ (if ltb j (pages / 2 ^ l) then ok (used m l j) else panic)
  get_level j h = rw (level_read, ← v.lengths l lt) (get_lem (level m l) j (v.bitmaps l lt) h)

  module _ (i : ℕ) (h : i < pages / 2 ^ l) where
    pub change_true :
        Writes pages true (at_chunk l i) m (change_level (λ b. Bitmap.set_true b i) m l)
    change_true =
        let b = level m l in
        let vb = v.bitmaps l lt in
        let in_range : i < b.length = omega (arith, v.lengths l lt) in
        let small : i < 2 ^ 32 = omega (arith, v.pages_fit, div-le_self pages (2 ^ l)) in
        let written : Bitmap.set_true b i ≡ ok (with_true b i) =
          ground (arith, set_true-eq b i vb small) in
        (
          with_level m l (with_true b i),
          rw (level_read, written),
          record {
            valid =
                with_level-IsValid pages m l (with_true b i) v lt
                  (with_true-IsValid b i vb in_range) (v.lengths l lt);
            same_lvls = refl;
            same_alloc = refl;
            chunks = λ k j _.
                used-with_level m l i (with_true b i) true k j (omega (arith, v.count))
                  (bit-with_true b i vb in_range);
          },
        )

    pub change_false :
        Writes pages false (at_chunk l i) m (change_level (λ b. Bitmap.set_false b i) m l)
    change_false =
        let b = level m l in
        let vb = v.bitmaps l lt in
        let in_range : i < b.length = omega (arith, v.lengths l lt) in
        let small : i < 2 ^ 32 = omega (arith, v.pages_fit, div-le_self pages (2 ^ l)) in
        let written : Bitmap.set_false b i ≡ ok (with_false b i) =
          ground (arith, set_false-eq b i vb small) in
        (
          with_level m l (with_false b i),
          rw (level_read, written),
          record {
            valid =
                with_level-IsValid pages m l (with_false b i) v lt
                  (with_false-IsValid b i vb in_range) (v.lengths l lt);
            same_lvls = refl;
            same_alloc = refl;
            chunks = λ k j _.
                used-with_level m l i (with_false b i) false k j (omega (arith, v.count))
                  (bit-with_false b i vb in_range);
          },
        )

-- No write; two runs of writes; the same chunks told another way.
Marked-none :
    (pages : ℕ) (v : Bool) (m : BuddyManager) → IsValid pages m → Marked pages v (λ _ _. false) m m
Marked-none pages v m h = record {
  valid = h;
  same_lvls = refl;
  same_alloc = refl;
  chunks = λ l j lt. refl;
}

Marked-trans :
    (pages : ℕ) (v : Bool) (c d : ℕ → ℕ → Bool) (m₁ m₂ m₃ : BuddyManager)
    → Marked pages v c m₁ m₂
    → Marked pages v d m₂ m₃
    → Marked pages v (λ l j. d l j || c l j) m₁ m₃
Marked-trans pages v c d m₁ m₂ m₃ p q = record {
  valid = q.valid;
  same_lvls = q.same_lvls ∙ p.same_lvls;
  same_alloc = q.same_alloc ∙ p.same_alloc;
  chunks = λ l j lt. ground (arith, p.chunks l j lt, q.chunks l j (omega (arith, p.same_lvls)));
}

Marked-same :
    (pages : ℕ) (v : Bool) (c d : ℕ → ℕ → Bool) (m m' : BuddyManager)
    → ((l j : ℕ) → l < m.lvls → c l j ≡ d l j)
    → Marked pages v c m m'
    → Marked pages v d m m'
Marked-same pages v c d m m' e p = record {
  valid = p.valid;
  same_lvls = p.same_lvls;
  same_alloc = p.same_alloc;
  chunks = λ l j lt. ground (arith, p.chunks l j lt, e l j lt);
}

module _ (pages : ℕ) (v : Bool) where
  pub Writes-none : (m : BuddyManager) → IsValid pages m → Writes pages v (λ _ _. false) m (ok m)
  Writes-none m h = (m, refl, Marked-none pages v m h)

  pub Writes-bind :
      (c d : ℕ → ℕ → Bool) (m : BuddyManager) {call : Outcome BuddyManager}
      (f : BuddyManager → Outcome BuddyManager)
      → Writes pages v c m call
      → ((m' : BuddyManager) → Marked pages v c m m' → Writes pages v d m' (f m'))
      → Writes pages v (λ l j. d l j || c l j) m (call >>= f)
  Writes-bind c d m f (m₁, e, p) next =
      let (m₂, e', p') = next m₁ p in (m₂, >>=-ok f e e', Marked-trans pages v c d m m₁ m₂ p p')

  pub Writes-same :
      (c d : ℕ → ℕ → Bool) (m : BuddyManager) {call : Outcome BuddyManager}
      → ((l j : ℕ) → l < m.lvls → c l j ≡ d l j)
      → Writes pages v c m call
      → Writes pages v d m call
  Writes-same c d m e (m', r, p) = (m', r, Marked-same pages v c d m m' e p)
