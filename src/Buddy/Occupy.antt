-- ===== src/Buddy/Occupy.antt =====
-- Which chunks `occupy_buddys_descendants` and `free_buddys_children` mark.
use native.Mathlib.Nat.{div-le_self}
use native.Mathlib.Decide.{ℕ_discrete, dec_lt}
use yaeos.Prelude.{ℕ, zero, suc, ◌+◌, ◌-◌, ◌*◌, ◌/◌, ◌^◌, ◌<◌, ◌≡◌, arith}
use yaeos.Prelude.{Bool, true, false, ltb, ◌==◌, ◌&&◌, ◌||◌}
use yaeos.Word.{◌+w◌, shl}
use yaeos.Bits.Shift.{div-pow-suc_right}
use yaeos.Buddy.{BuddyManager, occupy_descendants, free_children}
use yaeos.Buddy.Levels.{IsValid, at_chunk, change_true, change_false}
use yaeos.Buddy.Levels.{Writes, Writes-none, Writes-bind, Writes-same}

-- The chunks strictly below chunk `bit` of level `lvl`.
abbrev pub below : ℕ → ℕ → ℕ → ℕ → Bool
below lvl bit l j = ltb l lvl && (j / 2 ^ (lvl - l) == bit)

-- They are its two halves and what lies below those, in the order of the writes.
below-suc :
    (lvl bit l j : ℕ)
    → (((below lvl (2 * bit + 1) l j || below lvl (2 * bit) l j) || at_chunk lvl (2 * bit + 1) l j)
        || at_chunk lvl (2 * bit) l j)
      ≡ below (suc lvl) bit l j
below-suc lvl bit l j = elim (dec_lt l lvl) [
  | yes lt ↦
      let next : suc lvl - l ≡ suc (lvl - l) = omega arith in
      rw next (ground (arith, div-pow-suc_right (lvl - l) j))
  | no ge ↦ elim (ℕ_discrete l lvl) [
    | yes e ↦ let one : suc lvl - l ≡ 1 = omega arith in rw one (ground arith)
    | no ne ↦ ground arith
  ]
]

-- The halves of a chunk lie in the level below.
pub halves :
    (pages lvl bit : ℕ)
    → bit < pages / 2 ^ suc lvl
    → pages < 2 ^ 31
    → (2 * bit + 1 < pages / 2 ^ lvl) × (shl bit 1 ≡ 2 * bit) × (2 * bit +w 1 ≡ 2 * bit + 1)
halves pages lvl bit h fit =
    let half = div-pow-suc_right lvl pages in omega (arith, div-le_self pages (2 ^ lvl))

-- `occupy_buddys_descendants` of a chunk marks all that lies below it, and nothing else.
pub occupy_descendants_lem :
    (pages : ℕ) (m : BuddyManager) (lvl bit : ℕ)
    → IsValid pages m
    → lvl < m.lvls
    → bit < pages / 2 ^ lvl
    → Writes pages true (below lvl bit) m (occupy_descendants m lvl bit)
unfolding occupy_descendants
occupy_descendants_lem pages m zero bit v lt h =
    Writes-same pages true _ _ m (λ l j _. ground arith) (Writes-none pages true m v)
occupy_descendants_lem pages m (suc lvl) bit v lt h =
    let (right, left_eq, right_eq) = halves pages lvl bit h v.pages_fit in
    rw (left_eq, right_eq)
      (Writes-same pages true _ _ m (λ l j _. below-suc lvl bit l j)
        (Writes-bind pages true _ _ m _
          (change_true pages m lvl v (omega arith) (2 * bit) (omega arith))
          λ m₁ p₁.
            Writes-bind pages true _ _ m₁ _
              (change_true pages m₁ lvl p₁.valid (omega (arith, p₁.same_lvls)) (2 * bit + 1) right)
              λ m₂ p₂.
                Writes-bind pages true _ _ m₂ _
                  (occupy_descendants_lem pages m₂ lvl (2 * bit) p₂.valid
                    (omega (arith, p₁.same_lvls, p₂.same_lvls)) (omega arith))
                  λ m₃ p₃.
                    occupy_descendants_lem pages m₃ lvl (2 * bit + 1) p₃.valid
                      (omega (arith, p₁.same_lvls, p₂.same_lvls, p₃.same_lvls)) right))

-- `free_buddys_children` of a chunk clears all that lies below it, and nothing else.
pub free_children_lem :
    (pages : ℕ) (m : BuddyManager) (lvl bit : ℕ)
    → IsValid pages m
    → lvl < m.lvls
    → bit < pages / 2 ^ lvl
    → Writes pages false (below lvl bit) m (free_children m lvl bit)
unfolding free_children
free_children_lem pages m zero bit v lt h =
    Writes-same pages false _ _ m (λ l j _. ground arith) (Writes-none pages false m v)
free_children_lem pages m (suc lvl) bit v lt h =
    let (right, left_eq, right_eq) = halves pages lvl bit h v.pages_fit in
    rw (left_eq, right_eq)
      (Writes-same pages false _ _ m (λ l j _. below-suc lvl bit l j)
        (Writes-bind pages false _ _ m _
          (change_false pages m lvl v (omega arith) (2 * bit) (omega arith))
          λ m₁ p₁.
            Writes-bind pages false _ _ m₁ _
              (change_false pages m₁ lvl p₁.valid (omega (arith, p₁.same_lvls)) (2 * bit + 1) right)
              λ m₂ p₂.
                Writes-bind pages false _ _ m₂ _
                  (free_children_lem pages m₂ lvl (2 * bit) p₂.valid
                    (omega (arith, p₁.same_lvls, p₂.same_lvls)) (omega arith))
                  λ m₃ p₃.
                    free_children_lem pages m₃ lvl (2 * bit + 1) p₃.valid
                      (omega (arith, p₁.same_lvls, p₂.same_lvls, p₃.same_lvls)) right))
